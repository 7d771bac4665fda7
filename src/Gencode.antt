-- ===== src/Gencode.antt =====
-- gencode.c: the blocks of a filter, and how the exits of blocks are joined.
--
-- A pointer to a block is its index, and the heap gives the block at each index; allocation takes
-- the next one. `JT(b)` and `JF(b)`, the targets, are links to other blocks of the list while they
-- are unresolved. The lists are walked on fuel, one unit for a block; `none` means that it ran out.
pub mod Chains
pub mod Joined
pub mod And
pub mod Or
pub mod Walk
pub mod Fields
pub mod Exits
pub mod Join
pub mod Append
pub mod Parts
pub mod Relink
pub mod Keep
pub mod Single
pub mod Compile
pub mod Registers
use gap16g_libpcap.Base.{
  ℕ, zero, suc, ◌+◌, Bool, true, false, not, Option, none, some, ◌==◌, if◌then◌else◌,
}

-- The statements of a block and the branch at its end: the tests are numbered, and a return
-- block has the value that it returns.
pub data Branch : Type 0 where
  test : ℕ → Branch
  ret : ℕ → Branch

-- `struct block`: its code, the targets, `sense` and `head`.
pub record Blk : Type 0 where
  pub code : Branch
  pub jt : Option ℕ
  pub jf : Option ℕ
  pub sense : Bool
  pub head : ℕ

abbrev pub Heap : Type 0
Heap = ℕ → Blk

-- `JT(b)` or `JF(b)`.
abbrev pub field : Blk → Bool → Option ℕ
field b true = b.jt
field b false = b.jf

abbrev pub put_field : Blk → Bool → Option ℕ → Blk
put_field b true v = record b { jt = v }
put_field b false v = record b { jf = v }

abbrev pub set_block : Heap → ℕ → Blk → Heap
set_block h i b j = if j == i then b else h j

-- The field that `sense` names: `!sense` is JT.
abbrev pub link : Blk → Option ℕ
link b = field b (not b.sense)

abbrev pub put_link : Blk → ℕ → Blk
put_link b t = put_field b (not b.sense) (some t)

unfoldable pub backpatch : ℕ → Heap → Option ℕ → ℕ → Option Heap
backpatch fuel h none target = some h
backpatch zero h (some i) target = none
backpatch (suc fuel) h (some i) target =
    backpatch fuel (set_block h i (put_link (h i) target)) (link (h i)) target

-- `merge(b0, b1)`, with a block `b0`.
unfoldable pub merge : ℕ → Heap → ℕ → ℕ → Option Heap
merge zero h b0 b1 = none
merge (suc fuel) h b0 b1 = elim (link (h b0)) [
  | none ↦ some (set_block h b0 (put_link (h b0) b1))
  | some next ↦ merge fuel h next b1
]

-- `b->sense = !b->sense`, which is all of `gen_not`.
abbrev pub gen_not : Heap → ℕ → Heap
gen_not h b = set_block h b (record (h b) { sense = not (h b).sense })

-- `b1->head = b0->head`.
abbrev pub share_head : Heap → ℕ → ℕ → Heap
share_head h b0 b1 = set_block h b1 (record (h b1) { head = (h b0).head })

infixl 5 ◌>>=◌
abbrev pub ◌>>=◌ : {A B : Type 0} → Option A → (A → Option B) → Option B
none >>= f = none
some x >>= f = f x

unfoldable pub gen_and : ℕ → Heap → ℕ → ℕ → Option Heap
gen_and fuel h b0 b1 = backpatch fuel h (some b0) (h b1).head >>= λ h1.
    merge fuel (gen_not (gen_not h1 b0) b1) b1 b0 >>= λ h2. some (share_head (gen_not h2 b1) b0 b1)

unfoldable pub gen_or : ℕ → Heap → ℕ → ℕ → Option Heap
gen_or fuel h b0 b1 = backpatch fuel (gen_not h b0) (some b0) (h b1).head >>= λ h1.
    merge fuel (gen_not h1 b0) b1 b0 >>= λ h2. some (share_head h2 b0 b1)

abbrev pub new_block : Heap → ℕ → Branch → Heap
new_block h i code =
    set_block h i (record { code = code; jt = none; jf = none; sense = false; head = i })

-- `gen_retblk`.
abbrev pub gen_retblk : Heap → ℕ → ℕ → Heap
gen_retblk h i v = new_block h i (ret v)

-- `finish_parse` where no lengths are loaded and no link type is tested: `snaplen` is what an
-- accepted packet returns, `next` the next block to allocate. The result has `root`.
unfoldable pub finish_parse : ℕ → Heap → ℕ → ℕ → ℕ → Option (Heap × ℕ)
finish_parse fuel h next p snaplen =
    backpatch fuel (gen_retblk h next snaplen) (some p) next >>= λ h1.
    backpatch fuel (gen_retblk (gen_not h1 p) (suc next) 0) (some p) (suc next) >>= λ h2.
    some (h2, (h2 p).head)
