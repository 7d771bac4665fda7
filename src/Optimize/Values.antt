-- ===== src/Optimize/Values.antt =====
-- optimize.c: the value numbers, `F`, `K` and `init_val`.
--
-- `vnode_base` is an array that opt_init makes large enough; here the nodes are in the lists that
-- the table's chains are. An `int` is its 32-bit pattern.
use Prim.Native.Nat.{bit_xor}
use gap16g_libpcap.Base.{
  ℕ, ◌+◌, ◌*◌, ◌%◌, ◌^◌, Bool, Option, none, some, List, [], ◌∷◌, ◌&&◌, ◌||◌, ◌==◌, if◌then◌else◌,
}
use gap16g_libpcap.Bpf.Insn.{bpf_class, bpf_mode, bpf_ld, bpf_ldx, bpf_imm}

-- `struct valnode`: the value `val` of the expression `code v0 v1`.
pub record Node : Type 0 where
  pub code : ℕ
  pub v0 : ℕ
  pub v1 : ℕ
  pub val : ℕ

abbrev pub modulus : ℕ
modulus = 213

-- `curval`, `vmap` (`none` where `is_const` is 0) and `hashtbl`.
pub record Table : Type 0 where
  pub curval : ℕ
  pub vmap : ℕ → Option ℕ
  pub hashtbl : ℕ → List Node

unfoldable pub init_val : Table
init_val = record { curval = 0; vmap = λ v. none; hashtbl = λ h. [] }

unfoldable pub hash : ℕ → ℕ → ℕ → ℕ
hash code v0 v1 = bit_xor (bit_xor code (v0 * 2 ^ 4 % 2 ^ 32)) (v1 * 2 ^ 8 % 2 ^ 32) % modulus

-- The walk along a chain.
unfoldable pub find_node : ℕ → ℕ → ℕ → List Node → Option ℕ
find_node code v0 v1 [] = none
find_node code v0 v1 (p ∷ chain) =
    if p.code == code && (p.v0 == v0 && p.v1 == v1) then some p.val else find_node code v0 v1 chain

abbrev pub update {ℓ} : {A : Type ℓ} → (ℕ → A) → ℕ → A → ℕ → A
update f i a j = if j == i then a else f j

abbrev pub is_immediate : ℕ → Bool
is_immediate code =
    bpf_mode code == bpf_imm && (bpf_class code == bpf_ld || bpf_class code == bpf_ldx)

-- What `F` does for an expression that is not in the table.
unfoldable pub add_node : Table → ℕ → ℕ → ℕ → ℕ × Table
add_node t code v0 v1 =
    let val = t.curval + 1 in
    let h = hash code v0 v1 in
    (
      val,
      record {
        curval = val;
        vmap = if is_immediate code then update t.vmap val (some v0) else t.vmap;
        hashtbl =
            update t.hashtbl h (record { code = code; v0 = v0; v1 = v1; val = val } ∷ t.hashtbl h);
      },
    )

abbrev pub found_or_new : Option ℕ → Table → ℕ → ℕ → ℕ → ℕ × Table
found_or_new (some val) t code v0 v1 = (val, t)
found_or_new none t code v0 v1 = add_node t code v0 v1

-- `F`: the value number of an expression, and the table with it.
unfoldable pub intern : Table → ℕ → ℕ → ℕ → ℕ × Table
intern t code v0 v1 = found_or_new (find_node code v0 v1 (t.hashtbl (hash code v0 v1))) t code v0 v1

-- `K(i)`: the value number of a constant.
unfoldable pub constant : Table → ℕ → ℕ × Table
unfolding intern
constant t i = intern t 0 i 0

-- `vmap[v].const_val`, which is 0 where nothing was stored.
abbrev pub const_val : Option ℕ → ℕ
const_val none = 0
const_val (some c) = c
