-- ===== src/Gencode/Compile.antt =====
-- grammar.y and gencode.c: the blocks of an expression of tests, `and`, `or` and `not`.
--
-- The parser runs the action of an operand before that of the operator, and the left operand before
-- the right one.
mod Built
pub mod Finish
pub mod Walk
mod Tests
use gap16g_libpcap.Base.{ℕ, suc, ◌+◌, Bool, not, ◌&&◌, ◌||◌, Option, none, some}
use gap16g_libpcap.Gencode.{
  Branch, test, ret, Heap, field, new_block, gen_not, gen_and, gen_or, finish_parse, ◌>>=◌,
}

-- The expressions of the grammar; a term is one test, the block that its rule makes.
pub data Expr : Type 0 where
  term : ℕ → Expr
  both_of : Expr → Expr → Expr
  either_of : Expr → Expr → Expr
  none_of : Expr → Expr

-- What an expression means for a packet, for which `holds` says which tests hold.
abbrev pub meaning : Expr → (Branch → Bool) → Bool
meaning (term n) holds = holds (test n)
meaning (both_of a b) holds = meaning a holds && meaning b holds
meaning (either_of a b) holds = meaning a holds || meaning b holds
meaning (none_of a) holds = not (meaning a holds)

-- The number of blocks.
abbrev pub size : Expr → ℕ
size (term n) = 1
size (both_of a b) = size a + size b
size (either_of a b) = size a + size b
size (none_of a) = size a

-- The heap, the next block to allocate, and `$$.b`.
unfoldable pub actions : ℕ → Expr → Heap → ℕ → Option (Heap × ℕ × ℕ)
actions fuel (term n) h next = some (new_block h next (test n), suc next, next)
actions fuel (both_of a b) h next = actions fuel a h next >>= λ (h1, next1, p).
    actions fuel b h1 next1 >>= λ (h2, next2, q). gen_and fuel h2 p q >>= λ h3. some (h3, next2, q)
actions fuel (either_of a b) h next = actions fuel a h next >>= λ (h1, next1, p).
    actions fuel b h1 next1 >>= λ (h2, next2, q). gen_or fuel h2 p q >>= λ h3. some (h3, next2, q)
actions fuel (none_of a) h next =
    actions fuel a h next >>= λ (h1, next1, p). some (gen_not h1 p, next1, p)

-- The program of an expression: all blocks, and the one to start at.
unfoldable pub filter : ℕ → Expr → Heap → ℕ → Option (Heap × ℕ)
filter fuel e h snaplen =
    actions fuel e h 0 >>= λ (h1, next, p). finish_parse fuel h1 next p snaplen
