-- ===== src/Gencode/Compile/Walk.antt =====
-- gencode.c: the walk of a packet through the blocks, from branch to branch, to what it returns.
use gap16g_libpcap.Base.{ℕ, zero, suc, Bool, Option, none, some}
use gap16g_libpcap.Gencode.{Branch, test, ret, Heap, field}

unfoldable pub walk : ℕ → (Branch → Bool) → Heap → ℕ → Option ℕ
walk zero holds h i = none
walk (suc fuel) holds h i = elim (h i).code [
  | ret v ↦ some v
  | test n ↦ elim (field (h i) (holds (test n))) [ none ↦ none | some j ↦ walk fuel holds h j ]
]
