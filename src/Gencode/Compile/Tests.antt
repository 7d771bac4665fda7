-- ===== src/Gencode/Compile/Tests.antt =====
-- gencode.c: the filter of `0 and not (1 or 2)`, as a packet runs through it.
use gap16g_libpcap.Base.{ℕ, ◌==◌, ◌≡◌, refl, arith, Bool, false, Option, none, some, if◌then◌else◌}
use gap16g_libpcap.Gencode.{
  Branch, test, ret, Heap, backpatch, merge, gen_and, gen_or, finish_parse,
}
use gap16g_libpcap.Gencode.Compile.{
  Expr, term, both_of, either_of, none_of, meaning, actions, filter,
}
use gap16g_libpcap.Gencode.Compile.Walk.{walk}
use gap16g_libpcap.Gencode.Compile.Finish.Program.{filter-meaning}

abbrev expression : Expr
expression = both_of (term 0) (none_of (either_of (term 1) (term 2)))

abbrev no_blocks : Heap
no_blocks i = record { code = ret 0; jt = none; jf = none; sense = false; head = 0 }

-- The packets for which one test holds.
abbrev only : ℕ → Branch → Bool
only n (test m) = m == n
only n (ret v) = false

abbrev result_of : (Branch → Bool) → Option ℕ
result_of holds = elim (filter 3 expression no_blocks 96) [
  | none ↦ none
  | some (h, root) ↦ walk 4 holds h root
]

accepted : result_of (only 0) ≡ some 96
unfolding actions filter walk backpatch merge gen_and gen_or finish_parse
accepted = refl

rejected : result_of (only 1) ≡ some 0
unfolding actions filter walk backpatch merge gen_and gen_or finish_parse
rejected = refl

filter-meaning_example :
    (h' : Heap) × (root : ℕ) × (filter 3 expression no_blocks 96 ≡ some (h', root))
    × ((holds : Branch → Bool)
        → walk 4 holds h' root ≡ some (if meaning expression holds then 96 else 0))
filter-meaning_example = filter-meaning 3 expression no_blocks 96 (omega arith)
