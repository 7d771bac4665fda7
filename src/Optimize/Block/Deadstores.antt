-- ===== src/Optimize/Block/Deadstores.antt =====
-- optimize.c: `opt_deadstores` beside the run of a block.
use gap16g_libpcap.Base.{
  ℕ, zero, suc, ◌<◌, ◌≡◌, refl, sym, ap, ◌∙◌, arith, Bool, true, false, not, ◌||◌, none, some, List,
  length, ◌⊎◌, inl, inr, Bool-cases,
}
use gap16g_libpcap.Bpf.Filter.{Machine, running}
use gap16g_libpcap.Optimize.Stmt.{Stmt}
use gap16g_libpcap.Optimize.Meaning.{reg}
use gap16g_libpcap.Optimize.Block.{
  Use, atomuse, atomdef, deleted, Stores, forget, deadstmt, deadstmts, atom_elem, drop_unused,
  opt_deadstores,
}
use gap16g_libpcap.Optimize.Block.Effect.{uses}
use gap16g_libpcap.Optimize.Block.Runs.{IsStmt, run_stmts}
use gap16g_libpcap.Optimize.Block.Erase.{forget-some, delete_last-stmts, delete_last-last}
use gap16g_libpcap.Optimize.Block.Kept.{untouched, deadstmts-Kept}

drop_unused-last : (out_use k : ℕ) (d : Stores) → (drop_unused out_use k d).last ≡ d.last
unfolding drop_unused
drop_unused-last out_use zero d = refl
drop_unused-last out_use (suc k) d = elim (Bool-cases (atom_elem out_use k)) [
  | inl out ↦ rw out (drop_unused-last out_use k d)
  | inr unused ↦ rw unused (
      delete_last-last (drop_unused out_use k d) ((drop_unused out_use k d).last k)
      ∙ drop_unused-last out_use k d)
]

-- What the loop over the atoms deletes.
drop_unused-stmts :
    (out_use k : ℕ) (d : Stores) (i : ℕ)
    → ((drop_unused out_use k d).stmts i ≡ d.stmts i)
      ⊎ ((a : ℕ) × (atom_elem out_use a ≡ false)
          × (d.last a ≡ some i)
          × ((drop_unused out_use k d).stmts i ≡ deleted (d.stmts i)))
unfolding drop_unused
drop_unused-stmts out_use zero d i = inl refl
drop_unused-stmts out_use (suc k) d i =
    let d' = drop_unused out_use k d in
    let earlier = drop_unused-stmts out_use k d i in
    elim (Bool-cases (atom_elem out_use k)) [
      | inl out ↦ rw out earlier
      | inr unused ↦ rw unused (elim (delete_last-stmts d' (d'.last k) i) [
        | inl same ↦ elim earlier [
          | inl whole ↦ inl (same ∙ whole)
          | inr (a, out, at, gone) ↦ inr (a, out, at, same ∙ gone)
        ]
        | inr (at, gone) ↦ inr (
          k,
          unused,
          ap (λ l. l k) (sym (drop_unused-last out_use k d)) ∙ at,
          gone ∙ (elim earlier [
            | inl whole ↦ ap deleted whole
            | inr (a, out, at', gone') ↦ ap deleted gone'
          ]),
        )
      ])
    ]

-- The atoms of a block that no one reads behind it.
abbrev unread : ℕ → Use → ℕ → Bool
unread out_use u a = not (atom_elem out_use a || uses u a)

-- Behind the statements, `b->s` only uses atoms.
deadstmt_end :
    (n : ℕ) (d : Stores) (s : Stmt)
    → d.stmts n ≡ s
    → atomdef s ≡ none
    → deadstmt n d ≡ record d { last = forget (atomuse s) d.last }
unfolding deadstmt
deadstmt_end n d s is last = rw (is, last) refl

-- A block that runs through its statements does so too without the stores that `opt_deadstores`
-- deletes, and ends with the same values in every atom that is in `out_use` or that the last
-- statement uses; that statement is kept. The block has no jump or return before its end, uses
-- existing scratch words, and its last statement defines nothing.
pub opt_deadstores-agree :
    (p : List ℕ) (wirelen buflen out_use n : ℕ) (f : ℕ → Stmt) (m M : Machine)
    → ((i : ℕ) → i < n → IsStmt (f i))
    → atomdef (f n) ≡ none
    → length m.mem ≡ 16
    → run_stmts p wirelen buflen f n m ≡ running M
    → ((opt_deadstores out_use n f).stmts n ≡ f n)
      × ((M' : Machine) × (run_stmts p wirelen buflen (opt_deadstores out_use n f).stmts n m
            ≡ running M')
          × ((a : ℕ)
              → a < 18
              → (atom_elem out_use a || uses (atomuse (f n)) a) ≡ true
              → reg M a ≡ reg M' a))
unfolding opt_deadstores
opt_deadstores-agree p wirelen buflen out_use n f m M inner last words runs =
    let d = deadstmts n (untouched p wirelen buflen f m) in
    let kept = deadstmts-Kept p wirelen buflen f m n M inner words runs in
    let u = atomuse (f n) in
    let e : Stores = record d { last = forget u d.last } in
    rw (deadstmt_end n d (f n) (kept.rest n (omega arith)) last) (
      (
        elim (drop_unused-stmts out_use 18 e n) [
          | inl same ↦ same ∙ kept.rest n (omega arith)
          | inr (a, out, at, gone) ↦
              absurd (omega (arith, kept.below a n (forget-some u d.last a n at).0))
        ],
        (let (M', ends, words', agree) =
              kept.same (unread out_use u) (drop_unused out_use 18 e).stmts (λ i lt.
                elim (drop_unused-stmts out_use 18 e i) [
                  | inl same ↦ inl same
                  | inr (a, out, at, gone) ↦
                      let (was, free) = forget-some u d.last a i at in
                      inr (a, rw (out, free) refl, was, gone)
                ]) in
            (M', ends, λ a h read. agree a h (rw read refl))),
      ))
