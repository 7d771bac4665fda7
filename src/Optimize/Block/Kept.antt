-- ===== src/Optimize/Block/Kept.antt =====
-- optimize.c: the run of a block in which `deadstmt` deletes statements.
use gap16g_libpcap.Base.{
  ℕ, zero, suc, ◌<◌, ◌≤◌, ◌≡◌, ◌≢◌, refl, sym, ap, ◌∙◌, arith, Bool, true, false, Option, none,
  some, List, length, inl, inr,
}
use mathlib.Core.Path.{subst}
use gap16g_libpcap.Bpf.Filter.{Machine, running}
use gap16g_libpcap.Optimize.Stmt.{Stmt}
use gap16g_libpcap.Optimize.Correct.State.{perform}
use gap16g_libpcap.Optimize.Block.{
  Use, atomuse, atomdef, deleted, Stores, forget, define, deadstmt, deadstmts,
}
use gap16g_libpcap.Optimize.Block.Runs.{
  IsStmt, Agree, run_stmts, run_stmts-suc, run_stmts-go_on, Stepped, perform-Stepped,
  perform-deleted, perform-Agree,
}
use gap16g_libpcap.Optimize.Block.Erase.{
  Erased, atom-cases, before, before-off, before-kept, forget-some, define-stmts, define-last,
}

module _ (p : List ℕ) (wirelen buflen : ℕ) (f : ℕ → Stmt) (m : Machine) where
  -- Behind `n` statements, the run of the given ones ends in `M`, and what is left of them after
  -- any further deletions ends in a machine that differs in the atoms of these alone.
  pub record Kept (n : ℕ) (d : Stores) (M : Machine) : Type 0 where
    pub rest : (i : ℕ) → n ≤ i → d.stmts i ≡ f i
    pub below : (a j : ℕ) → d.last a ≡ some j → j < n
    pub words : length M.mem ≡ 16
    pub same :
        (off : ℕ → Bool) (g : ℕ → Stmt)
        → Erased d.last d.stmts off n g
        → (M' : Machine) × (run_stmts p wirelen buflen g n m ≡ running M')
          × (length M'.mem ≡ 16)
          × Agree off M M'

  module _ (n : ℕ) (d : Stores) (M N : Machine) (kept : Kept n d M) (inner : IsStmt (f n))
      (step : perform p wirelen buflen (f n) M ≡ running N) where
    abbrev used : Use
    used = atomuse (f n)

    abbrev defined : Option ℕ
    defined = atomdef (f n)

    abbrev read : Stores
    read = record d { last = forget used d.last }

    abbrev done : Stores
    done = define defined n read

    read-below : (a j : ℕ) → read.last a ≡ some j → j < n
    read-below a j e = kept.below a j (forget-some used d.last a j e).0

    before-Erased :
        (off : ℕ → Bool) (g : ℕ → Stmt)
        → Erased done.last done.stmts off (suc n) g
        → Erased d.last d.stmts (before used defined off) n g
    before-Erased off g erased i lt = elim (erased i (omega arith)) [
      | inl whole ↦ elim (define-stmts n read read-below defined i) [
        | inl same ↦ inl (whole ∙ same)
        | inr (b, def, at, gone) ↦
            let (was, free) = forget-some used d.last b i at in
            inr (b, before-kept used defined off b free (inr def), was, whole ∙ gone)
      ]
      | inr (a, chosen, at, gone) ↦ elim (define-last n read read-below defined a i at) [
        | inl (here, def) ↦ absurd (omega arith)
        | inr (other, at') ↦
            let (was, free) = forget-some used d.last a i at' in
            inr (
              a,
              before-kept used defined off a free (inl chosen),
              was,
              gone ∙ (elim (define-stmts n read read-below defined i) [
                | inl same ↦ ap deleted same
                | inr (b, def, at'', gone') ↦ ap deleted gone'
              ]),
            )
      ]
    ]

    stepped : Stepped p wirelen buflen (f n) M N
    stepped = perform-Stepped p wirelen buflen (f n) M N inner kept.words step

    done-here : done.stmts n ≡ f n
    done-here = elim (define-stmts n read read-below defined n) [
      | inl same ↦ same ∙ kept.rest n (omega arith)
      | inr (b, def, at, gone) ↦ absurd (omega (arith, read-below b n at))
    ]

    module _ (off : ℕ → Bool) (g : ℕ → Stmt) (M' : Machine)
        (runs : run_stmts p wirelen buflen g n m ≡ running M') (words : length M'.mem ≡ 16)
        (agree : Agree (before used defined off) M M') where
      abbrev Reaches : Type 0
      Reaches =
          (N' : Machine) × (run_stmts p wirelen buflen g (suc n) m ≡ running N')
          × (length N'.mem ≡ 16)
          × Agree off N N'

      -- The statement is still there.
      whole-Reaches : g n ≡ f n → Reaches
      whole-Reaches whole =
          let (N', step', wrote) =
            perform-Agree p wirelen buflen (f n) M M' N (before used defined off) inner kept.words
              words agree (λ a u. rw u refl) step in
          let stepped' = perform-Stepped p wirelen buflen (f n) M' N' inner words step' in
          (
            N',
            run_stmts-go_on p wirelen buflen g n m M' runs ∙ rw whole step',
            stepped'.words,
            λ a h kept_atom. elim (atom-cases defined a) [
              | inl def ↦ wrote a def
              | inr other ↦
                  stepped.keeps a h other
                  ∙ agree a h (before-off used defined off a kept_atom other)
                  ∙ sym (stepped'.keeps a h other)
            ],
          )

      -- It is deleted, and what it defines may be wrong.
      gone-Reaches : (b : ℕ) → off b ≡ true → defined ≡ some b → g n ≡ deleted (f n) → Reaches
      gone-Reaches b chosen def gone = (
        record M' { pc = 0 },
        run_stmts-go_on p wirelen buflen g n m M' runs
            ∙ rw gone (perform-deleted p wirelen buflen (f n) M'),
        words,
        λ a h kept_atom.
            let other : defined ≢ some a = λ e. cc (def, chosen, kept_atom) in
            stepped.keeps a h other ∙ agree a h (before-off used defined off a kept_atom other),
      )

    done-same :
        (off : ℕ → Bool) (g : ℕ → Stmt)
        → Erased done.last done.stmts off (suc n) g
        → (M' : Machine) × (run_stmts p wirelen buflen g (suc n) m ≡ running M')
          × (length M'.mem ≡ 16)
          × Agree off N M'
    done-same off g erased =
        let (M', runs, words, agree) =
          kept.same (before used defined off) g (before-Erased off g erased) in
        elim (erased n (omega arith)) [
          | inl whole ↦ whole-Reaches off g M' runs words agree (whole ∙ done-here)
          | inr (a, chosen, at, gone) ↦ elim (define-last n read read-below defined a n at) [
            | inl (_, def) ↦
                gone-Reaches off g M' runs words agree a chosen def (gone ∙ ap deleted done-here)
            | inr (other, at') ↦ absurd (omega (arith, read-below a n at'))
          ]
        ]

    done-Kept : Kept (suc n) done N
    done-Kept = record {
      rest = λ i le. elim (define-stmts n read read-below defined i) [
        | inl same ↦ same ∙ kept.rest i (omega arith)
        | inr (b, def, at, gone) ↦ absurd (omega (arith, read-below b i at))
      ];
      below = λ a j e. elim (define-last n read read-below defined a j e) [
        | inl (here, def) ↦ omega arith
        | inr (other, at) ↦ omega (arith, read-below a j at)
      ];
      words = stepped.words;
      same = done-same;
    }

    deadstmt-Kept : Kept (suc n) (deadstmt n d) N
    unfolding deadstmt
    deadstmt-Kept =
        subst
          (λ s.
            Kept (suc n) (define (atomdef s) n (record d { last = forget (atomuse s) d.last })) N)
          (sym (kept.rest n (omega arith))) done-Kept

  abbrev pub untouched : Stores
  untouched = record { stmts = f; last = λ a. none; again = false }

  pub deadstmts-Kept :
      (n : ℕ) (M : Machine)
      → ((i : ℕ) → i < n → IsStmt (f i))
      → length m.mem ≡ 16
      → run_stmts p wirelen buflen f n m ≡ running M
      → Kept n (deadstmts n untouched) M
  unfolding deadstmts run_stmts
  deadstmts-Kept zero M inner words runs =
      let here : m ≡ M = cc in
      subst (Kept 0 untouched) here (record {
        rest = λ i le. refl;
        below = λ a j e. cc;
        words = words;
        same = λ off g erased. (m, refl, words, λ a h k. refl);
      })
  deadstmts-Kept (suc n) N inner words runs =
      let (M, first, step) = run_stmts-suc p wirelen buflen f n m N runs in
      deadstmt-Kept n (deadstmts n untouched) M N
        (deadstmts-Kept n M (λ i lt. inner i (omega arith)) words first) (inner n (omega arith))
        step
