-- ===== src/Optimize/Correct/Store.antt =====
-- optimize.c: `vstore` and the assignments to `val[]`.
use gap16g_libpcap.Base.{
  ℕ, ◌≤◌, ◌<◌, ◌≡◌, refl, ap, arith, Bool, Option, none, some, List, ◌&&◌, ◌==◌, Bool-cases,
  Option-cases, inl, inr,
}
use gap16g_libpcap.Bpf.Insn.{decode}
use gap16g_libpcap.Bpf.Filter.{Machine, Outcome, running, returned, aborted, faulted}
use gap16g_libpcap.Optimize.Values.{Table, intern}
use gap16g_libpcap.Optimize.Stmt.{Work, value_of, with_table, vstore, store_new, assign}
use gap16g_libpcap.Optimize.Meaning.{reg, ArgsFit, meaning, Extends}
use gap16g_libpcap.Optimize.Intern.{intern-Extends, intern-none}
use gap16g_libpcap.Optimize.Correct.State.{
  put, put_self, perform, perform-nop, Describes, Describes-extend, Describes-set,
}

abbrev pub Stops : Outcome → Type 0
Stops (running m) = ⊥
Stops _ = Unit

-- The outcome is a write of the value, or a stop where there is none.
abbrev pub Writes : Machine → ℕ → Outcome → Option ℕ → Type 0
Writes m atom o (some x) = o ≡ running (put atom x m)
Writes m atom o none = Stops o

module _ (p : List ℕ) (wirelen buflen : ℕ) where
  -- The work `r` is correct for a statement with outcome `o` on `m`: where that goes on to a
  -- machine, so does the new statement, and the new numbers describe that machine; where it
  -- returns, so does the new statement. Undefined behaviour leaves the new statement free.
  abbrev pub Correct : Machine → Outcome → Work → Type 0
  Correct m (running m') r =
      (perform p wirelen buflen r.stmt m ≡ running m')
      × ((ρ : ℕ → ℕ) × Describes p wirelen buflen ρ r m')
  Correct m (returned v) r = perform p wirelen buflen r.stmt m ≡ returned v
  Correct m aborted r = Unit
  Correct m (faulted f) r = Unit

  pub Correct-same :
      (m : Machine) (r : Work) (o : Outcome)
      → Stops o
      → perform p wirelen buflen r.stmt m ≡ o
      → Correct m o r
  Correct-same m r (running m') h e = absurd h
  Correct-same m r (returned v) h e = e
  Correct-same m r aborted h e = tt
  Correct-same m r (faulted f) h e = tt

  module _ (ρ : ℕ → ℕ) (w : Work) (m : Machine) (d : Describes p wirelen buflen ρ w m) (atom : ℕ)
      (is_atom : atom < 18) where
    -- `vstore` of a number that has the value which the statement writes.
    pub vstore-Correct :
        (alter : Bool) (v x : ℕ)
        → ρ v ≡ x
        → v ≤ w.table.curval
        → perform p wirelen buflen w.stmt m ≡ running (put atom x m)
        → Correct m (running (put atom x m)) (vstore alter atom v w)
    unfolding vstore
    vstore-Correct alter v x e le runs = elim (Bool-cases (alter && value_of w atom == v)) [
      | inl same ↦
          let held : reg m atom ≡ x = ground (arith, d.regs atom is_atom) in
          rw (same, put_self m d.words atom x is_atom held)
            (
              perform-nop p wirelen buflen w.stmt.k m,
              (
                ρ,
                record {
                  sound = d.sound;
                  regs = d.regs;
                  fits = d.fits;
                  atoms = d.atoms;
                  words = d.words;
                },
              ),
            )
      | inr other ↦
          rw other (runs, (ρ, Describes-set p wirelen buflen ρ w m atom x v d is_atom e le))
    ]

  vstore_fresh :
      (alter : Bool) (atom v : ℕ) (w : Work)
      → value_of w atom < v
      → (vstore alter atom v w).stmt ≡ w.stmt
  unfolding vstore
  vstore_fresh alter atom v w less = ground arith

  module _ (ρ : ℕ → ℕ) (w : Work) (m : Machine) (d : Describes p wirelen buflen ρ w m) (atom : ℕ)
      (is_atom : atom < 18) where
    module _ (code v0 v1 : ℕ) (args : ArgsFit w.table.curval (decode code) v0 v1)
        (writes : Writes m atom
          (perform p wirelen buflen w.stmt m)
          (meaning p wirelen buflen ρ (decode code) v0 v1)) where
      abbrev number : ℕ
      number = (intern w.table code v0 v1).0

      abbrev table' : Table
      table' = (intern w.table code v0 v1).1

      extends :
          (x : ℕ)
          → meaning p wirelen buflen ρ (decode code) v0 v1 ≡ some x
          → Extends p wirelen buflen ρ w.table x number table'
      extends x e = intern-Extends p wirelen buflen ρ w.table d.sound code v0 v1 x args e

      pub store_new-Correct :
          (alter : Bool)
          → Correct m
              (perform p wirelen buflen w.stmt m)
              (store_new alter atom (intern w.table code v0 v1) w)
      store_new-Correct alter =
          elim (Option-cases (meaning p wirelen buflen ρ (decode code) v0 v1)) [
            | inl stops ↦
                let less : value_of w atom < number = omega (
                  arith,
                  intern-none p wirelen buflen ρ w.table code v0 v1 d.sound stops,
                  d.fits atom is_atom,
                ) in
                Correct-same m (store_new alter atom (intern w.table code v0 v1) w)
                  (perform p wirelen buflen w.stmt m) (rw stops at writes)
                  (ap (λ s. perform p wirelen buflen s m)
                    (vstore_fresh alter atom number (with_table w table') less))
            | inr (x, e) ↦
                let ex = extends x e in
                rw (rw e at writes) (
                  vstore-Correct ex.rho (with_table w table') m
                    (Describes-extend p wirelen buflen ρ w m x number table' d ex) atom is_atom
                    alter number x ex.is ex.fits (rw e at writes))
          ]

      pub assign-Correct :
          Correct m (perform p wirelen buflen w.stmt m) (assign atom (intern w.table code v0 v1) w)
      assign-Correct = elim (Option-cases (meaning p wirelen buflen ρ (decode code) v0 v1)) [
        | inl stops ↦
            Correct-same m (assign atom (intern w.table code v0 v1) w)
              (perform p wirelen buflen w.stmt m) (rw stops at writes) refl
        | inr (x, e) ↦
            let ex = extends x e in
            rw (rw e at writes) (
              rw e at writes,
              (
                ex.rho,
                Describes-set p wirelen buflen ex.rho (with_table w table') m atom x number
                    (Describes-extend p wirelen buflen ρ w m x number table' d ex) is_atom ex.is
                    ex.fits,
              ),
            )
      ]
