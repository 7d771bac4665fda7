-- ===== src/Optimize/Block/Runs.antt =====
-- optimize.c: the statements of a block, performed one after the other.
use gap16g_libpcap.Base.{
  ℕ, zero, suc, ◌<◌, ◌≡◌, refl, sym, ap, ◌∙◌, arith, Bool, true, false, Option, none, some, List,
  ◌==◌, ==_iff, if◌then◌else◌, length, ◌⊎◌, inl, inr, ◌≢◌,
}
use mathlib.Core.Path.{subst}
use gap16g_libpcap.Bpf.Insn.{ld_abs, ld_ind, alu, konst, index, jump}
use gap16g_libpcap.Bpf.Insn.{Op, decode}
use gap16g_libpcap.Bpf.Filter.{Machine, Outcome, running, returned, aborted, faulted}
use gap16g_libpcap.Optimize.Stmt.{Stmt, nop}
use gap16g_libpcap.Optimize.Meaning.{reg}
use gap16g_libpcap.Optimize.Correct.State.{put, perform, perform-nop, reg-put, put-words}
use gap16g_libpcap.Optimize.Correct.Store.{Writes}
use gap16g_libpcap.Optimize.Block.{atomuse, atomdef, deleted}
use gap16g_libpcap.Optimize.Block.Effect.{
  IsInner, atomdef-nop, target, perform-Writes, uses, source, atomuse-source, atomdef-target,
  target-lt, written-agree,
}

-- A statement of a block: deleted, or an operation that does not end it.
abbrev pub IsStmt : Stmt → Type 0
IsStmt s = (s.code ≡ nop) ⊎ ((op : Op) × (decode s.code ≡ some op) × IsInner op s.k)

-- The two machines hold the same in every atom that is not in `off`.
abbrev pub Agree : (ℕ → Bool) → Machine → Machine → Type 0
Agree off m m' = (a : ℕ) → a < 18 → off a ≡ false → reg m a ≡ reg m' a

module _ (p : List ℕ) (wirelen buflen : ℕ) where
  abbrev pub go_on : (Machine → Outcome) → Outcome → Outcome
  go_on f (running m) = f m
  go_on f (returned v) = returned v
  go_on f aborted = aborted
  go_on f (faulted e) = faulted e

  -- The first `n` statements.
  unfoldable pub run_stmts : (ℕ → Stmt) → ℕ → Machine → Outcome
  run_stmts f zero m = running m
  run_stmts f (suc n) m = go_on (perform p wirelen buflen (f n)) (run_stmts f n m)

  go_on-running :
      (f : Machine → Outcome) (o : Outcome) (m : Machine)
      → go_on f o ≡ running m
      → (m' : Machine) × (o ≡ running m') × (f m' ≡ running m)
  go_on-running f (running m') m e = (m', refl, e)
  go_on-running f (returned v) m e = cc
  go_on-running f aborted m e = cc
  go_on-running f (faulted x) m e = cc

  pub run_stmts-suc :
      (f : ℕ → Stmt) (n : ℕ) (m m' : Machine)
      → run_stmts f (suc n) m ≡ running m'
      → (mid : Machine) × (run_stmts f n m ≡ running mid)
        × (perform p wirelen buflen (f n) mid ≡ running m')
  unfolding run_stmts
  run_stmts-suc f n m m' e = go_on-running (perform p wirelen buflen (f n)) (run_stmts f n m) m' e

  pub run_stmts-go_on :
      (f : ℕ → Stmt) (n : ℕ) (m mid : Machine)
      → run_stmts f n m ≡ running mid
      → run_stmts f (suc n) m ≡ perform p wirelen buflen (f n) mid
  unfolding run_stmts
  run_stmts-go_on f n m mid e = rw e refl

  pub run_stmts-ext :
      (f g : ℕ → Stmt) (n : ℕ) (m : Machine)
      → ((i : ℕ) → i < n → f i ≡ g i)
      → run_stmts f n m ≡ run_stmts g n m
  unfolding run_stmts
  run_stmts-ext f g zero m same = refl
  run_stmts-ext f g (suc n) m same =
      rw (run_stmts-ext f g n m (λ i lt. same i (omega arith)), same n (omega arith)) refl

  Writes-running :
      (m m' : Machine) (atom : ℕ) (o : Outcome) (v : Option ℕ)
      → Writes m atom o v
      → o ≡ running m'
      → (x : ℕ) × (v ≡ some x) × (m' ≡ put atom x m)
  Writes-running m m' atom o (some x) w e = (x, refl, cc)
  Writes-running m m' atom o none w e = absurd (rw e at w)

  uses-lt : (op : Op) (k a : ℕ) → IsInner op k → uses (source op k) a ≡ true → a < 18
  unfolding uses
  uses-lt (ld_abs z) k a h u = cc
  uses-lt (ld_ind z) k a h u = ground arith
  uses-lt (alu o konst) k a h u = ground arith
  uses-lt (alu o index) k a h u = ground arith
  uses-lt (jump c z) k a h u = absurd h
  uses-lt _ k a h u = ground arith

  if_other : (a b x y : ℕ) → a ≢ b → (if a == b then x else y) ≡ y
  if_other a b x y h = ground arith

  reg-put_self : (m : Machine) (b x : ℕ) → length m.mem ≡ 16 → b < 18 → reg (put b x m) b ≡ x
  reg-put_self m b x words lt = reg-put m words b x lt b ∙ rw ((==_iff b b).1 refl) refl

  -- What a step leaves alone.
  pub record Stepped (s : Stmt) (m m' : Machine) : Type 0 where
    pub words : length m'.mem ≡ 16
    pub keeps : (a : ℕ) → a < 18 → atomdef s ≢ some a → reg m' a ≡ reg m a

  nop-running :
      (s : Stmt) (m : Machine)
      → s.code ≡ nop
      → perform p wirelen buflen s m ≡ running (record m { pc = 0 })
  nop-running s m e =
      ap (λ c. perform p wirelen buflen (record { code = c; k = s.k }) m) e
      ∙ perform-nop p wirelen buflen s.k m

  pub perform-deleted :
      (s : Stmt) (m : Machine)
      → perform p wirelen buflen (deleted s) m ≡ running (record m { pc = 0 })
  perform-deleted s m = perform-nop p wirelen buflen s.k m

  pub perform-Stepped :
      (s : Stmt) (m m' : Machine)
      → IsStmt s
      → length m.mem ≡ 16
      → perform p wirelen buflen s m ≡ running m'
      → Stepped s m m'
  perform-Stepped s m m' (inl e) words runs =
      let same : record m { pc = 0 } ≡ m' = cc (nop-running s m e) in
      subst (Stepped s m) same (record { words = words; keeps = λ a h other. refl })
  perform-Stepped s m m' (inr (op, e, inner)) words runs =
      let (x, _, is) =
        Writes-running m m' (target op s.k) _ _
          (perform-Writes p wirelen buflen s m op e inner words) runs in
      let lt = target-lt op s.k inner in
      rw is (record {
        words = put-words m words (target op s.k) x lt;
        keeps = λ a h other.
            reg-put m words (target op s.k) x lt a
            ∙ if_other a (target op s.k) x (reg m a)
                (λ same. other (atomdef-target s op e inner ∙ ap some (sym same)));
      })

  -- Where the atoms that a statement uses are the same, so is what it writes.
  pub perform-Agree :
      (s : Stmt) (m n m' : Machine) (off : ℕ → Bool)
      → IsStmt s
      → length m.mem ≡ 16
      → length n.mem ≡ 16
      → Agree off m n
      → ((a : ℕ) → uses (atomuse s) a ≡ true → off a ≡ false)
      → perform p wirelen buflen s m ≡ running m'
      → (n' : Machine) × (perform p wirelen buflen s n ≡ running n')
        × ((a : ℕ) → atomdef s ≡ some a → reg m' a ≡ reg n' a)
  perform-Agree s m n m' off (inl e) wm wn agree on runs =
      (record n { pc = 0 }, nop-running s n e, λ a d. cc (atomdef-nop s e))
  perform-Agree s m n m' off (inr (op, e, inner)) wm wn agree on runs =
      let (x, gives, is) =
        Writes-running m m' (target op s.k) _ _ (perform-Writes p wirelen buflen s m op e inner wm)
          runs in
      let same = written-agree p wirelen buflen op s.k (reg n) (reg m) (λ a u.
        sym (agree a (uses-lt op s.k a inner u) (on a (rw (atomuse-source s op e inner) u)))) in
      let lt = target-lt op s.k inner in
      (
        put (target op s.k) x n,
        rw (same ∙ gives) at (perform-Writes p wirelen buflen s n op e inner wn),
        λ a d.
            let at : target op s.k ≡ a = cc (atomdef-target s op e inner) in
            rw is (
              subst (λ b. reg (put (target op s.k) x m) b ≡ reg (put (target op s.k) x n) b) at
                (reg-put_self m (target op s.k) x wm lt
                  ∙ sym (reg-put_self n (target op s.k) x wn lt))),
      )
