-- ===== src/Optimize/Correct/Arith.antt =====
-- optimize.c, `fold_op`: folding beside the arithmetic of bpf_filter.c.
use mathlib.Core.Path.{subst}
use gap16g_libpcap.Base.{
  ℕ, ◌-◌, ◌%◌, ◌^◌, ◌≡◌, refl, sym, ◌∙◌, arith, true, Option, none, some, List,
}
use gap16g_libpcap.Bpf.Insn.{decode, encode, decode-encode, Source, konst}
use gap16g_libpcap.Bpf.Insn.{Alu, div, lsh, rsh}
use gap16g_libpcap.Bpf.Insn.{ld_imm, alu, neg}
use gap16g_libpcap.Bpf.Filter.{
  Machine, Outcome, running, Value, value, undefined, alu_value, set_a, arith_a, execute, div_zero,
  bad_shift,
}
use gap16g_libpcap.Optimize.Values.{constant}
use gap16g_libpcap.Optimize.Stmt.{
  Stmt, Work, Result, optimized, failed, undefined as undefined_fold, value_of, a_atom, known,
  with_table, assign, Folded, folded, error, shift, fold_value, finish_fold, fold_op, new_with_k,
  opt_neg,
}
use gap16g_libpcap.Optimize.Meaning.{Extends}
use gap16g_libpcap.Optimize.Intern.{intern-Extends}
use gap16g_libpcap.Optimize.Correct.State.{
  put, strip, perform, perform-op, Describes, Describes-extend,
}
use gap16g_libpcap.Optimize.Correct.Store.{Correct, Stops, assign-Correct}
use gap16g_libpcap.Optimize.Correct.Loads.{known-reg, assign-constant-Correct, set_a-Writes}
use gap16g_libpcap.Optimize.Correct.State.{Describes-rewrite}

-- What folding two constants is to give, where the machine computes this value.
abbrev pub Agrees : Folded → Value → Type 0
Agrees (folded a) v = v ≡ value a
Agrees error v = v ≡ undefined div_zero
Agrees shift v = v ≡ undefined bad_shift

-- Folding an operation on two constants gives the value that the machine computes, for each of the
-- operations; it reports an error exactly where the machine divides by 0, and is undefined exactly
-- where the machine shifts by 32 bits or more.
pub fold_value-Agrees : (o : Alu) (a b : ℕ) → Agrees (fold_value o a b) (alu_value o a b)
unfolding fold_value alu_value
fold_value-Agrees div a b = ground arith
fold_value-Agrees lsh a b = ground arith
fold_value-Agrees rsh a b = ground arith
fold_value-Agrees _ a b = refl

module _ (p : List ℕ) (wirelen buflen : ℕ) (ρ : ℕ → ℕ) (w : Work) (m : Machine)
    (d : Describes p wirelen buflen ρ w m) where
  abbrev Keeps : Work → Type 0
  Keeps r = Correct p wirelen buflen m (perform p wirelen buflen w.stmt m) r

  pub neg_run :
      (s : Stmt)
      → decode s.code ≡ some neg
      → perform p wirelen buflen s m ≡ running (put a_atom ((2 ^ 32 - m.a) % 2 ^ 32) m)
  neg_run s e = perform-op p wirelen buflen s m neg e ∙ (unfold execute in refl)

  pub imm_run :
      (k : ℕ)
      → perform p wirelen buflen (record { code = encode ld_imm; k = k }) m
        ≡ running (put a_atom k m)
  imm_run k =
      perform-op p wirelen buflen (record { code = encode ld_imm; k = k }) m ld_imm
        (decode-encode ld_imm)
      ∙ (unfold execute in refl)

  pub alu_k_run :
      (s : Stmt) (o : Alu)
      → decode s.code ≡ some (alu o konst)
      → perform p wirelen buflen s m ≡ strip (set_a (alu_value o m.a s.k) m)
  alu_k_run s o e =
      perform-op p wirelen buflen s m (alu o konst) e ∙ (unfold execute arith_a in refl)

  -- `K(i)` extends the table, keeping the description.
  pub constant-Extends :
      (i : ℕ) → Extends p wirelen buflen ρ w.table i (constant w.table i).0 (constant w.table i).1
  unfolding constant decode
  constant-Extends i = intern-Extends p wirelen buflen ρ w.table d.sound 0 i 0 i tt refl

  pub neg-Correct :
      (o : Option ℕ)
      → ((c : ℕ) → o ≡ some c → known w (value_of w a_atom) ≡ some c)
      → decode w.stmt.code ≡ some neg
      → Keeps (opt_neg o w)
  unfolding opt_neg
  neg-Correct none knows e =
      assign-Correct p wirelen buflen ρ w m d a_atom (omega arith) w.stmt.code (value_of w a_atom) 0
        (rw e (d.fits a_atom (omega arith))) (rw (e, neg_run w.stmt e, d.regs a_atom (omega arith)))
  neg-Correct (some c) knows e =
      let held : m.a ≡ c =
        known-reg p wirelen buflen ρ w m d true a_atom c (omega arith) (knows c refl) in
      let k : ℕ = (2 ^ 32 - c) % 2 ^ 32 in
      let s : Stmt = record { code = encode ld_imm; k = k } in
      subst (λ o. Correct p wirelen buflen m o (opt_neg (some c) w))
        (imm_run k ∙ sym (rw (← held) (neg_run w.stmt e)))
        (assign-constant-Correct p wirelen buflen ρ (record w { stmt = s }) m
          (Describes-rewrite p wirelen buflen ρ w m s w.again d) true k (imm_run k))

-- What is kept where folding may fail: it fails only where the statement stops the machine.
abbrev pub ResultCorrect : List ℕ → ℕ → ℕ → Machine → Outcome → Result → Type 0
ResultCorrect p wirelen buflen m o (optimized r) = Correct p wirelen buflen m o r
ResultCorrect p wirelen buflen m o failed = Stops o
ResultCorrect p wirelen buflen m o undefined_fold = Stops o

module _ (p : List ℕ) (wirelen buflen : ℕ) (ρ : ℕ → ℕ) (w : Work) (m : Machine)
    (d : Describes p wirelen buflen ρ w m) (o : Alu) where
  abbrev KeepsResult : Result → Type 0
  KeepsResult r = ResultCorrect p wirelen buflen m (perform p wirelen buflen w.stmt m) r

  pub fold_op-Correct :
      (v0 v1 b : ℕ)
      → known w v0 ≡ some m.a
      → known w v1 ≡ some b
      → perform p wirelen buflen w.stmt m ≡ strip (set_a (alu_value o m.a b) m)
      → KeepsResult (fold_op o v0 v1 w)
  unfolding fold_op
  fold_op-Correct v0 v1 b ka kb runs =
      rw (ka, kb) (at (fold_value o m.a b) (alu_value o m.a b) (fold_value-Agrees o m.a b) runs)
    where
      at :
          (f : Folded) (v : Value)
          → Agrees f v
          → perform p wirelen buflen w.stmt m ≡ strip (set_a v m)
          → KeepsResult (finish_fold f w)
      at (folded c) v agrees runs =
          let s : Stmt = record { code = encode ld_imm; k = c } in
          let same : perform p wirelen buflen w.stmt m ≡ running (put a_atom c m) =
            runs ∙ (unfold set_a in rw agrees) in
          subst
            (λ o.
              Correct p wirelen buflen m o
                (assign a_atom (constant w.table c) (record w { stmt = s; again = true })))
            (imm_run p wirelen buflen ρ w m d c ∙ sym same)
            (assign-constant-Correct p wirelen buflen ρ (record w { stmt = s; again = true }) m
              (Describes-rewrite p wirelen buflen ρ w m s true d) true c
              (imm_run p wirelen buflen ρ w m d c))
      at error v agrees runs = rw runs (unfold set_a in rw agrees tt)
      at shift v agrees runs = rw runs (unfold set_a in rw agrees tt)

  -- `val[A] = F(code, val[A], K(k))` behind an operation by the constant `k`.
  pub new_with_k-Correct :
      (code k : ℕ) (s : Source)
      → decode code ≡ some (alu o s)
      → perform p wirelen buflen w.stmt m ≡ strip (set_a (alu_value o m.a k) m)
      → Correct p wirelen buflen m (perform p wirelen buflen w.stmt m) (new_with_k w code k)
  unfolding new_with_k
  new_with_k-Correct code k s e runs =
      let ex = constant-Extends p wirelen buflen ρ w m d k in
      let d' = Describes-extend p wirelen buflen ρ w m k _ _ d ex in
      assign-Correct p wirelen buflen ex.rho (with_table w (constant w.table k).1) m d' a_atom
        (omega arith) code (value_of w a_atom) (constant w.table k).0
        (rw e (d'.fits a_atom (omega arith), ex.fits))
        (rw (e, runs, d'.regs a_atom (omega arith), ex.is) (set_a-Writes m (alu_value o m.a k)))
