-- ===== src/Optimize/Correct/Operations.antt =====
-- optimize.c, `opt_stmt`: BPF_ALU with a constant operand, negation, and the zero operands.
use mathlib.Core.Path.{subst}
use gap16g_libpcap.Base.{
  ℕ, ◌^◌, ◌<◌, ◌≡◌, refl, sym, ap, ◌∙◌, arith, Bool, true, false, Option, none, some, List, ◌&&◌,
  ◌==◌, Bool-cases, inl, inr,
}
use gap16g_libpcap.Bpf.Insn.{decode, encode, konst}
use gap16g_libpcap.Bpf.Insn.{Alu, add, sub, mul, div, and, or, lsh, rsh}
use gap16g_libpcap.Bpf.Insn.{ld_imm, alu}
use gap16g_libpcap.Bpf.Filter.{Machine, running, value, alu_value, set_a}
use gap16g_libpcap.Optimize.Values.{constant}
use gap16g_libpcap.Optimize.Stmt.{
  Stmt, Work, Result, value_of, a_atom, nop, known, with_table, rewrite, assign, seen, keeps_a,
  clears_a, opt_alu_const, opt_alu_k,
}
use gap16g_libpcap.Optimize.Correct.State.{
  put, strip, perform, perform-nop, Describes, Describes-extend,
}
use gap16g_libpcap.Base.Bits.{bit_or-zero, bit_and-zero}
use gap16g_libpcap.Optimize.Intern.{constant-vmap}
use gap16g_libpcap.Optimize.Correct.Store.{Correct}
use gap16g_libpcap.Optimize.Correct.Loads.{known-reg, assign-constant-Correct}
use gap16g_libpcap.Optimize.Correct.State.{Describes-rewrite}
use gap16g_libpcap.Optimize.Correct.Arith.{
  ResultCorrect, imm_run, alu_k_run, constant-Extends, fold_op-Correct, new_with_k-Correct,
}

-- An operand 0.
keeps_a-value : (o : Alu) (a : ℕ) → keeps_a o ≡ true → a < 2 ^ 32 → alu_value o a 0 ≡ value a
unfolding alu_value
keeps_a-value add a k h = ground arith
keeps_a-value sub a k h = cc
keeps_a-value mul a k h = cc
keeps_a-value div a k h = cc
keeps_a-value and a k h = cc
keeps_a-value or a k h = ap value (bit_or-zero a)
keeps_a-value lsh a k h = ground arith
keeps_a-value rsh a k h = ground arith

clears_a-value : (o : Alu) (a : ℕ) → clears_a o ≡ true → alu_value o a 0 ≡ value 0
unfolding alu_value
clears_a-value mul a k = ground arith
clears_a-value and a k = ap value (bit_and-zero a)
clears_a-value add a k = cc
clears_a-value _ a k = cc

pub seen-known : (alter : Bool) (w : Work) (v b : ℕ) → seen alter w v ≡ some b → known w v ≡ some b
seen-known true w v b e = e
seen-known false w v b e = cc

module _ (p : List ℕ) (wirelen buflen : ℕ) (ρ : ℕ → ℕ) (w : Work) (m : Machine)
    (d : Describes p wirelen buflen ρ w m) (o : Alu) (word_a : m.a < 2 ^ 32) where
  abbrev KeepsResult : Result → Type 0
  KeepsResult r = ResultCorrect p wirelen buflen m (perform p wirelen buflen w.stmt m) r

  module _ (e : decode w.stmt.code ≡ some (alu o konst)) where
    runs : perform p wirelen buflen w.stmt m ≡ strip (set_a (alu_value o m.a w.stmt.k) m)
    runs = alu_k_run p wirelen buflen ρ w m d w.stmt o e

    opt_alu_const-Correct :
        (c : Option ℕ)
        → ((b : ℕ) → c ≡ some b → known w (value_of w a_atom) ≡ some b)
        → KeepsResult (opt_alu_const o c w)
    unfolding opt_alu_const
    opt_alu_const-Correct none knows =
        new_with_k-Correct p wirelen buflen ρ w m d o w.stmt.code w.stmt.k konst e runs
    opt_alu_const-Correct (some b) knows =
        let k : ℕ = w.stmt.k in
        let ex = constant-Extends p wirelen buflen ρ w m d k in
        let held : m.a ≡ b =
          known-reg p wirelen buflen ρ w m d true a_atom b (omega arith) (knows b refl) in
        fold_op-Correct p wirelen buflen ex.rho (with_table w (constant w.table k).1) m
          (Describes-extend p wirelen buflen ρ w m k _ _ d ex) o (value_of w a_atom)
          (constant w.table k).0 k
          (ex.keeps _ (d.fits a_atom (omega arith)) ∙ knows b refl ∙ ap some (sym held))
          (constant-vmap p wirelen buflen ρ w.table k d.sound) runs

    untouched : Describes p wirelen buflen ρ (rewrite w nop w.stmt.k) (record m { pc = 0 })
    untouched = record {
      sound = d.sound;
      regs = d.regs;
      fits = d.fits;
      atoms = d.atoms;
      words = d.words;
    }

    keeps_run :
        w.stmt.k ≡ 0
        → keeps_a o ≡ true
        → perform p wirelen buflen w.stmt m ≡ running (record m { pc = 0 })
    keeps_run zero_k keeps =
        let v : alu_value o m.a w.stmt.k ≡ value m.a =
          ap (λ k. alu_value o m.a k) zero_k ∙ keeps_a-value o m.a keeps word_a in
        runs ∙ (unfold set_a in rw v)

    clears_Correct :
        w.stmt.k ≡ 0
        → clears_a o ≡ true
        → Correct p wirelen buflen m
            (perform p wirelen buflen w.stmt m)
            (assign a_atom (constant w.table w.stmt.k) (rewrite w (encode ld_imm) w.stmt.k))
    clears_Correct zero_k clears =
        let v : alu_value o m.a w.stmt.k ≡ value 0 =
          ap (λ k. alu_value o m.a k) zero_k ∙ clears_a-value o m.a clears in
        let s : Stmt = record { code = encode ld_imm; k = w.stmt.k } in
        let cleared : perform p wirelen buflen w.stmt m ≡ running (put a_atom 0 m) =
          runs ∙ (unfold set_a in rw v) in
        subst
          (λ o.
            Correct p wirelen buflen m o
              (assign a_atom (constant w.table w.stmt.k) (rewrite w (encode ld_imm) w.stmt.k)))
          (imm_run p wirelen buflen ρ w m d w.stmt.k
            ∙ ap (λ k. running (put a_atom k m)) zero_k
            ∙ sym cleared)
          (assign-constant-Correct p wirelen buflen ρ (record w { stmt = s }) m
            (Describes-rewrite p wirelen buflen ρ w m s w.again d) true w.stmt.k
            (imm_run p wirelen buflen ρ w m d w.stmt.k))

    -- BPF_ALU|op|BPF_K.
    pub opt_alu_k-Correct : (alter : Bool) → KeepsResult (opt_alu_k alter o w)
    unfolding opt_alu_k
    opt_alu_k-Correct alter = elim (Bool-cases (alter && (w.stmt.k == 0 && keeps_a o))) [
      | inl same ↦ rw same (
          rw (keeps_run (ground arith) (ground arith))
            (perform-nop p wirelen buflen w.stmt.k m, (ρ, untouched)))
      | inr other ↦ elim (Bool-cases (alter && (w.stmt.k == 0 && clears_a o))) [
        | inl same ↦ rw (other, same) (clears_Correct (ground arith) (ground arith))
        | inr different ↦
            rw (other, different)
              (opt_alu_const-Correct (seen alter w (value_of w a_atom))
                (seen-known alter w (value_of w a_atom)))
      ]
    ]
