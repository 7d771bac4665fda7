-- ===== src/Optimize/Correct/Index.antt =====
-- optimize.c, `opt_stmt`: BPF_ALU with the operand X.
use mathlib.Core.Path.{subst}
use gap16g_libpcap.Base.{
  ℕ, ◌^◌, ◌<◌, ◌≡◌, ◌≢◌, refl, sym, ap, ◌∙◌, arith, Bool, true, Option, none, some, List, ◌==◌, ltb,
  bit_and, bit_or, ==_iff, Bool-cases, ◌⊎◌, inl, inr,
}
use gap16g_libpcap.Bpf.Insn.{decode, encode, decode-encode, konst, index}
use gap16g_libpcap.Bpf.Insn.{Alu, add, sub, mul, div, and, or, lsh, rsh}
use gap16g_libpcap.Bpf.Insn.{ld_imm, alu, txa}
use gap16g_libpcap.Bpf.Filter.{
  Machine, running, value, undefined, alu_value, set_a, arith_a, execute, bad_shift,
}
use gap16g_libpcap.Optimize.Values.{constant}
use gap16g_libpcap.Optimize.Stmt.{
  Stmt, Work, value_of, a_atom, x_atom, known, rewrite, vstore, store_new, seen, new_with_k,
  new_alu, opt_zero_a, opt_alu_any, opt_alu_konst, opt_alu_x,
}
use gap16g_libpcap.Optimize.Meaning.{defined_value}
use gap16g_libpcap.Optimize.Correct.State.{put, strip, insn_of, perform, perform-op, Describes}
use gap16g_libpcap.Base.Bits.{zero-bit_or, zero-bit_and}
use gap16g_libpcap.Optimize.Correct.Store.{Correct, Writes, assign-Correct}
use gap16g_libpcap.Optimize.Correct.Loads.{known-reg, store_constant-Correct, set_a-Writes}
use gap16g_libpcap.Optimize.Correct.State.{Describes-rewrite}
use gap16g_libpcap.Optimize.Correct.Arith.{
  ResultCorrect, imm_run, alu_k_run, fold_op-Correct, new_with_k-Correct,
}
use gap16g_libpcap.Optimize.Correct.Moves.{txa-Correct}
use gap16g_libpcap.Optimize.Correct.Operations.{seen-known}

lsh_zero :
    (a x : ℕ) → a ≡ 0 → (alu_value lsh a x ≡ value 0) ⊎ (alu_value lsh a x ≡ undefined bad_shift)
unfolding alu_value
lsh_zero a x z = elim (Bool-cases (ltb x 32)) [
  | inl small ↦ inl (rw (small, z) (ap value (omega arith)))
  | inr big ↦ inr (rw big)
]

rsh_zero :
    (a x : ℕ) → a ≡ 0 → (alu_value rsh a x ≡ value 0) ⊎ (alu_value rsh a x ≡ undefined bad_shift)
unfolding alu_value
rsh_zero a x z = elim (Bool-cases (ltb x 32)) [
  | inl small ↦ inl (rw (small, z) (ap value (omega arith)))
  | inr big ↦ inr (rw big)
]

module _ (p : List ℕ) (wirelen buflen : ℕ) (ρ : ℕ → ℕ) (w : Work) (m : Machine)
    (d : Describes p wirelen buflen ρ w m) (o : Alu)
    (e : decode w.stmt.code ≡ some (alu o index)) where
  abbrev Keeps : Work → Type 0
  Keeps r = Correct p wirelen buflen m (perform p wirelen buflen w.stmt m) r

  arith_run : perform p wirelen buflen w.stmt m ≡ strip (arith_a o index (insn_of w.stmt) m)
  arith_run = perform-op p wirelen buflen w.stmt m (alu o index) e ∙ (unfold execute in refl)

  arith-Writes :
      (o : Alu)
      → Writes m a_atom
          (strip (arith_a o index (insn_of w.stmt) m))
          (defined_value (alu_value o m.a m.x))
  unfolding arith_a alu_value
  arith-Writes div = elim (Bool-cases (m.x == 0)) [
    | inl same ↦ rw same tt
    | inr other ↦ rw other (unfold set_a in refl)
  ]
  arith-Writes add = set_a-Writes m (alu_value add m.a m.x)
  arith-Writes o = set_a-Writes m (alu_value o m.a m.x)

  new_alu-Correct : Keeps (new_alu w)
  new_alu-Correct =
      assign-Correct p wirelen buflen ρ w m d a_atom (omega arith) w.stmt.code (value_of w a_atom)
        (value_of w x_atom) (rw e (d.fits a_atom (omega arith), d.fits x_atom (omega arith)))
        (rw (e, arith_run, d.regs a_atom (omega arith), d.regs x_atom (omega arith))
          (arith-Writes o))

  module _ (safe : o ≡ div → m.x ≢ 0) where
    -- Where X is not a zero divisor, the operation is that on the values of A and X.
    x_run : perform p wirelen buflen w.stmt m ≡ strip (set_a (alu_value o m.a m.x) m)
    x_run = arith_run ∙ at o safe
      where
        at :
            (o : Alu)
            → (o ≡ div → m.x ≢ 0)
            → strip (arith_a o index (insn_of w.stmt) m) ≡ strip (set_a (alu_value o m.a m.x) m)
        at div safe = unfold arith_a in ground (arith, safe refl)
        at add safe = unfold arith_a in refl
        at o safe = unfold arith_a in refl

    module _ (alter : Bool) (word_x : m.x < 2 ^ 32) where
      -- An operation that gives 0, or a shift that is undefined.
      zeroed :
          (perform p wirelen buflen w.stmt m ≡ running (put a_atom 0 m))
          → Keeps (store_new alter a_atom (constant w.table 0) (rewrite w (encode ld_imm) 0))
      zeroed run0 =
          let s : Stmt = record { code = encode ld_imm; k = 0 } in
          subst
            (λ o.
              Correct p wirelen buflen m o
                (store_new alter a_atom (constant w.table 0) (rewrite w (encode ld_imm) 0)))
            (imm_run p wirelen buflen ρ w m d 0 ∙ sym run0)
            (store_constant-Correct p wirelen buflen ρ (record w { stmt = s }) m
              (Describes-rewrite p wirelen buflen ρ w m s w.again d) alter a_atom 0 (omega arith)
              (imm_run p wirelen buflen ρ w m d 0))

      -- An operation that gives X.
      copied :
          perform p wirelen buflen w.stmt m ≡ running (put a_atom m.x m)
          → Keeps (vstore alter a_atom (value_of w x_atom) (rewrite w (encode txa) w.stmt.k))
      copied run_x =
          let s : Stmt = record { code = encode txa; k = w.stmt.k } in
          let txa_run : perform p wirelen buflen s m ≡ running (put a_atom m.x m) =
            perform-op p wirelen buflen s m txa (decode-encode txa) ∙ (unfold execute in refl) in
          subst
            (λ o.
              Correct p wirelen buflen m o
                (vstore alter a_atom (value_of w x_atom) (rewrite w (encode txa) w.stmt.k)))
            (txa_run ∙ sym run_x)
            (txa-Correct p wirelen buflen ρ (record w { stmt = s }) m
              (Describes-rewrite p wirelen buflen ρ w m s w.again d) alter (decode-encode txa))

      -- The value of an operation with A 0.
      value_run :
          (v : ℕ)
          → alu_value o m.a m.x ≡ value v
          → perform p wirelen buflen w.stmt m ≡ running (put a_atom v m)
      value_run v same = x_run ∙ (unfold set_a in rw same)

      undefined_run : (r : Work) → alu_value o m.a m.x ≡ undefined bad_shift → Keeps r
      undefined_run r same = rw x_run (unfold set_a in rw same tt)

      -- A is 0.
      module _ (zero_a : m.a ≡ 0) where
        opt_zero_a-Correct : Keeps (opt_zero_a alter o w)
        opt_zero_a-Correct = at o refl
          where
            is :
                (o' : Alu) (v : ℕ)
                → o ≡ o'
                → alu_value o' m.a m.x ≡ value v
                → perform p wirelen buflen w.stmt m ≡ running (put a_atom v m)
            is o' v same e = value_run v (rw same e)

            at : (o' : Alu) → o ≡ o' → Keeps (opt_zero_a alter o' w)
            at add same =
                unfold opt_zero_a in copied (is add m.x same (unfold alu_value in ground arith))
            at or same =
                unfold opt_zero_a in
                copied (
                  is or m.x same (
                    unfold alu_value in ap value (ap (λ a. bit_or a m.x) zero_a ∙ zero-bit_or m.x)))
            at sub same = unfold opt_zero_a in new_alu-Correct
            at mul same =
                unfold opt_zero_a in zeroed (is mul 0 same (unfold alu_value in ground arith))
            at div same =
                unfold opt_zero_a in
                zeroed (is div 0 same (unfold alu_value in ground (arith, safe same)))
            at and same =
                unfold opt_zero_a in
                zeroed (
                  is and 0 same (
                    unfold alu_value in
                    ap value (ap (λ a. bit_and a m.x) zero_a ∙ zero-bit_and m.x)))
            at lsh same =
                unfold opt_zero_a in
                elim (lsh_zero m.a m.x zero_a) [
                  | inl gives ↦ zeroed (is lsh 0 same gives)
                  | inr stops ↦ undefined_run _ (rw same stops)
                ]
            at rsh same =
                unfold opt_zero_a in
                elim (rsh_zero m.a m.x zero_a) [
                  | inl gives ↦ zeroed (is rsh 0 same gives)
                  | inr stops ↦ undefined_run _ (rw same stops)
                ]

      opt_alu_any-Correct :
          (c : Option ℕ)
          → ((b : ℕ) → c ≡ some b → known w (value_of w a_atom) ≡ some b)
          → Keeps (opt_alu_any alter o c w)
      unfolding opt_alu_any
      opt_alu_any-Correct none knows = new_alu-Correct
      opt_alu_any-Correct (some c) knows = elim (Bool-cases (c == 0)) [
        | inl same ↦
            let held : m.a ≡ c =
              known-reg p wirelen buflen ρ w m d alter a_atom c (omega arith) (knows c refl) in
            rw same (opt_zero_a-Correct (held ∙ (==_iff c 0).0 same))
        | inr other ↦ rw other new_alu-Correct
      ]

      opt_alu_konst-Correct :
          (c : ℕ) (b : Option ℕ)
          → known w (value_of w x_atom) ≡ some c
          → ((a : ℕ) → b ≡ some a → known w (value_of w a_atom) ≡ some a)
          → ResultCorrect p wirelen buflen m
              (perform p wirelen buflen w.stmt m)
              (opt_alu_konst o c b w)
      unfolding opt_alu_konst
      opt_alu_konst-Correct c (some a) kx ka =
          let held : m.a ≡ a =
            known-reg p wirelen buflen ρ w m d alter a_atom a (omega arith) (ka a refl) in
          let index_is : m.x ≡ c =
            known-reg p wirelen buflen ρ w m d alter x_atom c (omega arith) kx in
          fold_op-Correct p wirelen buflen ρ w m d o (value_of w a_atom) (value_of w x_atom) m.x
            (ka a refl ∙ ap some (sym held)) (kx ∙ ap some (sym index_is)) x_run
      opt_alu_konst-Correct c none kx ka =
          let index_is : m.x ≡ c =
            known-reg p wirelen buflen ρ w m d alter x_atom c (omega arith) kx in
          let s : Stmt = record { code = encode (alu o konst); k = c } in
          let new_run : perform p wirelen buflen s m ≡ strip (set_a (alu_value o m.a c) m) =
            alu_k_run p wirelen buflen ρ w m d s o (decode-encode (alu o konst)) in
          subst
            (λ o'. Correct p wirelen buflen m o' (
              new_with_k (record (rewrite w (encode (alu o konst)) c) { again = true })
                (encode (alu o konst)) c))
            (new_run ∙ ap (λ b. strip (set_a (alu_value o m.a b) m)) (sym index_is) ∙ sym x_run)
            (new_with_k-Correct p wirelen buflen ρ (record w { stmt = s; again = true }) m
              (Describes-rewrite p wirelen buflen ρ w m s true d) o (encode (alu o konst)) c konst
              (decode-encode (alu o konst)) new_run)

      -- BPF_ALU|op|BPF_X.
      pub opt_alu_x-Correct :
          (c : Option ℕ)
          → ((b : ℕ) → c ≡ some b → known w (value_of w x_atom) ≡ some b)
          → ResultCorrect p wirelen buflen m
              (perform p wirelen buflen w.stmt m)
              (opt_alu_x alter o c w)
      unfolding opt_alu_x
      opt_alu_x-Correct none knows =
          opt_alu_any-Correct (seen alter w (value_of w a_atom))
            (seen-known alter w (value_of w a_atom))
      opt_alu_x-Correct (some c) knows =
          opt_alu_konst-Correct c (known w (value_of w a_atom)) (knows c refl) (λ a h. h)
