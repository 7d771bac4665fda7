-- ===== src/Optimize/Correct/Moves.antt =====
-- optimize.c, `opt_stmt`: the moves between A, X and the scratch words, and loads made absolute.
use mathlib.Core.Path.{subst}
use gap16g_libpcap.Base.{
  ℕ, ◌+◌, ◌%◌, ◌^◌, ◌<◌, ◌≡◌, refl, sym, ap, ◌∙◌, arith, Bool, true, Option, none, some, List,
  get_elem?,
}
use gap16g_libpcap.Bpf.Insn.{Op, decode, encode, decode-encode, Size}
use gap16g_libpcap.Bpf.Insn.{ld_abs, ld_ind, ld_imm, ldx_imm, ld_mem, ldx_mem, st, stx, tax, txa}
use gap16g_libpcap.Bpf.Packet.{load}
use gap16g_libpcap.Bpf.Filter.{Machine, running, load_a, recall_a, recall_x, store, execute}
use gap16g_libpcap.Optimize.Stmt.{
  Stmt, Work, value_of, a_atom, x_atom, known, vstore, opt_ind, opt_mem,
}
use gap16g_libpcap.Optimize.Meaning.{reg}
use gap16g_libpcap.Optimize.Correct.State.{
  put, strip, insn_of, perform, perform-op, Describes, get_elem?-get_or,
}
use gap16g_libpcap.Optimize.Correct.Store.{Correct, vstore-Correct}
use gap16g_libpcap.Optimize.Correct.Loads.{ld_ind-none, ld_abs-Correct, known-reg}
use gap16g_libpcap.Optimize.Correct.State.{Describes-rewrite}

module _ (p : List ℕ) (wirelen buflen : ℕ) (ρ : ℕ → ℕ) (w : Work) (m : Machine)
    (d : Describes p wirelen buflen ρ w m) (alter : Bool) where
  abbrev Keeps : Work → Type 0
  Keeps r = Correct p wirelen buflen m (perform p wirelen buflen w.stmt m) r

  -- A copy of one atom into another.
  copy-Correct :
      (atom from : ℕ)
      → atom < 18
      → from < 18
      → perform p wirelen buflen w.stmt m ≡ running (put atom (reg m from) m)
      → Keeps (vstore alter atom (value_of w from) w)
  copy-Correct atom from h h' e = rw e (
      vstore-Correct p wirelen buflen ρ w m d atom h alter (value_of w from) (reg m from)
        (d.regs from h') (d.fits from h') e)

  pub txa-Correct :
      decode w.stmt.code ≡ some txa → Keeps (vstore alter a_atom (value_of w x_atom) w)
  txa-Correct e =
      copy-Correct a_atom x_atom (omega arith) (omega arith)
        (perform-op p wirelen buflen w.stmt m txa e ∙ (unfold execute in refl))

  pub tax-Correct :
      decode w.stmt.code ≡ some tax → Keeps (vstore alter x_atom (value_of w a_atom) w)
  tax-Correct e =
      copy-Correct x_atom a_atom (omega arith) (omega arith)
        (perform-op p wirelen buflen w.stmt m tax e ∙ (unfold execute in refl))

  module _ (in_range : w.stmt.k < 16) where
    stored : (v : ℕ) → strip (store w.stmt.k v m) ≡ running (put w.stmt.k v m)
    unfolding store
    stored v = ground (arith, d.words)

    recalled :
        (strip (recall_a (get_elem? m.mem w.stmt.k) m) ≡ running (put a_atom (reg m w.stmt.k) m))
        × (strip (recall_x (get_elem? m.mem w.stmt.k) m) ≡ running (put x_atom (reg m w.stmt.k) m))
    unfolding recall_a recall_x
    recalled =
        rw (get_elem?-get_or m.mem w.stmt.k (omega (arith, d.words))) (ground arith, ground arith)

    pub st-Correct :
        decode w.stmt.code ≡ some st → Keeps (vstore alter w.stmt.k (value_of w a_atom) w)
    st-Correct e =
        copy-Correct w.stmt.k a_atom (omega arith) (omega arith)
          (perform-op p wirelen buflen w.stmt m st e ∙ (unfold execute in stored m.a))

    pub stx-Correct :
        decode w.stmt.code ≡ some stx → Keeps (vstore alter w.stmt.k (value_of w x_atom) w)
    stx-Correct e =
        copy-Correct w.stmt.k x_atom (omega arith) (omega arith)
          (perform-op p wirelen buflen w.stmt m stx e ∙ (unfold execute in stored m.x))

    ld_mem_run :
        decode w.stmt.code ≡ some ld_mem
        → perform p wirelen buflen w.stmt m ≡ running (put a_atom (reg m w.stmt.k) m)
    ld_mem_run e = perform-op p wirelen buflen w.stmt m ld_mem e ∙ (unfold execute in recalled.0)

    ldx_mem_run :
        decode w.stmt.code ≡ some ldx_mem
        → perform p wirelen buflen w.stmt m ≡ running (put x_atom (reg m w.stmt.k) m)
    ldx_mem_run e = perform-op p wirelen buflen w.stmt m ldx_mem e ∙ (unfold execute in recalled.1)

    -- A load of a scratch word, by an immediate where the word is known.
    opt_mem-Correct :
        (immediate : Op) (atom : ℕ) (o : Option ℕ)
        → atom < 18
        → perform p wirelen buflen w.stmt m ≡ running (put atom (reg m w.stmt.k) m)
        → ((c : ℕ)
            → perform p wirelen buflen (record { code = encode immediate; k = c }) m
              ≡ running (put atom c m))
        → ((c : ℕ) → o ≡ some c → known w (value_of w w.stmt.k) ≡ some c)
        → Keeps (opt_mem alter immediate atom o w)
    unfolding opt_mem
    opt_mem-Correct immediate atom none h runs new knows =
        copy-Correct atom w.stmt.k h (omega arith) runs
    opt_mem-Correct immediate atom (some c) h runs new knows =
        let holds : reg m w.stmt.k ≡ c =
          known-reg p wirelen buflen ρ w m d alter w.stmt.k c (omega arith) (knows c refl) in
        rw (runs, holds)
          (vstore-Correct p wirelen buflen ρ
            (record w { stmt = record { code = encode immediate; k = c }; again = true }) m
            (Describes-rewrite p wirelen buflen ρ w m (record { code = encode immediate; k = c })
              true d)
            atom h alter (value_of w w.stmt.k) c (d.regs w.stmt.k (omega arith) ∙ holds)
            (d.fits w.stmt.k (omega arith)) (new c))

    pub ld_mem-Correct :
        (o : Option ℕ)
        → ((c : ℕ) → o ≡ some c → known w (value_of w w.stmt.k) ≡ some c)
        → decode w.stmt.code ≡ some ld_mem
        → Keeps (opt_mem alter ld_imm a_atom o w)
    ld_mem-Correct o knows e =
        opt_mem-Correct ld_imm a_atom o (omega arith) (ld_mem_run e)
          (λ c.
            perform-op p wirelen buflen _ m ld_imm (decode-encode ld_imm)
            ∙ (unfold execute in refl))
          knows

    pub ldx_mem-Correct :
        (o : Option ℕ)
        → ((c : ℕ) → o ≡ some c → known w (value_of w w.stmt.k) ≡ some c)
        → decode w.stmt.code ≡ some ldx_mem
        → Keeps (opt_mem alter ldx_imm x_atom o w)
    ldx_mem-Correct o knows e =
        opt_mem-Correct ldx_imm x_atom o (omega arith) (ldx_mem_run e)
          (λ c.
            perform-op p wirelen buflen _ m ldx_imm (decode-encode ldx_imm)
            ∙ (unfold execute in refl))
          knows

  -- A load relative to X, made absolute where X is known.
  pub ld_ind-Correct :
      (s : Size) (o : Option ℕ)
      → ((c : ℕ) → o ≡ some c → known w (value_of w x_atom) ≡ some c)
      → decode w.stmt.code ≡ some (ld_ind s)
      → Keeps (opt_ind alter s o w)
  ld_ind-Correct s none knows e = ld_ind-none p wirelen buflen ρ w m d alter s e
  ld_ind-Correct s (some c) knows e =
      subst (λ o. Correct p wirelen buflen m o (opt_ind alter s (some c) w)) same
        (unfold opt_ind in
          ld_abs-Correct p wirelen buflen ρ (record w { stmt = new; again = true }) m
            (Describes-rewrite p wirelen buflen ρ w m new true d) alter s
            (decode-encode (ld_abs s)))
    where
      new : Stmt
      new = record { code = encode (ld_abs s); k = (w.stmt.k + c) % 2 ^ 32 }

      index_is : m.x ≡ c
      index_is = known-reg p wirelen buflen ρ w m d alter x_atom c (omega arith) (knows c refl)

      where_it_is : (m.x + w.stmt.k) % 2 ^ 32 ≡ (w.stmt.k + c) % 2 ^ 32
      where_it_is = omega (arith, index_is)

      middle :
          strip (execute p wirelen buflen (ld_abs s) (insn_of new) m)
          ≡ strip (execute p wirelen buflen (ld_ind s) (insn_of w.stmt) m)
      middle = unfold execute in ap (λ k. strip (load_a (load s p buflen k) m)) (sym where_it_is)

      same : perform p wirelen buflen new m ≡ perform p wirelen buflen w.stmt m
      same =
          perform-op p wirelen buflen new m (ld_abs s) (decode-encode (ld_abs s))
          ∙ middle
          ∙ sym (perform-op p wirelen buflen w.stmt m (ld_ind s) e)
