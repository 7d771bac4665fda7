-- ===== src/Optimize/Unsound.antt =====
-- optimize.c, `opt_stmt`: `txa`, and division, where little is known of the registers.
use gap16g_libpcap.Base.{ℕ, ◌≡◌, ◌≢◌, refl, sym, ◌∙◌, arith, true, some, List}
use gap16g_libpcap.Bpf.Insn.{decode}
use gap16g_libpcap.Bpf.Insn.{txa}
use gap16g_libpcap.Bpf.Filter.{Machine, running, execute}
use gap16g_libpcap.Optimize.Stmt.{
  Work, optimized, value_of, a_atom, x_atom, nop, vstore, opt_case, opt_stmt,
}
use gap16g_libpcap.Optimize.Correct.State.{put, perform, perform-op, perform-nop}

module _ (p : List ℕ) (wirelen buflen : ℕ) (w : Work) (m : Machine) where
  -- Where nothing is known of A and X, their number is 0, and they are taken to be equal. So a `txa`
  -- becomes a statement with another effect, where they differ.
  pub txa_unknown :
      decode w.stmt.code ≡ some txa
      → value_of w a_atom ≡ 0
      → value_of w x_atom ≡ 0
      → m.a ≢ m.x
      → (r : Work) × (opt_stmt true w ≡ optimized r)
        × (perform p wirelen buflen r.stmt m ≢ perform p wirelen buflen w.stmt m)
  unfolding opt_stmt opt_case vstore
  txa_unknown e a_unknown x_unknown differ = (
    record w { stmt = record { code = nop; k = w.stmt.k } },
    rw e (ground arith),
    λ same. differ (a_of (sym (perform-nop p wirelen buflen w.stmt.k m) ∙ same ∙ run)),
  )
    where
      run : perform p wirelen buflen w.stmt m ≡ running (put a_atom m.x m)
      run = perform-op p wirelen buflen w.stmt m txa e ∙ (unfold execute in refl)

      a_of : running (record m { pc = 0 }) ≡ running (put a_atom m.x m) → m.a ≡ m.x
      a_of same = ground arith
