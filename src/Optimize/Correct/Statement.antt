-- ===== src/Optimize/Correct/Statement.antt =====
-- optimize.c: `opt_stmt` as a whole.
use gap16g_libpcap.Base.{ℕ, ◌^◌, ◌<◌, ◌≡◌, ◌≢◌, Bool, some, List}
use gap16g_libpcap.Bpf.Insn.{Op, decode, konst, index}
use gap16g_libpcap.Bpf.Insn.{div}
use gap16g_libpcap.Bpf.Insn.{
  ret_k, ret_a, ld_abs, ld_ind, ld_len, ldx_len, ldx_msh, ld_imm, ldx_imm, ld_mem, ldx_mem, st, stx,
  ja, jump, alu, neg, tax, txa,
}
use gap16g_libpcap.Bpf.Filter.{Machine}
use gap16g_libpcap.Optimize.Stmt.{
  Stmt, Work, Result, value_of, a_atom, x_atom, seen, opt_case, opt_stmt,
}
use gap16g_libpcap.Optimize.Correct.State.{perform, Describes}
use gap16g_libpcap.Optimize.Correct.Loads.{
  ld_abs-Correct, ld_len-Correct, ld_imm-Correct, ldx_imm-Correct, ldx_msh-Correct,
}
use gap16g_libpcap.Optimize.Correct.Moves.{
  txa-Correct, tax-Correct, st-Correct, stx-Correct, ld_mem-Correct, ldx_mem-Correct,
  ld_ind-Correct,
}
use gap16g_libpcap.Optimize.Correct.Arith.{ResultCorrect, neg-Correct}
use gap16g_libpcap.Optimize.Correct.Operations.{seen-known, opt_alu_k-Correct}
use gap16g_libpcap.Optimize.Correct.Index.{opt_alu_x-Correct}

-- The statements that blocks are made of, with scratch words in range, and no division by an X
-- of 0. Jumps and returns end a block, and the code generator makes no BPF_LDX|BPF_LEN.
abbrev pub IsHandled : Op → Stmt → Machine → Type 0
IsHandled ret_k s m = ⊥
IsHandled ret_a s m = ⊥
IsHandled ja s m = ⊥
IsHandled (jump c src) s m = ⊥
IsHandled ldx_len s m = ⊥
IsHandled ld_mem s m = s.k < 16
IsHandled ldx_mem s m = s.k < 16
IsHandled st s m = s.k < 16
IsHandled stx s m = s.k < 16
IsHandled (alu o index) s m = o ≡ div → m.x ≢ 0
IsHandled _ s m = Unit

module _ (p : List ℕ) (wirelen buflen : ℕ) (ρ : ℕ → ℕ) (w : Work) (m : Machine)
    (d : Describes p wirelen buflen ρ w m) (alter : Bool) (word_a : m.a < 2 ^ 32)
    (word_x : m.x < 2 ^ 32) where
  abbrev KeepsResult : Result → Type 0
  KeepsResult r = ResultCorrect p wirelen buflen m (perform p wirelen buflen w.stmt m) r

  opt_case-Correct :
      (op : Op)
      → decode w.stmt.code ≡ some op
      → IsHandled op w.stmt m
      → KeepsResult (opt_case alter (some op) w)
  unfolding opt_case
  opt_case-Correct ret_k e h = absurd h
  opt_case-Correct ret_a e h = absurd h
  opt_case-Correct ja e h = absurd h
  opt_case-Correct (jump c s) e h = absurd h
  opt_case-Correct ldx_len e h = absurd h
  opt_case-Correct (ld_abs s) e h = ld_abs-Correct p wirelen buflen ρ w m d alter s e
  opt_case-Correct (ld_ind s) e h =
      ld_ind-Correct p wirelen buflen ρ w m d alter s (seen alter w (value_of w x_atom))
        (seen-known alter w (value_of w x_atom)) e
  opt_case-Correct ld_len e h = ld_len-Correct p wirelen buflen ρ w m d alter e
  opt_case-Correct ldx_msh e h = ldx_msh-Correct p wirelen buflen ρ w m d alter e
  opt_case-Correct ld_imm e h = ld_imm-Correct p wirelen buflen ρ w m d alter e
  opt_case-Correct ldx_imm e h = ldx_imm-Correct p wirelen buflen ρ w m d alter e
  opt_case-Correct ld_mem e h =
      ld_mem-Correct p wirelen buflen ρ w m d alter h (seen alter w (value_of w w.stmt.k))
        (seen-known alter w (value_of w w.stmt.k)) e
  opt_case-Correct ldx_mem e h =
      ldx_mem-Correct p wirelen buflen ρ w m d alter h (seen alter w (value_of w w.stmt.k))
        (seen-known alter w (value_of w w.stmt.k)) e
  opt_case-Correct st e h = st-Correct p wirelen buflen ρ w m d alter h e
  opt_case-Correct stx e h = stx-Correct p wirelen buflen ρ w m d alter h e
  opt_case-Correct (alu o konst) e h = opt_alu_k-Correct p wirelen buflen ρ w m d o word_a e alter
  opt_case-Correct (alu o index) e h =
      opt_alu_x-Correct p wirelen buflen ρ w m d o e h alter word_x
        (seen alter w (value_of w x_atom)) (seen-known alter w (value_of w x_atom))
  opt_case-Correct neg e h =
      neg-Correct p wirelen buflen ρ w m d (seen alter w (value_of w a_atom))
        (seen-known alter w (value_of w a_atom)) e
  opt_case-Correct tax e h = tax-Correct p wirelen buflen ρ w m d alter e
  opt_case-Correct txa e h = txa-Correct p wirelen buflen ρ w m d alter e

  -- Where the value numbers describe the machine, and A and X are 32-bit words, the statement that `opt_stmt` leaves does what
  -- the given one does: it goes on to the same registers and scratch words, which the new numbers
  -- describe, or returns the same value, unless C leaves open what the given one does. An error is
  -- reported, or the folding is undefined, only where the given statement does not go on. The statement is no jump, no return, no BPF_LDX|BPF_LEN, uses an existing
  -- scratch word, and divides by X only where X is not 0.
  pub opt_stmt-Correct :
      (op : Op)
      → decode w.stmt.code ≡ some op
      → IsHandled op w.stmt m
      → KeepsResult (opt_stmt alter w)
  unfolding opt_stmt
  opt_stmt-Correct op e h = rw e (opt_case-Correct op e h)
