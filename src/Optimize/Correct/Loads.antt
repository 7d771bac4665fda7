-- ===== src/Optimize/Correct/Loads.antt =====
-- optimize.c, `opt_stmt`: the statements that load A or X.
use gap16g_libpcap.Base.{ℕ, ◌+◌, ◌%◌, ◌^◌, ◌<◌, ◌≡◌, refl, sym, ◌∙◌, arith, Bool, none, some, List}
use gap16g_libpcap.Bpf.Insn.{decode, Size}
use gap16g_libpcap.Bpf.Insn.{ld_abs, ld_ind, ld_len, ldx_msh, ld_imm, ldx_imm}
use gap16g_libpcap.Bpf.Packet.{Load, loaded, rejected, outside, load, load_msh}
use gap16g_libpcap.Bpf.Filter.{
  Machine, running, Value, value, undefined, set_a, load_a, load_x, execute,
}
use gap16g_libpcap.Optimize.Values.{intern, constant}
use gap16g_libpcap.Optimize.Stmt.{Work, value_of, a_atom, x_atom, known, assign, store_new, opt_ind}
use gap16g_libpcap.Optimize.Meaning.{loaded_value, defined_value, reg}
use gap16g_libpcap.Optimize.Correct.State.{put, strip, perform, perform-op, Describes}
use gap16g_libpcap.Optimize.Correct.Store.{Correct, Writes, store_new-Correct, assign-Correct}

module _ (m : Machine) where
  pub load_a-Writes : (l : Load) → Writes m a_atom (strip (load_a l m)) (loaded_value l)
  unfolding load_a
  load_a-Writes (loaded v) = refl
  load_a-Writes rejected = tt
  load_a-Writes outside = tt

  pub load_x-Writes : (l : Load) → Writes m x_atom (strip (load_x l m)) (loaded_value l)
  unfolding load_x
  load_x-Writes (loaded v) = refl
  load_x-Writes rejected = tt
  load_x-Writes outside = tt

  pub set_a-Writes : (v : Value) → Writes m a_atom (strip (set_a v m)) (defined_value v)
  unfolding set_a
  set_a-Writes (value v) = refl
  set_a-Writes (undefined f) = tt

module _ (p : List ℕ) (wirelen buflen : ℕ) (ρ : ℕ → ℕ) (w : Work) (m : Machine)
    (d : Describes p wirelen buflen ρ w m) (alter : Bool) where
  abbrev Keeps : Work → Type 0
  Keeps r = Correct p wirelen buflen m (perform p wirelen buflen w.stmt m) r

  -- What A, X or a scratch word holds, where the table knows it.
  pub known-reg : (atom c : ℕ) → atom < 18 → known w (value_of w atom) ≡ some c → reg m atom ≡ c
  known-reg atom c h e = sym (d.regs atom h) ∙ (d.sound.consts _ c e).0

  pub store_constant-Correct :
      (atom k : ℕ)
      → atom < 18
      → perform p wirelen buflen w.stmt m ≡ running (put atom k m)
      → Keeps (store_new alter atom (constant w.table k) w)
  unfolding constant decode
  store_constant-Correct atom k h e =
      store_new-Correct p wirelen buflen ρ w m d atom h 0 k 0 tt e alter

  pub assign-constant-Correct :
      (k : ℕ)
      → perform p wirelen buflen w.stmt m ≡ running (put a_atom k m)
      → Keeps (assign a_atom (constant w.table k) w)
  unfolding constant decode
  assign-constant-Correct k e =
      assign-Correct p wirelen buflen ρ w m d a_atom (omega arith) 0 k 0 tt e

  pub ld_abs-Correct :
      (s : Size)
      → decode w.stmt.code ≡ some (ld_abs s)
      → Keeps (store_new alter a_atom (intern w.table w.stmt.code w.stmt.k 0) w)
  ld_abs-Correct s e =
      store_new-Correct p wirelen buflen ρ w m d a_atom (omega arith) w.stmt.code w.stmt.k 0
        (rw e tt)
        (rw (e, perform-op p wirelen buflen w.stmt m (ld_abs s) e)
          (unfold execute in load_a-Writes m (load s p buflen w.stmt.k)))
        alter

  pub ldx_msh-Correct :
      decode w.stmt.code ≡ some ldx_msh
      → Keeps (store_new alter x_atom (intern w.table w.stmt.code w.stmt.k 0) w)
  ldx_msh-Correct e =
      store_new-Correct p wirelen buflen ρ w m d x_atom (omega arith) w.stmt.code w.stmt.k 0
        (rw e tt)
        (rw (e, perform-op p wirelen buflen w.stmt m ldx_msh e)
          (unfold execute in load_x-Writes m (load_msh p buflen w.stmt.k)))
        alter

  pub ld_len-Correct :
      decode w.stmt.code ≡ some ld_len
      → Keeps (store_new alter a_atom (intern w.table w.stmt.code 0 0) w)
  ld_len-Correct e =
      store_new-Correct p wirelen buflen ρ w m d a_atom (omega arith) w.stmt.code 0 0 (rw e tt)
        (rw (e, perform-op p wirelen buflen w.stmt m ld_len e) (unfold execute in refl)) alter

  pub ld_imm-Correct :
      decode w.stmt.code ≡ some ld_imm
      → Keeps (store_new alter a_atom (constant w.table w.stmt.k) w)
  ld_imm-Correct e =
      store_constant-Correct a_atom w.stmt.k (omega arith)
        (perform-op p wirelen buflen w.stmt m ld_imm e ∙ (unfold execute in refl))

  pub ldx_imm-Correct :
      decode w.stmt.code ≡ some ldx_imm
      → Keeps (store_new alter x_atom (constant w.table w.stmt.k) w)
  ldx_imm-Correct e =
      store_constant-Correct x_atom w.stmt.k (omega arith)
        (perform-op p wirelen buflen w.stmt m ldx_imm e ∙ (unfold execute in refl))

  pub ld_ind-none :
      (s : Size) → decode w.stmt.code ≡ some (ld_ind s) → Keeps (opt_ind alter s none w)
  unfolding opt_ind
  ld_ind-none s e =
      store_new-Correct p wirelen buflen ρ w m d a_atom (omega arith) w.stmt.code w.stmt.k
        (value_of w x_atom) (rw e (d.fits x_atom (omega arith)))
        (rw (e, perform-op p wirelen buflen w.stmt m (ld_ind s) e, d.regs x_atom (omega arith))
          (unfold execute in load_a-Writes m (load s p buflen ((m.x + w.stmt.k) % 2 ^ 32))))
        alter
