-- ===== src/Bpf/Safety/Forward.antt =====
-- bpf/net/bpf_filter.c: the steps of programs without backward jumps.
use gap16g_libpcap.Base.{
  ℕ, ◌^◌, ◌<◌, ◌≡◌, refl, arith, Option, none, some, List, get_elem?, All, All-get_elem?,
}
use gap16g_libpcap.Bpf.Insn.{Insn, Op, decode}
use gap16g_libpcap.Bpf.Insn.{Source, konst, index}
use gap16g_libpcap.Bpf.Insn.{Alu}
use gap16g_libpcap.Bpf.Insn.{
  ret_k, ret_a, ld_abs, ld_ind, ldx_msh, ld_mem, ldx_mem, st, stx, ja, alu,
}
use gap16g_libpcap.Bpf.Packet.{Load, loaded, rejected, outside}
use gap16g_libpcap.Bpf.Filter.{
  Machine, Outcome, running, returned, aborted, faulted, Value, value, undefined, alu_value, set_a,
  load_a, load_x, recall_a, recall_x, store, arith_a, execute, dispatch, fetch, step,
}

-- A step from index `pc` that goes on goes forward.
abbrev pub Advances : ℕ → Outcome → Type 0
Advances pc (running m) = pc < m.pc
Advances pc (returned v) = Unit
Advances pc aborted = Unit
Advances pc (faulted f) = Unit

module _ (m : Machine) where
  load_a-Advances : (l : Load) → Advances m.pc (load_a l m) × Advances m.pc (load_x l m)
  unfolding load_a load_x
  load_a-Advances (loaded v) = omega arith
  load_a-Advances rejected = (tt, tt)
  load_a-Advances outside = (tt, tt)

  recall-Advances : (o : Option ℕ) → Advances m.pc (recall_a o m) × Advances m.pc (recall_x o m)
  unfolding recall_a recall_x
  recall-Advances none = (tt, tt)
  recall-Advances (some v) = omega arith

  store-Advances : (k v : ℕ) → Advances m.pc (store k v m)
  unfolding store
  store-Advances k v = ground arith

  set_a-Advances : (v : Value) → Advances m.pc (set_a v m)
  unfolding set_a
  set_a-Advances (value v) = omega arith
  set_a-Advances (undefined f) = tt

  arith_a-Advances : (o : Alu) (s : Source) (i : Insn) → Advances m.pc (arith_a o s i m)
  unfolding arith_a
  arith_a-Advances o konst i = set_a-Advances _
  arith_a-Advances o index i = ground (arith, set_a-Advances (alu_value o m.a m.x))

  module _ (p : List ℕ) (wirelen buflen : ℕ) (i : Insn) where
    -- Only `ja` can go back.
    pub execute-Advances :
        (op : Op) → (op ≡ ja → i.k < 2 ^ 31) → Advances m.pc (execute p wirelen buflen op i m)
    unfolding execute
    execute-Advances ret_k h = tt
    execute-Advances ret_a h = tt
    execute-Advances (ld_abs s) h = (load_a-Advances _).0
    execute-Advances (ld_ind s) h = (load_a-Advances _).0
    execute-Advances ldx_msh h = (load_a-Advances _).1
    execute-Advances ld_mem h = (recall-Advances _).0
    execute-Advances ldx_mem h = (recall-Advances _).1
    execute-Advances st h = store-Advances _ _
    execute-Advances stx h = store-Advances _ _
    execute-Advances ja h = ground (arith, h refl)
    execute-Advances (alu o s) h = arith_a-Advances o s i
    execute-Advances _ h = omega arith

-- No `ja` of the program jumps back.
abbrev pub IsForward : List Insn → Type 0
IsForward prog = All (λ (i : Insn). decode i.code ≡ some ja → i.k < 2 ^ 31) prog

module _ (prog : List Insn) (forward : IsForward prog) (p : List ℕ) (wirelen buflen : ℕ) where
  pub step-Advances : (m : Machine) → Advances m.pc (step p wirelen buflen prog m)
  unfolding step
  step-Advances m = at (get_elem? prog m.pc) refl
    where
      means :
          (i : Insn)
          → get_elem? prog m.pc ≡ some i
          → (d : Option Op) → decode i.code ≡ d
          → Advances m.pc (dispatch p wirelen buflen d i m)
      means i here none e = unfold dispatch in tt
      means i here (some op) e =
          unfold dispatch in
          execute-Advances m p wirelen buflen i op
            (λ same. All-get_elem? _ prog m.pc i forward here (rw (← same) e))

      at : (o : Option Insn) → get_elem? prog m.pc ≡ o → Advances m.pc (fetch p wirelen buflen o m)
      at none e = unfold fetch in tt
      at (some i) e = unfold fetch in means i e (decode i.code) refl
