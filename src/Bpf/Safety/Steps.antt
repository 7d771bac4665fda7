-- ===== src/Bpf/Safety/Steps.antt =====
-- bpf/net/bpf_filter.c: one step at an instruction that was checked.
use gap16g_libpcap.Base.{
  ℕ, ◌+◌, ◌^◌, ◌<◌, ◌≡◌, ◌≢◌, refl, arith, List, length, get_elem?, length-set, get_elem?-of_lt,
}
use gap16g_libpcap.Bpf.Insn.{Insn, bpf_class, encode, Op}
use gap16g_libpcap.Bpf.Insn.{Source, konst, index, Size, word, half, byte}
use gap16g_libpcap.Bpf.Insn.{Alu, add, sub, mul, div, and, or, lsh, rsh}
use gap16g_libpcap.Bpf.Insn.{
  ret_k, ret_a, ld_abs, ld_ind, ldx_msh, ld_mem, ldx_mem, st, stx, ja, jump, alu,
}
use gap16g_libpcap.Bpf.Packet.{Load, loaded, rejected, outside}
use gap16g_libpcap.Bpf.Filter.{
  bad_packet, bad_shift, Machine, Outcome, running, returned, aborted, faulted, alu_value, set_a,
  load_a, load_x, recall_a, recall_x, store, arith_a, execute,
}
use gap16g_libpcap.Bpf.Safety.Needs.{Needs}

-- The machine stands at an instruction of the program and has its scratch words.
abbrev pub IsAt : ℕ → Machine → Type 0
IsAt len m = (m.pc < len) × (length m.mem ≡ 16)

-- Neither a call of abort() nor a fault that the validator is to rule out.
abbrev pub IsSafe : ℕ → Outcome → Type 0
IsSafe len (running m) = IsAt len m
IsSafe len (returned v) = Unit
IsSafe len aborted = ⊥
IsSafe len (faulted bad_packet) = Unit
IsSafe len (faulted bad_shift) = Unit
IsSafe len (faulted _) = ⊥

-- A jump target in range, as the fields of a jump are 8 and 32 bits wide.
pub record IsEncoded (i : Insn) : Type 0 where
  pub jt_fits : i.jt < 256
  pub jf_fits : i.jf < 256
  pub k_fits : i.k < 2 ^ 32

module _ (len : ℕ) (m : Machine) (more : m.pc + 1 < len) (words : length m.mem ≡ 16) where
  load_a-IsSafe : (l : Load) → IsSafe len (load_a l m)
  unfolding load_a
  load_a-IsSafe (loaded v) = (more, words)
  load_a-IsSafe rejected = tt
  load_a-IsSafe outside = tt

  load_x-IsSafe : (l : Load) → IsSafe len (load_x l m)
  unfolding load_x
  load_x-IsSafe (loaded v) = (more, words)
  load_x-IsSafe rejected = tt
  load_x-IsSafe outside = tt

  recall-IsSafe :
      (k : ℕ)
      → k < 16
      → IsSafe len (recall_a (get_elem? m.mem k) m) × IsSafe len (recall_x (get_elem? m.mem k) m)
  unfolding recall_a recall_x
  recall-IsSafe k h =
      let found = get_elem?-of_lt m.mem k (omega arith) in rw found.1 ((more, words), (more, words))

  store-IsSafe : (k v : ℕ) → k < 16 → IsSafe len (store k v m)
  unfolding store
  store-IsSafe k v h = ground (arith, length-set m.mem k v)

  alu-IsSafe : (o : Alu) (b : ℕ) → (o ≡ div → b ≢ 0) → IsSafe len (set_a (alu_value o m.a b) m)
  unfolding alu_value set_a
  alu-IsSafe div b h = ground (arith, h refl)
  alu-IsSafe lsh b h = ground arith
  alu-IsSafe rsh b h = ground arith
  alu-IsSafe _ b h = (more, words)

  arith_a-IsSafe :
      (o : Alu) (s : Source) (i : Insn) → Needs (alu o s) len m.pc i → IsSafe len (arith_a o s i m)
  unfolding arith_a
  arith_a-IsSafe o konst i h = alu-IsSafe o i.k h
  arith_a-IsSafe div index i h = ground (arith, alu-IsSafe div m.x)
  arith_a-IsSafe add index i h = alu-IsSafe add m.x (λ e. cc)
  arith_a-IsSafe o index i h = alu-IsSafe o m.x (λ e. cc)

load_class : (s : Size) → (bpf_class (encode (ld_abs s)) ≢ 6) × (bpf_class (encode (ld_ind s)) ≢ 6)
load_class word = omega arith
load_class half = omega arith
load_class byte = omega arith

alu_class : (o : Alu) (s : Source) → bpf_class (encode (alu o s)) ≢ 6
alu_class add konst = omega arith
alu_class add index = omega arith
alu_class sub konst = omega arith
alu_class sub index = omega arith
alu_class mul konst = omega arith
alu_class mul index = omega arith
alu_class div konst = omega arith
alu_class div index = omega arith
alu_class and konst = omega arith
alu_class and index = omega arith
alu_class or konst = omega arith
alu_class or index = omega arith
alu_class lsh konst = omega arith
alu_class lsh index = omega arith
alu_class rsh konst = omega arith
alu_class rsh index = omega arith

module _ (p : List ℕ) (wirelen buflen len : ℕ) (short : len < 2 ^ 31) (m : Machine) where
  -- A checked operation, which does not fall off the end of the program.
  pub execute-IsSafe :
      (op : Op) (i : Insn)
      → IsEncoded i
      → IsAt len m
      → (bpf_class (encode op) ≢ 6 → m.pc + 1 < len)
      → Needs op len m.pc i
      → IsSafe len (execute p wirelen buflen op i m)
  unfolding execute
  execute-IsSafe ret_k i enc at more h = tt
  execute-IsSafe ret_a i enc at more h = tt
  execute-IsSafe (ld_abs s) i enc at more h = load_a-IsSafe len m (more (load_class s).0) at.1 _
  execute-IsSafe (ld_ind s) i enc at more h = load_a-IsSafe len m (more (load_class s).1) at.1 _
  execute-IsSafe ldx_msh i enc at more h = load_x-IsSafe len m (more (omega arith)) at.1 _
  execute-IsSafe ld_mem i enc at more h = (recall-IsSafe len m (more (omega arith)) at.1 i.k h).0
  execute-IsSafe ldx_mem i enc at more h = (recall-IsSafe len m (more (omega arith)) at.1 i.k h).1
  execute-IsSafe st i enc at more h = store-IsSafe len m (more (omega arith)) at.1 i.k m.a h
  execute-IsSafe stx i enc at more h = store-IsSafe len m (more (omega arith)) at.1 i.k m.x h
  execute-IsSafe ja i enc at more h = ground arith
  execute-IsSafe (jump c s) i enc at more h = ground (arith, enc.jt_fits, enc.jf_fits)
  execute-IsSafe (alu o s) i enc at more h =
      arith_a-IsSafe len m (more (alu_class o s)) at.1 o s i h
  execute-IsSafe _ i enc at more h = (more (omega arith), at.1)
