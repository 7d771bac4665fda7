-- ===== src/Optimize/Block/Effect.antt =====
-- optimize.c: `atomuse` and `atomdef` beside what a statement does on the machine.
use gap16g_libpcap.Base.{
  ℕ, ◌+◌, ◌-◌, ◌%◌, ◌^◌, ◌<◌, ◌≡◌, refl, arith, Bool, true, false, Option, none, some, List, ◌&&◌,
  ◌||◌, ◌==◌, ==_iff, if◌then◌else◌, get_or, length, inl, inr, Bool-cases,
}
use mathlib.Core.Path.{subst}
use gap16g_libpcap.Bpf.Insn.{Op, decode, encode, decode_sound, konst, index, word, half, byte}
use gap16g_libpcap.Bpf.Insn.{add, sub, mul, div, and, or, lsh, rsh}
use gap16g_libpcap.Bpf.Insn.{
  ret_k, ret_a, ld_abs, ld_ind, ld_len, ldx_len, ldx_msh, ld_imm, ldx_imm, ld_mem, ldx_mem, st, stx,
  ja, jump, alu, neg, tax, txa,
}
use gap16g_libpcap.Bpf.Packet.{load, load_msh}
use gap16g_libpcap.Bpf.Filter.{Machine, alu_value, is_div, execute, recall_a, recall_x}
use gap16g_libpcap.Optimize.Stmt.{Stmt, nop, a_atom, x_atom}
use gap16g_libpcap.Optimize.Meaning.{loaded_value, defined_value, reg}
use gap16g_libpcap.Optimize.Correct.State.{strip, insn_of, perform, perform-op, get_elem?-get_or}
use gap16g_libpcap.Optimize.Correct.Store.{Writes}
use gap16g_libpcap.Optimize.Correct.Loads.{load_a-Writes, load_x-Writes, set_a-Writes}
use gap16g_libpcap.Optimize.Block.{Use, no_atom, one_atom, both_atoms, atomuse, atomdef}

-- The operations that stand before the end of a block, on an existing scratch word.
abbrev pub IsInner : Op → ℕ → Type 0
IsInner ret_k k = ⊥
IsInner ret_a k = ⊥
IsInner ja k = ⊥
IsInner (jump c s) k = ⊥
IsInner ld_mem k = k < 16
IsInner ldx_mem k = k < 16
IsInner st k = k < 16
IsInner stx k = k < 16
IsInner _ k = Unit

-- The atom that an operation writes.
abbrev pub target : Op → ℕ → ℕ
target ldx_len k = x_atom
target ldx_msh k = x_atom
target ldx_imm k = x_atom
target ldx_mem k = x_atom
target tax k = x_atom
target st k = k
target stx k = k
target _ k = a_atom

module _ (p : List ℕ) (wirelen buflen : ℕ) where
  -- What it writes there, from the atoms; `none` where it stops the machine.
  abbrev pub written : Op → ℕ → (ℕ → ℕ) → Option ℕ
  written (ld_abs s) k r = loaded_value (load s p buflen k)
  written (ld_ind s) k r = loaded_value (load s p buflen ((r x_atom + k) % 2 ^ 32))
  written ld_len k r = some wirelen
  written ldx_len k r = some wirelen
  written ldx_msh k r = loaded_value (load_msh p buflen k)
  written ld_imm k r = some k
  written ldx_imm k r = some k
  written ld_mem k r = some (r k)
  written ldx_mem k r = some (r k)
  written st k r = some (r a_atom)
  written stx k r = some (r x_atom)
  written (alu o konst) k r = defined_value (alu_value o (r a_atom) k)
  written (alu o index) k r =
      if is_div o && r x_atom == 0 then none else defined_value (alu_value o (r a_atom) (r x_atom))
  written neg k r = some ((2 ^ 32 - r a_atom) % 2 ^ 32)
  written tax k r = some (r a_atom)
  written txa k r = some (r x_atom)
  written _ k r = none

  reg-mem : (m : Machine) (k : ℕ) → k < 16 → reg m k ≡ get_or m.mem k 0
  reg-mem m k h = ground arith

  execute-Writes :
      (op : Op) (k : ℕ) (code : ℕ) (m : Machine)
      → IsInner op k
      → length m.mem ≡ 16
      → Writes m
          (target op k)
          (strip (execute p wirelen buflen op (insn_of (record { code = code; k = k })) m))
          (written op k (reg m))
  unfolding execute
  execute-Writes ret_k k code m h words = absurd h
  execute-Writes ret_a k code m h words = absurd h
  execute-Writes ja k code m h words = absurd h
  execute-Writes (jump c s) k code m h words = absurd h
  execute-Writes (ld_abs s) k code m h words = load_a-Writes m (load s p buflen k)
  execute-Writes (ld_ind s) k code m h words =
      load_a-Writes m (load s p buflen ((m.x + k) % 2 ^ 32))
  execute-Writes ldx_msh k code m h words = load_x-Writes m (load_msh p buflen k)
  execute-Writes ld_mem k code m h words =
      rw (get_elem?-get_or m.mem k (omega arith), reg-mem m k h) (unfold recall_a in refl)
  execute-Writes ldx_mem k code m h words =
      rw (get_elem?-get_or m.mem k (omega arith), reg-mem m k h) (unfold recall_x in refl)
  execute-Writes st k code m h words = ground arith
  execute-Writes stx k code m h words = ground arith
  execute-Writes (alu o konst) k code m h words = set_a-Writes m (alu_value o m.a k)
  execute-Writes (alu o index) k code m h words = elim (Bool-cases (is_div o && m.x == 0)) [
    | inl zero_x ↦ rw zero_x tt
    | inr other ↦ rw other (set_a-Writes m (alu_value o m.a m.x))
  ]
  execute-Writes _ k code m h words = refl

  -- The write of a statement that decodes.
  pub perform-Writes :
      (s : Stmt) (m : Machine) (op : Op)
      → decode s.code ≡ some op
      → IsInner op s.k
      → length m.mem ≡ 16
      → Writes m (target op s.k) (perform p wirelen buflen s m) (written op s.k (reg m))
  perform-Writes s m op e h words =
      rw (perform-op p wirelen buflen s m op e) (execute-Writes op s.k s.code m h words)

unfoldable pub uses : Use → ℕ → Bool
uses no_atom a = false
uses (one_atom b) a = a == b
uses both_atoms a = a == a_atom || a == x_atom

-- The atoms that an operation reads.
abbrev pub source : Op → ℕ → Use
source (ld_abs s) k = no_atom
source (ld_ind s) k = one_atom x_atom
source ld_len k = no_atom
source ldx_len k = no_atom
source ldx_msh k = no_atom
source ld_imm k = no_atom
source ldx_imm k = no_atom
source ld_mem k = one_atom k
source ldx_mem k = one_atom k
source stx k = one_atom x_atom
source (alu o index) k = both_atoms
source txa k = one_atom x_atom
source _ k = one_atom a_atom

stmt_of : Op → ℕ → Stmt
stmt_of op k = record { code = encode op; k = k }

-- The two functions on the labels of the machine.
at_label :
    (op : Op) (k : ℕ)
    → IsInner op k
    → (atomuse (stmt_of op k) ≡ source op k) × (atomdef (stmt_of op k) ≡ some (target op k))
unfolding atomuse atomdef stmt_of
at_label ret_k k h = absurd h
at_label ret_a k h = absurd h
at_label ja k h = absurd h
at_label (jump c s) k h = absurd h
at_label (ld_abs word) k h = (refl, refl)
at_label (ld_ind word) k h = (refl, refl)
at_label (ld_abs half) k h = (refl, refl)
at_label (ld_ind half) k h = (refl, refl)
at_label (ld_abs byte) k h = (refl, refl)
at_label (ld_ind byte) k h = (refl, refl)
at_label (alu add konst) k h = (refl, refl)
at_label (alu add index) k h = (refl, refl)
at_label (alu sub konst) k h = (refl, refl)
at_label (alu sub index) k h = (refl, refl)
at_label (alu mul konst) k h = (refl, refl)
at_label (alu mul index) k h = (refl, refl)
at_label (alu div konst) k h = (refl, refl)
at_label (alu div index) k h = (refl, refl)
at_label (alu and konst) k h = (refl, refl)
at_label (alu and index) k h = (refl, refl)
at_label (alu or konst) k h = (refl, refl)
at_label (alu or index) k h = (refl, refl)
at_label (alu lsh konst) k h = (refl, refl)
at_label (alu lsh index) k h = (refl, refl)
at_label (alu rsh konst) k h = (refl, refl)
at_label (alu rsh index) k h = (refl, refl)
at_label _ k h = (refl, refl)

pub atomuse-source :
    (s : Stmt) (op : Op) → decode s.code ≡ some op → IsInner op s.k → atomuse s ≡ source op s.k
atomuse-source s op e h =
    subst (λ c. atomuse (record { code = c; k = s.k }) ≡ source op s.k) (decode_sound s.code e)
      (unfold stmt_of in (at_label op s.k h).0)

pub atomdef-target :
    (s : Stmt) (op : Op)
    → decode s.code ≡ some op
    → IsInner op s.k
    → atomdef s ≡ some (target op s.k)
atomdef-target s op e h =
    subst (λ c. atomdef (record { code = c; k = s.k }) ≡ some (target op s.k))
      (decode_sound s.code e) (unfold stmt_of in (at_label op s.k h).1)

pub atomdef-nop : (s : Stmt) → s.code ≡ nop → atomdef s ≡ none
unfolding atomdef
atomdef-nop s e = rw e refl

pub target-lt : (op : Op) (k : ℕ) → IsInner op k → target op k < 18
target-lt st k h = omega arith
target-lt stx k h = omega arith
target-lt _ k h = omega arith

-- What is written depends on the atoms that are read alone.
pub written-agree :
    (p : List ℕ) (wirelen buflen : ℕ) (op : Op) (k : ℕ) (r r' : ℕ → ℕ)
    → ((a : ℕ) → uses (source op k) a ≡ true → r a ≡ r' a)
    → written p wirelen buflen op k r ≡ written p wirelen buflen op k r'
unfolding uses
written-agree p wirelen buflen (ld_ind s) k r r' h = rw (h x_atom refl) refl
written-agree p wirelen buflen ld_mem k r r' h = rw (h k ((==_iff k k).1 refl)) refl
written-agree p wirelen buflen ldx_mem k r r' h = rw (h k ((==_iff k k).1 refl)) refl
written-agree p wirelen buflen st k r r' h = rw (h a_atom refl) refl
written-agree p wirelen buflen stx k r r' h = rw (h x_atom refl) refl
written-agree p wirelen buflen (alu o konst) k r r' h = rw (h a_atom refl) refl
written-agree p wirelen buflen (alu o index) k r r' h = rw (h a_atom refl, h x_atom refl) refl
written-agree p wirelen buflen neg k r r' h = rw (h a_atom refl) refl
written-agree p wirelen buflen tax k r r' h = rw (h a_atom refl) refl
written-agree p wirelen buflen txa k r r' h = rw (h x_atom refl) refl
written-agree p wirelen buflen _ k r r' h = refl
