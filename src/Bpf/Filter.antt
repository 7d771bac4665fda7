-- ===== src/Bpf/Filter.antt =====
-- bpf/net/bpf_filter.c: `bpf_filter`, compiled for user land.
--
-- A pointer to an instruction is its index. What C leaves undefined is a `Fault`. `mem` is not
-- initialised by the source: its sixteen words are an argument here.
use gap16g_libpcap.Base.{
  ℕ, zero, suc, ◌+◌, ◌-◌, ◌*◌, ◌/◌, ◌%◌, ◌^◌, Bool, true, false, Option, none, some, List, bit_and,
  bit_or, not, ◌&&◌, ltb, leb, ◌==◌, if◌then◌else◌, get_elem?, set, length,
}
use gap16g_libpcap.Bpf.Insn.{Insn, Source, konst, index, Cond, jgt, jge, jeq, jset}
use gap16g_libpcap.Bpf.Insn.{Alu, add, sub, mul, div, and, or, lsh, rsh, decode, Op}
use gap16g_libpcap.Bpf.Insn.{
  ret_k, ret_a, ld_abs, ld_ind, ld_len, ldx_len, ldx_msh, ld_imm, ldx_imm, ld_mem, ldx_mem, st, stx,
  ja, jump, alu, neg, tax, txa,
}
use gap16g_libpcap.Bpf.Packet.{Load, loaded, rejected, outside, load, load_msh}

-- Undefined behaviour: an instruction outside the program, a scratch word outside `mem`, a byte
-- outside the packet, a division by zero, a shift by 32 bits or more.
pub data Fault : Type 0 where
  bad_pc bad_mem bad_packet div_zero bad_shift : Fault

pub record Machine : Type 0 where
  pub pc : ℕ
  pub a : ℕ
  pub x : ℕ
  pub mem : List ℕ

-- What one pass through the loop does. `aborted` is the call of abort().
pub data Outcome : Type 0 where
  running : Machine → Outcome
  returned : ℕ → Outcome
  aborted : Outcome
  faulted : Fault → Outcome

-- `continue`, with the `++pc` that follows.
abbrev pub next : Machine → Outcome
next m = running (record m { pc = m.pc + 1 })

-- `pc += off`, then `continue`.
abbrev pub skip : ℕ → Machine → Outcome
skip off m = running (record m { pc = m.pc + off + 1 })

-- `pc += (bpf_int32)k`: an offset of 2 ^ 31 or more is negative.
abbrev pub skip_signed : ℕ → Machine → Outcome
skip_signed k m =
    if ltb k (2 ^ 31)
    then skip k m
    else if leb (2 ^ 32) (m.pc + k + 1)
    then running (record m { pc = m.pc + k + 1 - 2 ^ 32 })
    else faulted bad_pc

-- The values that an operation on u_int32 can have.
pub data Value : Type 0 where
  value : ℕ → Value
  undefined : Fault → Value

unfoldable pub alu_value : Alu → ℕ → ℕ → Value
alu_value add a b = value ((a + b) % 2 ^ 32)
alu_value sub a b = value ((a + 2 ^ 32 - b) % 2 ^ 32)
alu_value mul a b = value (a * b % 2 ^ 32)
alu_value div a b = if b == 0 then undefined div_zero else value (a / b)
alu_value and a b = value (bit_and a b)
alu_value or a b = value (bit_or a b)
alu_value lsh a b = if ltb b 32 then value (a * 2 ^ b % 2 ^ 32) else undefined bad_shift
alu_value rsh a b = if ltb b 32 then value (a / 2 ^ b) else undefined bad_shift

unfoldable pub cond_value : Cond → ℕ → ℕ → Bool
cond_value jgt a b = ltb b a
cond_value jge a b = leb b a
cond_value jeq a b = a == b
cond_value jset a b = not (bit_and a b == 0)

-- The results of the parts, put into the machine.
unfoldable pub set_a : Value → Machine → Outcome
set_a (value v) m = next (record m { a = v })
set_a (undefined f) m = faulted f

unfoldable pub load_a : Load → Machine → Outcome
load_a (loaded v) m = next (record m { a = v })
load_a rejected m = returned 0
load_a outside m = faulted bad_packet

unfoldable pub load_x : Load → Machine → Outcome
load_x (loaded v) m = next (record m { x = v })
load_x rejected m = returned 0
load_x outside m = faulted bad_packet

unfoldable pub recall_a : Option ℕ → Machine → Outcome
recall_a none m = faulted bad_mem
recall_a (some v) m = next (record m { a = v })

unfoldable pub recall_x : Option ℕ → Machine → Outcome
recall_x none m = faulted bad_mem
recall_x (some v) m = next (record m { x = v })

unfoldable pub store : ℕ → ℕ → Machine → Outcome
store k v m =
    if ltb k (length m.mem) then next (record m { mem = set m.mem k v }) else faulted bad_mem

abbrev pub is_div : Alu → Bool
is_div div = true
is_div _ = false

-- `A op= X` tests for a division by zero first; `A op= k` does not.
unfoldable pub arith_a : Alu → Source → Insn → Machine → Outcome
unfolding alu_value set_a
arith_a o konst i m = set_a (alu_value o m.a i.k) m
arith_a o index i m = if is_div o && m.x == 0 then returned 0 else set_a (alu_value o m.a m.x) m

abbrev pub operand : Source → Insn → Machine → ℕ
operand konst i m = i.k
operand index i m = m.x

module _ (p : List ℕ) (wirelen buflen : ℕ) where
  -- The cases of the switch.
  unfoldable pub execute : Op → Insn → Machine → Outcome
  unfolding load_a load_x recall_a recall_x store arith_a cond_value
  execute ret_k i m = returned i.k
  execute ret_a i m = returned m.a
  execute (ld_abs s) i m = load_a (load s p buflen i.k) m
  execute (ld_ind s) i m = load_a (load s p buflen ((m.x + i.k) % 2 ^ 32)) m
  execute ld_len i m = next (record m { a = wirelen })
  execute ldx_len i m = next (record m { x = wirelen })
  execute ldx_msh i m = load_x (load_msh p buflen i.k) m
  execute ld_imm i m = next (record m { a = i.k })
  execute ldx_imm i m = next (record m { x = i.k })
  execute ld_mem i m = recall_a (get_elem? m.mem i.k) m
  execute ldx_mem i m = recall_x (get_elem? m.mem i.k) m
  execute st i m = store i.k m.a m
  execute stx i m = store i.k m.x m
  execute ja i m = skip_signed i.k m
  execute (jump c s) i m = skip (if cond_value c m.a (operand s i m) then i.jt else i.jf) m
  execute (alu o s) i m = arith_a o s i m
  execute neg i m = next (record m { a = (2 ^ 32 - m.a) % 2 ^ 32 })
  execute tax i m = next (record m { x = m.a })
  execute txa i m = next (record m { a = m.x })

  -- `switch (pc->code)`, with its default.
  unfoldable pub dispatch : Option Op → Insn → Machine → Outcome
  dispatch none i m = aborted
  dispatch (some op) i m = execute op i m

  unfoldable pub fetch : Option Insn → Machine → Outcome
  fetch none m = faulted bad_pc
  fetch (some i) m = dispatch (decode i.code) i m

  module _ (prog : List Insn) where
    unfoldable pub step : Machine → Outcome
    step m = fetch (get_elem? prog m.pc) m

    -- The loop, on fuel; `running` is what is left when the fuel is used up.
    unfoldable pub run : ℕ → Machine → Outcome
    run zero m = running m
    run (suc fuel) m = elim (step m) [
      | running m' ↦ run fuel m'
      | returned v ↦ returned v
      | aborted ↦ aborted
      | faulted f ↦ faulted f
    ]

    -- The rest of the loop behind one pass.
    abbrev pub after : ℕ → Outcome → Outcome
    after fuel o = elim o [
      | running m' ↦ run fuel m'
      | returned v ↦ returned v
      | aborted ↦ aborted
      | faulted f ↦ faulted f
    ]

abbrev pub start : List ℕ → Machine
start mem = record { pc = 0; a = 0; x = 0; mem = mem }

-- No program accepts every packet.
unfoldable pub bpf_filter : ℕ → Option (List Insn) → List ℕ → ℕ → ℕ → List ℕ → Outcome
bpf_filter fuel none p wirelen buflen mem = returned (2 ^ 32 - 1)
bpf_filter fuel (some prog) p wirelen buflen mem = run p wirelen buflen prog fuel (start mem)
