-- ===== src/Bpf/Safety/Needs.antt =====
-- bpf/net/bpf_filter.c: the check of one instruction, operation by operation.
use gap16g_libpcap.Base.{ℕ, ◌+◌, ◌%◌, ◌^◌, ◌<◌, ◌≡◌, ◌≢◌, ap, arith, true}
use gap16g_libpcap.Bpf.Insn.{Insn, bpf_class, bpf_mode, bpf_op, bpf_src, encode, Op}
use gap16g_libpcap.Bpf.Insn.{konst, index, jgt, jge, jeq, jset}
use gap16g_libpcap.Bpf.Insn.{add, div}
use gap16g_libpcap.Bpf.Insn.{ld_mem, ldx_mem, st, stx, ja, jump, alu}
use gap16g_libpcap.Bpf.Validate.{check_insn}

-- What an operation needs of its operands, in a program of `len` instructions at index `at`.
abbrev pub Needs : Op → ℕ → ℕ → Insn → Type 0
Needs ld_mem len at i = i.k < 16
Needs ldx_mem len at i = i.k < 16
Needs st len at i = i.k < 16
Needs stx len at i = i.k < 16
Needs ja len at i = (at + 1 + i.k) % 2 ^ 32 < len
Needs (jump c s) len at i = ((at + 1 + i.jt) % 2 ^ 32 < len) × ((at + 1 + i.jf) % 2 ^ 32 < len)
Needs (alu o konst) len at i = o ≡ div → i.k ≢ 0
Needs _ len at i = Unit

module _ (len at : ℕ) (i : Insn) where
  pub check_insn-Needs :
      (op : Op) → encode op ≡ i.code → check_insn len at i ≡ true → Needs op len at i
  unfolding check_insn
  check_insn-Needs ld_mem e h = ground (arith, ap bpf_class e, ap bpf_mode e)
  check_insn-Needs ldx_mem e h = ground (arith, ap bpf_class e, ap bpf_mode e)
  check_insn-Needs st e h = ground (arith, ap bpf_class e)
  check_insn-Needs stx e h = ground (arith, ap bpf_class e)
  check_insn-Needs ja e h = ground (arith, ap bpf_class e, ap bpf_op e)
  check_insn-Needs (jump jgt konst) e h = ground (arith, ap bpf_class e, ap bpf_op e)
  check_insn-Needs (jump jgt index) e h = ground (arith, ap bpf_class e, ap bpf_op e)
  check_insn-Needs (jump jge konst) e h = ground (arith, ap bpf_class e, ap bpf_op e)
  check_insn-Needs (jump jge index) e h = ground (arith, ap bpf_class e, ap bpf_op e)
  check_insn-Needs (jump jeq konst) e h = ground (arith, ap bpf_class e, ap bpf_op e)
  check_insn-Needs (jump jeq index) e h = ground (arith, ap bpf_class e, ap bpf_op e)
  check_insn-Needs (jump jset konst) e h = ground (arith, ap bpf_class e, ap bpf_op e)
  check_insn-Needs (jump jset index) e h = ground (arith, ap bpf_class e, ap bpf_op e)
  check_insn-Needs (alu div konst) e h =
      λ d. ground (arith, ap bpf_class e, ap bpf_op e, ap bpf_src e)
  check_insn-Needs (alu add konst) e h = λ d. cc
  check_insn-Needs (alu _ konst) e h = λ d. cc
  check_insn-Needs _ e h = tt
