-- ===== src/Bpf/Validate.antt =====
-- bpf/net/bpf_filter.c: `bpf_validate`, compiled for user land.
use gap16g_libpcap.Base.{
  ℕ, ◌+◌, ◌-◌, ◌%◌, ◌^◌, Bool, true, false, Option, none, some, List, [], ◌∷◌, ◌&&◌, ◌||◌, not, ltb,
  leb, ◌==◌, if◌then◌else◌, get_elem?, length,
}
use gap16g_libpcap.Bpf.Insn.{Insn, bpf_class, bpf_mode, bpf_op, bpf_src, bpf_memwords}
use gap16g_libpcap.Bpf.Insn.{
  bpf_ld, bpf_ldx, bpf_st, bpf_stx, bpf_alu, bpf_jmp, bpf_ret, bpf_misc, bpf_imm, bpf_abs, bpf_ind,
  bpf_mem, bpf_len, bpf_msh, bpf_add, bpf_sub, bpf_mul, bpf_div, bpf_or, bpf_and, bpf_lsh, bpf_rsh,
  bpf_neg, bpf_ja, bpf_jeq, bpf_jgt, bpf_jge, bpf_jset, bpf_k,
}

-- The loads: which modes there are, and that a scratch word exists.
unfoldable pub check_load : Insn → Bool
check_load i =
    let mode = bpf_mode i.code in
    if mode == bpf_imm
    then true
    else if mode == bpf_abs || (mode == bpf_ind || mode == bpf_msh)
    then true
    else if mode == bpf_mem
    then not (leb bpf_memwords i.k)
    else mode == bpf_len

unfoldable pub check_alu : Insn → Bool
check_alu i =
    let op = bpf_op i.code in
    if op == bpf_add
      || (op == bpf_sub
          || (op == bpf_mul
              || (op == bpf_or
                  || (op == bpf_and || (op == bpf_lsh || (op == bpf_rsh || op == bpf_neg))))))
    then true
    else if op == bpf_div
    then not (bpf_src i.code == bpf_k && i.k == 0)
    else false

-- Jumps stay in the program. The sums are of unsigned 32-bit numbers.
unfoldable pub check_jump : ℕ → ℕ → Insn → Bool
check_jump len from i =
    let op = bpf_op i.code in
    if op == bpf_ja
    then not (leb len ((from + i.k) % 2 ^ 32))
    else if op == bpf_jeq || (op == bpf_jgt || (op == bpf_jge || op == bpf_jset))
    then not (leb len ((from + i.jt) % 2 ^ 32) || leb len ((from + i.jf) % 2 ^ 32))
    else false

-- The body of the loop, at the instruction `i` of index `at`.
unfoldable pub check_insn : ℕ → ℕ → Insn → Bool
unfolding check_load check_alu check_jump
check_insn len at i =
    let class = bpf_class i.code in
    if class == bpf_ld || class == bpf_ldx
    then check_load i
    else if class == bpf_st || class == bpf_stx
    then not (leb bpf_memwords i.k)
    else if class == bpf_alu
    then check_alu i
    else if class == bpf_jmp
    then check_jump len (at + 1) i
    else class == bpf_ret || class == bpf_misc

unfoldable pub check_from : ℕ → ℕ → List Insn → Bool
check_from len at [] = true
check_from len at (i ∷ rest) = check_insn len at i && check_from len (at + 1) rest

abbrev pub ends_in_ret : Option Insn → Bool
ends_in_ret none = false
ends_in_ret (some i) = bpf_class i.code == bpf_ret

-- `len` is the number of instructions, and so below 2 ^ 31.
unfoldable pub bpf_validate : List Insn → Bool
unfolding check_insn check_from
bpf_validate f =
    let len = length f in
    if ltb len 1
    then false
    else if check_from len 0 f
    then ends_in_ret (get_elem? f (len - 1))
    else false
