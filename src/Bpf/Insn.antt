-- ===== src/Bpf/Insn.antt =====
-- pcap/bpf.h: `struct bpf_insn`, the fields of an opcode, and the opcodes that
-- bpf/net/bpf_filter.c knows.
use mathlib.Core.Option.{some-injective}
use mathlib.Core.Path.{subst}
use gap16g_libpcap.Base.{ℕ, ◌≡◌, ◌↔◌, refl, Option, none, some, inl, inr}
use gap16g_libpcap.Base.{List, [], ◌∷◌, bit_and, bit_or, ◌==◌, ==_iff, if◌then◌else◌, Bool-cases}

-- `struct bpf_insn`: a u_short, two u_char and a 32-bit operand.
pub record Insn : Type 0 where
  pub code : ℕ
  pub jt : ℕ
  pub jf : ℕ
  pub k : ℕ

-- BPF_CLASS, BPF_MODE, BPF_OP and BPF_SRC.
abbrev pub bpf_class : ℕ → ℕ
bpf_class code = bit_and code 0x07

abbrev pub bpf_mode : ℕ → ℕ
bpf_mode code = bit_and code 0xe0

abbrev pub bpf_op : ℕ → ℕ
bpf_op code = bit_and code 0xf0

abbrev pub bpf_src : ℕ → ℕ
bpf_src code = bit_and code 0x08

abbrev pub bpf_ld : ℕ
bpf_ld = 0x00

abbrev pub bpf_ldx : ℕ
bpf_ldx = 0x01

abbrev pub bpf_st : ℕ
bpf_st = 0x02

abbrev pub bpf_stx : ℕ
bpf_stx = 0x03

abbrev pub bpf_alu : ℕ
bpf_alu = 0x04

abbrev pub bpf_jmp : ℕ
bpf_jmp = 0x05

abbrev pub bpf_ret : ℕ
bpf_ret = 0x06

abbrev pub bpf_misc : ℕ
bpf_misc = 0x07

abbrev pub bpf_w : ℕ
bpf_w = 0x00

abbrev pub bpf_h : ℕ
bpf_h = 0x08

abbrev pub bpf_b : ℕ
bpf_b = 0x10

abbrev pub bpf_imm : ℕ
bpf_imm = 0x00

abbrev pub bpf_abs : ℕ
bpf_abs = 0x20

abbrev pub bpf_ind : ℕ
bpf_ind = 0x40

abbrev pub bpf_mem : ℕ
bpf_mem = 0x60

abbrev pub bpf_len : ℕ
bpf_len = 0x80

abbrev pub bpf_msh : ℕ
bpf_msh = 0xa0

abbrev pub bpf_add : ℕ
bpf_add = 0x00

abbrev pub bpf_sub : ℕ
bpf_sub = 0x10

abbrev pub bpf_mul : ℕ
bpf_mul = 0x20

abbrev pub bpf_div : ℕ
bpf_div = 0x30

abbrev pub bpf_or : ℕ
bpf_or = 0x40

abbrev pub bpf_and : ℕ
bpf_and = 0x50

abbrev pub bpf_lsh : ℕ
bpf_lsh = 0x60

abbrev pub bpf_rsh : ℕ
bpf_rsh = 0x70

abbrev pub bpf_neg : ℕ
bpf_neg = 0x80

abbrev pub bpf_ja : ℕ
bpf_ja = 0x00

abbrev pub bpf_jeq : ℕ
bpf_jeq = 0x10

abbrev pub bpf_jgt : ℕ
bpf_jgt = 0x20

abbrev pub bpf_jge : ℕ
bpf_jge = 0x30

abbrev pub bpf_jset : ℕ
bpf_jset = 0x40

abbrev pub bpf_k : ℕ
bpf_k = 0x00

abbrev pub bpf_x : ℕ
bpf_x = 0x08

abbrev pub bpf_a : ℕ
bpf_a = 0x10

abbrev pub bpf_tax : ℕ
bpf_tax = 0x00

abbrev pub bpf_txa : ℕ
bpf_txa = 0x80

abbrev pub bpf_memwords : ℕ
bpf_memwords = 16

pub data Size : Type 0 where
  word half byte : Size

-- Where the second operand of an instruction comes from.
pub data Source : Type 0 where
  konst index : Source

pub data Cond : Type 0 where
  jgt jge jeq jset : Cond

pub data Alu : Type 0 where
  add sub mul div and or lsh rsh : Alu

-- One constructor for each form of `case` label in the machine's switch.
pub data Op : Type 0 where
  ret_k ret_a : Op
  ld_abs ld_ind : Size → Op
  ld_len ldx_len ldx_msh : Op
  ld_imm ldx_imm ld_mem ldx_mem st stx : Op
  ja : Op
  jump : Cond → Source → Op
  alu : Alu → Source → Op
  neg tax txa : Op

abbrev pub size_bits : Size → ℕ
size_bits word = bpf_w
size_bits half = bpf_h
size_bits byte = bpf_b

abbrev pub source_bits : Source → ℕ
source_bits konst = bpf_k
source_bits index = bpf_x

abbrev pub cond_bits : Cond → ℕ
cond_bits jgt = bpf_jgt
cond_bits jge = bpf_jge
cond_bits jeq = bpf_jeq
cond_bits jset = bpf_jset

abbrev pub alu_bits : Alu → ℕ
alu_bits add = bpf_add
alu_bits sub = bpf_sub
alu_bits mul = bpf_mul
alu_bits div = bpf_div
alu_bits and = bpf_and
alu_bits or = bpf_or
alu_bits lsh = bpf_lsh
alu_bits rsh = bpf_rsh

-- The `case` label of each operation.
abbrev pub encode : Op → ℕ
encode ret_k = bit_or bpf_ret bpf_k
encode ret_a = bit_or bpf_ret bpf_a
encode (ld_abs s) = bit_or (bit_or bpf_ld (size_bits s)) bpf_abs
encode (ld_ind s) = bit_or (bit_or bpf_ld (size_bits s)) bpf_ind
encode ld_len = bit_or (bit_or bpf_ld bpf_w) bpf_len
encode ldx_len = bit_or (bit_or bpf_ldx bpf_w) bpf_len
encode ldx_msh = bit_or (bit_or bpf_ldx bpf_msh) bpf_b
encode ld_imm = bit_or bpf_ld bpf_imm
encode ldx_imm = bit_or bpf_ldx bpf_imm
encode ld_mem = bit_or bpf_ld bpf_mem
encode ldx_mem = bit_or bpf_ldx bpf_mem
encode st = bpf_st
encode stx = bpf_stx
encode ja = bit_or bpf_jmp bpf_ja
encode (jump c s) = bit_or (bit_or bpf_jmp (cond_bits c)) (source_bits s)
encode (alu o s) = bit_or (bit_or bpf_alu (alu_bits o)) (source_bits s)
encode neg = bit_or bpf_alu bpf_neg
encode tax = bit_or bpf_misc bpf_tax
encode txa = bit_or bpf_misc bpf_txa

abbrev pub all_ops : List Op
all_ops =
    ret_k
    ∷ ret_a
    ∷ ld_abs word
    ∷ ld_abs half
    ∷ ld_abs byte
    ∷ ld_len
    ∷ ldx_len
    ∷ ld_ind word
    ∷ ld_ind half
    ∷ ld_ind byte
    ∷ ldx_msh
    ∷ ld_imm
    ∷ ldx_imm
    ∷ ld_mem
    ∷ ldx_mem
    ∷ st
    ∷ stx
    ∷ ja
    ∷ jump jgt konst
    ∷ jump jge konst
    ∷ jump jeq konst
    ∷ jump jset konst
    ∷ jump jgt index
    ∷ jump jge index
    ∷ jump jeq index
    ∷ jump jset index
    ∷ alu add index
    ∷ alu sub index
    ∷ alu mul index
    ∷ alu div index
    ∷ alu and index
    ∷ alu or index
    ∷ alu lsh index
    ∷ alu rsh index
    ∷ alu add konst
    ∷ alu sub konst
    ∷ alu mul konst
    ∷ alu div konst
    ∷ alu and konst
    ∷ alu or konst
    ∷ alu lsh konst
    ∷ alu rsh konst
    ∷ neg
    ∷ tax
    ∷ txa
    ∷ []

-- The first operation of a list whose label is `code`.
unfoldable pub find_op : ℕ → List Op → Option Op
find_op code [] = none
find_op code (op ∷ ops) = if encode op == code then some op else find_op code ops

-- `switch (pc->code)`; `none` is the `default` label.
unfoldable pub decode : ℕ → Option Op
unfolding find_op
decode code = find_op code all_ops

find_op_sound : (code : ℕ) (ops : List Op) (op : Op) → find_op code ops ≡ some op → encode op ≡ code
unfolding find_op
find_op_sound code [] op h = cc
find_op_sound code (o ∷ ops) op h = elim (Bool-cases (encode o == code)) [
  | inl same ↦ rw (← some-injective _ _ (rw same at h)) ((==_iff (encode o) code).0 same)
  | inr other ↦ find_op_sound code ops op (rw other at h)
]

pub decode_sound : (code : ℕ) {op : Op} → decode code ≡ some op → encode op ≡ code
unfolding decode
decode_sound code {op} h = find_op_sound code all_ops op h

pub decode-encode : (op : Op) → decode (encode op) ≡ some op
unfolding decode
decode-encode (ld_abs word) = refl
decode-encode (ld_abs half) = refl
decode-encode (ld_abs byte) = refl
decode-encode (ld_ind word) = refl
decode-encode (ld_ind half) = refl
decode-encode (ld_ind byte) = refl
decode-encode (jump jgt konst) = refl
decode-encode (jump jgt index) = refl
decode-encode (jump jge konst) = refl
decode-encode (jump jge index) = refl
decode-encode (jump jeq konst) = refl
decode-encode (jump jeq index) = refl
decode-encode (jump jset konst) = refl
decode-encode (jump jset index) = refl
decode-encode (alu add konst) = refl
decode-encode (alu add index) = refl
decode-encode (alu sub konst) = refl
decode-encode (alu sub index) = refl
decode-encode (alu mul konst) = refl
decode-encode (alu mul index) = refl
decode-encode (alu div konst) = refl
decode-encode (alu div index) = refl
decode-encode (alu and konst) = refl
decode-encode (alu and index) = refl
decode-encode (alu or konst) = refl
decode-encode (alu or index) = refl
decode-encode (alu lsh konst) = refl
decode-encode (alu lsh index) = refl
decode-encode (alu rsh konst) = refl
decode-encode (alu rsh index) = refl
decode-encode _ = refl

-- An opcode decodes to an operation exactly when it is that operation's label: the labels are
-- distinct, and each reaches its own case.
pub decode-encode_iff : (code : ℕ) (op : Op) → (decode code ≡ some op) ↔ (encode op ≡ code)
decode-encode_iff code op =
    (λ h. decode_sound code h, λ e. subst (λ c. decode c ≡ some op) e (decode-encode op))
