-- ===== src/Optimize/Stmt.antt =====
-- optimize.c: `vstore`, `fold_op` and `opt_stmt`.
use gap16g_libpcap.Base.{
  ℕ, ◌+◌, ◌-◌, ◌*◌, ◌/◌, ◌%◌, ◌^◌, Bool, true, false, Option, none, some, List, ◌&&◌, ◌==◌, ltb,
  if◌then◌else◌, get_or, set, bit_and, bit_or,
}
use gap16g_libpcap.Bpf.Insn.{Op, decode, encode, konst, index, Size}
use gap16g_libpcap.Bpf.Insn.{Alu, add, sub, mul, div, and, or, lsh, rsh}
use gap16g_libpcap.Bpf.Insn.{
  ld_abs, ld_ind, ld_len, ldx_msh, ld_imm, ldx_imm, ld_mem, ldx_mem, st, stx, alu, neg, tax, txa,
}
use gap16g_libpcap.Optimize.Values.{Table, intern, constant, const_val}

-- `struct stmt`, without the jump targets, which stay as they are.
pub record Stmt : Type 0 where
  pub code : ℕ
  pub k : ℕ

-- -1, which no opcode is.
abbrev pub nop : ℕ
nop = 2 ^ 32 - 1

abbrev pub a_atom : ℕ
a_atom = 16

abbrev pub x_atom : ℕ
x_atom = 17

-- The statement, `val[]`, the table, and whether `done` was cleared.
pub record Work : Type 0 where
  pub stmt : Stmt
  pub vals : List ℕ
  pub table : Table
  pub again : Bool

-- `failed` is the call of bpf_error(); `undefined` is a shift by 32 bits or more in C.
pub data Result : Type 0 where
  optimized : Work → Result
  failed undefined : Result

abbrev pub value_of : Work → ℕ → ℕ
value_of w atom = get_or w.vals atom 0

-- `vmap[v]` of a work.
abbrev pub known : Work → ℕ → Option ℕ
known w v = w.table.vmap v

-- `F` and `K` in a work.
abbrev pub with_table : Work → Table → Work
with_table w t = record w { table = t }

abbrev pub rewrite : Work → ℕ → ℕ → Work
rewrite w code k = record w { stmt = record { code = code; k = k } }

-- `val[atom] = v`.
abbrev pub assign : ℕ → ℕ × Table → Work → Work
assign atom (v, t) w = record w { vals = set w.vals atom v; table = t }

-- `vstore(s, &val[atom], newval, alter)`.
unfoldable pub vstore : Bool → ℕ → ℕ → Work → Work
vstore alter atom newval w =
    if alter && value_of w atom == newval
    then record w { stmt = record { code = nop; k = w.stmt.k } }
    else record w { vals = set w.vals atom newval }

-- `v = F(...)`, then `vstore`.
abbrev pub store_new : Bool → ℕ → ℕ × Table → Work → Work
store_new alter atom (v, t) w = vstore alter atom v (with_table w t)

pub data Folded : Type 0 where
  folded : ℕ → Folded
  error shift : Folded

-- The switch of `fold_op`; `a` and `b` are unsigned.
unfoldable pub fold_value : Alu → ℕ → ℕ → Folded
fold_value add a b = folded ((a + b) % 2 ^ 32)
fold_value sub a b = folded ((a + 2 ^ 32 - b) % 2 ^ 32)
fold_value mul a b = folded (a * b % 2 ^ 32)
fold_value div a b = if b == 0 then error else folded (a / b)
fold_value and a b = folded (bit_and a b)
fold_value or a b = folded (bit_or a b)
fold_value lsh a b = if ltb b 32 then folded (a * 2 ^ b % 2 ^ 32) else shift
fold_value rsh a b = if ltb b 32 then folded (a / 2 ^ b) else shift

-- `s->k = a; s->code = BPF_LD|BPF_IMM; done = 0;`, then `val[A_ATOM] = K(s->k)`.
abbrev pub finish_fold : Folded → Work → Result
finish_fold (folded a) w =
    optimized
      (assign a_atom (constant w.table a) (record (rewrite w (encode ld_imm) a) { again = true }))
finish_fold error w = failed
finish_fold shift w = undefined

-- `fold_op(s, v0, v1); val[A_ATOM] = K(s->k)`.
unfoldable pub fold_op : Alu → ℕ → ℕ → Work → Result
unfolding fold_value
fold_op o v0 v1 w = finish_fold (fold_value o (const_val (known w v0)) (const_val (known w v1))) w

-- `alter && vmap[v].is_const`, with the constant.
abbrev pub seen : Bool → Work → ℕ → Option ℕ
seen alter w v = if alter then known w v else none

-- `val[A_ATOM] = F(s->code, val[A_ATOM], K(k))`.
unfoldable pub new_with_k : Work → ℕ → ℕ → Work
new_with_k w code k =
    let (vk, t) = constant w.table k in
    assign a_atom (intern t code (value_of w a_atom) vk) (with_table w t)

-- BPF_LD|BPF_IND, with the constant that X is known to be.
unfoldable pub opt_ind : Bool → Size → Option ℕ → Work → Work
opt_ind alter s none w =
    store_new alter a_atom (intern w.table w.stmt.code w.stmt.k (value_of w x_atom)) w
opt_ind alter s (some c) w =
    let w' = record (rewrite w (encode (ld_abs s)) ((w.stmt.k + c) % 2 ^ 32)) { again = true } in
    store_new alter a_atom (intern w.table w'.stmt.code w'.stmt.k 0) w'

-- BPF_ALU|BPF_NEG, with the constant that A is known to be.
unfoldable pub opt_neg : Option ℕ → Work → Work
opt_neg none w = assign a_atom (intern w.table w.stmt.code (value_of w a_atom) 0) w
opt_neg (some c) w =
    let k = (2 ^ 32 - c) % 2 ^ 32 in
    assign a_atom (constant w.table k) (rewrite w (encode ld_imm) k)

-- The operations that an operand 0 leaves without effect, and those that it makes 0. "sub #0" is
-- left as it is.
abbrev pub keeps_a : Alu → Bool
keeps_a add = true
keeps_a lsh = true
keeps_a rsh = true
keeps_a or = true
keeps_a _ = false

abbrev pub clears_a : Alu → Bool
clears_a mul = true
clears_a and = true
clears_a _ = false

-- The part behind the tests for an operand 0, with the constant that A is known to be.
unfoldable pub opt_alu_const : Alu → Option ℕ → Work → Result
unfolding fold_op
opt_alu_const o none w = optimized (new_with_k w w.stmt.code w.stmt.k)
opt_alu_const o (some c) w =
    let (vk, t) = constant w.table w.stmt.k in fold_op o (value_of w a_atom) vk (with_table w t)

-- BPF_ALU|op|BPF_K.
unfoldable pub opt_alu_k : Bool → Alu → Work → Result
unfolding opt_alu_const
opt_alu_k alter o w =
    if alter && (w.stmt.k == 0 && keeps_a o)
    then optimized (rewrite w nop w.stmt.k)
    else if alter && (w.stmt.k == 0 && clears_a o)
    then optimized (assign a_atom (constant w.table w.stmt.k) (rewrite w (encode ld_imm) w.stmt.k))
    else opt_alu_const o (seen alter w (value_of w a_atom)) w

-- `val[A_ATOM] = F(s->code, val[A_ATOM], val[X_ATOM])`.
abbrev pub new_alu : Work → Work
new_alu w = assign a_atom (intern w.table w.stmt.code (value_of w a_atom) (value_of w x_atom)) w

-- With A known to be 0, before the operation on X.
unfoldable pub opt_zero_a : Bool → Alu → Work → Work
unfolding vstore
opt_zero_a alter add w = vstore alter a_atom (value_of w x_atom) (rewrite w (encode txa) w.stmt.k)
opt_zero_a alter or w = vstore alter a_atom (value_of w x_atom) (rewrite w (encode txa) w.stmt.k)
opt_zero_a alter sub w = new_alu w
opt_zero_a alter _ w = store_new alter a_atom (constant w.table 0) (rewrite w (encode ld_imm) 0)

-- X is not known to be constant; A may be.
unfoldable pub opt_alu_any : Bool → Alu → Option ℕ → Work → Work
unfolding opt_zero_a
opt_alu_any alter o none w = new_alu w
opt_alu_any alter o (some c) w = if c == 0 then opt_zero_a alter o w else new_alu w

-- X is known to be `c`; A may be constant, too.
unfoldable pub opt_alu_konst : Alu → ℕ → Option ℕ → Work → Result
unfolding fold_op
opt_alu_konst o c (some _) w = fold_op o (value_of w a_atom) (value_of w x_atom) w
opt_alu_konst o c none w =
    let w' = record (rewrite w (encode (alu o konst)) c) { again = true } in
    optimized (new_with_k w' w'.stmt.code c)

-- BPF_ALU|op|BPF_X, with the constant that X is known to be.
unfoldable pub opt_alu_x : Bool → Alu → Option ℕ → Work → Result
unfolding opt_alu_any opt_alu_konst
opt_alu_x alter o none w = optimized (opt_alu_any alter o (seen alter w (value_of w a_atom)) w)
opt_alu_x alter o (some c) w = opt_alu_konst o c (known w (value_of w a_atom)) w

-- BPF_LD|BPF_MEM and BPF_LDX|BPF_MEM, with the constant that the scratch word is known to be.
unfoldable pub opt_mem : Bool → Op → ℕ → Option ℕ → Work → Work
unfolding vstore
opt_mem alter immediate atom none w = vstore alter atom (value_of w w.stmt.k) w
opt_mem alter immediate atom (some c) w =
    vstore alter atom (value_of w w.stmt.k)
      (record (rewrite w (encode immediate) c) { again = true })

-- The cases of `opt_stmt`. Jumps, returns and BPF_LDX|BPF_LEN have none.
unfoldable pub opt_case : Bool → Option Op → Work → Result
unfolding vstore opt_ind opt_neg opt_alu_k opt_alu_x opt_mem
opt_case alter (some (ld_abs s)) w =
    optimized (store_new alter a_atom (intern w.table w.stmt.code w.stmt.k 0) w)
opt_case alter (some (ld_ind s)) w =
    optimized (opt_ind alter s (seen alter w (value_of w x_atom)) w)
opt_case alter (some ld_len) w =
    optimized (store_new alter a_atom (intern w.table w.stmt.code 0 0) w)
opt_case alter (some ld_imm) w = optimized (store_new alter a_atom (constant w.table w.stmt.k) w)
opt_case alter (some ldx_imm) w = optimized (store_new alter x_atom (constant w.table w.stmt.k) w)
opt_case alter (some ldx_msh) w =
    optimized (store_new alter x_atom (intern w.table w.stmt.code w.stmt.k 0) w)
opt_case alter (some neg) w = optimized (opt_neg (seen alter w (value_of w a_atom)) w)
opt_case alter (some (alu o konst)) w = opt_alu_k alter o w
opt_case alter (some (alu o index)) w = opt_alu_x alter o (seen alter w (value_of w x_atom)) w
opt_case alter (some txa) w = optimized (vstore alter a_atom (value_of w x_atom) w)
opt_case alter (some ld_mem) w =
    optimized (opt_mem alter ld_imm a_atom (seen alter w (value_of w w.stmt.k)) w)
opt_case alter (some tax) w = optimized (vstore alter x_atom (value_of w a_atom) w)
opt_case alter (some ldx_mem) w =
    optimized (opt_mem alter ldx_imm x_atom (seen alter w (value_of w w.stmt.k)) w)
opt_case alter (some st) w = optimized (vstore alter w.stmt.k (value_of w a_atom) w)
opt_case alter (some stx) w = optimized (vstore alter w.stmt.k (value_of w x_atom) w)
opt_case alter _ w = optimized w

unfoldable pub opt_stmt : Bool → Work → Result
unfolding opt_case
opt_stmt alter w = opt_case alter (decode w.stmt.code) w
