-- ===== src/Optimize/Block.antt =====
-- optimize.c: what a statement uses and defines, and the dead stores of a block.
--
-- A pointer to a statement is its index in the block; the statement that ends the block, `b->s`,
-- has the index behind the others. `last[]` is a function of the atom.
pub mod Effect
pub mod Runs
pub mod Erase
pub mod Kept
pub mod Deadstores
pub mod Sweep
mod Tests
use gap16g_libpcap.Base.{
  ℕ, zero, suc, ◌+◌, ◌^◌, Bool, true, false, not, Option, none, some, ◌||◌, ◌==◌, if◌then◌else◌,
  bit_and,
}
use gap16g_libpcap.Bpf.Insn.{
  bpf_class, bpf_mode, bpf_src, bpf_ld, bpf_ldx, bpf_st, bpf_stx, bpf_alu, bpf_jmp, bpf_ret,
  bpf_ind, bpf_mem, bpf_x, bpf_a, bpf_tax, bpf_txa,
}
use gap16g_libpcap.Base.{List}
use gap16g_libpcap.Optimize.Values.{Table}
use gap16g_libpcap.Optimize.Stmt.{
  Stmt, nop, a_atom, x_atom, Work, Result, optimized, failed, undefined, opt_stmt,
}

-- What `atomuse` returns: -1, an atom, or AX_ATOM.
pub data Use : Type 0 where
  no_atom both_atoms : Use
  one_atom : ℕ → Use

-- BPF_RVAL and BPF_MISCOP.
abbrev pub bpf_rval : ℕ → ℕ
bpf_rval code = bit_and code 0x18

abbrev pub bpf_miscop : ℕ → ℕ
bpf_miscop code = bit_and code 0xf8

-- The switch; its eighth case, BPF_MISC, is what is left of the class.
unfoldable pub class_use : ℕ → ℕ → Use
class_use c k =
    if bpf_class c == bpf_ret
    then (if bpf_rval c == bpf_a
        then one_atom a_atom
        else if bpf_rval c == bpf_x
        then one_atom x_atom
        else no_atom)
    else if bpf_class c == bpf_ld || bpf_class c == bpf_ldx
    then (if bpf_mode c == bpf_ind
        then one_atom x_atom
        else if bpf_mode c == bpf_mem
        then one_atom k
        else no_atom)
    else if bpf_class c == bpf_st
    then one_atom a_atom
    else if bpf_class c == bpf_stx
    then one_atom x_atom
    else if bpf_class c == bpf_jmp || bpf_class c == bpf_alu
    then (if bpf_src c == bpf_x then both_atoms else one_atom a_atom)
    else if bpf_miscop c == bpf_txa
    then one_atom x_atom
    else one_atom a_atom

unfoldable pub atomuse : Stmt → Use
unfolding class_use
atomuse s = if s.code == nop then no_atom else class_use s.code s.k

unfoldable pub class_def : ℕ → ℕ → Option ℕ
class_def c k =
    if bpf_class c == bpf_ld || bpf_class c == bpf_alu
    then some a_atom
    else if bpf_class c == bpf_ldx
    then some x_atom
    else if bpf_class c == bpf_st || bpf_class c == bpf_stx
    then some k
    else if bpf_class c == bpf_ret || bpf_class c == bpf_jmp
    then none
    else if bpf_miscop c == bpf_tax
    then some x_atom
    else some a_atom

unfoldable pub atomdef : Stmt → Option ℕ
unfolding class_def
atomdef s = if s.code == nop then none else class_def s.code s.k

-- ATOMELEM.
abbrev pub atom_elem : ℕ → ℕ → Bool
atom_elem set n = not (bit_and set (2 ^ n) == 0)

-- The statements, `last[]`, and whether `done` was cleared.
pub record Stores : Type 0 where
  pub stmts : ℕ → Stmt
  pub last : ℕ → Option ℕ
  pub again : Bool

abbrev pub deleted : Stmt → Stmt
deleted s = record { code = nop; k = s.k }

abbrev pub delete_at : (ℕ → Stmt) → ℕ → ℕ → Stmt
delete_at f j i = if i == j then deleted (f i) else f i

-- `last[atom] = 0` for the atoms that are used.
abbrev pub forget : Use → (ℕ → Option ℕ) → ℕ → Option ℕ
forget no_atom last = last
forget (one_atom atom) last = λ a. if a == atom then none else last a
forget both_atoms last = λ a. if a == a_atom || a == x_atom then none else last a

-- `last[atom]->code = NOP; done = 0;`, where `last[atom]` is there.
abbrev pub delete_last : Option ℕ → Stores → Stores
delete_last none d = d
delete_last (some j) d = record d { stmts = delete_at d.stmts j; again = true }

abbrev pub define : Option ℕ → ℕ → Stores → Stores
define none i d = d
define (some atom) i d =
    let d' = delete_last (d.last atom) d in
    record d' { last = λ a. if a == atom then some i else d'.last a }

-- `deadstmt` at the statement of index `i`.
unfoldable pub deadstmt : ℕ → Stores → Stores
unfolding atomuse atomdef
deadstmt i d =
    define (atomdef (d.stmts i)) i (record d { last = forget (atomuse (d.stmts i)) d.last })

-- The first `n` statements.
unfoldable pub deadstmts : ℕ → Stores → Stores
deadstmts zero d = d
deadstmts (suc n) d = deadstmt n (deadstmts n d)

-- The loop over the first `n` atoms, behind the statements.
unfoldable pub drop_unused : ℕ → ℕ → Stores → Stores
drop_unused out_use zero d = d
drop_unused out_use (suc atom) d =
    let d' = drop_unused out_use atom d in
    if atom_elem out_use atom then d' else delete_last (d'.last atom) d'

-- `opt_deadstores` of a block with `n` statements before `b->s`.
unfoldable pub opt_deadstores : ℕ → ℕ → (ℕ → Stmt) → Stores
opt_deadstores out_use n f =
    drop_unused out_use 18
      (deadstmt n (deadstmts n (record { stmts = f; last = λ a. none; again = false })))

-- The statements of a block with `b->val`, the table, and whether `done` was cleared.
pub record Numbered : Type 0 where
  pub stmts : ℕ → Stmt
  pub vals : List ℕ
  pub table : Table
  pub again : Bool

-- What the loop over the statements gives: the call of bpf_error(), or a shift that C leaves open.
pub data Swept : Type 0 where
  swept : Numbered → Swept
  swept_failed swept_undefined : Swept

abbrev pub work_at : ℕ → Numbered → Work
work_at i b = record { stmt = b.stmts i; vals = b.vals; table = b.table; again = b.again }

abbrev pub put_work : ℕ → Numbered → Result → Swept
put_work i b (optimized w) = swept (record {
  stmts = λ j. if j == i then w.stmt else b.stmts j;
  vals = w.vals;
  table = w.table;
  again = w.again;
})
put_work i b failed = swept_failed
put_work i b undefined = swept_undefined

abbrev pub sweep_at : Bool → ℕ → Swept → Swept
sweep_at alter i (swept b) = put_work i b (opt_stmt alter (work_at i b))
sweep_at alter i swept_failed = swept_failed
sweep_at alter i swept_undefined = swept_undefined

-- `opt_stmt` at each of the first `n` statements, as `opt_blk` calls it.
unfoldable pub opt_stmts : Bool → ℕ → Numbered → Swept
opt_stmts alter zero b = swept b
opt_stmts alter (suc n) b = sweep_at alter n (opt_stmts alter n b)
