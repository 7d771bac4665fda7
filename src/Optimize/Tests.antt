-- ===== src/Optimize/Tests.antt =====
-- optimize.c: statements optimized, and the theorems at concrete inputs.
use gap16g_libpcap.Base.{
  ℕ, ◌≡◌, ◌≢◌, refl, arith, true, false, none, some, List, [], ◌∷◌, ◌==◌, if◌then◌else◌,
}
use gap16g_libpcap.Bpf.Insn.{decode}
use gap16g_libpcap.Bpf.Insn.{ld_imm}
use gap16g_libpcap.Bpf.Filter.{Machine}
use gap16g_libpcap.Optimize.Values.{intern, constant}
use gap16g_libpcap.Optimize.Stmt.{Stmt, Work, Result, optimized, opt_stmt}
use gap16g_libpcap.Optimize.Correct.State.{perform}
use gap16g_libpcap.Optimize.Values.{init_val, find_node, hash, add_node}
use gap16g_libpcap.Optimize.Start.{init_val-Describes}
use gap16g_libpcap.Optimize.Correct.Arith.{ResultCorrect, Agrees, fold_value-Agrees}
use gap16g_libpcap.Bpf.Insn.{div}
use gap16g_libpcap.Bpf.Filter.{alu_value}
use gap16g_libpcap.Optimize.Stmt.{fold_value}
use gap16g_libpcap.Optimize.Correct.Statement.{opt_stmt-Correct}
use gap16g_libpcap.Optimize.Unsound.{txa_unknown}

abbrev zeros : List ℕ
zeros = 0 ∷ 0 ∷ 0 ∷ 0 ∷ 0 ∷ 0 ∷ 0 ∷ 0 ∷ 0 ∷ 0 ∷ 0 ∷ 0 ∷ 0 ∷ 0 ∷ 0 ∷ 0 ∷ []

-- `ld #5` at the beginning of a block.
abbrev load_five : Work
load_five = record {
  stmt = record { code = 0; k = 5 };
  vals = 0 ∷ 0 ∷ zeros;
  table = init_val;
  again = false;
}

abbrev at_start : Machine
at_start = record { pc = 0; a = 0; x = 0; mem = zeros }

opt_stmt-Correct_example :
    ResultCorrect [] 60 0 at_start
      (perform [] 60 0 (record { code = 0; k = 5 }) at_start)
      (opt_stmt true load_five)
unfolding decode
opt_stmt-Correct_example =
    opt_stmt-Correct [] 60 0 (λ v. 0) load_five at_start
      (init_val-Describes [] 60 0 (record { code = 0; k = 5 }) (0 ∷ 0 ∷ zeros) at_start 0
        (omega arith) refl refl refl (omega arith) refl)
      true (omega arith) (omega arith) ld_imm refl tt

-- The statements of a block, one after the other, as the loop of `opt_blk` runs them.
then_stmt : Stmt → Result → Result
then_stmt s (optimized w) = opt_stmt true (record w { stmt = s })
then_stmt s r = r

code_of : Result → ℕ × ℕ
code_of (optimized w) = (w.stmt.code, w.stmt.k)
code_of _ = (0, 0)

-- `ld #5`, `add #3`: the second becomes `ld #8`.
five_plus_three :
    code_of (then_stmt (record { code = 0x04; k = 3 }) (opt_stmt true load_five)) ≡ (0, 8)
unfolding code_of then_stmt opt_stmt decode intern hash find_node add_node constant init_val
five_plus_three = refl

abbrev unknown_txa : Work
unknown_txa = record {
  stmt = record { code = 0x87; k = 0 };
  vals = 0 ∷ 0 ∷ zeros;
  table = init_val;
  again = false;
}

abbrev different : Machine
different = record { pc = 0; a = 1; x = 2; mem = zeros }

txa_unknown_example :
    (r : Work) × (opt_stmt true unknown_txa ≡ optimized r)
    × (perform [] 60 0 r.stmt different ≢ perform [] 60 0 unknown_txa.stmt different)
unfolding decode
txa_unknown_example = txa_unknown [] 60 0 unknown_txa different refl refl refl (omega arith)

-- A is known to be 0 by the number 1; X has the number 2, of which nothing is known.
abbrev zero_by_x : Work
zero_by_x = record {
  stmt = record { code = 0x3c; k = 0 };
  vals = 0 ∷ 0 ∷ 0 ∷ 0 ∷ 0 ∷ 0 ∷ 0 ∷ 0 ∷ 0 ∷ 0 ∷ 0 ∷ 0 ∷ 0 ∷ 0 ∷ 0 ∷ 0 ∷ 1 ∷ 2 ∷ [];
  table = record { curval = 2; vmap = λ v. if v == 1 then some 0 else none; hashtbl = λ h. [] };
  again = false;
}

fold_value-Agrees_example : Agrees (fold_value div 7 0) (alu_value div 7 0)
fold_value-Agrees_example = fold_value-Agrees div 7 0
