-- ===== src/Optimize/Block/Tests.antt =====
-- optimize.c: blocks whose stores are deleted, and the theorems at concrete inputs.
use gap16g_libpcap.Base.{ℕ, zero, suc, ◌<◌, ◌≡◌, refl, arith, true, false, ◌||◌, List, [], ◌∷◌, inr}
use gap16g_libpcap.Bpf.Filter.{Machine, running}
use gap16g_libpcap.Bpf.Insn.{decode, ld_imm, st}
use gap16g_libpcap.Bpf.Filter.{dispatch, execute, store}
use gap16g_libpcap.Optimize.Correct.State.{perform}
use gap16g_libpcap.Optimize.Values.{init_val}
use gap16g_libpcap.Optimize.Stmt.{Stmt, nop}
use gap16g_libpcap.Optimize.Meaning.{reg}
use gap16g_libpcap.Optimize.Start.{init_val-Describes}
use gap16g_libpcap.Optimize.Block.{
  Numbered, atomuse, atomdef, atom_elem, opt_deadstores, deadstmt, deadstmts, drop_unused,
}
use gap16g_libpcap.Optimize.Block.Effect.{uses}
use gap16g_libpcap.Optimize.Block.Runs.{run_stmts}
use gap16g_libpcap.Optimize.Block.Deadstores.{opt_deadstores-agree}
use gap16g_libpcap.Optimize.Block.Sweep.{IsSwept, SweptTo, opt_stmts-SweptTo}

abbrev stmt : ℕ → ℕ → Stmt
stmt code k = record { code = code; k = k }

-- `ld #5; st M[3]; ld #7`, and then `jeq #7`.
abbrev block : ℕ → Stmt
block zero = stmt 0x00 5
block (suc zero) = stmt 0x02 3
block (suc (suc zero)) = stmt 0x00 7
block _ = stmt 0x15 7

abbrev zeros : List ℕ
zeros = 0 ∷ 0 ∷ 0 ∷ 0 ∷ 0 ∷ 0 ∷ 0 ∷ 0 ∷ 0 ∷ 0 ∷ 0 ∷ 0 ∷ 0 ∷ 0 ∷ 0 ∷ 0 ∷ []

abbrev ends_with : ℕ → List ℕ → Machine
ends_with a mem = record { pc = 0; a = a; x = 0; mem = mem }

block-IsSwept : (i : ℕ) → i < 3 → IsSwept (block i)
unfolding decode
block-IsSwept zero h = (inr (ld_imm, refl, tt), λ e. cc, omega arith)
block-IsSwept (suc zero) h = (inr (st, refl, omega arith), λ e. cc, omega arith)
block-IsSwept (suc (suc zero)) h = (inr (ld_imm, refl, tt), λ e. cc, omega arith)
block-IsSwept (suc (suc (suc i))) h = absurd (omega arith)

block_mem : List ℕ
block_mem = 0 ∷ 0 ∷ 0 ∷ 5 ∷ 0 ∷ 0 ∷ 0 ∷ 0 ∷ 0 ∷ 0 ∷ 0 ∷ 0 ∷ 0 ∷ 0 ∷ 0 ∷ 0 ∷ []

block-runs : run_stmts [] 60 0 block 3 (ends_with 0 zeros) ≡ running (ends_with 7 block_mem)
unfolding run_stmts perform dispatch execute decode store block_mem
block-runs = refl

opt_deadstores-agree_example :
    ((opt_deadstores 0 3 block).stmts 3 ≡ block 3)
    × ((M' : Machine) × (run_stmts [] 60 0 (opt_deadstores 0 3 block).stmts 3 (ends_with 0 zeros)
          ≡ running M')
        × ((a : ℕ)
            → a < 18
            → (atom_elem 0 a || uses (atomuse (block 3)) a) ≡ true
            → reg (ends_with 7 block_mem) a ≡ reg M' a))
unfolding atomdef
opt_deadstores-agree_example =
    opt_deadstores-agree [] 60 0 0 3 block (ends_with 0 zeros) (ends_with 7 block_mem)
      (λ i h. (block-IsSwept i h).0) refl refl block-runs

-- The store is deleted, and what it used is left for the next pass.
stores_deleted :
    ((opt_deadstores 0 3 block).stmts 0 ≡ stmt 0x00 5)
    × ((opt_deadstores 0 3 block).stmts 1 ≡ stmt nop 3)
    × ((opt_deadstores 0 3 block).stmts 2 ≡ stmt 0x00 7)
unfolding opt_deadstores deadstmt deadstmts drop_unused atomuse atomdef
stores_deleted = (refl, refl, refl)

abbrev numbered_block : Numbered
numbered_block = record { stmts = block; vals = 0 ∷ 0 ∷ zeros; table = init_val; again = false }

opt_stmts-SweptTo_example :
    SweptTo [] 60 0 tt
      (omega arith)
      true
      numbered_block
      (ends_with 0 zeros)
      3
      (ends_with 7 block_mem)
opt_stmts-SweptTo_example =
    opt_stmts-SweptTo [] 60 0 tt (omega arith) true numbered_block (ends_with 0 zeros) (λ v. 0) 3
      (ends_with 7 block_mem)
      (init_val-Describes [] 60 0 (block 3) (0 ∷ 0 ∷ zeros) (ends_with 0 zeros) 0 (omega arith) refl
        refl refl (omega arith) refl)
      (record { a_fits = omega arith; x_fits = omega arith; mem_fits = omega arith }) block-IsSwept
      block-runs
