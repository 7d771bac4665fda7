-- ===== src/Bpf/Safety/Gap.antt =====
-- bpf/net/bpf_filter.c: opcodes that `bpf_validate` and `bpf_filter` treat differently.
use native.Mathlib.Numerals.{add-one}
use gap16g_libpcap.Base.{ℕ, ◌+◌, ◌≡◌, arith, true, none, some, List, [], ◌∷◌}
use gap16g_libpcap.Bpf.Insn.{Insn, bpf_class, decode}
use gap16g_libpcap.Bpf.Filter.{aborted, run, step, fetch, dispatch, bpf_filter}
use gap16g_libpcap.Bpf.Validate.{bpf_validate}

-- Every opcode of class BPF_RET that is no label of the machine, such as BPF_RET|BPF_X, makes a
-- program of one instruction that is accepted and calls abort() on every packet.
pub bpf_validate-aborted :
    (i : Insn) (p : List ℕ) (wirelen buflen fuel : ℕ) (mem : List ℕ)
    → bpf_class i.code ≡ 6
    → decode i.code ≡ none
    → (bpf_validate (i ∷ []) ≡ true)
      × (bpf_filter (fuel + 1) (some (i ∷ [])) p wirelen buflen mem ≡ aborted)
unfolding bpf_validate bpf_filter run step fetch dispatch
bpf_validate-aborted i p wirelen buflen fuel mem class unknown =
    (ground arith, rw (add-one, run, unknown))
