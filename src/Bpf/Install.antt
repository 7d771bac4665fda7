-- ===== src/Bpf/Install.antt =====
-- optimize.c: `install_bpf_program`, which validates a program and copies it to the capture handle.
use gap16g_libpcap.Base.{
  ℕ, ◌*◌, ◌≡◌, arith, Bool, true, Option, none, some, List, length, if◌then◌else◌, inl, inr,
  Bool-cases,
}
use gap16g_libpcap.Bpf.Insn.{Insn}
use gap16g_libpcap.Bpf.Filter.{bpf_filter, start}
use gap16g_libpcap.Bpf.Validate.{bpf_validate}
use gap16g_libpcap.Bpf.Safety.Steps.{IsSafe}
use gap16g_libpcap.Bpf.Safety.Program.{IsProgram, run-IsSafe}

-- `p->fcode`.
pub record Fcode : Type 0 where
  pub bf_len : ℕ
  pub bf_insns : Option (List Insn)

abbrev pub pcap_freecode : Fcode
pcap_freecode = record { bf_len = 0; bf_insns = none }

pub data Installed : Type 0 where
  not_valid no_memory copied : Installed

-- `room` is whether malloc has so many bytes.
unfoldable pub install_bpf_program : (ℕ → Bool) → List Insn → Fcode → Installed × Fcode
install_bpf_program room prog fcode =
    if bpf_validate prog
    then (if room (8 * length prog)
        then (copied, record { bf_len = length prog; bf_insns = some prog })
        else (no_memory, record pcap_freecode { bf_len = length prog }))
    else (not_valid, fcode)

-- No run of the filter that is installed leaves its code or its scratch words, calls abort() or
-- divides by zero.
abbrev pub RunsSafely : Fcode → Type 0
RunsSafely fcode =
    (fuel : ℕ) (p : List ℕ) (wirelen buflen : ℕ) (mem : List ℕ)
    → length mem ≡ 16
    → IsSafe fcode.bf_len (bpf_filter fuel fcode.bf_insns p wirelen buflen mem)

valid-RunsSafely :
    (prog : List Insn)
    → bpf_validate prog ≡ true
    → IsProgram prog
    → RunsSafely (record { bf_len = length prog; bf_insns = some prog })
unfolding bpf_filter bpf_validate
valid-RunsSafely prog valid fine fuel p wirelen buflen mem words =
    run-IsSafe prog valid fine p wirelen buflen fuel (start mem) (ground arith, words)

-- Where each run of the filter that is installed is safe, it is safe behind `install_bpf_program`, whether
-- the new program is valid and whether there is memory for it. The machine has the labels of the program.
pub install_bpf_program-RunsSafely :
    (room : ℕ → Bool) (prog : List Insn) (fcode : Fcode)
    → IsProgram prog
    → RunsSafely fcode
    → RunsSafely (install_bpf_program room prog fcode).1
unfolding install_bpf_program bpf_filter
install_bpf_program-RunsSafely room prog fcode fine safe = elim (Bool-cases (bpf_validate prog)) [
  | inr invalid ↦ rw invalid safe
  | inl valid ↦ elim (Bool-cases (room (8 * length prog))) [
    | inl copies ↦ rw (valid, copies) (valid-RunsSafely prog valid fine)
    | inr full ↦ rw (valid, full) (λ fuel p wirelen buflen mem words. tt)
  ]
]
