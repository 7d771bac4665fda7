-- ===== src/Bpf/Tests.antt =====
-- bpf/net/bpf_filter.c: programs run on packets, and the theorems at concrete inputs.
use gap16g_libpcap.Base.{ℕ, ◌+◌, ◌≡◌, refl, arith, true, some, none, List, [], ◌∷◌}
use gap16g_libpcap.Bpf.Insn.{Insn, ret_k, ld_abs, jump, jeq, konst, word, half, decode}
use gap16g_libpcap.Bpf.Packet.{outside, load, extract_short}
use gap16g_libpcap.Bpf.Packet.Bounds.{IsLoad, load-IsLoad, load_wraps}
use gap16g_libpcap.Bpf.Filter.{
  returned, aborted, run, step, fetch, dispatch, execute, start, bpf_filter,
}
use gap16g_libpcap.Bpf.Validate.{bpf_validate}
use gap16g_libpcap.Bpf.Safety.Steps.{IsSafe}
use gap16g_libpcap.Bpf.Safety.Program.{IsProgram, run-IsSafe}
use gap16g_libpcap.Bpf.Safety.Forward.{IsForward}
use gap16g_libpcap.Bpf.Safety.Gap.{bpf_validate-aborted}
use gap16g_libpcap.Bpf.Install.{
  pcap_freecode, install_bpf_program, RunsSafely, install_bpf_program-RunsSafely,
}
use gap16g_libpcap.Bpf.Safety.Ends.{Ends, bpf_filter-Ends}
use gap16g_libpcap.Bpf.Safety.Words.{GivesWords, run-GivesWords}

abbrev insn : ℕ → ℕ → ℕ → ℕ → Insn
insn code jt jf k = record { code = code; jt = jt; jf = jf; k = k }

-- What `pcap_compile` makes of "ip" on Ethernet.
abbrev ip_filter : List Insn
ip_filter = insn 0x28 0 0 12 ∷ insn 0x15 0 1 0x800 ∷ insn 0x06 0 0 65535 ∷ insn 0x06 0 0 0 ∷ []

abbrev ip_packet : List ℕ
ip_packet = 1 ∷ 2 ∷ 3 ∷ 4 ∷ 5 ∷ 6 ∷ 7 ∷ 8 ∷ 9 ∷ 10 ∷ 11 ∷ 12 ∷ 8 ∷ 0 ∷ 0x45 ∷ []

abbrev scratch : List ℕ
scratch = 0 ∷ 0 ∷ 0 ∷ 0 ∷ 0 ∷ 0 ∷ 0 ∷ 0 ∷ 0 ∷ 0 ∷ 0 ∷ 0 ∷ 0 ∷ 0 ∷ 0 ∷ 0 ∷ []

runs :
    (bpf_filter 4 (some ip_filter) ip_packet 60 15 scratch ≡ returned 65535)
    × (bpf_filter 4 (some ip_filter) ip_packet 60 13 scratch ≡ returned 0)
    × (bpf_filter 4 (some ip_filter) scratch 60 16 scratch ≡ returned 0)
    × (bpf_filter 4 none ip_packet 60 15 scratch ≡ returned 4294967295)
unfolding bpf_filter run step fetch dispatch execute decode load extract_short
runs = (refl, refl, refl, refl)

ip_filter-valid : bpf_validate ip_filter ≡ true
unfolding bpf_validate
ip_filter-valid = refl

ip_filter-IsProgram : IsProgram ip_filter
unfolding decode
ip_filter-IsProgram = record {
  short = omega arith;
  encoded = omega arith;
  known = ((ld_abs half, refl), ((jump jeq konst, refl), ((ret_k, refl), ((ret_k, refl), tt))));
}

ip_filter-IsForward : IsForward ip_filter
unfolding decode
ip_filter-IsForward = omega arith

bpf_filter-Ends_example : Ends (bpf_filter 4 (some ip_filter) ip_packet 60 15 scratch)
bpf_filter-Ends_example =
    bpf_filter-Ends ip_filter ip_filter-valid ip_filter-IsProgram ip_filter-IsForward ip_packet 60
      15 scratch refl

run-IsSafe_example : IsSafe 4 (run ip_packet 60 15 ip_filter 2 (start scratch))
run-IsSafe_example =
    run-IsSafe ip_filter ip_filter-valid ip_filter-IsProgram ip_packet 60 15 2 (start scratch)
      (omega arith)

run-GivesWords_example : GivesWords (run ip_packet 60 15 ip_filter 2 (start scratch))
run-GivesWords_example =
    run-GivesWords ip_packet (omega arith) 60 15 (omega arith) ip_filter (omega arith) 2
      (start scratch) (omega arith)

load-IsLoad_example : IsLoad word ip_packet 15 8 (load word ip_packet 15 8)
load-IsLoad_example = load-IsLoad ip_packet 15 8 (omega arith) (omega arith) word (omega arith)

load_wraps_example : load word ip_packet 15 0xffff_fffc ≡ outside
load_wraps_example = load_wraps ip_packet 15 0xffff_fffc (omega arith) (omega arith) (omega arith)

bpf_validate-aborted_example :
    (bpf_validate (insn 0x0e 0 0 0 ∷ []) ≡ true)
    × (bpf_filter (0 + 1) (some (insn 0x0e 0 0 0 ∷ [])) ip_packet 60 15 scratch ≡ aborted)
unfolding decode
bpf_validate-aborted_example =
    bpf_validate-aborted (insn 0x0e 0 0 0) ip_packet 60 15 0 scratch refl refl

install_bpf_program-RunsSafely_example :
    RunsSafely (install_bpf_program (λ n. true) ip_filter pcap_freecode).1
unfolding bpf_filter
install_bpf_program-RunsSafely_example =
    install_bpf_program-RunsSafely (λ n. true) ip_filter pcap_freecode ip_filter-IsProgram
      (λ fuel p wirelen buflen mem words. tt)
