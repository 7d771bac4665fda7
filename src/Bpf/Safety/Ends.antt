-- ===== src/Bpf/Safety/Ends.antt =====
-- bpf/net/bpf_filter.c: the end of runs of accepted programs without backward jumps.
use gap16g_libpcap.Base.{ℕ, zero, suc, ◌+◌, ◌≤◌, ◌≡◌, arith, true, some, List, length}
use gap16g_libpcap.Bpf.Insn.{Insn}
use gap16g_libpcap.Bpf.Filter.{
  bad_packet, bad_shift, Machine, Outcome, running, returned, aborted, faulted, step, run, after,
  start, bpf_filter,
}
use gap16g_libpcap.Bpf.Validate.{bpf_validate}
use gap16g_libpcap.Bpf.Safety.Steps.{IsAt, IsSafe}
use gap16g_libpcap.Bpf.Safety.Program.{IsProgram, step-IsSafe}
use gap16g_libpcap.Bpf.Safety.Forward.{Advances, IsForward, step-Advances}

-- The machine has stopped: with a value, or by one of the two faults that no validator rules out.
abbrev pub Ends : Outcome → Type 0
Ends (returned v) = Unit
Ends (faulted bad_packet) = Unit
Ends (faulted bad_shift) = Unit
Ends _ = ⊥

module _ (prog : List Insn) (valid : bpf_validate prog ≡ true) (fine : IsProgram prog)
    (forward : IsForward prog) (p : List ℕ) (wirelen buflen : ℕ) where
  run-Ends :
      (fuel : ℕ) (m : Machine)
      → IsAt (length prog) m
      → length prog ≤ fuel + m.pc
      → Ends (run p wirelen buflen prog fuel m)
  unfolding run
  run-Ends zero m at enough = absurd (omega (arith, at.0))
  run-Ends (suc fuel) m at enough =
      goes (step p wirelen buflen prog m) (step-IsSafe prog valid fine p wirelen buflen m at)
        (step-Advances prog forward p wirelen buflen m) (run-Ends fuel)
    where
      goes :
          (o : Outcome)
          → IsSafe (length prog) o
          → Advances m.pc o
          → ((m' : Machine)
              → IsAt (length prog) m'
              → length prog ≤ fuel + m'.pc
              → Ends (run p wirelen buflen prog fuel m'))
          → Ends (after p wirelen buflen prog fuel o)
      goes (running m') h a ih = ih m' h (omega arith)
      goes (returned v) h a ih = tt
      goes aborted h a ih = h
      goes (faulted bad_packet) h a ih = tt
      goes (faulted bad_shift) h a ih = tt
      goes (faulted _) h a ih = h

  -- A program that `bpf_validate` accepts, whose labels the machine knows and whose `ja`
  -- do not go back, ends within as many steps as it has instructions, whatever the packet and the
  -- 16 scratch words hold: it returns, or it reads outside the packet, or it shifts by 32 bits or more.
  pub bpf_filter-Ends :
      (mem : List ℕ)
      → length mem ≡ 16
      → Ends (bpf_filter (length prog) (some prog) p wirelen buflen mem)
  unfolding bpf_filter bpf_validate
  bpf_filter-Ends mem words = run-Ends (length prog) (start mem) (ground arith, words) (omega arith)
