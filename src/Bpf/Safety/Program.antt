-- ===== src/Bpf/Safety/Program.antt =====
-- bpf/net/bpf_filter.c: runs of programs that `bpf_validate` accepts.
use mathlib.Core.Path.{subst}
use mathlib.Core.Bool.{and-eq-true_iff}
use mathlib.Core.Option.{some-injective}
use native.Mathlib.Nat.{add-zero, zero-add}
use native.Mathlib.Decide.{dec_lt}
use gap16g_libpcap.Base.{
  ℕ, zero, suc, ◌+◌, ◌-◌, ◌^◌, ◌<◌, ◌≡◌, ◌≢◌, arith, true, some, List, [], ◌∷◌, length, get_elem?,
  get_elem?-of_lt, All, All-get_elem?, ==_iff,
}
use gap16g_libpcap.Bpf.Insn.{Insn, bpf_class, Op, decode, decode_sound}
use gap16g_libpcap.Bpf.Filter.{
  Machine, Outcome, running, returned, aborted, faulted, dispatch, fetch, step, after, run,
}
use gap16g_libpcap.Bpf.Validate.{check_insn, check_from, ends_in_ret, bpf_validate}
use gap16g_libpcap.Bpf.Safety.Needs.{check_insn-Needs}
use gap16g_libpcap.Bpf.Safety.Steps.{IsAt, IsSafe, IsEncoded, execute-IsSafe}

-- The label of the instruction is one of the switch.
abbrev pub IsKnown : Insn → Type 0
IsKnown i = (op : Op) × (decode i.code ≡ some op)

-- The program is made of instructions as C stores them, with labels that the switch has.
pub record IsProgram (prog : List Insn) : Type 0 where
  pub short : length prog < 2 ^ 31
  pub encoded : All IsEncoded prog
  pub known : All IsKnown prog

check_from-get_elem? :
    (len at : ℕ) (f : List Insn) (n : ℕ) (i : Insn)
    → check_from len at f ≡ true
    → get_elem? f n ≡ some i
    → check_insn len (at + n) i ≡ true
unfolding check_from
check_from-get_elem? len at [] n i h e = cc
check_from-get_elem? len at (j ∷ f) zero i h e =
    rw (add-zero, ← some-injective _ _ e) ((and-eq-true_iff _ _).0 h).0
check_from-get_elem? len at (j ∷ f) (suc n) i h e =
    subst (λ k. check_insn len k i ≡ true) (omega arith)
      (check_from-get_elem? len (at + 1) f n i ((and-eq-true_iff _ _).0 h).1 e)

module _ (prog : List Insn) (valid : bpf_validate prog ≡ true) where
  checked : check_from (length prog) 0 prog ≡ true
  unfolding bpf_validate
  checked = ground arith

  last_ret : ends_in_ret (get_elem? prog (length prog - 1)) ≡ true
  unfolding bpf_validate
  last_ret = ground arith

  nonempty : 0 < length prog
  unfolding bpf_validate
  nonempty = ground arith

  -- Only an instruction of class BPF_RET can be the last one.
  not_last :
      (at : ℕ) (i : Insn)
      → at < length prog
      → get_elem? prog at ≡ some i
      → bpf_class i.code ≢ 6
      → at + 1 < length prog
  not_last at i below e other = elim (dec_lt (at + 1) (length prog)) [
    | yes h ↦ h
    | no h ↦
        let same : length prog - 1 ≡ at = omega arith in
        absurd (other ((==_iff (bpf_class i.code) 6).0 (rw (same, e) at last_ret)))
  ]

  module _ (fine : IsProgram prog) (p : List ℕ) (wirelen buflen : ℕ) where
    -- One step of a checked program.
    pub step-IsSafe :
        (m : Machine) → IsAt (length prog) m → IsSafe (length prog) (step p wirelen buflen prog m)
    unfolding step fetch dispatch
    step-IsSafe m at =
        let (i, here) = get_elem?-of_lt prog m.pc at.0 in
        let (op, means) = All-get_elem? IsKnown prog m.pc i fine.known here in
        let label = decode_sound i.code means in
        rw (here, means)
          (execute-IsSafe p wirelen buflen (length prog) fine.short m op i
            (All-get_elem? IsEncoded prog m.pc i fine.encoded here) at
            (λ other. not_last m.pc i at.0 here (rw (← label) other))
            (check_insn-Needs (length prog) m.pc i op label
              (rw zero-add at (check_from-get_elem? (length prog) 0 prog m.pc i checked here))))

    -- However long a program runs that `bpf_validate` accepts and whose labels the machine knows,
    -- from a place in its code and with 16 scratch words, it stays in its code and its scratch
    -- words, and never reaches abort() or a division by zero. Jumps may go back.
    pub run-IsSafe :
        (fuel : ℕ) (m : Machine)
        → IsAt (length prog) m
        → IsSafe (length prog) (run p wirelen buflen prog fuel m)
    unfolding run
    run-IsSafe zero m at = at
    run-IsSafe (suc fuel) m at =
        goes (step p wirelen buflen prog m) (step-IsSafe m at) (run-IsSafe fuel)
      where
        goes :
            (o : Outcome)
            → IsSafe (length prog) o
            → ((m' : Machine)
                → IsAt (length prog) m'
                → IsSafe (length prog) (run p wirelen buflen prog fuel m'))
            → IsSafe (length prog) (after p wirelen buflen prog fuel o)
        goes (running m') h ih = ih m' h
        goes (returned v) h ih = tt
        goes aborted h ih = h
        goes (faulted f) h ih = h
