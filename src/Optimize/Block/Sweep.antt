-- ===== src/Optimize/Block/Sweep.antt =====
-- optimize.c: `opt_stmt` over the statements of a block, beside the run of the block.
use gap16g_libpcap.Base.{
  ℕ, zero, suc, ◌<◌, ◌≤◌, ◌≡◌, ◌≢◌, refl, sym, ap, ◌∙◌, arith, Bool, some, List, ◌==◌, ==_iff,
  if◌then◌else◌, inl, inr, All,
}
use mathlib.Core.Path.{subst}
use gap16g_libpcap.Bpf.Insn.{Op, decode, index}
use gap16g_libpcap.Bpf.Insn.{div}
use gap16g_libpcap.Bpf.Insn.{ret_k, ret_a, ldx_len, ld_mem, ldx_mem, st, stx, ja, jump, alu}
use gap16g_libpcap.Bpf.Filter.{
  Machine, Outcome, running, returned, aborted, faulted, execute, arith_a,
}
use gap16g_libpcap.Bpf.Safety.Words.{IsWord, HasWords, GivesWords, execute-GivesWords}
use gap16g_libpcap.Optimize.Stmt.{
  Stmt, nop, Work, Result, optimized, failed, undefined, opt_stmt, opt_case,
}
use gap16g_libpcap.Optimize.Correct.State.{
  strip, insn_of, perform, perform-op, perform-nop, decode-nop, Describes, Describes-rewrite,
}
use gap16g_libpcap.Optimize.Correct.Arith.{ResultCorrect}
use gap16g_libpcap.Optimize.Correct.Statement.{IsHandled, opt_stmt-Correct}
use gap16g_libpcap.Optimize.Block.{Numbered, swept, work_at, opt_stmts}
use gap16g_libpcap.Optimize.Block.Effect.{IsInner}
use gap16g_libpcap.Optimize.Block.Runs.{
  IsStmt, run_stmts, run_stmts-suc, run_stmts-go_on, run_stmts-ext,
}

-- The statements that `opt_stmt` has a case for.
abbrev pub IsSwept : Stmt → Type 0
IsSwept s = IsStmt s × (decode s.code ≢ some ldx_len) × IsWord s.k

module _ (p : List ℕ) (wirelen buflen : ℕ) where
  strip-GivesWords : (o : Outcome) → GivesWords o → GivesWords (strip o)
  strip-GivesWords (running m) h = record {
    a_fits = h.a_fits;
    x_fits = h.x_fits;
    mem_fits = h.mem_fits;
  }
  strip-GivesWords (returned v) h = h
  strip-GivesWords aborted h = tt
  strip-GivesWords (faulted f) h = tt

  nop-runs :
      (s : Stmt) (m : Machine)
      → s.code ≡ nop
      → perform p wirelen buflen s m ≡ running (record m { pc = 0 })
  nop-runs s m e =
      ap (λ c. perform p wirelen buflen (record { code = c; k = s.k }) m) e
      ∙ perform-nop p wirelen buflen s.k m

  perform-HasWords :
      (s : Stmt) (m m' : Machine)
      → All (λ b. b < 256) p
      → IsWord wirelen
      → IsWord s.k
      → IsStmt s
      → HasWords m
      → perform p wirelen buflen s m ≡ running m'
      → HasWords m'
  perform-HasWords s m m' bytes wire word (inl e) h runs =
      let same : record m { pc = 0 } ≡ m' = cc (nop-runs s m e) in
      subst HasWords same (record { a_fits = h.a_fits; x_fits = h.x_fits; mem_fits = h.mem_fits })
  perform-HasWords s m m' bytes wire word (inr (op, e, inner)) h runs =
      subst GivesWords (sym (perform-op p wirelen buflen s m op e) ∙ runs) (
        strip-GivesWords (execute p wirelen buflen op (insn_of s) m)
          (execute-GivesWords p bytes wirelen buflen wire op (insn_of s) m word h))

  div_stops :
      (s : Stmt) (m : Machine)
      → m.x ≡ 0
      → strip (execute p wirelen buflen (alu div index) (insn_of s) m) ≡ returned 0
  unfolding execute arith_a
  div_stops s m e = ground arith

  -- A statement that goes on does not divide by an X of 0.
  goes_on-IsHandled :
      (s : Stmt) (op : Op) (m m' : Machine)
      → decode s.code ≡ some op
      → IsInner op s.k
      → op ≢ ldx_len
      → perform p wirelen buflen s m ≡ running m'
      → IsHandled op s m
  goes_on-IsHandled s ret_k m m' e inner other runs = inner
  goes_on-IsHandled s ret_a m m' e inner other runs = inner
  goes_on-IsHandled s ja m m' e inner other runs = inner
  goes_on-IsHandled s (jump c z) m m' e inner other runs = inner
  goes_on-IsHandled s ldx_len m m' e inner other runs = other refl
  goes_on-IsHandled s ld_mem m m' e inner other runs = inner
  goes_on-IsHandled s ldx_mem m m' e inner other runs = inner
  goes_on-IsHandled s st m m' e inner other runs = inner
  goes_on-IsHandled s stx m m' e inner other runs = inner
  goes_on-IsHandled s (alu o index) m m' e inner other runs = λ is_div x_zero. cc (
    div_stops s m x_zero,
    subst (λ d. strip (execute p wirelen buflen (alu d index) (insn_of s) m) ≡ running m') is_div
        (sym (perform-op p wirelen buflen s m (alu o index) e) ∙ runs),
  )
  goes_on-IsHandled s _ m m' e inner other runs = tt

  -- One statement that goes on.
  opt_stmt-running :
      (ρ : ℕ → ℕ) (w : Work) (m m' : Machine) (alter : Bool)
      → Describes p wirelen buflen ρ w m
      → IsSwept w.stmt
      → HasWords m
      → perform p wirelen buflen w.stmt m ≡ running m'
      → (r : Work) × (opt_stmt alter w ≡ optimized r)
        × (perform p wirelen buflen r.stmt m ≡ running m')
        × ((ρ' : ℕ → ℕ) × Describes p wirelen buflen ρ' r m')
  unfolding opt_stmt opt_case
  opt_stmt-running ρ w m m' alter d ((inl e), other, word) h runs =
      let same : record m { pc = 0 } ≡ m' = cc (nop-runs w.stmt m e) in
      (
        w,
        rw (e, decode-nop) refl,
        runs,
        (
          ρ,
          subst (Describes p wirelen buflen ρ w) same (record {
            sound = d.sound;
            regs = d.regs;
            fits = d.fits;
            atoms = d.atoms;
            words = d.words;
          }),
        ),
      )
  opt_stmt-running ρ w m m' alter d (inr (op, e, inner), other, word) h runs =
      let handled = goes_on-IsHandled w.stmt op m m' e inner (λ is. other (e ∙ ap some is)) runs in
      let correct =
        opt_stmt-Correct p wirelen buflen ρ w m d alter h.a_fits h.x_fits op e handled in
      at (opt_stmt alter w) (rw runs at correct)
    where
      at :
          (r : Result)
          → ResultCorrect p wirelen buflen m (running m') r
          → (r' : Work) × (r ≡ optimized r')
            × (perform p wirelen buflen r'.stmt m ≡ running m')
            × ((ρ' : ℕ → ℕ) × Describes p wirelen buflen ρ' r' m')
      at (optimized r) c = (r, refl, c.0, c.1)
      at failed c = absurd c
      at undefined c = absurd c

  module _ (bytes : All (λ b. b < 256) p) (wire : IsWord wirelen) (alter : Bool) (b : Numbered)
      (m : Machine) where
    -- The first `n` statements were optimized, and still end in `M`.
    pub record SweptTo (n : ℕ) (M : Machine) : Type 0 where
      pub block : Numbered
      pub gives : opt_stmts alter n b ≡ swept block
      pub rest : (i : ℕ) → n ≤ i → block.stmts i ≡ b.stmts i
      pub runs : run_stmts p wirelen buflen block.stmts n m ≡ running M
      pub fits : HasWords M
      pub rho : ℕ → ℕ
      pub describes : Describes p wirelen buflen rho (work_at n block) M

    sweep_next :
        (n : ℕ) (M N : Machine)
        → SweptTo n M
        → IsSwept (b.stmts n)
        → perform p wirelen buflen (b.stmts n) M ≡ running N
        → SweptTo (suc n) N
    unfolding opt_stmts
    sweep_next n M N t inner step =
        let same = t.rest n (omega arith) in
        let (r, gives, runs, (ρ', d')) =
          opt_stmt-running t.rho (work_at n t.block) M N alter t.describes (rw same inner) t.fits
            (rw same step) in
        let stmts : ℕ → Stmt = λ j. if j == n then r.stmt else t.block.stmts j in
        let earlier =
          run_stmts-ext p wirelen buflen stmts t.block.stmts n m (λ i lt. ground arith) in
        let here : stmts n ≡ r.stmt = rw ((==_iff n n).1 refl) refl in
        record {
          block = record { stmts = stmts; vals = r.vals; table = r.table; again = r.again };
          gives = rw (t.gives, gives) refl;
          rest = λ i le. ground (arith, t.rest i);
          runs = run_stmts-go_on p wirelen buflen stmts n m M (earlier ∙ t.runs) ∙ rw here runs;
          fits = perform-HasWords (b.stmts n) M N bytes wire inner.2 inner.0 t.fits step;
          rho = ρ';
          describes = Describes-rewrite p wirelen buflen ρ' r N (stmts (suc n)) r.again d';
        }

    -- Where the numbers describe the machine at the beginning of a block, and the machine runs through
    -- its statements, `opt_stmt` at each of them gives no error, the new statements end in the same
    -- machine, and the new numbers describe it. A and X and the scratch words are 32-bit words, the
    -- packet is made of bytes, and the block has no jump, no return, no BPF_LDX|BPF_LEN and no scratch
    -- word that does not exist.
    pub opt_stmts-SweptTo :
        (ρ : ℕ → ℕ) (n : ℕ) (M : Machine)
        → Describes p wirelen buflen ρ (work_at n b) m
        → HasWords m
        → ((i : ℕ) → i < n → IsSwept (b.stmts i))
        → run_stmts p wirelen buflen b.stmts n m ≡ running M
        → SweptTo n M
    unfolding opt_stmts run_stmts
    opt_stmts-SweptTo ρ zero M d h inner runs =
        let same : m ≡ M = cc in
        record {
          block = b;
          gives = refl;
          rest = λ i le. refl;
          runs = runs;
          fits = subst HasWords same h;
          rho = ρ;
          describes = subst (Describes p wirelen buflen ρ (work_at 0 b)) same d;
        }
    opt_stmts-SweptTo ρ (suc n) N d h inner runs =
        let (M, first, step) = run_stmts-suc p wirelen buflen b.stmts n m N runs in
        sweep_next n M N
          (opt_stmts-SweptTo ρ n M
            (Describes-rewrite p wirelen buflen ρ (work_at (suc n) b) m (b.stmts n) b.again d) h
            (λ i lt. inner i (omega arith)) first)
          (inner n (omega arith)) step
