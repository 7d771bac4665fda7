-- ===== src/Optimize/Start.antt =====
-- optimize.c: the value numbers with which a block without predecessors begins.
use gap16g_libpcap.Base.{ℕ, zero, suc, ◌<◌, ◌≡◌, arith, false, List, [], ◌∷◌, get_or, length, All}
use gap16g_libpcap.Bpf.Filter.{Machine}
use gap16g_libpcap.Optimize.Stmt.{Stmt}
use gap16g_libpcap.Optimize.Correct.State.{Describes}
use gap16g_libpcap.Optimize.Values.{init_val}

get_or-zeros :
    (u : ℕ) (xs : List ℕ) (i : ℕ) → All (λ v. v ≡ u) xs → i < length xs → get_or xs i 0 ≡ u
get_or-zeros u [] i h le = absurd (omega arith)
get_or-zeros u (x ∷ xs) zero h le = h.0
get_or-zeros u (x ∷ xs) (suc i) h le = get_or-zeros u xs i h.1 (omega arith)

module _ (p : List ℕ) (wirelen buflen : ℕ) where
  -- After `init_val`, with each of the 18 numbers 0, a machine is described whose two registers and
  -- 16 scratch words all hold the same value.
  pub init_val-Describes :
      (s : Stmt) (vals : List ℕ) (m : Machine) (u : ℕ)
      → All (λ v. v ≡ 0) vals
      → length vals ≡ 18
      → m.a ≡ u
      → m.x ≡ u
      → All (λ v. v ≡ u) m.mem
      → length m.mem ≡ 16
      → Describes p wirelen buflen
          (λ v. u)
          (record { stmt = s; vals = vals; table = init_val; again = false })
          m
  init_val-Describes s vals m u zeros atoms a x same words = record {
    sound = record {
      consts = λ v c e. unfold init_val in cc e;
      nodes = λ h. unfold init_val in tt;
    };
    regs = λ atom h. ground (arith, get_or-zeros u m.mem atom same);
    fits = λ atom h. omega (arith, get_or-zeros 0 vals atom zeros);
    atoms = atoms;
    words = words;
  }
