-- ===== src/Gencode/Walk.antt =====
-- gencode.c: the blocks of a part of a filter while it is built, with two lists of exits that lead
-- nowhere yet, and the walk that a packet takes through them.
use gap16g_libpcap.Base.{ℕ, ◌+◌, ◌≤◌, ◌<◌, ◌≡◌, Bool, true, false, not, some, List, length, ◌==◌}
use gap16g_libpcap.Gencode.{Branch, test, ret, Heap, field}
use gap16g_libpcap.Gencode.Chains.{mem, Distinct, Chain}
use gap16g_libpcap.Gencode.Joined.{exit_of}

abbrev pub is_test : Branch → Bool
is_test (test n) = true
is_test (ret v) = false

-- The part whose last block is `root` has the blocks from `lo` up to `hi`. Its true exits and its
-- false exits are those of `root` and of two lists of other blocks.
pub record Open (h : Heap) (lo hi root : ℕ) : Type 0 where
  pub tests : (i : ℕ) → lo ≤ i → i < hi → is_test (h i).code ≡ true
  pub lists : Bool → List ℕ
  pub root_in : (lo ≤ root) × (root < hi)
  pub inside : (v : Bool) (i : ℕ) → mem i (lists v) ≡ true → (lo ≤ i) × (i < hi)
  pub not_root : (v : Bool) → mem root (lists v) ≡ false
  pub one_list : (v : Bool) (i : ℕ) → mem i (lists v) ≡ true → mem i (lists (not v)) ≡ false
  pub distinct : (v : Bool) → Distinct (lists v)
  pub short : (v : Bool) → lo + length (lists v) < hi
  pub chain : (v : Bool) → Chain h (field (h root) (exit_of (h root).sense v)) (lists v)

-- From block `i` on, where `holds` says which tests hold, the walk leaves by an exit for `v`. It
-- enters `k` more blocks at most.
pub data Leads (h : Heap) (lo hi root : ℕ) (lists : Bool → List ℕ) (holds : Branch → Bool)
    : ℕ → Bool → ℕ → Type 0 where
  at_root :
      (i : ℕ) (v : Bool) (k : ℕ)
      → (i == root) ≡ true
      → holds (h i).code ≡ exit_of (h i).sense v
      → Leads h lo hi root lists holds i v k
  in_list :
      (i : ℕ) (v : Bool) (k : ℕ)
      → mem i (lists v) ≡ true
      → holds (h i).code ≡ not (h i).sense
      → Leads h lo hi root lists holds i v k
  onward :
      (i j : ℕ) (v : Bool) (k m : ℕ)
      → (lo ≤ i) × (i < hi)
      → (i == root) ≡ false
      → ((w : Bool) → mem i (lists w) ≡ true → holds (h i).code ≡ (h i).sense)
      → field (h i) (holds (h i).code) ≡ some j
      → m < k
      → Leads h lo hi root lists holds j v m
      → Leads h lo hi root lists holds i v k

-- The part decides `meaning`: from its first block, the walk leaves by the exit for that, and the
-- blocks of the part bound it.
abbrev pub Decides :
    (h : Heap) (lo hi root : ℕ) → Open h lo hi root → ((Branch → Bool) → Bool) → Type 0
Decides h lo hi root o meaning =
    (holds : Branch → Bool)
    → (k : ℕ) × (lo + k < hi) × Leads h lo hi root o.lists holds (h root).head (meaning holds) k
