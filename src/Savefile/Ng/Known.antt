-- ===== src/Savefile/Ng/Known.antt =====
-- sf-pcap-ng.c: the well-formed `pcap_t` of a pcap-ng savefile.
use gap16g_libpcap.Base.{
  ℕ, zero, suc, ◌+◌, ◌≤◌, ◌<◌, ◌^◌, ◌≡◌, refl, arith, List, [], ◌∷◌, length, set, get_elem?, Option,
  none, some, inl, inr, ◌⊎◌,
}
use gap16g_libpcap.Savefile.Ng.Block.{Interface, Capture}
use gap16g_libpcap.Savefile.Ng.Interface.{resize, scale_to}
use gap16g_libpcap.Savefile.Ng.Open.{user_tsresol_of}

-- An interface that is set, with a resolution to divide by and the scale for it.
pub record IsReady (user_tsresol : ℕ) (f : Interface) : Type 0 where
  pub positive : 0 < f.tsresol
  pub narrow : f.tsresol < 2 ^ 32
  pub scaled : f.scale_type ≡ scale_to user_tsresol f.tsresol

abbrev pub IsKnown : ℕ → Option (Option Interface) → Type 0
IsKnown user none = ⊥
IsKnown user (some none) = ⊥
IsKnown user (some (some f)) = IsReady user f

abbrev pub AllKnown : ℕ → ℕ → List (Option Interface) → Type 0
AllKnown user n xs = (i : ℕ) → i < n → IsKnown user (get_elem? xs i)

-- The buffer has `bufsize` bytes at least, `ifaces` has `ifaces_size` entries, and the first
-- `ifcount` of them are set. `budget` bounds the interfaces that the rest of the file can add.
pub record IsValid (budget : ℕ) (p : Capture) : Type 0 where
  pub buffered : p.bufsize ≤ p.buffer_size
  pub listed : length p.ifaces ≡ p.ifaces_size
  pub counted : p.ifcount ≤ p.ifaces_size
  pub bounded : p.ifcount + length p.file ≤ budget
  pub precise : user_tsresol_of p.tstamp_precision ≡ some p.user_tsresol
  pub known : AllKnown p.user_tsresol p.ifcount p.ifaces

pub length-resize : (n : ℕ) (xs : List (Option Interface)) → length (resize n xs) ≡ n
unfolding resize
length-resize zero xs = refl
length-resize (suc n) [] = omega (arith, length-resize n [])
length-resize (suc n) (x ∷ xs) = omega (arith, length-resize n xs)

pub get_elem?-resize :
    (n : ℕ) (xs : List (Option Interface)) (i : ℕ)
    → i < n
    → i < length xs
    → get_elem? (resize n xs) i ≡ get_elem? xs i
unfolding resize
get_elem?-resize zero xs i within inside = absurd (omega arith)
get_elem?-resize (suc n) [] i within inside = absurd (omega arith)
get_elem?-resize (suc n) (x ∷ xs) zero within inside = refl
get_elem?-resize (suc n) (x ∷ xs) (suc i) within inside =
    get_elem?-resize n xs i (omega arith) (omega arith)

module _ {A : Type 0} where
  pub get_elem?-set_self :
      (xs : List A) (i : ℕ) (v : A) → i < length xs → get_elem? (set xs i v) i ≡ some v
  get_elem?-set_self [] i v within = absurd (omega arith)
  get_elem?-set_self (x ∷ xs) zero v within = refl
  get_elem?-set_self (x ∷ xs) (suc i) v within = get_elem?-set_self xs i v (omega arith)

  pub get_elem?-set_below :
      (xs : List A) (i j : ℕ) (v : A) → j < i → get_elem? (set xs i v) j ≡ get_elem? xs j
  get_elem?-set_below [] i j v below = refl
  get_elem?-set_below (x ∷ xs) zero j v below = absurd (omega arith)
  get_elem?-set_below (x ∷ xs) (suc i) zero v below = refl
  get_elem?-set_below (x ∷ xs) (suc i) (suc j) v below = get_elem?-set_below xs i j v (omega arith)

pub AllKnown-resize :
    (user n m : ℕ) (xs : List (Option Interface))
    → n ≤ length xs
    → n ≤ m
    → AllKnown user n xs
    → AllKnown user n (resize m xs)
AllKnown-resize user n m xs inside within known i h =
    rw (get_elem?-resize m xs i (omega arith) (omega arith)) (known i h)

below_or_last : (i n : ℕ) → i < n + 1 → (i < n) ⊎ (i ≡ n)
below_or_last i n h = ground arith

-- An interface behind those that are known.
pub AllKnown-set :
    (user n : ℕ) (xs : List (Option Interface)) (f : Interface)
    → n < length xs
    → AllKnown user n xs
    → IsReady user f
    → AllKnown user (n + 1) (set xs n (some f))
AllKnown-set user n xs f inside known ready i h = elim (below_or_last i n (omega arith)) [
  | inl below ↦ rw (get_elem?-set_below xs n i (some f) below) (known i below)
  | inr last ↦ rw (last, get_elem?-set_self xs n (some f) inside) ready
]
