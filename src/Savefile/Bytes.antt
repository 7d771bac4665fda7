-- ===== src/Savefile/Bytes.antt =====
-- The words of a savefile: how a little-endian host stores them, SWAPLONG and SWAPSHORT, `fread`.
use gap16g_libpcap.Base.{
  ℕ, ◌+◌, ◌*◌, ◌/◌, ◌%◌, ◌^◌, ◌<◌, ◌≡◌, refl, arith, Bool, List, [], ◌∷◌, ◌++◌, get_or, take, drop,
  length, if◌then◌else◌,
}

-- A `u_int` and a `u_short` in memory.
abbrev pub long_bytes : ℕ → List ℕ
long_bytes v = v % 256 ∷ v / 256 % 256 ∷ v / 65536 % 256 ∷ v / 16777216 % 256 ∷ []

abbrev pub short_bytes : ℕ → List ℕ
short_bytes v = v % 256 ∷ v / 256 % 256 ∷ []

-- The field at an offset of a structure read from a file.
abbrev pub long_at : List ℕ → ℕ → ℕ
long_at b i =
    get_or b i 0
    + get_or b (i + 1) 0 * 256
    + get_or b (i + 2) 0 * 65536
    + get_or b (i + 3) 0 * 16777216

abbrev pub short_at : List ℕ → ℕ → ℕ
short_at b i = get_or b i 0 + get_or b (i + 1) 0 * 256

abbrev pub swap_long : ℕ → ℕ
swap_long v =
    v % 256 * 16777216 + v / 256 % 256 * 65536 + v / 65536 % 256 * 256 + v / 16777216 % 256

abbrev pub swap_short : ℕ → ℕ
swap_short v = v % 256 * 256 + v / 256 % 256

abbrev pub host_long : Bool → ℕ → ℕ
host_long swapped v = if swapped then swap_long v else v

abbrev pub host_short : Bool → ℕ → ℕ
host_short swapped v = if swapped then swap_short v else v

-- What the C library answers: `ferror` after a short read, and the allocations.
pub record Env : Type 0 where
  pub ferror : Bool
  pub calloc : Bool
  pub malloc : ℕ → Bool

-- The failures that are reported, and those of the library.
pub data Failure : Type 0 where
  read_error archaic out_of_memory bogus_header : Failure
  truncated : ℕ → ℕ → Failure
  unknown_precision : ℕ → Failure

abbrev pub short_read : Env → ℕ → ℕ → Failure
short_read env wanted got = if env.ferror then read_error else truncated wanted got

pub long_bytes-value :
    (v : ℕ)
    → v < 2 ^ 32
    → v % 256 + v / 256 % 256 * 256 + v / 65536 % 256 * 65536 + v / 16777216 % 256 * 16777216 ≡ v
long_bytes-value v h = omega arith

pub swap_long-swap_long : (v : ℕ) → v < 2 ^ 32 → swap_long (swap_long v) ≡ v
swap_long-swap_long v h = omega arith

module _ {ℓ} {A : Type ℓ} where
  pub take-append : (xs ys : List A) → take (length xs) (xs ++ ys) ≡ xs
  take-append [] ys = refl
  take-append (x ∷ xs) ys = rw (take-append xs ys)

  pub drop-append : (xs ys : List A) → drop (length xs) (xs ++ ys) ≡ ys
  drop-append [] ys = refl
  drop-append (x ∷ xs) ys = drop-append xs ys
