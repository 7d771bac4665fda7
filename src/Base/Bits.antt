-- ===== src/Base/Bits.antt =====
-- The bounds of the bit operations on words, at every width.
use Prim.Native.Nat.{digits, bit_and-bitwise, bit_or-bitwise}
use Prim.Native.Nat.{ℕ, zero, suc, ◌+◌, ◌*◌, ◌/◌, ◌%◌, ◌^◌, ◌≤◌, ◌<◌, bit_and, bit_or, min, max}
use mathlib.Core.Path.{◌≡◌, refl, ap, ◌∙◌}
use native.Mathlib.Nat.{le_refl, pow-suc}
use native.Mathlib.Decide.{dec_lt}
use native.Mathlib.Omega.{arith}

-- The library's bit operations take as many digits as their first operand counts; more change
-- nothing.
module _ (rest : ℕ → ℕ) (digit : ℕ → ℕ → ℕ) where
  one_more : (n x y : ℕ) → x ≤ n → digits rest digit (suc n) x y ≡ digits rest digit n x y
  one_more zero zero y h = refl
  one_more (suc n) zero y h = refl
  one_more zero (suc x) y h = absurd (omega arith)
  one_more (suc n) (suc x) y h =
      ap (λ high. high * 2 + digit (suc x % 2) (y % 2))
        (one_more n (suc x / 2) (y / 2) (omega arith))

  many_more :
      (least n x y : ℕ)
      → x ≤ least
      → least ≤ n
      → digits rest digit n x y ≡ digits rest digit least x y
  many_more least zero x y h le =
      let none : 0 ≡ least = omega arith in ap (λ i. digits rest digit i x y) none
  many_more least (suc n) x y h le = elim (dec_lt n least) [
    | yes last ↦ let same : suc n ≡ least = omega arith in ap (λ i. digits rest digit i x y) same
    | no below ↦ one_more n x y (omega arith) ∙ many_more least n x y h (omega arith)
  ]

  lowest_digit :
      (x y : ℕ)
      → digits rest digit (suc x) (suc x) y
        ≡ digits rest digit (suc x / 2) (suc x / 2) (y / 2) * 2 + digit (suc x % 2) (y % 2)
  lowest_digit x y =
      ap (λ high. high * 2 + digit (suc x % 2) (y % 2))
        (many_more (suc x / 2) x (suc x / 2) (y / 2) (le_refl (suc x / 2)) (omega arith))

-- The lowest digit apart from the others.
pub bit_or_halves : (x y : ℕ) → bit_or x y ≡ max (x % 2) (y % 2) + 2 * bit_or (x / 2) (y / 2)
bit_or_halves zero y = rw (bit_or-bitwise 0 y, bit_or-bitwise 0 (y / 2)) (omega arith)
bit_or_halves (suc x) y =
    let low = lowest_digit (λ i. i) max x y in simp bit_or-bitwise (omega (arith, low))

pub bit_and_halves : (x y : ℕ) → bit_and x y ≡ min (x % 2) (y % 2) + 2 * bit_and (x / 2) (y / 2)
bit_and_halves zero y = rw (bit_and-bitwise 0 y, bit_and-bitwise 0 (y / 2)) (omega arith)
bit_and_halves (suc x) y =
    let low = lowest_digit (λ i. 0) min x y in simp bit_and-bitwise (omega (arith, low))

-- `|` of two words of `k` bits is a word of `k` bits.
pub bit_or-lt : (k a b : ℕ) → a < 2 ^ k → b < 2 ^ k → bit_or a b < 2 ^ k
bit_or-lt zero zero zero p q = omega arith
bit_or-lt zero zero (suc b) p q = absurd (omega arith)
bit_or-lt zero (suc a) b p q = absurd (omega arith)
bit_or-lt (suc k) a b p q = omega (
  arith,
  bit_or_halves a b,
  pow-suc 2 k,
  bit_or-lt k (a / 2) (b / 2) (omega (arith, pow-suc 2 k)) (omega (arith, pow-suc 2 k)),
)

-- `&` never exceeds its first operand.
pub bit_and-lt : (k a b : ℕ) → a < 2 ^ k → bit_and a b < 2 ^ k
bit_and-lt zero zero b p = omega (arith, bit_and_halves 0 b, bit_and-bitwise 0 b)
bit_and-lt zero (suc a) b p = absurd (omega arith)
bit_and-lt (suc k) a b p = omega (
  arith,
  bit_and_halves a b,
  pow-suc 2 k,
  bit_and-lt k (a / 2) (b / 2) (omega (arith, pow-suc 2 k)),
)

bit_or-zero_below : (n a : ℕ) → a ≤ n → bit_or a 0 ≡ a
bit_or-zero_below n zero h = refl
bit_or-zero_below zero (suc a) h = absurd (omega arith)
bit_or-zero_below (suc n) (suc a) h =
    omega (arith, bit_or_halves (suc a) 0, bit_or-zero_below n (suc a / 2) (omega arith))

pub bit_or-zero : (a : ℕ) → bit_or a 0 ≡ a
bit_or-zero a = bit_or-zero_below a a (le_refl a)

bit_and-zero_below : (n a : ℕ) → a ≤ n → bit_and a 0 ≡ 0
bit_and-zero_below n zero h = refl
bit_and-zero_below zero (suc a) h = absurd (omega arith)
bit_and-zero_below (suc n) (suc a) h =
    omega (arith, bit_and_halves (suc a) 0, bit_and-zero_below n (suc a / 2) (omega arith))

pub bit_and-zero : (a : ℕ) → bit_and a 0 ≡ 0
bit_and-zero a = bit_and-zero_below a a (le_refl a)

pub zero-bit_or : (b : ℕ) → bit_or 0 b ≡ b
zero-bit_or b = bit_or-bitwise 0 b

pub zero-bit_and : (b : ℕ) → bit_and 0 b ≡ 0
zero-bit_and b = bit_and-bitwise 0 b
