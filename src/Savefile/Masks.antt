-- ===== src/Savefile/Masks.antt =====
-- sf-pcap.c: LT_LINKTYPE and LT_LINKTYPE_EXT as masks of bits below and above 2 ^ 26.
use gap16g_libpcap.Base.{
  ℕ, zero, suc, ◌+◌, ◌-◌, ◌*◌, ◌/◌, ◌%◌, ◌^◌, ◌<◌, ◌≡◌, ap, ◌∙◌, arith, bit_and, bit_or,
}
use gap16g_libpcap.Base.Bits.{bit_and_halves, bit_or_halves, bit_and-zero, zero-bit_or}
use native.Mathlib.Nat.{pow-suc, one-le-pow}

bit_or-double : (a q : ℕ) → bit_or a (q * 2) ≡ bit_or (a / 2) q * 2 + a % 2
bit_or-double a q =
    let half : q * 2 / 2 ≡ q = omega arith in
    let even : q * 2 % 2 ≡ 0 = omega arith in
    bit_or_halves a (q * 2) ∙ rw (half, even) (omega arith)

bit_and-double : (a q : ℕ) → bit_and a (q * 2) ≡ bit_and (a / 2) q * 2
bit_and-double a q =
    let half : q * 2 / 2 ≡ q = omega arith in
    let even : q * 2 % 2 ≡ 0 = omega arith in
    bit_and_halves a (q * 2) ∙ rw (half, even) (omega arith)

bit_and-odd : (a q : ℕ) → bit_and a (q * 2 + 1) ≡ bit_and (a / 2) q * 2 + a % 2
bit_and-odd a q =
    let half : (q * 2 + 1) / 2 ≡ q = omega arith in
    let odd : (q * 2 + 1) % 2 ≡ 1 = omega arith in
    bit_and_halves a (q * 2 + 1) ∙ rw (half, odd) (omega arith)

pub times-pow-suc : (m k : ℕ) → m * 2 ^ suc k ≡ m * 2 ^ k * 2
times-pow-suc m k = rw (pow-suc 2 k) (omega arith)

mask-suc : (k : ℕ) → 2 ^ suc k - 1 ≡ (2 ^ k - 1) * 2 + 1
mask-suc k = omega (arith, pow-suc 2 k, one-le-pow k 2 (omega arith))

-- Bits at `k` and above do not meet the ones below.
pub bit_or-disjoint : (k a m : ℕ) → a < 2 ^ k → bit_or a (m * 2 ^ k) ≡ a + m * 2 ^ k
bit_or-disjoint zero a m h =
    let none : a ≡ 0 = omega arith in rw none (omega (arith, zero-bit_or (m * 1)))
bit_or-disjoint (suc k) a m h = rw (times-pow-suc m k) (
    bit_or-double a (m * 2 ^ k)
    ∙ omega (arith, bit_or-disjoint k (a / 2) m (omega (arith, pow-suc 2 k))))

pub bit_and-high :
    (k a m n : ℕ) → a < 2 ^ k → bit_and (a + m * 2 ^ k) (n * 2 ^ k) ≡ bit_and m n * 2 ^ k
bit_and-high zero a m n h =
    let low : a + m * 1 ≡ m = omega arith in
    let one : n * 1 ≡ n = omega arith in rw (low, one) (omega arith)
bit_and-high (suc k) a m n h =
    let half : (a + m * 2 ^ k * 2) / 2 ≡ a / 2 + m * 2 ^ k = omega arith in
    rw (times-pow-suc m k, times-pow-suc n k, times-pow-suc (bit_and m n) k)
      (bit_and-double (a + m * 2 ^ k * 2) (n * 2 ^ k)
        ∙ rw half (omega (arith, bit_and-high k (a / 2) m n (omega (arith, pow-suc 2 k)))))

-- A mask of the lowest `k` bits keeps these.
pub bit_and-low : (k a m : ℕ) → a < 2 ^ k → bit_and (a + m * 2 ^ k) (2 ^ k - 1) ≡ a
bit_and-low zero a m h = omega (arith, bit_and-zero (a + m * 1))
bit_and-low (suc k) a m h =
    let half : (a + m * 2 ^ k * 2) / 2 ≡ a / 2 + m * 2 ^ k = omega arith in
    rw (times-pow-suc m k) (
      ap (bit_and (a + m * 2 ^ k * 2)) (mask-suc k)
      ∙ bit_and-odd (a + m * 2 ^ k * 2) (2 ^ k - 1)
      ∙ rw half (omega (arith, bit_and-low k (a / 2) m (omega (arith, pow-suc 2 k)))))
