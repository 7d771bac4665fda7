-- ===== src/Names/Digits.antt =====
-- nametoaddr.c: numbers that are put together by shifts.
use gap16g_libpcap.Base.{ℕ, zero, suc, ◌+◌, ◌*◌, ◌/◌, ◌%◌, ◌^◌, ◌<◌, ◌≡◌, ap, ◌∙◌, arith, bit_or}
use gap16g_libpcap.Base.Bits.{bit_or_halves, bit_or-zero}
use gap16g_libpcap.Savefile.Masks.{times-pow-suc}

low_step : (x y : ℕ) → bit_or (x * 2) y ≡ y % 2 + bit_or x (y / 2) * 2
low_step x y =
    let even : (x * 2) % 2 ≡ 0 = omega arith in
    let half : (x * 2) / 2 ≡ x = omega arith in
    bit_or_halves (x * 2) y ∙ rw (even, half) (omega arith)

-- A number above, and one of `k` bits.
pub bit_or-low : (k x y : ℕ) → y < 2 ^ k → bit_or (x * 2 ^ k) y ≡ x * 2 ^ k + y
bit_or-low zero x y u =
    let none_there : y ≡ 0 = omega arith in rw none_there (bit_or-zero (x * 1) ∙ omega arith)
bit_or-low (suc k) x y u =
    let double = times-pow-suc x k in
    let pow = times-pow-suc 1 k in
    let rest = bit_or-low k x (y / 2) (omega arith) in
    rw double (low_step (x * 2 ^ k) y ∙ ap (λ b. y % 2 + b * 2) rest ∙ omega arith)
