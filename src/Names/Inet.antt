-- ===== src/Names/Inet.antt =====
-- nametoaddr.c: `__pcap_atoin` on numbers with dots between them.
use gap16g_libpcap.Base.{
  ℕ, ◌+◌, ◌-◌, ◌*◌, ◌/◌, ◌%◌, ◌^◌, ◌<◌, ◌≡◌, refl, sym, ap, ◌∙◌, arith, false, List, [], ◌∷◌, ◌++◌,
  All, length, ltb, ltb→lt, ◌==◌, if◌then◌else◌, bit_and, inl, inr, Bool-cases,
}
use gap16g_libpcap.Savefile.Masks.{bit_and-low}
use gap16g_libpcap.Names.Digits.{bit_or-low}
use gap16g_libpcap.Names.{shift_in, atoin_loop, pcap_atoin}

-- The decimal digits of a byte.
abbrev pub decimal : ℕ → List ℕ
decimal b =
    if ltb b 10
    then (48 + b) ∷ []
    else if ltb b 100
    then (48 + b / 10) ∷ (48 + b % 10) ∷ []
    else (48 + b / 100) ∷ (48 + b / 10 % 10) ∷ (48 + b % 10) ∷ []

-- `b`, and then the other numbers, each after a dot.
abbrev pub dotted : ℕ → List ℕ → List ℕ
dotted b [] = decimal b
dotted b (c ∷ bs) = decimal b ++ (46 ∷ dotted c bs)

-- The number that they are in base 256, of which the last 32 bits count.
abbrev pub value_of : ℕ → ℕ → List ℕ → ℕ
value_of addr b [] = (addr * 256 + b) % 2 ^ 32
value_of addr b (c ∷ bs) = value_of ((addr * 256 + b) % 2 ^ 32) c bs

atoin_loop-digit :
    (d n addr len : ℕ) (s : List ℕ)
    → d < 10
    → n < 100
    → atoin_loop ((48 + d) ∷ s) n addr len ≡ atoin_loop s (n * 10 + d) addr len
unfolding atoin_loop
atoin_loop-digit d n addr len s u l =
    let other : ((48 + d) == 46) ≡ false = ground arith in
    let sum : (n * 10 + (48 + d) + (2 ^ 32 - 48)) % 2 ^ 32 ≡ n * 10 + d = omega arith in
    rw (atoin_loop, other) (ap (λ m. atoin_loop s m addr len) sum)

atoin_loop-decimal :
    (b addr len : ℕ) (s : List ℕ)
    → b < 256
    → atoin_loop (decimal b ++ s) 0 addr len ≡ atoin_loop s b addr len
atoin_loop-decimal b addr len s u = elim (Bool-cases (ltb b 10)) [
  | inl small ↦ rw small (
      atoin_loop-digit b 0 addr len s (ltb→lt b 10 small) (omega arith)
      ∙ ap (λ n. atoin_loop s n addr len) (omega arith))
  | inr more ↦ elim (Bool-cases (ltb b 100)) [
    | inl small ↦
        let below = ltb→lt b 100 small in
        rw (more, small)
          (atoin_loop-digit (b / 10) 0 addr len ((48 + b % 10) ∷ s) (omega arith) (omega arith)
            ∙ atoin_loop-digit (b % 10) (0 * 10 + b / 10) addr len s (omega arith) (omega arith)
            ∙ ap (λ n. atoin_loop s n addr len) (omega arith))
    | inr large ↦
        rw (more, large)
          (atoin_loop-digit (b / 100) 0 addr len ((48 + b / 10 % 10) ∷ (48 + b % 10) ∷ s)
              (omega arith) (omega arith)
            ∙ atoin_loop-digit (b / 10 % 10) (0 * 10 + b / 100) addr len ((48 + b % 10) ∷ s)
                (omega arith) (omega arith)
            ∙ atoin_loop-digit (b % 10) ((0 * 10 + b / 100) * 10 + b / 10 % 10) addr len s
                (omega arith) (omega arith)
            ∙ ap (λ n. atoin_loop s n addr len) (omega arith))
  ]
]

shift_in-value : (addr b : ℕ) → b < 256 → shift_in addr b ≡ (addr * 256 + b) % 2 ^ 32
shift_in-value addr b u =
    let k = addr % 2 ^ 24 in
    let kept : addr * 2 ^ 8 % 2 ^ 32 ≡ k * 2 ^ 8 = omega arith in
    let low : bit_and b 255 ≡ b = ap (λ x. bit_and x 255) (omega arith) ∙ bit_and-low 8 b 0 u in
    rw (kept, low) (bit_or-low 8 k b u ∙ omega arith)

append_nothing : (xs : List ℕ) → xs ++ [] ≡ xs
append_nothing [] = refl
append_nothing (x ∷ xs) = ap (λ ys. x ∷ ys) (append_nothing xs)

atoin_loop-dotted :
    (b : ℕ) (bs : List ℕ) (addr len : ℕ)
    → All (λ c. c < 256) (b ∷ bs)
    → atoin_loop (dotted b bs) 0 addr len ≡ (len + 8 * length (b ∷ bs), value_of addr b bs)
unfolding atoin_loop
atoin_loop-dotted b [] addr len (u, rest) =
    ap (λ s. atoin_loop s 0 addr len) (sym (append_nothing (decimal b)))
    ∙ atoin_loop-decimal b addr len [] u
    ∙ ap (λ a. (len + 8, a)) (shift_in-value addr b u)
atoin_loop-dotted b (c ∷ bs) addr len (u, rest) =
    atoin_loop-decimal b addr len (46 ∷ dotted c bs) u
    ∙ ap (λ a. atoin_loop (dotted c bs) 0 a (len + 8)) (shift_in-value addr b u)
    ∙ atoin_loop-dotted c bs ((addr * 256 + b) % 2 ^ 32) (len + 8) rest
    ∙ ap (λ n. (n, value_of ((addr * 256 + b) % 2 ^ 32) c bs)) (omega arith)

-- Numbers below 256 with dots between them, written in decimal without leading zeros, are read back as
-- the number that they are in base 256, of which the last 32 bits are kept, with 8 bits for each.
pub pcap_atoin-dotted :
    (b : ℕ) (bs : List ℕ)
    → All (λ c. c < 256) (b ∷ bs)
    → pcap_atoin (dotted b bs) ≡ (8 * length (b ∷ bs), value_of 0 b bs)
pcap_atoin-dotted b bs bytes =
    atoin_loop-dotted b bs 0 0 bytes ∙ ap (λ n. (n, value_of 0 b bs)) (omega arith)
