-- ===== src/Bpf/Packet/Bounds.antt =====
-- bpf/net/bpf_filter.c: the bounds test of the packet loads, over the whole range of indices.
use native.Mathlib.Decide.{dec_lt}
use gap16g_libpcap.Base.{
  ℕ, ◌+◌, ◌-◌, ◌*◌, ◌^◌, ◌≤◌, ◌<◌, ◌≡◌, arith, List, get_elem?, get_elem?-of_lt, length, some, ◌⊎◌,
  inl, inr,
}
use gap16g_libpcap.Bpf.Insn.{Size, word, half, byte}
use gap16g_libpcap.Bpf.Packet.{
  Load, loaded, rejected, outside, extract_long, extract_short, extract_byte, load,
}

abbrev pub width : Size → ℕ
width word = 4
width half = 2
width byte = 1

-- Big-endian value of the bytes of `p` at `k`.
abbrev pub IsBigEndian : Size → List ℕ → ℕ → ℕ → Type 0
IsBigEndian word p k v =
    (a b c d : ℕ)
    → get_elem? p k ≡ some a
    → get_elem? p (k + 1) ≡ some b
    → get_elem? p (k + 2) ≡ some c
    → get_elem? p (k + 3) ≡ some d
    → v ≡ ((a * 256 + b) * 256 + c) * 256 + d
IsBigEndian half p k v =
    (a b : ℕ) → get_elem? p k ≡ some a → get_elem? p (k + 1) ≡ some b → v ≡ a * 256 + b
IsBigEndian byte p k v = get_elem? p k ≡ some v

-- What a load is to do: reject what does not fit, and else give the bytes in network order.
abbrev pub IsLoad : Size → List ℕ → ℕ → ℕ → Load → Type 0
IsLoad s p buflen k l =
    ((buflen < k + width s) × (l ≡ rejected))
    ⊎ ((k + width s ≤ buflen) × ((v : ℕ) × (l ≡ loaded v) × IsBigEndian s p k v))

module _ (p : List ℕ) (buflen k : ℕ) (there : buflen ≤ length p) (small : buflen < 2 ^ 31) where
  -- Where the buffer has at least the `buflen` bytes it is said to have, fewer than 2 ^ 31, and
  -- `k` is not among the last four indices of an unsigned 32-bit number, a load of any size
  -- is rejected exactly if it does not fit the buffer, and gives the bytes in network order
  -- otherwise; it never reads outside.
  pub load-IsLoad : (s : Size) → k < 2 ^ 32 - 4 → IsLoad s p buflen k (load s p buflen k)
  unfolding load extract_long extract_short extract_byte
  load-IsLoad word h = elim (dec_lt buflen (k + 4)) [
    | yes over ↦ inl (over, ground arith)
    | no fits ↦
        let (a, ea) = get_elem?-of_lt p k (omega arith) in
        let (b, eb) = get_elem?-of_lt p (k + 1) (omega arith) in
        let (c, ec) = get_elem?-of_lt p (k + 2) (omega arith) in
        let (d, ed) = get_elem?-of_lt p (k + 3) (omega arith) in
        inr (
          omega arith,
          (
            ((a * 256 + b) * 256 + c) * 256 + d,
            ground arith,
            λ a' b' c' d' pa pb pc pd. ground arith,
          ),
        )
  ]
  load-IsLoad half h = elim (dec_lt buflen (k + 2)) [
    | yes over ↦ inl (over, ground arith)
    | no fits ↦
        let (a, ea) = get_elem?-of_lt p k (omega arith) in
        let (b, eb) = get_elem?-of_lt p (k + 1) (omega arith) in
        inr (omega arith, (a * 256 + b, ground arith, λ a' b' pa pb. ground arith))
  ]
  load-IsLoad byte h = elim (dec_lt buflen (k + 1)) [
    | yes over ↦ inl (over, ground arith)
    | no fits ↦
        let (a, ea) = get_elem?-of_lt p k (omega arith) in inr (omega arith, (a, ground arith, ea))
  ]

-- At the last four indices of an unsigned 32-bit number, the index plus 4 wraps around to a small
-- number; where that is at most `buflen`, a load of a word reads outside the buffer.
pub load_wraps :
    (p : List ℕ) (buflen k : ℕ)
    → 2 ^ 32 - 4 ≤ k
    → k < 2 ^ 32
    → k + 4 - 2 ^ 32 ≤ buflen
    → load word p buflen k ≡ outside
unfolding load extract_long
load_wraps p buflen k low high fits = ground arith
