-- ===== src/Bpf/Packet.antt =====
-- bpf/net/bpf_filter.c: the bounds test and the byte order of a load from the packet.
--
-- `k` is the bit pattern of an `int`. `size_t` has 64 bits, `sizeof(int32)` is 4 and
-- `sizeof(short)` is 2, so `k + sizeof(int32)` is computed modulo 2 ^ 64 on `k` sign-extended.
pub mod Bounds
use gap16g_libpcap.Base.{
  ℕ, ◌+◌, ◌-◌, ◌*◌, ◌/◌, ◌%◌, ◌^◌, ◌≤◌, ◌<◌, ◌≡◌, refl, arith, Bool, true, false, Option, none,
  some, List, [], ◌∷◌, bit_and, ltb, leb, if◌then◌else◌, get_elem?, length,
}
use gap16g_libpcap.Base.{All, get_elem?-of_lt, ltb→lt, lt→ltb, ◌⊎◌, inl, inr}
use gap16g_libpcap.Bpf.Insn.{Size, word, half, byte}

-- What a load does: gives a value, ends the filter with 0, or reads outside the buffer.
pub data Load : Type 0 where
  loaded : ℕ → Load
  rejected outside : Load

-- `(size_t)k` for an `int` with the bit pattern `k`.
abbrev pub sign_extend : ℕ → ℕ
sign_extend k = if ltb k (2 ^ 31) then k else k + (2 ^ 64 - 2 ^ 32)

-- `&p[k]` for an `int` `k`: below 0 it lies in front of the buffer.
abbrev pub signed_index : ℕ → Load → Load
signed_index k l = if ltb k (2 ^ 31) then l else outside

-- The bytes of a number in network order, put together.
abbrev pub long_of : Option ℕ → Option ℕ → Option ℕ → Option ℕ → Load
long_of (some a) (some b) (some c) (some d) = loaded (a * 2 ^ 24 + b * 2 ^ 16 + c * 2 ^ 8 + d)
long_of _ _ _ _ = outside

abbrev pub short_of : Option ℕ → Option ℕ → Load
short_of (some a) (some b) = loaded (a * 2 ^ 8 + b)
short_of _ _ = outside

abbrev pub byte_of : Option ℕ → Load
byte_of (some a) = loaded a
byte_of none = outside

-- EXTRACT_LONG and EXTRACT_SHORT at `&p[k]`, and `p[k]`.
unfoldable pub extract_long : List ℕ → ℕ → Load
extract_long p k =
    signed_index k
      (long_of (get_elem? p k) (get_elem? p (k + 1)) (get_elem? p (k + 2)) (get_elem? p (k + 3)))

unfoldable pub extract_short : List ℕ → ℕ → Load
extract_short p k = signed_index k (short_of (get_elem? p k) (get_elem? p (k + 1)))

unfoldable pub extract_byte : List ℕ → ℕ → Load
extract_byte p k = signed_index k (byte_of (get_elem? p k))

-- The three loads, from the bytes `p` of which `buflen` are said to be there.
unfoldable pub load : Size → List ℕ → ℕ → ℕ → Load
load word p buflen k =
    if ltb buflen ((sign_extend k + 4) % 2 ^ 64) then rejected else extract_long p k
load half p buflen k =
    if ltb buflen ((sign_extend k + 2) % 2 ^ 64) then rejected else extract_short p k
load byte p buflen k = if leb buflen k then rejected else extract_byte p k

abbrev pub msh_of : Option ℕ → Load
msh_of none = outside
msh_of (some a) = loaded (bit_and a 0xf * 4 % 2 ^ 32)

-- The load of the IP header length, `(p[pc->k] & 0xf) << 2`; its index is unsigned.
unfoldable pub load_msh : List ℕ → ℕ → ℕ → Load
load_msh p buflen k = if leb buflen k then rejected else msh_of (get_elem? p k)
