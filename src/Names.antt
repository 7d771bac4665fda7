-- ===== src/Names.antt =====
-- nametoaddr.c: addresses written as text. A text is the list of its characters, without the
-- terminating 0. The classes of characters are those of the C locale.
pub mod Digits
pub mod Ether
pub mod Inet
mod Tests
use gap16g_libpcap.Base.{
  ℕ, zero, suc, ◌+◌, ◌-◌, ◌*◌, ◌^◌, ◌%◌, Bool, true, false, List, [], ◌∷◌, ◌==◌, leb, ◌&&◌, ◌||◌,
  if◌then◌else◌, bit_and, bit_or, length, ltb,
}

abbrev pub isdigit : ℕ → Bool
isdigit c = leb 48 c && leb c 57

abbrev pub islower : ℕ → Bool
islower c = leb 97 c && leb c 122

abbrev pub isxdigit : ℕ → Bool
isxdigit c = isdigit c || (leb 97 c && leb c 102) || (leb 65 c && leb c 70)

-- The value as an unsigned word, also of a character that is no digit.
unfoldable pub xdtoi : ℕ → ℕ
xdtoi c =
    if isdigit c then c - 48 else if islower c then c - 97 + 10 else (c + 2 ^ 32 - 65 + 10) % 2 ^ 32

-- What `pcap_ether_aton` gives: six bytes of memory with the first ones written. It may write
-- behind the six, or read behind the end of the text.
pub data EtherBytes : Type 0 where
  written : List ℕ → EtherBytes
  written_behind read_behind : EtherBytes

abbrev pub is_separator : ℕ → Bool
is_separator c = c == 58 || c == 46 || c == 45

-- `*ep++ = d`, at index `n` and before the rest.
abbrev pub put : ℕ → ℕ → EtherBytes → EtherBytes
put n d rest = elim (ltb n 6) [
  | false ↦ written_behind
  | true ↦ elim rest [
    | written bytes ↦ written (d % 2 ^ 8 ∷ bytes)
    | written_behind ↦ written_behind
    | read_behind ↦ read_behind
  ]
]

-- One or two digits; `again` is the rest of the loop.
abbrev pub ether_digits : (ℕ → List ℕ → EtherBytes) → ℕ → List ℕ → EtherBytes
ether_digits again n [] = read_behind
ether_digits again n (c ∷ []) = put n (xdtoi c) (again (suc n) [])
ether_digits again n (c ∷ e ∷ s) = elim (isxdigit e) [
  | true ↦ put n (bit_or (xdtoi c * 2 ^ 4 % 2 ^ 32) (xdtoi e)) (again (suc n) s)
  | false ↦ put n (xdtoi c) (again (suc n) (e ∷ s))
]

-- A pass handles a separator and the digits of one byte.
unfoldable pub ether_loop : ℕ → ℕ → List ℕ → EtherBytes
ether_loop zero n s = written []
ether_loop (suc fuel) n [] = written []
ether_loop (suc fuel) n (c ∷ s) = elim (is_separator c) [
  | true ↦ ether_digits (ether_loop fuel) n s
  | false ↦ ether_digits (ether_loop fuel) n (c ∷ s)
]

-- `malloc` succeeds. A pass reads at least one character.
abbrev pub pcap_ether_aton : List ℕ → EtherBytes
pcap_ether_aton s = ether_loop (suc (length s)) 0 s

-- `*addr <<= 8; *addr |= n & 0xff;`
abbrev pub shift_in : ℕ → ℕ → ℕ
shift_in addr n = bit_or (addr * 2 ^ 8 % 2 ^ 32) (bit_and n 255)

-- The two loops of `__pcap_atoin`, on ASCII characters: `n` is the number so far, and the result has
-- `len` and `*addr`.
unfoldable pub atoin_loop : List ℕ → ℕ → ℕ → ℕ → ℕ × ℕ
atoin_loop [] n addr len = (len + 8, shift_in addr n)
atoin_loop (c ∷ s) n addr len = elim (c == 46) [
  | true ↦ atoin_loop s 0 (shift_in addr n) (len + 8)
  | false ↦ atoin_loop s ((n * 10 + c + (2 ^ 32 - 48)) % 2 ^ 32) addr len
]

abbrev pub pcap_atoin : List ℕ → ℕ × ℕ
pcap_atoin s = atoin_loop s 0 0 0
