-- ===== src/Handle/Text.antt =====
-- pcap.c: the comparison of texts without regard to case.
--
-- A text is the list of its bytes, and the byte behind them is 0.
use Prim.Native.Char.{code}
use Prim.Native.String.{String}
use gap16g_libpcap.Base.{
  ℕ, zero, suc, ◌+◌, ◌-◌, ◌%◌, ◌^◌, List, [], ◌∷◌, ◌++◌, ◌==◌, if◌then◌else◌, get_or,
}

-- A string constant of the source.
abbrev pub codes : String → List ℕ
codes String.[] = []
codes (String.◌∷◌ c s) = code c ∷ codes s

abbrev pub run_from : ℕ → ℕ → List ℕ
run_from a zero = []
run_from a (suc n) = a ∷ run_from (a + 1) n

-- The array of 256 bytes: a run of itself, with the letters of both halves moved by 32.
abbrev pub charmap : List ℕ
charmap = run_from 0 65 ++ run_from 97 26 ++ run_from 91 102 ++ run_from 225 26 ++ run_from 219 37

abbrev pub mapped : ℕ → ℕ
mapped c = get_or charmap c 0

-- The two bytes differ: a difference of `int`s, as a bit pattern.
abbrev pub difference : ℕ → ℕ → ℕ
difference a b = (a + (2 ^ 32 - b)) % 2 ^ 32

abbrev pub head_byte : List ℕ → ℕ
head_byte s = get_or s 0 0

abbrev pub tail_bytes : List ℕ → List ℕ
tail_bytes [] = []
tail_bytes (c ∷ s) = s

unfoldable pub pcap_strcasecmp : List ℕ → List ℕ → ℕ
pcap_strcasecmp [] t =
    if mapped 0 == mapped (head_byte t) then 0 else difference (mapped 0) (mapped (head_byte t))
pcap_strcasecmp (c ∷ s) t =
    let again = pcap_strcasecmp s (tail_bytes t) in
    if mapped c == mapped (head_byte t)
    then (if c == 0 then 0 else again)
    else difference (mapped c) (mapped (head_byte t))
