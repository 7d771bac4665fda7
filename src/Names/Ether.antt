-- ===== src/Names/Ether.antt =====
-- nametoaddr.c: `pcap_ether_aton` on the forms of an address that its comment lists.
use gap16g_libpcap.Base.{
  ℕ, zero, suc, ◌+◌, ◌*◌, ◌/◌, ◌%◌, ◌^◌, ◌≤◌, ◌<◌, ◌≡◌, refl, ap, ◌∙◌, arith, Bool, true, false,
  List, [], ◌∷◌, ◌++◌, All, length, length-append, ltb, if◌then◌else◌, bit_or, map,
}
use gap16g_libpcap.Names.Digits.{bit_or-low}
use gap16g_libpcap.Names.{
  xdtoi, isxdigit, is_separator, EtherBytes, written, put, ether_loop, ether_digits,
  pcap_ether_aton,
}

-- How a byte is written: with a separator before it or not, and in which case.
pub data Mark : Type 0 where
  bare colon dot dash : Mark

abbrev pub mark_text : Mark → List ℕ
mark_text bare = []
mark_text colon = 58 ∷ []
mark_text dot = 46 ∷ []
mark_text dash = 45 ∷ []

abbrev pub hex_digit : Bool → ℕ → ℕ
hex_digit upper d = if ltb d 10 then 48 + d else if upper then 55 + d else 87 + d

-- A byte with its mark, and whether its digits are upper-case letters.
abbrev pub Item : Type 0
Item = Mark × Bool × ℕ

abbrev pub item_text : Item → List ℕ
item_text (mark, upper, byte) =
    mark_text mark ++ (hex_digit upper (byte / 16) ∷ hex_digit upper (byte % 16) ∷ [])

abbrev pub text_of : List Item → List ℕ
text_of [] = []
text_of (i ∷ is) = item_text i ++ text_of is

abbrev pub byte_of : Item → ℕ
byte_of (mark, upper, byte) = byte

xdtoi-hex_digit : (upper : Bool) (d : ℕ) → d < 16 → xdtoi (hex_digit upper d) ≡ d
unfolding xdtoi
xdtoi-hex_digit true d u = ground arith
xdtoi-hex_digit false d u = ground arith

hex_digit-isxdigit : (upper : Bool) (d : ℕ) → d < 16 → isxdigit (hex_digit upper d) ≡ true
hex_digit-isxdigit true d u = ground arith
hex_digit-isxdigit false d u = ground arith

hex_digit-mark : (upper : Bool) (d : ℕ) → d < 16 → is_separator (hex_digit upper d) ≡ false
hex_digit-mark true d u = ground arith
hex_digit-mark false d u = ground arith

-- The two digits together.
halves : (b : ℕ) → b < 256 → bit_or (b / 16 * 2 ^ 4 % 2 ^ 32) (b % 16) ≡ b
halves b u =
    let shift : b / 16 * 2 ^ 4 % 2 ^ 32 ≡ b / 16 * 2 ^ 4 = omega arith in
    ap (λ x. bit_or x (b % 16)) shift ∙ bit_or-low 4 (b / 16) (b % 16) (omega arith) ∙ omega arith

ether_digits-two :
    (again : ℕ → List ℕ → EtherBytes) (n : ℕ) (upper : Bool) (b : ℕ) (rest : List ℕ)
    → b < 256
    → ether_digits again n (hex_digit upper (b / 16) ∷ hex_digit upper (b % 16) ∷ rest)
      ≡ put n b (again (suc n) rest)
ether_digits-two again n upper b rest u =
    rw
      (
        ether_digits,
        hex_digit-isxdigit upper (b % 16) (omega arith),
        xdtoi-hex_digit upper (b / 16) (omega arith),
        xdtoi-hex_digit upper (b % 16) (omega arith),
        halves b u,
      )
      refl

ether_loop-item :
    (fuel n : ℕ) (mark : Mark) (upper : Bool) (b : ℕ) (rest : List ℕ)
    → b < 256
    → ether_loop (suc fuel) n (item_text (mark, upper, b) ++ rest)
      ≡ put n b (ether_loop fuel (suc n) rest)
unfolding ether_loop
ether_loop-item fuel n bare upper b rest u =
    rw (ether_loop, hex_digit-mark upper (b / 16) (omega arith))
      (ether_digits-two (ether_loop fuel) n upper b rest u)
ether_loop-item fuel n colon upper b rest u = ether_digits-two (ether_loop fuel) n upper b rest u
ether_loop-item fuel n dot upper b rest u = ether_digits-two (ether_loop fuel) n upper b rest u
ether_loop-item fuel n dash upper b rest u = ether_digits-two (ether_loop fuel) n upper b rest u

put-written :
    (n b : ℕ) (bytes : List ℕ) → n < 6 → b < 256 → put n b (written bytes) ≡ written (b ∷ bytes)
put-written n b bytes l u =
    let inside : ltb n 6 ≡ true = ground arith in
    let byte : b % 2 ^ 8 ≡ b = omega arith in rw (put, inside, byte) refl

abbrev pub IsByte : Item → Type 0
IsByte i = byte_of i < 256

ether_loop-text_of :
    (fuel n : ℕ) (is : List Item)
    → length is < fuel
    → n + length is ≤ 6
    → All IsByte is
    → ether_loop fuel n (text_of is) ≡ written (map byte_of is)
unfolding ether_loop
ether_loop-text_of zero n is enough room bytes = absurd (omega arith)
ether_loop-text_of (suc fuel) n [] enough room bytes = refl
ether_loop-text_of (suc fuel) n ((mark, upper, b) ∷ is) enough room (u, bytes) =
    ether_loop-item fuel n mark upper b (text_of is) u
    ∙ ap (put n b) (ether_loop-text_of fuel (suc n) is (omega arith) (omega arith) bytes)
    ∙ put-written n b (map byte_of is) (omega arith) u

item_size : (mark : Mark) (upper : Bool) (b : ℕ) → 2 ≤ length (item_text (mark, upper, b))
item_size bare upper b = omega arith
item_size colon upper b = omega arith
item_size dot upper b = omega arith
item_size dash upper b = omega arith

length-text_of : (is : List Item) → length is ≤ length (text_of is)
length-text_of [] = omega arith
length-text_of ((mark, upper, b) ∷ is) =
    let rest = length-text_of is in
    rw (length-append (item_text (mark, upper, b)) (text_of is))
      (let two = item_size mark upper b in omega arith)

-- At most six bytes, each written with two hexadecimal digits of either case, and with a colon, a dot,
-- a dash or nothing before it, are read back: there is no access outside the text or the memory.
pub pcap_ether_aton-text_of :
    (is : List Item)
    → length is ≤ 6
    → All IsByte is
    → pcap_ether_aton (text_of is) ≡ written (map byte_of is)
pcap_ether_aton-text_of is room bytes =
    let size = length-text_of is in
    ether_loop-text_of (suc (length (text_of is))) 0 is (omega arith) (omega arith) bytes
