-- ===== src/Handle/Case.antt =====
-- pcap.c: what `pcap_strcasecmp` compares.
use gap16g_libpcap.Base.{
  ℕ, zero, suc, ◌+◌, ◌<◌, ◌≡◌, ◌≢◌, ◌↔◌, refl, sym, ap, ◌∙◌, arith, Bool, true, List, [], ◌∷◌, ◌==◌,
  ==_iff, leb, ◌&&◌, ◌||◌, if◌then◌else◌, get_or, length, All, map,
}
use gap16g_libpcap.Handle.Text.{charmap, mapped, difference, head_byte, tail_bytes, pcap_strcasecmp}

-- The letters of ASCII, and the bytes 193 to 218, in lower case.
abbrev pub lower : ℕ → ℕ
lower c = if (leb 65 c && leb c 90) || (leb 193 c && leb c 218) then c + 32 else c

abbrev is_lower_table : ℕ → List ℕ → Bool
is_lower_table a [] = true
is_lower_table a (c ∷ cs) = (c == lower a) && is_lower_table (a + 1) cs

sum_zero : (a : ℕ) → a ≡ a + 0
sum_zero a = omega arith

sum_suc : (a i : ℕ) → a + 1 + i ≡ a + suc i
sum_suc a i = omega arith

zero_sum : (c : ℕ) → 0 + c ≡ c
zero_sum c = omega arith

pub both : (a b : Bool) → (a && b) ≡ true → (a ≡ true) × (b ≡ true)
both a b h = ground arith

get_or-table :
    (a : ℕ) (cs : List ℕ) (i : ℕ)
    → is_lower_table a cs ≡ true
    → i < length cs
    → get_or cs i 0 ≡ lower (a + i)
get_or-table a [] i h within = absurd (omega arith)
get_or-table a (c ∷ cs) zero h within =
    (==_iff c (lower a)).0 (both (c == lower a) _ h).0 ∙ ap lower (sum_zero a)
get_or-table a (c ∷ cs) (suc i) h within =
    get_or-table (a + 1) cs i (both (c == lower a) _ h).1 (omega arith) ∙ ap lower (sum_suc a i)

pub mapped-lower : (c : ℕ) → c < 256 → mapped c ≡ lower c
mapped-lower c byte = get_or-table 0 charmap c refl byte ∙ ap lower (zero_sum c)

-- The bytes of a text: none is 0.
abbrev pub IsByte : ℕ → Type 0
IsByte c = (0 < c) × (c < 256)

abbrev pub IsText : List ℕ → Type 0
IsText = All IsByte

difference_iff : (a b : ℕ) → a < 256 → b < 256 → (difference a b ≡ 0) ↔ (a ≡ b)
difference_iff a b ha hb = ground arith

lower_range : (c : ℕ) → c < 256 → lower c < 256
lower_range c byte = ground arith

lower_positive : (c : ℕ) → 0 < c → 0 < lower c
lower_positive c positive = ground arith

-- A step at a byte that is not 0, with what the two bytes are mapped to.
step_iff :
    (c a b again : ℕ)
    → 0 < c
    → a < 256
    → b < 256
    → ((if a == b then (if c == 0 then 0 else again) else difference a b) ≡ 0)
      ↔ ((a ≡ b) × (again ≡ 0))
step_iff c a b again positive ha hb = ground arith

at_end : (b : ℕ) → 0 < b → b < 256 → (if 0 == b then 0 else difference 0 b) ≢ 0
at_end b positive hb = ground arith

mapped_range : (c : ℕ) → IsByte c → (0 < mapped c) × (mapped c < 256)
mapped_range c byte = rw (mapped-lower c byte.1) ((lower_positive c byte.0, lower_range c byte.1))

-- Texts are equal under the comparison exactly if they are the same in lower case.
pub pcap_strcasecmp_iff :
    (s t : List ℕ) → IsText s → IsText t → (pcap_strcasecmp s t ≡ 0) ↔ (map lower s ≡ map lower t)
unfolding pcap_strcasecmp
pcap_strcasecmp_iff [] [] hs ht = (λ _. refl, λ _. refl)
pcap_strcasecmp_iff [] (d ∷ t) hs ht =
    let range = mapped_range d ht.0 in
    (λ e. absurd (at_end (mapped d) range.0 range.1 e), λ e. absurd (cc e))
pcap_strcasecmp_iff (c ∷ s) [] hs ht =
    let range = mapped_range c hs.0 in
    let step = step_iff c (mapped c) 0 (pcap_strcasecmp s []) hs.0.0 range.1 (omega arith) in
    (λ e. absurd (omega (arith, range.0, (step.0 e).0)), λ e. absurd (cc e))
pcap_strcasecmp_iff (c ∷ s) (d ∷ t) hs ht =
    let step =
      step_iff c (mapped c) (mapped d) (pcap_strcasecmp s t) hs.0.0 (mapped_range c hs.0).1
        (mapped_range d ht.0).1 in
    let again = pcap_strcasecmp_iff s t hs.1 ht.1 in
    let same = mapped-lower c hs.0.1 in
    let same' = mapped-lower d ht.0.1 in
    (
      λ e. cc (same, same', (step.0 e).0, again.0 (step.0 e).1),
      λ e. step.1 (same ∙ ap head_byte e ∙ sym same', again.1 (ap tail_bytes e)),
    )
