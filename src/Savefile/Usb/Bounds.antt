-- ===== src/Savefile/Usb/Bounds.antt =====
-- pcap-common.c: the bytes that `swap_linux_usb_header` writes.
use gap16g_libpcap.Base.{
  ℕ, zero, suc, ◌+◌, ◌-◌, ◌≤◌, ◌≡◌, refl, ap, ◌∙◌, arith, Bool, true, false, List, [], ◌∷◌, ltb,
  length, take, drop, length-drop, inl, inr, Bool-cases,
}
use gap16g_libpcap.Savefile.Usb.{
  reverse_onto, swap_field, swap_past, swap_isodescs, swap_descriptors, swap_mmapped, swap_setup,
  swap_linux_usb_header, is_isochronous, numdesc,
}

pub length-take : (n : ℕ) (xs : List ℕ) → n ≤ length xs → length (take n xs) ≡ n
length-take zero xs h = refl
length-take (suc n) [] h = absurd (omega arith)
length-take (suc n) (x ∷ xs) h = ap suc (length-take n xs (omega arith))

drop-drop : (m n k : ℕ) (xs : List ℕ) → k ≡ m + n → drop n (drop m xs) ≡ drop k xs
drop-drop zero n k xs e = ap (λ i. drop i xs) (omega arith)
drop-drop (suc m) n zero xs e = absurd (omega arith)
drop-drop (suc m) zero (suc k) [] e = refl
drop-drop (suc m) (suc n) (suc k) [] e = refl
drop-drop (suc m) n (suc k) (x ∷ xs) e = drop-drop m n k xs (omega arith)

length-reverse_onto : (xs tail : List ℕ) → length (reverse_onto xs tail) ≡ length xs + length tail
length-reverse_onto [] tail = omega arith
length-reverse_onto (x ∷ xs) tail = omega (arith, length-reverse_onto xs (x ∷ tail))

drop-reverse_onto :
    (xs tail : List ℕ) (k n : ℕ) → n ≡ length xs + k → drop n (reverse_onto xs tail) ≡ drop k tail
drop-reverse_onto [] tail k n e = ap (λ i. drop i tail) (omega arith)
drop-reverse_onto (x ∷ xs) tail k n e = drop-reverse_onto xs (x ∷ tail) (suc k) n (omega arith)

-- As many bytes as before, and the same ones from `c` on.
abbrev pub KeepsFrom : ℕ → List ℕ → List ℕ → Type 0
KeepsFrom c before after = (length after ≡ length before) × (drop c after ≡ drop c before)

reverse_onto-KeepsFrom :
    (w c : ℕ) (buf : List ℕ)
    → w ≤ c
    → c ≤ length buf
    → KeepsFrom c buf (reverse_onto (take w buf) (drop w buf))
reverse_onto-KeepsFrom w c buf h there =
    let taken = length-take w buf (omega arith) in
    (
      omega (arith, length-reverse_onto (take w buf) (drop w buf), taken, length-drop w buf),
      drop-reverse_onto (take w buf) (drop w buf) (c - w) c (omega (arith, taken))
          ∙ drop-drop w (c - w) c buf (omega arith),
    )

swap_field-KeepsFrom :
    (w at c : ℕ) (buf : List ℕ)
    → at + w ≤ c
    → c ≤ length buf
    → KeepsFrom c buf (swap_field w at buf)
unfolding swap_field
swap_field-KeepsFrom w zero c buf h there = reverse_onto-KeepsFrom w c buf (omega arith) there
swap_field-KeepsFrom w (suc at) c [] h there = absurd (omega arith)
swap_field-KeepsFrom w (suc at) zero (b ∷ buf) h there = absurd (omega arith)
swap_field-KeepsFrom w (suc at) (suc c) (b ∷ buf) h there =
    let rest = swap_field-KeepsFrom w at c buf (omega arith) (omega arith) in
    (ap suc rest.0, rest.1)

module _ (c : ℕ) where
  -- A conversion that only changes captured bytes.
  abbrev pub IsWithin : (List ℕ → List ℕ) → Type 0
  IsWithin f = (buf : List ℕ) → c ≤ length buf → KeepsFrom c buf (f buf)

  ends_within : (w offset : ℕ) → w ≤ offset → ltb c offset ≡ false → offset - w + w ≤ c
  ends_within w offset fits captured = ground arith

  swap_past-IsWithin :
      (w offset : ℕ) (rest : List ℕ → List ℕ)
      → w ≤ offset
      → IsWithin rest
      → IsWithin (swap_past c w offset rest)
  unfolding swap_past
  swap_past-IsWithin w offset rest fits within buf there = elim (Bool-cases (ltb c offset)) [
    | inl short ↦ rw short ((refl, refl))
    | inr captured ↦
        let one =
          swap_field-KeepsFrom w (offset - w) c buf (ends_within w offset fits captured) there in
        let others = within (swap_field w (offset - w) buf) (omega (arith, one.0)) in
        rw captured ((others.0 ∙ one.0, others.1 ∙ one.1))
  ]

  swap_isodescs-IsWithin : (n offset : ℕ) → IsWithin (swap_isodescs n c offset)
  unfolding swap_isodescs
  swap_isodescs-IsWithin zero offset buf there = (refl, refl)
  swap_isodescs-IsWithin (suc n) offset buf there =
      swap_past-IsWithin 4 (offset + 4) _ (omega arith)
        (swap_past-IsWithin 4 (offset + 8) _ (omega arith) (
          swap_past-IsWithin 4 (offset + 12) _ (omega arith)
            (swap_isodescs-IsWithin n (offset + 16))))
        buf there

  swap_descriptors-IsWithin : (offset : ℕ) → IsWithin (swap_descriptors c offset)
  unfolding swap_descriptors
  swap_descriptors-IsWithin offset buf there = elim (Bool-cases (is_isochronous buf)) [
    | inl iso ↦ rw iso (swap_isodescs-IsWithin (numdesc buf) offset buf there)
    | inr other ↦ rw other ((refl, refl))
  ]

  swap_mmapped-IsWithin : (longer : Bool) → IsWithin (swap_mmapped c longer)
  unfolding swap_mmapped
  swap_mmapped-IsWithin false = swap_descriptors-IsWithin 48
  swap_mmapped-IsWithin true = swap_past-IsWithin 4 52 _ (omega arith) (
      swap_past-IsWithin 4 56 _ (omega arith) (
        swap_past-IsWithin 4 60 _ (omega arith)
          (swap_past-IsWithin 4 64 _ (omega arith) (swap_descriptors-IsWithin 64))))

  swap_setup-IsWithin : (longer : Bool) → IsWithin (swap_setup c longer)
  unfolding swap_setup
  swap_setup-IsWithin longer buf there = elim (Bool-cases (is_isochronous buf)) [
    | inl iso ↦ rw iso (
        swap_past-IsWithin 4 44 _ (omega arith)
          (swap_past-IsWithin 4 48 _ (omega arith) (swap_mmapped-IsWithin longer)) buf there)
    | inr other ↦ rw other (swap_mmapped-IsWithin longer buf there)
  ]

-- Where at least `caplen` bytes were captured, the conversion of a USB header, with either header
-- length and whatever the number of descriptors in it, leaves the length of the buffer and every byte
-- from `caplen` on as they were.
pub swap_linux_usb_header-IsWithin :
    (caplen : ℕ) (longer : Bool) (buf : List ℕ)
    → caplen ≤ length buf
    → KeepsFrom caplen buf (swap_linux_usb_header caplen longer buf)
unfolding swap_linux_usb_header
swap_linux_usb_header-IsWithin caplen longer = swap_past-IsWithin caplen 8 8 _ (omega arith) (
    swap_past-IsWithin caplen 2 14 _ (omega arith) (
      swap_past-IsWithin caplen 8 24 _ (omega arith) (
        swap_past-IsWithin caplen 4 28 _ (omega arith) (
          swap_past-IsWithin caplen 4 32 _ (omega arith) (
            swap_past-IsWithin caplen 4 36 _ (omega arith) (
              swap_past-IsWithin caplen 4 40 _ (omega arith)
                (swap_setup-IsWithin caplen longer)))))))
