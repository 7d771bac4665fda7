-- ===== src/Savefile/Usb.antt =====
-- pcap-common.c: the Linux USB header of a packet from a host of the other byte order.
pub mod Bounds
use gap16g_libpcap.Base.{
  ℕ, zero, suc, ◌+◌, ◌-◌, ◌≤◌, ◌<◌, ◌^◌, ◌≡◌, refl, ◌∙◌, arith, Bool, true, false, List, [], ◌∷◌,
  ◌++◌, ltb, ◌==◌, if◌then◌else◌, length, take, drop, get_or, length-append, length-drop,
}
use gap16g_libpcap.Savefile.Bytes.{long_at}

-- The bytes of a field, last first.
abbrev reverse_onto : List ℕ → List ℕ → List ℕ
reverse_onto [] tail = tail
reverse_onto (b ∷ bs) tail = reverse_onto bs (b ∷ tail)

-- SWAPSHORT, SWAPLONG or SWAPLL of the `width` bytes at an offset.
unfoldable pub swap_field : ℕ → ℕ → List ℕ → List ℕ
swap_field width zero buf = reverse_onto (take width buf) (drop width buf)
swap_field width (suc at) [] = []
swap_field width (suc at) (b ∷ buf) = b ∷ swap_field width at buf

-- A field that ends at `offset` is swapped if it was captured, and else that is all.
unfoldable pub swap_past : ℕ → ℕ → ℕ → (List ℕ → List ℕ) → List ℕ → List ℕ
swap_past caplen width offset rest buf =
    if ltb caplen offset then buf else rest (swap_field width (offset - width) buf)

-- The loop over the isochronous descriptors.
unfoldable pub swap_isodescs : ℕ → ℕ → ℕ → List ℕ → List ℕ
swap_isodescs zero caplen offset buf = buf
swap_isodescs (suc n) caplen offset buf =
    swap_past caplen 4 (offset + 4)
      (swap_past caplen 4 (offset + 8)
        (swap_past caplen 4 (offset + 12) (swap_isodescs n caplen (offset + 16))))
      buf

abbrev pub urb_isochronous : ℕ
urb_isochronous = 0

abbrev pub is_isochronous : List ℕ → Bool
is_isochronous buf = get_or buf 9 0 == urb_isochronous

-- `numdesc` is an `int32_t`.
abbrev pub numdesc : List ℕ → ℕ
numdesc buf = if ltb (long_at buf 44) (2 ^ 31) then long_at buf 44 else 0

unfoldable pub swap_descriptors : ℕ → ℕ → List ℕ → List ℕ
swap_descriptors caplen offset buf =
    if is_isochronous buf then swap_isodescs (numdesc buf) caplen offset buf else buf

-- The fields of the longer header.
unfoldable pub swap_mmapped : ℕ → Bool → List ℕ → List ℕ
swap_mmapped caplen false buf = swap_descriptors caplen 48 buf
swap_mmapped caplen true buf =
    swap_past caplen 4 52
      (swap_past caplen 4 56
        (swap_past caplen 4 60 (swap_past caplen 4 64 (swap_descriptors caplen 64))))
      buf

unfoldable pub swap_setup : ℕ → Bool → List ℕ → List ℕ
swap_setup caplen longer buf =
    if is_isochronous buf
    then swap_past caplen 4 44 (swap_past caplen 4 48 (swap_mmapped caplen longer)) buf
    else swap_mmapped caplen longer buf

unfoldable pub swap_linux_usb_header : ℕ → Bool → List ℕ → List ℕ
swap_linux_usb_header caplen longer = swap_past caplen 8 8 (
    swap_past caplen 2 14 (
      swap_past caplen 8 24 (
        swap_past caplen 4 28 (
          swap_past caplen 4 32
            (swap_past caplen 4 36 (swap_past caplen 4 40 (swap_setup caplen longer)))))))
