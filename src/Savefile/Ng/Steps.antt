-- ===== src/Savefile/Ng/Steps.antt =====
-- sf-pcap-ng.c: what a call for the next packet of a well-formed `pcap_t` gives.
use gap16g_libpcap.Base.{
  ℕ, ◌+◌, ◌≤◌, ◌<◌, ◌^◌, ◌≡◌, refl, ◌∙◌, arith, Bool, true, false, List, length, leb, ◌==◌, ==_iff,
  Option, none, some, get_elem?, inl, inr, Bool-cases,
}
use gap16g_libpcap.Savefile.Packet.{PacketHeader, dlt_usb_linux, dlt_usb_linux_mmapped}
use gap16g_libpcap.Savefile.Bytes.{host_long, long_at, host_short, short_at, swap_long}
use gap16g_libpcap.Savefile.Usb.Bounds.{swap_linux_usb_header-IsWithin}
use gap16g_libpcap.Savefile.Ng.Answer.{
  Host, guard, ◌>>=◌, different_type, different_snapshot, unknown_version,
}
use gap16g_libpcap.Savefile.Ng.Block.{Interface, Capture, Cursor, max_block, get_from_block_data}
use gap16g_libpcap.Savefile.Ng.Interface.{add_interface}
use gap16g_libpcap.Savefile.Ng.Open.{
  idb_size, shb_size, description_at, version_number, magic_of_byte_order,
}
use gap16g_libpcap.Savefile.Ng.Next.{
  Arrival, Got, convert_header, deliver, found, next_interface, next_section, check_order, stamp,
}
use gap16g_libpcap.Savefile.Ng.Returns.{
  Returns, if-Returns, >>=-Returns, guard-Returns, Chunk, get_from_block_data-Returns,
}
use gap16g_libpcap.Savefile.Ng.Known.{IsValid, IsKnown, IsReady}
use gap16g_libpcap.Savefile.Ng.Grown.{Follows, add_interface-Returns}

length-convert_header :
    (swapped : Bool) (dlt n : ℕ) (bytes : List ℕ)
    → length bytes ≡ n
    → length (convert_header swapped dlt n bytes) ≡ n
unfolding convert_header
length-convert_header false dlt n bytes e = e
length-convert_header true dlt n bytes e = elim (Bool-cases (dlt == dlt_usb_linux)) [
  | inl usb ↦ rw usb ((swap_linux_usb_header-IsWithin n false bytes (omega arith)).0 ∙ e)
  | inr differs ↦ elim (Bool-cases (dlt == dlt_usb_linux_mmapped)) [
    | inl usb ↦
        rw (differs, usb) ((swap_linux_usb_header-IsWithin n true bytes (omega arith)).0 ∙ e)
    | inr neither ↦ rw (differs, neither) e
  ]
]

-- A packet has `caplen` bytes, and they stood in a block that fits the buffer.
abbrev pub Delivered : Capture → Option (PacketHeader × List ℕ) → Type 0
Delivered p none = Unit
Delivered p (some packet) =
    (length packet.1 ≡ PacketHeader.caplen packet.0)
    × (PacketHeader.caplen packet.0 + 12 ≤ max_block)
    × (PacketHeader.caplen packet.0 + 12 ≤ p.buffer_size)

abbrev pub Shrinks : ℕ → Option (PacketHeader × List ℕ) → ℕ → Type 0
Shrinks before none after = after ≤ before
Shrinks before (some packet) after = after + 12 ≤ before

-- The `pcap_t` stays well-formed, and a packet takes a block from the file.
abbrev pub Gives : ℕ → ℕ → Got → Type 0
Gives budget before got =
    IsValid budget got.1
    × Delivered got.1 got.0
    × Shrinks before got.0 (length (Capture.file got.1))

Known-cases :
    (user : ℕ) (o : Option (Option Interface))
    → IsKnown user o
    → (f : Interface) × (o ≡ some (some f)) × IsReady user f
Known-cases user none known = absurd known
Known-cases user (some none) known = absurd known
Known-cases user (some (some f)) known = (f, refl, known)

pub raise : {a b : ℕ} {p : Capture} → a ≤ b → IsValid a p → IsValid b p
raise within v = record {
  buffered = v.buffered;
  listed = v.listed;
  counted = v.counted;
  bounded = omega (arith, v.bounded);
  precise = v.precise;
  known = v.known;
}

module _ (budget before : ℕ) (p : Capture) (c : Cursor) (valid : IsValid budget p)
    (less : length p.file + 12 ≤ before) (most : length c.data_remaining + 12 ≤ max_block)
    (holds : length c.data_remaining + 12 ≤ p.buffer_size) where
  deliver-Returns :
      (a : Arrival) (f : Interface)
      → IsReady p.user_tsresol f
      → Returns (Gives budget before) (deliver p c a f)
  unfolding stamp
  deliver-Returns a f ready =
      if-Returns _ (f.tsresol == 0) _ _
        (λ null. absurd (omega (arith, ready.positive, (==_iff f.tsresol 0).0 null)))
        (λ _.
          >>=-Returns (Chunk a.caplen c) _ (get_from_block_data a.caplen c) _
            (get_from_block_data-Returns a.caplen c)
            (λ got chunk. (
              valid,
              (
                length-convert_header p.is_swapped p.dlt a.caplen got.0 (chunk.0),
                omega (arith, chunk.1),
                omega (arith, chunk.1),
              ),
              omega arith,
            )))

  found-Returns : (a : Arrival) → Returns (Gives budget before) (found p c a)
  unfolding found
  found-Returns a =
      if-Returns _ (leb p.ifcount a.interface_id) _ _ (λ _. refl)
        (λ counted.
          let it =
            Known-cases p.user_tsresol (get_elem? p.ifaces a.interface_id)
              (valid.known a.interface_id (ground arith)) in
          rw it.1 (deliver-Returns a it.0 it.2))

-- A packet block whose fixed part has `n` bytes.
pub packet-Returns :
    (budget before : ℕ) (p : Capture) (c : Cursor) (n : ℕ) (arrival : List ℕ → Arrival)
    → IsValid budget p
    → length p.file + 12 ≤ before
    → length c.data_remaining + 12 ≤ max_block
    → length c.data_remaining + 12 ≤ p.buffer_size
    → Returns (Gives budget before) (get_from_block_data n c >>= λ b. found p b.1 (arrival b.0))
packet-Returns budget before p c n arrival valid less most holds =
    >>=-Returns (Chunk n c) _ (get_from_block_data n c) _ (get_from_block_data-Returns n c)
      (λ got chunk.
        found-Returns budget before p got.1 valid less (omega (arith, chunk.1))
          (omega (arith, chunk.1)) (arrival got.0))

module _ (host : Host) (budget : ℕ) (p : Capture) (c : Cursor) (valid : IsValid budget p) where
  pub next_interface-Returns :
      p.ifcount < 2 ^ 31 → Returns (Follows (budget + 1) p) (next_interface host p c)
  unfolding next_interface
  next_interface-Returns few =
      >>=-Returns (Chunk idb_size c) _ (get_from_block_data idb_size c) _
        (get_from_block_data-Returns idb_size c)
        (λ got chunk.
          let d = description_at p.is_swapped got.0 in
          guard-Returns (Follows (budget + 1) p) (p.dlt == d.linktype) (different_type d.linktype)
            (guard (p.snapshot == d.snaplen) (different_snapshot d.snaplen)
              (add_interface host p got.1))
            refl
            (λ _.
              guard-Returns (Follows (budget + 1) p) (p.snapshot == d.snaplen)
                (different_snapshot d.snaplen) (add_interface host p got.1) refl
                (λ _. add_interface-Returns budget p valid host got.1 few)))

  pub next_section-Returns : Returns (Follows budget p) (next_section p c)
  unfolding next_section
  next_section-Returns =
      >>=-Returns (Chunk shb_size c) _ (get_from_block_data shb_size c) _
        (get_from_block_data-Returns shb_size c)
        (λ got chunk.
          >>=-Returns (λ _. Unit) _ (check_order p.is_swapped got.0) _
            (if-Returns _ (host_long p.is_swapped (long_at got.0 0) == magic_of_byte_order) _ _
              (λ _. tt)
              (λ _.
                if-Returns _
                  (host_long p.is_swapped (long_at got.0 0) == swap_long magic_of_byte_order) _ _
                  (λ _. refl) (λ _. refl)))
            (λ _ _.
              guard-Returns (Follows budget p)
                (host_short p.is_swapped (short_at got.0 4) == version_number)
                (unknown_version (host_short p.is_swapped (short_at got.0 4))) _ refl
                (λ _. (
                  record {
                    buffered = valid.buffered;
                    listed = valid.listed;
                    counted = omega arith;
                    bounded = omega (arith, valid.bounded);
                    precise = valid.precise;
                    known = λ i h. absurd (omega arith);
                  },
                  omega arith,
                ))))
