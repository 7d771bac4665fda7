-- ===== src/Savefile/Fits.antt =====
-- sf-pcap.c: the length of a packet that is read, and the packet buffer.
use gap16g_libpcap.Base.{
  ℕ, ◌+◌, ◌*◌, ◌/◌, ◌≤◌, ◌<◌, ◌≡◌, ◌∙◌, arith, true, false, List, ltb, ◌==◌, ==_iff, length, take,
  inl, inr, Bool-cases, ltb→lt,
}
use gap16g_libpcap.Savefile.Bytes.{Env}
use gap16g_libpcap.Savefile.Header.{Pcap}
use gap16g_libpcap.Savefile.Packet.{
  PacketHeader, Next, packet, Reader, convert, read_data, salvage, read_body, no_header,
  pcap_next_packet, dlt_usb_linux, dlt_usb_linux_mmapped,
}
use gap16g_libpcap.Savefile.Usb.Bounds.{swap_linux_usb_header-IsWithin, length-take}

-- A packet has as many bytes as its header says, and these fit into the buffer.
abbrev pub Fits : ℕ → Next → Type 0
Fits bufsize (packet h bytes) = (h.caplen ≤ bufsize) × (length bytes ≡ h.caplen)
Fits bufsize _ = Unit

length-convert :
    (p : Pcap) (bytes : List ℕ) (n : ℕ) → length bytes ≡ n → length (convert p n bytes) ≡ n
length-convert p bytes n e = elim (Bool-cases p.is_swapped) [
  | inr native ↦ rw native e
  | inl foreign ↦ elim (Bool-cases (p.dlt == dlt_usb_linux)) [
    | inl usb ↦
        rw (foreign, usb) ((swap_linux_usb_header-IsWithin n false bytes (omega arith)).0 ∙ e)
    | inr other ↦ elim (Bool-cases (p.dlt == dlt_usb_linux_mmapped)) [
      | inl usb ↦
          rw (foreign, other, usb)
            ((swap_linux_usb_header-IsWithin n true bytes (omega arith)).0 ∙ e)
      | inr none ↦ rw (foreign, other, none) e
    ]
  ]
]

module _ (env : Env) (p : Pcap) where
  read_data-Fits :
      (h : PacketHeader) (n keep : ℕ) (file : List ℕ) (tsize : ℕ)
      → keep ≤ n
      → keep ≤ p.bufsize
      → Fits p.bufsize (read_data env p h n keep file tsize).0
  unfolding read_data
  read_data-Fits h n keep file tsize within fits = elim (Bool-cases (length (take n file) == n)) [
    | inl whole ↦
        let got = (==_iff (length (take n file)) n).0 whole in
        rw whole
          ((fits, length-convert p _ keep (length-take keep (take n file) (omega (arith, got)))))
    | inr short ↦ rw short tt
  ]

  salvage-Fits :
      (h : PacketHeader) (file : List ℕ) (tsize : ℕ)
      → p.bufsize < h.caplen
      → Fits p.bufsize (salvage env p h file tsize).0
  unfolding salvage
  salvage-Fits h file tsize big = elim (Bool-cases (ltb 65535 h.caplen)) [
    | inl bogus ↦ rw bogus tt
    | inr sane ↦ elim (Bool-cases (ltb tsize h.caplen)) [
      | inr holds ↦
          rw (sane, holds)
            (read_data-Fits h h.caplen p.bufsize file tsize (omega arith) (omega arith))
      | inl grow ↦ elim (Bool-cases (env.malloc ((h.caplen + 1023) / 1024 * 1024))) [
        | inl ok ↦
            rw (sane, grow, ok)
              (read_data-Fits h h.caplen p.bufsize file _ (omega arith) (omega arith))
        | inr failing ↦ rw (sane, grow, failing) tt
      ]
    ]
  ]

  read_body-Fits :
      (h : PacketHeader) (file : List ℕ) (tsize : ℕ)
      → Fits p.bufsize (read_body env p h file tsize).0
  unfolding read_body
  read_body-Fits h file tsize = elim (Bool-cases (ltb p.bufsize h.caplen)) [
    | inl big ↦ rw big (salvage-Fits h file tsize (ltb→lt _ _ big))
    | inr fits ↦
        rw fits (read_data-Fits h h.caplen h.caplen file tsize (omega arith) (ground arith))
  ]

  no_header-Fits : (got : ℕ) → Fits p.bufsize (no_header env p got)
  unfolding no_header
  no_header-Fits got = ground arith

  -- Whatever the file and the fields of the reader, a packet that is returned has exactly `caplen`
  -- bytes, and they fit into the packet buffer.
  pub pcap_next_packet-Fits : (r : Reader) → Fits p.bufsize (pcap_next_packet env p r).0
  unfolding pcap_next_packet
  pcap_next_packet-Fits r = elim (Bool-cases (length (take p.hdrsize r.file) == p.hdrsize)) [
    | inl whole ↦ rw whole (read_body-Fits _ _ r.tsize)
    | inr short ↦ rw short (no_header-Fits _)
  ]
