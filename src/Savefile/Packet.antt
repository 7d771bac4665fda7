-- ===== src/Savefile/Packet.antt =====
-- sf-pcap.c: reading the next packet of a savefile.
--
-- `tv_sec` and `tv_usec` are 64-bit `long`s; a `size_t` has 64 bits.
use gap16g_libpcap.Base.{
  ℕ, ◌+◌, ◌-◌, ◌*◌, ◌/◌, ◌^◌, ◌%◌, Bool, true, false, List, ◌==◌, ltb, leb, if◌then◌else◌, length,
  take, drop,
}
use gap16g_libpcap.Bpf.Packet.{sign_extend}
use gap16g_libpcap.Savefile.Bytes.{
  long_at, host_long, Env, Failure, read_error, truncated, out_of_memory, bogus_header, short_read,
}
use gap16g_libpcap.Savefile.Header.{
  Pcap, Scale, pass_through, scale_up, scale_down, Swapped, not_swapped, swapped, maybe_swapped,
}
use gap16g_libpcap.Savefile.Usb.{swap_linux_usb_header}

-- `struct pcap_pkthdr`.
pub record PacketHeader : Type 0 where
  pub tv_sec : ℕ
  pub tv_usec : ℕ
  pub caplen : ℕ
  pub len : ℕ

pub data Next : Type 0 where
  end_of_file : Next
  failed : Failure → Next
  packet : PacketHeader → List ℕ → Next

-- What a call leaves behind: the rest of the file and the size of the salvage buffer, `tsize`.
pub record Reader : Type 0 where
  pub file : List ℕ
  pub tsize : ℕ

abbrev pub reader : List ℕ → ℕ → Reader
reader file tsize = record { file = file; tsize = tsize }

-- The header as it stands in the file, in the host's byte order.
abbrev pub header_at : Bool → List ℕ → PacketHeader
header_at s b = record {
  tv_sec = sign_extend (host_long s (long_at b 0));
  tv_usec = sign_extend (host_long s (long_at b 4));
  caplen = host_long s (long_at b 8);
  len = host_long s (long_at b 12);
}

-- A `long` divided by 1000, rounded towards 0.
abbrev pub thousandth : ℕ → ℕ
thousandth v = if ltb v (2 ^ 63) then v / 1000 else (2 ^ 64 - (2 ^ 64 - v) / 1000) % 2 ^ 64

abbrev pub scale_usec : Scale → ℕ → ℕ
scale_usec pass_through v = v
scale_usec scale_up v = v * 1000 % 2 ^ 64
scale_usec scale_down v = thousandth v

abbrev pub scale : Scale → PacketHeader → PacketHeader
scale how h = record {
  tv_sec = h.tv_sec;
  tv_usec = scale_usec how h.tv_usec;
  caplen = h.caplen;
  len = h.len;
}

abbrev pub exchange : PacketHeader → PacketHeader
exchange h = record { tv_sec = h.tv_sec; tv_usec = h.tv_usec; caplen = h.len; len = h.caplen }

abbrev pub order_lengths : Swapped → PacketHeader → PacketHeader
order_lengths not_swapped h = h
order_lengths maybe_swapped h = if leb h.caplen h.len then h else exchange h
order_lengths swapped h = exchange h

abbrev pub with_caplen : PacketHeader → ℕ → PacketHeader
with_caplen h n = record { tv_sec = h.tv_sec; tv_usec = h.tv_usec; caplen = n; len = h.len }

abbrev pub dlt_usb_linux : ℕ
dlt_usb_linux = 189

abbrev pub dlt_usb_linux_mmapped : ℕ
dlt_usb_linux_mmapped = 220

-- The pseudo-headers in the order of the host.
abbrev pub convert : Pcap → ℕ → List ℕ → List ℕ
convert p caplen bytes =
    if p.is_swapped
    then (if p.dlt == dlt_usb_linux
        then swap_linux_usb_header caplen false bytes
        else if p.dlt == dlt_usb_linux_mmapped
        then swap_linux_usb_header caplen true bytes
        else bytes)
    else bytes

module _ (env : Env) (p : Pcap) where
  -- `n` bytes of data, of which the first `keep` are kept.
  unfoldable pub read_data : PacketHeader → ℕ → ℕ → List ℕ → ℕ → Next × Reader
  read_data h n keep file tsize =
      if length (take n file) == n
      then (
        packet (with_caplen h keep) (convert p keep (take keep (take n file))),
        reader (drop n file) tsize,
      )
      else (failed (short_read env n (length (take n file))), reader (drop n file) tsize)

  -- More data than the buffer holds: through the salvage buffer, which grows by whole kilobytes.
  unfoldable pub salvage : PacketHeader → List ℕ → ℕ → Next × Reader
  salvage h file tsize =
      if ltb 65535 h.caplen
      then (failed bogus_header, reader file tsize)
      else if ltb tsize h.caplen
      then (if env.malloc ((h.caplen + 1023) / 1024 * 1024)
          then read_data h h.caplen p.bufsize file ((h.caplen + 1023) / 1024 * 1024)
          else (failed out_of_memory, reader file 0))
      else read_data h h.caplen p.bufsize file tsize

  unfoldable pub read_body : PacketHeader → List ℕ → ℕ → Next × Reader
  read_body h file tsize =
      if ltb p.bufsize h.caplen
      then salvage h file tsize
      else read_data h h.caplen h.caplen file tsize

  unfoldable pub no_header : ℕ → Next
  no_header got =
      if env.ferror
      then failed read_error
      else if got == 0
      then end_of_file
      else failed (truncated p.hdrsize got)

  unfoldable pub pcap_next_packet : Reader → Next × Reader
  pcap_next_packet r =
      let head = take p.hdrsize r.file in
      let rest = drop p.hdrsize r.file in
      if length head == p.hdrsize
      then read_body
          (order_lengths p.lengths_swapped (scale p.scale_type (header_at p.is_swapped head))) rest
          r.tsize
      else (no_header (length head), reader rest r.tsize)
