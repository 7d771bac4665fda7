-- ===== src/Savefile/Reread.antt =====
-- sf-pcap.c: the parts of a dumped file, under the functions that read it.
use gap16g_libpcap.Base.{
  ℕ, zero, suc, ◌^◌, ◌%◌, ◌≤◌, ◌<◌, ◌≡◌, refl, ap, arith, true, false, List, [], ◌∷◌, ◌++◌, ◌==◌,
  ==_iff, ltb, length, take, drop, bit_and,
}
use mathlib.Core.Path.{subst}
use gap16g_libpcap.Bpf.Packet.{sign_extend}
use gap16g_libpcap.Savefile.Bytes.{Env, long_bytes-value, take-append, drop-append}
use gap16g_libpcap.Savefile.Linktype.{linktype_to_dlt}
use gap16g_libpcap.Savefile.Header.{
  Pcap, opened, open_offline, pcap_check_header, read_header, open_header, scale_of, lengths_of,
  snapshot_of, bufsize_of, pass_through, not_swapped,
}
use gap16g_libpcap.Savefile.Packet.{
  PacketHeader, packet, reader, header_at, pcap_next_packet, read_body, read_data,
}
use gap16g_libpcap.Savefile.Dump.{Source, sf_write_header, pcap_dump}

-- A packet: its header and its bytes.
abbrev pub Captured : Type 0
Captured = PacketHeader × List ℕ

-- The time stamp is one of a 32-bit signed word, there are `caplen` bytes, and they fit.
abbrev pub IsCaptured : ℕ → Captured → Type 0
IsCaptured snapshot (h, bytes) =
    (sign_extend (h.tv_sec % 2 ^ 32) ≡ h.tv_sec)
    × (sign_extend (h.tv_usec % 2 ^ 32) ≡ h.tv_usec)
    × (h.caplen < 2 ^ 32)
    × (h.len < 2 ^ 32)
    × (h.caplen ≤ snapshot)
    × (length bytes ≡ h.caplen)

-- What reading a file that was dumped from `s` starts with.
abbrev pub reads_as : Source → Pcap
reads_as s = record {
  is_swapped = false;
  version_major = 2;
  version_minor = 4;
  tzoff = s.tzoff;
  snapshot = s.snapshot;
  dlt = s.dlt;
  linktype_ext = s.linktype_ext;
  tstamp_precision = s.tstamp_precision;
  scale_type = pass_through;
  lengths_swapped = not_swapped;
  hdrsize = 16;
  bufsize = s.snapshot;
}

header_at-pcap_dump :
    (n : ℕ) (h : PacketHeader) (bytes rest : List ℕ)
    → IsCaptured n (h, bytes)
    → header_at false (take 16 (pcap_dump h bytes ++ rest)) ≡ h
unfolding pcap_dump
header_at-pcap_dump n h bytes rest fine =
    rw
      (
        long_bytes-value (h.tv_sec % 2 ^ 32) (omega arith),
        long_bytes-value (h.tv_usec % 2 ^ 32) (omega arith),
        long_bytes-value h.caplen fine.2,
        long_bytes-value h.len fine.3,
        fine.0,
        fine.1,
      )
      refl

pub take-length : (xs : List ℕ) (n : ℕ) → length xs ≡ n → take n xs ≡ xs
take-length [] zero e = refl
take-length [] (suc n) e = absurd (omega arith)
take-length (x ∷ xs) zero e = absurd (omega arith)
take-length (x ∷ xs) (suc n) e = ap (λ ys. x ∷ ys) (take-length xs n (omega arith))

pub take-all : (xs ys : List ℕ) (n : ℕ) → length xs ≡ n → take n (xs ++ ys) ≡ xs
take-all xs ys n e = subst (λ i. take i (xs ++ ys) ≡ xs) e (take-append xs ys)

pub drop-all : (xs ys : List ℕ) (n : ℕ) → length xs ≡ n → drop n (xs ++ ys) ≡ ys
drop-all xs ys n e = subst (λ i. drop i (xs ++ ys) ≡ ys) e (drop-append xs ys)

drop-pcap_dump :
    (h : PacketHeader) (bytes rest : List ℕ)
    → length bytes ≡ h.caplen
    → drop 16 (pcap_dump h bytes ++ rest) ≡ bytes ++ rest
unfolding pcap_dump
drop-pcap_dump h bytes rest e = ap (λ xs. xs ++ rest) (take-length bytes h.caplen e)

length-head :
    (h : PacketHeader) (bytes rest : List ℕ) → length (take 16 (pcap_dump h bytes ++ rest)) ≡ 16
unfolding pcap_dump
length-head h bytes rest = refl

bufsize_of-value : (n : ℕ) → 0 < n → n < 2 ^ 31 → bufsize_of n ≡ n
unfolding bufsize_of
bufsize_of-value n p q = ground arith

module _ (env : Env) (s : Source) where
  read_body-all :
      (h : PacketHeader) (bytes rest : List ℕ) (t : ℕ)
      → h.caplen ≤ s.snapshot
      → length bytes ≡ h.caplen
      → read_body env (reads_as s) h (bytes ++ rest) t ≡ (packet h bytes, reader rest t)
  unfolding read_body read_data
  read_body-all h bytes rest t fits e =
      let small : ltb s.snapshot h.caplen ≡ false = ground arith in
      let whole : (h.caplen == h.caplen) ≡ true = (==_iff h.caplen h.caplen).1 refl in
      rw
        (
          small,
          take-all bytes rest h.caplen e,
          drop-all bytes rest h.caplen e,
          e,
          whole,
          take-length bytes h.caplen e,
        )
        refl

  pub next_packet-pcap_dump :
      (h : PacketHeader) (bytes rest : List ℕ) (t : ℕ)
      → IsCaptured s.snapshot (h, bytes)
      → pcap_next_packet env (reads_as s) (reader (pcap_dump h bytes ++ rest) t)
        ≡ (packet h bytes, reader rest t)
  unfolding pcap_next_packet
  next_packet-pcap_dump h bytes rest t fine =
      rw
        (
          length-head h bytes rest,
          header_at-pcap_dump s.snapshot h bytes rest fine,
          drop-pcap_dump h bytes rest fine.5,
        )
        (read_body-all h bytes rest t fine.4 fine.5)

  pub open_header-sf_write_header :
      (precision linktype : ℕ) (rest : List ℕ)
      → s.tstamp_precision ≡ precision
      → precision < 2
      → linktype < 2 ^ 32
      → s.tzoff < 2 ^ 32
      → s.snapshot < 2 ^ 31
      → 0 < s.snapshot
      → env.calloc ≡ true
      → env.malloc s.snapshot ≡ true
      → linktype_to_dlt (bit_and linktype 0x03FFFFFF) ≡ s.dlt
      → bit_and linktype 0xFC000000 ≡ s.linktype_ext
      → open_offline env precision (sf_write_header s linktype ++ rest) ≡ opened (reads_as s) rest
  unfolding open_offline pcap_check_header read_header open_header scale_of lengths_of snapshot_of
  open_header-sf_write_header zero linktype rest e p l z n pos ok room type ext =
      rw
        (
          e,
          ok,
          long_bytes-value s.tzoff z,
          long_bytes-value s.snapshot (omega arith),
          long_bytes-value linktype l,
          bufsize_of-value s.snapshot pos n,
          room,
          type,
          ext,
        )
        refl
  open_header-sf_write_header (suc zero) linktype rest e p l z n pos ok room type ext =
      rw
        (
          e,
          ok,
          long_bytes-value s.tzoff z,
          long_bytes-value s.snapshot (omega arith),
          long_bytes-value linktype l,
          bufsize_of-value s.snapshot pos n,
          room,
          type,
          ext,
        )
        refl
  open_header-sf_write_header (suc (suc precision)) linktype rest e p l z n pos ok room type ext =
      absurd (omega arith)
