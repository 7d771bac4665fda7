-- ===== src/Savefile/Dump.antt =====
-- sf-pcap.c: writing a savefile.
use gap16g_libpcap.Base.{ℕ, ◌^◌, ◌%◌, Bool, List, ◌++◌, ◌==◌, if◌then◌else◌, take, bit_or}
use gap16g_libpcap.Savefile.Bytes.{long_bytes, short_bytes}
use gap16g_libpcap.Savefile.Linktype.{dlt_to_linktype, minus_one}
use gap16g_libpcap.Savefile.Header.{tcpdump_magic, nsec_tcpdump_magic, precision_nano}
use gap16g_libpcap.Savefile.Packet.{PacketHeader}

-- The fields of the `pcap_t` that is dumped.
pub record Source : Type 0 where
  pub activated : Bool
  pub tstamp_precision : ℕ
  pub dlt : ℕ
  pub linktype_ext : ℕ
  pub tzoff : ℕ
  pub snapshot : ℕ

-- What opening a dump gives: an error, or a file with these bytes.
pub data Dump : Type 0 where
  not_activated unsupported unopened unwritten : Dump
  dumping : List ℕ → Dump

abbrev pub magic_of : ℕ → ℕ
magic_of precision = if precision == precision_nano then nsec_tcpdump_magic else tcpdump_magic

abbrev pub sf_write_header : Source → ℕ → List ℕ
sf_write_header p linktype =
    long_bytes (magic_of p.tstamp_precision)
    ++ short_bytes 2
    ++ short_bytes 4
    ++ long_bytes p.tzoff
    ++ long_bytes 0
    ++ long_bytes p.snapshot
    ++ long_bytes linktype

-- `wrote` says that `fwrite` succeeds.
abbrev pub pcap_setup_dump : Bool → Source → ℕ → Dump
pcap_setup_dump wrote p linktype = if wrote then dumping (sf_write_header p linktype) else unwritten

unfoldable pub pcap_dump_fopen : Bool → Source → Dump
pcap_dump_fopen wrote p =
    if dlt_to_linktype p.dlt == minus_one
    then unsupported
    else pcap_setup_dump wrote p (bit_or (dlt_to_linktype p.dlt) p.linktype_ext)

-- `found` says that `fopen` succeeds, or that the name is "-".
unfoldable pub pcap_dump_open : Bool → Bool → Source → Dump
pcap_dump_open found wrote p =
    if p.activated
    then (if dlt_to_linktype p.dlt == minus_one
        then unsupported
        else if found
        then pcap_setup_dump wrote p (bit_or (dlt_to_linktype p.dlt) p.linktype_ext)
        else unopened)
    else not_activated

-- The bytes that a call adds to the file.
unfoldable pub pcap_dump : PacketHeader → List ℕ → List ℕ
pcap_dump h sp =
    long_bytes (h.tv_sec % 2 ^ 32)
    ++ long_bytes (h.tv_usec % 2 ^ 32)
    ++ long_bytes h.caplen
    ++ long_bytes h.len
    ++ take h.caplen sp
