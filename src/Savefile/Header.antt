-- ===== src/Savefile/Header.antt =====
-- sf-pcap.c: the file header of a savefile, read into a `pcap_t`.
--
-- `int` fields are bit patterns. The overflow of `p->snapshot + 14` wraps.
use gap16g_libpcap.Base.{
  ℕ, ◌+◌, ◌^◌, ◌%◌, Bool, true, false, List, ◌||◌, ◌==◌, ltb, leb, if◌then◌else◌, length, take,
  drop, bit_and, Option, none, some,
}
use gap16g_libpcap.Savefile.Linktype.{linktype_to_dlt}
use gap16g_libpcap.Savefile.Bytes.{
  long_at, short_at, swap_long, host_long, host_short, Env, Failure, archaic, out_of_memory,
  unknown_precision, short_read,
}

abbrev pub tcpdump_magic : ℕ
tcpdump_magic = 0xa1b2c3d4

abbrev pub kuznetzov_tcpdump_magic : ℕ
kuznetzov_tcpdump_magic = 0xa1b2cd34

abbrev pub nsec_tcpdump_magic : ℕ
nsec_tcpdump_magic = 0xa1b23c4d

abbrev pub precision_micro : ℕ
precision_micro = 0

abbrev pub precision_nano : ℕ
precision_nano = 1

abbrev pub dlt_en10mb : ℕ
dlt_en10mb = 1

-- LT_LINKTYPE and LT_LINKTYPE_EXT.
abbrev pub lt_linktype : ℕ → ℕ
lt_linktype x = bit_and x 0x03FFFFFF

abbrev pub lt_linktype_ext : ℕ → ℕ
lt_linktype_ext x = bit_and x 0xFC000000

pub data Swapped : Type 0 where
  not_swapped swapped maybe_swapped : Swapped

pub data Scale : Type 0 where
  pass_through scale_up scale_down : Scale

-- `struct pcap_file_header`.
pub record FileHeader : Type 0 where
  pub magic : ℕ
  pub version_major : ℕ
  pub version_minor : ℕ
  pub thiszone : ℕ
  pub snaplen : ℕ
  pub linktype : ℕ

-- The fields of `pcap_t` and `struct pcap_sf` that a savefile sets.
pub record Pcap : Type 0 where
  pub is_swapped : Bool
  pub version_major : ℕ
  pub version_minor : ℕ
  pub tzoff : ℕ
  pub snapshot : ℕ
  pub dlt : ℕ
  pub linktype_ext : ℕ
  pub tstamp_precision : ℕ
  pub scale_type : Scale
  pub lengths_swapped : Swapped
  pub hdrsize : ℕ
  pub bufsize : ℕ

-- What a check of the header gives: another format, an error, or the reader and the rest of the file.
pub data Checked : Type 0 where
  not_pcap : Checked
  failed : Failure → Checked
  opened : Pcap → List ℕ → Checked

abbrev pub is_magic : ℕ → Bool
is_magic m = m == tcpdump_magic || (m == kuznetzov_tcpdump_magic || m == nsec_tcpdump_magic)

-- The 20 bytes behind the magic number; `sigfigs` at 8 is not used.
abbrev pub header_of : ℕ → Bool → List ℕ → FileHeader
header_of magic s b = record {
  magic = magic;
  version_major = host_short s (short_at b 0);
  version_minor = host_short s (short_at b 2);
  thiszone = host_long s (long_at b 4);
  snaplen = host_long s (long_at b 12);
  linktype = host_long s (long_at b 16);
}

unfoldable pub scale_of : ℕ → ℕ → Option Scale
scale_of precision magic =
    if precision == precision_micro
    then some (if magic == nsec_tcpdump_magic then scale_down else pass_through)
    else if precision == precision_nano
    then some (if magic == nsec_tcpdump_magic then pass_through else scale_up)
    else none

unfoldable pub lengths_of : ℕ → ℕ → Swapped
lengths_of major minor =
    if major == 2
    then (if ltb minor 3 then swapped else if minor == 3 then maybe_swapped else not_swapped)
    else if major == 543
    then swapped
    else not_swapped

-- The sizes of `struct pcap_sf_patched_pkthdr` and `struct pcap_sf_pkthdr`.
abbrev pub hdrsize_of : ℕ → ℕ
hdrsize_of magic = if magic == kuznetzov_tcpdump_magic then 24 else 16

unfoldable pub snapshot_of : ℕ → ℕ → ℕ → ℕ
snapshot_of magic dlt snaplen =
    if magic == kuznetzov_tcpdump_magic
    then (if dlt == dlt_en10mb then (snaplen + 14) % 2 ^ 32 else snaplen)
    else snaplen

-- `bufsize <= 0` of an `int`.
unfoldable pub bufsize_of : ℕ → ℕ
bufsize_of snapshot =
    if snapshot == 0 then 65536 else if leb (2 ^ 31) snapshot then 65536 else snapshot

abbrev pub pcap_of : Bool → ℕ → FileHeader → Scale → Pcap
pcap_of s precision hdr scale =
    let dlt = linktype_to_dlt (lt_linktype hdr.linktype) in
    let snapshot = snapshot_of hdr.magic dlt hdr.snaplen in
    record {
      is_swapped = s;
      version_major = hdr.version_major;
      version_minor = hdr.version_minor;
      tzoff = hdr.thiszone;
      snapshot = snapshot;
      dlt = dlt;
      linktype_ext = lt_linktype_ext hdr.linktype;
      tstamp_precision = precision;
      scale_type = scale;
      lengths_swapped = lengths_of hdr.version_major hdr.version_minor;
      hdrsize = hdrsize_of hdr.magic;
      bufsize = bufsize_of snapshot;
    }

abbrev pub with_buffer : Env → Pcap → List ℕ → Checked
with_buffer env p file = if env.malloc p.bufsize then opened p file else failed out_of_memory

abbrev pub with_scale : Env → Bool → ℕ → FileHeader → List ℕ → Option Scale → Checked
with_scale env s precision hdr file none = failed (unknown_precision precision)
with_scale env s precision hdr file (some scale) =
    with_buffer env (pcap_of s precision hdr scale) file

unfoldable pub open_header : Env → Bool → ℕ → FileHeader → List ℕ → Checked
open_header env s precision hdr file =
    if ltb hdr.version_major 2
    then failed archaic
    else if env.calloc
    then with_scale env s precision hdr file (scale_of precision hdr.magic)
    else failed out_of_memory

unfoldable pub read_header : Env → ℕ → Bool → ℕ → List ℕ → Checked
read_header env precision s magic file =
    if length (take 20 file) == 20
    then open_header env s precision (header_of magic s (take 20 file)) (drop 20 file)
    else failed (short_read env 24 (length (take 20 file)))

unfoldable pub pcap_check_header : Env → ℕ → ℕ → List ℕ → Checked
pcap_check_header env precision magic file =
    if is_magic magic
    then read_header env precision false magic file
    else if is_magic (swap_long magic)
    then read_header env precision true (swap_long magic) file
    else not_pcap

-- The first half of `pcap_fopen_offline_with_tstamp_precision`, with this format alone.
unfoldable pub open_offline : Env → ℕ → List ℕ → Checked
open_offline env precision file =
    if length (take 4 file) == 4
    then pcap_check_header env precision (long_at (take 4 file) 0) (drop 4 file)
    else failed (short_read env 4 (length (take 4 file)))
