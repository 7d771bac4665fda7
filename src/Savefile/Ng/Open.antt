-- ===== src/Savefile/Ng/Open.antt =====
-- sf-pcap-ng.c: the check of the first section and the search for the first interface.
--
-- The number of bytes left in the file bounds the search. `int` fields are bit patterns.
use gap16g_libpcap.Base.{
  ℕ, zero, suc, ◌+◌, ◌-◌, Bool, true, false, List, [], ◌==◌, ltb, max, if◌then◌else◌, length, take,
  drop, Option, none, some,
}
use gap16g_libpcap.Bpf.Packet.{sign_extend}
use gap16g_libpcap.Savefile.Linktype.{linktype_to_dlt}
use gap16g_libpcap.Savefile.Bytes.{long_at, short_at, swap_long, host_long, host_short}
use gap16g_libpcap.Savefile.Header.{precision_micro, precision_nano}
use gap16g_libpcap.Savefile.Ng.Answer.{
  Host, read_error, out_of_memory, short_header, unknown_precision, unknown_version, no_interfaces,
  packet_before_interface, truncated, stuck, Answer, ok, err, ◌>>=◌, guard,
}
use gap16g_libpcap.Savefile.Ng.Block.{
  Capture, Cursor, header_size, trailer_size, read_bytes, read_block, get_from_block_data,
}
use gap16g_libpcap.Savefile.Ng.Interface.{add_interface}

abbrev pub bt_shb : ℕ
bt_shb = 0x0A0D0D0A

abbrev pub bt_idb : ℕ
bt_idb = 1

abbrev pub bt_epb : ℕ
bt_epb = 6

abbrev pub bt_spb : ℕ
bt_spb = 3

abbrev pub bt_pb : ℕ
bt_pb = 2

abbrev pub magic_of_byte_order : ℕ
magic_of_byte_order = 0x1A2B3C4D

abbrev pub version_number : ℕ
version_number = 1

-- The fixed parts of the Section Header Block and the Interface Description Block.
abbrev pub shb_size : ℕ
shb_size = 16

abbrev pub idb_size : ℕ
idb_size = 8

-- The cases of the switches on the type of a block.
pub data BlockKind : Type 0 where
  enhanced simple obsolete interface section other : BlockKind

unfoldable pub block_kind : ℕ → BlockKind
block_kind t =
    if t == bt_epb
    then enhanced
    else if t == bt_spb
    then simple
    else if t == bt_pb
    then obsolete
    else if t == bt_idb
    then interface
    else if t == bt_shb
    then section
    else other

unfoldable pub user_tsresol_of : ℕ → Option ℕ
user_tsresol_of precision =
    if precision == precision_micro
    then some 1000000
    else if precision == precision_nano
    then some 1000000000
    else none

-- The fixed part of an Interface Description Block, in the host's byte order.
pub record Description : Type 0 where
  pub linktype : ℕ
  pub snaplen : ℕ

unfoldable pub description_at : Bool → List ℕ → Description
description_at is_swapped b = record {
  linktype = host_short is_swapped (short_at b 0);
  snaplen = host_long is_swapped (long_at b 4);
}

unfoldable pub first_interface : Host → Capture → Cursor → Answer Capture
first_interface host p c = get_from_block_data idb_size c >>= λ got.
    add_interface host p got.1 >>= λ p'. ok (record p' {
      snapshot = (description_at p.is_swapped got.0).snaplen;
      dlt = linktype_to_dlt (description_at p.is_swapped got.0).linktype;
    })

unfoldable pub find_interface : Host → ℕ → Capture → Answer Capture
find_interface host zero p = err stuck
find_interface host (suc fuel) p = read_block host p >>= λ got. elim got [
  | none ↦ err no_interfaces
  | some r ↦ elim (block_kind (Cursor.block_type r.0)) [
    | interface ↦ first_interface host r.1 r.0
    | enhanced ↦ err packet_before_interface
    | simple ↦ err packet_before_interface
    | obsolete ↦ err packet_before_interface
    | section ↦ find_interface host fuel r.1
    | other ↦ find_interface host fuel r.1
  ]
]

-- A fresh `pcap_t`, with a buffer of `size` bytes.
abbrev pub fresh : Bool → ℕ → ℕ → ℕ → List ℕ → Capture
fresh is_swapped precision user_tsresol size file = record {
  is_swapped = is_swapped;
  version_major = 0;
  version_minor = 0;
  snapshot = 0;
  dlt = 0;
  tstamp_precision = precision;
  user_tsresol = user_tsresol;
  bufsize = size;
  buffer_size = sign_extend size;
  ifcount = 0;
  ifaces_size = 0;
  ifaces = [];
  file = file;
}

-- The rest of the Section Header Block behind its byte-order magic.
unfoldable pub read_section : Host → Capture → ℕ → Answer Capture
read_section host p total_length = read_bytes host (total_length - 12) true p.file >>= λ got.
    elim got [
      | none ↦ err (truncated (total_length - 12) 0)
      | some r ↦
          guard (host_short p.is_swapped (short_at r.0 0) == version_number)
            (unknown_version (host_short p.is_swapped (short_at r.0 0)))
            (ok (record p {
              version_major = host_short p.is_swapped (short_at r.0 0);
              version_minor = host_short p.is_swapped (short_at r.0 2);
              file = r.1;
            }))
    ]

unfoldable pub open_capture : Host → Bool → ℕ → ℕ → List ℕ → Answer Capture
open_capture host is_swapped precision total_length file =
    guard host.env.calloc out_of_memory (elim (user_tsresol_of precision) [
      | none ↦ err (unknown_precision precision)
      | some user_tsresol ↦
          guard (host.env.malloc (sign_extend (max 2048 total_length))) out_of_memory (
            read_section host (fresh is_swapped precision user_tsresol (max 2048 total_length) file)
              total_length
            >>= λ p. find_interface host (length p.file + 1) p)
    ])

unfoldable pub check_section : Host → Bool → ℕ → ℕ → List ℕ → Answer Capture
check_section host is_swapped precision total_length file =
    if ltb total_length (header_size + shb_size + trailer_size)
    then err (short_header total_length)
    else open_capture host is_swapped precision total_length file

-- A file that ends inside the first twelve bytes is no pcap-ng file.
unfoldable pub too_short : Host → Answer (Option Capture)
too_short host = if host.env.ferror then err read_error else ok none

unfoldable pub check_byte_order : Host → ℕ → ℕ → ℕ → List ℕ → Answer (Option Capture)
check_byte_order host precision total_length magic file =
    if magic == magic_of_byte_order
    then (check_section host false precision total_length file >>= λ p. ok (some p))
    else if swap_long magic == magic_of_byte_order
    then (check_section host true precision (swap_long total_length) file >>= λ p. ok (some p))
    else ok none

unfoldable pub pcap_ng_check_header : Host → ℕ → ℕ → List ℕ → Answer (Option Capture)
pcap_ng_check_header host magic precision file =
    if magic == bt_shb
    then (if length (take 4 file) == 4
        then (if length (take 4 (drop 4 file)) == 4
            then check_byte_order host precision (long_at file 0) (long_at (drop 4 file) 0)
                (drop 8 file)
            else too_short host)
        else too_short host)
    else ok none
