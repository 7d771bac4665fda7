-- ===== src/Savefile/Ng/Next.antt =====
-- sf-pcap-ng.c: reading the next packet of a pcap-ng savefile.
--
-- The number of bytes left in the file bounds the loop. `tv_sec` and `tv_usec` have 64 bits.
use gap16g_libpcap.Base.{
  ℕ, zero, suc, ◌+◌, ◌*◌, ◌/◌, ◌%◌, ◌^◌, Bool, true, false, List, ◌==◌, ltb, leb, if◌then◌else◌,
  length, Option, none, some, get_elem?,
}
use gap16g_libpcap.Savefile.Bytes.{long_at, short_at, swap_long, host_long, host_short}
use gap16g_libpcap.Savefile.Header.{Scale, pass_through, scale_up, scale_down}
use gap16g_libpcap.Savefile.Packet.{PacketHeader, dlt_usb_linux, dlt_usb_linux_mmapped}
use gap16g_libpcap.Savefile.Usb.{swap_linux_usb_header}
use gap16g_libpcap.Savefile.Ng.Answer.{
  Host, unknown_version, different_type, different_snapshot, unknown_interface, mixed_byte_order,
  bad_byte_order, unset_interface, division_by_zero, stuck, Answer, ok, err, ◌>>=◌, guard,
}
use gap16g_libpcap.Savefile.Ng.Block.{Interface, Capture, Cursor, read_block, get_from_block_data}
use gap16g_libpcap.Savefile.Ng.Interface.{add_interface}
use gap16g_libpcap.Savefile.Ng.Open.{
  enhanced, simple, obsolete, interface, section, other, block_kind, description_at, idb_size,
  shb_size, magic_of_byte_order, version_number,
}

-- What a packet block says of its packet: `interface_id`, `t`, `caplen` and `len`.
pub record Arrival : Type 0 where
  pub interface_id : ℕ
  pub t : ℕ
  pub caplen : ℕ
  pub len : ℕ

-- The five words of an Enhanced Packet Block.
unfoldable pub enhanced_at : Bool → List ℕ → Arrival
enhanced_at s b = record {
  interface_id = host_long s (long_at b 0);
  t = host_long s (long_at b 4) * 2 ^ 32 + host_long s (long_at b 8);
  caplen = host_long s (long_at b 12);
  len = host_long s (long_at b 16);
}

-- A Packet Block has the interface in its first two bytes.
unfoldable pub obsolete_at : Bool → List ℕ → Arrival
obsolete_at s b = record {
  interface_id = host_short s (short_at b 0);
  t = host_long s (long_at b 4) * 2 ^ 32 + host_long s (long_at b 8);
  caplen = host_long s (long_at b 12);
  len = host_long s (long_at b 16);
}

unfoldable pub simple_at : Bool → ℕ → List ℕ → Arrival
simple_at s snapshot b = record {
  interface_id = 0;
  t = 0;
  caplen = if ltb snapshot (host_long s (long_at b 0)) then snapshot else host_long s (long_at b 0);
  len = host_long s (long_at b 0);
}

-- The fraction of a second in the resolution of the user.
unfoldable pub scale_frac : Scale → ℕ → ℕ → ℕ → ℕ
scale_frac pass_through user_tsresol tsresol frac = frac
scale_frac scale_up user_tsresol tsresol frac = frac * tsresol % 2 ^ 64 / user_tsresol
scale_frac scale_down user_tsresol tsresol frac = frac * user_tsresol % 2 ^ 64 / tsresol

unfoldable pub stamp : ℕ → Interface → Arrival → PacketHeader
stamp user_tsresol iface a = record {
  tv_sec = (a.t / iface.tsresol + iface.tsoffset) % 2 ^ 64;
  tv_usec = scale_frac iface.scale_type user_tsresol iface.tsresol (a.t % iface.tsresol);
  caplen = a.caplen;
  len = a.len;
}

-- The pseudo-headers in the order of the host.
unfoldable pub convert_header : Bool → ℕ → ℕ → List ℕ → List ℕ
convert_header is_swapped dlt caplen bytes =
    if is_swapped
    then (if dlt == dlt_usb_linux
        then swap_linux_usb_header caplen false bytes
        else if dlt == dlt_usb_linux_mmapped
        then swap_linux_usb_header caplen true bytes
        else bytes)
    else bytes

-- A packet, or the end of the file.
abbrev pub Got : Type 0
Got = Option (PacketHeader × List ℕ) × Capture

abbrev pub deliver : Capture → Cursor → Arrival → Interface → Answer Got
deliver p c a iface =
    if iface.tsresol == 0
    then err division_by_zero
    else get_from_block_data a.caplen c >>= λ got.
        ok
          (some (stamp p.user_tsresol iface a, convert_header p.is_swapped p.dlt a.caplen got.0), p)

-- What is behind the label `found`.
unfoldable pub found : Capture → Cursor → Arrival → Answer Got
found p c a =
    if leb p.ifcount a.interface_id
    then err (unknown_interface a.interface_id)
    else elim (get_elem? p.ifaces a.interface_id) [
      | none ↦ err unset_interface
      | some entry ↦ elim entry [ none ↦ err unset_interface | some iface ↦ deliver p c a iface ]
    ]

unfoldable pub next_interface : Host → Capture → Cursor → Answer Capture
next_interface host p c = get_from_block_data idb_size c >>= λ got.
    guard (p.dlt == (description_at p.is_swapped got.0).linktype)
      (different_type (description_at p.is_swapped got.0).linktype)
      (guard (p.snapshot == (description_at p.is_swapped got.0).snaplen)
        (different_snapshot (description_at p.is_swapped got.0).snaplen)
        (add_interface host p got.1))

abbrev pub check_order : Bool → List ℕ → Answer (Unit {0})
check_order s b =
    if host_long s (long_at b 0) == magic_of_byte_order
    then ok tt
    else if host_long s (long_at b 0) == swap_long magic_of_byte_order
    then err mixed_byte_order
    else err bad_byte_order

unfoldable pub next_section : Capture → Cursor → Answer Capture
next_section p c = get_from_block_data shb_size c >>= λ got. check_order p.is_swapped got.0 >>= λ _.
    guard (host_short p.is_swapped (short_at got.0 4) == version_number)
      (unknown_version (host_short p.is_swapped (short_at got.0 4))) (ok (record p { ifcount = 0 }))

unfoldable pub next_loop : Host → ℕ → Capture → Answer Got
next_loop host zero p = err stuck
next_loop host (suc fuel) p = read_block host p >>= λ got. elim got [
  | none ↦ ok (none, p)
  | some r ↦ elim (block_kind (Cursor.block_type r.0)) [
    | enhanced ↦ get_from_block_data 20 r.0 >>= λ b. found r.1 b.1 (enhanced_at p.is_swapped b.0)
    | simple ↦
        get_from_block_data 4 r.0 >>= λ b. found r.1 b.1 (simple_at p.is_swapped p.snapshot b.0)
    | obsolete ↦ get_from_block_data 20 r.0 >>= λ b. found r.1 b.1 (obsolete_at p.is_swapped b.0)
    | interface ↦ next_interface host r.1 r.0 >>= next_loop host fuel
    | section ↦ next_section r.1 r.0 >>= next_loop host fuel
    | other ↦ next_loop host fuel r.1
  ]
]

unfoldable pub pcap_ng_next_packet : Host → Capture → Answer Got
pcap_ng_next_packet host p = next_loop host (length p.file + 1) p
