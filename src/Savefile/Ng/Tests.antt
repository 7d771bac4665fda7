-- ===== src/Savefile/Ng/Tests.antt =====
-- sf-pcap-ng.c and savefile.c: the theorems at concrete inputs, and a file that is opened and read.
use gap16g_libpcap.Base.{
  ℕ, zero, suc, ◌*◌, ◌≤◌, ◌<◌, ◌≡◌, refl, arith, true, false, List, [], ◌∷◌, ◌++◌, length, some,
  inl,
}
use gap16g_libpcap.Savefile.Bytes.{long_bytes, short_bytes}
use gap16g_libpcap.Savefile.Linktype.{linktype_to_dlt}
use gap16g_libpcap.Savefile.Header.{scale_up, scale_down, pcap_check_header}
use gap16g_libpcap.Savefile.Ng.Answer.{
  Host, ok, err, different_type, bad_resolution_length, unset_interface,
}
use gap16g_libpcap.Savefile.Ng.Block.{
  Interface, Capture, read_bytes, read_sized, read_block, grow_buffer, get_from_block_data,
  get_opthdr_from_block_data, get_optvalue_from_block_data,
}
use gap16g_libpcap.Savefile.Ng.Idb.{
  process_idb_options, options_loop, option_kind, take_tsresol, resolution, power_of_10,
}
use gap16g_libpcap.Savefile.Ng.Interface.{
  add_interface, add_interface_leaves, grow_ifaces, resize, scale_for, scale_to,
}
use gap16g_libpcap.Savefile.Ng.Open.{
  bt_shb, bt_epb, bt_idb, pcap_ng_check_header, check_byte_order, check_section, open_capture,
  user_tsresol_of, read_section, find_interface, first_interface, block_kind, description_at,
}
use gap16g_libpcap.Savefile.Ng.Next.{Arrival, stamp, pcap_ng_next_packet}
use gap16g_libpcap.Savefile.Ng.Returns.{Returns, Optional}
use gap16g_libpcap.Savefile.Ng.Known.{IsValid, IsReady, AllKnown}
use gap16g_libpcap.Savefile.Ng.Steps.{Gives}
use gap16g_libpcap.Savefile.Ng.Sound.{pcap_ng_next_packet-Returns}
use gap16g_libpcap.Savefile.Ng.Opened.{pcap_ng_check_header-Returns}
use gap16g_libpcap.Savefile.Ng.Scaling.{IsFloor, stamp-IsFloor, stamp-coarse}
use gap16g_libpcap.Savefile.Ng.Written.{block}
use gap16g_libpcap.Savefile.Ng.Reread.{epb_block, IsWritten}
use gap16g_libpcap.Savefile.Ng.Sequence.{
  Recorded, IsRecorded, blocks, Yields, pcap_ng_next_packet-Yields,
}
use gap16g_libpcap.Savefile.Ng.Second.{idb, pcap_ng_next_packet-idb}
use gap16g_libpcap.Savefile.Ng.Formats.{
  as_pcap_ng, check_headers, fopen_offline, try_formats, try_pcap, try_pcap_ng,
}
use gap16g_libpcap.Savefile.Ng.Failed.{
  before_failure, at_interface, in_block, pcap_ng_next_packet-failed,
}

abbrev working : Host
working = record {
  env = record { ferror = false; calloc = true; malloc = λ n. true };
  realloc = λ n. true;
  wide_shift = λ k. 1;
}

-- A section of its own, without its type.
abbrev section_rest : List ℕ
section_rest =
    long_bytes 28
    ++ long_bytes 0x1A2B3C4D
    ++ short_bytes 1
    ++ short_bytes 0
    ++ long_bytes 0
    ++ long_bytes 0
    ++ long_bytes 28

-- if_tsresol of 3 digits, and the end of the options.
abbrev in_milliseconds : List ℕ
in_milliseconds = short_bytes 9 ++ short_bytes 1 ++ 3 ∷ 0 ∷ 0 ∷ 0 ∷ 0 ∷ 0 ∷ 0 ∷ 0 ∷ []

-- 5.25 seconds in milliseconds.
abbrev arrival : Arrival
arrival = record { interface_id = 0; t = 5250; caplen = 3; len = 60 }

abbrev raw_interface : List ℕ
raw_interface = block false bt_idb (idb false 101 96 ++ in_milliseconds)

abbrev one_packet : List ℕ
one_packet = block false bt_epb (epb_block false arrival (7 ∷ 8 ∷ 9 ∷ []) (0 ∷ []))

abbrev milliseconds : Interface
milliseconds = record { tsresol = 1000; tsoffset = 0; scale_type = scale_up }

-- What a file of raw IP in milliseconds is opened as by a user of microseconds.
abbrev raw_capture : List ℕ → Capture
raw_capture file = record {
  is_swapped = false;
  version_major = 1;
  version_minor = 0;
  snapshot = 96;
  dlt = 12;
  tstamp_precision = 0;
  user_tsresol = 1000000;
  bufsize = 2048;
  buffer_size = 2048;
  ifcount = 1;
  ifaces_size = 1;
  ifaces = some milliseconds ∷ [];
  file = file;
}

check_example :
    pcap_ng_check_header working bt_shb 0 (section_rest ++ raw_interface ++ one_packet)
    ≡ ok (some (raw_capture one_packet))
unfolding pcap_ng_check_header check_byte_order check_section open_capture user_tsresol_of
    read_section read_bytes find_interface read_block read_sized grow_buffer block_kind
    first_interface description_at get_from_block_data add_interface grow_ifaces resize scale_for
    scale_to process_idb_options options_loop get_opthdr_from_block_data
    get_optvalue_from_block_data option_kind take_tsresol resolution power_of_10 linktype_to_dlt
check_example = refl

milliseconds-IsReady : IsReady 1000000 milliseconds
unfolding scale_to
milliseconds-IsReady = record { positive = omega arith; narrow = omega arith; scaled = refl }

first_known : AllKnown 1000000 1 (some milliseconds ∷ [])
first_known zero h = milliseconds-IsReady
first_known (suc i) h = absurd (omega arith)

raw_capture-IsValid : (file : List ℕ) → length file ≤ 1000 → IsValid 2000 (raw_capture file)
unfolding user_tsresol_of scale_to
raw_capture-IsValid file short = record {
  buffered = omega arith;
  listed = refl;
  counted = omega arith;
  bounded = omega arith;
  precise = refl;
  known = first_known;
}

pcap_ng_next_packet-Returns_example :
    Returns (Gives 2000 (length one_packet)) (pcap_ng_next_packet working (raw_capture one_packet))
pcap_ng_next_packet-Returns_example =
    pcap_ng_next_packet-Returns working 2000 (omega arith) (raw_capture one_packet)
      (raw_capture-IsValid one_packet (omega arith))

pcap_ng_check_header-Returns_example :
    Returns
      (Optional (IsValid (length (section_rest ++ raw_interface ++ one_packet))))
      (pcap_ng_check_header working bt_shb 0 (section_rest ++ raw_interface ++ one_packet))
pcap_ng_check_header-Returns_example =
    pcap_ng_check_header-Returns working 0 bt_shb (section_rest ++ raw_interface ++ one_packet)
      (omega arith)

-- An interface in nanoseconds, for a user of microseconds.
abbrev nanoseconds : Interface
nanoseconds = record { tsresol = 1000000000; tsoffset = 0; scale_type = scale_down }

nanoseconds-IsReady : IsReady 1000000 nanoseconds
unfolding scale_to
nanoseconds-IsReady = record { positive = omega arith; narrow = omega arith; scaled = refl }

abbrev late : Arrival
late = record { interface_id = 0; t = 7123456789; caplen = 3; len = 60 }

stamp-IsFloor_example :
    IsFloor (123456789 * 1000000) 1000000000 (stamp 1000000 nanoseconds late).tv_usec
    × ((stamp 1000000 nanoseconds late).tv_usec < 1000000)
unfolding user_tsresol_of
stamp-IsFloor_example =
    stamp-IsFloor 0 1000000 nanoseconds late refl nanoseconds-IsReady (omega arith)

stamp-coarse_example : (stamp 1000000 milliseconds arrival).tv_usec ≡ 0
unfolding user_tsresol_of
stamp-coarse_example =
    stamp-coarse 0 1000000 milliseconds arrival refl milliseconds-IsReady (omega arith)
      (omega arith)

-- What a file in nanoseconds is opened as.
abbrev fine_capture : List ℕ → Capture
fine_capture file = record (raw_capture file) { ifaces = some nanoseconds ∷ [] }

written : IsWritten working (fine_capture []) nanoseconds late (7 ∷ 8 ∷ 9 ∷ []) (0 ∷ [])
written = record {
  narrow = omega arith;
  captured = refl;
  fits = omega arith;
  granted = refl;
  counted = omega arith;
  entry = refl;
  positive = omega arith;
}

abbrev recorded : Recorded
recorded = record { arrival = late; interface = nanoseconds; bytes = 7 ∷ 8 ∷ 9 ∷ []; tail = 0 ∷ [] }

recorded-IsRecorded : IsRecorded working (fine_capture []) recorded
recorded-IsRecorded = record { written = written; ready = nanoseconds-IsReady; fine = omega arith }

pcap_ng_next_packet-Yields_example :
    Yields working
      (fine_capture (blocks false (recorded ∷ recorded ∷ [])))
      (recorded ∷ recorded ∷ [])
unfolding user_tsresol_of
pcap_ng_next_packet-Yields_example =
    pcap_ng_next_packet-Yields working (fine_capture []) (recorded ∷ recorded ∷ []) refl refl
      (recorded-IsRecorded, (recorded-IsRecorded, tt))

-- More digits than a word has room for: the powers of 10 wrap.
too_fine : resolution working 10 ≡ 1410065408
unfolding resolution power_of_10
too_fine = refl

pcap_ng_next_packet-idb_example :
    pcap_ng_next_packet working (raw_capture (raw_interface ++ one_packet))
    ≡ err (different_type 101)
unfolding linktype_to_dlt
pcap_ng_next_packet-idb_example =
    pcap_ng_next_packet-idb working (raw_capture one_packet) 101 96 in_milliseconds one_packet
      (record { narrow = omega arith; fits = omega arith; granted = refl }) refl (omega arith)

-- An option for the resolution of two bytes.
abbrev bad_options : List ℕ
bad_options = short_bytes 9 ++ short_bytes 2 ++ 3 ∷ 0 ∷ 0 ∷ 0 ∷ []

abbrev second : Arrival
second = record { interface_id = 1; t = 5250; caplen = 3; len = 60 }

pcap_ng_next_packet-failed_example :
    (pcap_ng_next_packet working
        (before_failure working (raw_capture []) bad_options second (7 ∷ 8 ∷ 9 ∷ []) (0 ∷ []) [])
      ≡ err (bad_resolution_length 2))
    × (pcap_ng_next_packet working (
          add_interface_leaves working
            (at_interface working (raw_capture []) bad_options second (7 ∷ 8 ∷ 9 ∷ []) (0 ∷ []) [])
            (in_block working (raw_capture []) bad_options second (7 ∷ 8 ∷ 9 ∷ []) (0 ∷ []) []))
        ≡ err unset_interface)
unfolding add_interface grow_ifaces resize process_idb_options options_loop
    get_opthdr_from_block_data get_optvalue_from_block_data get_from_block_data option_kind
    take_tsresol resolution power_of_10
pcap_ng_next_packet-failed_example =
    pcap_ng_next_packet-failed working (raw_capture []) bad_options second (7 ∷ 8 ∷ 9 ∷ []) (0 ∷ [])
      [] (bad_resolution_length 2)
      (record { narrow = omega arith; fits = omega arith; granted = refl }) (omega arith)
      (omega arith) (omega arith) refl (omega arith) refl (inl refl) refl

-- The file of `check_example`, from its first byte.
fopen_offline_example :
    fopen_offline check_headers working 0 (long_bytes bt_shb ++ section_rest ++ raw_interface)
    ≡ as_pcap_ng (raw_capture [])
unfolding fopen_offline try_formats try_pcap try_pcap_ng pcap_check_header pcap_ng_check_header
    check_byte_order check_section open_capture user_tsresol_of read_section read_bytes
    find_interface read_block read_sized grow_buffer block_kind first_interface description_at
    get_from_block_data add_interface grow_ifaces resize scale_for scale_to process_idb_options
    options_loop get_opthdr_from_block_data get_optvalue_from_block_data option_kind take_tsresol
    resolution power_of_10 linktype_to_dlt
fopen_offline_example = refl
