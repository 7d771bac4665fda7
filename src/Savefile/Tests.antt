-- ===== src/Savefile/Tests.antt =====
-- sf-pcap.c and pcap-common.c: the theorems at concrete inputs.
use gap16g_libpcap.Base.{ℕ, ◌^◌, ◌≡◌, refl, arith, true, false, List, [], ◌∷◌, ◌++◌}
use gap16g_libpcap.Savefile.Bytes.{Env}
use gap16g_libpcap.Savefile.Linktype.{
  dlt_to_linktype, find_dlt, linktype_to_dlt, linktype_to_dlt-dlt_to_linktype,
}
use gap16g_libpcap.Savefile.Header.{opened, open_offline}
use gap16g_libpcap.Savefile.Packet.{reader, pcap_next_packet}
use gap16g_libpcap.Savefile.Dump.{Source, dumping, pcap_dump_fopen}
use gap16g_libpcap.Savefile.Usb.{swap_linux_usb_header}
use gap16g_libpcap.Savefile.Usb.Bounds.{KeepsFrom, swap_linux_usb_header-IsWithin}
use gap16g_libpcap.Savefile.Fits.{Fits, pcap_next_packet-Fits}
use gap16g_libpcap.Savefile.Reread.{Captured, reads_as}
use gap16g_libpcap.Savefile.Packet.{PacketHeader}
use gap16g_libpcap.Savefile.Roundtrip.{Gives, dump_all, open_offline-pcap_dump}

abbrev working : Env
working = record { ferror = false; calloc = true; malloc = λ n. true }

abbrev raw_ip : Source
raw_ip = record {
  activated = true;
  tstamp_precision = 1;
  dlt = 12;
  linktype_ext = 2 ^ 26;
  tzoff = 3600;
  snapshot = 96;
}

abbrev two_packets : List Captured
two_packets =
    (record { tv_sec = 1000000000; tv_usec = 999999999; caplen = 3; len = 60 }, 7 ∷ 8 ∷ 9 ∷ [])
    ∷ (record { tv_sec = 1000000001; tv_usec = 5; caplen = 1; len = 1 }, 255 ∷ [])
    ∷ []

linktype_to_dlt-dlt_to_linktype_example : linktype_to_dlt (dlt_to_linktype 12) ≡ 12
unfolding dlt_to_linktype find_dlt
linktype_to_dlt-dlt_to_linktype_example =
    linktype_to_dlt-dlt_to_linktype 12 (omega arith) (omega arith)

open_offline-pcap_dump_example :
    (start : List ℕ) × (pcap_dump_fopen true raw_ip ≡ dumping start)
    × (open_offline working 1 (start ++ dump_all two_packets)
        ≡ opened (reads_as raw_ip) (dump_all two_packets))
    × Gives working (reads_as raw_ip) (reader (dump_all two_packets) 0) two_packets
unfolding dlt_to_linktype find_dlt
open_offline-pcap_dump_example =
    open_offline-pcap_dump working raw_ip 1 two_packets 0
      (
        omega arith,
        omega arith,
        omega arith,
        omega arith,
        refl,
        omega arith,
        omega arith,
        omega arith,
      )
      refl refl refl
      (
        (refl, refl, omega arith, omega arith, omega arith, refl),
        ((refl, refl, omega arith, omega arith, omega arith, refl), tt),
      )

pcap_next_packet-Fits_example :
    Fits 96 (pcap_next_packet working (reads_as raw_ip) (reader (dump_all two_packets) 0)).0
pcap_next_packet-Fits_example =
    pcap_next_packet-Fits working (reads_as raw_ip) (reader (dump_all two_packets) 0)

-- A control transfer cut off after the bus number.
abbrev usb_packet : List ℕ
usb_packet = 1 ∷ 2 ∷ 3 ∷ 4 ∷ 5 ∷ 6 ∷ 7 ∷ 8 ∷ 67 ∷ 2 ∷ 128 ∷ 1 ∷ 0 ∷ 5 ∷ 9 ∷ 9 ∷ []

swap_linux_usb_header-IsWithin_example :
    KeepsFrom 14 usb_packet (swap_linux_usb_header 14 true usb_packet)
swap_linux_usb_header-IsWithin_example =
    swap_linux_usb_header-IsWithin 14 true usb_packet (omega arith)

abbrev one_byte : PacketHeader
one_byte = record { tv_sec = 1000000001; tv_usec = 5; caplen = 1; len = 1 }
