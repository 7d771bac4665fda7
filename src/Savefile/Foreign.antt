-- ===== src/Savefile/Foreign.antt =====
-- sf-pcap.c: packets of a file from a host of the other byte order, under `pcap_next_packet`.
use gap16g_libpcap.Base.{ℕ, ◌/◌, ◌^◌, ◌%◌, true, List, [], ◌∷◌, ◌++◌}
use gap16g_libpcap.Savefile.Header.{Pcap}
use gap16g_libpcap.Savefile.Packet.{PacketHeader}
use gap16g_libpcap.Savefile.Dump.{Source}
use gap16g_libpcap.Savefile.Reread.{reads_as}

-- A word as a big-endian host stores it.
abbrev pub big_endian : ℕ → List ℕ
big_endian v = v / 16777216 % 256 ∷ v / 65536 % 256 ∷ v / 256 % 256 ∷ v % 256 ∷ []

-- What such a host adds to a file for a packet.
abbrev pub foreign_dump : PacketHeader → List ℕ → List ℕ
foreign_dump h bytes =
    big_endian (h.tv_sec % 2 ^ 32)
    ++ big_endian (h.tv_usec % 2 ^ 32)
    ++ big_endian h.caplen
    ++ big_endian h.len
    ++ bytes

abbrev pub reads_foreign : Source → Pcap
reads_foreign s = record (reads_as s) { is_swapped = true }
