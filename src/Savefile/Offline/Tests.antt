-- ===== src/Savefile/Offline/Tests.antt =====
-- savefile.c: two packets of a dumped file, under a filter on their first byte.
use gap16g_libpcap.Base.{
  ℕ, ◌≡◌, refl, arith, Bool, true, false, Option, none, some, List, [], ◌∷◌, ◌++◌,
}
use gap16g_libpcap.Bpf.Insn.{Insn, decode}
use gap16g_libpcap.Bpf.Packet.{load, extract_byte}
use gap16g_libpcap.Bpf.Filter.{bpf_filter, run, step, fetch, dispatch, execute}
use gap16g_libpcap.Savefile.Bytes.{Env}
use gap16g_libpcap.Savefile.Packet.{PacketHeader, Reader, reader}
use gap16g_libpcap.Savefile.Dump.{Source, pcap_dump}
use gap16g_libpcap.Savefile.Reread.{Captured, reads_as, next_packet-pcap_dump}
use gap16g_libpcap.Savefile.Roundtrip.{dump_all}
use gap16g_libpcap.Savefile.Offline.{counted, broken, read_loop, pcap_offline_read, pcap_loop}
use gap16g_libpcap.Savefile.Offline.Dumped.{pcap_offline_read-dump_all}
use gap16g_libpcap.Savefile.Offline.Loop.{pcap_loop-dump_all, pcap_loop-broken}
use gap16g_libpcap.Savefile.Offline.Break.{session, read_loop-broken}

abbrev working : Env
working = record { ferror = false; calloc = true; malloc = λ n. true }

abbrev ethernet : Source
ethernet = record {
  activated = true;
  tstamp_precision = 0;
  dlt = 1;
  linktype_ext = 0;
  tzoff = 0;
  snapshot = 96;
}

abbrev three_packets : List Captured
three_packets =
    (record { tv_sec = 1000000000; tv_usec = 9; caplen = 3; len = 60 }, 7 ∷ 8 ∷ 9 ∷ [])
    ∷ (record { tv_sec = 1000000001; tv_usec = 5; caplen = 1; len = 1 }, 255 ∷ [])
    ∷ (record { tv_sec = 1000000002; tv_usec = 0; caplen = 2; len = 2 }, 7 ∷ 4 ∷ [])
    ∷ []

abbrev insn : ℕ → ℕ → ℕ → ℕ → Insn
insn code jt jf k = record { code = code; jt = jt; jf = jf; k = k }

abbrev seven_first : List Insn
seven_first = insn 0x30 0 0 0 ∷ insn 0x15 0 1 7 ∷ insn 0x06 0 0 65535 ∷ insn 0x06 0 0 0 ∷ []

abbrev scratch : List ℕ
scratch = 0 ∷ 0 ∷ 0 ∷ 0 ∷ 0 ∷ 0 ∷ 0 ∷ 0 ∷ 0 ∷ 0 ∷ 0 ∷ 0 ∷ 0 ∷ 0 ∷ 0 ∷ 0 ∷ []

-- The callback keeps the lengths of the packets, the last one first.
abbrev lengths : List ℕ → PacketHeader → List ℕ → List ℕ × Bool
lengths u h bytes = (h.caplen ∷ u, false)

pcap_offline_read-dump_all_example :
    (end : Reader) × (pcap_offline_read 4 4 working
        (reads_as ethernet)
        scratch
        (some seven_first)
        2
        lengths
        (record { reader = reader (dump_all three_packets) 0; break_loop = false; user = [] })
      ≡ (counted 2, record { reader = end; break_loop = false; user = 2 ∷ 3 ∷ [] }))
unfolding bpf_filter run step fetch dispatch execute decode load extract_byte
pcap_offline_read-dump_all_example =
    pcap_offline_read-dump_all working ethernet 4 scratch (some seven_first) lengths 2 4 0 []
      three_packets refl
      (
        (refl, refl, omega arith, omega arith, omega arith, refl),
        (
          (refl, refl, omega arith, omega arith, omega arith, refl),
          ((refl, refl, omega arith, omega arith, omega arith, refl), tt),
        ),
      )
      (λ u h bytes. refl) ((true, refl), ((false, refl), ((true, refl), tt))) (omega arith)

-- The callback asks to stop at each packet.
abbrev stops : List ℕ → PacketHeader → List ℕ → List ℕ × Bool
stops u h bytes = (h.caplen ∷ u, true)

abbrev one_byte : PacketHeader
one_byte = record { tv_sec = 1000000001; tv_usec = 5; caplen = 1; len = 1 }

abbrev any : PacketHeader → List ℕ → Option Bool
any h bytes = some true

read_loop-broken_example :
    (read_loop working
        (reads_as ethernet)
        any
        stops
        0
        2
        0
        (session (reader (pcap_dump one_byte (255 ∷ []) ++ []) 0) false [])
      ≡ (counted 1, session (reader [] 0) true (1 ∷ [])))
    × (read_loop working (reads_as ethernet) any stops 0 1 0 (session (reader [] 0) true (1 ∷ []))
        ≡ (broken, session (reader [] 0) false (1 ∷ [])))
read_loop-broken_example =
    read_loop-broken working (reads_as ethernet) any stops 0 0 0 0
      (reader (pcap_dump one_byte (255 ∷ []) ++ []) 0) (reader [] 0) [] one_byte (255 ∷ [])
      (next_packet-pcap_dump working ethernet one_byte (255 ∷ []) [] 0
        (refl, refl, omega arith, omega arith, omega arith, refl))
      refl refl

pcap_loop-dump_all_example :
    (end : Reader) × (pcap_loop 4 4 working
        (reads_as ethernet)
        scratch
        (some seven_first)
        lengths
        1
        0
        (session (reader (dump_all three_packets) 0) false [])
      ≡ (counted 0, session end false (2 ∷ 3 ∷ [])))
unfolding bpf_filter run step fetch dispatch execute decode load extract_byte
pcap_loop-dump_all_example =
    pcap_loop-dump_all 4 4 working scratch (some seven_first) lengths ethernet 0 0 0 []
      three_packets refl
      (
        (refl, refl, omega arith, omega arith, omega arith, refl),
        (
          (refl, refl, omega arith, omega arith, omega arith, refl),
          ((refl, refl, omega arith, omega arith, omega arith, refl), tt),
        ),
      )
      (λ u h bytes. refl) ((true, refl), ((false, refl), ((true, refl), tt))) (omega arith)

pcap_loop-broken_example :
    pcap_loop 2 4 working
      (reads_as ethernet)
      scratch
      none
      stops
      2
      0
      (session (reader (pcap_dump one_byte (255 ∷ []) ++ []) 0) false [])
    ≡ (broken, session (reader [] 0) false (1 ∷ []))
pcap_loop-broken_example =
    pcap_loop-broken 0 4 0 0 working (reads_as ethernet) scratch none stops
      (reader (pcap_dump one_byte (255 ∷ []) ++ []) 0) (reader [] 0) [] one_byte (255 ∷ [])
      (omega arith)
      (next_packet-pcap_dump working ethernet one_byte (255 ∷ []) [] 0
        (refl, refl, omega arith, omega arith, omega arith, refl))
      refl refl
