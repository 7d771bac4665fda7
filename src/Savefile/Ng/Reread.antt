-- ===== src/Savefile/Ng/Reread.antt =====
-- sf-pcap-ng.c: Enhanced Packet Blocks and Interface Description Blocks, under `pcap_ng_next_packet`.
use gap16g_libpcap.Base.{
  ℕ, suc, ◌+◌, ◌*◌, ◌/◌, ◌%◌, ◌≤◌, ◌<◌, ◌^◌, ◌≡◌, refl, arith, Bool, true, false, List, [], ◌++◌,
  length, length-append, ltb, leb, ◌==◌, some, get_elem?,
}
use gap16g_libpcap.Savefile.Reread.{take-all, drop-all}
use gap16g_libpcap.Savefile.Ng.Answer.{Host, ok}
use gap16g_libpcap.Savefile.Ng.Block.{Interface, Capture, max_block, get_from_block_data}
use gap16g_libpcap.Savefile.Ng.Open.{bt_epb, block_kind}
use gap16g_libpcap.Savefile.Ng.Next.{
  Arrival, convert_header, stamp, found, enhanced_at, next_loop, pcap_ng_next_packet,
}
use gap16g_libpcap.Savefile.Ng.Written.{word, block, behind, host_long-word, read_block-block}

-- The fixed part of an Enhanced Packet Block.
abbrev pub epb : Bool → Arrival → List ℕ
epb s a =
    word s a.interface_id
    ++ word s (a.t / 2 ^ 32)
    ++ word s (a.t % 2 ^ 32)
    ++ word s a.caplen
    ++ word s a.len

-- The fields fit their words.
pub record IsNarrow (a : Arrival) : Type 0 where
  pub known : a.interface_id < 2 ^ 32
  pub time : a.t < 2 ^ 64
  pub captured : a.caplen < 2 ^ 32
  pub whole : a.len < 2 ^ 32

pub enhanced_at-epb : (s : Bool) (a : Arrival) → IsNarrow a → enhanced_at s (epb s a) ≡ a
unfolding enhanced_at
enhanced_at-epb s a narrow =
    let time : a.t / 2 ^ 32 * 2 ^ 32 + a.t % 2 ^ 32 ≡ a.t = omega arith in
    rw
      (
        host_long-word s a.interface_id [] narrow.known,
        host_long-word s (a.t / 2 ^ 32) [] (omega (arith, narrow.time)),
        host_long-word s (a.t % 2 ^ 32) [] (omega arith),
        host_long-word s a.caplen [] narrow.captured,
        host_long-word s a.len [] narrow.whole,
        time,
      )
      refl

-- A chunk at the front of the cursor.
pub get_from_block_data-append :
    (n t : ℕ) (bytes rest : List ℕ)
    → length bytes ≡ n
    → get_from_block_data n (record { data_remaining = bytes ++ rest; block_type = t })
      ≡ ok (bytes, record { data_remaining = rest; block_type = t })
unfolding get_from_block_data
get_from_block_data-append n t bytes rest e =
    let holds : ltb (length (bytes ++ rest)) n ≡ false = ground (arith, length-append bytes rest) in
    rw (holds, take-all bytes rest n e, drop-all bytes rest n e) refl

found-bytes :
    (p : Capture) (a : Arrival) (bytes tail : List ℕ) (f : Interface)
    → length bytes ≡ a.caplen
    → a.interface_id < p.ifcount
    → get_elem? p.ifaces a.interface_id ≡ some (some f)
    → 0 < f.tsresol
    → found p (record { data_remaining = bytes ++ tail; block_type = bt_epb }) a
      ≡ ok (some (stamp p.user_tsresol f a, convert_header p.is_swapped p.dlt a.caplen bytes), p)
unfolding found
found-bytes p a bytes tail f captured counted entry positive =
    let known : leb p.ifcount a.interface_id ≡ false = ground arith in
    let divides : (f.tsresol == 0) ≡ false = ground arith in
    rw (known, entry, divides, get_from_block_data-append a.caplen bt_epb bytes tail captured) refl

-- What stands in the file for a packet: the bytes, and padding and options behind them.
abbrev pub epb_block : Bool → Arrival → List ℕ → List ℕ → List ℕ
epb_block s a bytes tail = epb s a ++ bytes ++ tail

-- An Enhanced Packet Block that the reader takes: its fields fit, there are `caplen` bytes, the block
-- has at most 16 MB, the buffer can grow to it, and `f` is its interface.
pub record IsWritten (host : Host) (p : Capture) (f : Interface) (a : Arrival) (bytes tail : List ℕ)
    : Type 0 where
  pub narrow : IsNarrow a
  pub captured : length bytes ≡ a.caplen
  pub fits : length (epb_block p.is_swapped a bytes tail) + 12 ≤ max_block
  pub granted : host.realloc (length (epb_block p.is_swapped a bytes tail) + 12) ≡ true
  pub counted : a.interface_id < p.ifcount
  pub entry : get_elem? p.ifaces a.interface_id ≡ some (some f)
  pub positive : 0 < f.tsresol

next_loop-epb_block :
    (host : Host) (p : Capture) (f : Interface) (a : Arrival) (bytes tail rest : List ℕ) (fuel : ℕ)
    → IsWritten host p f a bytes tail
    → next_loop host (suc fuel) (record p {
      file = block p.is_swapped bt_epb (epb_block p.is_swapped a bytes tail) ++ rest;
    })
      ≡ ok (
        some (stamp p.user_tsresol f a, convert_header p.is_swapped p.dlt a.caplen bytes),
        behind p (length (epb_block p.is_swapped a bytes tail) + 12) rest,
      )
unfolding next_loop block_kind
next_loop-epb_block host p f a bytes tail rest fuel w =
    rw
      (read_block-block host p bt_epb (epb_block p.is_swapped a bytes tail) rest (omega arith)
        w.fits w.granted)
      (rw (get_from_block_data-append 20 bt_epb (epb p.is_swapped a) (bytes ++ tail) refl) (
        rw (enhanced_at-epb p.is_swapped a w.narrow) (
          found-bytes (behind p (length (epb_block p.is_swapped a bytes tail) + 12) rest) a bytes
            tail f w.captured w.counted w.entry w.positive)))

-- An Enhanced Packet Block is read with the interface, the time stamp and the lengths it was written
-- with, in either byte order, and with the bytes it was written with, whatever follows them in the
-- block. What is left of the file is what is behind the block.
pub pcap_ng_next_packet-epb_block :
    (host : Host) (p : Capture) (f : Interface) (a : Arrival) (bytes tail rest : List ℕ)
    → IsWritten host p f a bytes tail
    → pcap_ng_next_packet host (record p {
      file = block p.is_swapped bt_epb (epb_block p.is_swapped a bytes tail) ++ rest;
    })
      ≡ ok (
        some (stamp p.user_tsresol f a, convert_header p.is_swapped p.dlt a.caplen bytes),
        behind p (length (epb_block p.is_swapped a bytes tail) + 12) rest,
      )
unfolding pcap_ng_next_packet
pcap_ng_next_packet-epb_block host p f a bytes tail rest w =
    let file = block p.is_swapped bt_epb (epb_block p.is_swapped a bytes tail) ++ rest in
    let fuel : length file + 1 ≡ suc (length file) = omega arith in
    rw fuel (next_loop-epb_block host p f a bytes tail rest _ w)
