-- ===== src/Savefile/Ng/Sequence.antt =====
-- sf-pcap-ng.c: a file that goes on with Enhanced Packet Blocks, read by one call after the other.
use gap16g_libpcap.Base.{
  ℕ, ◌+◌, ◌*◌, ◌/◌, ◌%◌, ◌^◌, ◌≤◌, ◌<◌, ◌≡◌, refl, Bool, false, List, [], ◌∷◌, ◌++◌, All, length,
  none, some,
}
use gap16g_libpcap.Savefile.Packet.{PacketHeader}
use gap16g_libpcap.Savefile.Ng.Answer.{Host, ok}
use gap16g_libpcap.Savefile.Ng.Block.{Interface, Capture, read_bytes, read_block}
use gap16g_libpcap.Savefile.Ng.Open.{bt_epb, user_tsresol_of}
use gap16g_libpcap.Savefile.Ng.Next.{Arrival, stamp, convert_header, next_loop, pcap_ng_next_packet}
use gap16g_libpcap.Savefile.Ng.Known.{IsReady}
use gap16g_libpcap.Savefile.Ng.Scaling.{IsFloor, stamp-IsFloor}
use gap16g_libpcap.Savefile.Ng.Written.{block, behind}
use gap16g_libpcap.Savefile.Ng.Reread.{epb_block, IsWritten, pcap_ng_next_packet-epb_block}

-- A packet as a file holds it: what its block says, its interface, its bytes, and what follows them.
pub record Recorded : Type 0 where
  pub arrival : Arrival
  pub interface : Interface
  pub bytes : List ℕ
  pub tail : List ℕ

abbrev pub blocks : Bool → List Recorded → List ℕ
blocks s [] = []
blocks s (c ∷ cs) = block s bt_epb (epb_block s c.arrival c.bytes c.tail) ++ blocks s cs

-- What a header says of a packet that `a` was recorded for on the interface `f`: its two lengths, the
-- whole seconds behind the offset of the interface, and the fraction of a second in the unit of the
-- user, rounded down, which is less than a second.
pub record IsHeaderOf (user : ℕ) (f : Interface) (a : Arrival) (h : PacketHeader) : Type 0 where
  pub captured : h.caplen ≡ a.caplen
  pub whole : h.len ≡ a.len
  pub seconds : h.tv_sec ≡ (a.t / f.tsresol + f.tsoffset) % 2 ^ 64
  pub fraction : IsFloor (a.t % f.tsresol * user) f.tsresol h.tv_usec
  pub within : h.tv_usec < user

stamp-IsHeaderOf :
    (precision user : ℕ) (f : Interface) (a : Arrival)
    → user_tsresol_of precision ≡ some user
    → IsReady user f
    → user ≤ f.tsresol
    → IsHeaderOf user f a (stamp user f a)
stamp-IsHeaderOf precision user f a precise ready fine =
    let floor = stamp-IsFloor precision user f a precise ready fine in
    unfold stamp in
    record { captured = refl; whole = refl; seconds = refl; fraction = floor.0; within = floor.1 }

module _ (host : Host) where
  -- A packet that the reader takes, on an interface that is no coarser than the user's resolution.
  pub record IsRecorded (p : Capture) (c : Recorded) : Type 0 where
    pub written : IsWritten host p c.interface c.arrival c.bytes c.tail
    pub ready : IsReady p.user_tsresol c.interface
    pub fine : p.user_tsresol ≤ Interface.tsresol c.interface

  -- The calls give these packets, and then the end of the file.
  abbrev pub Yields : Capture → List Recorded → Type 0
  Yields p [] = pcap_ng_next_packet host p ≡ ok (none, p)
  Yields p (c ∷ cs) =
      (h : PacketHeader) × (p' : Capture) × (pcap_ng_next_packet host p
        ≡ ok (some (h, convert_header p.is_swapped p.dlt c.arrival.caplen c.bytes), p'))
      × IsHeaderOf p.user_tsresol c.interface c.arrival h
      × Yields p' cs

  read_block_end :
      (p : Capture) → host.env.ferror ≡ false → read_block host (record p { file = [] }) ≡ ok none
  unfolding read_block read_bytes
  read_block_end p fine = rw fine refl

  next_end : (p : Capture) → host.env.ferror ≡ false → Yields (record p { file = [] }) []
  unfolding pcap_ng_next_packet next_loop
  next_end p fine = rw (read_block_end p fine) refl

  stays-IsRecorded :
      (p : Capture) (n : ℕ) (rest : List ℕ) (cs : List Recorded)
      → All (IsRecorded p) cs
      → All (IsRecorded (behind p n rest)) cs
  stays-IsRecorded p n rest [] all = tt
  stays-IsRecorded p n rest (c ∷ cs) all =
      let w = IsRecorded.written all.0 in
      (
        record {
          written = record {
            narrow = w.narrow;
            captured = w.captured;
            fits = w.fits;
            granted = w.granted;
            counted = w.counted;
            entry = w.entry;
            positive = w.positive;
          };
          ready = IsRecorded.ready all.0;
          fine = IsRecorded.fine all.0;
        },
        stays-IsRecorded p n rest cs all.1,
      )

  -- A file that goes on with Enhanced Packet Blocks, in either byte order, gives their packets one
  -- after the other, and then its end: each has the lengths that it was written with, as its time
  -- the whole seconds behind the offset of its interface, modulo 2^64, and the fraction in the unit
  -- of the user, rounded down, and the bytes, whatever follows them in the block, as
  -- `convert_header` leaves them. The fields fit their words, a block has at most 16 MB, the buffer
  -- can grow to it, its interface is known and no coarser than the resolution of the user, which is
  -- the one for the precision, and reading does not fail.
  pub pcap_ng_next_packet-Yields :
      (p : Capture) (cs : List Recorded)
      → host.env.ferror ≡ false
      → user_tsresol_of p.tstamp_precision ≡ some p.user_tsresol
      → All (IsRecorded p) cs
      → Yields (record p { file = blocks p.is_swapped cs }) cs
  pcap_ng_next_packet-Yields p [] fine precise all = next_end p fine
  pcap_ng_next_packet-Yields p (c ∷ cs) fine precise all =
      let size = length (epb_block p.is_swapped c.arrival c.bytes c.tail) + 12 in
      let rest = blocks p.is_swapped cs in
      let one = all.0 in
      (
        stamp p.user_tsresol c.interface c.arrival,
        behind p size rest,
        pcap_ng_next_packet-epb_block host p c.interface c.arrival c.bytes c.tail rest
            (IsRecorded.written one),
        stamp-IsHeaderOf p.tstamp_precision p.user_tsresol c.interface c.arrival precise
            (IsRecorded.ready one) (IsRecorded.fine one),
        pcap_ng_next_packet-Yields (behind p size rest) cs fine precise
            (stays-IsRecorded p size rest cs all.1),
      )
