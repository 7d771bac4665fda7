-- ===== src/Savefile/Roundtrip.antt =====
-- sf-pcap.c: a dumped file, under the functions that read it.
use gap16g_libpcap.Base.{
  ℕ, ◌*◌, ◌^◌, ◌<◌, ◌≡◌, ◌≢◌, refl, ap, ◌∙◌, arith, true, false, List, [], ◌∷◌, ◌++◌, ◌==◌, ==_iff,
  All, bit_or, bit_and, Bool-cases, inl, inr,
}
use gap16g_libpcap.Savefile.Bytes.{Env}
use gap16g_libpcap.Savefile.Linktype.{
  LinktypeMap, linktype_map, find_dlt, pfsync, is_matching, dlt_to_linktype, minus_one,
  dlt_atm_clip, linktype_to_dlt-dlt_to_linktype,
}
use gap16g_libpcap.Savefile.Masks.{bit_or-disjoint, bit_and-high, bit_and-low}
use gap16g_libpcap.Savefile.Header.{Pcap, opened, open_offline}
use gap16g_libpcap.Savefile.Packet.{
  packet, end_of_file, Reader, reader, pcap_next_packet, no_header,
}
use gap16g_libpcap.Savefile.Dump.{Source, dumping, sf_write_header, pcap_dump_fopen, pcap_dump}
use gap16g_libpcap.Savefile.Reread.{
  Captured, IsCaptured, reads_as, next_packet-pcap_dump, open_header-sf_write_header,
}

-- The link-layer types of savefiles are small numbers.
find_dlt-lt :
    (d : ℕ) (es : List LinktypeMap)
    → All (λ e. e.linktype < 2 ^ 26) es
    → find_dlt d es ≢ minus_one
    → find_dlt d es < 2 ^ 26
unfolding find_dlt
find_dlt-lt d [] small found = absurd (found refl)
find_dlt-lt d (e ∷ es) small found = elim (Bool-cases (e.dlt == d)) [
  | inl same ↦ rw same small.0
  | inr different ↦ rw different (find_dlt-lt d es small.1 (rw different at found))
]

dlt_to_linktype-lt : (d : ℕ) → dlt_to_linktype d ≢ minus_one → dlt_to_linktype d < 2 ^ 26
unfolding dlt_to_linktype
dlt_to_linktype-lt d found = elim (Bool-cases (d == pfsync)) [
  | inl same ↦ rw same (omega arith)
  | inr different ↦ elim (Bool-cases (is_matching d)) [
    | inl matching ↦ rw (different, matching) (ground arith)
    | inr outside ↦
        rw (different, outside)
          (find_dlt-lt d linktype_map (omega arith) (rw (different, outside) at found))
  ]
]

-- What can be dumped: a link-layer type with a LINKTYPE_ value other than DLT_ATM_CLIP, `m` in the
-- bits above it, and a positive snapshot length.
abbrev pub IsSource : ℕ → Source → Type 0
IsSource m s =
    (s.tstamp_precision < 2)
    × (s.dlt ≢ dlt_atm_clip)
    × (dlt_to_linktype s.dlt ≢ minus_one)
    × (m < 64)
    × (s.linktype_ext ≡ m * 2 ^ 26)
    × (s.tzoff < 2 ^ 32)
    × (0 < s.snapshot)
    × (s.snapshot < 2 ^ 31)

-- Reading gives these packets, one by one, and then the end of the file.
abbrev pub Gives : Env → Pcap → Reader → List Captured → Type 0
Gives env p r [] = (pcap_next_packet env p r).0 ≡ end_of_file
Gives env p r ((h, bytes) ∷ others) =
    (r' : Reader) × (pcap_next_packet env p r ≡ (packet h bytes, r')) × Gives env p r' others

abbrev pub dump_all : List Captured → List ℕ
dump_all [] = []
dump_all ((h, bytes) ∷ others) = pcap_dump h bytes ++ dump_all others

pub dump_all-Gives :
    (env : Env) (s : Source) (packets : List Captured) (t : ℕ)
    → env.ferror ≡ false
    → All (IsCaptured s.snapshot) packets
    → Gives env (reads_as s) (reader (dump_all packets) t) packets
unfolding pcap_next_packet no_header
dump_all-Gives env s [] t fine all = rw fine refl
dump_all-Gives env s ((h, bytes) ∷ others) t fine all = (
  reader (dump_all others) t,
  next_packet-pcap_dump env s h bytes (dump_all others) t all.0,
  dump_all-Gives env s others t fine all.1,
)

low_six : (m : ℕ) → m < 64 → bit_and m 63 ≡ m
low_six m q = ap (λ i. bit_and i 63) (omega arith) ∙ bit_and-low 6 m 0 q

==-of_ne : (a b : ℕ) → a ≢ b → (a == b) ≡ false
==-of_ne a b different = elim (Bool-cases (a == b)) [
  | inl same ↦ absurd (different ((==_iff a b).0 same))
  | inr other ↦ other
]

bits_of_type :
    (l m : ℕ)
    → l < 2 ^ 26
    → m < 64
    → (bit_or l (m * 2 ^ 26) < 2 ^ 32)
      × (bit_and (bit_or l (m * 2 ^ 26)) 0x03FFFFFF ≡ l)
      × (bit_and (bit_or l (m * 2 ^ 26)) 0xFC000000 ≡ m * 2 ^ 26)
bits_of_type l m p q = rw (bit_or-disjoint 26 l m p) (
    (
      omega arith,
      bit_and-low 26 l m p,
      bit_and-high 26 l m 63 p ∙ ap (λ i. i * 2 ^ 26) (low_six m q),
    ))

-- A savefile that is opened for writing, with packets dumped to it, is opened for reading with the
-- settings it was written with, and gives exactly these packets and then the end of the file. The
-- time stamps are those of a 32-bit signed word, no packet has more bytes than the snapshot length,
-- the file is read with the precision of the writer, and reading and the allocations do not fail.
pub open_offline-pcap_dump :
    (env : Env) (s : Source) (m : ℕ) (packets : List Captured) (t : ℕ)
    → IsSource m s
    → env.calloc ≡ true
    → env.malloc s.snapshot ≡ true
    → env.ferror ≡ false
    → All (IsCaptured s.snapshot) packets
    → (start : List ℕ) × (pcap_dump_fopen true s ≡ dumping start)
      × (open_offline env s.tstamp_precision (start ++ dump_all packets)
          ≡ opened (reads_as s) (dump_all packets))
      × Gives env (reads_as s) (reader (dump_all packets) t) packets
unfolding pcap_dump_fopen
open_offline-pcap_dump env s m packets t (p, other, known, few, ext, zone, some, small) ok room fine
      all =
    let l = dlt_to_linktype s.dlt in
    let bits = bits_of_type l m (dlt_to_linktype-lt s.dlt known) few in
    (
      sf_write_header s (bit_or l s.linktype_ext),
      rw (==-of_ne l minus_one known) refl,
      open_header-sf_write_header env s s.tstamp_precision _ (dump_all packets) refl p
          (rw ext bits.0) zone small some ok room
          (rw (ext, bits.1) (linktype_to_dlt-dlt_to_linktype s.dlt other known)) (rw ext bits.2),
      dump_all-Gives env s packets t fine all,
    )
