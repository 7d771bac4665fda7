-- ===== src/Savefile/Offline/Dumped.antt =====
-- savefile.c and sf-pcap.c: `pcap_offline_read` on the packets of a dumped file.
use gap16g_libpcap.Base.{
  ℕ, zero, suc, ◌≤◌, ◌<◌, ◌≡◌, refl, ap, arith, Bool, true, false, Option, List, [], ◌∷◌, All,
  length, take, leb, if◌then◌else◌, inl, inr,
}
use gap16g_libpcap.Bpf.Insn.{Insn}
use gap16g_libpcap.Savefile.Bytes.{Env}
use gap16g_libpcap.Savefile.Packet.{PacketHeader, Reader, reader}
use gap16g_libpcap.Savefile.Dump.{Source}
use gap16g_libpcap.Savefile.Reread.{Captured, IsCaptured, reads_as}
use gap16g_libpcap.Savefile.Roundtrip.{dump_all, dump_all-Gives}
use gap16g_libpcap.Savefile.Offline.{counted, judge, pcap_offline_read}
use gap16g_libpcap.Savefile.Offline.Delivers.{
  selected, IsJudged, IsQuiet, seen, read_loop-all, read_loop-Counted,
}

-- The packets that a call with this count hands on: all, or the first ones.
abbrev pub wanted : ℕ → List Captured → List Captured
wanted zero passed = passed
wanted (suc n) passed = take (suc n) passed

take-few : (n : ℕ) (xs : List Captured) → length xs ≤ n → take n xs ≡ xs
take-few zero [] few = refl
take-few zero (x ∷ xs) few = absurd (omega arith)
take-few (suc n) [] few = refl
take-few (suc n) (x ∷ xs) few = ap (λ ys. x ∷ ys) (take-few n xs (omega arith))

module _ {ℓ} {U : Type ℓ} (env : Env) (s : Source) (steps : ℕ) (mem : List ℕ)
    (fcode : Option (List Insn)) (callback : U → PacketHeader → List ℕ → U × Bool) where
  abbrev pub passed : List Captured → List Captured
  passed = selected env (reads_as s) (judge steps mem fcode) callback

  -- On the packets of a dumped file, `pcap_offline_read` hands to the callback exactly those that
  -- pass the filter, in their order; with a positive count, only the first so many. It returns the
  -- count where there are so many of them, and otherwise 0, at the end of the file. The callback
  -- does not call `pcap_breakloop`, the filter gives a value for each packet, reading does not fail,
  -- the time stamps are those of a 32-bit signed word, no packet is longer than the snapshot
  -- length, and there is more fuel than packets.
  pub pcap_offline_read-dump_all :
      (cnt fuel t : ℕ) (u : U) (packets : List Captured)
      → env.ferror ≡ false
      → All (IsCaptured s.snapshot) packets
      → IsQuiet env (reads_as s) (judge steps mem fcode) callback
      → All (IsJudged env (reads_as s) (judge steps mem fcode) callback) packets
      → length packets < fuel
      → (end : Reader) × (pcap_offline_read fuel steps env
            (reads_as s)
            mem
            fcode
            cnt
            callback
            (record { reader = reader (dump_all packets) t; break_loop = false; user = u })
          ≡ (
            counted (if leb cnt (length (passed packets)) then cnt else 0),
            record {
              reader = end;
              break_loop = false;
              user =
                  seen env
                    (reads_as s)
                    (judge steps mem fcode)
                    callback
                    u
                    (wanted cnt (passed packets));
            },
          ))
  unfolding pcap_offline_read
  pcap_offline_read-dump_all zero fuel t u packets fine captured quiet judged enough =
      let gives = dump_all-Gives env s packets t fine captured in
      let none_left : leb 0 (length (passed packets)) ≡ true = ground arith in
      let (end, e) =
        read_loop-all env (reads_as s) (judge steps mem fcode) callback quiet 0 fuel
          (reader (dump_all packets) t) u packets gives judged enough in
      (end, rw none_left e)
  pcap_offline_read-dump_all (suc n) fuel t u packets fine captured quiet judged enough =
      let gives = dump_all-Gives env s packets t fine captured in
      elim (read_loop-Counted env (reads_as s) (judge steps mem fcode) callback quiet (suc n) 0 n
        fuel (reader (dump_all packets) t) u packets (omega arith) gives judged enough) [
          | inl (many, end, e) ↦
              let reached : leb (suc n) (length (passed packets)) ≡ true = ground arith in
              (end, rw reached e)
          | inr (few, end, e) ↦
              let missed : leb (suc n) (length (passed packets)) ≡ false = ground arith in
              (end, rw (missed, take-few (suc n) (passed packets) (omega arith)) e)
        ]
