-- ===== src/Savefile/Offline/Loop.antt =====
-- pcap.c and savefile.c: `pcap_loop` on a savefile.
use gap16g_libpcap.Base.{
  ℕ, zero, suc, ◌-◌, ◌<◌, ◌≡◌, ◌≢◌, ap, ◌∙◌, arith, Bool, true, false, Option, some, List, All,
  length, leb, ltb, if◌then◌else◌, inl, inr, Bool-cases,
}
use gap16g_libpcap.Bpf.Insn.{Insn}
use gap16g_libpcap.Savefile.Bytes.{Env}
use gap16g_libpcap.Savefile.Header.{Pcap}
use gap16g_libpcap.Savefile.Packet.{PacketHeader, Reader, reader, packet, pcap_next_packet}
use gap16g_libpcap.Savefile.Dump.{Source}
use gap16g_libpcap.Savefile.Reread.{Captured, IsCaptured, reads_as}
use gap16g_libpcap.Savefile.Roundtrip.{dump_all}
use gap16g_libpcap.Savefile.Offline.{counted, broken, Session, judge, pcap_offline_read, pcap_loop}
use gap16g_libpcap.Savefile.Offline.Delivers.{IsJudged, IsQuiet, seen}
use gap16g_libpcap.Savefile.Offline.Dumped.{wanted, passed, pcap_offline_read-dump_all}
use gap16g_libpcap.Savefile.Offline.Break.{session, read_loop-broken}

module _ {ℓ} {U : Type ℓ} (fuel steps : ℕ) (env : Env) (mem : List ℕ) (fcode : Option (List Insn))
    (callback : U → PacketHeader → List ℕ → U × Bool) where
  -- How a round ends, or the next one goes on.
  module _ (p : Pcap) (rounds : ℕ) (s s' : Session U) where
    pcap_loop-done :
        (cnt : ℕ)
        → pcap_offline_read fuel steps env p mem fcode cnt callback s ≡ (counted 0, s')
        → pcap_loop fuel steps env p mem fcode callback (suc rounds) cnt s ≡ (counted 0, s')
    unfolding pcap_loop
    pcap_loop-done cnt e = rw (pcap_loop, e) (ap (λ t. (counted 0, t.1)) e)

    pcap_loop-counted :
        (m : ℕ)
        → pcap_offline_read fuel steps env p mem fcode (suc m) callback s ≡ (counted (suc m), s')
        → pcap_loop fuel steps env p mem fcode callback (suc rounds) (suc m) s ≡ (counted 0, s')
    unfolding pcap_loop
    pcap_loop-counted m e =
        let some_count : ltb 0 (suc m) ≡ true = ground arith in
        let reached : leb (suc m) (suc m) ≡ true = ground arith in
        rw (pcap_loop, e, some_count, reached) (ap (λ t. (counted 0, t.1)) e)

    pcap_loop-stops :
        (cnt : ℕ)
        → pcap_offline_read fuel steps env p mem fcode cnt callback s ≡ (broken, s')
        → pcap_loop fuel steps env p mem fcode callback (suc rounds) cnt s ≡ (broken, s')
    unfolding pcap_loop
    pcap_loop-stops cnt e = rw (pcap_loop, e) (ap (λ t. (broken, t.1)) e)

    -- One packet was handed on, and it is not the only one that is asked for.
    pcap_loop-on :
        (cnt : ℕ)
        → cnt ≢ 1
        → pcap_offline_read fuel steps env p mem fcode cnt callback s ≡ (counted 1, s')
        → pcap_loop fuel steps env p mem fcode callback (suc rounds) cnt s
          ≡ pcap_loop fuel steps env p mem fcode callback rounds (cnt - 1) s'
    unfolding pcap_loop
    pcap_loop-on zero other e =
        rw (pcap_loop, e) (ap (λ t. pcap_loop fuel steps env p mem fcode callback rounds 0 t.1) e)
    pcap_loop-on (suc m) other e =
        let some_count : ltb 0 (suc m) ≡ true = ground arith in
        let missed : leb (suc m) 1 ≡ false = ground arith in
        rw (pcap_loop, e, some_count, missed)
          (ap (λ t. pcap_loop fuel steps env p mem fcode callback rounds (suc m - 1) t.1) e)

  -- On the packets of a dumped file, `pcap_loop` hands to the callback exactly those that pass the
  -- filter, in their order; with a positive count, only the first so many. It returns 0, after one
  -- call of `pcap_offline_read`. The callback does not call `pcap_breakloop`, the filter gives a
  -- value for each packet, reading does not fail, the time stamps are those of a 32-bit signed word,
  -- no packet is longer than the snapshot length, and there is more fuel than packets.
  pub pcap_loop-dump_all :
      (s : Source) (cnt rounds t : ℕ) (u : U) (packets : List Captured)
      → env.ferror ≡ false
      → All (IsCaptured s.snapshot) packets
      → IsQuiet env (reads_as s) (judge steps mem fcode) callback
      → All (IsJudged env (reads_as s) (judge steps mem fcode) callback) packets
      → length packets < fuel
      → (end : Reader) × (pcap_loop fuel steps env
            (reads_as s)
            mem
            fcode
            callback
            (suc rounds)
            cnt
            (session (reader (dump_all packets) t) false u)
          ≡ (
            counted 0,
            session end false (
                seen env
                  (reads_as s)
                  (judge steps mem fcode)
                  callback
                  u
                  (wanted cnt (passed env s steps mem fcode callback packets))),
          ))
  pcap_loop-dump_all s cnt rounds t u packets fine captured quiet judged enough =
      let (end, e) =
        pcap_offline_read-dump_all env s steps mem fcode callback cnt fuel t u packets fine captured
          quiet judged enough in
      let all = passed env s steps mem fcode callback packets in
      let at_end =
        session end false
          (seen env (reads_as s) (judge steps mem fcode) callback u (wanted cnt all)) in
      let at_start = session (reader (dump_all packets) t) false u in
      (
        end,
        elim (Bool-cases (leb cnt (length all))) [
          | inl reached ↦
              counts cnt at_start at_end
                (e ∙ ap (λ b. (counted (if b then cnt else 0), at_end)) reached)
          | inr missed ↦
              pcap_loop-done (reads_as s) rounds at_start at_end cnt
                (e ∙ ap (λ b. (counted (if b then cnt else 0), at_end)) missed)
        ],
      )
    where
      counts :
          (c : ℕ) (before behind : Session U)
          → pcap_offline_read fuel steps env (reads_as s) mem fcode c callback before
            ≡ (counted c, behind)
          → pcap_loop fuel steps env (reads_as s) mem fcode callback (suc rounds) c before
            ≡ (counted 0, behind)
      counts zero before behind e = pcap_loop-done (reads_as s) rounds before behind 0 e
      counts (suc m) before behind e = pcap_loop-counted (reads_as s) rounds before behind m e

-- When the callback calls `pcap_breakloop` on the first packet that it gets, and more than this one
-- is asked for, `pcap_loop` returns -2, although it has handed on a packet.
pub pcap_loop-broken {ℓ} :
    {U : Type ℓ} (fuel steps rounds cnt : ℕ) (env : Env) (p : Pcap) (mem : List ℕ)
    (fcode : Option (List Insn)) (callback : U → PacketHeader → List ℕ → U × Bool) (r r' : Reader)
    (u : U) (h : PacketHeader) (bytes : List ℕ)
    → cnt ≢ 1
    → pcap_next_packet env p r ≡ (packet h bytes, r')
    → judge steps mem fcode h bytes ≡ some true
    → (callback u h bytes).1 ≡ true
    → pcap_loop
        (suc (suc fuel))
        steps
        env
        p
        mem
        fcode
        callback
        (suc (suc rounds))
        cnt
        (session r false u)
      ≡ (broken, session r' false (callback u h bytes).0)
unfolding pcap_offline_read
pcap_loop-broken fuel steps rounds cnt env p mem fcode callback r r' u h bytes other got judges
      breaks =
    let u' = (callback u h bytes).0 in
    let first =
      read_loop-broken env p (judge steps mem fcode) callback cnt 0 fuel 0 r r' u h bytes got judges
        breaks in
    let second =
      read_loop-broken env p (judge steps mem fcode) callback (cnt - 1) 0 fuel (suc fuel) r r' u h
        bytes got judges breaks in
    pcap_loop-on (suc (suc fuel)) steps env mem fcode callback p (suc rounds) (session r false u)
      (session r' true u') cnt other first.0
    ∙ pcap_loop-stops (suc (suc fuel)) steps env mem fcode callback p rounds (session r' true u')
        (session r' false u') (cnt - 1) second.1
