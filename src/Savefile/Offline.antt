-- ===== src/Savefile/Offline.antt =====
-- savefile.c: `pcap_offline_read`, which hands the packets of a file that pass the filter to a callback.
--
-- The callback gives the new state of `user` and says whether it called `pcap_breakloop`. `mem` is
-- what the scratch words of `bpf_filter` hold before it runs, and `steps` bounds its loop. A `cnt`
-- that is not positive is 0. The number of packets is counted without a bound.
pub mod Delivers
pub mod Dumped
pub mod Break
pub mod Loop
mod Tests
use gap16g_libpcap.Base.{
  ℕ, zero, suc, ◌-◌, Bool, true, false, not, Option, none, some, List, ◌==◌, leb, ltb, ◌&&◌, ◌||◌,
}
use gap16g_libpcap.Bpf.Insn.{Insn}
use gap16g_libpcap.Bpf.Filter.{Outcome, running, returned, aborted, faulted, bpf_filter}
use gap16g_libpcap.Savefile.Bytes.{Env, Failure}
use gap16g_libpcap.Savefile.Header.{Pcap}
use gap16g_libpcap.Savefile.Packet.{
  PacketHeader, end_of_file, failed, packet, Reader, pcap_next_packet,
}

-- What the call returns: a number of packets, -2, or the status of a packet that could not be read.
-- A filter that reads outside a packet, aborts or does not end gives no value.
pub data Status : Type 0 where
  counted : ℕ → Status
  broken : Status
  unread : Failure → Status
  stuck : Status

-- The parts of the `pcap_t` that the call changes, and `user`.
pub record Session {ℓ} (U : Type ℓ) : Type ℓ where
  pub reader : Reader
  pub break_loop : Bool
  pub user : U

-- The test on what `bpf_filter` returns.
abbrev pub verdict : Outcome → Option Bool
verdict (returned v) = some (not (v == 0))
verdict (running m) = none
verdict aborted = none
verdict (faulted f) = none

module _ (steps : ℕ) (mem : List ℕ) (fcode : Option (List Insn)) where
  abbrev pub judge : PacketHeader → List ℕ → Option Bool
  judge h bytes = elim fcode [
    | none ↦ some true
    | some prog ↦ verdict (bpf_filter steps (some prog) bytes h.len h.caplen mem)
  ]

module _ {ℓ} {U : Type ℓ} (env : Env) (p : Pcap) (judged : PacketHeader → List ℕ → Option Bool)
    (callback : U → PacketHeader → List ℕ → U × Bool) (cnt : ℕ) where
  -- What is left when `break_loop` is found set.
  abbrev pub break_at : ℕ → Session U → Status × Session U
  break_at zero s = (broken, record s { break_loop = false })
  break_at (suc n) s = (counted (suc n), s)

  abbrev pub call : Session U → PacketHeader → List ℕ → Session U
  call s h bytes =
      let (user, breaks) = callback s.user h bytes in
      record s { user = user; break_loop = s.break_loop || breaks }

  unfoldable pub read_loop : ℕ → ℕ → Session U → Status × Session U
  read_loop zero n s = (stuck, s)
  read_loop (suc fuel) n s = elim s.break_loop [
    | true ↦ break_at n s
    | false ↦
        let got = pcap_next_packet env p s.reader in
        let s' = record s { reader = got.1 } in
        elim got.0 [
          | end_of_file ↦ (counted 0, s')
          | failed e ↦ (unread e, s')
          | packet h bytes ↦ elim (judged h bytes) [
            | none ↦ (stuck, s')
            | some accepts ↦ elim accepts [
              | false ↦ read_loop fuel n s'
              | true ↦ elim (leb cnt (suc n) && ltb 0 cnt) [
                | true ↦ (counted (suc n), call s' h bytes)
                | false ↦ read_loop fuel (suc n) (call s' h bytes)
              ]
            ]
          ]
        ]
  ]

unfoldable pub pcap_offline_read {ℓ} :
    {U : Type ℓ}
    → ℕ
    → ℕ
    → Env
    → Pcap
    → List ℕ
    → Option (List Insn)
    → ℕ
    → (U → PacketHeader → List ℕ → U × Bool)
    → Session U
    → Status × Session U
pcap_offline_read fuel steps env p mem fcode cnt callback s =
    read_loop env p (judge steps mem fcode) callback cnt fuel 0 s

-- `pcap_loop` on a savefile; each round calls `pcap_offline_read`.
module _ {ℓ} {U : Type ℓ} (fuel steps : ℕ) (env : Env) (p : Pcap) (mem : List ℕ)
    (fcode : Option (List Insn)) (callback : U → PacketHeader → List ℕ → U × Bool) where
  unfoldable pub pcap_loop : ℕ → ℕ → Session U → Status × Session U
  pcap_loop zero cnt s = (stuck, s)
  pcap_loop (suc rounds) cnt s =
      let got = pcap_offline_read fuel steps env p mem fcode cnt callback s in
      elim got.0 [
        | broken ↦ (broken, got.1)
        | unread e ↦ (unread e, got.1)
        | stuck ↦ (stuck, got.1)
        | counted n ↦ elim n [
          | zero ↦ (counted 0, got.1)
          | suc m ↦ elim (ltb 0 cnt) [
            | false ↦ pcap_loop rounds cnt got.1
            | true ↦ elim (leb cnt (suc m)) [
              | true ↦ (counted 0, got.1)
              | false ↦ pcap_loop rounds (cnt - suc m) got.1
            ]
          ]
        ]
      ]
