-- ===== src/Savefile/Offline/Break.antt =====
-- savefile.c: `pcap_offline_read` and `pcap_breakloop`.
use gap16g_libpcap.Base.{
  ℕ, suc, ◌≡◌, refl, ap, ◌∙◌, Bool, true, false, Option, some, List, leb, ltb, ◌&&◌, inl, inr,
  Bool-cases,
}
use gap16g_libpcap.Savefile.Bytes.{Env}
use gap16g_libpcap.Savefile.Header.{Pcap}
use gap16g_libpcap.Savefile.Packet.{PacketHeader, Reader, packet, pcap_next_packet}
use gap16g_libpcap.Savefile.Offline.{counted, broken, Session, read_loop}

abbrev pub session {ℓ} : {U : Type ℓ} → Reader → Bool → U → Session U
session r b u = record { reader = r; break_loop = b; user = u }

module _ {ℓ} {U : Type ℓ} (env : Env) (p : Pcap) (judged : PacketHeader → List ℕ → Option Bool)
    (callback : U → PacketHeader → List ℕ → U × Bool) (cnt : ℕ) where
  -- A callback that calls `pcap_breakloop` on the packet after `n` delivered ones, whatever the
  -- count: the loop ends behind that packet and returns `n + 1`, and the next call returns -2, reads
  -- nothing, and clears the request.
  pub read_loop-broken :
      (n fuel fuel' : ℕ) (r r' : Reader) (u : U) (h : PacketHeader) (bytes : List ℕ)
      → pcap_next_packet env p r ≡ (packet h bytes, r')
      → judged h bytes ≡ some true
      → (callback u h bytes).1 ≡ true
      → (read_loop env p judged callback cnt (suc (suc fuel)) n (session r false u)
          ≡ (counted (suc n), session r' true (callback u h bytes).0))
        × (read_loop env p judged callback cnt
              (suc fuel')
              0
              (session r' true (callback u h bytes).0)
            ≡ (broken, session r' false (callback u h bytes).0))
  unfolding read_loop
  read_loop-broken n fuel fuel' r r' u h bytes got judges breaks = (
    elim (Bool-cases (leb cnt (suc n) && ltb 0 cnt)) [
      | inl last ↦
          rw (read_loop, got, judges, last)
            (ap (λ t. (counted (suc n), session t.1 (callback u h bytes).1 (callback u h bytes).0))
                got
              ∙ ap (λ b. (counted (suc n), session r' b (callback u h bytes).0)) breaks)
      | inr more ↦
          rw (read_loop, got, judges, more, breaks)
            (ap (λ t. (counted (suc n), session t.1 (callback u h bytes).1 (callback u h bytes).0))
                got
              ∙ ap (λ b. (counted (suc n), session r' b (callback u h bytes).0)) breaks)
    ],
    refl,
  )
