-- ===== src/Savefile/Offline/Delivers.antt =====
-- savefile.c: `pcap_offline_read` on a file that gives some packets and then ends.
use gap16g_libpcap.Base.{
  ℕ, zero, suc, ◌+◌, ◌≤◌, ◌<◌, ◌≡◌, refl, sym, ap, ◌∙◌, arith, Bool, true, false, Option, none,
  some, List, [], ◌∷◌, All, length, take, leb, ltb, ◌&&◌, ◌⊎◌, inl, inr, Bool-cases,
}
use mathlib.Core.Path.{subst}
use gap16g_libpcap.Savefile.Bytes.{Env}
use gap16g_libpcap.Savefile.Header.{Pcap}
use gap16g_libpcap.Savefile.Packet.{PacketHeader, Reader, packet, end_of_file, pcap_next_packet}
use gap16g_libpcap.Savefile.Reread.{Captured}
use gap16g_libpcap.Savefile.Roundtrip.{Gives}
use gap16g_libpcap.Savefile.Offline.{counted, Session, read_loop}

module _ {ℓ} {U : Type ℓ} (env : Env) (p : Pcap) (judged : PacketHeader → List ℕ → Option Bool)
    (callback : U → PacketHeader → List ℕ → U × Bool) where
  abbrev pub accepts : Captured → Bool
  accepts (h, bytes) = elim (judged h bytes) [ none ↦ false | some a ↦ a ]

  -- The packets that pass the filter.
  abbrev pub selected : List Captured → List Captured
  selected [] = []
  selected (c ∷ cs) = let rest = selected cs in elim (accepts c) [ true ↦ c ∷ rest | false ↦ rest ]

  selected-accepted :
      (h : PacketHeader) (bytes : List ℕ) (cs : List Captured)
      → judged h bytes ≡ some true
      → selected ((h, bytes) ∷ cs) ≡ (h, bytes) ∷ selected cs
  selected-accepted h bytes cs judges = rw (selected, judges) refl

  selected-rejected :
      (h : PacketHeader) (bytes : List ℕ) (cs : List Captured)
      → judged h bytes ≡ some false
      → selected ((h, bytes) ∷ cs) ≡ selected cs
  selected-rejected h bytes cs judges = rw (selected, judges) refl

  abbrev pub IsJudged : Captured → Type 0
  IsJudged (h, bytes) = (a : Bool) × (judged h bytes ≡ some a)

  -- The state of the callback when it has seen these packets.
  abbrev pub seen : U → List Captured → U
  seen u [] = u
  seen u ((h, bytes) ∷ cs) = seen (callback u h bytes).0 cs

  abbrev pub IsQuiet : Type ℓ
  IsQuiet = (u : U) (h : PacketHeader) (bytes : List ℕ) → (callback u h bytes).1 ≡ false

  -- Between two packets, while no one asked to stop.
  abbrev pub at : Reader → U → Session U
  at r u = record { reader = r; break_loop = false; user = u }

  no_count : (n : ℕ) → (leb 0 (suc n) && ltb 0 0) ≡ false
  no_count n = ground arith

  module _ (cnt fuel n : ℕ) (r : Reader) (u : U) where
    read_loop-end :
        (pcap_next_packet env p r).0 ≡ end_of_file
        → read_loop env p judged callback cnt (suc fuel) n (at r u)
          ≡ (counted 0, at (pcap_next_packet env p r).1 u)
    unfolding read_loop
    read_loop-end gives = rw (read_loop, gives) refl

    module _ (r' : Reader) (h : PacketHeader) (bytes : List ℕ)
        (got : pcap_next_packet env p r ≡ (packet h bytes, r')) where
      read_loop-rejected :
          judged h bytes ≡ some false
          → read_loop env p judged callback cnt (suc fuel) n (at r u)
            ≡ read_loop env p judged callback cnt fuel n (at r' u)
      unfolding read_loop
      read_loop-rejected judges =
          rw (read_loop, got, judges)
            (ap (λ t. read_loop env p judged callback cnt fuel n (at t.1 u)) got)

      read_loop-accepted :
          (callback u h bytes).1 ≡ false
          → judged h bytes ≡ some true
          → (leb cnt (suc n) && ltb 0 cnt) ≡ false
          → read_loop env p judged callback cnt (suc fuel) n (at r u)
            ≡ read_loop env p judged callback cnt fuel (suc n) (at r' (callback u h bytes).0)
      unfolding read_loop
      read_loop-accepted quiet judges more =
          rw (read_loop, got, judges, more, quiet)
            (ap
              (λ t.
                read_loop env p judged callback cnt fuel (suc n) (at t.1 (callback u h bytes).0))
              got)

      read_loop-last :
          (callback u h bytes).1 ≡ false
          → judged h bytes ≡ some true
          → (leb cnt (suc n) && ltb 0 cnt) ≡ true
          → read_loop env p judged callback cnt (suc fuel) n (at r u)
            ≡ (counted (suc n), at r' (callback u h bytes).0)
      unfolding read_loop
      read_loop-last quiet judges last =
          rw (read_loop, got, judges, last, quiet)
            (ap (λ t. (counted (suc n), at t.1 (callback u h bytes).0)) got)

  -- Without a count, every packet is read.
  pub read_loop-all :
      (quiet : IsQuiet) (n fuel : ℕ) (r : Reader) (u : U) (packets : List Captured)
      → Gives env p r packets
      → All IsJudged packets
      → length packets < fuel
      → (r' : Reader) × (read_loop env p judged callback 0 fuel n (at r u)
          ≡ (counted 0, at r' (seen u (selected packets))))
  read_loop-all quiet n zero r u packets gives all enough = absurd (omega arith)
  read_loop-all quiet n (suc fuel) r u [] gives all enough =
      ((pcap_next_packet env p r).1, read_loop-end 0 fuel n r u gives)
  read_loop-all quiet n (suc fuel) r u ((h, bytes) ∷ cs) (r', got, gives) ((a, judges), all)
        enough =
      elim (Bool-cases a) [
        | inl passes ↦
            let judges' = judges ∙ ap some passes in
            let (r'', rest) =
              read_loop-all quiet (suc n) fuel r' (callback u h bytes).0 cs gives all
                (omega arith) in
            (
              r'',
              read_loop-accepted 0 fuel n r u r' h bytes got (quiet u h bytes) judges' (no_count n)
                  ∙ rest
                  ∙ ap (λ us. (counted 0, at r'' (seen u us)))
                      (sym (selected-accepted h bytes cs judges')),
            )
        | inr fails ↦
            let judges' = judges ∙ ap some fails in
            let (r'', rest) = read_loop-all quiet n fuel r' u cs gives all (omega arith) in
            (
              r'',
              read_loop-rejected 0 fuel n r u r' h bytes got judges'
                  ∙ rest
                  ∙ ap (λ us. (counted 0, at r'' (seen u us)))
                      (sym (selected-rejected h bytes cs judges')),
            )
      ]

  -- With a count, of which `suc k` packets are left to deliver: what the call ends with.
  abbrev pub Counted : ℕ → ℕ → ℕ → ℕ → Reader → U → List Captured → Type ℓ
  Counted cnt fuel n k r u passed =
      ((suc k ≤ length passed)
        × (r' : Reader) × (read_loop env p judged callback cnt fuel n (at r u)
            ≡ (counted cnt, at r' (seen u (take (suc k) passed)))))
      ⊎ ((length passed < suc k)
          × (r' : Reader) × (read_loop env p judged callback cnt fuel n (at r u)
              ≡ (counted 0, at r' (seen u passed))))

  Counted-skip :
      (cnt fuel n k : ℕ) (r r' : Reader) (u : U) (passed : List Captured)
      → read_loop env p judged callback cnt (suc fuel) n (at r u)
        ≡ read_loop env p judged callback cnt fuel n (at r' u)
      → Counted cnt fuel n k r' u passed
      → Counted cnt (suc fuel) n k r u passed
  Counted-skip cnt fuel n k r r' u passed skip (inl (enough, end, e)) = inl (enough, end, skip ∙ e)
  Counted-skip cnt fuel n k r r' u passed skip (inr (few, end, e)) = inr (few, end, skip ∙ e)

  Counted-call :
      (cnt fuel n k : ℕ) (r r' : Reader) (u : U) (h : PacketHeader) (bytes : List ℕ)
      (passed : List Captured)
      → read_loop env p judged callback cnt (suc fuel) n (at r u)
        ≡ read_loop env p judged callback cnt fuel (suc n) (at r' (callback u h bytes).0)
      → Counted cnt fuel (suc n) k r' (callback u h bytes).0 passed
      → Counted cnt (suc fuel) n (suc k) r u ((h, bytes) ∷ passed)
  Counted-call cnt fuel n k r r' u h bytes passed step (inl (enough, end, e)) =
      inl (omega arith, end, step ∙ e)
  Counted-call cnt fuel n k r r' u h bytes passed step (inr (few, end, e)) =
      inr (omega arith, end, step ∙ e)

  pub read_loop-Counted :
      (quiet : IsQuiet) (cnt n k fuel : ℕ) (r : Reader) (u : U) (packets : List Captured)
      → n + suc k ≡ cnt
      → Gives env p r packets
      → All IsJudged packets
      → length packets < fuel
      → Counted cnt fuel n k r u (selected packets)
  read_loop-Counted quiet cnt n k zero r u packets left gives all enough = absurd (omega arith)
  read_loop-Counted quiet cnt n k (suc fuel) r u [] left gives all enough =
      inr (omega arith, (pcap_next_packet env p r).1, read_loop-end cnt fuel n r u gives)
  read_loop-Counted quiet cnt n k (suc fuel) r u ((h, bytes) ∷ cs) left (r', got, gives)
        ((a, judges), all) enough =
      elim (Bool-cases a) [
        | inr fails ↦
            let judges' = judges ∙ ap some fails in
            subst (Counted cnt (suc fuel) n k r u) (sym (selected-rejected h bytes cs judges')) (
              Counted-skip cnt fuel n k r r' u (selected cs)
                (read_loop-rejected cnt fuel n r u r' h bytes got judges')
                (read_loop-Counted quiet cnt n k fuel r' u cs left gives all (omega arith)))
        | inl passes ↦
            let judges' = judges ∙ ap some passes in
            subst (Counted cnt (suc fuel) n k r u) (sym (selected-accepted h bytes cs judges')) (
              elim k
                  as (λ k.
                    n + suc k ≡ cnt → Counted cnt (suc fuel) n k r u ((h, bytes) ∷ selected cs)) [
                      | zero ↦ λ left.
                          let one : suc n ≡ cnt = omega arith in
                          inl (
                            omega arith,
                            r',
                            read_loop-last cnt fuel n r u r' h bytes got (quiet u h bytes) judges'
                                  (ground arith)
                                ∙ ap (λ m. (counted m, at r' (callback u h bytes).0)) one,
                          )
                      | suc k' ↦ λ left.
                          Counted-call cnt fuel n k' r r' u h bytes (selected cs)
                            (read_loop-accepted cnt fuel n r u r' h bytes got (quiet u h bytes)
                              judges' (ground arith))
                            (read_loop-Counted quiet cnt (suc n) k' fuel r' (callback u h bytes).0
                              cs (omega arith) gives all (omega arith))
                    ]
                left)
      ]
