-- ===== src/Savefile/Ng/Sound.antt =====
-- sf-pcap-ng.c: a reader that was opened stays well-formed, packet by packet, until a call fails.
use gap16g_libpcap.Base.{
  ℕ, zero, suc, ◌+◌, ◌-◌, ◌≤◌, ◌<◌, ◌^◌, ◌≡◌, refl, arith, List, length, Option, none, some, inl,
  inr, ◌⊎◌,
}
use gap16g_libpcap.Savefile.Packet.{PacketHeader}
use gap16g_libpcap.Savefile.Ng.Answer.{Host, Answer}
use gap16g_libpcap.Savefile.Ng.Block.{Capture, Cursor, read_block}
use gap16g_libpcap.Savefile.Ng.Open.{
  BlockKind, enhanced, simple, obsolete, interface, section, other, block_kind,
}
use gap16g_libpcap.Savefile.Ng.Next.{
  Got, next_interface, next_section, next_loop, pcap_ng_next_packet, enhanced_at, simple_at,
  obsolete_at,
}
use gap16g_libpcap.Savefile.Ng.Returns.{Returns, weaken, >>=-Returns, >>=-Optional}
use gap16g_libpcap.Savefile.Ng.Known.{IsValid}
use gap16g_libpcap.Savefile.Ng.Kept.{BlockOf, read_block-Returns}
use gap16g_libpcap.Savefile.Ng.Grown.{Follows}
use gap16g_libpcap.Savefile.Ng.Steps.{
  Gives, Shrinks, raise, packet-Returns, next_interface-Returns, next_section-Returns,
}

abbrev pub IsOneOf : BlockKind → Type 0
IsOneOf k =
    (k ≡ enhanced) ⊎ (k ≡ simple) ⊎ (k ≡ obsolete) ⊎ (k ≡ interface) ⊎ (k ≡ section) ⊎ (k ≡ other)

pub BlockKind-cases : (k : BlockKind) → IsOneOf k
BlockKind-cases enhanced = inl refl
BlockKind-cases simple = inr (inl refl)
BlockKind-cases obsolete = inr (inr (inl refl))
BlockKind-cases interface = inr (inr (inr (inl refl)))
BlockKind-cases section = inr (inr (inr (inr (inl refl))))
BlockKind-cases other = inr (inr (inr (inr (inr refl))))

Shrinks-raise :
    (o : Option (PacketHeader × List ℕ)) (short long after : ℕ)
    → short ≤ long
    → Shrinks short o after
    → Shrinks long o after
Shrinks-raise none short long after within h = omega arith
Shrinks-raise (some a) short long after within h = omega arith

module _ (host : Host) (budget : ℕ) (few : budget ≤ 2 ^ 31) where
  weaken-Gives :
      (short long : ℕ)
      → short ≤ long
      → (m : Answer Got) → Returns (Gives budget short) m
      → Returns (Gives budget long) m
  weaken-Gives short long within m holds =
      weaken (Gives budget short) (Gives budget long) m holds
        (λ got gives. (gives.0, gives.1, Shrinks-raise got.0 short long _ within gives.2))

  -- The bytes left in the file are enough fuel.
  next_loop-Returns :
      (fuel : ℕ) (p : Capture)
      → length p.file < fuel
      → IsValid budget p
      → Returns (Gives budget (length p.file)) (next_loop host fuel p)
  unfolding next_loop
  next_loop-Returns zero p enough valid = absurd (omega arith)
  next_loop-Returns (suc fuel) p enough valid =
      >>=-Optional (BlockOf budget p) _ (read_block host p) _
        (read_block-Returns host budget p valid) (valid, tt, omega arith)
        (λ r block.
          let again : (n : ℕ) (p' : Capture)
              → n ≤ budget
              → Follows n r.1 p'
              → Returns (Gives budget (length p.file)) (next_loop host fuel p') =
            λ n p' within follows.
              weaken-Gives (length p'.file) (length p.file) (omega (arith, follows.1, block.2))
                (next_loop host fuel p')
                (next_loop-Returns fuel p' (omega (arith, follows.1, block.2))
                  (raise within follows.0)) in
          let kept = raise {b = budget} (omega arith) block.0 in
          elim (BlockKind-cases (block_kind (Cursor.block_type r.0))) [
            | inl e ↦ rw e (
                packet-Returns budget (length p.file) r.1 r.0 20 (enhanced_at p.is_swapped) kept
                  block.2 block.3 block.4)
            | inr (inl e) ↦ rw e (
                packet-Returns budget (length p.file) r.1 r.0 4 (simple_at p.is_swapped p.snapshot)
                  kept block.2 block.3 block.4)
            | inr (inr (inl e)) ↦ rw e (
                packet-Returns budget (length p.file) r.1 r.0 20 (obsolete_at p.is_swapped) kept
                  block.2 block.3 block.4)
            | inr (inr (inr (inl e))) ↦ rw e (
                >>=-Returns (Follows (budget - 12 + 1) r.1) _ (next_interface host r.1 r.0)
                  (next_loop host fuel)
                  (next_interface-Returns host (budget - 12) r.1 r.0 block.0
                    (omega (arith, block.1)))
                  (λ p' follows. again (budget - 12 + 1) p' (omega (arith, block.1)) follows))
            | inr (inr (inr (inr (inl e)))) ↦ rw e (
                >>=-Returns (Follows budget r.1) _ (next_section r.1 r.0) (next_loop host fuel)
                  (next_section-Returns host budget r.1 r.0 kept)
                  (λ p' follows. again budget p' (omega arith) follows))
            | inr (inr (inr (inr (inr e)))) ↦
                rw e (again budget r.1 (omega arith) (kept, omega arith))
          ])

  -- On a well-formed `pcap_t` with at most 2^31 interfaces and bytes left, a call for the next packet
  -- ends, with a result or a message of the source: it reads no interface that is not set, and it
  -- divides by no 0. Where it gives a packet or the end of the file, the `pcap_t` is well-formed
  -- again. A packet has `caplen` bytes, its block was no longer than the buffer or 16 MB, and the
  -- file is shorter by twelve bytes at least. Of the `pcap_t` of a call that fails it says nothing.
  pub pcap_ng_next_packet-Returns :
      (p : Capture)
      → IsValid budget p
      → Returns (Gives budget (length p.file)) (pcap_ng_next_packet host p)
  unfolding pcap_ng_next_packet
  pcap_ng_next_packet-Returns p valid = next_loop-Returns (length p.file + 1) p (omega arith) valid
