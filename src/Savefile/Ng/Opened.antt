-- ===== src/Savefile/Ng/Opened.antt =====
-- sf-pcap-ng.c: a reader that is opened is well-formed.
use gap16g_libpcap.Base.{
  ℕ, zero, suc, ◌+◌, ◌-◌, ◌≤◌, ◌<◌, ◌^◌, ◌≡◌, refl, arith, Bool, true, false, List, length, take,
  drop, max, ltb, ◌==◌, some, inl, inr, Option-cases, length-drop,
}
use gap16g_libpcap.Bpf.Packet.{sign_extend}
use gap16g_libpcap.Savefile.Bytes.{long_at, swap_long, host_short, short_at}
use gap16g_libpcap.Savefile.Ng.Answer.{Host, ok, ◌>>=◌, out_of_memory, unknown_version}
use gap16g_libpcap.Savefile.Ng.Block.{
  Capture, Cursor, header_size, trailer_size, read_bytes, read_block, get_from_block_data,
}
use gap16g_libpcap.Savefile.Ng.Interface.{add_interface}
use gap16g_libpcap.Savefile.Ng.Open.{
  block_kind, idb_size, shb_size, bt_shb, magic_of_byte_order, version_number, user_tsresol_of,
  first_interface, find_interface, fresh, read_section, open_capture, check_section, too_short,
  check_byte_order, pcap_ng_check_header,
}
use gap16g_libpcap.Savefile.Ng.Returns.{
  Returns, weaken, if-Returns, >>=-Returns, >>=-Optional, guard-Returns, Chunk, Divides, Optional,
  read_bytes-Returns, get_from_block_data-Returns,
}
use gap16g_libpcap.Savefile.Ng.Known.{IsValid}
use gap16g_libpcap.Savefile.Ng.Kept.{BlockOf, read_block-Returns}
use gap16g_libpcap.Savefile.Ng.Grown.{Follows, add_interface-Returns}
use gap16g_libpcap.Savefile.Ng.Steps.{raise}
use gap16g_libpcap.Savefile.Ng.Sound.{BlockKind-cases}

module _ (host : Host) (budget : ℕ) (few : budget ≤ 2 ^ 31) where
  first_interface-Returns :
      (p : Capture) (c : Cursor)
      → IsValid budget p
      → p.ifcount < 2 ^ 31
      → Returns (IsValid (budget + 1)) (first_interface host p c)
  unfolding first_interface
  first_interface-Returns p c valid fewer =
      >>=-Returns (Chunk idb_size c) _ (get_from_block_data idb_size c) _
        (get_from_block_data-Returns idb_size c)
        (λ got _.
          >>=-Returns (Follows (budget + 1) p) _ (add_interface host p got.1) _
            (add_interface-Returns budget p valid host got.1 fewer)
            (λ p' follows. record {
              buffered = follows.0.buffered;
              listed = follows.0.listed;
              counted = follows.0.counted;
              bounded = follows.0.bounded;
              precise = follows.0.precise;
              known = follows.0.known;
            }))

find_interface-Returns :
    (host : Host) (budget : ℕ)
    → budget ≤ 2 ^ 31
    → (fuel : ℕ) (p : Capture) → length p.file < fuel
    → IsValid budget p
    → Returns (IsValid budget) (find_interface host fuel p)
unfolding find_interface
find_interface-Returns host budget few zero p enough valid = absurd (omega arith)
find_interface-Returns host budget few (suc fuel) p enough valid =
    >>=-Optional (BlockOf budget p) _ (read_block host p) _ (read_block-Returns host budget p valid)
      refl
      (λ r block.
        let again =
          find_interface-Returns host budget few fuel r.1 (omega (arith, block.2))
            (raise (omega arith) block.0) in
        elim (BlockKind-cases (block_kind (Cursor.block_type r.0))) [
          | inl e ↦ rw e refl
          | inr (inl e) ↦ rw e refl
          | inr (inr (inl e)) ↦ rw e refl
          | inr (inr (inr (inl e))) ↦ rw e (
              weaken (IsValid (budget - 12 + 1)) (IsValid budget) (first_interface host r.1 r.0)
                (first_interface-Returns host (budget - 12) (omega arith) r.1 r.0 block.0
                  (omega (arith, block.1)))
                (λ p' v. raise (omega (arith, block.1)) v))
          | inr (inr (inr (inr (inl e)))) ↦ rw e again
          | inr (inr (inr (inr (inr e)))) ↦ rw e again
        ])

sign_extend-le : (n : ℕ) → n ≤ sign_extend n
sign_extend-le n = ground arith

fresh-IsValid :
    (swapped : Bool) (precision user size : ℕ) (file : List ℕ)
    → user_tsresol_of precision ≡ some user
    → IsValid (length file) (fresh swapped precision user size file)
fresh-IsValid swapped precision user size file e = record {
  buffered = sign_extend-le size;
  listed = refl;
  counted = omega arith;
  bounded = omega arith;
  precise = e;
  known = λ i h. absurd (omega arith);
}

read_section-Returns :
    (host : Host) (budget : ℕ) (p : Capture) (total : ℕ)
    → IsValid budget p
    → Returns (IsValid budget) (read_section host p total)
unfolding read_section
read_section-Returns host budget p total valid =
    >>=-Optional (Divides (total - 12) p.file) _ (read_bytes host (total - 12) true p.file) _
      (read_bytes-Returns host (total - 12) true p.file) refl
      (λ r parts.
        guard-Returns (IsValid budget) (host_short p.is_swapped (short_at r.0 0) == version_number)
          (unknown_version (host_short p.is_swapped (short_at r.0 0))) _ refl
          (λ _. record {
            buffered = valid.buffered;
            listed = valid.listed;
            counted = valid.counted;
            bounded = omega (arith, valid.bounded, parts.1);
            precise = valid.precise;
            known = valid.known;
          }))

module _ (host : Host) (precision : ℕ) where
  open_capture-Returns :
      (swapped : Bool) (total : ℕ) (file : List ℕ)
      → length file ≤ 2 ^ 31
      → Returns (IsValid (length file)) (open_capture host swapped precision total file)
  unfolding open_capture
  open_capture-Returns swapped total file few =
      guard-Returns (IsValid (length file)) host.env.calloc out_of_memory _ refl (λ _.
        elim (Option-cases (user_tsresol_of precision)) [
          | inl e ↦ rw e refl
          | inr (user, e) ↦ rw e (
              guard-Returns (IsValid (length file)) (host.env.malloc (sign_extend (max 2048 total)))
                out_of_memory _ refl
                (λ _.
                  >>=-Returns (IsValid (length file)) _
                    (read_section host (fresh swapped precision user (max 2048 total) file) total) _
                    (read_section-Returns host (length file) _ total
                      (fresh-IsValid swapped precision user (max 2048 total) file e))
                    (λ p valid.
                      find_interface-Returns host (length file) few (length p.file + 1) p
                        (omega arith) valid)))
        ])

  check_section-Returns :
      (swapped : Bool) (total : ℕ) (file : List ℕ)
      → length file ≤ 2 ^ 31
      → Returns (IsValid (length file)) (check_section host swapped precision total file)
  unfolding check_section
  check_section-Returns swapped total file few =
      if-Returns _ (ltb total (header_size + shb_size + trailer_size)) _ _ (λ _. refl)
        (λ _. open_capture-Returns swapped total file few)

  -- With a bound on what is left of the file.
  opens :
      (budget : ℕ) (swapped : Bool) (total : ℕ) (file : List ℕ)
      → length file ≤ budget
      → budget ≤ 2 ^ 31
      → Returns
          (Optional (IsValid budget))
          (check_section host swapped precision total file >>= λ p. ok (some p))
  opens budget swapped total file within few =
      >>=-Returns (IsValid (length file)) _ (check_section host swapped precision total file) _
        (check_section-Returns swapped total file (omega arith)) (λ p valid. raise within valid)

  too_short-Returns : (budget : ℕ) → Returns (Optional (IsValid budget)) (too_short host)
  unfolding too_short
  too_short-Returns budget = if-Returns _ host.env.ferror _ _ (λ _. refl) (λ _. tt)

  check_byte_order-Returns :
      (budget total magic : ℕ) (file : List ℕ)
      → length file ≤ budget
      → budget ≤ 2 ^ 31
      → Returns (Optional (IsValid budget)) (check_byte_order host precision total magic file)
  unfolding check_byte_order
  check_byte_order-Returns budget total magic file within few =
      if-Returns _ (magic == magic_of_byte_order) _ _
        (λ _. opens budget false total file within few)
        (λ _.
          if-Returns _ (swap_long magic == magic_of_byte_order) _ _
            (λ _. opens budget true (swap_long total) file within few) (λ _. tt))

  -- On a file of at most 2^31 bytes the check ends, it divides by no 0 and reads no interface that
  -- is not set, and a `pcap_t` that it gives is well-formed.
  pub pcap_ng_check_header-Returns :
      (magic : ℕ) (file : List ℕ)
      → length file ≤ 2 ^ 31
      → Returns (Optional (IsValid (length file))) (pcap_ng_check_header host magic precision file)
  unfolding pcap_ng_check_header
  pcap_ng_check_header-Returns magic file few =
      if-Returns _ (magic == bt_shb) _ _
        (λ _.
          if-Returns _ (length (take 4 file) == 4) _ _
            (λ _.
              if-Returns _ (length (take 4 (drop 4 file)) == 4) _ _
                (λ _.
                  check_byte_order-Returns (length file) (long_at file 0) (long_at (drop 4 file) 0)
                    (drop 8 file) (omega (arith, length-drop 8 file)) few)
                (λ _. too_short-Returns (length file)))
            (λ _. too_short-Returns (length file)))
        (λ _. tt)
