-- ===== src/Savefile/Ng/Kept.antt =====
-- sf-pcap-ng.c: reading a block and adding an interface keep the `pcap_t` well-formed.
use gap16g_libpcap.Base.{
  ℕ, zero, suc, ◌+◌, ◌-◌, ◌≤◌, ◌≡◌, refl, arith, true, false, List, [], ◌∷◌, length, take, ltb,
}
use gap16g_libpcap.Savefile.Ng.Answer.{Host}
use gap16g_libpcap.Savefile.Ng.Block.{
  Capture, Cursor, max_block, header_size, trailer_size, grow_buffer, read_rest, read_sized,
  read_block, read_bytes,
}
use gap16g_libpcap.Savefile.Ng.Returns.{
  Returns, if-Returns, >>=-Returns, read_bytes-Returns, Divides, Optional, >>=-Optional,
}
use gap16g_libpcap.Savefile.Ng.Known.{IsValid}

-- A block: it is no longer than the buffer, and the file is shorter by twelve bytes at least.
abbrev pub BlockOf : ℕ → Capture → Cursor × Capture → Type 0
BlockOf budget p r =
    IsValid (budget - 12) r.1
    × (Capture.ifcount r.1 + 12 ≤ budget)
    × (length (Capture.file r.1) + 12 ≤ length p.file)
    × (length (Cursor.data_remaining r.0) + 12 ≤ max_block)
    × (length (Cursor.data_remaining r.0) + 12 ≤ Capture.buffer_size r.1)

length-take_most : (n : ℕ) (xs : List ℕ) → length (take n xs) ≤ n
length-take_most zero xs = omega arith
length-take_most (suc n) [] = omega arith
length-take_most (suc n) (x ∷ xs) = omega (arith, length-take_most n xs)

module _ (host : Host) (budget : ℕ) (p : Capture) (valid : IsValid budget p) where
  abbrev Holds : ℕ → ℕ → Type 0
  Holds total size = (total ≤ size) × (p.bufsize ≤ size)

  grow_buffer-Returns : (total : ℕ) → Returns (Holds total) (grow_buffer host p total)
  unfolding grow_buffer
  grow_buffer-Returns total = ground arith

  read_rest-Returns :
      (block_type total : ℕ) (file : List ℕ) (size : ℕ)
      → 12 ≤ total
      → total ≤ max_block
      → length file + 8 ≡ length p.file
      → Holds total size
      → Returns (Optional (BlockOf budget p)) (read_rest host p block_type total file size)
  read_rest-Returns block_type total file size least most shorter holds =
      >>=-Optional (Divides (total - header_size) file) (Optional (BlockOf budget p))
        (read_bytes host (total - header_size) true file) _
        (read_bytes-Returns host (total - header_size) true file) refl
        (λ r parts.
          let short = length-take_most (total - header_size - trailer_size) r.0 in
          (
            record {
              buffered = holds.1;
              listed = valid.listed;
              counted = valid.counted;
              bounded = omega (arith, valid.bounded, parts.1);
              precise = valid.precise;
              known = valid.known;
            },
            omega (arith, valid.bounded, parts.1),
            omega (arith, parts.1),
            omega (arith, short),
            omega (arith, short, holds.0),
          ))

  read_sized-Returns :
      (block_type total : ℕ) (file : List ℕ)
      → length file + 8 ≡ length p.file
      → Returns (Optional (BlockOf budget p)) (read_sized host p block_type total file)
  unfolding read_sized
  read_sized-Returns block_type total file shorter =
      if-Returns _ (ltb max_block total) _ _ (λ _. refl)
        (λ small.
          if-Returns _ (ltb total (header_size + trailer_size)) _ _ (λ _. refl)
            (λ big.
              >>=-Returns (Holds total) _ (grow_buffer host p total) _ (grow_buffer-Returns total)
                (λ size holds.
                  read_rest-Returns block_type total file size (ground arith) (ground arith) shorter
                    holds)))

  pub read_block-Returns : Returns (Optional (BlockOf budget p)) (read_block host p)
  unfolding read_block
  read_block-Returns =
      >>=-Optional (Divides header_size p.file) _ (read_bytes host header_size false p.file) _
        (read_bytes-Returns host header_size false p.file) tt
        (λ r parts. read_sized-Returns _ _ r.1 (omega (arith, parts.1)))
