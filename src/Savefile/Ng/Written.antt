-- ===== src/Savefile/Ng/Written.antt =====
-- sf-pcap-ng.c: blocks as a pcap-ng file holds them, and how they are read.
use gap16g_libpcap.Base.{
  ℕ, ◌+◌, ◌-◌, ◌≤◌, ◌<◌, ◌^◌, ◌≡◌, refl, arith, Bool, true, false, List, [], ◌++◌, length,
  length-append, ltb, ◌==◌, ==_iff, if◌then◌else◌, some, inl, inr, Bool-cases,
}
use gap16g_libpcap.Savefile.Bytes.{
  long_bytes, long_at, swap_long, host_long, long_bytes-value, swap_long-swap_long,
}
use gap16g_libpcap.Savefile.Reread.{take-all, drop-all}
use gap16g_libpcap.Savefile.Ng.Answer.{Host, ok}
use gap16g_libpcap.Savefile.Ng.Block.{
  Capture, max_block, read_bytes, grow_buffer, read_rest, read_sized, read_block, header_size,
  trailer_size,
}

-- A word in the byte order of the section.
abbrev pub word : Bool → ℕ → List ℕ
word swapped v = long_bytes (host_long swapped v)

-- A block: its type, its length twice, and what is between.
abbrev pub block : Bool → ℕ → List ℕ → List ℕ
block swapped t body =
    word swapped t ++ word swapped (length body + 12) ++ body ++ word swapped (length body + 12)

pub host_long-word :
    (swapped : Bool) (v : ℕ) (rest : List ℕ)
    → v < 2 ^ 32
    → host_long swapped (long_at (word swapped v ++ rest) 0) ≡ v
host_long-word false v rest narrow = omega (arith, long_bytes-value v narrow)
host_long-word true v rest narrow =
    rw (long_bytes-value (swap_long v) (omega arith)) (swap_long-swap_long v narrow)

pub read_bytes-append :
    (host : Host) (fails : Bool) (n : ℕ) (bytes rest : List ℕ)
    → length bytes ≡ n
    → read_bytes host n fails (bytes ++ rest) ≡ ok (some (bytes, rest))
unfolding read_bytes
read_bytes-append host fails n bytes rest e =
    let whole : (n == n) ≡ true = (==_iff n n).1 refl in
    rw (take-all bytes rest n e, drop-all bytes rest n e, e, whole) refl

pub word_range : (swapped : Bool) (v : ℕ) → v < 2 ^ 32 → host_long swapped v < 2 ^ 32
word_range false v narrow = narrow
word_range true v narrow = omega arith

-- The `pcap_t` behind a block.
abbrev pub behind : Capture → ℕ → List ℕ → Capture
behind p total rest = record p {
  buffer_size = if ltb p.bufsize total then total else p.buffer_size;
  file = rest;
}

module _ (host : Host) (p : Capture) (t : ℕ) (body rest : List ℕ) (narrow : t < 2 ^ 32)
    (fits : length body + 12 ≤ max_block) (granted : host.realloc (length body + 12) ≡ true) where
  abbrev at_block : Capture
  at_block = record p { file = block p.is_swapped t body ++ rest }

  grow_buffer-granted :
      grow_buffer host at_block (length body + 12)
      ≡ ok (if ltb p.bufsize (length body + 12) then length body + 12 else p.buffer_size)
  unfolding grow_buffer
  grow_buffer-granted = elim (Bool-cases (ltb p.bufsize (length body + 12))) [
    | inl grows ↦ rw (grows, granted) refl
    | inr holds ↦ rw holds refl
  ]

  abbrev trailer : List ℕ
  trailer = word p.is_swapped (length body + 12)

  read_rest-block :
      (size : ℕ)
      → read_rest host at_block t (length body + 12) ((body ++ trailer) ++ rest) size
        ≡ ok (
            some (
              record { data_remaining = body; block_type = t },
              record p { buffer_size = size; file = rest },
            ))
  read_rest-block size =
      rw
        (
          read_bytes-append host true (length body + 12 - header_size) (body ++ trailer) rest
              (omega (arith, length-append body trailer)),
          take-all body trailer (length body + 12 - header_size - trailer_size) (omega arith),
        )
        refl

  read_sized-block :
      read_sized host at_block t (length body + 12) ((body ++ trailer) ++ rest)
      ≡ ok (
          some (record { data_remaining = body; block_type = t }, behind p (length body + 12) rest))
  unfolding read_sized
  read_sized-block =
      let small : ltb max_block (length body + 12) ≡ false = ground arith in
      let large : ltb (length body + 12) (header_size + trailer_size) ≡ false = ground arith in
      rw (small, large, grow_buffer-granted) (read_rest-block _)

  -- A block of at most 16 MB is read, whatever its type and contents, where the buffer can grow.
  pub read_block-block :
      read_block host at_block
      ≡ ok (
          some (record { data_remaining = body; block_type = t }, behind p (length body + 12) rest))
  unfolding read_block
  read_block-block =
      let total : length body + 12 < 2 ^ 32 = omega arith in
      rw
        (
          read_bytes-append host false header_size
              (word p.is_swapped t ++ word p.is_swapped (length body + 12))
              ((body ++ trailer) ++ rest) refl,
          host_long-word p.is_swapped t [] narrow,
          host_long-word p.is_swapped (length body + 12) [] total,
        )
        read_sized-block
