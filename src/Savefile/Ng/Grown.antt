-- ===== src/Savefile/Ng/Grown.antt =====
-- sf-pcap-ng.c: an interface that is added is known, and so are those before it.
use gap16g_libpcap.Base.{
  ℕ, ◌+◌, ◌-◌, ◌*◌, ◌%◌, ◌≤◌, ◌<◌, ◌^◌, ◌≡◌, refl, arith, List, [], ◌∷◌, length, set, ltb, Option,
  some, length-set,
}
use gap16g_libpcap.Savefile.Ng.Answer.{Host}
use gap16g_libpcap.Savefile.Ng.Block.{Interface, Capture, Cursor}
use gap16g_libpcap.Savefile.Ng.Idb.{process_idb_options}
use gap16g_libpcap.Savefile.Ng.Interface.{
  Ifaces, resize, grow_ifaces, scale_to, scale_for, interface_of, interface_size, add_interface,
}
use gap16g_libpcap.Savefile.Ng.Open.{user_tsresol_of}
use gap16g_libpcap.Savefile.Ng.Returns.{Returns, if-Returns, >>=-Returns}
use gap16g_libpcap.Savefile.Ng.Known.{
  IsValid, IsReady, AllKnown, length-resize, AllKnown-resize, AllKnown-set,
}
use gap16g_libpcap.Savefile.Ng.Added.{IsResolution, process_idb_options-Returns}

-- Room for one more interface behind `n` that are known.
abbrev HasRoom : ℕ → ℕ → Ifaces → Type 0
HasRoom user n grown = (length grown.1 ≡ grown.0) × (n < grown.0) × AllKnown user n grown.1

module _ (host : Host) (user n size : ℕ) where
  resized-HasRoom :
      (m : ℕ) (xs : List (Option Interface))
      → n ≤ length xs
      → n < m
      → AllKnown user n xs
      → HasRoom user n (m, resize m xs)
  resized-HasRoom m xs inside room known =
      (length-resize m xs, room, AllKnown-resize user n m xs inside (omega arith) known)

  grow_ifaces-Returns :
      (xs : List (Option Interface))
      → n < 2 ^ 31
      → length xs ≡ size
      → n ≤ size
      → AllKnown user n xs
      → Returns (HasRoom user n) (grow_ifaces host (n + 1) size xs)
  unfolding grow_ifaces
  grow_ifaces-Returns [] few listed counted known =
      if-Returns _ (ltb size (n + 1)) _ _
        (λ full.
          if-Returns _ (host.env.malloc interface_size) _ _
            (λ _. resized-HasRoom 1 [] (omega arith) (omega arith) known) (λ _. refl))
        (λ holds. (listed, ground arith, known))
  grow_ifaces-Returns (x ∷ xs) few listed counted known =
      if-Returns _ (ltb size (n + 1)) _ _
        (λ full.
          if-Returns _ (host.realloc (size * 2 % 2 ^ 32 * interface_size)) _ _
            (λ _. resized-HasRoom (size * 2 % 2 ^ 32) (x ∷ xs) (omega arith) (ground arith) known)
            (λ _. refl))
        (λ holds. (listed, ground arith, known))

scale_for-scale_to :
    (precision user tsresol : ℕ)
    → user_tsresol_of precision ≡ some user
    → scale_for precision tsresol ≡ scale_to user tsresol
unfolding user_tsresol_of scale_for scale_to
scale_for-scale_to precision user tsresol precise = ground arith

-- What the call leaves of the file is what it found.
abbrev pub Follows : ℕ → Capture → Capture → Type 0
Follows budget p p' = IsValid budget p' × (length p'.file ≤ length p.file)

module _ (budget : ℕ) (p : Capture) (valid : IsValid budget p) where
  -- One more interface in an array that has room for it.
  added-IsValid :
      (grown : Ifaces) (f : Interface)
      → HasRoom p.user_tsresol p.ifcount grown
      → IsReady p.user_tsresol f
      → IsValid (budget + 1) (record p {
        ifcount = p.ifcount + 1;
        ifaces_size = grown.0;
        ifaces = set grown.1 p.ifcount (some f);
      })
  added-IsValid grown f room ready = record {
    buffered = valid.buffered;
    listed = rw (length-set grown.1 p.ifcount (some f)) (room.0);
    counted = omega (arith, room.1);
    bounded = omega (arith, valid.bounded);
    precise = valid.precise;
    known =
        AllKnown-set p.user_tsresol p.ifcount grown.1 f (omega (arith, room.0, room.1)) (room.2)
          ready;
  }

  pub add_interface-Returns :
      (host : Host) (c : Cursor)
      → p.ifcount < 2 ^ 31
      → Returns (Follows (budget + 1) p) (add_interface host p c)
  unfolding add_interface
  add_interface-Returns host c few =
      let count : (p.ifcount + 1) % 2 ^ 32 ≡ p.ifcount + 1 = omega arith in
      let last : p.ifcount + 1 - 1 ≡ p.ifcount = omega arith in
      rw (count, last)
        (>>=-Returns (HasRoom p.user_tsresol p.ifcount) _
          (grow_ifaces host (p.ifcount + 1) p.ifaces_size p.ifaces) _
          (grow_ifaces-Returns host p.user_tsresol p.ifcount p.ifaces_size p.ifaces few valid.listed
            valid.counted valid.known)
          (λ grown room.
            >>=-Returns IsResolution _ (process_idb_options host p.is_swapped c 1000000 0) _
              (process_idb_options-Returns host p.is_swapped c 1000000 0 (omega arith)
                (omega arith))
              (λ seen ready. (
                added-IsValid grown (interface_of p.tstamp_precision seen) room (record {
                  positive = ready.positive;
                  narrow = ready.narrow;
                  scaled = scale_for-scale_to _ _ _ valid.precise;
                }),
                omega arith,
              ))))
