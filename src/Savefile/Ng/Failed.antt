-- ===== src/Savefile/Ng/Failed.antt =====
-- sf-pcap-ng.c: an Interface Description Block that makes a call fail, and the call behind it.
use gap16g_libpcap.Base.{
  ℕ, zero, suc, ◌+◌, ◌-◌, ◌%◌, ◌≤◌, ◌<◌, ◌^◌, ◌≡◌, refl, arith, Bool, true, false, List, [], ◌∷◌,
  ◌++◌, length, get_elem?, set, ltb, leb, ◌==◌, ==_iff, Option, none, some, inl, inr, ◌⊎◌,
  Bool-cases,
}
use gap16g_libpcap.Savefile.Ng.Answer.{Host, Refusal, unset_interface, Answer, ok, err, ◌>>=◌}
use gap16g_libpcap.Savefile.Ng.Block.{Interface, Capture, Cursor, max_block}
use gap16g_libpcap.Savefile.Ng.Idb.{Seen, process_idb_options}
use gap16g_libpcap.Savefile.Ng.Interface.{
  Ifaces, interface_of, ifaces_behind, resize, allocated, lost, grow_ifaces, interface_size,
  add_interface, ifaces_left, add_interface_leaves,
}
use gap16g_libpcap.Savefile.Ng.Open.{bt_epb, bt_idb, block_kind, idb_size, description_at}
use gap16g_libpcap.Savefile.Ng.Next.{Arrival, found, next_interface, next_loop, pcap_ng_next_packet}
use gap16g_libpcap.Savefile.Ng.Written.{block, behind, host_long-word, read_block-block}
use gap16g_libpcap.Savefile.Ng.Reread.{
  epb, epb_block, IsNarrow, enhanced_at-epb, get_from_block_data-append,
}
use gap16g_libpcap.Savefile.Ng.Second.{idb, host_short-half, IsDescribed}

-- An entry that is not set, or not there.
abbrev pub IsUnset : List (Option Interface) → ℕ → Type 0
IsUnset xs i = (get_elem? xs i ≡ none) ⊎ (get_elem? xs i ≡ some none)

IsUnset-same : (xs : List (Option Interface)) (i j : ℕ) → j ≡ i → IsUnset xs i → IsUnset xs j
IsUnset-same xs i j e unset = rw e unset

resize-IsUnset :
    (m : ℕ) (xs : List (Option Interface)) (i : ℕ) → IsUnset xs i → IsUnset (resize m xs) i
unfolding resize
resize-IsUnset zero xs i unset = inl refl
resize-IsUnset (suc m) [] zero unset = inr refl
resize-IsUnset (suc m) [] (suc i) unset = resize-IsUnset m [] i (inl refl)
resize-IsUnset (suc m) (x ∷ xs) zero unset = unset
resize-IsUnset (suc m) (x ∷ xs) (suc i) unset = resize-IsUnset m xs i unset

-- What is said of the array that a call gives, if it gives one.
abbrev Leaves : ℕ → Answer Ifaces → Type 0
Leaves i (ok grown) = IsUnset grown.1 i
Leaves i (err e) = Unit

allocated-Leaves :
    (granted : Bool) (size : ℕ) (xs : List (Option Interface)) (i : ℕ)
    → IsUnset xs i
    → Leaves i (allocated granted size xs)
allocated-Leaves true size xs i unset = resize-IsUnset size xs i unset
allocated-Leaves false size xs i unset = tt

grow_ifaces-Leaves :
    (host : Host) (n size : ℕ) (xs : List (Option Interface)) (i : ℕ)
    → IsUnset xs i
    → Leaves i (grow_ifaces host n size xs)
unfolding grow_ifaces
grow_ifaces-Leaves host n size [] i unset = elim (Bool-cases (ltb size n)) [
  | inl full ↦ rw full (allocated-Leaves (host.env.malloc interface_size) 1 [] i unset)
  | inr holds ↦ rw holds unset
]
grow_ifaces-Leaves host n size (x ∷ xs) i unset = elim (Bool-cases (ltb size n)) [
  | inl full ↦ rw full (allocated-Leaves _ _ (x ∷ xs) i unset)
  | inr holds ↦ rw holds unset
]

lost-IsUnset : (size : ℕ) (xs : List (Option Interface)) (i : ℕ) → IsUnset (lost size xs).1 i
lost-IsUnset size [] i = inl refl
lost-IsUnset size (x ∷ xs) i = inl refl

-- The `pcap_t` of a call that succeeds.
abbrev added : Capture → Answer Ifaces → Answer Seen → Answer Capture
added p m n = m >>= λ grown. n >>= λ seen. ok (record p {
  ifcount = (p.ifcount + 1) % 2 ^ 32;
  ifaces_size = grown.0;
  ifaces = set grown.1 ((p.ifcount + 1) % 2 ^ 32 - 1) (some (interface_of p.tstamp_precision seen));
})

-- The `pcap_t` behind a call.
abbrev behind_add : Capture → Answer Ifaces → Answer Seen → Capture
behind_add p m n = record p {
  ifcount = (p.ifcount + 1) % 2 ^ 32;
  ifaces_size = (ifaces_behind p m n).0;
  ifaces = (ifaces_behind p m n).1;
}

ok-injective : {A : Type 0} (x y : A) → ok x ≡ ok y → x ≡ y
ok-injective x y e = cc

added-behind_add :
    (p p' : Capture) (m : Answer Ifaces) (n : Answer Seen)
    → added p m n ≡ ok p'
    → behind_add p m n ≡ p'
added-behind_add p p' (err f) n e = cc
added-behind_add p p' (ok grown) (err f) e = cc
added-behind_add p p' (ok grown) (ok seen) e = ok-injective _ _ e

failed-behind :
    (p : Capture) (m : Answer Ifaces) (n : Answer Seen) (e : Refusal) (i : ℕ)
    → added p m n ≡ err e
    → Leaves i m
    → IsUnset (ifaces_behind p m n).1 i
failed-behind p (err f) n e i failed kept = lost-IsUnset p.ifaces_size p.ifaces i
failed-behind p (ok grown) (err f) e i failed kept = kept
failed-behind p (ok grown) (ok seen) e i failed kept = cc

module _ (host : Host) (p : Capture) (c : Cursor) where
  -- The two descriptions of the call agree.
  pub add_interface-leaves :
      (p' : Capture) → add_interface host p c ≡ ok p' → add_interface_leaves host p c ≡ p'
  unfolding add_interface ifaces_left
  add_interface-leaves p' e = added-behind_add p p' _ _ e

  failed-IsUnset :
      (e : Refusal)
      → add_interface host p c ≡ err e
      → IsUnset p.ifaces p.ifcount
      → IsUnset (ifaces_left host p c).1 p.ifcount
  unfolding add_interface ifaces_left
  failed-IsUnset e failed unset =
      failed-behind p _ (process_idb_options host p.is_swapped c 1000000 0) e p.ifcount failed
        (grow_ifaces-Leaves host ((p.ifcount + 1) % 2 ^ 32) p.ifaces_size p.ifaces p.ifcount unset)

found-unset :
    (p : Capture) (c : Cursor) (a : Arrival)
    → a.interface_id < p.ifcount
    → IsUnset p.ifaces a.interface_id
    → found p c a ≡ err unset_interface
unfolding found
found-unset p c a counted unset =
    let known : leb p.ifcount a.interface_id ≡ false = ground arith in
    elim unset [ inl e ↦ rw (known, e) refl | inr e ↦ rw (known, e) refl ]

-- The next block is a packet of an interface that is counted and not set.
module _ (host : Host) (p : Capture) (a : Arrival) (bytes tail rest : List ℕ) (narrow : IsNarrow a)
    (fits : length (epb_block p.is_swapped a bytes tail) + 12 ≤ max_block)
    (granted : host.realloc (length (epb_block p.is_swapped a bytes tail) + 12) ≡ true)
    (counted : a.interface_id < p.ifcount) (unset : IsUnset p.ifaces a.interface_id) where
  abbrev with_packet : Capture
  with_packet = record p {
    file = block p.is_swapped bt_epb (epb_block p.is_swapped a bytes tail) ++ rest;
  }

  next_loop-unset : (fuel : ℕ) → next_loop host (suc fuel) with_packet ≡ err unset_interface
  unfolding next_loop block_kind
  next_loop-unset fuel =
      rw
        (read_block-block host p bt_epb (epb_block p.is_swapped a bytes tail) rest (omega arith)
          fits granted)
        (rw (get_from_block_data-append 20 bt_epb (epb p.is_swapped a) (bytes ++ tail) refl) (
          rw (enhanced_at-epb p.is_swapped a narrow)
            (found-unset (behind p _ rest) _ a counted unset)))

  next-unset : pcap_ng_next_packet host with_packet ≡ err unset_interface
  unfolding pcap_ng_next_packet
  next-unset =
      let fuel : length with_packet.file + 1 ≡ suc (length with_packet.file) = omega arith in
      rw fuel (next_loop-unset _)

-- An Interface Description Block of the type and the snapshot length of the `pcap_t`.
module _ (host : Host) (p : Capture) (options rest : List ℕ)
    (d : IsDescribed host p p.dlt p.snapshot options) (word : p.snapshot < 2 ^ 32) where
  abbrev body : List ℕ
  body = idb p.is_swapped p.dlt p.snapshot ++ options

  abbrev with_interface : Capture
  with_interface = record p { file = block p.is_swapped bt_idb body ++ rest }

  -- The `pcap_t` and the cursor that `add_interface` gets.
  abbrev described : Capture
  described = behind p (length body + 12) rest

  abbrev in_options : Cursor
  in_options = record { data_remaining = options; block_type = bt_idb }

  next_loop-failed :
      (fuel : ℕ) (e : Refusal)
      → add_interface host described in_options ≡ err e
      → next_loop host (suc fuel) with_interface ≡ err e
  unfolding next_loop block_kind next_interface description_at
  next_loop-failed fuel e failed =
      let dlt : (p.dlt == p.dlt) ≡ true = (==_iff p.dlt p.dlt).1 refl in
      let snap : (p.snapshot == p.snapshot) ≡ true = (==_iff p.snapshot p.snapshot).1 refl in
      rw (read_block-block host p bt_idb body rest (omega arith) d.fits d.granted) (
        rw
          (get_from_block_data-append idb_size bt_idb (idb p.is_swapped p.dlt p.snapshot) options
            refl)
          (rw
            (
              host_short-half p.is_swapped p.dlt [] d.narrow,
              host_long-word p.is_swapped p.snapshot [] word,
              dlt,
              snap,
              failed,
            )
            refl))

  next-failed :
      (e : Refusal)
      → add_interface host described in_options ≡ err e
      → pcap_ng_next_packet host with_interface ≡ err e
  unfolding pcap_ng_next_packet
  next-failed e failed =
      let fuel : length with_interface.file + 1 ≡ suc (length with_interface.file) = omega arith in
      rw fuel (next_loop-failed _ e failed)

-- What is behind that block: a packet of the interface that it describes.
module _ (host : Host) (p : Capture) (options : List ℕ) (a : Arrival)
    (bytes tail rest : List ℕ) where
  abbrev pub packet_behind : List ℕ
  packet_behind = block p.is_swapped bt_epb (epb_block p.is_swapped a bytes tail) ++ rest

  -- The `pcap_t` that is read, and the one behind the call of `add_interface`.
  abbrev pub before_failure : Capture
  before_failure = record p {
    file =
        block p.is_swapped bt_idb (idb p.is_swapped p.dlt p.snapshot ++ options) ++ packet_behind;
  }

  abbrev pub at_interface : Capture
  at_interface = behind p (length (idb p.is_swapped p.dlt p.snapshot ++ options) + 12) packet_behind

  abbrev pub in_block : Cursor
  in_block = record { data_remaining = options; block_type = bt_idb }

  -- An Interface Description Block at which `add_interface` fails, as it does on bad options or
  -- without memory, makes the call fail with the same message. The interface stays counted, and its
  -- entry is not set: if the next block is an Enhanced Packet Block of it, the next call reads the
  -- entry. The block has the type and the snapshot length of the `pcap_t`, which has no entry for
  -- the interface yet; the fields of the blocks fit their words, both have at most 16 MB, the
  -- buffer can grow to them, and there are fewer than 2^32 - 1 interfaces.
  pub pcap_ng_next_packet-failed :
      (e : Refusal)
      → IsDescribed host p p.dlt p.snapshot options
      → p.snapshot < 2 ^ 32
      → IsNarrow a
      → length (epb_block p.is_swapped a bytes tail) + 12 ≤ max_block
      → host.realloc (length (epb_block p.is_swapped a bytes tail) + 12) ≡ true
      → p.ifcount + 1 < 2 ^ 32
      → a.interface_id ≡ p.ifcount
      → IsUnset p.ifaces p.ifcount
      → add_interface host at_interface in_block ≡ err e
      → (pcap_ng_next_packet host before_failure ≡ err e)
        × (pcap_ng_next_packet host (add_interface_leaves host at_interface in_block)
            ≡ err unset_interface)
  pcap_ng_next_packet-failed e d word narrow fits granted few same unset failed = (
    next-failed host p options packet_behind d word e failed,
    next-unset host (add_interface_leaves host at_interface in_block) a bytes tail rest narrow fits
        granted (omega arith)
        (IsUnset-same (ifaces_left host at_interface in_block).1 p.ifcount a.interface_id same
          (failed-IsUnset host at_interface in_block e failed unset)),
  )
