-- ===== src/Savefile/Ng/Second.antt =====
-- sf-pcap-ng.c: a second Interface Description Block, under `pcap_ng_next_packet`.
use gap16g_libpcap.Base.{
  ℕ, suc, ◌+◌, ◌≤◌, ◌<◌, ◌^◌, ◌≡◌, ◌≢◌, refl, sym, ◌∙◌, arith, Bool, true, false, List, [], ◌∷◌,
  ◌++◌, length, ◌==◌,
}
use gap16g_libpcap.Savefile.Bytes.{short_bytes, short_at, host_short}
use gap16g_libpcap.Savefile.Linktype.{linktype_to_dlt}
use gap16g_libpcap.Savefile.Ng.Answer.{Host, err, different_type}
use gap16g_libpcap.Savefile.Ng.Block.{Capture, max_block}
use gap16g_libpcap.Savefile.Ng.Open.{bt_idb, block_kind, idb_size, description_at}
use gap16g_libpcap.Savefile.Ng.Next.{next_interface, next_loop, pcap_ng_next_packet}
use gap16g_libpcap.Savefile.Ng.Written.{word, block, read_block-block}
use gap16g_libpcap.Savefile.Ng.Reread.{get_from_block_data-append}

-- The fixed part of an Interface Description Block.
abbrev pub idb : Bool → ℕ → ℕ → List ℕ
idb s linktype snaplen = short_bytes (host_short s linktype) ++ 0 ∷ 0 ∷ word s snaplen

pub host_short-half :
    (s : Bool) (v : ℕ) (rest : List ℕ)
    → v < 2 ^ 16
    → host_short s (short_at (short_bytes (host_short s v) ++ rest) 0) ≡ v
host_short-half false v rest narrow = omega arith
host_short-half true v rest narrow = omega arith

-- An Interface Description Block that the reader gets to: it has at most 16 MB, and the buffer can
-- grow to it.
pub record IsDescribed (host : Host) (p : Capture) (linktype snaplen : ℕ) (options : List ℕ)
    : Type 0 where
  pub narrow : linktype < 2 ^ 16
  pub fits : length (idb p.is_swapped linktype snaplen ++ options) + 12 ≤ max_block
  pub granted : host.realloc (length (idb p.is_swapped linktype snaplen ++ options) + 12) ≡ true

module _ (host : Host) (p : Capture) (linktype snaplen : ℕ) (options rest : List ℕ)
    (d : IsDescribed host p linktype snaplen options) where
  next_loop-idb :
      (fuel : ℕ)
      → p.dlt ≢ linktype
      → next_loop host (suc fuel) (record p {
        file = block p.is_swapped bt_idb (idb p.is_swapped linktype snaplen ++ options) ++ rest;
      })
        ≡ err (different_type linktype)
  unfolding next_loop block_kind next_interface description_at
  next_loop-idb fuel differs =
      let apart : (p.dlt == linktype) ≡ false = ground arith in
      rw
        (read_block-block host p bt_idb (idb p.is_swapped linktype snaplen ++ options) rest
          (omega arith) d.fits d.granted)
        (rw
          (get_from_block_data-append idb_size bt_idb (idb p.is_swapped linktype snaplen) options
            refl)
          (rw (host_short-half p.is_swapped linktype [] d.narrow) (rw apart refl)))

  -- Where a link-layer type and its DLT differ, a second interface of the link-layer type that the
  -- `pcap_t` has its DLT from is refused as one of a different type, whatever its snapshot length and
  -- its options.
  pub pcap_ng_next_packet-idb :
      p.dlt ≡ linktype_to_dlt linktype
      → linktype_to_dlt linktype ≢ linktype
      → pcap_ng_next_packet host (record p {
        file = block p.is_swapped bt_idb (idb p.is_swapped linktype snaplen ++ options) ++ rest;
      })
        ≡ err (different_type linktype)
  unfolding pcap_ng_next_packet
  pcap_ng_next_packet-idb same apart =
      let file = block p.is_swapped bt_idb (idb p.is_swapped linktype snaplen ++ options) ++ rest in
      let fuel : length file + 1 ≡ suc (length file) = omega arith in
      rw fuel (next_loop-idb _ (λ e. apart (sym same ∙ e)))
