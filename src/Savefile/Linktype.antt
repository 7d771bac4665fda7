-- ===== src/Savefile/Linktype.antt =====
-- pcap-common.c: DLT_ values and the LINKTYPE_ values that stand for them in savefiles.
--
-- The values are those of Linux, where the headers leave a choice. An `int` is its bit pattern, so
-- that -1 is 2 ^ 32 - 1; no negative pattern is in the matching range either way.
use gap16g_libpcap.Base.{
  ℕ, ◌-◌, ◌^◌, ◌≡◌, ◌≢◌, refl, ◌∙◌, sym, arith, Bool, List, [], ◌∷◌, ◌&&◌, ◌==◌, ==_iff, leb,
  if◌then◌else◌, All, Bool-cases, inl, inr,
}

-- `struct linktype_map`.
pub record LinktypeMap : Type 0 where
  pub dlt : ℕ
  pub linktype : ℕ

abbrev pub entry : ℕ → ℕ → LinktypeMap
entry d l = record { dlt = d; linktype = l }

-- `map[]`, up to its end mark.
abbrev pub linktype_map : List LinktypeMap
linktype_map =
    entry 0 0
    ∷ entry 1 1
    ∷ entry 2 2
    ∷ entry 3 3
    ∷ entry 4 4
    ∷ entry 5 5
    ∷ entry 6 6
    ∷ entry 7 7
    ∷ entry 8 8
    ∷ entry 9 9
    ∷ entry 10 10
    ∷ entry 99 99
    ∷ entry 11 100
    ∷ entry 12 101
    ∷ entry 15 102
    ∷ entry 16 103
    ∷ entry 104 104
    ∷ entry 19 106
    ∷ entry 50 50
    ∷ entry 51 51
    ∷ []

abbrev pub minus_one : ℕ
minus_one = 2 ^ 32 - 1

abbrev pub dlt_atm_clip : ℕ
dlt_atm_clip = 19

-- DLT_PFSYNC and LINKTYPE_PFSYNC.
abbrev pub pfsync : ℕ
pfsync = 246

-- DLT_MATCHING_MIN to DLT_MATCHING_MAX, and the same for LINKTYPE_.
abbrev pub is_matching : ℕ → Bool
is_matching v = leb 104 v && leb v 252

unfoldable pub find_dlt : ℕ → List LinktypeMap → ℕ
find_dlt dlt [] = minus_one
find_dlt dlt (e ∷ rest) = if e.dlt == dlt then e.linktype else find_dlt dlt rest

unfoldable pub dlt_to_linktype : ℕ → ℕ
unfolding find_dlt
dlt_to_linktype dlt =
    if dlt == pfsync then pfsync else if is_matching dlt then dlt else find_dlt dlt linktype_map

unfoldable pub find_linktype : ℕ → List LinktypeMap → ℕ
find_linktype linktype [] = linktype
find_linktype linktype (e ∷ rest) =
    if e.linktype == linktype then e.dlt else find_linktype linktype rest

unfoldable pub linktype_to_dlt : ℕ → ℕ
unfolding find_linktype
linktype_to_dlt linktype =
    if linktype == pfsync
    then pfsync
    else if is_matching linktype
    then linktype
    else find_linktype linktype linktype_map

-- Every entry but that of DLT_ATM_CLIP leads back.
abbrev LeadsBack : LinktypeMap → Type 0
LeadsBack e = e.dlt ≢ dlt_atm_clip → linktype_to_dlt e.linktype ≡ e.dlt

entries-LeadsBack : All LeadsBack linktype_map
unfolding linktype_to_dlt
entries-LeadsBack = omega arith

find_dlt-LeadsBack :
    (d : ℕ) (es : List LinktypeMap)
    → All LeadsBack es
    → d ≢ dlt_atm_clip
    → find_dlt d es ≢ minus_one
    → linktype_to_dlt (find_dlt d es) ≡ d
unfolding find_dlt
find_dlt-LeadsBack d [] h other found = absurd (found refl)
find_dlt-LeadsBack d (e ∷ es) h other found = elim (Bool-cases (e.dlt == d)) [
  | inl same ↦
      let is : e.dlt ≡ d = (==_iff e.dlt d).0 same in
      rw same (h.0 (λ clip. other (sym is ∙ clip)) ∙ is)
  | inr different ↦ rw different (find_dlt-LeadsBack d es h.1 other (rw different at found))
]

-- A link-layer type that can be written to a savefile is read back as itself, but for
-- DLT_ATM_CLIP.
pub linktype_to_dlt-dlt_to_linktype :
    (d : ℕ)
    → d ≢ dlt_atm_clip
    → dlt_to_linktype d ≢ minus_one
    → linktype_to_dlt (dlt_to_linktype d) ≡ d
unfolding dlt_to_linktype
linktype_to_dlt-dlt_to_linktype d other found = elim (Bool-cases (d == pfsync)) [
  | inl same ↦ rw same (unfold linktype_to_dlt in ground arith)
  | inr different ↦ elim (Bool-cases (is_matching d)) [
    | inl matching ↦ rw (different, matching) (unfold linktype_to_dlt in ground arith)
    | inr outside ↦
        rw (different, outside)
          (find_dlt-LeadsBack d linktype_map entries-LeadsBack other
            (rw (different, outside) at found))
  ]
]

-- DLT_ATM_CLIP is written as 106, which is in the matching range and is read back as 106.
atm_clip : (dlt_to_linktype dlt_atm_clip ≡ 106) × (linktype_to_dlt 106 ≡ 106)
unfolding dlt_to_linktype linktype_to_dlt
atm_clip = (refl, refl)
