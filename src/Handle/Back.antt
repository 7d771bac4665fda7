-- ===== src/Handle/Back.antt =====
-- pcap.c: the name of a type leads back to the type, in any case.
use gap16g_libpcap.Base.{
  ℕ, ◌≡◌, refl, sym, ap, ◌∙◌, Bool, true, false, List, [], ◌∷◌, ◌==◌, ==_iff, ◌&&◌, map, some, inl,
  inr, Bool-cases, Option-cases,
}
use mathlib.Core.Option
use mathlib.Core.Option.{some-injective}
use gap16g_libpcap.Handle.Text.{mapped, head_byte, tail_bytes, pcap_strcasecmp}
use gap16g_libpcap.Handle.Case.{both}
use gap16g_libpcap.Handle.Choices.{Choice, dlt_choices, tstamp_type_choices}
use gap16g_libpcap.Handle.Lookup.{
  name_behind, find_name, find_value, value_or_error, dlt_prefix, pcap_datalink_name_to_val,
  pcap_datalink_val_to_name, pcap_tstamp_type_name_to_val, pcap_tstamp_type_val_to_name,
}

mapped-head_byte :
    (t u : List ℕ) → map mapped t ≡ map mapped u → mapped (head_byte t) ≡ mapped (head_byte u)
mapped-head_byte [] [] e = refl
mapped-head_byte [] (d ∷ u) e = cc e
mapped-head_byte (c ∷ t) [] e = cc e
mapped-head_byte (c ∷ t) (d ∷ u) e = ap head_byte e

mapped-tail_bytes :
    (t u : List ℕ)
    → map mapped t ≡ map mapped u
    → map mapped (tail_bytes t) ≡ map mapped (tail_bytes u)
mapped-tail_bytes [] [] e = refl
mapped-tail_bytes [] (d ∷ u) e = cc e
mapped-tail_bytes (c ∷ t) [] e = cc e
mapped-tail_bytes (c ∷ t) (d ∷ u) e = ap tail_bytes e

-- The comparison sees the second text only through the map.
pcap_strcasecmp-mapped :
    (s t u : List ℕ) → map mapped t ≡ map mapped u → pcap_strcasecmp s t ≡ pcap_strcasecmp s u
unfolding pcap_strcasecmp
pcap_strcasecmp-mapped [] t u e = rw (mapped-head_byte t u e) refl
pcap_strcasecmp-mapped (c ∷ s) t u e =
    rw
      (
        mapped-head_byte t u e,
        pcap_strcasecmp-mapped s (tail_bytes t) (tail_bytes u) (mapped-tail_bytes t u e),
      )
      refl

find_name-mapped :
    (prefix : ℕ) (t u : List ℕ) (cs : List Choice)
    → map mapped t ≡ map mapped u
    → find_name prefix t cs ≡ find_name prefix u cs
unfolding find_name
find_name-mapped prefix t u [] e = refl
find_name-mapped prefix t u (c ∷ cs) e =
    rw (pcap_strcasecmp-mapped (name_behind prefix c) t u e, find_name-mapped prefix t u cs e) refl

-- Each entry of `cs` is the one that its name finds in `table`.
abbrev leads_back : ℕ → List Choice → List Choice → Bool
leads_back prefix table [] = true
leads_back prefix table (c ∷ cs) =
    (value_or_error (find_name prefix (name_behind prefix c) table) == c.value)
    && leads_back prefix table cs

find_value-here :
    (v : ℕ) (x : Choice) (xs : List Choice) → (x.value == v) ≡ true → find_value v (x ∷ xs) ≡ some x
unfolding find_value
find_value-here v x xs e = rw e refl

find_value-past :
    (v : ℕ) (x : Choice) (xs : List Choice)
    → (x.value == v) ≡ false
    → find_value v (x ∷ xs) ≡ find_value v xs
unfolding find_value
find_value-past v x xs e = rw e refl

found-leads_back :
    (prefix v : ℕ) (table cs : List Choice) (c : Choice)
    → leads_back prefix table cs ≡ true
    → find_value v cs ≡ some c
    → value_or_error (find_name prefix (name_behind prefix c) table) ≡ v
unfolding find_value
found-leads_back prefix v table [] c all found = cc found
found-leads_back prefix v table (x ∷ xs) c all found =
    let parts =
      both (value_or_error (find_name prefix (name_behind prefix x) table) == x.value) _ all in
    elim (Bool-cases (x.value == v)) [
      | inr differs ↦
          found-leads_back prefix v table xs c parts.1
            (sym (find_value-past v x xs differs) ∙ found)
      | inl same ↦
          let here : x ≡ c = some-injective _ _ (sym (find_value-here v x xs same) ∙ found) in
          rw⁻¹ here ((==_iff _ x.value).0 parts.0 ∙ (==_iff x.value v).0 same)
    ]

dlt_choices-leads_back : leads_back dlt_prefix dlt_choices dlt_choices ≡ true
unfolding find_name pcap_strcasecmp
dlt_choices-leads_back = refl

tstamp_type_choices-leads_back : leads_back 0 tstamp_type_choices tstamp_type_choices ≡ true
unfolding find_name pcap_strcasecmp
tstamp_type_choices-leads_back = refl

-- The name in a table that a value has, in whatever case it is written, gives the value.
back :
    (prefix v : ℕ) (table : List Choice) (name t : List ℕ)
    → leads_back prefix table table ≡ true
    → Option.map (name_behind prefix) (find_value v table) ≡ some name
    → map mapped t ≡ map mapped name
    → value_or_error (find_name prefix t table) ≡ v
back prefix v table name t all e same = elim (Option-cases (find_value v table)) [
  | inl none_found ↦ absurd (cc (sym (ap (Option.map (name_behind prefix)) none_found) ∙ e))
  | inr (c, found) ↦
      let named : name_behind prefix c ≡ name =
        some-injective _ _ (sym (ap (Option.map (name_behind prefix)) found) ∙ e) in
      ap value_or_error (
        find_name-mapped prefix t (name_behind prefix c) table (same ∙ ap (map mapped) (sym named)))
      ∙ found-leads_back prefix v table table c all found
]

-- The name that a link-layer type has, in whatever case it is written, leads back to the type.
pub pcap_datalink_name_to_val-val_to_name :
    (dlt : ℕ) (name t : List ℕ)
    → pcap_datalink_val_to_name dlt ≡ some name
    → map mapped t ≡ map mapped name
    → pcap_datalink_name_to_val t ≡ dlt
unfolding pcap_datalink_val_to_name pcap_datalink_name_to_val
pcap_datalink_name_to_val-val_to_name dlt name t =
    back dlt_prefix dlt dlt_choices name t dlt_choices-leads_back

-- The same for the types of time stamps.
pub pcap_tstamp_type_name_to_val-val_to_name :
    (v : ℕ) (name t : List ℕ)
    → pcap_tstamp_type_val_to_name v ≡ some name
    → map mapped t ≡ map mapped name
    → pcap_tstamp_type_name_to_val t ≡ v
unfolding pcap_tstamp_type_val_to_name pcap_tstamp_type_name_to_val
pcap_tstamp_type_name_to_val-val_to_name v name t =
    back 0 v tstamp_type_choices name t tstamp_type_choices-leads_back
