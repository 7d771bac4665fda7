-- ===== src/Handle/Lookup.antt =====
-- pcap.c: the searches by name and by value.
use Prim.Native.String.{String}
use mathlib.Core.Option
use gap16g_libpcap.Base.{ℕ, List, [], ◌∷◌, ◌==◌, if◌then◌else◌, drop, Option, none, some}
use gap16g_libpcap.Handle.State.{pcap_error}
use gap16g_libpcap.Handle.Text.{codes, pcap_strcasecmp}
use gap16g_libpcap.Handle.Choices.{Choice, dlt_choices, tstamp_type_choices}

-- The name behind a prefix of so many bytes.
abbrev pub name_behind : ℕ → Choice → List ℕ
name_behind prefix c = drop prefix (codes c.name)

-- The loops over a table, and what is found.
unfoldable pub find_name : ℕ → List ℕ → List Choice → Option Choice
find_name prefix name [] = none
find_name prefix name (c ∷ cs) =
    let again = find_name prefix name cs in
    if pcap_strcasecmp (name_behind prefix c) name == 0 then some c else again

unfoldable pub find_value : ℕ → List Choice → Option Choice
find_value v [] = none
find_value v (c ∷ cs) = let again = find_value v cs in if c.value == v then some c else again

abbrev pub value_or_error : Option Choice → ℕ
value_or_error none = pcap_error
value_or_error (some c) = c.value

-- `sizeof("DLT_") - 1`
abbrev pub dlt_prefix : ℕ
dlt_prefix = 4

unfoldable pub pcap_datalink_name_to_val : List ℕ → ℕ
pcap_datalink_name_to_val name = value_or_error (find_name dlt_prefix name dlt_choices)

unfoldable pub pcap_datalink_val_to_name : ℕ → Option (List ℕ)
pcap_datalink_val_to_name dlt = Option.map (name_behind dlt_prefix) (find_value dlt dlt_choices)

abbrev pub description_of : Option Choice → Option String
description_of none = none
description_of (some c) = some c.description

unfoldable pub pcap_datalink_val_to_description : ℕ → Option String
pcap_datalink_val_to_description dlt = description_of (find_value dlt dlt_choices)

unfoldable pub pcap_tstamp_type_name_to_val : List ℕ → ℕ
pcap_tstamp_type_name_to_val name = value_or_error (find_name 0 name tstamp_type_choices)

unfoldable pub pcap_tstamp_type_val_to_name : ℕ → Option (List ℕ)
pcap_tstamp_type_val_to_name t = Option.map (name_behind 0) (find_value t tstamp_type_choices)

unfoldable pub pcap_tstamp_type_val_to_description : ℕ → Option String
pcap_tstamp_type_val_to_description t = description_of (find_value t tstamp_type_choices)
