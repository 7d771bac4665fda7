-- ===== src/Handle/Tests.antt =====
-- pcap.c: the theorems at concrete inputs, and a handle that is set up and activated.
use gap16g_libpcap.Base.{◌≡◌, ◌↔◌, refl, arith, true, [], ◌∷◌, map, inl}
use gap16g_libpcap.Handle.Text.{codes, pcap_strcasecmp}
use gap16g_libpcap.Handle.Case.{lower, pcap_strcasecmp_iff}
use gap16g_libpcap.Handle.Lookup.{find_value, pcap_datalink_name_to_val, pcap_datalink_val_to_name}
use gap16g_libpcap.Handle.Back.{pcap_datalink_name_to_val-val_to_name}
use gap16g_libpcap.Handle.State.{
  Handle, pcap_create_common, own, absent, pcap_error, is_listed, is_offered, unless_activated,
}
use gap16g_libpcap.Handle.Types.{pcap_list_datalinks, pcap_set_datalink}
use gap16g_libpcap.Handle.Calls.{
  Module, Reached, begun, called, snaplen, tstamp_precision, activate, datalink, perform,
}
use gap16g_libpcap.Handle.Settled.{HasOffered, Respects, Reached-IsSettled, Reached-HasOffered}
use gap16g_libpcap.Handle.Datalink.{offering, pcap_set_datalink-pcap_list_datalinks}

pcap_strcasecmp_iff_example :
    (pcap_strcasecmp (codes "En10MB") (codes "EN10mb") ≡ 0)
    ↔ (map lower (codes "En10MB") ≡ map lower (codes "EN10mb"))
pcap_strcasecmp_iff_example =
    pcap_strcasecmp_iff (codes "En10MB") (codes "EN10mb") (omega arith) (omega arith)

pcap_datalink_name_to_val-val_to_name_example : pcap_datalink_name_to_val (codes "linux_sll") ≡ 113
unfolding pcap_datalink_val_to_name find_value
pcap_datalink_name_to_val-val_to_name_example =
    pcap_datalink_name_to_val-val_to_name 113 (codes "LINUX_SLL") (codes "linux_sll") refl refl

-- Ethernet on which DOCSIS can be asked for.
abbrev ethernet : Module
ethernet = record {
  activate_op = λ p. (0, record p { linktype = 1; dlt_list = 1 ∷ 143 ∷ []; set_datalink_op = own });
  set_datalink = λ p dlt. (0, p);
}

abbrev created : Handle
created = record pcap_create_common { tstamp_precision_list = 0 ∷ 1 ∷ [] }

-- What a handle for nanoseconds is after its activation.
abbrev active : Handle
active = (perform ethernet activate (perform ethernet (tstamp_precision 1) created).1).1

path :
    Reached ethernet active
      (perform ethernet (datalink 143) (perform ethernet (snaplen 96) active).1).1
path = called (called begun (snaplen 96)) (datalink 143)

Reached-IsSettled_example :
    ((perform ethernet (datalink 143) (perform ethernet (snaplen 96) active).1).1.activated ≡ true)
    × ((perform ethernet (datalink 143) (perform ethernet (snaplen 96) active).1).1.settings
        ≡ active.settings)
unfolding unless_activated is_offered is_listed
Reached-IsSettled_example =
    Reached-IsSettled ethernet active.settings (λ p dlt h. h) active _ refl refl path

created-HasOffered : HasOffered created
created-HasOffered = record { types = inl refl; precisions = inl refl }

ethernet-Respects : Respects ethernet
ethernet-Respects = record {
  activating = λ p h. record { types = h.types; precisions = h.precisions };
  choosing = λ p dlt h. h;
}

path_to_active : Reached ethernet created active
path_to_active = called (called begun (tstamp_precision 1)) activate

Reached-HasOffered_example : HasOffered active
Reached-HasOffered_example =
    Reached-HasOffered ethernet ethernet-Respects created _ created-HasOffered path_to_active

pcap_set_datalink-pcap_list_datalinks_example :
    ((pcap_set_datalink ethernet.set_datalink 143 (offering own (1 ∷ 143 ∷ []) created)).0 ≡ 0)
    ↔ (is_listed 143 (1 ∷ 143 ∷ []) ≡ true)
unfolding pcap_list_datalinks
pcap_set_datalink-pcap_list_datalinks_example =
    pcap_set_datalink-pcap_list_datalinks ethernet.set_datalink 143 own (1 ∷ 143 ∷ []) created
      (1 ∷ 143 ∷ []) (omega arith) refl

-- A module that lists DOCSIS and has no operation to set it.
listed_and_refused :
    (pcap_set_datalink ethernet.set_datalink 143 (record active { set_datalink_op = absent })).0
    ≡ pcap_error
unfolding pcap_set_datalink unless_activated is_offered is_listed
listed_and_refused = refl
