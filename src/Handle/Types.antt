-- ===== src/Handle/Types.antt =====
-- pcap.c: the link-layer types and the time stamp types that a handle lists, and `pcap_set_datalink`.
use gap16g_libpcap.Base.{
  ℕ, Bool, true, false, not, List, [], ◌∷◌, ◌==◌, ◌&&◌, if◌then◌else◌, length, Option, none, some,
}
use gap16g_libpcap.Savefile.Header.{dlt_en10mb}
use gap16g_libpcap.Handle.State.{
  Handle, Operation, own, absent, not_initialized, minus, pcap_error, pcap_error_not_activated,
  dlt_docsis, no_memory, unsupported_dlt, is_listed,
}

abbrev pub pcap_datalink : Handle → ℕ
pcap_datalink p = if p.activated then p.linktype else pcap_error_not_activated

abbrev pub pcap_datalink_ext : Handle → ℕ
pcap_datalink_ext p = if p.activated then p.linktype_ext else pcap_error_not_activated

abbrev pub offered_dlts : Handle → List ℕ
offered_dlts p = elim p.dlt_list [ [] ↦ p.linktype ∷ [] | d ∷ ds ↦ d ∷ ds ]

-- The list, its length as what is returned, and the handle.
unfoldable pub pcap_list_datalinks : Bool → Handle → ℕ × Option (List ℕ) × Handle
pcap_list_datalinks granted p =
    if not p.activated
    then (pcap_error_not_activated, none, p)
    else if granted
    then (length (offered_dlts p), some (offered_dlts p), p)
    else (pcap_error, none, record p { errbuf = no_memory })

unfoldable pub pcap_list_tstamp_types : Bool → Handle → ℕ × Option (List ℕ) × Handle
pcap_list_tstamp_types granted p = elim p.tstamp_type_list [
  | [] ↦ (0, none, p)
  | t ∷ ts ↦
      if granted
      then (length (t ∷ ts), some (t ∷ ts), p)
      else (pcap_error, none, record p { errbuf = no_memory })
]

abbrev pub unsupported : ℕ → Handle → ℕ × Handle
unsupported dlt p = (pcap_error, record p { errbuf = unsupported_dlt dlt })

-- Ethernet of which DOCSIS can be asked for, in the order of the list.
abbrev pub is_cable_modem : List ℕ → Bool
is_cable_modem [] = false
is_cable_modem (d ∷ ds) = d == dlt_en10mb && length ds == 1

-- What a call of an operation gives, with what the module's own would give.
abbrev pub called_operation : Operation → ℕ × Handle → Handle → ℕ × Handle
called_operation own result p = result
called_operation absent result p = (0, p)
called_operation not_initialized result p = (pcap_error_not_activated, p)

module _ (set_datalink : Handle → ℕ → ℕ × Handle) where
  abbrev pub call_operation : Handle → ℕ → ℕ × Handle
  call_operation p dlt = called_operation p.set_datalink_op (set_datalink p dlt) p

  abbrev pub after_operation : ℕ → ℕ × Handle → ℕ × Handle
  after_operation dlt (status, p) =
      if status == minus 1 then (minus 1, p) else (0, record p { linktype = dlt })

  abbrev pub is_fixed : Handle → Bool
  is_fixed p = elim p.dlt_list [
    | [] ↦ true
    | d ∷ ds ↦ elim p.set_datalink_op [ absent ↦ true | own ↦ false | not_initialized ↦ false ]
  ]

  unfoldable pub pcap_set_datalink : ℕ → Handle → ℕ × Handle
  pcap_set_datalink dlt p =
      if is_fixed p
      then (if p.linktype == dlt then (0, p) else unsupported dlt p)
      else if not (is_listed dlt p.dlt_list)
      then unsupported dlt p
      else if is_cable_modem p.dlt_list && dlt == dlt_docsis
      then (0, record p { linktype = dlt })
      else after_operation dlt (call_operation p dlt)
