-- ===== src/Handle/Settled.antt =====
-- pcap.c: the settings of a handle over any calls: what activation freezes, and what is offered.
use gap16g_libpcap.Base.{ℕ, ◌≡◌, sym, true, List, ltb, ◌^◌, inr, ◌⊎◌}
use mathlib.Core.Path.{subst}
use gap16g_libpcap.Handle.State.{
  Settings, Handle, unless_activated, set_tstamp_type, set_tstamp_precision, is_offered,
  pcap_tstamp_host, pcap_tstamp_precision_micro, minus, after_activate_op,
}
use gap16g_libpcap.Handle.Calls.{
  Call, snaplen, promisc, rfmon, timeout, immediate_mode, buffer_size, tstamp_type,
  tstamp_precision, datalink, activate, Module, perform, Reached, begun, called, if-both, Leaves,
  pcap_set_datalink-keeps, unless_activated-refused,
}

-- What a handle keeps once it is activated: that it is, and its settings.
pub record IsSettled (s : Settings) (q : Handle) : Type 0 where
  pub activated : q.activated ≡ true
  pub settings : q.settings ≡ s

module _ (m : Module) (s : Settings)
    (keeps : (p : Handle) (dlt : ℕ) → IsSettled s p → IsSettled s (m.set_datalink p dlt).1) where
  refused-IsSettled :
      (call : Handle → ℕ × Handle) (p : Handle)
      → IsSettled s p
      → IsSettled s (unless_activated call p).1
  refused-IsSettled call p settled =
      subst (Leaves (IsSettled s)) (sym (unless_activated-refused call p settled.activated))
        (record { activated = settled.activated; settings = settled.settings })

  perform-IsSettled : (c : Call) (p : Handle) → IsSettled s p → IsSettled s (perform m c p).1
  perform-IsSettled (snaplen v) p h = refused-IsSettled _ p h
  perform-IsSettled (promisc v) p h = refused-IsSettled _ p h
  perform-IsSettled (rfmon v) p h = refused-IsSettled _ p h
  perform-IsSettled (timeout v) p h = refused-IsSettled _ p h
  perform-IsSettled (immediate_mode v) p h = refused-IsSettled _ p h
  perform-IsSettled (buffer_size v) p h = refused-IsSettled _ p h
  perform-IsSettled (tstamp_type v) p h = refused-IsSettled _ p h
  perform-IsSettled (tstamp_precision v) p h = refused-IsSettled _ p h
  perform-IsSettled (datalink v) p h =
      pcap_set_datalink-keeps (IsSettled s) m.set_datalink v p h
        (λ e. record { activated = h.activated; settings = h.settings })
        (λ q g. record { activated = g.activated; settings = g.settings }) (keeps p v h)
  perform-IsSettled activate p h = refused-IsSettled _ p h

  -- Where the operation of the module for a link-layer type leaves an activated handle activated and
  -- its settings alone, so does every sequence of calls.
  pub Reached-IsSettled :
      (p q : Handle)
      → p.activated ≡ true
      → p.settings ≡ s
      → Reached m p q
      → (q.activated ≡ true) × (q.settings ≡ s)
  Reached-IsSettled p q on same begun = (on, same)
  Reached-IsSettled p _ on same (called r c) =
      let h = Reached-IsSettled p _ on same r in
      let next = perform-IsSettled c _ (record { activated = h.0; settings = h.1 }) in
      (next.activated, next.settings)

-- A setting is the default, or one that the list of the handle offers.
abbrev pub IsChosen : ℕ → ℕ → ℕ → List ℕ → Type 0
IsChosen v unset default list = (v ≡ unset) ⊎ (is_offered v default list ≡ true)

-- The time stamp type and the precision are chosen ones.
pub record HasOffered (q : Handle) : Type 0 where
  pub types : IsChosen q.settings.tstamp_type (minus 1) pcap_tstamp_host q.tstamp_type_list
  pub precisions :
      IsChosen q.settings.tstamp_precision pcap_tstamp_precision_micro pcap_tstamp_precision_micro
        q.tstamp_precision_list

-- What the operations of a module do to the lists and the settings.
pub record Respects (m : Module) : Type 0 where
  pub activating : (p : Handle) → HasOffered p → HasOffered (m.activate_op p).1
  pub choosing : (p : Handle) (dlt : ℕ) → HasOffered p → HasOffered (m.set_datalink p dlt).1

unless_activated-HasOffered :
    (call : Handle → ℕ × Handle) (p : Handle)
    → HasOffered p
    → HasOffered (call p).1
    → HasOffered (unless_activated call p).1
unfolding unless_activated
unless_activated-HasOffered call p h made =
    if-both (Leaves HasOffered) p.activated _ _
      (λ _. record { types = h.types; precisions = h.precisions }) (λ _. made)

set_tstamp_type-HasOffered :
    (v : ℕ) (p : Handle) → HasOffered p → HasOffered (set_tstamp_type v p).1
set_tstamp_type-HasOffered v p h =
    if-both (Leaves HasOffered) (is_offered v pcap_tstamp_host p.tstamp_type_list) _ _
      (λ offered. record { types = inr offered; precisions = h.precisions }) (λ _. h)

set_tstamp_precision-HasOffered :
    (v : ℕ) (p : Handle) → HasOffered p → HasOffered (set_tstamp_precision v p).1
set_tstamp_precision-HasOffered v p h =
    if-both (Leaves HasOffered) (is_offered v pcap_tstamp_precision_micro p.tstamp_precision_list) _
      _ (λ offered. record { types = h.types; precisions = inr offered }) (λ _. h)

after_activate_op-HasOffered :
    (op : Handle → ℕ × Handle) (r : ℕ × Handle)
    → HasOffered r.1
    → HasOffered (after_activate_op op r).1
after_activate_op-HasOffered op r h =
    if-both (Leaves HasOffered) (ltb r.0 (2 ^ 31)) _ _
      (λ _. record { types = h.types; precisions = h.precisions })
      (λ _. record { types = h.types; precisions = h.precisions })

module _ (m : Module) (respects : Respects m) where
  perform-HasOffered : (c : Call) (p : Handle) → HasOffered p → HasOffered (perform m c p).1
  perform-HasOffered (snaplen v) p h =
      unless_activated-HasOffered _ p h (record { types = h.types; precisions = h.precisions })
  perform-HasOffered (promisc v) p h =
      unless_activated-HasOffered _ p h (record { types = h.types; precisions = h.precisions })
  perform-HasOffered (rfmon v) p h =
      unless_activated-HasOffered _ p h (record { types = h.types; precisions = h.precisions })
  perform-HasOffered (timeout v) p h =
      unless_activated-HasOffered _ p h (record { types = h.types; precisions = h.precisions })
  perform-HasOffered (immediate_mode v) p h =
      unless_activated-HasOffered _ p h (record { types = h.types; precisions = h.precisions })
  perform-HasOffered (buffer_size v) p h =
      unless_activated-HasOffered _ p h (record { types = h.types; precisions = h.precisions })
  perform-HasOffered (tstamp_type v) p h =
      unless_activated-HasOffered _ p h (set_tstamp_type-HasOffered v p h)
  perform-HasOffered (tstamp_precision v) p h =
      unless_activated-HasOffered _ p h (set_tstamp_precision-HasOffered v p h)
  perform-HasOffered (datalink v) p h =
      pcap_set_datalink-keeps HasOffered m.set_datalink v p h
        (λ e. record { types = h.types; precisions = h.precisions })
        (λ q g. record { types = g.types; precisions = g.precisions }) (respects.choosing p v h)
  perform-HasOffered activate p h =
      unless_activated-HasOffered _ p h
        (after_activate_op-HasOffered m.activate_op (m.activate_op p) (respects.activating p h))

  -- Over any calls the time stamp type and the precision of a handle are the defaults or ones that
  -- its lists offer, where the operations of the module respect this.
  pub Reached-HasOffered : (p q : Handle) → HasOffered p → Reached m p q → HasOffered q
  Reached-HasOffered p q h begun = h
  Reached-HasOffered p _ h (called r c) = perform-HasOffered c _ (Reached-HasOffered p _ h r)
