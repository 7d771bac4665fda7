-- ===== src/Handle/Calls.antt =====
-- pcap.c: the calls on a capture handle, one after the other.
use gap16g_libpcap.Base.{ℕ, ◌≡◌, refl, Bool, true, false, not, ◌&&◌, ◌==◌, if◌then◌else◌}
use gap16g_libpcap.Handle.State.{
  Handle, Message, unless_activated, pcap_set_snaplen, pcap_set_promisc, pcap_set_rfmon,
  pcap_set_timeout, pcap_set_immediate_mode, pcap_set_buffer_size, pcap_set_tstamp_type,
  pcap_set_tstamp_precision, pcap_activate, pcap_error_activated, already_activated, is_listed,
  minus, dlt_docsis, unsupported_dlt, Operation, own, absent, not_initialized,
}
use gap16g_libpcap.Handle.Types.{
  pcap_set_datalink, call_operation, called_operation, is_fixed, is_cable_modem,
}

-- The calls that change a handle.
pub data Call : Type 0 where
  snaplen promisc rfmon timeout immediate_mode buffer_size : ℕ → Call
  tstamp_type tstamp_precision datalink : ℕ → Call
  activate : Call

-- What a capture module does.
pub record Module : Type 0 where
  pub activate_op : Handle → ℕ × Handle
  pub set_datalink : Handle → ℕ → ℕ × Handle

module _ (m : Module) where
  abbrev pub perform : Call → Handle → ℕ × Handle
  perform (snaplen v) = pcap_set_snaplen v
  perform (promisc v) = pcap_set_promisc v
  perform (rfmon v) = pcap_set_rfmon v
  perform (timeout v) = pcap_set_timeout v
  perform (immediate_mode v) = pcap_set_immediate_mode v
  perform (buffer_size v) = pcap_set_buffer_size v
  perform (tstamp_type v) = pcap_set_tstamp_type v
  perform (tstamp_precision v) = pcap_set_tstamp_precision v
  perform (datalink v) = pcap_set_datalink m.set_datalink v
  perform activate = pcap_activate m.activate_op

  -- The handles that calls lead to, whatever they return.
  pub data Reached (p : Handle) : Handle → Type 0 where
    begun : Reached p p
    called : {q : Handle} → Reached p q → (c : Call) → Reached p (perform c q).1

pub if_true : {A : Type 0} (test : Bool) (x y : A) → test ≡ true → (if test then x else y) ≡ x
if_true test x y e = rw e refl

-- What holds on both branches.
pub if-both :
    {A : Type 0} (P : A → Type 0) (test : Bool) (x y : A)
    → (test ≡ true → P x)
    → (test ≡ false → P y)
    → P (if test then x else y)
if-both P true x y one another = one refl
if-both P false x y one another = another refl

-- What is said of the handle that a call leaves.
abbrev pub Leaves : (Handle → Type 0) → ℕ × Handle → Type 0
Leaves I r = I r.1

-- What every branch of `pcap_set_datalink` leaves: the handle, but for its type and its message, or
-- what the operation of the module leaves.
module _ (I : Handle → Type 0) (set_datalink : Handle → ℕ → ℕ × Handle) (dlt : ℕ) (p : Handle)
    (same : I p) (message : (e : Message) → I (record p { errbuf = e }))
    (typed : (q : Handle) → I q → I (record q { linktype = dlt }))
    (operated : I (set_datalink p dlt).1) where
  called_operation-keeps : (o : Operation) → I (called_operation o (set_datalink p dlt) p).1
  called_operation-keeps own = operated
  called_operation-keeps absent = same
  called_operation-keeps not_initialized = same

  pub pcap_set_datalink-keeps : I (pcap_set_datalink set_datalink dlt p).1
  unfolding pcap_set_datalink
  pcap_set_datalink-keeps =
      if-both (Leaves I) (is_fixed set_datalink p) _ _
        (λ _.
          if-both (Leaves I) (p.linktype == dlt) _ _ (λ _. same)
            (λ _. message (unsupported_dlt dlt)))
        (λ _.
          if-both (Leaves I) (not (is_listed dlt p.dlt_list)) _ _
            (λ _. message (unsupported_dlt dlt))
            (λ _.
              if-both (Leaves I) (is_cable_modem p.dlt_list && dlt == dlt_docsis) _ _
                (λ _. typed p same)
                (λ _.
                  if-both (Leaves I) ((call_operation set_datalink p dlt).0 == minus 1) _ _
                    (λ _. called_operation-keeps p.set_datalink_op)
                    (λ _.
                      typed (call_operation set_datalink p dlt).1
                        (called_operation-keeps p.set_datalink_op)))))

-- A handle that is activated refuses a setting.
pub unless_activated-refused :
    (call : Handle → ℕ × Handle) (p : Handle)
    → p.activated ≡ true
    → unless_activated call p ≡ (pcap_error_activated, record p { errbuf = already_activated })
unfolding unless_activated
unless_activated-refused call p on = if_true p.activated _ _ on
