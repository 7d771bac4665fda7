-- ===== src/Handle/State.antt =====
-- pcap.c: the settings of a capture handle and its activation.
--
-- An `int` is its bit pattern, and a list stands for an array with its count. What a capture module
-- does in `activate_op` and `set_datalink_op` is an argument, and so is the answer of the allocator.
use gap16g_libpcap.Base.{
  ℕ, ◌-◌, ◌^◌, Bool, true, false, List, [], ◌∷◌, ◌==◌, ltb, ◌||◌, if◌then◌else◌,
}

abbrev pub minus : ℕ → ℕ
minus n = 2 ^ 32 - n

abbrev pub pcap_error : ℕ
pcap_error = minus 1

abbrev pub pcap_error_not_activated : ℕ
pcap_error_not_activated = minus 3

abbrev pub pcap_error_activated : ℕ
pcap_error_activated = minus 4

abbrev pub pcap_error_tstamp_precision_notsup : ℕ
pcap_error_tstamp_precision_notsup = minus 12

abbrev pub pcap_warning_tstamp_type_notsup : ℕ
pcap_warning_tstamp_type_notsup = 3

abbrev pub pcap_tstamp_host : ℕ
pcap_tstamp_host = 0

abbrev pub pcap_tstamp_precision_micro : ℕ
pcap_tstamp_precision_micro = 0

abbrev pub dlt_docsis : ℕ
dlt_docsis = 143

-- What `errbuf` holds: nothing, a message of this file, or one of a capture module.
pub data Message : Type 0 where
  empty already_activated no_memory of_module : Message
  of_status unsupported_dlt : ℕ → Message

-- Where `set_datalink_op` points to.
pub data Operation : Type 0 where
  not_initialized absent own : Operation

-- The settings: `p->snapshot` and those of `p->opt`.
pub record Settings : Type 0 where
  pub snapshot : ℕ
  pub promisc : ℕ
  pub rfmon : ℕ
  pub timeout : ℕ
  pub tstamp_type : ℕ
  pub immediate : ℕ
  pub buffer_size : ℕ
  pub tstamp_precision : ℕ

-- `pcap_t`.
pub record Handle : Type 0 where
  pub activated : Bool
  pub settings : Settings
  pub tstamp_type_list : List ℕ
  pub tstamp_precision_list : List ℕ
  pub linktype : ℕ
  pub linktype_ext : ℕ
  pub dlt_list : List ℕ
  pub set_datalink_op : Operation
  pub errbuf : Message

-- `pcap_create_common`, whose `pcap_t` a capture module then adds its lists to.
abbrev pub pcap_create_common : Handle
pcap_create_common = record {
  activated = false;
  settings = record {
    snapshot = 65535;
    promisc = 0;
    rfmon = 0;
    timeout = 0;
    tstamp_type = minus 1;
    immediate = 0;
    buffer_size = 0;
    tstamp_precision = pcap_tstamp_precision_micro;
  };
  tstamp_type_list = [];
  tstamp_precision_list = [];
  linktype = 0;
  linktype_ext = 0;
  dlt_list = [];
  set_datalink_op = not_initialized;
  errbuf = empty;
}

-- `initialize_ops`.
abbrev pub initialize_ops : Handle → Handle
initialize_ops p = record p { set_datalink_op = not_initialized }

-- A call behind `pcap_check_activated`.
unfoldable pub unless_activated : (Handle → ℕ × Handle) → Handle → ℕ × Handle
unless_activated call p =
    if p.activated then (pcap_error_activated, record p { errbuf = already_activated }) else call p

-- A setting that is store_setting as it comes.
abbrev pub store_setting : (Settings → Settings) → Handle → ℕ × Handle
store_setting change p = (0, record p { settings = change p.settings })

abbrev pub pcap_set_snaplen : ℕ → Handle → ℕ × Handle
pcap_set_snaplen v = unless_activated (store_setting (λ s. record s { snapshot = v }))

abbrev pub pcap_set_promisc : ℕ → Handle → ℕ × Handle
pcap_set_promisc v = unless_activated (store_setting (λ s. record s { promisc = v }))

abbrev pub pcap_set_rfmon : ℕ → Handle → ℕ × Handle
pcap_set_rfmon v = unless_activated (store_setting (λ s. record s { rfmon = v }))

abbrev pub pcap_set_timeout : ℕ → Handle → ℕ × Handle
pcap_set_timeout v = unless_activated (store_setting (λ s. record s { timeout = v }))

abbrev pub pcap_set_immediate_mode : ℕ → Handle → ℕ × Handle
pcap_set_immediate_mode v = unless_activated (store_setting (λ s. record s { immediate = v }))

abbrev pub pcap_set_buffer_size : ℕ → Handle → ℕ × Handle
pcap_set_buffer_size v = unless_activated (store_setting (λ s. record s { buffer_size = v }))

-- The loops over a list of the handle.
unfoldable pub is_listed : ℕ → List ℕ → Bool
is_listed v [] = false
is_listed v (x ∷ xs) = x == v || is_listed v xs

-- A value that the list offers, or the one that is offered where there is no list.
unfoldable pub is_offered : ℕ → ℕ → List ℕ → Bool
is_offered v default [] = v == default
is_offered v default (x ∷ xs) = is_listed v (x ∷ xs)

abbrev pub set_tstamp_type : ℕ → Handle → ℕ × Handle
set_tstamp_type v p =
    if is_offered v pcap_tstamp_host p.tstamp_type_list
    then store_setting (λ s. record s { tstamp_type = v }) p
    else (pcap_warning_tstamp_type_notsup, p)

abbrev pub pcap_set_tstamp_type : ℕ → Handle → ℕ × Handle
pcap_set_tstamp_type v = unless_activated (set_tstamp_type v)

abbrev pub set_tstamp_precision : ℕ → Handle → ℕ × Handle
set_tstamp_precision v p =
    if is_offered v pcap_tstamp_precision_micro p.tstamp_precision_list
    then store_setting (λ s. record s { tstamp_precision = v }) p
    else (pcap_error_tstamp_precision_notsup, p)

abbrev pub pcap_set_tstamp_precision : ℕ → Handle → ℕ × Handle
pcap_set_tstamp_precision v = unless_activated (set_tstamp_precision v)

-- The message for a status where the module has left none.
abbrev pub explained : ℕ → Message → Message
explained status empty = of_status status
explained status m = m

module _ (activate_op : Handle → ℕ × Handle) where
  abbrev pub after_activate_op : ℕ × Handle → ℕ × Handle
  after_activate_op (status, p) =
      if ltb status (2 ^ 31)
      then (status, record p { activated = true })
      else (status, initialize_ops (record p { errbuf = explained status p.errbuf }))

  abbrev pub pcap_activate : Handle → ℕ × Handle
  pcap_activate = unless_activated (λ p. after_activate_op (activate_op p))
