-- ===== src/Handle/Datalink.antt =====
-- pcap.c: the link-layer types that a handle lists, and those that it can be set to.
use gap16g_libpcap.Base.{
  ℕ, ◌≡◌, ◌≢◌, ◌↔◌, refl, arith, true, false, List, [], ◌∷◌, ◌==◌, ==_iff, ◌&&◌, some, inl, inr,
  Bool-cases,
}
use mathlib.Core.Option.{some-injective}
use gap16g_libpcap.Handle.State.{
  Handle, Operation, own, absent, not_initialized, is_listed, minus, pcap_error, dlt_docsis,
}
use gap16g_libpcap.Handle.Types.{
  is_cable_modem, called_operation, after_operation, pcap_set_datalink, pcap_list_datalinks,
}

-- A handle that is activated, with the operation that it has for link-layer types, and a list of
-- them. Every handle that is activated is one.
abbrev pub offering : Operation → List ℕ → Handle → Handle
offering o l p = record p { activated = true; dlt_list = l; set_datalink_op = o }

-- What a handle with that operation and that link-layer type can be set to, beside the types that it
-- lists: any of them, or, where the operation is `NULL`, only the one that it has.
abbrev pub CanSet : Operation → ℕ → List ℕ → ℕ → Type 0
CanSet own linktype ds dlt = is_listed dlt ds ≡ true
CanSet absent linktype ds dlt = linktype ≡ dlt
CanSet not_initialized linktype ds dlt = is_listed dlt ds ≡ true

module _ (set_datalink : Handle → ℕ → ℕ × Handle) (dlt : ℕ) where
  -- The result of the operation, where it is not -1.
  accepted_gives : (r : ℕ × Handle) → r.0 ≢ minus 1 → (after_operation set_datalink dlt r).0 ≡ 0
  accepted_gives r accepted = ground (arith, ==_iff r.0 (minus 1))

  -- An operation that sets types.
  abbrev Sets : Operation → Type 0
  Sets own = Unit
  Sets absent = ⊥
  Sets not_initialized = Unit

  listed_gives :
      (o : Operation) (d : ℕ) (ds : List ℕ) (p : Handle)
      → Sets o
      → (called_operation o (set_datalink (offering o (d ∷ ds) p) dlt) p).0 ≢ minus 1
      → is_listed dlt (d ∷ ds) ≡ true
      → (pcap_set_datalink set_datalink dlt (offering o (d ∷ ds) p)).0 ≡ 0
  unfolding pcap_set_datalink
  listed_gives own d ds p sets accepted listed =
      elim (Bool-cases (is_cable_modem (d ∷ ds) && dlt == dlt_docsis)) [
        | inl cable ↦ rw listed (rw cable refl)
        | inr plain ↦ rw listed (rw plain (accepted_gives _ accepted))
      ]
  listed_gives absent d ds p sets accepted listed = absurd sets
  listed_gives not_initialized d ds p sets accepted listed =
      elim (Bool-cases (is_cable_modem (d ∷ ds) && dlt == dlt_docsis)) [
        | inl cable ↦ rw listed (rw cable refl)
        | inr plain ↦ rw listed (rw plain refl)
      ]

  unlisted_fails :
      (o : Operation) (d : ℕ) (ds : List ℕ) (p : Handle)
      → Sets o
      → is_listed dlt (d ∷ ds) ≡ false
      → (pcap_set_datalink set_datalink dlt (offering o (d ∷ ds) p)).0 ≡ pcap_error
  unfolding pcap_set_datalink
  unlisted_fails own d ds p sets unlisted = rw unlisted refl
  unlisted_fails absent d ds p sets unlisted = absurd sets
  unlisted_fails not_initialized d ds p sets unlisted = rw unlisted refl

  listed_iff :
      (o : Operation) (d : ℕ) (ds : List ℕ) (p : Handle)
      → Sets o
      → (called_operation o (set_datalink (offering o (d ∷ ds) p) dlt) p).0 ≢ minus 1
      → ((pcap_set_datalink set_datalink dlt (offering o (d ∷ ds) p)).0 ≡ 0)
        ↔ (is_listed dlt (d ∷ ds) ≡ true)
  listed_iff o d ds p sets accepted = elim (Bool-cases (is_listed dlt (d ∷ ds))) [
    | inl listed ↦ (λ _. listed, λ _. listed_gives o d ds p sets accepted listed)
    | inr unlisted ↦ (
      λ e. absurd (omega (arith, unlisted_fails o d ds p sets unlisted, e)),
      λ e. absurd (cc (unlisted, e)),
    )
  ]

  -- Without a list or without an operation.
  fixed_iff :
      (o : Operation) (p : Handle)
      → ((pcap_set_datalink set_datalink dlt (offering o [] p)).0 ≡ 0) ↔ (p.linktype ≡ dlt)
  unfolding pcap_set_datalink
  fixed_iff o p = ground (arith, ==_iff p.linktype dlt)

  absent_iff :
      (l : List ℕ) (p : Handle)
      → ((pcap_set_datalink set_datalink dlt (offering absent l p)).0 ≡ 0) ↔ (p.linktype ≡ dlt)
  unfolding pcap_set_datalink
  absent_iff [] p = fixed_iff absent p
  absent_iff (d ∷ ds) p = ground (arith, ==_iff p.linktype dlt)

  single_iff :
      (o : Operation) (p : Handle)
      → Sets o
      → ((pcap_set_datalink set_datalink dlt (offering o [] p)).0 ≡ 0)
        ↔ (is_listed dlt (p.linktype ∷ []) ≡ true)
  unfolding is_listed
  single_iff o p sets = ground (arith, fixed_iff o p, ==_iff p.linktype dlt)

  -- Where there is memory for the list, and the operation of the module does not return -1, an
  -- activated handle can be set to a link-layer type exactly if the type is in the list that it
  -- gives; but a handle whose operation is NULL, exactly if the type is the one that it has,
  -- whatever it lists.
  pub pcap_set_datalink-pcap_list_datalinks :
      (o : Operation) (l : List ℕ) (p : Handle) (ds : List ℕ)
      → (set_datalink (offering o l p) dlt).0 ≢ minus 1
      → (pcap_list_datalinks true (offering o l p)).1 ≡ some ds
      → ((pcap_set_datalink set_datalink dlt (offering o l p)).0 ≡ 0) ↔ CanSet o p.linktype ds dlt
  unfolding pcap_list_datalinks
  pcap_set_datalink-pcap_list_datalinks absent l p ds accepted given = absent_iff l p
  pcap_set_datalink-pcap_list_datalinks own [] p ds accepted given =
      rw⁻¹ (some-injective _ _ given) (single_iff own p tt)
  pcap_set_datalink-pcap_list_datalinks own (d ∷ l) p ds accepted given =
      rw⁻¹ (some-injective _ _ given) (listed_iff own d l p tt accepted)
  pcap_set_datalink-pcap_list_datalinks not_initialized [] p ds accepted given =
      rw⁻¹ (some-injective _ _ given) (single_iff not_initialized p tt)
  pcap_set_datalink-pcap_list_datalinks not_initialized (d ∷ l) p ds accepted given =
      rw⁻¹ (some-injective _ _ given) (listed_iff not_initialized d l p tt (omega arith))
