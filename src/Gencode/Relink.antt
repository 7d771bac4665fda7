-- ===== src/Gencode/Relink.antt =====
-- gencode.c: the links of the exits in the part that `gen_and` or `gen_or` builds of two parts.
use gap16g_libpcap.Base.{
  ℕ, ◌≤◌, ◌≡◌, refl, sym, ap, ◌∙◌, Bool, true, false, not, some, ◌∷◌, ◌++◌, ◌==◌, if◌then◌else◌,
  inl, inr, Bool-cases,
}
use mathlib.Core.Path.{subst}
use gap16g_libpcap.Gencode.{Heap, field, put_field, link}
use gap16g_libpcap.Gencode.Chains.{mem, apart, last_of, Chain, Chain-moved}
use gap16g_libpcap.Gencode.Joined.{exit_of, joined}
use gap16g_libpcap.Gencode.Walk.{Open}
use gap16g_libpcap.Gencode.Fields.{
  field-put_field, field-put_field_other, field-head, field-sense, exit_of-not, link-put_link,
  joined-b1, joined-z, joined-rest,
}
use gap16g_libpcap.Gencode.Exits.{joined_lists, joined_lists-same, joined_lists-other, by_exit}
use gap16g_libpcap.Gencode.Append.{Chain-append}
use gap16g_libpcap.Gencode.Join
use gap16g_libpcap.Gencode.Join.{none_in}

other_exit : (s v : Bool) → exit_of s v ≡ not (exit_of s (not v))
other_exit true true = refl
other_exit true false = refl
other_exit false true = refl
other_exit false false = refl

module _ (d : Bool) (h h' : Heap) (b0 b1 lo mid hi : ℕ) (o0 : Open h lo mid b0)
    (o1 : Open h mid hi b1)
    (is_new : (i : ℕ)
      → h' i ≡ joined d h b0 b1 (o0.lists d) (last_of b1 (o1.lists (not d))) (h b1).head i) where
  abbrev z : ℕ
  z = last_of b1 (o1.lists (not d))

  abbrev exit : Bool → Bool
  exit = exit_of (h b1).sense

  not_first : (i : ℕ) → mid ≤ i → (v : Bool) → mem i (o0.lists v) ≡ false
  not_first = Join.not_first d h h' b0 b1 lo mid hi o0 o1 is_new

  not_b0 : (i : ℕ) → mid ≤ i → (i == b0) ≡ false
  not_b0 = Join.not_b0 d h h' b0 b1 lo mid hi o0 o1 is_new

  unchanged :
      (i : ℕ)
      → (i == b0) ≡ false
      → mem i (o0.lists d) ≡ false
      → (i == b1) ≡ false
      → (i == z) ≡ false
      → h' i ≡ h i
  unchanged i e m e1 ez = is_new i ∙ joined-rest d h b0 b1 z (h b1).head (o0.lists d) i e m e1 ez

  -- The exits of the first part that are exits of the whole.
  chain_first : Chain h' (link (h' b0)) (o0.lists (not d))
  chain_first =
      let e = exit_of (h b0).sense d in
      Chain-moved h h' (field (h b0) (exit_of (h b0).sense (not d))) (link (h' b0))
        (o0.lists (not d))
        (ap link (Join.b0_new d h h' b0 b1 lo mid hi o0 o1 is_new)
          ∙ field-sense (put_field (h b0) e (some (h b1).head)) e (not e)
          ∙ field-put_field_other (h b0) e (some (h b1).head)
          ∙ ap (field (h b0)) (sym (exit_of-not (h b0).sense d)))
        (λ i m.
          unchanged i (apart b0 i (o0.lists (not d)) (o0.not_root (not d)) m)
            (elim (Bool-cases (mem i (o0.lists d))) [
              | inl m' ↦ absurd (none_in i (o0.lists (not d)) (o0.one_list d i m') m)
              | inr m' ↦ m'
            ])
            (Join.not_b1 d h h' b0 b1 lo mid hi o0 o1 is_new i (o0.inside (not d) i m).1)
            (Join.not_z d h h' b0 b1 lo mid hi o0 o1 is_new i (o0.inside (not d) i m).1))
        (o0.chain (not d))

  b1_new : h' b1 ≡ record (if z == b1 then put_field (h b1) (exit (not d)) (some b0) else h b1) {
    head = (h b0).head;
  }
  b1_new =
      is_new b1
      ∙ joined-b1 d h b0 b1 z (h b1).head (o0.lists d) (not_b0 b1 o1.root_in.0)
          (not_first b1 o1.root_in.0 d)

  b1_fields :
      (e : Bool)
      → field (h' b1) e
        ≡ field (if z == b1 then put_field (h b1) (exit (not d)) (some b0) else h b1) e
  b1_fields e =
      ap (λ x. field x e) b1_new
      ∙ field-head (if z == b1 then put_field (h b1) (exit (not d)) (some b0) else h b1) (h b0).head
          e

  -- The exits of the second part that its list keeps.
  second_unchanged : (v : Bool) (i : ℕ) → mem i (o1.lists v) ≡ true → (i == z) ≡ false → h' i ≡ h i
  second_unchanged v i m ez =
      let l = (o1.inside v i m).0 in
      unchanged i (not_b0 i l) (not_first i l d) (apart b1 i (o1.lists v) (o1.not_root v) m) ez

  chain_same : Chain h' (field (h' b1) (exit d)) (o1.lists d)
  chain_same =
      Chain-moved h h' (field (h b1) (exit d)) (field (h' b1) (exit d)) (o1.lists d)
        (b1_fields (exit d) ∙ elim (Bool-cases (z == b1)) [
          | inl e ↦ rw e (
              rw (other_exit (h b1).sense d)
                (field-put_field_other (h b1) (exit (not d)) (some b0)))
          | inr e ↦ rw e refl
        ])
        (λ i m. second_unchanged d i m (elim (Bool-cases (i == z)) [
          | inl ez ↦ absurd (
              none_in i (o1.lists (not d)) (o1.one_list d i m) (
                Join.z_listed d h h' b0 b1 lo mid hi o0 o1 is_new i
                  (apart b1 i (o1.lists d) (o1.not_root d) m) ez))
          | inr ez ↦ ez
        ]))
        (o1.chain d)

  chain_other :
      Chain h' (field (h' b1) (exit (not d))) (o1.lists (not d) ++ (b0 ∷ o0.lists (not d)))
  chain_other =
      let (l, u) = Join.z_in d h h' b0 b1 lo mid hi o0 o1 is_new in
      Chain-append h h' (field (h b1) (exit (not d))) (field (h' b1) (exit (not d))) b1
        (o1.lists (not d)) b0 (o0.lists (not d)) (o1.chain (not d))
        (o1.not_root (not d), o1.distinct (not d))
        (λ e. b1_fields (exit (not d)) ∙ rw e (field-put_field (h b1) (exit (not d)) (some b0)))
        (λ e. b1_fields (exit (not d)) ∙ rw e refl)
        (λ j m e. ap link (second_unchanged (not d) j m e))
        (λ e.
          ap link (
            is_new z
            ∙ joined-z d h b0 b1 z (h b1).head (o0.lists d) (not_b0 z l) (not_first z l d) e)
          ∙ link-put_link (h z) b0)
        chain_first

  pub chain :
      (v : Bool)
      → Chain h' (field (h' b1) (exit_of (h' b1).sense v)) (joined_lists d o0.lists b0 o1.lists v)
  chain v =
      let same_sense : (h' b1).sense ≡ (h b1).sense =
        Join.sense_same d h h' b0 b1 lo mid hi o0 o1 is_new b1 (not_b0 b1 o1.root_in.0) in
      rw same_sense (
        by_exit (λ x. Chain h' (field (h' b1) (exit x)) (joined_lists d o0.lists b0 o1.lists x)) d
          (subst (Chain h' (field (h' b1) (exit d)))
            (sym (joined_lists-same d o0.lists o1.lists b0)) chain_same)
          (subst (Chain h' (field (h' b1) (exit (not d))))
            (sym (joined_lists-other d o0.lists o1.lists b0)) chain_other)
          v)
