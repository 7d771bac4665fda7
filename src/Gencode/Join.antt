-- ===== src/Gencode/Join.antt =====
-- gencode.c: a packet's walk through the part that `gen_and` or `gen_or` built of two.
use gap16g_libpcap.Base.{
  ℕ, suc, ◌+◌, ◌≤◌, ◌<◌, ◌≡◌, refl, sym, ap, ◌∙◌, arith, Bool, true, false, not, ◌||◌, some, List,
  ◌∷◌, ◌==◌, ==_iff, inl, inr, Bool-cases,
}
use mathlib.Core.Path.{subst}
use gap16g_libpcap.Gencode.{Branch, Heap, field, put_field}
use gap16g_libpcap.Gencode.Chains.{mem, apart, last_of}
use gap16g_libpcap.Gencode.Joined.{exit_of, joined, same_id, differ_sym, last_of-in}
use gap16g_libpcap.Gencode.Walk.{Open, Leads, at_root, in_list, onward}
use gap16g_libpcap.Gencode.Fields.{
  field-put_field, field-sense, exit_of-not, joined-b0, joined-list, joined-code, joined-sense,
  joined-field,
}
use gap16g_libpcap.Gencode.Exits.{
  joined_lists, both, both-join, both-leave, by_exit, from_second, from_first, exit_of_part,
}

pub differ_of-lt : (i j : ℕ) → i < j → (i == j) ≡ false
differ_of-lt i j e = ground arith

pub none_in : (i : ℕ) (is : List ℕ) → mem i is ≡ false → ¬ (mem i is ≡ true)
none_in i is out m = cc (sym out ∙ m)

module _ (d : Bool) (h h' : Heap) (b0 b1 lo mid hi : ℕ) (o0 : Open h lo mid b0)
    (o1 : Open h mid hi b1)
    (is_new : (i : ℕ)
      → h' i ≡ joined d h b0 b1 (o0.lists d) (last_of b1 (o1.lists (not d))) (h b1).head i) where
  abbrev target : ℕ
  target = (h b1).head

  abbrev z : ℕ
  z = last_of b1 (o1.lists (not d))

  abbrev lists : Bool → List ℕ
  lists = joined_lists d o0.lists b0 o1.lists

  pub z_in : (mid ≤ z) × (z < hi)
  z_in = elim (Bool-cases (z == b1)) [
    | inl e ↦ rw ((==_iff z b1).0 e) o1.root_in
    | inr e ↦
        o1.inside (not d) z
          (sym (ap (λ t. t || mem z (o1.lists (not d))) e) ∙ last_of-in b1 (o1.lists (not d)))
  ]

  pub z_listed : (i : ℕ) → (i == b1) ≡ false → (i == z) ≡ true → mem i (o1.lists (not d)) ≡ true
  z_listed i e ez =
      sym (ap (λ t. t || mem i (o1.lists (not d))) e)
      ∙ ap (λ k. mem k (b1 ∷ o1.lists (not d))) ((==_iff i z).0 ez)
      ∙ last_of-in b1 (o1.lists (not d))

  first_lower : (i : ℕ) → mid ≤ i → lo ≤ i
  first_lower i l = let (a, b) = o0.root_in in omega arith

  second_upper : (i : ℕ) → i < mid → i < hi
  second_upper i l = let (a, b) = o1.root_in in omega arith

  pub not_first : (i : ℕ) → mid ≤ i → (v : Bool) → mem i (o0.lists v) ≡ false
  not_first i r v = elim (Bool-cases (mem i (o0.lists v))) [
    | inl m ↦ let (a, b) = o0.inside v i m in absurd (omega arith)
    | inr m ↦ m
  ]

  pub not_second : (i : ℕ) → i < mid → (v : Bool) → mem i (o1.lists v) ≡ false
  not_second i r v = elim (Bool-cases (mem i (o1.lists v))) [
    | inl m ↦ let (a, b) = o1.inside v i m in absurd (omega arith)
    | inr m ↦ m
  ]

  pub not_b0 : (i : ℕ) → mid ≤ i → (i == b0) ≡ false
  not_b0 i r = let (a, b) = o0.root_in in differ_sym b0 i (differ_of-lt b0 i (omega arith))

  pub not_b1 : (i : ℕ) → i < mid → (i == b1) ≡ false
  not_b1 i r = let (a, b) = o1.root_in in differ_of-lt i b1 (omega arith)

  pub not_z : (i : ℕ) → i < mid → (i == z) ≡ false
  not_z i r = let (a, b) = z_in in differ_of-lt i z (omega arith)

  pub code_same : (i : ℕ) → (h' i).code ≡ (h i).code
  code_same i = ap (λ x. x.code) (is_new i) ∙ joined-code d h b0 b1 z target (o0.lists d) i

  pub sense_same : (i : ℕ) → (i == b0) ≡ false → (h' i).sense ≡ (h i).sense
  sense_same i e = ap (λ x. x.sense) (is_new i) ∙ joined-sense d h b0 b1 z target (o0.lists d) i e

  field_same :
      (i : ℕ) (exit : Bool)
      → (i == b0) ≡ false
      → (i == b1) ≡ false
      → (mem i (o0.lists d) ≡ true → exit ≡ (h i).sense)
      → ((i == z) ≡ true → exit ≡ (h i).sense)
      → field (h' i) exit ≡ field (h i) exit
  field_same i exit e e1 listed linked =
      ap (λ x. field x exit) (is_new i)
      ∙ joined-field d h b0 b1 z target (o0.lists d) i exit e e1 listed linked

  pub b0_new : h' b0 ≡ record (put_field (h b0) (exit_of (h b0).sense d) (some target)) {
    sense = exit_of (h b0).sense d;
  }
  b0_new = is_new b0 ∙ joined-b0 d h b0 b1 z target (o0.lists d)

  b0_sense : (h' b0).sense ≡ exit_of (h b0).sense d
  b0_sense = ap (λ x. x.sense) b0_new

  b0_exit : field (h' b0) (exit_of (h b0).sense d) ≡ some target
  b0_exit =
      let exit = exit_of (h b0).sense d in
      ap (λ x. field x exit) b0_new
      ∙ field-sense (put_field (h b0) exit (some target)) exit exit
      ∙ field-put_field (h b0) exit (some target)

  list_apart : (i : ℕ) (v : Bool) → mem i (o0.lists v) ≡ true → (i == b0) ≡ false
  list_apart i v m = apart b0 i (o0.lists v) (o0.not_root v) m

  list_exit : (i : ℕ) → mem i (o0.lists d) ≡ true → field (h' i) (not (h i).sense) ≡ some target
  list_exit i m =
      ap (λ x. field x (not (h i).sense))
        (is_new i ∙ joined-list d h b0 b1 z target (o0.lists d) i (list_apart i d m) m)
      ∙ field-put_field (h i) (not (h i).sense) (some target)

  -- The blocks whose exits lead to the second part have no exit of the whole.
  list_alone : (i : ℕ) → mem i (o0.lists d) ≡ true → (x : Bool) → ¬ (mem i (lists x) ≡ true)
  list_alone i m x m' = elim (exit_of_part d o0.lists o1.lists b0 x i m') [
    | inl m1 ↦ none_in i (o1.lists x) (not_second i (o0.inside d i m).1 x) m1
    | inr (p, m0) ↦
        none_in i (b0 ∷ o0.lists (not d)) (rw (list_apart i d m, o0.one_list d i m) refl) m0
  ]

  module _ (holds : Branch → Bool) where
    abbrev Out : ℕ → Bool → ℕ → Type 0
    Out = Leads h' lo hi b1 lists holds

    code_same_at : (i : ℕ) → holds (h' i).code ≡ holds (h i).code
    code_same_at i = ap holds (code_same i)

    -- In the second part a walk stays as it was.
    pub walk_second :
        (i : ℕ) (v : Bool) (k : ℕ) → Leads h mid hi b1 o1.lists holds i v k → Out i v k
    walk_second _ _ _ (at_root i v k e t) =
        let after_b0 : (i == b0) ≡ false =
          ap (λ k. k == b0) ((==_iff i b1).0 e) ∙ not_b0 b1 o1.root_in.0 in
        at_root i v k e (code_same_at i ∙ t ∙ ap (λ s. exit_of s v) (sym (sense_same i after_b0)))
    walk_second _ _ _ (in_list i v k m t) =
        in_list i v k (from_second d o0.lists o1.lists b0 v i m)
          (code_same_at i ∙ t ∙ ap not (sym (sense_same i (not_b0 i (o1.inside v i m).0))))
    walk_second _ _ _ (onward i j v k n' (l, u) e stays f s rest) =
        let after_b0 = not_b0 i l in
        onward i j v k n' (first_lower i l, u) e
          (λ w m.
            code_same_at i
            ∙ elim (exit_of_part d o0.lists o1.lists b0 w i m) [
              | inl m1 ↦ stays w m1
              | inr (p, m0) ↦
                  absurd (
                    none_in i (b0 ∷ o0.lists (not d)) (rw (after_b0, not_first i l (not d)) refl)
                      m0)
            ]
            ∙ sym (sense_same i after_b0))
          (ap (field (h' i)) (code_same_at i)
            ∙ field_same i (holds (h i).code) after_b0 e
                (λ m. absurd (none_in i (o0.lists d) (not_first i l d) m))
                (λ ez. stays (not d) (z_listed i e ez))
            ∙ f)
          s (walk_second j v n' rest)

    -- The exits of the first part: some lead to the second, the others are exits of the whole.
    first_root :
        (w : Bool) (n : ℕ)
        → Out target w n
        → (v : Bool) (k : ℕ) → holds (h b0).code ≡ exit_of (h b0).sense v
        → Out b0 (both d v w) (k + suc n)
    first_root w n after v k =
        by_exit (λ v. holds (h b0).code ≡ exit_of (h b0).sense v → Out b0 (both d v w) (k + suc n))
          d
          (λ t.
            subst (λ x. Out b0 x (k + suc n)) (sym (both-join d w))
              (onward b0 target w (k + suc n) n (o0.root_in.0, second_upper b0 o0.root_in.1)
                (not_b1 b0 o0.root_in.1) (λ x m. code_same_at b0 ∙ t ∙ sym b0_sense)
                (ap (field (h' b0)) (code_same_at b0 ∙ t) ∙ b0_exit) (omega arith) after))
          (λ t.
            subst (λ x. Out b0 x (k + suc n)) (sym (both-leave d w))
              (in_list b0 (not d) (k + suc n)
                (from_first d o0.lists o1.lists b0 b0 (rw (same_id b0) refl))
                (code_same_at b0 ∙ t ∙ exit_of-not (h b0).sense d ∙ ap not (sym b0_sense))))
          v

    first_list :
        (w : Bool) (n : ℕ)
        → Out target w n
        → (i : ℕ) (v : Bool) (k : ℕ) → mem i (o0.lists v) ≡ true
        → holds (h i).code ≡ not (h i).sense
        → Out i (both d v w) (k + suc n)
    first_list w n after i v k =
        by_exit
          (λ v.
            mem i (o0.lists v) ≡ true
            → holds (h i).code ≡ not (h i).sense
            → Out i (both d v w) (k + suc n))
          d
          (λ m t.
            subst (λ x. Out i x (k + suc n)) (sym (both-join d w))
              (onward i target w (k + suc n) n
                (let (a, b) = o0.inside d i m in (a, second_upper i b))
                (not_b1 i (o0.inside d i m).1) (λ x m'. absurd (list_alone i m x m'))
                (ap (field (h' i)) (code_same_at i ∙ t) ∙ list_exit i m) (omega arith) after))
          (λ m t.
            subst (λ x. Out i x (k + suc n)) (sym (both-leave d w))
              (in_list i (not d) (k + suc n)
                (from_first d o0.lists o1.lists b0 i (rw (list_apart i (not d) m) m))
                (code_same_at i ∙ t ∙ ap not (sym (sense_same i (list_apart i (not d) m))))))
          v

    -- In the first part a walk goes on in the second, or leaves the whole.
    pub walk_first :
        (w : Bool) (n : ℕ)
        → Out target w n
        → (i : ℕ) (v : Bool) (k : ℕ) → Leads h lo mid b0 o0.lists holds i v k
        → Out i (both d v w) (k + suc n)
    walk_first w n after _ _ _ (at_root i v k e t) =
        let same = (==_iff i b0).0 e in
        subst (λ b. Out b (both d v w) (k + suc n)) (sym same)
          (first_root w n after v k (subst (λ b. holds (h b).code ≡ exit_of (h b).sense v) same t))
    walk_first w n after _ _ _ (in_list i v k m t) = first_list w n after i v k m t
    walk_first w n after _ _ _ (onward i j v k n' (l, u) e stays f s rest) =
        onward i j (both d v w) (k + suc n) (n' + suc n) (l, second_upper i u) (not_b1 i u)
          (λ x m.
            code_same_at i
            ∙ elim (exit_of_part d o0.lists o1.lists b0 x i m) [
              | inl m1 ↦ absurd (none_in i (o1.lists x) (not_second i u x) m1)
              | inr (p, m0) ↦ stays (not d) (sym (ap (λ t. t || mem i (o0.lists (not d))) e) ∙ m0)
            ]
            ∙ sym (sense_same i e))
          (ap (field (h' i)) (code_same_at i)
            ∙ field_same i (holds (h i).code) e (not_b1 i u) (stays d)
                (λ ez. cc (sym ez ∙ not_z i u))
            ∙ f)
          (omega arith) (walk_first w n after j v n' rest)
