-- ===== src/Gencode/Parts.antt =====
-- gencode.c: the part that `gen_and` or `gen_or` builds of two parts.
use gap16g_libpcap.Base.{
  ℕ, suc, ◌+◌, ◌≤◌, ◌<◌, ◌≡◌, refl, sym, ap, ◌∙◌, arith, Bool, true, false, not, ◌||◌, List, ◌∷◌,
  length, length-append, ◌==◌, ==_iff, inl, inr, Bool-cases, ltb, ltb→lt,
}
use mathlib.Core.Path.{subst}
use gap16g_libpcap.Gencode.{Branch, Heap}
use gap16g_libpcap.Gencode.Chains.{mem, last_of, Distinct}
use gap16g_libpcap.Gencode.Joined.{joined}
use gap16g_libpcap.Gencode.Walk.{Open, is_test, Decides}
use gap16g_libpcap.Gencode.Fields.{joined-b1, joined-rest}
use gap16g_libpcap.Gencode.Exits.{
  not-not, joined_lists, joined_lists-same, joined_lists-other, both, by_exit, mem-++, Distinct-++,
  exit_of_part,
}
use gap16g_libpcap.Gencode.Join
use gap16g_libpcap.Gencode.Relink.{chain}

module _ (d : Bool) (h h' : Heap) (b0 b1 lo mid hi : ℕ) (o0 : Open h lo mid b0)
    (o1 : Open h mid hi b1)
    (is_new : (i : ℕ)
      → h' i ≡ joined d h b0 b1 (o0.lists d) (last_of b1 (o1.lists (not d))) (h b1).head i) where
  abbrev lists : Bool → List ℕ
  lists = joined_lists d o0.lists b0 o1.lists

  -- Blocks of the second part are none of the first.
  not_first : (i : ℕ) → mid ≤ i → (v : Bool) → mem i (o0.lists v) ≡ false
  not_first = Join.not_first d h h' b0 b1 lo mid hi o0 o1 is_new

  not_b0 : (i : ℕ) → mid ≤ i → (i == b0) ≡ false
  not_b0 = Join.not_b0 d h h' b0 b1 lo mid hi o0 o1 is_new

  pub inside : (v : Bool) (i : ℕ) → mem i (lists v) ≡ true → (lo ≤ i) × (i < hi)
  inside v i m = elim (exit_of_part d o0.lists o1.lists b0 v i m) [
    | inl m1 ↦ let (a, b) = o1.inside v i m1 in let (c, e) = o0.root_in in (omega arith, b)
    | inr (p, m0) ↦
        let (a, b) = o1.root_in in
        elim (Bool-cases (i == b0)) [
          | inl e ↦
              let (c, f) = o0.root_in in let same = (==_iff i b0).0 e in (omega arith, omega arith)
          | inr e ↦
              let (c, f) =
                o0.inside (not d) i (sym (ap (λ t. t || mem i (o0.lists (not d))) e) ∙ m0) in
              (c, omega arith)
        ]
  ]

  -- What is in the second part and not in its list is in no list for these exits.
  out_other : (i : ℕ) → mid ≤ i → mem i (o1.lists (not d)) ≡ false → mem i (lists (not d)) ≡ false
  out_other i l m =
      ap (mem i) (joined_lists-other d o0.lists o1.lists b0)
      ∙ mem-++ i (o1.lists (not d)) (b0 ∷ o0.lists (not d))
      ∙ rw (m, not_b0 i l, not_first i l (not d)) refl

  pub not_root : (v : Bool) → mem b1 (lists v) ≡ false
  not_root =
      by_exit (λ v. mem b1 (lists v) ≡ false) d
        (ap (mem b1) (joined_lists-same d o0.lists o1.lists b0) ∙ o1.not_root d)
        (out_other b1 o1.root_in.0 (o1.not_root (not d)))

  apart_exits : (i : ℕ) → mem i (lists d) ≡ true → mem i (lists (not d)) ≡ false
  apart_exits i m =
      let m1 = sym (ap (mem i) (joined_lists-same d o0.lists o1.lists b0)) ∙ m in
      out_other i (o1.inside d i m1).0 (o1.one_list d i m1)

  pub one_list : (v : Bool) (i : ℕ) → mem i (lists v) ≡ true → mem i (lists (not v)) ≡ false
  one_list =
      by_exit (λ v. (i : ℕ) → mem i (lists v) ≡ true → mem i (lists (not v)) ≡ false) d apart_exits
        (λ i m. elim (Bool-cases (mem i (lists (not (not d))))) [
          | inl m' ↦ cc (sym m ∙ apart_exits i (ap (λ v. mem i (lists v)) (sym (not-not d)) ∙ m'))
          | inr m' ↦ m'
        ])

  pub distinct : (v : Bool) → Distinct (lists v)
  distinct =
      by_exit (λ v. Distinct (lists v)) d
        (subst Distinct (sym (joined_lists-same d o0.lists o1.lists b0)) (o1.distinct d))
        (subst Distinct (sym (joined_lists-other d o0.lists o1.lists b0)) (
          Distinct-++ (o1.lists (not d)) (b0 ∷ o0.lists (not d)) (o1.distinct (not d))
            (o0.not_root (not d), o0.distinct (not d))
            (λ i m.
              let l = (o1.inside (not d) i m).0 in rw (not_b0 i l, not_first i l (not d)) refl)))

  pub short : (v : Bool) → lo + length (lists v) < hi
  short =
      let (a, b) = o0.root_in in
      by_exit (λ v. lo + length (lists v) < hi) d
        (let s = o1.short d in rw (joined_lists-same d o0.lists o1.lists b0) (omega arith))
        (let s1 = o1.short (not d) in
          let s0 = o0.short (not d) in
          rw
            (
              joined_lists-other d o0.lists o1.lists b0,
              length-append (o1.lists (not d)) (b0 ∷ o0.lists (not d)),
            )
            (omega arith))

  pub all_tests : (i : ℕ) → lo ≤ i → i < hi → is_test (h' i).code ≡ true
  all_tests i l u =
      ap is_test (Join.code_same d h h' b0 b1 lo mid hi o0 o1 is_new i)
      ∙ elim (Bool-cases (ltb i mid)) [
        | inl e ↦ o0.tests i l (ltb→lt i mid e)
        | inr e ↦ o1.tests i (ground arith) u
      ]

  abbrev pub whole : Open h' lo hi b1
  whole = record {
    tests = all_tests;
    lists = lists;
    root_in = (let (a, b) = o0.root_in in let (c, e) = o1.root_in in omega arith, o1.root_in.1);
    inside = inside;
    not_root = not_root;
    one_list = one_list;
    distinct = distinct;
    short = short;
    chain = chain d h h' b0 b1 lo mid hi o0 o1 is_new;
  }

  head_same : (h' b1).head ≡ (h b0).head
  head_same =
      ap (λ x. x.head)
        (is_new b1
          ∙ joined-b1 d h b0 b1 (last_of b1 (o1.lists (not d))) (h b1).head (o0.lists d)
              (not_b0 b1 o1.root_in.0) (not_first b1 o1.root_in.0 d))

  pub whole-Decides :
      (first second : (Branch → Bool) → Bool)
      → Decides h lo mid b0 o0 first
      → Decides h mid hi b1 o1 second
      → Decides h' lo hi b1 whole (λ holds. both d (first holds) (second holds))
  whole-Decides first second decides0 decides1 holds =
      let (k, enough0, walk0) = decides0 holds in
      let (n, enough1, walk1) = decides1 holds in
      let after =
        Join.walk_second d h h' b0 b1 lo mid hi o0 o1 is_new holds (h b1).head (second holds) n
          walk1 in
      (
        k + suc n,
        omega arith,
        rw head_same (
            Join.walk_first d h h' b0 b1 lo mid hi o0 o1 is_new holds (second holds) n after
              (h b0).head (first holds) k walk0),
      )

  pub outside_same : (i : ℕ) → i < lo → h' i ≡ h i
  outside_same i u =
      let (a, b) = o0.root_in in
      let u' : i < mid = omega arith in
      is_new i
      ∙ joined-rest d h b0 b1 (last_of b1 (o1.lists (not d))) (h b1).head (o0.lists d) i
          (Join.differ_of-lt i b0 (omega arith))
          (elim (Bool-cases (mem i (o0.lists d))) [
            | inl m ↦ let (c, e) = o0.inside d i m in absurd (omega arith)
            | inr m ↦ m
          ])
          (Join.not_b1 d h h' b0 b1 lo mid hi o0 o1 is_new i u')
          (Join.not_z d h h' b0 b1 lo mid hi o0 o1 is_new i u')
