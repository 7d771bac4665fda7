-- ===== src/Gencode/Compile/Finish.antt =====
-- gencode.c: `finish_parse`, which resolves the exits of the whole expression.
pub mod Program
use gap16g_libpcap.Base.{
  ℕ, suc, ◌+◌, ◌≤◌, ◌<◌, ◌≡◌, refl, sym, ap, ◌∙◌, arith, Bool, true, false, not, ◌||◌, Option, none,
  some, List, ◌∷◌, length, ◌==◌, ==_iff, if◌then◌else◌, inl, inr, Bool-cases,
}
use mathlib.Core.Path.{subst}
use gap16g_libpcap.Gencode.{
  Branch, test, ret, Blk, Heap, field, put_field, link, put_link, set_block, gen_not, gen_retblk,
  backpatch, finish_parse,
}
use gap16g_libpcap.Gencode.Chains.{mem, apart, Distinct, Chain, Chain-moved, backpatch-Chain}
use gap16g_libpcap.Gencode.Joined.{exit_of, same_id, link-not}
use gap16g_libpcap.Gencode.Walk.{Open}
use gap16g_libpcap.Gencode.Fields.{
  put_field-code, put_field-sense, field-put_field, field-put_field_other, field-sense,
  field-put_link, link-put_link,
}
use gap16g_libpcap.Gencode.Join.{differ_of-lt}

-- The block of the accepting return, and of the other one, behind the blocks of the part.
abbrev pub with_accept : Heap → ℕ → ℕ → Heap
with_accept h n snaplen = gen_retblk h n snaplen

abbrev pub with_reject : Heap → ℕ → ℕ → Heap
with_reject h1 n p = gen_retblk (gen_not h1 p) (suc n) 0

-- The last block of the part, whose exits are both resolved.
abbrev resolved : Blk → ℕ → ℕ → Blk
resolved x a b = put_link (record (put_link x a) { sense = not (put_link x a).sense }) b

resolved-true : (x : Blk) (a b : ℕ) → field (resolved x a b) (exit_of x.sense true) ≡ some a
resolved-true x a b = elim (Bool-cases x.sense) [ inl e ↦ rw e refl | inr e ↦ rw e refl ]

resolved-false : (x : Blk) (a b : ℕ) → field (resolved x a b) (exit_of x.sense false) ≡ some b
resolved-false x a b = elim (Bool-cases x.sense) [ inl e ↦ rw e refl | inr e ↦ rw e refl ]

resolved-code : (x : Blk) (a b : ℕ) → (resolved x a b).code ≡ x.code
resolved-code x a b = elim (Bool-cases x.sense) [ inl e ↦ rw e refl | inr e ↦ rw e refl ]

resolved-head : (x : Blk) (a b : ℕ) → (resolved x a b).head ≡ x.head
resolved-head x a b = elim (Bool-cases x.sense) [ inl e ↦ rw e refl | inr e ↦ rw e refl ]

module _ (h h1 h2 : Heap) (n p snaplen : ℕ) (o : Open h 0 n p)
    (accepted : (i : ℕ)
      → h1 i ≡ (
          if mem i (p ∷ o.lists true)
          then put_link (with_accept h n snaplen i) n
          else with_accept h n snaplen i))
    (rejected : (i : ℕ)
      → h2 i ≡ (
          if mem i (p ∷ o.lists false)
          then put_link (with_reject h1 n p i) (suc n)
          else with_reject h1 n p i)) where
  not_listed : (i : ℕ) → n ≤ i → (v : Bool) → mem i (p ∷ o.lists v) ≡ false
  not_listed i l v =
      let (a, b) = o.root_in in
      let apart_p : (i == p) ≡ false = ground arith in
      rw apart_p (elim (Bool-cases (mem i (o.lists v))) [
        | inl m ↦ let (c, e) = o.inside v i m in absurd (omega arith)
        | inr m ↦ m
      ])

  pub at_accept : (h2 n).code ≡ ret snaplen
  at_accept =
      let (a, b) = o.root_in in
      let apart_p : (n == p) ≡ false = ground arith in
      let apart_n : (n == suc n) ≡ false = ground arith in
      rw
        (
          rejected n,
          not_listed n (omega arith) false,
          apart_n,
          apart_p,
          accepted n,
          not_listed n (omega arith) true,
          same_id n,
        )
        refl

  pub at_reject : (h2 (suc n)).code ≡ ret 0
  at_reject = rw (rejected (suc n), not_listed (suc n) (omega arith) false, same_id (suc n)) refl

  -- The blocks of the part before the exits for false are resolved.
  h1_list : (i : ℕ) → i < n → mem i (p ∷ o.lists true) ≡ true → h1 i ≡ put_link (h i) n
  h1_list i u m = accepted i ∙ rw (m, differ_of-lt i n u) refl

  h1_rest : (i : ℕ) → i < n → mem i (p ∷ o.lists true) ≡ false → h1 i ≡ h i
  h1_rest i u m = accepted i ∙ rw (m, differ_of-lt i n u) refl

  h2_p : h2 p ≡ resolved (h p) n (suc n)
  h2_p =
      let u = o.root_in.1 in
      let m : mem p (p ∷ o.lists true) ≡ true = rw (same_id p) refl in
      rejected p ∙ rw (same_id p, differ_of-lt p (suc n) (omega arith), h1_list p u m) refl

  h2_rest :
      (i : ℕ)
      → i < n
      → (i == p) ≡ false
      → h2 i ≡ (if mem i (o.lists false) then put_link (h1 i) (suc n) else h1 i)
  h2_rest i u e = rejected i ∙ rw (e, differ_of-lt i (suc n) (omega arith)) refl

  -- Where an exit of the part leads now.
  abbrev end_of : Bool → ℕ
  end_of v = if v then n else suc n

  pub at_p : (v : Bool) → field (h2 p) (exit_of (h p).sense v) ≡ some (end_of v)
  at_p true = rw h2_p (resolved-true (h p) n (suc n))
  at_p false = rw h2_p (resolved-false (h p) n (suc n))

  pub at_list :
      (v : Bool) (i : ℕ)
      → mem i (o.lists v) ≡ true
      → field (h2 i) (not (h i).sense) ≡ some (end_of v)
  at_list true i m =
      let u = (o.inside true i m).1 in
      let e = apart p i (o.lists true) (o.not_root true) m in
      let listed : mem i (p ∷ o.lists true) ≡ true = rw (e, m) refl in
      rw (h2_rest i u e, o.one_list true i m, h1_list i u listed)
        (field-put_field (h i) (not (h i).sense) (some n))
  at_list false i m =
      let u = (o.inside false i m).1 in
      let e = apart p i (o.lists false) (o.not_root false) m in
      let out : mem i (p ∷ o.lists true) ≡ false = rw (e, o.one_list false i m) refl in
      rw (h2_rest i u e, m, h1_rest i u out)
        (field-put_field (h i) (not (h i).sense) (some (suc n)))

  -- What is no exit stays.
  pub at_inner :
      (i : ℕ) (exit : Bool)
      → i < n
      → (i == p) ≡ false
      → ((v : Bool) → mem i (o.lists v) ≡ true → exit ≡ (h i).sense)
      → field (h2 i) exit ≡ field (h i) exit
  at_inner i exit u e stays = elim (Bool-cases (mem i (o.lists true))) [
    | inl m ↦
        let listed : mem i (p ∷ o.lists true) ≡ true = rw (e, m) refl in
        rw (h2_rest i u e, o.one_list true i m, h1_list i u listed)
          (rw (stays true m) (field-put_link (h i) n))
    | inr m ↦
        let out : mem i (p ∷ o.lists true) ≡ false = rw (e, m) refl in
        elim (Bool-cases (mem i (o.lists false))) [
          | inl m' ↦
              rw (h2_rest i u e, m', h1_rest i u out)
                (rw (stays false m') (field-put_link (h i) (suc n)))
          | inr m' ↦ rw (h2_rest i u e, m', h1_rest i u out) refl
        ]
  ]

  pub code_kept : (i : ℕ) → i < n → (h2 i).code ≡ (h i).code
  code_kept i u = elim (Bool-cases (i == p)) [
    | inl e ↦ rw ((==_iff i p).0 e) (rw h2_p (resolved-code (h p) n (suc n)))
    | inr e ↦ elim (Bool-cases (mem i (o.lists true))) [
      | inl m ↦
          let listed : mem i (p ∷ o.lists true) ≡ true = rw (e, m) refl in
          rw (h2_rest i u e, o.one_list true i m, h1_list i u listed)
            (put_field-code (h i) (not (h i).sense) (some n))
      | inr m ↦
          let out : mem i (p ∷ o.lists true) ≡ false = rw (e, m) refl in
          elim (Bool-cases (mem i (o.lists false))) [
            | inl m' ↦
                rw (h2_rest i u e, m', h1_rest i u out)
                  (put_field-code (h i) (not (h i).sense) (some (suc n)))
            | inr m' ↦ rw (h2_rest i u e, m', h1_rest i u out) refl
          ]
    ]
  ]

  pub head_kept : (h2 p).head ≡ (h p).head
  head_kept = rw h2_p (resolved-head (h p) n (suc n))
