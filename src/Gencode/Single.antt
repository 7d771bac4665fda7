-- ===== src/Gencode/Single.antt =====
-- gencode.c: the part that is one new block, and `gen_not` of a part.
use gap16g_libpcap.Base.{
  ℕ, suc, ◌≤◌, ◌<◌, ◌≡◌, refl, ap, ◌∙◌, arith, Bool, true, false, not, none, [], ◌==◌, ==_iff, inl,
  inr, Bool-cases,
}
use mathlib.Core.Path.{subst}
use gap16g_libpcap.Gencode.{Branch, test, Heap, field, new_block, gen_not}
use gap16g_libpcap.Gencode.Chains.{mem, apart, Chain, Chain-moved}
use gap16g_libpcap.Gencode.Joined.{exit_of, same_id}
use gap16g_libpcap.Gencode.Walk.{is_test, Open, Leads, at_root, in_list, onward, Decides}
use gap16g_libpcap.Gencode.Exits.{not-not}
use gap16g_libpcap.Gencode.Fields.{field-sense}

-- A new block is a part, with no exits but its own.
module _ (h : Heap) (i n : ℕ) where
  made :
      new_block h i (test n) i
      ≡ record { code = test n; jt = none; jf = none; sense = false; head = i }
  made = rw (same_id i) refl

  pub no_exit :
      (v : Bool)
      → field (new_block h i (test n) i) (exit_of (new_block h i (test n) i).sense v) ≡ none
  no_exit true = rw (same_id i) refl
  no_exit false = rw (same_id i) refl

  pub one_test : (j : ℕ) → i ≤ j → j < suc i → is_test (new_block h i (test n) j).code ≡ true
  one_test j l u = let same : (j == i) ≡ true = (==_iff j i).1 (omega arith) in rw same refl

  pub none_inside : (v : Bool) (j : ℕ) → mem j [] ≡ true → (i ≤ j) × (j < suc i)
  none_inside v j m = cc m

  one_walk : (v : Bool) → v ≡ exit_of false v
  one_walk true = refl
  one_walk false = refl

  abbrev pub one : Open (new_block h i (test n)) i (suc i) i
  one = record {
    tests = one_test;
    lists = λ v. [];
    root_in = (omega arith, omega arith);
    inside = none_inside;
    not_root = λ v. refl;
    one_list = λ v j m. refl;
    distinct = λ v. tt;
    short = λ v. omega arith;
    chain = no_exit;
  }

  pub one-Decides : Decides (new_block h i (test n)) i (suc i) i one (λ holds. holds (test n))
  one-Decides holds = (
    0,
    omega arith,
    rw made (at_root i (holds (test n)) 0 (same_id i) (rw made (one_walk (holds (test n))))),
  )

-- `gen_not` swaps the exits of a part.
module _ (h : Heap) (lo hi root : ℕ) (o : Open h lo hi root) where
  abbrev flip : Heap
  flip = gen_not h root

  flipped : flip root ≡ record (h root) { sense = not (h root).sense }
  flipped = rw (same_id root) refl

  others : (v : Bool) (i : ℕ) → mem i (o.lists v) ≡ true → flip i ≡ h i
  others v i m = rw (apart root i (o.lists v) (o.not_root v) m) refl

  exit_flipped : (s v : Bool) → exit_of (not s) v ≡ exit_of s (not v)
  exit_flipped true true = refl
  exit_flipped true false = refl
  exit_flipped false true = refl
  exit_flipped false false = refl

  pub swapped_test : (i : ℕ) → lo ≤ i → i < hi → is_test (flip i).code ≡ true
  swapped_test i l u = elim (Bool-cases (i == root)) [
    | inl e ↦ rw ((==_iff i root).0 e) (rw flipped (o.tests root o.root_in.0 o.root_in.1))
    | inr e ↦ rw e (o.tests i l u)
  ]

  pub swapped_chain :
      (v : Bool) → Chain flip (field (flip root) (exit_of (flip root).sense v)) (o.lists (not v))
  swapped_chain v =
      Chain-moved h flip (field (h root) (exit_of (h root).sense (not v)))
        (field (flip root) (exit_of (flip root).sense v)) (o.lists (not v))
        (rw (flipped, exit_flipped (h root).sense v)
          (field-sense (h root) (not (h root).sense) (exit_of (h root).sense (not v))))
        (others (not v)) (o.chain (not v))

  abbrev pub swapped : Open flip lo hi root
  swapped = record {
    tests = swapped_test;
    lists = λ v. o.lists (not v);
    root_in = o.root_in;
    inside = λ v. o.inside (not v);
    not_root = λ v. o.not_root (not v);
    one_list = λ v. o.one_list (not v);
    distinct = λ v. o.distinct (not v);
    short = λ v. o.short (not v);
    chain = swapped_chain;
  }

  -- Each walk leaves by the other exit.
  Leads-swapped :
      (holds : Branch → Bool) (i : ℕ) (v : Bool) (k : ℕ)
      → Leads h lo hi root o.lists holds i v k
      → Leads flip lo hi root swapped.lists holds i (not v) k
  Leads-swapped holds _ _ _ (at_root i v k e t) = at_root i (not v) k e (
      let same = (==_iff i root).0 e in
      rw (same, flipped, exit_flipped (h root).sense (not v), not-not v)
        (subst (λ b. holds (h b).code ≡ exit_of (h b).sense v) same t))
  Leads-swapped holds _ _ _ (in_list i v k m t) =
      in_list i (not v) k (ap (λ x. mem i (o.lists x)) (not-not v) ∙ m) (rw (others v i m) t)
  Leads-swapped holds _ _ _ (onward i j v k n (l, u) e stays f s rest) =
      let same : flip i ≡ h i = rw e refl in
      onward i j (not v) k n (l, u) e (λ w m. rw same (stays (not w) m)) (rw same f) s
        (Leads-swapped holds j v n rest)

  pub swapped-Decides :
      (f : (Branch → Bool) → Bool)
      → Decides h lo hi root o f
      → Decides flip lo hi root swapped (λ holds. not (f holds))
  swapped-Decides f decides holds =
      let (k, enough, walk) = decides holds in
      (k, enough, rw flipped (Leads-swapped holds (h root).head (f holds) k walk))
