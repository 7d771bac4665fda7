-- ===== src/Gencode/Compile/Finish/Program.antt =====
-- gencode.c: the program that `finish_parse` leaves, as a packet runs through it.
use gap16g_libpcap.Base.{
  ℕ, suc, ◌+◌, ◌-◌, ◌≤◌, ◌<◌, ◌≡◌, refl, sym, ap, ◌∙◌, arith, Bool, true, false, not, some, ◌∷◌,
  ==_iff, if◌then◌else◌,
}
use mathlib.Core.Path.{subst}
use gap16g_libpcap.Gencode.{Branch, test, ret, Heap, field, put_link, link, finish_parse}
use gap16g_libpcap.Gencode.Chains.{mem, apart, Chain, Chain-moved, backpatch-Chain}
use gap16g_libpcap.Gencode.Joined.{exit_of, same_id, link-not}
use gap16g_libpcap.Gencode.Walk.{is_test, Open, Leads, at_root, in_list, onward, Decides}
use gap16g_libpcap.Gencode.Fields.{put_field-sense, field-put_link}
use gap16g_libpcap.Gencode.Join.{differ_of-lt}
use gap16g_libpcap.Gencode.Compile.{Expr, meaning, size, filter}
use gap16g_libpcap.Gencode.Compile.Built.{actions-Built}
use gap16g_libpcap.Gencode.Compile.Walk.{walk}
use gap16g_libpcap.Gencode.Compile.Finish
use gap16g_libpcap.Gencode.Compile.Finish.{with_accept, with_reject}

walk-test :
    (fuel : ℕ) (holds : Branch → Bool) (h : Heap) (i j : ℕ)
    → is_test (h i).code ≡ true
    → field (h i) (holds (h i).code) ≡ some j
    → walk (suc fuel) holds h i ≡ walk fuel holds h j
unfolding walk
walk-test fuel holds h i j is f = go (h i).code refl
  where
    go : (c : Branch) → (h i).code ≡ c → walk (suc fuel) holds h i ≡ walk fuel holds h j
    go (test n) e =
        let exit : field (h i) (holds (test n)) ≡ some j =
          ap (λ b. field (h i) (holds b)) (sym e) ∙ f in
        rw (walk, e, exit) refl
    go (ret v) e = cc (ap is_test (sym e) ∙ is)

walk-ret :
    (fuel : ℕ) (holds : Branch → Bool) (h : Heap) (i v : ℕ)
    → (h i).code ≡ ret v
    → walk (suc fuel) holds h i ≡ some v
unfolding walk
walk-ret fuel holds h i v e = rw (walk, e) refl

module _ (h h1 h2 : Heap) (n p snaplen : ℕ) (o : Open h 0 n p)
    (accepted : (i : ℕ)
      → h1 i ≡ (
          if mem i (p ∷ o.lists true)
          then put_link (with_accept h n snaplen i) n
          else with_accept h n snaplen i))
    (rejected : (i : ℕ)
      → h2 i ≡ (
          if mem i (p ∷ o.lists false)
          then put_link (with_reject h1 n p i) (suc n)
          else with_reject h1 n p i))
    (holds : Branch → Bool) where
  abbrev result : Bool → ℕ
  result v = if v then snaplen else 0

  walk_end :
      (fuel : ℕ) (v : Bool) → walk (suc fuel) holds h2 (if v then n else suc n) ≡ some (result v)
  walk_end fuel true =
      walk-ret fuel holds h2 n snaplen (Finish.at_accept h h1 h2 n p snaplen o accepted rejected)
  walk_end fuel false =
      walk-ret fuel holds h2 (suc n) 0 (Finish.at_reject h h1 h2 n p snaplen o accepted rejected)

  test_kept : (i : ℕ) → i < n → is_test (h2 i).code ≡ true
  test_kept i u =
      ap is_test (Finish.code_kept h h1 h2 n p snaplen o accepted rejected i u)
      ∙ o.tests i (omega arith) u

  walk_to :
      (fuel i j : ℕ)
      → i < n
      → field (h2 i) (holds (h i).code) ≡ some j
      → walk (suc fuel) holds h2 i ≡ walk fuel holds h2 j
  walk_to fuel i j u f = walk-test fuel holds h2 i j (test_kept i u) (
      ap (λ b. field (h2 i) (holds b))
        (Finish.code_kept h h1 h2 n p snaplen o accepted rejected i u)
      ∙ f)

  walk-Leads :
      (fuel i : ℕ) (v : Bool) (k : ℕ)
      → Leads h 0 n p o.lists holds i v k
      → walk (suc (suc (k + fuel))) holds h2 i ≡ some (result v)
  walk-Leads fuel _ _ _ (at_root i v k e t) =
      let same = (==_iff i p).0 e in
      walk_to (suc (k + fuel)) i (if v then n else suc n) (rw same o.root_in.1) (
        subst (λ b. field (h2 b) (holds (h b).code) ≡ some (if v then n else suc n)) (sym same)
          (ap (field (h2 p)) (subst (λ b. holds (h b).code ≡ exit_of (h b).sense v) same t)
            ∙ Finish.at_p h h1 h2 n p snaplen o accepted rejected v))
      ∙ walk_end (k + fuel) v
  walk-Leads fuel _ _ _ (in_list i v k m t) =
      walk_to (suc (k + fuel)) i (if v then n else suc n) (o.inside v i m).1
        (ap (field (h2 i)) t ∙ Finish.at_list h h1 h2 n p snaplen o accepted rejected v i m)
      ∙ walk_end (k + fuel) v
  walk-Leads fuel _ _ _ (onward i j v k m (l, u) e stays f s rest) =
      let fuel_same : suc (suc (m + ((k + fuel) - suc m))) ≡ suc (k + fuel) = omega arith in
      walk_to (suc (k + fuel)) i j u
        (Finish.at_inner h h1 h2 n p snaplen o accepted rejected i (holds (h i).code) u e stays ∙ f)
      ∙ subst (λ x. walk x holds h2 j ≡ some (result v)) fuel_same
          (walk-Leads ((k + fuel) - suc m) j v m rest)

-- The exits of the part as `finish_parse` finds them.
module _ (fuel : ℕ) (h : Heap) (n p snaplen : ℕ) (o : Open h 0 n p) (enough : n ≤ fuel) where
  unlisted : (i : ℕ) → i < n → with_accept h n snaplen i ≡ h i
  unlisted i u = rw (differ_of-lt i n u) refl

  accept_Chain : Chain (with_accept h n snaplen) (link (with_accept h n snaplen p)) (o.lists true)
  accept_Chain =
      Chain-moved h (with_accept h n snaplen) (field (h p) (exit_of (h p).sense true))
        (link (with_accept h n snaplen p)) (o.lists true) (ap link (unlisted p o.root_in.1))
        (λ i m. unlisted i (o.inside true i m).1) (o.chain true)

  module _ (h1 : Heap)
      (accepted : (i : ℕ)
        → h1 i ≡ (
            if mem i (p ∷ o.lists true)
            then put_link (with_accept h n snaplen i) n
            else with_accept h n snaplen i)) where
    reject_p :
        with_reject h1 n p p ≡ record (put_link (h p) n) { sense = not (put_link (h p) n).sense }
    reject_p =
        let u = o.root_in.1 in
        let patched : h1 p ≡ put_link (h p) n = accepted p ∙ rw (same_id p, unlisted p u) refl in
        rw (differ_of-lt p (suc n) (omega arith), same_id p, patched) refl

    reject_list : (i : ℕ) → mem i (o.lists false) ≡ true → with_reject h1 n p i ≡ h i
    reject_list i m =
        let u = (o.inside false i m).1 in
        let e = apart p i (o.lists false) (o.not_root false) m in
        let out : mem i (p ∷ o.lists true) ≡ false = rw (e, o.one_list false i m) refl in
        let patched : h1 i ≡ h i = accepted i ∙ rw out (unlisted i u) in
        rw (differ_of-lt i (suc n) (omega arith), e, patched) refl

    reject_Chain : Chain (with_reject h1 n p) (link (with_reject h1 n p p)) (o.lists false)
    reject_Chain =
        Chain-moved h (with_reject h1 n p) (field (h p) (exit_of (h p).sense false))
          (link (with_reject h1 n p p)) (o.lists false)
          (ap link reject_p
            ∙ link-not (put_link (h p) n)
            ∙ rw (put_field-sense (h p) (not (h p).sense) (some n)) (field-put_link (h p) n))
          reject_list (o.chain false)

  pub finish_parse-Decides :
      (f : (Branch → Bool) → Bool)
      → Decides h 0 n p o f
      → (h2 : Heap) × (finish_parse fuel h n p snaplen ≡ some (h2, (h p).head))
        × ((holds : Branch → Bool)
            → walk (suc n) holds h2 (h p).head ≡ some (if f holds then snaplen else 0))
  unfolding finish_parse
  finish_parse-Decides f decides =
      let s1 = o.short true in
      let s0 = o.short false in
      let (h1, gives1, accepted) =
        backpatch-Chain fuel (with_accept h n snaplen) (some p) (p ∷ o.lists true) n
          (refl, accept_Chain) (o.not_root true, o.distinct true) (omega arith) in
      let (h2, gives2, rejected) =
        backpatch-Chain fuel (with_reject h1 n p) (some p) (p ∷ o.lists false) (suc n)
          (refl, reject_Chain h1 accepted) (o.not_root false, o.distinct false) (omega arith) in
      (
        h2,
        rw (gives1, gives2, Finish.head_kept h h1 h2 n p snaplen o accepted rejected) refl,
        λ holds.
            let (k, bound, path) = decides holds in
            let fuel_same : suc (suc (k + (n - suc k))) ≡ suc n = omega arith in
            subst (λ x. walk x holds h2 (h p).head ≡ some (if f holds then snaplen else 0))
              fuel_same
              (walk-Leads h h1 h2 n p snaplen o accepted rejected holds (n - suc k) (h p).head
                (f holds) k path),
      )

-- With a unit of fuel for each block of the expression, the filter is made, and a packet runs
-- through it in at most one block more: it returns `snaplen` where the expression holds for the
-- packet, and 0 where it does not.
pub filter-meaning :
    (fuel : ℕ) (e : Expr) (h : Heap) (snaplen : ℕ)
    → size e ≤ fuel
    → (h' : Heap) × (root : ℕ) × (filter fuel e h snaplen ≡ some (h', root))
      × ((holds : Branch → Bool)
          → walk (suc (size e)) holds h' root ≡ some (if meaning e holds then snaplen else 0))
unfolding filter
filter-meaning fuel e h snaplen enough =
    let (h1, n, p, gives, built) = actions-Built fuel e h 0 (omega arith) in
    let count : n ≡ size e = built.count ∙ omega arith in
    let (h2, gives2, runs) =
      finish_parse-Decides fuel h1 n p snaplen built.part (omega arith) (meaning e) built.decides in
    (
      h2,
      (h1 p).head,
      rw (gives, gives2) refl,
      subst
          (λ k.
            (holds : Branch → Bool)
            → walk (suc k) holds h2 (h1 p).head ≡ some (if meaning e holds then snaplen else 0))
          count runs,
    )
