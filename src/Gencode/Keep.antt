-- ===== src/Gencode/Keep.antt =====
-- gencode.c: a part stays what it is when other blocks change; a new block and `gen_not`.
use gap16g_libpcap.Base.{ℕ, ◌≤◌, ◌<◌, ◌≡◌, ap, ◌∙◌, Bool, ==_iff}
use gap16g_libpcap.Gencode.{Branch, Heap, field, link}
use gap16g_libpcap.Gencode.Chains.{Chain, Chain-ext}
use gap16g_libpcap.Gencode.Joined.{exit_of}
use gap16g_libpcap.Gencode.Walk.{is_test, Open, Leads, at_root, in_list, onward, Decides}

module _ (h h' : Heap) (lo hi root : ℕ) (o : Open h lo hi root)
    (same : (i : ℕ) → lo ≤ i → i < hi → h' i ≡ h i) where
  root_same : h' root ≡ h root
  root_same = same root o.root_in.0 o.root_in.1

  pub chain_kept : (v : Bool) → Chain h' (field (h' root) (exit_of (h' root).sense v)) (o.lists v)
  chain_kept v = rw root_same (
      Chain-ext h h' (field (h root) (exit_of (h root).sense v)) (o.lists v)
        (λ i m. ap link (same i (o.inside v i m).0 (o.inside v i m).1)) (o.chain v))

  abbrev pub kept : Open h' lo hi root
  kept = record {
    tests = λ i l u. ap (λ x. is_test x.code) (same i l u) ∙ o.tests i l u;
    lists = o.lists;
    root_in = o.root_in;
    inside = o.inside;
    not_root = o.not_root;
    one_list = o.one_list;
    distinct = o.distinct;
    short = o.short;
    chain = chain_kept;
  }

  Leads-kept :
      (holds : Branch → Bool) (i : ℕ) (v : Bool) (k : ℕ)
      → Leads h lo hi root o.lists holds i v k
      → Leads h' lo hi root o.lists holds i v k
  Leads-kept holds _ _ _ (at_root i v k e t) =
      at_root i v k e (
        rw (same i (rw ((==_iff i root).0 e) o.root_in.0) (rw ((==_iff i root).0 e) o.root_in.1)) t)
  Leads-kept holds _ _ _ (in_list i v k m t) =
      in_list i v k m (rw (same i (o.inside v i m).0 (o.inside v i m).1) t)
  Leads-kept holds _ _ _ (onward i j v k n (l, u) e stays f s rest) =
      onward i j v k n (l, u) e (λ w m. rw (same i l u) (stays w m)) (rw (same i l u) f) s
        (Leads-kept holds j v n rest)

  pub kept-Decides :
      (f : (Branch → Bool) → Bool) → Decides h lo hi root o f → Decides h' lo hi root kept f
  kept-Decides f decides holds =
      let (k, enough, walk) = decides holds in
      (k, enough, rw root_same (Leads-kept holds (h root).head (f holds) k walk))
