-- ===== src/Gencode/Or.antt =====
-- gencode.c: the heap that `gen_or` leaves.
use gap16g_libpcap.Base.{
  ℕ, ◌<◌, ◌≡◌, refl, ◌∙◌, true, false, not, some, List, ◌∷◌, ◌==◌, ==_iff, if◌then◌else◌, length,
  inl, inr, Bool-cases,
}
use gap16g_libpcap.Gencode.{
  Blk, Heap, field, put_field, set_block, link, put_link, merge, gen_not, share_head, gen_or,
}
use gap16g_libpcap.Gencode.Chains
use gap16g_libpcap.Gencode.Chains.{
  mem, Distinct, Apart, Chain, Chain-moved, backpatch-Chain, last_of, merge-Chain,
}
use gap16g_libpcap.Gencode.Joined.{
  exit_of, joined, same_id, link-not, differ_sym, by_place, last_of-out, heads-Apart, member-Apart,
}

abbrev turned : Blk → Blk
turned x = record x { sense = not x.sense }

-- What becomes of `b1` in `gen_or`, when it is the end of its list and when it is not.
at_both :
    (x y : Blk) (b0 target : ℕ)
    → record (put_link y b0) { head = (put_link (turned x) target).head }
      ≡ record (put_field y (exit_of y.sense true) (some b0)) { head = x.head }
at_both x y b0 target = elim (Bool-cases x.sense) [
  | inl e ↦ rw (e, put_link) refl
  | inr e ↦ rw (e, put_link) refl
]

at_root :
    (x y : Blk) (target : ℕ)
    → record y { head = (put_link (turned x) target).head } ≡ record y { head = x.head }
at_root x y target = elim (Bool-cases x.sense) [ inl e ↦ rw e refl | inr e ↦ rw e refl ]

abbrev flipped : Heap → ℕ → ℕ → Heap
flipped h1 b0 b1 = gen_not h1 b0

abbrev relinked : Heap → ℕ → ℕ → ℕ → Heap
relinked h1 b0 b1 z = set_block (flipped h1 b0 b1) z (put_link (flipped h1 b0 b1 z) b0)

abbrev or_heap : Heap → ℕ → ℕ → ℕ → Heap
or_heap h1 b0 b1 z = share_head (relinked h1 b0 b1 z) b0 b1

-- The heap of `gen_or` behind `backpatch`, which left `h1`.
module _ (h h1 : Heap) (b0 b1 target : ℕ) (l0 l1 : List ℕ) (d : Distinct (b0 ∷ l0))
    (out : mem b1 l1 ≡ false) (separate : Apart (b0 ∷ l0) (b1 ∷ l1))
    (patched : (i : ℕ)
      → h1 i ≡ (if mem i (b0 ∷ l0) then put_link (gen_not h b0 i) target else gen_not h b0 i)) where
  abbrev z : ℕ
  z = last_of b1 l1

  apart : (b0 == b1) ≡ false
  apart = (heads-Apart b0 b1 l0 l1 separate).0

  b0_out : mem b0 l0 ≡ false
  b0_out = d.0

  b1_out : mem b1 l0 ≡ false
  b1_out = (heads-Apart b0 b1 l0 l1 separate).1

  z_out : mem z l0 ≡ false
  z_out = (last_of-out b0 b1 l0 l1 separate).1

  z_apart : (z == b0) ≡ false
  z_apart = (last_of-out b0 b1 l0 l1 separate).0

  h1-b0 : h1 b0 ≡ put_link (turned (h b0)) target
  h1-b0 = patched b0 ∙ rw (same_id b0) refl

  h1-out : (i : ℕ) → (i == b0) ≡ false → mem i l0 ≡ false → h1 i ≡ h i
  h1-out i e m = patched i ∙ rw (e, m) refl

  or-b0 : or_heap h1 b0 b1 z b0 ≡ joined false h b0 b1 l0 z target b0
  or-b0 = elim (Bool-cases (h b0).sense) [
    | inl e ↦ rw (apart, differ_sym z b0 z_apart, same_id b0, h1-b0, e) refl
    | inr e ↦ rw (apart, differ_sym z b0 z_apart, same_id b0, h1-b0, e) refl
  ]

  or-list : (i : ℕ) → mem i l0 ≡ true → or_heap h1 b0 b1 z i ≡ joined false h b0 b1 l0 z target i
  or-list i m =
      let e0 : (i == b0) ≡ false = Chains.apart b0 i l0 b0_out m in
      let e1 : (i == b1) ≡ false = Chains.apart b1 i l0 b1_out m in
      let ez : (i == z) ≡ false = Chains.apart z i l0 z_out m in
      let here : h1 i ≡ put_link (h i) target = patched i ∙ rw (e0, m) refl in
      rw (e1, ez, e0, here, m) refl

  or-b1 : or_heap h1 b0 b1 z b1 ≡ joined false h b0 b1 l0 z target b1
  or-b1 =
      let e0 = differ_sym b0 b1 apart in
      let b1_same = h1-out b1 e0 b1_out in
      elim (Bool-cases (z == b1)) [
        | inl ez ↦
            let e = (==_iff z b1).0 ez in
            rw (e, same_id b1, same_id b0, apart, e0, h1-b0, b1_same, b1_out)
              (at_both (h b0) (h b1) b0 target)
        | inr ez ↦
            rw
              (
                same_id b1,
                same_id b0,
                differ_sym z b1 ez,
                differ_sym z b0 z_apart,
                e0,
                h1-b0,
                b1_same,
                b1_out,
                ez,
              )
              (at_root (h b0) (h b1) target)
      ]

  or-z : (z == b1) ≡ false → or_heap h1 b0 b1 z z ≡ joined false h b0 b1 l0 z target z
  or-z e1 = rw (e1, same_id z, z_apart, h1-out z z_apart z_out, z_out) refl

  or-rest :
      (i : ℕ)
      → (i == b0) ≡ false
      → (i == b1) ≡ false
      → (i == z) ≡ false
      → mem i l0 ≡ false
      → or_heap h1 b0 b1 z i ≡ joined false h b0 b1 l0 z target i
  or-rest i e0 e1 ez m = rw (e1, ez, e0, h1-out i e0 m, m) refl

  pub or_heap-joined : (i : ℕ) → or_heap h1 b0 b1 z i ≡ joined false h b0 b1 l0 z target i
  or_heap-joined =
      by_place (λ i. or_heap h1 b0 b1 z i ≡ joined false h b0 b1 l0 z target i) b0 b1 z l0 or-b0
        or-list or-b1 or-z or-rest

  -- A block of the list of `b1`.
  apart_block : (i : ℕ) → mem i l1 ≡ true → ((i == b0) ≡ false) × (mem i l0 ≡ false)
  apart_block i m = member-Apart b0 b1 l0 l1 separate i m

  -- The list of `b1` as `merge` finds it.
  merge-or_heap :
      (fuel : ℕ)
      → Chain h (field (h b1) (exit_of (h b1).sense (not false))) l1
      → length l1 < fuel
      → merge fuel (flipped h1 b0 b1) b1 b0 ≡ some (relinked h1 b0 b1 z)
  merge-or_heap fuel c enough =
      merge-Chain fuel (flipped h1 b0 b1) b1 b0 l1
        (Chain-moved h (flipped h1 b0 b1) (field (h b1) (exit_of (h b1).sense (not false)))
          (link (flipped h1 b0 b1 b1)) l1
          (rw (differ_sym b0 b1 apart, h1-out b1 (differ_sym b0 b1 apart) b1_out) refl)
          (λ i m. let (e0, m0) = apart_block i m in rw (e0, h1-out i e0 m0) refl) c)
        enough

-- `gen_or` returns, and each block is then the one that `joined` describes.
pub gen_or-joined :
    (fuel : ℕ) (h : Heap) (b0 b1 : ℕ) (l0 l1 : List ℕ)
    → Chain h (field (h b0) (exit_of (h b0).sense false)) l0
    → Chain h (field (h b1) (exit_of (h b1).sense (not false))) l1
    → Distinct (b0 ∷ l0)
    → mem b1 l1 ≡ false
    → Apart (b0 ∷ l0) (b1 ∷ l1)
    → length l0 < fuel
    → length l1 < fuel
    → (h' : Heap) × (gen_or fuel h b0 b1 ≡ some h')
      × ((i : ℕ) → h' i ≡ joined false h b0 b1 l0 (last_of b1 l1) (h b1).head i)
unfolding gen_or
gen_or-joined fuel h b0 b1 l0 l1 c0 c1 d out separate enough0 enough1 =
    let target = (h b1).head in
    let (h1, gives, patched) =
      backpatch-Chain fuel (gen_not h b0) (some b0) (b0 ∷ l0) target
        (
          refl,
          Chain-moved h (gen_not h b0) (field (h b0) (exit_of (h b0).sense false))
              (link (gen_not h b0 b0)) l0 (rw (same_id b0) (link-not (h b0)))
              (λ i m. rw (Chains.apart b0 i l0 d.0 m) refl) c0,
        )
        d enough0 in
    let merged = merge-or_heap h h1 b0 b1 target l0 l1 d out separate patched fuel c1 enough1 in
    (
      or_heap h1 b0 b1 (last_of b1 l1),
      rw (gives, merged) refl,
      or_heap-joined h h1 b0 b1 target l0 l1 d out separate patched,
    )
