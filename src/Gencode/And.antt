-- ===== src/Gencode/And.antt =====
-- gencode.c: the heap that `gen_and` leaves.
use gap16g_libpcap.Base.{
  ℕ, ◌<◌, ◌≡◌, refl, ◌∙◌, true, false, not, some, List, ◌∷◌, ◌==◌, ==_iff, if◌then◌else◌, length,
  inl, inr, Bool-cases,
}
use gap16g_libpcap.Gencode.{
  Blk, Heap, field, put_field, set_block, link, put_link, merge, gen_not, share_head, gen_and,
}
use gap16g_libpcap.Gencode.Chains
use gap16g_libpcap.Gencode.Chains.{
  mem, Distinct, Apart, Chain, Chain-moved, backpatch-Chain, last_of, merge-Chain,
}
use gap16g_libpcap.Gencode.Joined.{
  exit_of, joined, same_id, link-not, differ_sym, by_place, last_of-out, heads-Apart, member-Apart,
}

-- What becomes of `b1` in `gen_and`, when it is the end of its list and when it is not.
at_both :
    (x y : Blk) (b0 target : ℕ)
    → record (put_link (record y { sense = not y.sense }) b0) {
      sense = not (put_link (record y { sense = not y.sense }) b0).sense;
      head = (put_link x target).head;
    }
      ≡ record (put_field y (exit_of y.sense false) (some b0)) { head = x.head }
at_both x y b0 target = elim (Bool-cases x.sense) [
  | inl e ↦ elim (Bool-cases y.sense) [ inl e' ↦ rw (e, e') refl | inr e' ↦ rw (e, e') refl ]
  | inr e ↦ elim (Bool-cases y.sense) [ inl e' ↦ rw (e, e') refl | inr e' ↦ rw (e, e') refl ]
]

at_root :
    (x y : Blk) (target : ℕ)
    → record y { sense = not (not y.sense); head = (put_link x target).head }
      ≡ record y { head = x.head }
at_root x y target = elim (Bool-cases x.sense) [
  | inl e ↦ elim (Bool-cases y.sense) [ inl e' ↦ rw (e, e') refl | inr e' ↦ rw (e, e') refl ]
  | inr e ↦ elim (Bool-cases y.sense) [ inl e' ↦ rw (e, e') refl | inr e' ↦ rw (e, e') refl ]
]

abbrev flipped : Heap → ℕ → ℕ → Heap
flipped h1 b0 b1 = gen_not (gen_not h1 b0) b1

abbrev relinked : Heap → ℕ → ℕ → ℕ → Heap
relinked h1 b0 b1 z = set_block (flipped h1 b0 b1) z (put_link (flipped h1 b0 b1 z) b0)

abbrev and_heap : Heap → ℕ → ℕ → ℕ → Heap
and_heap h1 b0 b1 z = share_head (gen_not (relinked h1 b0 b1 z) b1) b0 b1

-- The heap of `gen_and` behind `backpatch`, which left `h1`.
module _ (h h1 : Heap) (b0 b1 target : ℕ) (l0 l1 : List ℕ) (d : Distinct (b0 ∷ l0))
    (out : mem b1 l1 ≡ false) (separate : Apart (b0 ∷ l0) (b1 ∷ l1))
    (patched : (i : ℕ) → h1 i ≡ (if mem i (b0 ∷ l0) then put_link (h i) target else h i)) where
  abbrev z : ℕ
  z = last_of b1 l1

  apart : (b0 == b1) ≡ false
  apart = (heads-Apart b0 b1 l0 l1 separate).0

  b0_out : mem b0 l0 ≡ false
  b0_out = d.0

  b1_out : mem b1 l0 ≡ false
  b1_out = (heads-Apart b0 b1 l0 l1 separate).1

  z_out : mem z l0 ≡ false
  z_out = (last_of-out b0 b1 l0 l1 separate).1

  z_apart : (z == b0) ≡ false
  z_apart = (last_of-out b0 b1 l0 l1 separate).0

  h1-b0 : h1 b0 ≡ put_link (h b0) target
  h1-b0 = patched b0 ∙ rw (same_id b0) refl

  h1-out : (i : ℕ) → (i == b0) ≡ false → mem i l0 ≡ false → h1 i ≡ h i
  h1-out i e m = patched i ∙ rw (e, m) refl

  and-b0 : and_heap h1 b0 b1 z b0 ≡ joined true h b0 b1 l0 z target b0
  and-b0 = elim (Bool-cases (h b0).sense) [
    | inl e ↦ rw (apart, differ_sym z b0 z_apart, same_id b0, h1-b0, e) refl
    | inr e ↦ rw (apart, differ_sym z b0 z_apart, same_id b0, h1-b0, e) refl
  ]

  and-list : (i : ℕ) → mem i l0 ≡ true → and_heap h1 b0 b1 z i ≡ joined true h b0 b1 l0 z target i
  and-list i m =
      let e0 : (i == b0) ≡ false = Chains.apart b0 i l0 b0_out m in
      let e1 : (i == b1) ≡ false = Chains.apart b1 i l0 b1_out m in
      let ez : (i == z) ≡ false = Chains.apart z i l0 z_out m in
      let here : h1 i ≡ put_link (h i) target = patched i ∙ rw (e0, m) refl in
      rw (e1, ez, e0, here, m) refl

  and-b1 : and_heap h1 b0 b1 z b1 ≡ joined true h b0 b1 l0 z target b1
  and-b1 =
      let e0 = differ_sym b0 b1 apart in
      let b1_same = h1-out b1 e0 b1_out in
      elim (Bool-cases (z == b1)) [
        | inl ez ↦
            let e = (==_iff z b1).0 ez in
            rw (e, same_id b1, same_id b0, apart, e0, h1-b0, b1_same, b1_out)
              (at_both (h b0) (h b1) b0 target)
        | inr ez ↦
            rw
              (
                same_id b1,
                same_id b0,
                apart,
                differ_sym z b1 ez,
                differ_sym z b0 z_apart,
                e0,
                h1-b0,
                b1_same,
                b1_out,
                ez,
              )
              (at_root (h b0) (h b1) target)
      ]

  and-z : (z == b1) ≡ false → and_heap h1 b0 b1 z z ≡ joined true h b0 b1 l0 z target z
  and-z e1 = rw (e1, same_id z, z_apart, h1-out z z_apart z_out, z_out) refl

  and-rest :
      (i : ℕ)
      → (i == b0) ≡ false
      → (i == b1) ≡ false
      → (i == z) ≡ false
      → mem i l0 ≡ false
      → and_heap h1 b0 b1 z i ≡ joined true h b0 b1 l0 z target i
  and-rest i e0 e1 ez m = rw (e1, ez, e0, h1-out i e0 m, m) refl

  pub and_heap-joined : (i : ℕ) → and_heap h1 b0 b1 z i ≡ joined true h b0 b1 l0 z target i
  and_heap-joined =
      by_place (λ i. and_heap h1 b0 b1 z i ≡ joined true h b0 b1 l0 z target i) b0 b1 z l0 and-b0
        and-list and-b1 and-z and-rest

  -- A block of the list of `b1`.
  apart_block : (i : ℕ) → mem i l1 ≡ true → ((i == b0) ≡ false) × (mem i l0 ≡ false)
  apart_block i m = member-Apart b0 b1 l0 l1 separate i m

  -- The list of `b1` as `merge` finds it.
  merge-and_heap :
      (fuel : ℕ)
      → Chain h (field (h b1) (exit_of (h b1).sense (not true))) l1
      → length l1 < fuel
      → merge fuel (flipped h1 b0 b1) b1 b0 ≡ some (relinked h1 b0 b1 z)
  merge-and_heap fuel c enough =
      merge-Chain fuel (flipped h1 b0 b1) b1 b0 l1
        (Chain-moved h (flipped h1 b0 b1) (field (h b1) (exit_of (h b1).sense (not true)))
          (link (flipped h1 b0 b1 b1)) l1
          (rw (same_id b1, differ_sym b0 b1 apart, h1-out b1 (differ_sym b0 b1 apart) b1_out)
            (link-not (h b1)))
          (λ i m.
            let (e0, m0) = apart_block i m in
            rw (Chains.apart b1 i l1 out m, e0, h1-out i e0 m0) refl)
          c)
        enough

-- `gen_and` returns, and each block is then the one that `joined` describes.
pub gen_and-joined :
    (fuel : ℕ) (h : Heap) (b0 b1 : ℕ) (l0 l1 : List ℕ)
    → Chain h (field (h b0) (exit_of (h b0).sense true)) l0
    → Chain h (field (h b1) (exit_of (h b1).sense (not true))) l1
    → Distinct (b0 ∷ l0)
    → mem b1 l1 ≡ false
    → Apart (b0 ∷ l0) (b1 ∷ l1)
    → length l0 < fuel
    → length l1 < fuel
    → (h' : Heap) × (gen_and fuel h b0 b1 ≡ some h')
      × ((i : ℕ) → h' i ≡ joined true h b0 b1 l0 (last_of b1 l1) (h b1).head i)
unfolding gen_and
gen_and-joined fuel h b0 b1 l0 l1 c0 c1 d out separate enough0 enough1 =
    let target = (h b1).head in
    let (h1, gives, patched) =
      backpatch-Chain fuel h (some b0) (b0 ∷ l0) target (refl, c0) d enough0 in
    let merged = merge-and_heap h h1 b0 b1 target l0 l1 d out separate patched fuel c1 enough1 in
    (
      and_heap h1 b0 b1 (last_of b1 l1),
      rw (gives, merged) refl,
      and_heap-joined h h1 b0 b1 target l0 l1 d out separate patched,
    )
