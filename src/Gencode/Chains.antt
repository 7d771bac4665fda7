-- ===== src/Gencode/Chains.antt =====
-- gencode.c: `backpatch` and `merge` on a list of blocks that are linked by their unresolved fields.
use gap16g_libpcap.Base.{
  ℕ, zero, suc, ◌≤◌, ◌<◌, ◌≡◌, refl, sym, ap, ◌∙◌, arith, Bool, true, false, Option, none, some,
  List, [], ◌∷◌, ◌==◌, ==_iff, ◌||◌, if◌then◌else◌, length, ◌⊎◌, inl, inr, Bool-cases,
}
use mathlib.Core.Path.{subst}
use gap16g_libpcap.Gencode.{Heap, set_block, link, put_link, backpatch, merge}

abbrev pub mem : ℕ → List ℕ → Bool
mem i [] = false
mem i (j ∷ js) = i == j || mem i js

abbrev pub Distinct : List ℕ → Type 0
Distinct [] = Unit
Distinct (i ∷ is) = (mem i is ≡ false) × Distinct is

-- From the link `o` on, the list has these blocks, and then ends.
abbrev pub Chain : Heap → Option ℕ → List ℕ → Type 0
Chain h o [] = o ≡ none
Chain h o (i ∷ is) = (o ≡ some i) × Chain h (link (h i)) is

-- Only the links of its blocks matter.
pub Chain-ext :
    (h h' : Heap) (o : Option ℕ) (is : List ℕ)
    → ((i : ℕ) → mem i is ≡ true → link (h' i) ≡ link (h i))
    → Chain h o is
    → Chain h' o is
Chain-ext h h' o [] same c = c
Chain-ext h h' o (i ∷ is) same c = (
  c.0,
  Chain-ext h h' (link (h' i)) is (λ j m. same j (rw m (ground arith)))
      (subst (λ o'. Chain h o' is) (sym (same i (rw ((==_iff i i).1 refl) refl))) c.1),
)

-- So a list that starts with the same block in another heap is a list there.
pub Chain-moved :
    (h h' : Heap) (o o' : Option ℕ) (is : List ℕ)
    → o' ≡ o
    → ((i : ℕ) → mem i is ≡ true → h' i ≡ h i)
    → Chain h o is
    → Chain h' o' is
Chain-moved h h' o o' is start same c =
    subst (λ o''. Chain h' o'' is) (sym start) (Chain-ext h h' o is (λ i m. ap link (same i m)) c)

-- A block of a list is not one that is not in it.
pub apart : (i j : ℕ) (is : List ℕ) → mem i is ≡ false → mem j is ≡ true → (j == i) ≡ false
apart i j is out in_list = elim (Bool-cases (j == i)) [
  | inr other ↦ other
  | inl same ↦ cc (ap (λ k. mem k is) ((==_iff j i).0 same))
]

-- No block is in both lists.
abbrev pub Apart : List ℕ → List ℕ → Type 0
Apart is js = (i : ℕ) → mem i is ≡ true → mem i js ≡ false

-- The list is resolved to `target`, block by block.
pub backpatch-Chain :
    (fuel : ℕ) (h : Heap) (o : Option ℕ) (is : List ℕ) (target : ℕ)
    → Chain h o is
    → Distinct is
    → length is ≤ fuel
    → (h' : Heap) × (backpatch fuel h o target ≡ some h')
      × ((i : ℕ) → h' i ≡ (if mem i is then put_link (h i) target else h i))
unfolding backpatch
backpatch-Chain fuel h o [] target c d enough = (h, rw c refl, λ i. refl)
backpatch-Chain zero h o (i ∷ is) target c d enough = absurd (omega arith)
backpatch-Chain (suc fuel) h o (i ∷ is) target c d enough =
    let patched = set_block h i (put_link (h i) target) in
    let (h', gives, is_h') =
      backpatch-Chain fuel patched (link (h i)) is target
        (Chain-ext h patched (link (h i)) is (λ j m. rw (apart i j is d.0 m) refl) c.1) d.1
        (omega arith) in
    (
      h',
      rw c.0 gives,
      λ j. is_h' j ∙ (elim (Bool-cases (j == i)) [
        | inr other ↦ rw other refl
        | inl same ↦ let e = (==_iff j i).0 same in rw (same, ap (λ k. mem k is) e ∙ d.0, e) refl
      ]),
    )

-- The last block of a list that starts with `i`.
abbrev pub last_of : ℕ → List ℕ → ℕ
last_of i [] = i
last_of i (j ∷ js) = last_of j js

-- `b1` is linked behind the last block.
pub merge-Chain :
    (fuel : ℕ) (h : Heap) (b0 b1 : ℕ) (is : List ℕ)
    → Chain h (link (h b0)) is
    → length is < fuel
    → merge fuel h b0 b1 ≡ some (set_block h (last_of b0 is) (put_link (h (last_of b0 is)) b1))
unfolding merge
merge-Chain zero h b0 b1 is c enough = absurd (omega arith)
merge-Chain (suc fuel) h b0 b1 [] c enough = rw (c, merge) refl
merge-Chain (suc fuel) h b0 b1 (i ∷ is) c enough =
    rw (c.0, merge) (merge-Chain fuel h i b1 is c.1 (omega arith))

pub last_of-mem : (i : ℕ) (is : List ℕ) → (last_of i is ≡ i) ⊎ (mem (last_of i is) is ≡ true)
last_of-mem i [] = inl refl
last_of-mem i (j ∷ js) = elim (last_of-mem j js) [
  | inl here ↦ inr (rw (here, (==_iff j j).1 refl) refl)
  | inr later ↦ inr (elim (Bool-cases (last_of j js == j)) [
    | inl same ↦ rw same refl
    | inr other ↦ rw (other, later) refl
  ])
]
