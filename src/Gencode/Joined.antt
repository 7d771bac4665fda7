-- ===== src/Gencode/Joined.antt =====
-- gencode.c: what `gen_and` and `gen_or` do to each block, and its proof for the blocks of a list.
use gap16g_libpcap.Base.{
  ℕ, ◌≡◌, refl, sym, ap, ◌∙◌, arith, Bool, true, false, not, some, List, [], ◌∷◌, ◌==◌, ==_iff,
  ◌||◌, if◌then◌else◌, inl, inr, Bool-cases,
}
use mathlib.Core.Path.{subst}
use gap16g_libpcap.Gencode.{Blk, Heap, field, put_field, link, put_link}
use gap16g_libpcap.Gencode.Chains.{mem, Apart, last_of, last_of-mem}

-- The exit that a side of a root block is, and the side that an exit is.
abbrev pub exit_of : Bool → Bool → Bool
exit_of sense side = if side then not sense else sense

-- The block at `i` when the exits `d` of `b0`, which are those of `b0` and of `list`, lead to
-- `target`, and its other exits follow the block `z` in the list of `b1`.
abbrev pub joined : Bool → Heap → ℕ → ℕ → List ℕ → ℕ → ℕ → ℕ → Blk
joined d h b0 b1 list z target i =
    if i == b0
    then record (put_field (h b0) (exit_of (h b0).sense d) (some target)) {
      sense = if d then not (h b0).sense else (h b0).sense;
    }
    else if mem i list
    then put_link (h i) target
    else if i == b1
    then record (if z == b1
        then put_field (h b1) (exit_of (h b1).sense (not d)) (some b0)
        else h b1) { head = (h b0).head }
    else if i == z
    then put_link (h i) b0
    else h i

pub same_id : (i : ℕ) → (i == i) ≡ true
same_id i = (==_iff i i).1 refl

-- The other exit is unresolved once `sense` is flipped.
pub link-not : (x : Blk) → link (record x { sense = not x.sense }) ≡ field x x.sense
link-not x = elim (Bool-cases x.sense) [ inl e ↦ rw e refl | inr e ↦ rw e refl ]

pub differ_sym : (i j : ℕ) → (i == j) ≡ false → (j == i) ≡ false
differ_sym i j e = ground arith

-- A fact of five kinds of blocks is one of all of them.
pub by_place :
    (P : ℕ → Type 0) (b0 b1 z : ℕ) (l0 : List ℕ)
    → P b0
    → ((i : ℕ) → mem i l0 ≡ true → P i)
    → P b1
    → ((z == b1) ≡ false → P z)
    → ((i : ℕ) → (i == b0) ≡ false → (i == b1) ≡ false → (i == z) ≡ false → mem i l0 ≡ false → P i)
    → (i : ℕ) → P i
by_place P b0 b1 z l0 at_b0 at_list at_b1 at_z at_rest i = elim (Bool-cases (i == b0)) [
  | inl e ↦ subst P (sym ((==_iff i b0).0 e)) at_b0
  | inr e0 ↦ elim (Bool-cases (mem i l0)) [
    | inl m ↦ at_list i m
    | inr m ↦ elim (Bool-cases (i == b1)) [
      | inl e ↦ subst P (sym ((==_iff i b1).0 e)) at_b1
      | inr e1 ↦ elim (Bool-cases (i == z)) [
        | inl e ↦
            let same = (==_iff i z).0 e in
            subst P (sym same) (at_z (ap (λ k. k == b1) (sym same) ∙ e1))
        | inr ez ↦ at_rest i e0 e1 ez m
      ]
    ]
  ]
]

pub last_of-in : (i : ℕ) (is : List ℕ) → mem (last_of i is) (i ∷ is) ≡ true
last_of-in i is = elim (last_of-mem i is) [
  | inl here ↦ rw (here, same_id i) refl
  | inr later ↦ elim (Bool-cases (last_of i is == i)) [
    | inl e ↦ rw e refl
    | inr e ↦ rw (e, later) refl
  ]
]

pub neither :
    (b : ℕ) (l : List ℕ) (i : ℕ) → mem i (b ∷ l) ≡ false → ((i == b) ≡ false) × (mem i l ≡ false)
neither b l i out = elim (Bool-cases (i == b)) [
  | inl e ↦ cc (ap (λ t. t || mem i l) (sym e) ∙ out)
  | inr e ↦ (e, ap (λ t. t || mem i l) (sym e) ∙ out)
]

-- The last block of a list that is apart from another.
pub last_of-out :
    (b0 b1 : ℕ) (l0 l1 : List ℕ)
    → Apart (b0 ∷ l0) (b1 ∷ l1)
    → ((last_of b1 l1 == b0) ≡ false) × (mem (last_of b1 l1) l0 ≡ false)
last_of-out b0 b1 l0 l1 separate =
    let z = last_of b1 l1 in
    neither b0 l0 (last_of b1 l1) (elim (Bool-cases (mem (last_of b1 l1) (b0 ∷ l0))) [
      | inl m ↦ cc (separate (last_of b1 l1) m, last_of-in b1 l1)
      | inr m ↦ m
    ])

-- A block of one list, when no block is in both.
pub member-Apart :
    (b0 b1 : ℕ) (l0 l1 : List ℕ)
    → Apart (b0 ∷ l0) (b1 ∷ l1)
    → (i : ℕ) → mem i l1 ≡ true
    → ((i == b0) ≡ false) × (mem i l0 ≡ false)
member-Apart b0 b1 l0 l1 separate i m = neither b0 l0 i (elim (Bool-cases (mem i (b0 ∷ l0))) [
  | inl m0 ↦ absurd (cc (sym m ∙ (neither b1 l1 i (separate i m0)).1))
  | inr m0 ↦ m0
])

-- `b0` and `b1`, which start such lists.
pub heads-Apart :
    (b0 b1 : ℕ) (l0 l1 : List ℕ)
    → Apart (b0 ∷ l0) (b1 ∷ l1)
    → ((b0 == b1) ≡ false) × (mem b1 l0 ≡ false)
heads-Apart b0 b1 l0 l1 separate =
    let (e, out) = last_of-out b0 b1 l0 [] (λ i m. elim (Bool-cases (i == b1)) [
      | inl e ↦ cc (ap (λ t. t || mem i l1) (sym e) ∙ separate i m)
      | inr e ↦ rw e refl
    ]) in
    (differ_sym b1 b0 e, out)
