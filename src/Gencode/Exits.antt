-- ===== src/Gencode/Exits.antt =====
-- gencode.c: the lists of exits of a part that `gen_and` or `gen_or` built of two.
use gap16g_libpcap.Base.{
  ℕ, ◌≡◌, refl, sym, ap, ◌∙◌, Bool, true, false, not, ◌&&◌, ◌||◌, List, [], ◌∷◌, ◌++◌, ◌==◌, ==_iff,
  ◌⊎◌, inl, inr, Bool-cases,
}
use gap16g_libpcap.Gencode.Chains.{mem, Distinct, Apart}

-- `gen_and` joins by the true exits of the first part, `gen_or` by its false ones. Its other exits
-- follow those of the second part.
abbrev pub joined_lists : Bool → (Bool → List ℕ) → ℕ → (Bool → List ℕ) → Bool → List ℕ
joined_lists true l0 b0 l1 true = l1 true
joined_lists true l0 b0 l1 false = l1 false ++ (b0 ∷ l0 false)
joined_lists false l0 b0 l1 true = l1 true ++ (b0 ∷ l0 true)
joined_lists false l0 b0 l1 false = l1 false

pub not-not : (b : Bool) → not (not b) ≡ b
not-not true = refl
not-not false = refl

-- What the two parts together decide.
abbrev pub both : Bool → Bool → Bool → Bool
both true v w = v && w
both false v w = v || w

pub both-join : (d w : Bool) → both d d w ≡ w
both-join true w = refl
both-join false w = refl

pub both-leave : (d w : Bool) → both d (not d) w ≡ not d
both-leave true w = refl
both-leave false w = refl

pub by_exit : (P : Bool → Type 0) (d : Bool) → P d → P (not d) → (v : Bool) → P v
by_exit P true same other true = same
by_exit P true same other false = other
by_exit P false same other true = other
by_exit P false same other false = same

pub mem-++ : (i : ℕ) (xs ys : List ℕ) → mem i (xs ++ ys) ≡ (mem i xs || mem i ys)
mem-++ i [] ys = refl
mem-++ i (x ∷ xs) ys = elim (Bool-cases (i == x)) [
  | inl e ↦ rw e refl
  | inr e ↦ rw e (mem-++ i xs ys)
]

pub Distinct-++ : (xs ys : List ℕ) → Distinct xs → Distinct ys → Apart xs ys → Distinct (xs ++ ys)
Distinct-++ [] ys dx dy separate = dy
Distinct-++ (x ∷ xs) ys dx dy separate = (
  mem-++ x xs ys ∙ rw (dx.0, separate x (rw ((==_iff x x).1 refl) refl)) refl,
  Distinct-++ xs ys dx.1 dy (λ i m.
      separate i (elim (Bool-cases (i == x)) [ inl e ↦ rw e refl | inr e ↦ rw (e, m) refl ])),
)

module _ (d : Bool) (l0 l1 : Bool → List ℕ) (b0 : ℕ) where
  pub joined_lists-same : joined_lists d l0 b0 l1 d ≡ l1 d
  joined_lists-same = by_exit (λ e. joined_lists e l0 b0 l1 e ≡ l1 e) true refl refl d

  pub joined_lists-other : joined_lists d l0 b0 l1 (not d) ≡ l1 (not d) ++ (b0 ∷ l0 (not d))
  joined_lists-other =
      by_exit (λ e. joined_lists e l0 b0 l1 (not e) ≡ l1 (not e) ++ (b0 ∷ l0 (not e))) true refl
        refl d

  pub from_second :
      (v : Bool) (i : ℕ) → mem i (l1 v) ≡ true → mem i (joined_lists d l0 b0 l1 v) ≡ true
  from_second =
      by_exit (λ v. (i : ℕ) → mem i (l1 v) ≡ true → mem i (joined_lists d l0 b0 l1 v) ≡ true) d
        (λ i m. ap (mem i) joined_lists-same ∙ m)
        (λ i m. ap (mem i) joined_lists-other ∙ mem-++ i (l1 (not d)) (b0 ∷ l0 (not d)) ∙ rw m refl)

  pub from_first :
      (i : ℕ) → mem i (b0 ∷ l0 (not d)) ≡ true → mem i (joined_lists d l0 b0 l1 (not d)) ≡ true
  from_first i m =
      ap (mem i) joined_lists-other
      ∙ mem-++ i (l1 (not d)) (b0 ∷ l0 (not d))
      ∙ ap (λ t. mem i (l1 (not d)) || t) m
      ∙ (elim (Bool-cases (mem i (l1 (not d)))) [ inl e ↦ rw e refl | inr e ↦ rw e refl ])

  -- Each exit of the whole is one of a part.
  pub exit_of_part :
      (v : Bool) (i : ℕ)
      → mem i (joined_lists d l0 b0 l1 v) ≡ true
      → (mem i (l1 v) ≡ true) ⊎ ((v ≡ not d) × (mem i (b0 ∷ l0 (not d)) ≡ true))
  exit_of_part =
      by_exit
        (λ v.
          (i : ℕ)
          → mem i (joined_lists d l0 b0 l1 v) ≡ true
          → (mem i (l1 v) ≡ true) ⊎ ((v ≡ not d) × (mem i (b0 ∷ l0 (not d)) ≡ true)))
        d (λ i m. inl (ap (mem i) (sym joined_lists-same) ∙ m))
        (λ i m. elim (Bool-cases (mem i (l1 (not d)))) [
          | inl e ↦ inl e
          | inr e ↦
              let whole =
                mem-++ i (l1 (not d)) (b0 ∷ l0 (not d))
                ∙ ap (λ t. t || mem i (b0 ∷ l0 (not d))) e in
              inr (refl, sym whole ∙ ap (mem i) (sym joined_lists-other) ∙ m)
        ])
