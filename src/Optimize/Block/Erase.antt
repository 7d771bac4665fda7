-- ===== src/Optimize/Block/Erase.antt =====
-- optimize.c: deleted statements, and what `deadstmt` does to `last[]`.
use gap16g_libpcap.Base.{
  ℕ, ◌<◌, ◌≡◌, ◌≢◌, refl, sym, ap, ◌∙◌, arith, Bool, true, false, Option, none, some, ◌==◌, ==_iff,
  if◌then◌else◌, ◌⊎◌, inl, inr, Bool-cases,
}
use gap16g_libpcap.Optimize.Stmt.{Stmt}
use gap16g_libpcap.Optimize.Block.{
  Use, no_atom, one_atom, both_atoms, deleted, Stores, forget, delete_last, define,
}
use gap16g_libpcap.Optimize.Block.Effect.{uses}

-- `g` is the first `n` statements, with some of those deleted that are the last to define an atom of `off`.
abbrev pub Erased : (ℕ → Option ℕ) → (ℕ → Stmt) → (ℕ → Bool) → ℕ → (ℕ → Stmt) → Type 0
Erased last f off n g =
    (i : ℕ)
    → i < n
    → (g i ≡ f i) ⊎ ((a : ℕ) × (off a ≡ true) × (last a ≡ some i) × (g i ≡ deleted (f i)))

abbrev pub is_atom : Option ℕ → ℕ → Bool
is_atom none a = false
is_atom (some b) a = a == b

pub atom-cases : (o : Option ℕ) (a : ℕ) → (o ≡ some a) ⊎ (o ≢ some a)
atom-cases none a = inr (λ e. cc)
atom-cases (some b) a = elim (Bool-cases (a == b)) [
  | inl same ↦ inl (ap some (sym ((==_iff a b).0 same)))
  | inr other ↦ inr (λ e. ground arith)
]

-- What may be wrong before a statement, so that `off` may be wrong behind it.
abbrev pub before : Use → Option ℕ → (ℕ → Bool) → ℕ → Bool
before u d off a = if uses u a then false else if is_atom d a then true else off a

pub before-off :
    (u : Use) (d : Option ℕ) (off : ℕ → Bool) (a : ℕ)
    → off a ≡ false
    → d ≢ some a
    → before u d off a ≡ false
before-off u none off a h other = ground arith
before-off u (some b) off a h other = elim (Bool-cases (a == b)) [
  | inl same ↦ absurd (other (ap some (sym ((==_iff a b).0 same))))
  | inr diff ↦ rw (diff, h) (ground arith)
]

pub before-kept :
    (u : Use) (d : Option ℕ) (off : ℕ → Bool) (a : ℕ)
    → uses u a ≡ false
    → (off a ≡ true) ⊎ (d ≡ some a)
    → before u d off a ≡ true
before-kept u none off a free (inl h) = rw (free, h) refl
before-kept u (some b) off a free (inl h) = rw (free, h) (ground arith)
before-kept u d off a free (inr e) = rw (free, e, (==_iff a a).1 refl) refl

pub forget-some :
    (u : Use) (last : ℕ → Option ℕ) (a j : ℕ)
    → forget u last a ≡ some j
    → (last a ≡ some j) × (uses u a ≡ false)
unfolding uses
forget-some no_atom last a j e = (e, refl)
forget-some (one_atom b) last a j e = ground arith
forget-some both_atoms last a j e = ground arith

-- What `define` makes of the statements and of `last[]`.
module _ (d : Stores) where
  pub delete_last-stmts :
      (o : Option ℕ) (i : ℕ)
      → ((delete_last o d).stmts i ≡ d.stmts i)
        ⊎ ((o ≡ some i) × ((delete_last o d).stmts i ≡ deleted (d.stmts i)))
  delete_last-stmts none i = inl refl
  delete_last-stmts (some j) i = elim (Bool-cases (i == j)) [
    | inl same ↦ inr (ap some (sym ((==_iff i j).0 same)), rw same refl)
    | inr other ↦ inl (rw other refl)
  ]

  pub delete_last-last : (o : Option ℕ) → (delete_last o d).last ≡ d.last
  delete_last-last none = refl
  delete_last-last (some j) = refl

module _ (n : ℕ) (d : Stores) (below : (a j : ℕ) → d.last a ≡ some j → j < n) where
  pub define-stmts :
      (o : Option ℕ) (i : ℕ)
      → ((define o n d).stmts i ≡ d.stmts i)
        ⊎ ((b : ℕ) × (o ≡ some b)
            × (d.last b ≡ some i)
            × ((define o n d).stmts i ≡ deleted (d.stmts i)))
  define-stmts none i = inl refl
  define-stmts (some b) i = elim (delete_last-stmts d (d.last b) i) [
    | inl same ↦ inl same
    | inr (e, gone) ↦ inr (b, refl, e, gone)
  ]

  pub define-last :
      (o : Option ℕ) (a i : ℕ)
      → (define o n d).last a ≡ some i
      → ((i ≡ n) × (o ≡ some a)) ⊎ ((o ≢ some a) × (d.last a ≡ some i))
  define-last none a i e = inr (λ x. cc, e)
  define-last (some b) a i e = elim (Bool-cases (a == b)) [
    | inl same ↦ inl (ground arith, ap some (sym ((==_iff a b).0 same)))
    | inr other ↦
        inr
          (λ x. ground arith, ap (λ l. l a) (sym (delete_last-last d (d.last b))) ∙ (rw other at e))
  ]
