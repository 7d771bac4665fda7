-- ===== src/Gencode/Append.antt =====
-- gencode.c: a list behind which another one is linked.
use gap16g_libpcap.Base.{
  ℕ, ◌≡◌, refl, sym, ap, ◌∙◌, true, false, Option, some, List, [], ◌∷◌, ◌++◌, ◌==◌, ==_iff, inl,
  inr, Bool-cases,
}
use gap16g_libpcap.Gencode.{Heap, link}
use gap16g_libpcap.Gencode.Chains.{mem, Distinct, Chain, apart, last_of}
use gap16g_libpcap.Gencode.Joined.{same_id, differ_sym, last_of-in}

-- `b1` starts the list, `o` and `o'` are its link before and after, and only the last link changes.
pub Chain-append :
    (h h' : Heap) (o o' : Option ℕ) (b1 : ℕ) (l1 : List ℕ) (b0 : ℕ) (l0 : List ℕ)
    → Chain h o l1
    → Distinct (b1 ∷ l1)
    → ((last_of b1 l1 == b1) ≡ true → o' ≡ some b0)
    → ((last_of b1 l1 == b1) ≡ false → o' ≡ o)
    → ((j : ℕ) → mem j l1 ≡ true → (j == last_of b1 l1) ≡ false → link (h' j) ≡ link (h j))
    → ((last_of b1 l1 == b1) ≡ false → link (h' (last_of b1 l1)) ≡ some b0)
    → Chain h' (link (h' b0)) l0
    → Chain h' o' (l1 ++ (b0 ∷ l0))
Chain-append h h' o o' b1 [] b0 l0 c d is_last is_inner same linked rest =
    (is_last (same_id b1), rest)
Chain-append h h' o o' b1 (i ∷ is) b0 l0 c d is_last is_inner same linked rest =
    let z = last_of i is in
    let inner : (z == b1) ≡ false = apart b1 z (i ∷ is) d.0 (last_of-in i is) in
    (
      is_inner inner ∙ c.0,
      Chain-append h h' (link (h i)) (link (h' i)) i is b0 l0 c.1 d.1
          (λ e. ap (λ k. link (h' k)) (sym ((==_iff z i).0 e)) ∙ linked inner)
          (λ e. same i (rw (same_id i) refl) (differ_sym z i e))
          (λ j m e.
            same j (elim (Bool-cases (j == i)) [ inl f ↦ rw f refl | inr f ↦ rw (f, m) refl ]) e)
          (λ e. linked inner) rest,
    )
