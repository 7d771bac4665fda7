-- ===== src/Gencode/Registers.antt =====
-- gencode.c: the allocator of the scratch registers for arithmetic.
mod Tests
use gap16g_libpcap.Base.{
  ℕ, zero, suc, ◌+◌, ◌-◌, ◌%◌, ◌≤◌, ◌<◌, ◌≡◌, ◌≢◌, refl, ap, ◌∙◌, arith, Bool, true, false, Option,
  none, some, ◌==◌, ==_iff, if◌then◌else◌, ◌⊎◌, inl, inr, Bool-cases,
}
use mathlib.Core.Path.{subst}

-- `regused` and `curreg`.
pub record Regs : Type 0 where
  pub regused : ℕ → Bool
  pub curreg : ℕ

abbrev pub init_regs : Regs
init_regs = record { regused = λ i. false; curreg = 0 }

abbrev pub mark_reg : (ℕ → Bool) → ℕ → Bool → ℕ → Bool
mark_reg regused n b i = if i == n then b else regused i

-- The loop with `n` tries left; `none` is the call of bpf_error().
unfoldable pub alloc_loop : ℕ → Regs → Option (ℕ × Regs)
alloc_loop zero r = none
alloc_loop (suc n) r = elim (r.regused r.curreg) [
  | true ↦ alloc_loop n (record r { curreg = (r.curreg + 1) % 16 })
  | false ↦ some (r.curreg, record r { regused = mark_reg r.regused r.curreg true })
]

abbrev pub alloc_reg : Regs → Option (ℕ × Regs)
alloc_reg r = alloc_loop 16 r

abbrev pub free_reg : Regs → ℕ → Regs
free_reg r n = record r { regused = mark_reg r.regused n false }

-- A free register was found, and nothing but its mark has changed, or none is free.
abbrev pub Allocates : Regs → Option (ℕ × Regs) → Type 0
Allocates r o =
    ((i : ℕ) × (r' : Regs) × (o ≡ some (i, r'))
      × (i < 16)
      × (r.regused i ≡ false)
      × (r'.regused i ≡ true)
      × ((j : ℕ) → j ≢ i → r'.regused j ≡ r.regused j)
      × (r'.curreg < 16))
    ⊎ ((o ≡ none) × ((i : ℕ) → i < 16 → r.regused i ≡ true))

alloc_loop-Allocates :
    (n : ℕ) (r : Regs)
    → n ≤ 16
    → r.curreg < 16
    → ((i : ℕ) → i < 16 → n ≤ (i + 16 - r.curreg) % 16 → r.regused i ≡ true)
    → Allocates r (alloc_loop n r)
unfolding alloc_loop
alloc_loop-Allocates zero r few inside tried = inr (refl, λ i u. tried i u (omega arith))
alloc_loop-Allocates (suc n) r few inside tried = elim (Bool-cases (r.regused r.curreg)) [
  | inr free ↦
      rw (alloc_loop, free)
        (inl (
          r.curreg,
          record r { regused = mark_reg r.regused r.curreg true },
          refl,
          inside,
          free,
          rw ((==_iff r.curreg r.curreg).1 refl) refl,
          (λ j other. let differ : (j == r.curreg) ≡ false = ground arith in rw differ refl),
          inside,
        ))
  | inl used ↦
      rw (alloc_loop, used)
        (alloc_loop-Allocates n (record r { curreg = (r.curreg + 1) % 16 }) (omega arith)
          (omega arith)
          (λ i u far. elim (Bool-cases (i == r.curreg)) [
            | inl e ↦ ap r.regused ((==_iff i r.curreg).0 e) ∙ used
            | inr e ↦ tried i u (ground arith)
          ]))
]

-- `alloc_reg` gives a register that was free and is marked now, and leaves the others, and it fails only if
-- all sixteen are in use. `curreg` is one of the sixteen before and after.
pub alloc_reg-Allocates : (r : Regs) → r.curreg < 16 → Allocates r (alloc_reg r)
alloc_reg-Allocates r inside =
    alloc_loop-Allocates 16 r (omega arith) inside (λ i u far. absurd (omega arith))
