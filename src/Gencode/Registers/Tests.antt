-- ===== src/Gencode/Registers/Tests.antt =====
-- gencode.c: the allocator behind the last register.
use gap16g_libpcap.Base.{ℕ, ◌≡◌, refl, arith, Option, none, some, ◌==◌, ◌||◌, ltb}
use gap16g_libpcap.Gencode.Registers.{
  Regs, init_regs, alloc_loop, alloc_reg, free_reg, Allocates, alloc_reg-Allocates,
}

-- The last register and the first two are in use.
abbrev wrapped : Regs
wrapped = record { regused = λ i. i == 15 || ltb i 2; curreg = 15 }

abbrev which : Option (ℕ × Regs) → Option ℕ
which none = none
which (some (i, r)) = some i

-- The third register is next, and a register that is freed is not the next one.
next_ones :
    (which (alloc_reg wrapped) ≡ some 2) × (which (alloc_reg (free_reg init_regs 3)) ≡ some 0)
unfolding alloc_loop
next_ones = (refl, refl)

alloc_reg-Allocates_example : Allocates wrapped (alloc_reg wrapped)
alloc_reg-Allocates_example = alloc_reg-Allocates wrapped (omega arith)
