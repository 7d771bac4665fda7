-- ===== src/Savefile/Ng/Scaling.antt =====
-- sf-pcap-ng.c: the time stamps of packets, in the resolution of the user.
use native.Mathlib.Nat.{
  div-mul-le_self, div-lt_iff_lt-mul, mul-le-mul_right, mul-lt-mul_of_pos_right, mod-lt,
}
use gap16g_libpcap.Base.{
  ℕ, ◌+◌, ◌*◌, ◌/◌, ◌%◌, ◌≤◌, ◌<◌, ◌^◌, ◌≡◌, arith, true, false, ltb, ltb→lt, ◌==◌, ==_iff, some,
  inl, inr, ◌⊎◌, Bool-cases,
}
use gap16g_libpcap.Savefile.Ng.Block.{Interface}
use gap16g_libpcap.Savefile.Ng.Interface.{scale_to}
use gap16g_libpcap.Savefile.Ng.Open.{user_tsresol_of}
use gap16g_libpcap.Savefile.Ng.Next.{Arrival, scale_frac, stamp}
use gap16g_libpcap.Savefile.Ng.Known.{IsReady}

micro_or_nano :
    (precision user : ℕ)
    → user_tsresol_of precision ≡ some user
    → (user ≡ 1000000) ⊎ (user ≡ 1000000000)
unfolding user_tsresol_of
micro_or_nano precision user e = ground arith

-- `x` is the whole part of `n / r`.
abbrev pub IsFloor : ℕ → ℕ → ℕ → Type 0
IsFloor n r x = (x * r ≤ n) × (n < (x + 1) * r)

floor : (n r : ℕ) → 0 < r → IsFloor n r (n / r)
floor n r positive = (div-mul-le_self n r, (div-lt_iff_lt-mul positive).0 (omega arith))

-- The two resolutions that a user can ask for, at a literal.
module _ (user tsresol frac : ℕ) (least : 0 < user) (most : user ≤ 1000000000)
    (narrow : tsresol < 2 ^ 32) (less : frac < tsresol) (fits : frac * user < 2 ^ 64) where
  scale_frac-IsFloor :
      user ≤ tsresol
      → IsFloor (frac * user) tsresol (scale_frac (scale_to user tsresol) user tsresol frac)
  unfolding scale_frac scale_to
  scale_frac-IsFloor fine = elim (Bool-cases (tsresol == user)) [
    | inl same ↦ let e = (==_iff tsresol user).0 same in rw (same, e) ((omega arith, omega arith))
    | inr differs ↦
        let down : ltb user tsresol ≡ true = ground arith in
        let whole : frac * user % 2 ^ 64 ≡ frac * user = omega arith in
        rw (differs, down, whole) (floor (frac * user) tsresol (omega arith))
  ]

  scale_frac-lt : user ≤ tsresol → (x : ℕ) → IsFloor (frac * user) tsresol x → x < user
  scale_frac-lt fine x h = elim (Bool-cases (ltb x user)) [
    | inl small ↦ ltb→lt x user small
    | inr big ↦
        let much = mul-le-mul_right {m = user} {n = x} tsresol (ground arith) in
        let little = mul-lt-mul_of_pos_right less least in absurd (omega (arith, much, little, h.0))
  ]

  scale_frac-null :
      tsresol < user
      → tsresol * tsresol ≤ user
      → scale_frac (scale_to user tsresol) user tsresol frac ≡ 0
  unfolding scale_frac scale_to
  scale_frac-null coarse tiny =
      let apart : (tsresol == user) ≡ false = ground arith in
      let up : ltb user tsresol ≡ false = ground arith in
      let positive : 0 < tsresol = omega arith in
      let small = mul-lt-mul_of_pos_right less positive in
      let whole : frac * tsresol % 2 ^ 64 ≡ frac * tsresol = omega arith in
      let null = (div-lt_iff_lt-mul {x = frac * tsresol} {y = 1} least).1 (omega arith) in
      rw (apart, up, whole) omega arith

module _ (precision user : ℕ) (f : Interface) (a : Arrival)
    (precise : user_tsresol_of precision ≡ some user) (ready : IsReady user f) where
  fits_wide : ((a.t % f.tsresol) * user < 2 ^ 64) × (0 < user) × (user ≤ 1000000000)
  fits_wide =
      let frac = mod-lt a.t ready.positive in
      elim (micro_or_nano precision user precise) [
        | inl e ↦ rw e omega (arith, frac, ready.narrow)
        | inr e ↦ rw e omega (arith, frac, ready.narrow)
      ]

  -- On an interface that is no coarser than what the user asked for, `tv_usec` is the fraction of the
  -- second in the unit of the user, rounded down, and less than a second.
  pub stamp-IsFloor :
      user ≤ f.tsresol
      → IsFloor (a.t % f.tsresol * user) f.tsresol (stamp user f a).tv_usec
        × ((stamp user f a).tv_usec < user)
  unfolding stamp
  stamp-IsFloor fine =
      let frac = mod-lt a.t ready.positive in
      let whole =
        scale_frac-IsFloor user f.tsresol (a.t % f.tsresol) fits_wide.1 fits_wide.2 ready.narrow
          frac fits_wide.0 fine in
      rw ready.scaled (
        (
          whole,
          scale_frac-lt user f.tsresol (a.t % f.tsresol) fits_wide.1 fits_wide.2 ready.narrow frac
              fits_wide.0 fine _ whole,
        ))

  -- On an interface with a resolution so coarse that its square is at most that of the user, such
  -- as milliseconds for a user of microseconds, every `tv_usec` is 0.
  pub stamp-coarse : f.tsresol < user → f.tsresol * f.tsresol ≤ user → (stamp user f a).tv_usec ≡ 0
  unfolding stamp
  stamp-coarse coarse tiny = rw ready.scaled (
      scale_frac-null user f.tsresol (a.t % f.tsresol) fits_wide.1 fits_wide.2 ready.narrow
        (mod-lt a.t ready.positive) fits_wide.0 coarse tiny)
