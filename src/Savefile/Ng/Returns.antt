-- ===== src/Savefile/Ng/Returns.antt =====
-- sf-pcap-ng.c: what a call gives, or how it fails.
use gap16g_libpcap.Base.{
  ℕ, zero, suc, ◌+◌, ◌≤◌, ◌≡◌, refl, arith, Bool, true, false, not, ◌&&◌, List, [], ◌∷◌, length,
  take, drop, ltb, ◌==◌, if◌then◌else◌, ==_iff, length-drop, Option, none, some,
}
use gap16g_libpcap.Savefile.Usb.Bounds.{length-take}
use gap16g_libpcap.Savefile.Ng.Answer.{
  Host, Refusal, Answer, ok, err, ◌>>=◌, guard, unset_interface, division_by_zero, stuck,
}
use gap16g_libpcap.Savefile.Ng.Block.{Cursor, read_bytes, get_from_block_data}

-- The failures that the source reports.
abbrev pub reported : Refusal → Bool
reported unset_interface = false
reported division_by_zero = false
reported stuck = false
reported _ = true

module _ {A : Type 0} where
  -- A failure is one that the source reports, and a result satisfies `Q`.
  abbrev pub Returns : (A → Type 0) → Answer A → Type 0
  Returns Q (ok a) = Q a
  Returns Q (err e) = reported e ≡ true

  pub guard-Returns :
      (Q : A → Type 0) (test : Bool) (e : Refusal) (m : Answer A)
      → reported e ≡ true
      → (test ≡ true → Returns Q m)
      → Returns Q (guard test e m)
  guard-Returns Q true e m fine holds = holds refl
  guard-Returns Q false e m fine holds = fine

  pub if-Returns :
      (Q : A → Type 0) (test : Bool) (m m' : Answer A)
      → (test ≡ true → Returns Q m)
      → (test ≡ false → Returns Q m')
      → Returns Q (if test then m else m')
  if-Returns Q true m m' one another = one refl
  if-Returns Q false m m' one another = another refl

  pub weaken : (P Q : A → Type 0) (m : Answer A) → Returns P m → ((a : A) → P a → Q a) → Returns Q m
  weaken P Q (ok a) holds follows = follows a holds
  weaken P Q (err e) holds follows = holds

pub >>=-Returns :
    {A B : Type 0} (P : A → Type 0) (Q : B → Type 0) (m : Answer A) (f : A → Answer B)
    → Returns P m
    → ((a : A) → P a → Returns Q (f a))
    → Returns Q (m >>= f)
>>=-Returns P Q (ok a) f holds next = next a holds
>>=-Returns P Q (err e) f holds next = holds

-- Nothing, or what satisfies `P`.
abbrev pub Optional : {A : Type 0} → (A → Type 0) → Option A → Type 0
Optional P none = Unit
Optional P (some a) = P a

pub >>=-Optional :
    {A B : Type 0} (P : A → Type 0) (Q : B → Type 0) (m : Answer (Option A))
    (f : Option A → Answer B)
    → Returns (Optional P) m
    → Returns Q (f none)
    → ((a : A) → P a → Returns Q (f (some a)))
    → Returns Q (m >>= f)
>>=-Optional P Q (ok none) f holds ends next = ends
>>=-Optional P Q (ok (some a)) f holds ends next = next a holds
>>=-Optional P Q (err e) f holds ends next = holds

-- The bytes, and what is left of the file.
abbrev pub Divides : ℕ → List ℕ → List ℕ × List ℕ → Type 0
Divides n file got = (length got.0 ≡ n) × (length got.1 + n ≡ length file)

pub divides : (n : ℕ) (file : List ℕ) → n ≤ length file → Divides n file (take n file, drop n file)
divides n file within = (length-take n file within, omega (arith, length-drop n file))

pub length-take_le : (n : ℕ) (xs : List ℕ) → length (take n xs) ≤ length xs
length-take_le zero xs = omega arith
length-take_le (suc n) [] = omega arith
length-take_le (suc n) (x ∷ xs) = omega (arith, length-take_le n xs)

pub read_bytes-Returns :
    (host : Host) (n : ℕ) (fails : Bool) (file : List ℕ)
    → Returns (Optional (Divides n file)) (read_bytes host n fails file)
unfolding read_bytes
read_bytes-Returns host n fails file =
    if-Returns _ (length (take n file) == n) _ _
      (λ whole.
        divides n file
          (omega (arith, (==_iff (length (take n file)) n).0 whole, length-take_le n file)))
      (λ _.
        if-Returns _ host.env.ferror _ _ (λ _. refl)
          (λ _. if-Returns _ (length (take n file) == 0 && not fails) _ _ (λ _. tt) (λ _. refl)))

-- A chunk, and a cursor behind it.
abbrev pub Chunk : ℕ → Cursor → List ℕ × Cursor → Type 0
Chunk n c got = Divides n c.data_remaining (got.0, Cursor.data_remaining got.1)

pub get_from_block_data-Returns :
    (n : ℕ) (c : Cursor) → Returns (Chunk n c) (get_from_block_data n c)
unfolding get_from_block_data
get_from_block_data-Returns n c =
    if-Returns _ (ltb (length c.data_remaining) n) _ _ (λ _. refl)
      (λ holds. divides n c.data_remaining (ground arith))
