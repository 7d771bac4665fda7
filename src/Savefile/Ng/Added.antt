-- ===== src/Savefile/Ng/Added.antt =====
-- sf-pcap-ng.c: the resolution that the options of an interface give, and the interface they describe.
use native.Mathlib.Nat.{pow-le-pow_right}
use gap16g_libpcap.Base.{
  ℕ, zero, suc, ◌+◌, ◌*◌, ◌/◌, ◌%◌, ◌≤◌, ◌<◌, ◌^◌, ◌≡◌, refl, arith, Bool, true, not, List, [], ◌∷◌,
  length, get_or, leb, ltb, ◌==◌, inl, inr, ◌⊎◌, Bool-cases,
}
use gap16g_libpcap.Savefile.Ng.Answer.{
  Host, ok, bad_resolution_length, bad_offset_length, bad_end_of_options, repeated_resolution,
  repeated_offset,
}
use gap16g_libpcap.Savefile.Ng.Block.{
  Cursor, OptionHeader, get_from_block_data, get_opthdr_from_block_data,
  get_optvalue_from_block_data,
}
use gap16g_libpcap.Savefile.Ng.Idb.{
  Seen, power_of_10, resolution, take_tsresol, take_tsoffset, OptionKind, ends, resolves, offsets,
  skipped, option_kind, options_loop, process_idb_options,
}
use gap16g_libpcap.Savefile.Ng.Returns.{
  Returns, weaken, if-Returns, >>=-Returns, guard-Returns, Chunk, get_from_block_data-Returns,
}

power_of_10-lt : (i : ℕ) → power_of_10 i < 2 ^ 32
unfolding power_of_10
power_of_10-lt zero = omega arith
power_of_10-lt (suc i) = omega arith

exponent : (opt : ℕ) → ltb (opt % 128) 32 ≡ true → opt % 128 ≤ 31
exponent opt narrow = ground arith

pub resolution-lt : (host : Host) (opt : ℕ) → resolution host opt < 2 ^ 32
unfolding resolution
resolution-lt host opt = elim (Bool-cases (leb 128 opt)) [
  | inr ten ↦ rw ten (power_of_10-lt opt)
  | inl two ↦ elim (Bool-cases (ltb (opt % 128) 32)) [
    | inl narrow ↦
        rw (two, narrow)
          (omega (arith, pow-le-pow_right {n = 2} (omega arith) {j = 31} (exponent opt narrow)))
    | inr wide ↦ rw (two, wide) omega arith
  ]
]

-- A resolution to divide by.
pub record IsResolution (seen : Seen) : Type 0 where
  pub positive : 0 < seen.tsresol
  pub narrow : seen.tsresol < 2 ^ 32

take_tsresol-Returns :
    (host : Host) (n : ℕ) (value : List ℕ) (seen : Seen)
    → Returns IsResolution (take_tsresol host n value seen)
unfolding take_tsresol
take_tsresol-Returns host n value seen =
    guard-Returns IsResolution (n == 1) (bad_resolution_length n) _ refl (λ _.
      guard-Returns IsResolution (not seen.saw_tsresol) repeated_resolution _ refl (λ _.
        if-Returns IsResolution (resolution host (get_or value 0 0 % 256) == 0) _ _ (λ _. refl)
          (λ set. (record {
            positive = ground arith;
            narrow = resolution-lt host (get_or value 0 0 % 256);
          }))))

take_tsoffset-Returns :
    (swapped : Bool) (n : ℕ) (value : List ℕ) (seen : Seen)
    → IsResolution seen
    → Returns IsResolution (take_tsoffset swapped n value seen)
unfolding take_tsoffset
take_tsoffset-Returns swapped n value seen ready =
    guard-Returns IsResolution (n == 8) (bad_offset_length n) _ refl (λ _.
      guard-Returns IsResolution (not seen.saw_tsoffset) repeated_offset _ refl
        (λ _. record { positive = ready.positive; narrow = ready.narrow }))

get_opthdr-Returns :
    (swapped : Bool) (c : Cursor)
    → Returns
        (λ got. length (Cursor.data_remaining got.1) + 4 ≡ length c.data_remaining)
        (get_opthdr_from_block_data swapped c)
unfolding get_opthdr_from_block_data
get_opthdr-Returns swapped c =
    >>=-Returns (Chunk 4 c) _ (get_from_block_data 4 c) _ (get_from_block_data-Returns 4 c)
      (λ got chunk. chunk.1)

get_optvalue-Returns :
    (header : OptionHeader) (c : Cursor)
    → Returns
        (λ got. length (Cursor.data_remaining got.1) ≤ length c.data_remaining)
        (get_optvalue_from_block_data header c)
unfolding get_optvalue_from_block_data
get_optvalue-Returns header c =
    weaken (Chunk ((header.option_length + 3) / 4 * 4) c) _ (get_from_block_data _ c)
      (get_from_block_data-Returns ((header.option_length + 3) / 4 * 4) c)
      (λ got chunk. omega (arith, chunk.1))

abbrev IsOneOf : OptionKind → Type 0
IsOneOf k = (k ≡ ends) ⊎ ((k ≡ resolves) ⊎ ((k ≡ offsets) ⊎ (k ≡ skipped)))

OptionKind-cases : (k : OptionKind) → IsOneOf k
OptionKind-cases ends = inl refl
OptionKind-cases resolves = inr (inl refl)
OptionKind-cases offsets = inr (inr (inl refl))
OptionKind-cases skipped = inr (inr (inr refl))

abbrev cursor : List ℕ → ℕ → Cursor
cursor bytes t = record { data_remaining = bytes; block_type = t }

-- The bytes of the cursor are enough fuel.
options_loop-Returns :
    (host : Host) (swapped : Bool) (fuel : ℕ) (bytes : List ℕ) (t : ℕ) (seen : Seen)
    → length bytes ≤ fuel
    → IsResolution seen
    → Returns IsResolution (options_loop host swapped fuel (cursor bytes t) seen)
unfolding options_loop
options_loop-Returns host swapped zero [] t seen enough ready = ready
options_loop-Returns host swapped zero (b ∷ bs) t seen enough ready = absurd (omega arith)
options_loop-Returns host swapped (suc fuel) [] t seen enough ready = ready
options_loop-Returns host swapped (suc fuel) (b ∷ bs) t seen enough ready =
    >>=-Returns (λ got. length (Cursor.data_remaining got.1) + 4 ≡ length (b ∷ bs)) _
      (get_opthdr_from_block_data swapped (cursor (b ∷ bs) t)) _
      (get_opthdr-Returns swapped (cursor (b ∷ bs) t))
      (λ header shorter.
        >>=-Returns
          (λ got. length (Cursor.data_remaining got.1) ≤ length (Cursor.data_remaining header.1)) _
          (get_optvalue_from_block_data header.0 header.1) _
          (get_optvalue-Returns header.0 header.1)
          (λ value no_longer.
            let again : (s : Seen)
                → IsResolution s
                → Returns IsResolution (options_loop host swapped fuel value.1 s) =
              λ s.
                options_loop-Returns host swapped fuel (Cursor.data_remaining value.1)
                  (Cursor.block_type value.1) s (omega arith) in
            elim (OptionKind-cases (option_kind (OptionHeader.option_code header.0))) [
              | inl e ↦ rw e (
                  guard-Returns IsResolution (OptionHeader.option_length header.0 == 0)
                    (bad_end_of_options (OptionHeader.option_length header.0)) (ok seen) refl
                    (λ _. ready))
              | inr (inl e) ↦ rw e (
                  >>=-Returns IsResolution IsResolution
                    (take_tsresol host (OptionHeader.option_length header.0) value.0 seen)
                    (options_loop host swapped fuel value.1)
                    (take_tsresol-Returns host _ value.0 seen) again)
              | inr (inr (inl e)) ↦ rw e (
                  >>=-Returns IsResolution IsResolution
                    (take_tsoffset swapped (OptionHeader.option_length header.0) value.0 seen)
                    (options_loop host swapped fuel value.1)
                    (take_tsoffset-Returns swapped _ value.0 seen ready) again)
              | inr (inr (inr e)) ↦ rw e (again seen ready)
            ]))

pub process_idb_options-Returns :
    (host : Host) (swapped : Bool) (c : Cursor) (tsresol tsoffset : ℕ)
    → 0 < tsresol
    → tsresol < 2 ^ 32
    → Returns IsResolution (process_idb_options host swapped c tsresol tsoffset)
unfolding process_idb_options
process_idb_options-Returns host swapped c tsresol tsoffset positive narrow =
    options_loop-Returns host swapped (length c.data_remaining) c.data_remaining c.block_type _
      (omega arith) (record { positive = positive; narrow = narrow })
