-- ===== src/Savefile/Ng/Idb.antt =====
-- sf-pcap-ng.c: the options of an Interface Description Block.
--
-- The number of bytes in the cursor bounds the loop.
use gap16g_libpcap.Base.{
  ℕ, zero, suc, ◌+◌, ◌*◌, ◌^◌, ◌%◌, Bool, true, false, not, List, [], ◌∷◌, ◌++◌, ◌==◌, leb, ltb,
  if◌then◌else◌, length, take, get_or,
}
use gap16g_libpcap.Savefile.Bytes.{long_at}
use gap16g_libpcap.Savefile.Ng.Answer.{
  Host, bad_end_of_options, bad_resolution_length, bad_offset_length, repeated_resolution,
  repeated_offset, resolution_too_high, stuck, Answer, ok, err, ◌>>=◌, guard,
}
use gap16g_libpcap.Savefile.Ng.Block.{
  Cursor, OptionHeader, get_opthdr_from_block_data, get_optvalue_from_block_data,
}

-- The results of the loop, and what it has seen.
pub record Seen : Type 0 where
  pub tsresol : ℕ
  pub tsoffset : ℕ
  pub saw_tsresol : Bool
  pub saw_tsoffset : Bool

abbrev pub opt_endofopt : ℕ
opt_endofopt = 0

abbrev pub if_tsresol : ℕ
if_tsresol = 9

abbrev pub if_tsoffset : ℕ
if_tsoffset = 14

-- The multiplications of a `u_int` by 10.
unfoldable pub power_of_10 : ℕ → ℕ
power_of_10 zero = 1
power_of_10 (suc i) = power_of_10 i * 10 % 2 ^ 32

-- The resolution that the byte of the option stands for.
unfoldable pub resolution : Host → ℕ → ℕ
resolution host opt =
    if leb 128 opt
    then (if ltb (opt % 128) 32 then 2 ^ (opt % 128) else host.wide_shift (opt % 128) % 2 ^ 32)
    else power_of_10 opt

-- The eight bytes of a `u_int64_t`, and SWAPLL.
abbrev pub wide_at : List ℕ → ℕ
wide_at b = long_at b 0 + long_at b 4 * 2 ^ 32

abbrev reverse_bytes : List ℕ → List ℕ
reverse_bytes [] = []
reverse_bytes (b ∷ bs) = reverse_bytes bs ++ b ∷ []

abbrev pub host_wide : Bool → List ℕ → ℕ
host_wide swapped b = wide_at (if swapped then reverse_bytes (take 8 b) else b)

unfoldable pub take_tsresol : Host → ℕ → List ℕ → Seen → Answer Seen
take_tsresol host option_length value seen =
    guard (option_length == 1) (bad_resolution_length option_length) (
      guard (not seen.saw_tsresol) repeated_resolution (
        if resolution host (get_or value 0 0 % 256) == 0
        then err (resolution_too_high (get_or value 0 0 % 256))
        else ok (record seen {
          tsresol = resolution host (get_or value 0 0 % 256);
          saw_tsresol = true;
        })))

unfoldable pub take_tsoffset : Bool → ℕ → List ℕ → Seen → Answer Seen
take_tsoffset is_swapped option_length value seen =
    guard (option_length == 8) (bad_offset_length option_length) (
      guard (not seen.saw_tsoffset) repeated_offset
        (ok (record seen { tsoffset = host_wide is_swapped value; saw_tsoffset = true })))

-- The cases of the switch.
pub data OptionKind : Type 0 where
  ends resolves offsets skipped : OptionKind

unfoldable pub option_kind : ℕ → OptionKind
option_kind code =
    if code == opt_endofopt
    then ends
    else if code == if_tsresol
    then resolves
    else if code == if_tsoffset
    then offsets
    else skipped

unfoldable pub options_loop : Host → Bool → ℕ → Cursor → Seen → Answer Seen
options_loop host is_swapped zero c seen = elim c.data_remaining [
  | [] ↦ ok seen
  | b ∷ bs ↦ err stuck
]
options_loop host is_swapped (suc fuel) c seen = elim c.data_remaining [
  | [] ↦ ok seen
  | b ∷ bs ↦ get_opthdr_from_block_data is_swapped c >>= λ header.
      get_optvalue_from_block_data header.0 header.1 >>= λ value.
      elim (option_kind (OptionHeader.option_code header.0)) [
        | ends ↦
            guard (OptionHeader.option_length header.0 == 0)
              (bad_end_of_options (OptionHeader.option_length header.0)) (ok seen)
        | resolves ↦
            take_tsresol host (OptionHeader.option_length header.0) value.0 seen
            >>= options_loop host is_swapped fuel value.1
        | offsets ↦
            take_tsoffset is_swapped (OptionHeader.option_length header.0) value.0 seen
            >>= options_loop host is_swapped fuel value.1
        | skipped ↦ options_loop host is_swapped fuel value.1 seen
      ]
]

-- `tsresol` and `tsoffset` come in with the defaults of the caller.
unfoldable pub process_idb_options : Host → Bool → Cursor → ℕ → ℕ → Answer Seen
process_idb_options host is_swapped c tsresol tsoffset =
    options_loop host is_swapped (length c.data_remaining) c
      (record { tsresol = tsresol; tsoffset = tsoffset; saw_tsresol = false; saw_tsoffset = false })
