-- ===== src/Savefile/Ng/Block.antt =====
-- sf-pcap-ng.c: reading a block, and the cursor in it.
--
-- A `block_cursor` is the bytes it may still read: `data`, `data_remaining` of them. `NULL` as
-- `ifaces` is the empty list, and an entry that is not set is `none`. `buffer_size` is the size that
-- `buffer` was allocated with, which the source does not keep.
use gap16g_libpcap.Base.{
  ℕ, ◌+◌, ◌-◌, ◌*◌, ◌/◌, Bool, true, false, not, List, ◌==◌, ltb, ◌&&◌, if◌then◌else◌, length, take,
  drop, Option, none, some,
}
use gap16g_libpcap.Savefile.Bytes.{long_at, short_at, host_long, host_short}
use gap16g_libpcap.Savefile.Header.{Scale}
use gap16g_libpcap.Savefile.Ng.Answer.{
  Host, read_error, out_of_memory, truncated, too_big, too_small, short_block, Answer, ok, err,
  ◌>>=◌,
}

-- `struct pcap_ng_if`.
pub record Interface : Type 0 where
  pub tsresol : ℕ
  pub tsoffset : ℕ
  pub scale_type : Scale

-- The fields of `pcap_t` and `struct pcap_ng_sf` that the reader uses, and what is left of the file.
pub record Capture : Type 0 where
  pub is_swapped : Bool
  pub version_major : ℕ
  pub version_minor : ℕ
  pub snapshot : ℕ
  pub dlt : ℕ
  pub tstamp_precision : ℕ
  pub user_tsresol : ℕ
  pub bufsize : ℕ
  pub buffer_size : ℕ
  pub ifcount : ℕ
  pub ifaces_size : ℕ
  pub ifaces : List (Option Interface)
  pub file : List ℕ

-- `struct block_cursor`.
pub record Cursor : Type 0 where
  pub data_remaining : List ℕ
  pub block_type : ℕ

-- The largest block, and the sizes of the header and the trailer.
abbrev pub max_block : ℕ
max_block = 16 * 1024 * 1024

abbrev pub header_size : ℕ
header_size = 8

abbrev pub trailer_size : ℕ
trailer_size = 4

-- The bytes and what is left of the file, or nothing at its end.
unfoldable pub read_bytes : Host → ℕ → Bool → List ℕ → Answer (Option (List ℕ × List ℕ))
read_bytes host wanted fail_on_eof file =
    if length (take wanted file) == wanted
    then ok (some (take wanted file, drop wanted file))
    else if host.env.ferror
    then err read_error
    else if length (take wanted file) == 0 && not fail_on_eof
    then ok none
    else err (truncated wanted (length (take wanted file)))

-- The size of the buffer for a block of so many bytes. `bufsize` does not change.
unfoldable pub grow_buffer : Host → Capture → ℕ → Answer ℕ
grow_buffer host p total_length =
    if ltb p.bufsize total_length
    then (if host.realloc total_length then ok total_length else err out_of_memory)
    else ok p.buffer_size

-- What is behind the header of a block. The end of the file is an error here.
abbrev pub read_rest : Host → Capture → ℕ → ℕ → List ℕ → ℕ → Answer (Option (Cursor × Capture))
read_rest host p block_type total_length file size =
    read_bytes host (total_length - header_size) true file >>= λ got. elim got [
      | none ↦ err (truncated (total_length - header_size) 0)
      | some r ↦ ok (
          some (
            record {
              data_remaining = take (total_length - header_size - trailer_size) r.0;
              block_type = block_type;
            },
            record p { buffer_size = size; file = r.1 },
          ))
    ]

unfoldable pub read_sized : Host → Capture → ℕ → ℕ → List ℕ → Answer (Option (Cursor × Capture))
read_sized host p block_type total_length file =
    if ltb max_block total_length
    then err (too_big total_length)
    else if ltb total_length (header_size + trailer_size)
    then err (too_small total_length)
    else grow_buffer host p total_length >>= read_rest host p block_type total_length file

unfoldable pub read_block : Host → Capture → Answer (Option (Cursor × Capture))
read_block host p = read_bytes host header_size false p.file >>= λ got. elim got [
  | none ↦ ok none
  | some r ↦
      read_sized host p (host_long p.is_swapped (long_at r.0 0))
        (host_long p.is_swapped (long_at r.0 4)) r.1
]

unfoldable pub get_from_block_data : ℕ → Cursor → Answer (List ℕ × Cursor)
get_from_block_data chunk_size c =
    if ltb (length c.data_remaining) chunk_size
    then err (short_block c.block_type)
    else ok (
      take chunk_size c.data_remaining,
      record c { data_remaining = drop chunk_size c.data_remaining },
    )

-- `struct option_header`, in the host's byte order.
pub record OptionHeader : Type 0 where
  pub option_code : ℕ
  pub option_length : ℕ

unfoldable pub get_opthdr_from_block_data : Bool → Cursor → Answer (OptionHeader × Cursor)
get_opthdr_from_block_data is_swapped c = get_from_block_data 4 c >>= λ got. ok (
  record {
    option_code = host_short is_swapped (short_at got.0 0);
    option_length = host_short is_swapped (short_at got.0 2);
  },
  got.1,
)

unfoldable pub get_optvalue_from_block_data : OptionHeader → Cursor → Answer (List ℕ × Cursor)
get_optvalue_from_block_data opthdr c = get_from_block_data ((opthdr.option_length + 3) / 4 * 4) c
