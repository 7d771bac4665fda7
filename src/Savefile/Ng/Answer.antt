-- ===== src/Savefile/Ng/Answer.antt =====
-- sf-pcap-ng.c: the failures of the reader, and the calls that can fail.
--
-- A failure has no `pcap_t`: what `add_interface` leaves behind is `add_interface_leaves`.
use gap16g_libpcap.Base.{ℕ, Bool, true, false}
use gap16g_libpcap.Savefile.Bytes.{Env}

-- What the C library and the machine answer: `realloc`, and `1 << k` for a `k` of 32 and more,
-- which the language leaves open.
pub record Host : Type 0 where
  pub env : Env
  pub realloc : ℕ → Bool
  pub wide_shift : ℕ → ℕ

-- The messages of the source. The last three are no messages: a read of an entry of `ifaces` that
-- is not set, a division by 0, and a loop that is cut off.
pub data Refusal : Type 0 where
  read_error out_of_memory : Refusal
  truncated : ℕ → ℕ → Refusal
  too_big too_small short_header : ℕ → Refusal
  short_block : ℕ → Refusal
  bad_end_of_options bad_resolution_length bad_offset_length : ℕ → Refusal
  repeated_resolution repeated_offset : Refusal
  resolution_too_high : ℕ → Refusal
  unknown_precision unknown_version : ℕ → Refusal
  no_interfaces packet_before_interface : Refusal
  different_type different_snapshot unknown_interface : ℕ → Refusal
  mixed_byte_order bad_byte_order : Refusal
  unset_interface division_by_zero stuck : Refusal

pub data Answer {ℓ} (A : Type ℓ) : Type ℓ where
  ok : A → Answer A
  err : Refusal → Answer A

infixl 5 ◌>>=◌
abbrev pub ◌>>=◌ {ℓ κ} : {A : Type ℓ} {B : Type κ} → Answer A → (A → Answer B) → Answer B
ok a >>= f = f a
err e >>= f = err e

-- A `goto fail` or an early return behind a test.
abbrev pub guard {ℓ} : {A : Type ℓ} → Bool → Refusal → Answer A → Answer A
guard true e rest = rest
guard false e rest = err e
