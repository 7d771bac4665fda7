-- ===== src/Savefile/Ng/Formats.antt =====
-- savefile.c: `pcap_fopen_offline_with_tstamp_precision`, which tries the formats of `check_headers`.
--
-- A format that does not know the file has read nothing of it, or is the last one, so each gets the
-- file as it is behind the magic number. What the call sets behind the label `found` is the system's: file descriptors and callbacks.
use gap16g_libpcap.Base.{
  ℕ, List, [], ◌∷◌, ◌==◌, if◌then◌else◌, length, take, drop, Option, none, some,
}
use gap16g_libpcap.Savefile.Bytes.{Env, long_at, swap_long, short_read}
use gap16g_libpcap.Savefile.Bytes
use gap16g_libpcap.Savefile.Header.{
  Pcap, Checked, not_pcap, opened, is_magic, pcap_check_header, open_offline,
}
use gap16g_libpcap.Savefile.Header
use gap16g_libpcap.Savefile.Ng.Answer.{Host, Refusal, ok, err}
use gap16g_libpcap.Savefile.Ng.Block.{Capture}
use gap16g_libpcap.Savefile.Ng.Open.{pcap_ng_check_header}

-- A reader of one of the formats, or how the call failed.
pub data Opened : Type 0 where
  as_pcap : Pcap → List ℕ → Opened
  as_pcap_ng : Capture → Opened
  no_pcap : Bytes.Failure → Opened
  no_pcap_ng : Refusal → Opened
  unknown_format : Opened

abbrev pub Format : Type 0
Format = Host → ℕ → ℕ → List ℕ → Option Opened

unfoldable pub try_pcap : Format
try_pcap host magic precision file = elim (pcap_check_header host.env precision magic file) [
  | not_pcap ↦ none
  | Header.failed e ↦ some (no_pcap e)
  | opened p rest ↦ some (as_pcap p rest)
]

unfoldable pub try_pcap_ng : Format
try_pcap_ng host magic precision file = elim (pcap_ng_check_header host magic precision file) [
  | ok found ↦ elim found [ none ↦ none | some p ↦ some (as_pcap_ng p) ]
  | err e ↦ some (no_pcap_ng e)
]

-- The loop over the formats.
unfoldable pub try_formats : List Format → Format
try_formats [] host magic precision file = none
try_formats (f ∷ fs) host magic precision file = elim (f host magic precision file) [
  | none ↦ try_formats fs host magic precision file
  | some o ↦ some o
]

abbrev pub check_headers : List Format
check_headers = try_pcap ∷ try_pcap_ng ∷ []

abbrev pub or_unknown : Option Opened → Opened
or_unknown none = unknown_format
or_unknown (some o) = o

unfoldable pub fopen_offline : List Format → Host → ℕ → List ℕ → Opened
fopen_offline formats host precision file =
    if length (take 4 file) == 4
    then or_unknown (try_formats formats host (long_at (take 4 file) 0) precision (drop 4 file))
    else no_pcap (short_read host.env 4 (length (take 4 file)))
