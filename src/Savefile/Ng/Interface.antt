-- ===== src/Savefile/Ng/Interface.antt =====
-- sf-pcap-ng.c: the array of interfaces.
--
-- `add_interface` gives the `pcap_t` where it succeeds; `add_interface_leaves` is the `pcap_t` behind
-- the call, whether it succeeds or fails.
use gap16g_libpcap.Base.{
  ℕ, Bool, zero, suc, ◌+◌, ◌-◌, ◌*◌, ◌^◌, ◌%◌, List, [], ◌∷◌, ◌==◌, ltb, if◌then◌else◌, set, Option,
  none, some,
}
use gap16g_libpcap.Savefile.Header.{
  Scale, pass_through, scale_up, scale_down, precision_micro, precision_nano,
}
use gap16g_libpcap.Savefile.Ng.Answer.{Host, out_of_memory, Answer, ok, err, ◌>>=◌}
use gap16g_libpcap.Savefile.Ng.Block.{Interface, Capture, Cursor}
use gap16g_libpcap.Savefile.Ng.Idb.{Seen, process_idb_options}

-- `realloc` of the array, whose new entries are not set.
unfoldable pub resize : ℕ → List (Option Interface) → List (Option Interface)
resize zero xs = []
resize (suc n) [] = none ∷ resize n []
resize (suc n) (x ∷ xs) = x ∷ resize n xs

-- `sizeof (struct pcap_ng_if)`.
abbrev pub interface_size : ℕ
interface_size = 24

-- `ifaces_size` and `ifaces`.
abbrev pub Ifaces : Type 0
Ifaces = ℕ × List (Option Interface)

-- The array that `malloc` or `realloc` gives.
abbrev pub allocated : Bool → ℕ → List (Option Interface) → Answer Ifaces
allocated granted size xs = if granted then ok (size, resize size xs) else err out_of_memory

-- The array with room for `ifcount` interfaces.
unfoldable pub grow_ifaces : Host → ℕ → ℕ → List (Option Interface) → Answer Ifaces
grow_ifaces host ifcount size [] =
    if ltb size ifcount then allocated (host.env.malloc interface_size) 1 [] else ok (size, [])
grow_ifaces host ifcount size (x ∷ xs) =
    if ltb size ifcount
    then allocated (host.realloc (size * 2 % 2 ^ 32 * interface_size)) (size * 2 % 2 ^ 32) (x ∷ xs)
    else ok (size, x ∷ xs)

unfoldable pub scale_to : ℕ → ℕ → Scale
scale_to user_tsresol tsresol =
    if tsresol == user_tsresol
    then pass_through
    else if ltb user_tsresol tsresol
    then scale_down
    else scale_up

-- `pcap_ng_check_header` lets no third precision through.
unfoldable pub scale_for : ℕ → ℕ → Scale
scale_for precision tsresol =
    if precision == precision_micro
    then scale_to 1000000 tsresol
    else if precision == precision_nano
    then scale_to 1000000000 tsresol
    else pass_through

abbrev pub interface_of : ℕ → Seen → Interface
interface_of precision seen = record {
  tsresol = seen.tsresol;
  tsoffset = seen.tsoffset;
  scale_type = scale_for precision seen.tsresol;
}

unfoldable pub add_interface : Host → Capture → Cursor → Answer Capture
add_interface host p c =
    let ifcount = (p.ifcount + 1) % 2 ^ 32 in
    grow_ifaces host ifcount p.ifaces_size p.ifaces >>= λ grown.
    process_idb_options host p.is_swapped c 1000000 0 >>= λ seen. ok (record p {
      ifcount = ifcount;
      ifaces_size = grown.0;
      ifaces = set grown.1 (ifcount - 1) (some (interface_of p.tstamp_precision seen));
    })

-- `ifaces_size` and `ifaces` where there is no memory to grow: the result of `malloc` or `realloc`
-- has replaced the array.
abbrev pub lost : ℕ → List (Option Interface) → Ifaces
lost size [] = (1, [])
lost size (x ∷ xs) = (size * 2 % 2 ^ 32, [])

-- The array behind what growing it and reading the options gave: the entry is set where both
-- succeed.
abbrev pub ifaces_behind : Capture → Answer Ifaces → Answer Seen → Ifaces
ifaces_behind p (err e) seen = lost p.ifaces_size p.ifaces
ifaces_behind p (ok grown) (err e) = grown
ifaces_behind p (ok grown) (ok seen) = (
  grown.0,
  set grown.1 ((p.ifcount + 1) % 2 ^ 32 - 1) (some (interface_of p.tstamp_precision seen)),
)

unfoldable pub ifaces_left : Host → Capture → Cursor → Ifaces
ifaces_left host p c =
    ifaces_behind p (grow_ifaces host ((p.ifcount + 1) % 2 ^ 32) p.ifaces_size p.ifaces)
      (process_idb_options host p.is_swapped c 1000000 0)

-- The interface is counted first.
abbrev pub add_interface_leaves : Host → Capture → Cursor → Capture
add_interface_leaves host p c = record p {
  ifcount = (p.ifcount + 1) % 2 ^ 32;
  ifaces_size = (ifaces_left host p c).0;
  ifaces = (ifaces_left host p c).1;
}
