-- ===== src/Interfaces/Tests.antt =====
-- inet.c: the theorem at a list that calls made.
use gap16g_libpcap.Base.{
  ℕ, ◌≡◌, ◌↔◌, refl, ◌-◌, ◌==◌, not, true, false, Bool, List, [], ◌∷◌, All, map, none, some,
}
use gap16g_libpcap.Interfaces.{
  System, Request, name_memory, addr_memory, PcapIf, PcapAddr, any_text, same_text, is_loopback,
  get_instance, instance_of_digits, insert_if, is_known, add_or_find_if, add_addr_to_iflist,
  append_address, pcap_add_if, pcap_lookupdev,
}
use gap16g_libpcap.Interfaces.Order.{Built, nothing, with_if, with_addr, pcap_lookupdev_iff}

-- Everything can be opened but what starts with "x", and a text of one digit is a number.
abbrev digit_of : List ℕ → ℕ
digit_of [] = 0
digit_of (c ∷ s) = c - 48

abbrev can_open : List ℕ → Bool
can_open [] = true
can_open (c ∷ s) = not (c == 120)

abbrev linux : System
linux = record { opens = can_open; grants = λ r. true }

-- A call for whose new entry, or for the copy of whose address, there is no memory.
abbrev all_but : (Request → Bool) → System
all_but fails = record { opens = can_open; grants = λ r. not (fails r) }

abbrev is_name : Request → Bool
is_name name_memory = true
is_name r = false

abbrev is_addr : Request → Bool
is_addr addr_memory = true
is_addr r = false

-- "lo", "eth1" and "eth0"
abbrev lo : List ℕ
lo = 108 ∷ 111 ∷ []

abbrev eth : ℕ → List ℕ
eth d = 101 ∷ 116 ∷ 104 ∷ d ∷ []

abbrev no_address : PcapAddr
no_address = record { addr = some (2 ∷ 0 ∷ []); netmask = none; broadaddr = none; dstaddr = none }

-- "eth0" fails for want of memory for its name, and the address of "lo" for want of memory for its
-- copy.
abbrev three : List PcapIf
three =
    (pcap_add_if digit_of linux
      (pcap_add_if digit_of (all_but is_name)
        (pcap_add_if digit_of linux
          (add_addr_to_iflist digit_of (all_but is_addr) [] lo 8 no_address).1 (eth 49) 0 none).1
        (eth 48) 0 none).1
      any_text 0 none).1

abbrev three_built : Built digit_of three
three_built =
    with_if
      (with_if (with_if (with_addr nothing (all_but is_addr) lo 8 no_address) linux (eth 49) 0 none)
        (all_but is_name) (eth 48) 0 none)
      linux any_text 0 none

names : map (λ (d : PcapIf). d.name) three ≡ eth 49 ∷ any_text ∷ lo ∷ []
unfolding pcap_add_if add_addr_to_iflist add_or_find_if insert_if is_known same_text get_instance
    instance_of_digits append_address
names = refl

lookup : pcap_lookupdev (some three) ≡ some (eth 49)
unfolding pcap_lookupdev pcap_add_if add_addr_to_iflist add_or_find_if insert_if is_known same_text
    get_instance instance_of_digits append_address
lookup = refl

pcap_lookupdev_iff_example :
    (pcap_lookupdev (some three) ≡ none) ↔ All (λ d. is_loopback d ≡ true) three
pcap_lookupdev_iff_example = pcap_lookupdev_iff digit_of three three_built
