-- ===== src/Interfaces.antt =====
-- inet.c: the list of interfaces, on Linux.
--
-- A text is the list of its bytes. The entry that `curdev` points to is the one with its name. What
-- the rest of the system answers is an argument: `atoi` of a text that starts with a digit, and, anew
-- for each call, whether an interface can be opened, and whether there is memory for each allocation
-- of the call.
pub mod Order
mod Tests
use gap16g_libpcap.Base.{
  ℕ, ◌-◌, ◌^◌, Bool, true, false, not, List, [], ◌∷◌, ◌++◌, ◌==◌, ltb, ◌&&◌, ◌||◌, if◌then◌else◌,
  bit_and, take, Option, none, some,
}
use gap16g_libpcap.Names.{isdigit}

-- `struct pcap_addr`, and `struct pcap_if`.
pub record PcapAddr : Type 0 where
  pub addr : Option (List ℕ)
  pub netmask : Option (List ℕ)
  pub broadaddr : Option (List ℕ)
  pub dstaddr : Option (List ℕ)

pub record PcapIf : Type 0 where
  pub name : List ℕ
  pub description : Option (List ℕ)
  pub addresses : List PcapAddr
  pub flags : ℕ

-- What a call allocates, each at most once.
pub data Request : Type 0 where
  entry_memory name_memory description_memory : Request
  address_memory : Request
  addr_memory netmask_memory broadaddr_memory dstaddr_memory : Request

-- The answers that one call gets.
pub record System : Type 0 where
  pub opens : List ℕ → Bool
  pub grants : Request → Bool

-- `strcmp(s, t) == 0`.
unfoldable pub same_text : List ℕ → List ℕ → Bool
same_text [] [] = true
same_text [] (d ∷ t) = false
same_text (c ∷ s) [] = false
same_text (c ∷ s) (d ∷ t) = c == d && same_text s t

-- "any"
abbrev pub any_text : List ℕ
any_text = 97 ∷ 110 ∷ 121 ∷ []

abbrev pub int_max : ℕ
int_max = 2 ^ 31 - 1

-- IFF_LOOPBACK and PCAP_IF_LOOPBACK.
abbrev pub iff_loopback : ℕ
iff_loopback = 8

abbrev pub pcap_if_loopback : ℕ
pcap_if_loopback = 1

abbrev pub is_loopback : PcapIf → Bool
is_loopback d = not (bit_and d.flags pcap_if_loopback == 0)

-- -1, 0 with no entry, or 0 with the entry of the name in the list.
pub data Added : Type 0 where
  refused left_out : Added
  listed : List PcapIf → Added

unfoldable pub is_known : List ℕ → List PcapIf → Bool
is_known name [] = false
is_known name (d ∷ devs) = same_text name d.name || is_known name devs

-- The address at the end of the list of the entry.
unfoldable pub append_address : List ℕ → PcapAddr → List PcapIf → List PcapIf
append_address name a [] = []
append_address name a (d ∷ devs) =
    let again = append_address name a devs in
    if same_text name d.name
    then record d { addresses = d.addresses ++ a ∷ [] } ∷ devs
    else d ∷ again

abbrev pub is_some {ℓ} : {A : Type ℓ} → Option A → Bool
is_some none = false
is_some (some a) = true

module _ (atoi : List ℕ → ℕ) where
  unfoldable pub instance_of_digits : List ℕ → ℕ
  instance_of_digits [] = 0
  instance_of_digits (c ∷ s) =
      let again = instance_of_digits s in if isdigit c then atoi (c ∷ s) else again

  unfoldable pub get_instance : List ℕ → ℕ
  get_instance name = if same_text name any_text then int_max else instance_of_digits name

  -- The two tests of the loop, between the new interface and the next one.
  abbrev pub goes_before : PcapIf → PcapIf → Bool
  goes_before new next =
      (not (is_loopback new) && is_loopback next)
      || (ltb (get_instance new.name) (get_instance next.name)
          && (not (is_loopback new) || is_loopback next))

  unfoldable pub insert_if : PcapIf → List PcapIf → List PcapIf
  insert_if new [] = new ∷ []
  insert_if new (next ∷ devs) =
      let again = insert_if new devs in
      if goes_before new next then new ∷ next ∷ devs else next ∷ again

abbrev pub new_entry : List ℕ → ℕ → Option (List ℕ) → PcapIf
new_entry name flags description = record {
  name = name;
  description = description;
  addresses = [];
  flags = if bit_and flags iff_loopback == 0 then 0 else pcap_if_loopback;
}

abbrev pub status_of : List PcapIf → Added → Bool × List PcapIf
status_of alldevs refused = (false, alldevs)
status_of alldevs left_out = (true, alldevs)
status_of alldevs (listed devs) = (true, devs)

module _ (sys : System) where
  abbrev pub described : Option (List ℕ) → Bool
  described none = true
  described (some d) = sys.grants description_memory

  -- `dup_sockaddr` of an address that is there or not; nothing if there is no memory.
  abbrev pub dup_sockaddr : Request → Option (List ℕ) → Option (Option (List ℕ))
  dup_sockaddr r none = some none
  dup_sockaddr r (some a) = if sys.grants r then some (some a) else none

  abbrev pub duplicates : PcapAddr → Bool
  duplicates a =
      sys.grants address_memory
      && (is_some (dup_sockaddr addr_memory a.addr)
          && (is_some (dup_sockaddr netmask_memory a.netmask)
              && (is_some (dup_sockaddr broadaddr_memory a.broadaddr)
                  && is_some (dup_sockaddr dstaddr_memory a.dstaddr))))

  -- The status, and the list. An interface that is added stays when its address is not.
  abbrev pub add_address : List PcapIf → List ℕ → PcapAddr → Added → Bool × List PcapIf
  add_address alldevs name a refused = (false, alldevs)
  add_address alldevs name a left_out = (true, alldevs)
  add_address alldevs name a (listed devs) =
      if duplicates a then (true, append_address name a devs) else (false, devs)

module _ (atoi : List ℕ → ℕ) (sys : System) where
  unfoldable pub add_or_find_if : List PcapIf → List ℕ → ℕ → Option (List ℕ) → Added
  add_or_find_if alldevs name flags description =
      if is_known name alldevs
      then listed alldevs
      else if not (sys.opens name)
      then left_out
      else if not (sys.grants entry_memory && (sys.grants name_memory && described sys description))
      then refused
      else listed (insert_if atoi (new_entry name flags description) alldevs)

  unfoldable pub add_addr_to_iflist : List PcapIf → List ℕ → ℕ → PcapAddr → Bool × List PcapIf
  add_addr_to_iflist alldevs name flags a =
      add_address sys alldevs name a (add_or_find_if alldevs name flags none)

  unfoldable pub pcap_add_if : List PcapIf → List ℕ → ℕ → Option (List ℕ) → Bool × List PcapIf
  pcap_add_if alldevs name flags description =
      status_of alldevs (add_or_find_if alldevs name flags description)

-- The size of `device`, less its end.
abbrev pub if_namesize : ℕ
if_namesize = 16

-- With what `pcap_findalldevs` gives: a list, or nothing for an error.
unfoldable pub pcap_lookupdev : Option (List PcapIf) → Option (List ℕ)
pcap_lookupdev none = none
pcap_lookupdev (some []) = none
pcap_lookupdev (some (d ∷ devs)) = if is_loopback d then none else some (take if_namesize d.name)
