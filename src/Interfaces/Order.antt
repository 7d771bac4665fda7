-- ===== src/Interfaces/Order.antt =====
-- inet.c: the order of the list of interfaces, and `pcap_lookupdev` on it.
use gap16g_libpcap.Base.{
  ℕ, ◌≤◌, ◌≡◌, ◌↔◌, refl, sym, ◌∙◌, take, arith, Bool, true, false, not, List, [], ◌∷◌, ltb, ◌&&◌,
  ◌||◌, All, Option, none, some, inl, inr, Bool-cases,
}
use gap16g_libpcap.Handle.Calls.{if-both}
use gap16g_libpcap.Interfaces.{
  PcapIf, PcapAddr, System, same_text, is_loopback, get_instance, goes_before, insert_if, is_known,
  Added, refused, left_out, listed, new_entry, add_or_find_if, append_address, add_address,
  add_addr_to_iflist, status_of, pcap_add_if, pcap_lookupdev, if_namesize, duplicates, entry_memory,
  name_memory, described,
}

-- Two interfaces by whether they are loopback interfaces and by their numbers: loopback interfaces
-- come last, and within either kind the numbers do not fall.
abbrev Rises : Bool → ℕ → Bool → ℕ → Type 0
Rises p m q n = (p ≡ true → q ≡ true) × (p ≡ q → m ≤ n)

before-Rises :
    (p q : Bool) (m n : ℕ) → ((not p && q) || (ltb m n && (not p || q))) ≡ true → Rises p m q n
before-Rises p q m n h = ground arith

behind-Rises :
    (p q : Bool) (m n : ℕ) → ((not p && q) || (ltb m n && (not p || q))) ≡ false → Rises q n p m
behind-Rises p q m n h = ground arith

Rises-trans : (p q r : Bool) (l m n : ℕ) → Rises p l q m → Rises q m r n → Rises p l r n
Rises-trans p q r l m n x y = ground arith

module _ (atoi : List ℕ → ℕ) where
  -- An interface may stand before another.
  abbrev pub MayPrecede : PcapIf → PcapIf → Type 0
  MayPrecede d e =
      Rises (is_loopback d) (get_instance atoi d.name) (is_loopback e) (get_instance atoi e.name)

  abbrev pub IsOrdered : List PcapIf → Type 0
  IsOrdered [] = Unit
  IsOrdered (d ∷ devs) = All (MayPrecede d) devs × IsOrdered devs

  All-trans :
      (a b : PcapIf) (devs : List PcapIf)
      → MayPrecede a b
      → All (MayPrecede b) devs
      → All (MayPrecede a) devs
  All-trans a b [] first rest = tt
  All-trans a b (d ∷ devs) first rest =
      (Rises-trans _ _ _ _ _ _ first rest.0, All-trans a b devs first rest.1)

  All-insert_if :
      (P : PcapIf → Type 0) (new : PcapIf) (devs : List PcapIf)
      → P new
      → All P devs
      → All P (insert_if atoi new devs)
  unfolding insert_if
  All-insert_if P new [] one all = (one, tt)
  All-insert_if P new (d ∷ devs) one all = elim (Bool-cases (goes_before atoi new d)) [
    | inl here ↦ rw here ((one, all))
    | inr later ↦ rw later ((all.0, All-insert_if P new devs one all.1))
  ]

  insert_if-IsOrdered :
      (new : PcapIf) (devs : List PcapIf) → IsOrdered devs → IsOrdered (insert_if atoi new devs)
  unfolding insert_if
  insert_if-IsOrdered new [] ordered = (tt, tt)
  insert_if-IsOrdered new (d ∷ devs) ordered = elim (Bool-cases (goes_before atoi new d)) [
    | inl here ↦
        let first = before-Rises (is_loopback new) (is_loopback d) _ _ here in
        rw here (((first, All-trans new d devs first ordered.0), ordered))
    | inr later ↦ rw later (
        (
          All-insert_if (MayPrecede d) new devs
              (behind-Rises (is_loopback new) (is_loopback d) _ _ later) ordered.0,
          insert_if-IsOrdered new devs ordered.1,
        ))
  ]

  All-append_address :
      (P : PcapIf → Type 0) (name : List ℕ) (a : PcapAddr) (devs : List PcapIf)
      → ((d : PcapIf) (l : List PcapAddr) → P d → P (record d { addresses = l }))
      → All P devs
      → All P (append_address name a devs)
  unfolding append_address
  All-append_address P name a [] keeps all = tt
  All-append_address P name a (d ∷ devs) keeps all = elim (Bool-cases (same_text name d.name)) [
    | inl here ↦ rw here ((keeps d _ all.0, all.1))
    | inr later ↦ rw later ((all.0, All-append_address P name a devs keeps all.1))
  ]

  append_address-IsOrdered :
      (name : List ℕ) (a : PcapAddr) (devs : List PcapIf)
      → IsOrdered devs
      → IsOrdered (append_address name a devs)
  unfolding append_address
  append_address-IsOrdered name a [] ordered = tt
  append_address-IsOrdered name a (d ∷ devs) ordered = elim (Bool-cases (same_text name d.name)) [
    | inl here ↦ rw here ordered
    | inr later ↦ rw later (
        (
          All-append_address (MayPrecede d) name a devs (λ e l h. h) ordered.0,
          append_address-IsOrdered name a devs ordered.1,
        ))
  ]

  -- What is said of the list that a call leaves, if it leaves one.
  abbrev Lists : (List PcapIf → Type 0) → Added → Type 0
  Lists P refused = Unit
  Lists P left_out = Unit
  Lists P (listed devs) = P devs

  add_or_find_if-IsOrdered :
      (sys : System) (devs : List PcapIf) (name : List ℕ) (flags : ℕ)
      (description : Option (List ℕ))
      → IsOrdered devs
      → Lists IsOrdered (add_or_find_if atoi sys devs name flags description)
  unfolding add_or_find_if
  add_or_find_if-IsOrdered sys devs name flags description ordered =
      if-both (Lists IsOrdered) (is_known name devs) _ _ (λ _. ordered)
        (λ _.
          if-both (Lists IsOrdered) (not (sys.opens name)) _ _ (λ _. tt)
            (λ _.
              if-both (Lists IsOrdered)
                (not (
                  sys.grants entry_memory && (sys.grants name_memory && described sys description)))
                _ _ (λ _. tt)
                (λ _. insert_if-IsOrdered (new_entry name flags description) devs ordered)))

  status_of-IsOrdered :
      (devs : List PcapIf) (r : Added)
      → IsOrdered devs
      → Lists IsOrdered r
      → IsOrdered (status_of devs r).1
  status_of-IsOrdered devs refused ordered h = ordered
  status_of-IsOrdered devs left_out ordered h = ordered
  status_of-IsOrdered devs (listed new) ordered h = h

  add_address-IsOrdered :
      (sys : System) (devs : List PcapIf) (name : List ℕ) (a : PcapAddr) (r : Added)
      → IsOrdered devs
      → Lists IsOrdered r
      → IsOrdered (add_address sys devs name a r).1
  add_address-IsOrdered sys devs name a refused ordered h = ordered
  add_address-IsOrdered sys devs name a left_out ordered h = ordered
  add_address-IsOrdered sys devs name a (listed new) ordered h =
      if-both (λ (r : Bool × List PcapIf). IsOrdered r.1) (duplicates sys a) _ _
        (λ _. append_address-IsOrdered name a new h) (λ _. h)

  -- The lists that calls make. Each call gets answers of its own from the rest of the system.
  pub data Built : List PcapIf → Type 0 where
    nothing : Built []
    with_if :
        {devs : List PcapIf}
        → Built devs
        → (sys : System) (name : List ℕ) (flags : ℕ) (description : Option (List ℕ))
        → Built (pcap_add_if atoi sys devs name flags description).1
    with_addr :
        {devs : List PcapIf}
        → Built devs
        → (sys : System) (name : List ℕ) (flags : ℕ) (a : PcapAddr)
        → Built (add_addr_to_iflist atoi sys devs name flags a).1

  pub Built-IsOrdered : {devs : List PcapIf} → Built devs → IsOrdered devs
  unfolding pcap_add_if add_addr_to_iflist
  Built-IsOrdered nothing = tt
  Built-IsOrdered (with_if {devs} b sys name flags description) =
      let ordered = Built-IsOrdered b in
      status_of-IsOrdered devs (add_or_find_if atoi sys devs name flags description) ordered
        (add_or_find_if-IsOrdered sys devs name flags description ordered)
  Built-IsOrdered (with_addr {devs} b sys name flags a) =
      let ordered = Built-IsOrdered b in
      add_address-IsOrdered sys devs name a (add_or_find_if atoi sys devs name flags none) ordered
        (add_or_find_if-IsOrdered sys devs name flags none ordered)

  All-last :
      (d : PcapIf) (devs : List PcapIf)
      → is_loopback d ≡ true
      → All (MayPrecede d) devs
      → All (λ e. is_loopback e ≡ true) devs
  All-last d [] h all = tt
  All-last d (e ∷ devs) h all = (all.0.0 h, All-last d devs h all.1)

  lookup_first :
      (d : PcapIf) (devs : List PcapIf)
      → is_loopback d ≡ false
      → pcap_lookupdev (some (d ∷ devs)) ≡ some (take if_namesize d.name)
  unfolding pcap_lookupdev
  lookup_first d devs other = rw other refl

  -- On a list that calls of pcap_add_if and add_addr_to_iflist made, whichever of them failed
  -- and at whichever allocation, pcap_lookupdev gives no interface exactly if there are loopback interfaces only.
  pub pcap_lookupdev_iff :
      (devs : List PcapIf)
      → Built devs
      → (pcap_lookupdev (some devs) ≡ none) ↔ All (λ d. is_loopback d ≡ true) devs
  unfolding pcap_lookupdev
  pcap_lookupdev_iff [] built = (λ _. tt, λ _. refl)
  pcap_lookupdev_iff (d ∷ devs) built = elim (Bool-cases (is_loopback d)) [
    | inl loop ↦ (λ _. (loop, All-last d devs loop (Built-IsOrdered built).0), λ _. rw loop refl)
    | inr other ↦
        (λ e. absurd (cc (sym (lookup_first d devs other) ∙ e)), λ all. absurd (cc (all.0, other)))
  ]
