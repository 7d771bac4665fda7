-- ===== src/Bpf/Safety/Words.antt =====
-- bpf/net/bpf_filter.c: the size of the registers.
use gap16g_libpcap.Base.{
  ℕ, zero, suc, ◌+◌, ◌%◌, ◌^◌, ◌<◌, ◌≡◌, refl, arith, Option, none, some, List, [], ◌∷◌, get_elem?,
  set, All,
}
use gap16g_libpcap.Base.Bits.{bit_and-lt, bit_or-lt}
use gap16g_libpcap.Bpf.Insn.{Insn, Op, decode, Size, word, half, byte}
use gap16g_libpcap.Bpf.Insn.{Source, konst, index}
use gap16g_libpcap.Bpf.Insn.{Alu, add, sub, mul, div, and, or, lsh, rsh}
use gap16g_libpcap.Bpf.Insn.{
  ret_k, ret_a, ld_abs, ld_ind, ldx_msh, ld_imm, ld_mem, ldx_mem, st, stx, ja, alu,
}
use gap16g_libpcap.Bpf.Packet.{
  Load, loaded, rejected, outside, load, load_msh, extract_long, extract_short, extract_byte,
  long_of, short_of, byte_of, msh_of,
}
use gap16g_libpcap.Bpf.Filter.{
  Machine, Outcome, running, returned, aborted, faulted, Value, value, undefined, alu_value, set_a,
  load_a, load_x, recall_a, recall_x, store, arith_a, execute, dispatch, fetch, step, run, after,
}

abbrev pub IsWord : ℕ → Type 0
IsWord n = n < 2 ^ 32

-- A, X and the scratch words are words.
pub record HasWords (m : Machine) : Type 0 where
  pub a_fits : IsWord m.a
  pub x_fits : IsWord m.x
  pub mem_fits : All IsWord m.mem

-- What is returned, and what is kept, are words.
abbrev pub GivesWords : Outcome → Type 0
GivesWords (running m) = HasWords m
GivesWords (returned v) = IsWord v
GivesWords aborted = Unit
GivesWords (faulted f) = Unit

abbrev pub GivesWord : Load → Type 0
GivesWord (loaded v) = IsWord v
GivesWord rejected = Unit
GivesWord outside = Unit

abbrev IsByte? : Option ℕ → Type 0
IsByte? none = Unit
IsByte? (some b) = b < 256

abbrev IsWord? : Option ℕ → Type 0
IsWord? none = Unit
IsWord? (some b) = IsWord b

All-set : (xs : List ℕ) (i v : ℕ) → All IsWord xs → IsWord v → All IsWord (set xs i v)
All-set [] i v h w = tt
All-set (x ∷ xs) zero v h w = (w, h.1)
All-set (x ∷ xs) (suc i) v h w = (h.0, All-set xs i v h.1 w)

get_elem?-IsByte? : (xs : List ℕ) (i : ℕ) → All (λ b. b < 256) xs → IsByte? (get_elem? xs i)
get_elem?-IsByte? [] i h = tt
get_elem?-IsByte? (x ∷ xs) zero h = h.0
get_elem?-IsByte? (x ∷ xs) (suc i) h = get_elem?-IsByte? xs i h.1

get_elem?-IsWord? : (xs : List ℕ) (i : ℕ) → All IsWord xs → IsWord? (get_elem? xs i)
get_elem?-IsWord? [] i h = tt
get_elem?-IsWord? (x ∷ xs) zero h = h.0
get_elem?-IsWord? (x ∷ xs) (suc i) h = get_elem?-IsWord? xs i h.1

long_of-GivesWord :
    (a b c d : Option ℕ)
    → IsByte? a
    → IsByte? b
    → IsByte? c
    → IsByte? d
    → GivesWord (long_of a b c d)
long_of-GivesWord (some a) (some b) (some c) (some d) ha hb hc hd = omega arith
long_of-GivesWord none _ _ _ ha hb hc hd = tt
long_of-GivesWord _ none _ _ ha hb hc hd = tt
long_of-GivesWord _ _ none _ ha hb hc hd = tt
long_of-GivesWord _ _ _ none ha hb hc hd = tt

short_of-GivesWord : (a b : Option ℕ) → IsByte? a → IsByte? b → GivesWord (short_of a b)
short_of-GivesWord (some a) (some b) ha hb = omega arith
short_of-GivesWord none _ ha hb = tt
short_of-GivesWord _ none ha hb = tt

module _ (p : List ℕ) (bytes : All (λ b. b < 256) p) (buflen k : ℕ) where
  byte_of-GivesWord : (o : Option ℕ) → IsByte? o → GivesWord (byte_of o)
  byte_of-GivesWord none h = tt
  byte_of-GivesWord (some b) h = omega arith

  msh_of-GivesWord : (o : Option ℕ) → GivesWord (msh_of o)
  msh_of-GivesWord none = tt
  msh_of-GivesWord (some a) = omega arith

  load-GivesWord : (s : Size) → GivesWord (load s p buflen k)
  unfolding load extract_long extract_short extract_byte
  load-GivesWord word = ground (
    arith,
    long_of-GivesWord (get_elem? p k) (get_elem? p (k + 1)) (get_elem? p (k + 2))
        (get_elem? p (k + 3)) (get_elem?-IsByte? p k bytes) (get_elem?-IsByte? p (k + 1) bytes)
        (get_elem?-IsByte? p (k + 2) bytes) (get_elem?-IsByte? p (k + 3) bytes),
  )
  load-GivesWord half = ground (
    arith,
    short_of-GivesWord (get_elem? p k) (get_elem? p (k + 1)) (get_elem?-IsByte? p k bytes)
        (get_elem?-IsByte? p (k + 1) bytes),
  )
  load-GivesWord byte =
      ground (arith, byte_of-GivesWord (get_elem? p k) (get_elem?-IsByte? p k bytes))

  load_msh-GivesWord : GivesWord (load_msh p buflen k)
  unfolding load_msh
  load_msh-GivesWord = ground (arith, msh_of-GivesWord (get_elem? p k))

alu_value-fits : (o : Alu) (a b v : ℕ) → IsWord a → IsWord b → alu_value o a b ≡ value v → IsWord v
unfolding alu_value
alu_value-fits add a b v ha hb e = ground arith
alu_value-fits sub a b v ha hb e = ground arith
alu_value-fits mul a b v ha hb e = ground arith
alu_value-fits div a b v ha hb e = ground arith
alu_value-fits and a b v ha hb e = ground (arith, bit_and-lt 32 a b ha)
alu_value-fits or a b v ha hb e = ground (arith, bit_or-lt 32 a b ha hb)
alu_value-fits lsh a b v ha hb e = ground arith
alu_value-fits rsh a b v ha hb e = ground arith

module _ (m : Machine) (h : HasWords m) where
  load-GivesWords : (l : Load) → GivesWord l → GivesWords (load_a l m) × GivesWords (load_x l m)
  unfolding load_a load_x
  load-GivesWords (loaded v) w = (
    record { a_fits = w; x_fits = h.x_fits; mem_fits = h.mem_fits },
    record { a_fits = h.a_fits; x_fits = w; mem_fits = h.mem_fits },
  )
  load-GivesWords rejected w = omega arith
  load-GivesWords outside w = (tt, tt)

  recall-GivesWords :
      (o : Option ℕ) → IsWord? o → GivesWords (recall_a o m) × GivesWords (recall_x o m)
  unfolding recall_a recall_x
  recall-GivesWords (some v) w = (
    record { a_fits = w; x_fits = h.x_fits; mem_fits = h.mem_fits },
    record { a_fits = h.a_fits; x_fits = w; mem_fits = h.mem_fits },
  )
  recall-GivesWords none w = (tt, tt)

  store-GivesWords : (k v : ℕ) → IsWord v → GivesWords (store k v m)
  unfolding store
  store-GivesWords k v w = ground (arith, h.a_fits, h.x_fits, All-set m.mem k v h.mem_fits w)

  set_a-GivesWords : (o : Alu) (b : ℕ) → IsWord b → GivesWords (set_a (alu_value o m.a b) m)
  set_a-GivesWords o b w = at (alu_value o m.a b) refl
    where
      at : (v : Value) → alu_value o m.a b ≡ v → GivesWords (set_a v m)
      at (value v) e =
          unfold set_a in
          record {
            a_fits = alu_value-fits o m.a b v h.a_fits w e;
            x_fits = h.x_fits;
            mem_fits = h.mem_fits;
          }
      at (undefined f) e = unfold set_a in tt

  arith_a-GivesWords : (o : Alu) (s : Source) (i : Insn) → IsWord i.k → GivesWords (arith_a o s i m)
  unfolding arith_a
  arith_a-GivesWords o konst i w = set_a-GivesWords o i.k w
  arith_a-GivesWords o index i w = ground (arith, set_a-GivesWords o m.x h.x_fits)

module _ (p : List ℕ) (bytes : All (λ b. b < 256) p) (wirelen buflen : ℕ)
    (wire_fits : IsWord wirelen) where
  pub execute-GivesWords :
      (op : Op) (i : Insn) (m : Machine)
      → IsWord i.k
      → HasWords m
      → GivesWords (execute p wirelen buflen op i m)
  unfolding execute
  execute-GivesWords ret_k i m w h = w
  execute-GivesWords ret_a i m w h = h.a_fits
  execute-GivesWords (ld_abs s) i m w h =
      (load-GivesWords m h _ (load-GivesWord p bytes buflen i.k s)).0
  execute-GivesWords (ld_ind s) i m w h =
      (load-GivesWords m h _ (load-GivesWord p bytes buflen ((m.x + i.k) % 2 ^ 32) s)).0
  execute-GivesWords ldx_msh i m w h =
      (load-GivesWords m h _ (load_msh-GivesWord p bytes buflen i.k)).1
  execute-GivesWords ld_mem i m w h =
      (recall-GivesWords m h _ (get_elem?-IsWord? m.mem i.k h.mem_fits)).0
  execute-GivesWords ldx_mem i m w h =
      (recall-GivesWords m h _ (get_elem?-IsWord? m.mem i.k h.mem_fits)).1
  execute-GivesWords st i m w h = store-GivesWords m h i.k m.a h.a_fits
  execute-GivesWords stx i m w h = store-GivesWords m h i.k m.x h.x_fits
  execute-GivesWords ja i m w h = ground (arith, h.a_fits, h.x_fits, h.mem_fits)
  execute-GivesWords (alu o s) i m w h = arith_a-GivesWords m h o s i w
  execute-GivesWords ld_imm i m w h = record {
    a_fits = w;
    x_fits = h.x_fits;
    mem_fits = h.mem_fits;
  }
  execute-GivesWords _ i m w h = ground (arith, h.a_fits, h.x_fits, h.mem_fits)

  module _ (prog : List Insn) (fits : All (λ (i : Insn). IsWord i.k) prog) where
    step-GivesWords : (m : Machine) → HasWords m → GivesWords (step p wirelen buflen prog m)
    unfolding step
    step-GivesWords m h = at prog m.pc fits
      where
        means :
            (d : Option Op) (i : Insn) → IsWord i.k → GivesWords (dispatch p wirelen buflen d i m)
        means none i w = unfold dispatch in tt
        means (some op) i w = unfold dispatch in execute-GivesWords op i m w h

        at :
            (f : List Insn) (n : ℕ)
            → All (λ (i : Insn). IsWord i.k) f
            → GivesWords (fetch p wirelen buflen (get_elem? f n) m)
        at [] n w = unfold fetch in tt
        at (i ∷ f) zero w = unfold fetch in means (decode i.code) i w.0
        at (i ∷ f) (suc n) w = at f n w.1

    -- On a packet of bytes, with operands and a wire length of 32 bits, and from registers and scratch
    -- words below 2 ^ 32, every register, every scratch word and the value returned stay below
    -- 2 ^ 32, however long the program runs.
    pub run-GivesWords :
        (fuel : ℕ) (m : Machine) → HasWords m → GivesWords (run p wirelen buflen prog fuel m)
    unfolding run
    run-GivesWords zero m h = h
    run-GivesWords (suc fuel) m h =
        goes (step p wirelen buflen prog m) (step-GivesWords m h) (run-GivesWords fuel)
      where
        goes :
            (o : Outcome)
            → GivesWords o
            → ((m' : Machine) → HasWords m' → GivesWords (run p wirelen buflen prog fuel m'))
            → GivesWords (after p wirelen buflen prog fuel o)
        goes (running m') h ih = ih m' h
        goes (returned v) h ih = h
        goes aborted h ih = tt
        goes (faulted f) h ih = tt
