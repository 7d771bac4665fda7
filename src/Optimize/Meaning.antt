-- ===== src/Optimize/Meaning.antt =====
-- optimize.c: the meaning of value numbers, and the tables that are true of a packet.
use mathlib.Core.Option.{some-injective}
use gap16g_libpcap.Base.{
  ℕ, ◌+◌, ◌-◌, ◌%◌, ◌^◌, ◌≤◌, ◌≡◌, refl, sym, ap, ◌∙◌, arith, true, false, Option, none, some, List,
  [], ◌∷◌, ◌&&◌, ◌==◌, if◌then◌else◌, get_or, All, Bool-cases, inl, inr,
}
use gap16g_libpcap.Bpf.Insn.{Op, decode, encode, word, half, byte, Source, konst, index, Size}
use gap16g_libpcap.Bpf.Insn.{Alu, add, sub, mul, div, and, or, lsh, rsh}
use gap16g_libpcap.Bpf.Insn.{ld_abs, ld_ind, ld_len, ldx_msh, ld_imm, ldx_imm, alu, neg}
use gap16g_libpcap.Bpf.Packet.{Load, loaded, rejected, outside, load, load_msh}
use gap16g_libpcap.Bpf.Filter.{Machine, Value, value, undefined, alu_value}
use gap16g_libpcap.Optimize.Values.{Node, Table, find_node, is_immediate}
use gap16g_libpcap.Optimize.Stmt.{a_atom, x_atom}

abbrev pub loaded_value : Load → Option ℕ
loaded_value (loaded v) = some v
loaded_value rejected = none
loaded_value outside = none

abbrev pub defined_value : Value → Option ℕ
defined_value (value v) = some v
defined_value (undefined f) = none

-- The content of an atom: a scratch word, A or X.
abbrev pub reg : Machine → ℕ → ℕ
reg m atom = if atom == a_atom then m.a else if atom == x_atom then m.x else get_or m.mem atom 0

-- The arguments of an expression that are value numbers are at most `cur`.
abbrev pub ArgsFit : ℕ → Option Op → ℕ → ℕ → Type 0
ArgsFit cur (some (ld_ind s)) v0 v1 = v1 ≤ cur
ArgsFit cur (some neg) v0 v1 = v0 ≤ cur
ArgsFit cur (some (alu o s)) v0 v1 = (v0 ≤ cur) × (v1 ≤ cur)
ArgsFit cur _ v0 v1 = Unit

not_immediate-alu : (o : Alu) (s : Source) → is_immediate (encode (alu o s)) ≡ false
not_immediate-alu add konst = refl
not_immediate-alu add index = refl
not_immediate-alu sub konst = refl
not_immediate-alu sub index = refl
not_immediate-alu mul konst = refl
not_immediate-alu mul index = refl
not_immediate-alu div konst = refl
not_immediate-alu div index = refl
not_immediate-alu and konst = refl
not_immediate-alu and index = refl
not_immediate-alu or konst = refl
not_immediate-alu or index = refl
not_immediate-alu lsh konst = refl
not_immediate-alu lsh index = refl
not_immediate-alu rsh konst = refl
not_immediate-alu rsh index = refl

not_immediate-load :
    (s : Size)
    → (is_immediate (encode (ld_abs s)) ≡ false) × (is_immediate (encode (ld_ind s)) ≡ false)
not_immediate-load word = (refl, refl)
not_immediate-load half = (refl, refl)
not_immediate-load byte = (refl, refl)

module _ (p : List ℕ) (wirelen buflen : ℕ) where
  -- The value of an expression, where the value numbers have the values `ρ`; `none` where the
  -- machine would stop.
  abbrev pub meaning : (ℕ → ℕ) → Option Op → ℕ → ℕ → Option ℕ
  meaning ρ (some (ld_abs s)) v0 v1 = loaded_value (load s p buflen v0)
  meaning ρ (some (ld_ind s)) v0 v1 = loaded_value (load s p buflen ((ρ v1 + v0) % 2 ^ 32))
  meaning ρ (some ld_len) v0 v1 = some wirelen
  meaning ρ (some ld_imm) v0 v1 = some v0
  meaning ρ (some ldx_imm) v0 v1 = some v0
  meaning ρ (some ldx_msh) v0 v1 = loaded_value (load_msh p buflen v0)
  meaning ρ (some neg) v0 v1 = some ((2 ^ 32 - ρ v0) % 2 ^ 32)
  meaning ρ (some (alu o s)) v0 v1 = defined_value (alu_value o (ρ v0) (ρ v1))
  meaning ρ _ v0 v1 = none

  -- A node of the table tells the truth.
  pub record Holds (ρ : ℕ → ℕ) (cur : ℕ) (vmap : ℕ → Option ℕ) (n : Node) : Type 0 where
    pub val_fits : n.val ≤ cur
    pub args_fit : ArgsFit cur (decode n.code) n.v0 n.v1
    pub means : meaning ρ (decode n.code) n.v0 n.v1 ≡ some (ρ n.val)
    pub marked : is_immediate n.code ≡ true → vmap n.val ≡ some n.v0

  pub record Sound (ρ : ℕ → ℕ) (t : Table) : Type 0 where
    pub consts : (v c : ℕ) → t.vmap v ≡ some c → (ρ v ≡ c) × (v ≤ t.curval)
    pub nodes : (h : ℕ) → All (Holds ρ t.curval t.vmap) (t.hashtbl h)

  pub meaning-agree :
      (ρ ρ' : ℕ → ℕ) (cur : ℕ) (agree : (u : ℕ) → u ≤ cur → ρ' u ≡ ρ u) (op : Option Op) (v0 v1 : ℕ)
      → ArgsFit cur op v0 v1
      → meaning ρ' op v0 v1 ≡ meaning ρ op v0 v1
  meaning-agree ρ ρ' cur agree (some (ld_ind s)) v0 v1 h = rw (agree v1 h)
  meaning-agree ρ ρ' cur agree (some neg) v0 v1 h = rw (agree v0 h)
  meaning-agree ρ ρ' cur agree (some (alu o s)) v0 v1 h = rw (agree v0 h.0, agree v1 h.1)
  meaning-agree ρ ρ' cur agree none v0 v1 h = refl
  meaning-agree ρ ρ' cur agree _ v0 v1 h = refl

  pub ArgsFit-mono :
      (cur cur' : ℕ) (op : Option Op) (v0 v1 : ℕ)
      → cur ≤ cur'
      → ArgsFit cur op v0 v1
      → ArgsFit cur' op v0 v1
  ArgsFit-mono cur cur' (some (ld_ind s)) v0 v1 le h = omega arith
  ArgsFit-mono cur cur' (some neg) v0 v1 le h = omega arith
  ArgsFit-mono cur cur' (some (alu o s)) v0 v1 le h = omega arith
  ArgsFit-mono cur cur' none v0 v1 le h = tt
  ArgsFit-mono cur cur' _ v0 v1 le h = tt

  -- A longer table, with values for its new numbers.
  pub record Extends (ρ : ℕ → ℕ) (t : Table) (w v : ℕ) (t' : Table) : Type 0 where
    pub rho : ℕ → ℕ
    pub agrees : (u : ℕ) → u ≤ t.curval → rho u ≡ ρ u
    pub keeps : (u : ℕ) → u ≤ t.curval → t'.vmap u ≡ t.vmap u
    pub sound : Sound rho t'
    pub is : rho v ≡ w
    pub grows : t.curval ≤ t'.curval
    pub fits : v ≤ t'.curval

  pub find_node-means :
      (ρ : ℕ → ℕ) (vmap : ℕ → Option ℕ) (cur code v0 v1 v : ℕ) (chain : List Node)
      → All (Holds ρ cur vmap) chain
      → find_node code v0 v1 chain ≡ some v
      → (v ≤ cur)
        × (meaning ρ (decode code) v0 v1 ≡ some (ρ v))
        × (is_immediate code ≡ true → vmap v ≡ some v0)
  unfolding find_node
  find_node-means ρ vmap cur code v0 v1 v [] h e = cc
  find_node-means ρ vmap cur code v0 v1 v (n ∷ chain) h e =
      elim (Bool-cases (n.code == code && (n.v0 == v0 && n.v1 == v1))) [
        | inl same ↦
            let ec : n.code ≡ code = ground arith in
            let e0 : n.v0 ≡ v0 = ground arith in
            let e1 : n.v1 ≡ v1 = ground arith in
            let ev : n.val ≡ v = some-injective _ _ (rw same at e) in
            (
              omega (arith, h.0.val_fits),
              rw (← ec, ← e0, ← e1, ← ev) h.0.means,
              rw (← ec, ← e0, ← ev) h.0.marked,
            )
        | inr other ↦ find_node-means ρ vmap cur code v0 v1 v chain h.1 (rw other at e)
      ]

  pub Holds-extend :
      (ρ ρ' : ℕ → ℕ) (cur cur' : ℕ) (vmap vmap' : ℕ → Option ℕ)
      (agree : (u : ℕ) → u ≤ cur → ρ' u ≡ ρ u) (keeps : (u : ℕ) → u ≤ cur → vmap' u ≡ vmap u)
      → cur ≤ cur'
      → (chain : List Node) → All (Holds ρ cur vmap) chain
      → All (Holds ρ' cur' vmap') chain
  Holds-extend ρ ρ' cur cur' vmap vmap' agree keeps le [] h = tt
  Holds-extend ρ ρ' cur cur' vmap vmap' agree keeps le (n ∷ chain) h = (
    record {
      val_fits = omega (arith, h.0.val_fits);
      args_fit = ArgsFit-mono cur cur' (decode n.code) n.v0 n.v1 le h.0.args_fit;
      means =
          meaning-agree ρ ρ' cur agree (decode n.code) n.v0 n.v1 h.0.args_fit
          ∙ h.0.means
          ∙ ap some (sym (agree n.val h.0.val_fits));
      marked = λ i. keeps n.val h.0.val_fits ∙ h.0.marked i;
    },
    Holds-extend ρ ρ' cur cur' vmap vmap' agree keeps le chain h.1,
  )

  -- An expression that `F` takes for a constant is one.
  pub immediate-means :
      (ρ : ℕ → ℕ) (v0 v1 w : ℕ) (op : Op)
      → is_immediate (encode op) ≡ true
      → meaning ρ (some op) v0 v1 ≡ some w
      → w ≡ v0
  immediate-means ρ v0 v1 w (ld_abs s) i m = cc ((not_immediate-load s).0)
  immediate-means ρ v0 v1 w (ld_ind s) i m = cc ((not_immediate-load s).1)
  immediate-means ρ v0 v1 w (alu o s) i m = cc (not_immediate-alu o s)
  immediate-means ρ v0 v1 w ld_imm i m = ground arith
  immediate-means ρ v0 v1 w ldx_imm i m = ground arith
  immediate-means ρ v0 v1 w ldx_msh i m = cc
  immediate-means ρ v0 v1 w ld_len i m = cc
  immediate-means ρ v0 v1 w neg i m = cc
  immediate-means ρ v0 v1 w _ i m = cc
