-- ===== src/Optimize/Correct/State.antt =====
-- optimize.c: the machine as atoms that are read and written, and statements that are performed.
use gap16g_libpcap.Base.{
  ℕ, zero, suc, ◌≤◌, ◌<◌, ◌≡◌, refl, sym, ap, ◌∙◌, arith, Bool, false, none, some, List, [], ◌∷◌,
  ◌==◌, if◌then◌else◌, get_elem?, get_or, set, length, length-set, Bool-cases, ==_iff, inl, inr,
}
use gap16g_libpcap.Bpf.Insn.{Insn, Op, decode}
use gap16g_libpcap.Bpf.Filter.{
  Machine, Outcome, running, returned, aborted, faulted, execute, dispatch,
}
use gap16g_libpcap.Optimize.Values.{Table}
use gap16g_libpcap.Optimize.Stmt.{Stmt, Work, value_of, a_atom, x_atom, nop, with_table}
use gap16g_libpcap.Optimize.Meaning.{reg, Sound, Extends}

-- The writes that a statement can make; where the program stands does not matter.
abbrev pub put : ℕ → ℕ → Machine → Machine
put atom v m =
    if atom == a_atom
    then record m { pc = 0; a = v }
    else if atom == x_atom
    then record m { pc = 0; x = v }
    else record m { pc = 0; mem = set m.mem atom v }

abbrev pub strip : Outcome → Outcome
strip (running m) = running (record m { pc = 0 })
strip (returned v) = returned v
strip aborted = aborted
strip (faulted f) = faulted f

abbrev pub insn_of : Stmt → Insn
insn_of s = record { code = s.code; jt = 0; jf = 0; k = s.k }

get_or-set :
    (xs : List ℕ) (i j v : ℕ)
    → i < length xs
    → get_or (set xs i v) j 0 ≡ (if j == i then v else get_or xs j 0)
get_or-set [] i j v h = absurd (omega arith)
get_or-set (x ∷ xs) zero zero v h = refl
get_or-set (x ∷ xs) zero (suc j) v h = ground arith
get_or-set (x ∷ xs) (suc i) zero v h = ground arith
get_or-set (x ∷ xs) (suc i) (suc j) v h = ground (arith, get_or-set xs i j v)

set-get_or : (xs : List ℕ) (i v : ℕ) → get_or xs i 0 ≡ v → i < length xs → set xs i v ≡ xs
set-get_or [] i v e h = refl
set-get_or (x ∷ xs) zero v e h = ap (λ y. y ∷ xs) (sym e)
set-get_or (x ∷ xs) (suc i) v e h = ap (λ ys. x ∷ ys) (set-get_or xs i v e (omega arith))

pub get_elem?-get_or : (xs : List ℕ) (i : ℕ) → i < length xs → get_elem? xs i ≡ some (get_or xs i 0)
get_elem?-get_or [] i h = absurd (omega arith)
get_elem?-get_or (x ∷ xs) zero h = refl
get_elem?-get_or (x ∷ xs) (suc i) h = get_elem?-get_or xs i (omega arith)

module _ (m : Machine) (words : length m.mem ≡ 16) (atom v : ℕ) (is_atom : atom < 18) where
  pub reg-put : (j : ℕ) → reg (put atom v m) j ≡ (if j == atom then v else reg m j)
  reg-put j = ground (arith, get_or-set m.mem atom j v)

  pub put_self : reg m atom ≡ v → put atom v m ≡ record m { pc = 0 }
  put_self e = ground (arith, set-get_or m.mem atom v)

  pub put-words : length (put atom v m).mem ≡ 16
  put-words = ground (arith, length-set m.mem atom v)

pub decode-nop : decode nop ≡ none
unfolding decode
decode-nop = refl

not_nop : (code : ℕ) (op : Op) → decode code ≡ some op → (code == nop) ≡ false
not_nop code op e = elim (Bool-cases (code == nop)) [
  | inl same ↦ cc (decode-nop, ap decode ((==_iff code nop).0 same))
  | inr other ↦ other
]

module _ (p : List ℕ) (wirelen buflen : ℕ) where
  -- A statement, or a deleted one.
  unfoldable pub perform : Stmt → Machine → Outcome
  perform s m =
      if s.code == nop
      then strip (running m)
      else strip (dispatch p wirelen buflen (decode s.code) (insn_of s) m)

  -- The numbers of `w` have the values `ρ`, the table is true, and the numbers of the atoms have
  -- the values that the machine holds.
  pub record Describes (ρ : ℕ → ℕ) (w : Work) (m : Machine) : Type 0 where
    pub sound : Sound p wirelen buflen ρ w.table
    pub regs : (atom : ℕ) → atom < 18 → ρ (value_of w atom) ≡ reg m atom
    pub fits : (atom : ℕ) → atom < 18 → value_of w atom ≤ w.table.curval
    pub atoms : length w.vals ≡ 18
    pub words : length m.mem ≡ 16

  pub perform-op :
      (s : Stmt) (m : Machine) (op : Op)
      → decode s.code ≡ some op
      → perform s m ≡ strip (execute p wirelen buflen op (insn_of s) m)
  unfolding perform dispatch
  perform-op s m op e = rw (not_nop s.code op e, e)

  pub perform-nop :
      (k : ℕ) (m : Machine)
      → perform (record { code = nop; k = k }) m ≡ running (record m { pc = 0 })
  unfolding perform
  perform-nop k m = refl

  pub Describes-extend :
      (ρ : ℕ → ℕ) (w : Work) (m : Machine) (x v : ℕ) (t : Table)
      → Describes ρ w m
      → (e : Extends p wirelen buflen ρ w.table x v t) → Describes e.rho (with_table w t) m
  Describes-extend ρ w m x v t d e = record {
    sound = e.sound;
    regs = λ atom h. e.agrees _ (d.fits atom h) ∙ d.regs atom h;
    fits = λ atom h. omega (arith, d.fits atom h, e.grows);
    atoms = d.atoms;
    words = d.words;
  }

  -- `val[atom] = v` follows a write of the value of `v`.
  pub Describes-set :
      (ρ : ℕ → ℕ) (w : Work) (m : Machine) (atom x v : ℕ)
      → Describes ρ w m
      → atom < 18
      → ρ v ≡ x
      → v ≤ w.table.curval
      → Describes ρ (record w { vals = set w.vals atom v }) (put atom x m)
  Describes-set ρ w m atom x v d is_atom e le = record {
    sound = d.sound;
    regs = λ j h. ground (
      arith,
      get_or-set w.vals atom j v,
      reg-put m d.words atom x is_atom j,
      d.regs j h,
      d.atoms,
    );
    fits = λ j h. ground (arith, get_or-set w.vals atom j v, d.fits j h, d.atoms);
    atoms = length-set w.vals atom v ∙ d.atoms;
    words = put-words m d.words atom x is_atom;
  }

  -- The statement, and whether there is more to do, play no part.
  pub Describes-rewrite :
      (ρ : ℕ → ℕ) (w : Work) (m : Machine) (s : Stmt) (b : Bool)
      → Describes ρ w m
      → Describes ρ (record w { stmt = s; again = b }) m
  Describes-rewrite ρ w m s b d = record {
    sound = d.sound;
    regs = d.regs;
    fits = d.fits;
    atoms = d.atoms;
    words = d.words;
  }
