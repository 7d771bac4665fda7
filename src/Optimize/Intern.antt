-- ===== src/Optimize/Intern.antt =====
-- optimize.c: `F` and `K` on tables that are true.
use mathlib.Core.Option.{some-injective}
use gap16g_libpcap.Base.{
  ℕ, ◌+◌, ◌≤◌, ◌≡◌, refl, sym, ap, ◌∙◌, arith, true, Option, none, some, List, ◌==◌, All,
  Bool-cases, inl, inr,
}
use gap16g_libpcap.Bpf.Insn.{Op, decode, decode_sound}
use gap16g_libpcap.Optimize.Values.{
  Table, hash, find_node, add_node, found_or_new, update, is_immediate, intern, constant,
}
use gap16g_libpcap.Optimize.Meaning.{
  ArgsFit, meaning, Holds, Sound, Extends, meaning-agree, ArgsFit-mono, find_node-means,
  Holds-extend, immediate-means,
}

module _ (p : List ℕ) (wirelen buflen : ℕ) where
  module _ (ρ : ℕ → ℕ) (t : Table) (sound : Sound p wirelen buflen ρ t) (code v0 v1 w : ℕ)
      (args : ArgsFit t.curval (decode code) v0 v1)
      (means : meaning p wirelen buflen ρ (decode code) v0 v1 ≡ some w) where
    abbrev new_rho : ℕ → ℕ
    new_rho = update ρ (t.curval + 1) w

    new_rho-agree : (u : ℕ) → u ≤ t.curval → new_rho u ≡ ρ u
    new_rho-agree u h = ground arith

    immediate_value : is_immediate code ≡ true → w ≡ v0
    immediate_value i = at (decode code) refl
      where
        at : (d : Option Op) → decode code ≡ d → w ≡ v0
        at none e = cc
        at (some op) e =
            immediate-means p wirelen buflen ρ v0 v1 w op (rw (decode_sound code e) i)
              (rw e at means)

    add_node-consts :
        (v c : ℕ) → (add_node t code v0 v1).1.vmap v ≡ some c → (new_rho v ≡ c) × (v ≤ t.curval + 1)
    unfolding add_node
    add_node-consts v c e = elim (Bool-cases (is_immediate code)) [
      | inl imm ↦ ground (arith, immediate_value imm, sound.consts v c)
      | inr other ↦ ground (arith, sound.consts v c)
    ]

    abbrev vmap' : ℕ → Option ℕ
    vmap' = (add_node t code v0 v1).1.vmap

    vmap-keeps : (u : ℕ) → u ≤ t.curval → vmap' u ≡ t.vmap u
    unfolding add_node
    vmap-keeps u h = ground arith

    vmap-new : is_immediate code ≡ true → vmap' (t.curval + 1) ≡ some v0
    unfolding add_node
    vmap-new i = ground arith

    add_node-nodes :
        (h : ℕ)
        → All
            (Holds p wirelen buflen new_rho (t.curval + 1) vmap')
            ((add_node t code v0 v1).1.hashtbl h)
    unfolding add_node
    add_node-nodes h = elim (Bool-cases (h == hash code v0 v1)) [
      | inl same ↦ rw same (first, rest (hash code v0 v1))
      | inr other ↦ rw other (rest h)
    ]
      where
        first :
            Holds p wirelen buflen new_rho
              (t.curval + 1)
              vmap'
              (record { code = code; v0 = v0; v1 = v1; val = t.curval + 1 })
        first = record {
          val_fits = omega arith;
          args_fit =
              ArgsFit-mono p wirelen buflen t.curval (t.curval + 1) (decode code) v0 v1
                (omega arith) args;
          means =
              meaning-agree p wirelen buflen ρ new_rho t.curval new_rho-agree (decode code) v0 v1
                args
              ∙ means
              ∙ ap some (ground arith);
          marked = vmap-new;
        }

        rest : (h : ℕ) → All (Holds p wirelen buflen new_rho (t.curval + 1) vmap') (t.hashtbl h)
        rest h =
            Holds-extend p wirelen buflen ρ new_rho t.curval (t.curval + 1) t.vmap vmap'
              new_rho-agree vmap-keeps (omega arith) (t.hashtbl h) (sound.nodes h)

    add_node-Extends :
        Extends p wirelen buflen ρ t w (add_node t code v0 v1).0 (add_node t code v0 v1).1
    unfolding add_node
    add_node-Extends = record {
      rho = new_rho;
      agrees = new_rho-agree;
      keeps = vmap-keeps;
      sound = record { consts = add_node-consts; nodes = add_node-nodes };
      is = ground arith;
      grows = omega arith;
      fits = omega arith;
    }

    -- `F` gives a number whose value is that of the expression, and keeps the table sound.
    pub intern-Extends :
        Extends p wirelen buflen ρ t w (intern t code v0 v1).0 (intern t code v0 v1).1
    unfolding intern
    intern-Extends = at (find_node code v0 v1 (t.hashtbl (hash code v0 v1))) refl
      where
        at :
            (o : Option ℕ)
            → find_node code v0 v1 (t.hashtbl (hash code v0 v1)) ≡ o
            → Extends p wirelen buflen ρ t w
                (found_or_new o t code v0 v1).0
                (found_or_new o t code v0 v1).1
        at none e = add_node-Extends
        at (some v) e =
            let found =
              find_node-means p wirelen buflen ρ t.vmap t.curval code v0 v1 v
                (t.hashtbl (hash code v0 v1)) (sound.nodes (hash code v0 v1)) e in
            record {
              rho = ρ;
              agrees = λ u h. refl;
              keeps = λ u h. refl;
              sound = sound;
              is = some-injective _ _ (sym found.1 ∙ means);
              grows = omega arith;
              fits = found.0;
            }

  -- An expression at which the machine would stop is new to the table.
  pub intern-none :
      (ρ : ℕ → ℕ) (t : Table) (code v0 v1 : ℕ)
      → Sound p wirelen buflen ρ t
      → meaning p wirelen buflen ρ (decode code) v0 v1 ≡ none
      → (intern t code v0 v1).0 ≡ t.curval + 1
  unfolding intern
  intern-none ρ t code v0 v1 sound e = at (find_node code v0 v1 (t.hashtbl (hash code v0 v1))) refl
    where
      at :
          (o : Option ℕ)
          → find_node code v0 v1 (t.hashtbl (hash code v0 v1)) ≡ o
          → (found_or_new o t code v0 v1).0 ≡ t.curval + 1
      at none f = unfold add_node in refl
      at (some v) f =
          let found =
            find_node-means p wirelen buflen ρ t.vmap t.curval code v0 v1 v
              (t.hashtbl (hash code v0 v1)) (sound.nodes (hash code v0 v1)) f in
          cc

  -- `K(i)` is a number that is marked as the constant `i`.
  pub constant-vmap :
      (ρ : ℕ → ℕ) (t : Table) (i : ℕ)
      → Sound p wirelen buflen ρ t
      → (constant t i).1.vmap (constant t i).0 ≡ some i
  unfolding constant intern
  constant-vmap ρ t i sound = at (find_node 0 i 0 (t.hashtbl (hash 0 i 0))) refl
    where
      at :
          (o : Option ℕ)
          → find_node 0 i 0 (t.hashtbl (hash 0 i 0)) ≡ o
          → (found_or_new o t 0 i 0).1.vmap (found_or_new o t 0 i 0).0 ≡ some i
      at none e = unfold add_node in ground arith
      at (some v) e =
          (find_node-means p wirelen buflen ρ t.vmap t.curval 0 i 0 v (t.hashtbl (hash 0 i 0))
              (sound.nodes (hash 0 i 0)) e).2
            refl
