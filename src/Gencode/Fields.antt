-- ===== src/Gencode/Fields.antt =====
-- gencode.c: the fields of the blocks that `gen_and` and `gen_or` leave.
use gap16g_libpcap.Base.{
  ℕ, ◌≡◌, refl, sym, ap, Bool, true, false, not, Option, some, List, ◌==◌, ==_iff, if◌then◌else◌,
  inl, inr, Bool-cases,
}
use gap16g_libpcap.Gencode.{Blk, Heap, field, put_field, link, put_link}
use gap16g_libpcap.Gencode.Chains.{mem}
use gap16g_libpcap.Gencode.Joined.{exit_of, joined, same_id}

pub put_field-code : (x : Blk) (e : Bool) (v : Option ℕ) → (put_field x e v).code ≡ x.code
put_field-code x true v = refl
put_field-code x false v = refl

pub put_field-sense : (x : Blk) (e : Bool) (v : Option ℕ) → (put_field x e v).sense ≡ x.sense
put_field-sense x true v = refl
put_field-sense x false v = refl

pub field-put_field : (x : Blk) (e : Bool) (v : Option ℕ) → field (put_field x e v) e ≡ v
field-put_field x true v = refl
field-put_field x false v = refl

pub field-put_field_other :
    (x : Blk) (e : Bool) (v : Option ℕ) → field (put_field x e v) (not e) ≡ field x (not e)
field-put_field_other x true v = refl
field-put_field_other x false v = refl

-- `sense` and `head` are not among them.
pub field-sense : (x : Blk) (s : Bool) (e : Bool) → field (record x { sense = s }) e ≡ field x e
field-sense x s true = refl
field-sense x s false = refl

pub field-head : (x : Blk) (t : ℕ) (e : Bool) → field (record x { head = t }) e ≡ field x e
field-head x t true = refl
field-head x t false = refl

pub exit_of-not : (s v : Bool) → exit_of s (not v) ≡ not (exit_of s v)
exit_of-not true true = refl
exit_of-not true false = refl
exit_of-not false true = refl
exit_of-not false false = refl

-- The resolved field stays.
pub field-put_link : (x : Blk) (t : ℕ) → field (put_link x t) x.sense ≡ field x x.sense
field-put_link x t = elim (Bool-cases x.sense) [ inl e ↦ rw e refl | inr e ↦ rw e refl ]

pub link-put_link : (x : Blk) (t : ℕ) → link (put_link x t) ≡ some t
link-put_link x t = elim (Bool-cases x.sense) [ inl e ↦ rw e refl | inr e ↦ rw e refl ]

module _ (d : Bool) (h : Heap) (b0 b1 z target : ℕ) (list : List ℕ) where
  abbrev new : ℕ → Blk
  new = joined d h b0 b1 list z target

  pub joined-b0 : new b0 ≡ record (put_field (h b0) (exit_of (h b0).sense d) (some target)) {
    sense = exit_of (h b0).sense d;
  }
  joined-b0 = rw (same_id b0) refl

  pub joined-list : (i : ℕ) → (i == b0) ≡ false → mem i list ≡ true → new i ≡ put_link (h i) target
  joined-list i e m = rw (e, m) refl

  pub joined-b1 :
      (b1 == b0) ≡ false
      → mem b1 list ≡ false
      → new b1
        ≡ record (if z == b1
            then put_field (h b1) (exit_of (h b1).sense (not d)) (some b0)
            else h b1) { head = (h b0).head }
  joined-b1 e m = rw (e, m, same_id b1) refl

  pub joined-z :
      (z == b0) ≡ false → mem z list ≡ false → (z == b1) ≡ false → new z ≡ put_link (h z) b0
  joined-z e m e1 = rw (e, m, e1, same_id z) refl

  pub joined-rest :
      (i : ℕ)
      → (i == b0) ≡ false
      → mem i list ≡ false
      → (i == b1) ≡ false
      → (i == z) ≡ false
      → new i ≡ h i
  joined-rest i e m e1 ez = rw (e, m, e1, ez) refl

  pub joined-code : (i : ℕ) → (new i).code ≡ (h i).code
  joined-code i = elim (Bool-cases (i == b0)) [
    | inl e ↦
        rw e (rw ((==_iff i b0).0 e) (put_field-code (h b0) (exit_of (h b0).sense d) (some target)))
    | inr e ↦ elim (Bool-cases (mem i list)) [
      | inl m ↦ rw (e, m) (put_field-code (h i) (not (h i).sense) (some target))
      | inr m ↦ elim (Bool-cases (i == b1)) [
        | inl e1 ↦ elim (Bool-cases (z == b1)) [
          | inl ez ↦
              rw (e, m, e1, ez)
                (rw ((==_iff i b1).0 e1)
                  (put_field-code (h b1) (exit_of (h b1).sense (not d)) (some b0)))
          | inr ez ↦ rw (e, m, e1, ez) (ap (λ k. (h k).code) (sym ((==_iff i b1).0 e1)))
        ]
        | inr e1 ↦ elim (Bool-cases (i == z)) [
          | inl ez ↦ rw (e, m, e1, ez) (put_field-code (h i) (not (h i).sense) (some b0))
          | inr ez ↦ rw (e, m, e1, ez) refl
        ]
      ]
    ]
  ]

  pub joined-sense : (i : ℕ) → (i == b0) ≡ false → (new i).sense ≡ (h i).sense
  joined-sense i e = elim (Bool-cases (mem i list)) [
    | inl m ↦ rw (e, m) (put_field-sense (h i) (not (h i).sense) (some target))
    | inr m ↦ elim (Bool-cases (i == b1)) [
      | inl e1 ↦ elim (Bool-cases (z == b1)) [
        | inl ez ↦
            rw (e, m, e1, ez)
              (rw ((==_iff i b1).0 e1)
                (put_field-sense (h b1) (exit_of (h b1).sense (not d)) (some b0)))
        | inr ez ↦ rw (e, m, e1, ez) (ap (λ k. (h k).sense) (sym ((==_iff i b1).0 e1)))
      ]
      | inr e1 ↦ elim (Bool-cases (i == z)) [
        | inl ez ↦ rw (e, m, e1, ez) (put_field-sense (h i) (not (h i).sense) (some b0))
        | inr ez ↦ rw (e, m, e1, ez) refl
      ]
    ]
  ]

  -- A field that is no exit of the lists stays.
  pub joined-field :
      (i : ℕ) (exit : Bool)
      → (i == b0) ≡ false
      → (i == b1) ≡ false
      → (mem i list ≡ true → exit ≡ (h i).sense)
      → ((i == z) ≡ true → exit ≡ (h i).sense)
      → field (new i) exit ≡ field (h i) exit
  joined-field i exit e e1 in_list at_z = elim (Bool-cases (mem i list)) [
    | inl m ↦ rw (e, m) (rw (in_list m) (field-put_link (h i) target))
    | inr m ↦ elim (Bool-cases (i == z)) [
      | inl ez ↦ rw (e, m, e1, ez) (rw (at_z ez) (field-put_link (h i) b0))
      | inr ez ↦ rw (e, m, e1, ez) refl
    ]
  ]
