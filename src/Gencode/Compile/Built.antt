-- ===== src/Gencode/Compile/Built.antt =====
-- grammar.y and gencode.c: the actions for an expression make a part that decides its meaning.
use gap16g_libpcap.Base.{
  ℕ, suc, ◌+◌, ◌≤◌, ◌<◌, ◌≡◌, refl, sym, ap, ◌∙◌, arith, Bool, true, false, not, some, ◌∷◌, ◌==◌,
  ==_iff, ◌||◌, inl, inr, Bool-cases,
}
use gap16g_libpcap.Gencode.{test, Heap, gen_and, gen_or, new_block, gen_not}
use gap16g_libpcap.Gencode.Chains.{mem, Apart, last_of}
use gap16g_libpcap.Gencode.Joined.{joined}
use gap16g_libpcap.Gencode.And.{gen_and-joined}
use gap16g_libpcap.Gencode.Or.{gen_or-joined}
use gap16g_libpcap.Gencode.Walk.{Open, Decides}
use gap16g_libpcap.Gencode.Join.{differ_of-lt}
use gap16g_libpcap.Gencode.Parts.{whole, whole-Decides, outside_same}
use gap16g_libpcap.Gencode.Keep.{kept, kept-Decides}
use gap16g_libpcap.Gencode.Single.{one, one-Decides, swapped, swapped-Decides}
use gap16g_libpcap.Gencode.Compile.{Expr, term, both_of, either_of, none_of, meaning, size, actions}

-- `h'` has the part that `e` stands for, from block `lo` on; the blocks before are those of `h`.
pub record Built (h h' : Heap) (lo hi root : ℕ) (e : Expr) : Type 0 where
  pub count : hi ≡ lo + size e
  pub part : Open h' lo hi root
  pub decides : Decides h' lo hi root part (meaning e)
  pub before : (i : ℕ) → i < lo → h' i ≡ h i

-- No exit of the first part is one of the second.
parts-Apart :
    (h : Heap) (lo mid hi p q : ℕ) (a : Open h lo mid p) (b : Open h mid hi q) (v w : Bool)
    → Apart (p ∷ a.lists v) (q ∷ b.lists w)
parts-Apart h lo mid hi p q a b v w i m =
    let u : i < mid = elim (Bool-cases (i == p)) [
      | inl e ↦ rw ((==_iff i p).0 e) a.root_in.1
      | inr e ↦ (a.inside v i (sym (ap (λ t. t || mem i (a.lists v)) e) ∙ m)).1
    ] in
    let (l, r) = b.root_in in
    let out : mem i (b.lists w) ≡ false = elim (Bool-cases (mem i (b.lists w))) [
      | inl m' ↦ let (l', r') = b.inside w i m' in absurd (omega arith)
      | inr m' ↦ m'
    ] in
    rw (differ_of-lt i q (omega arith), out) refl

module _ (fuel : ℕ) (h h1 h2 : Heap) (lo mid hi p q : ℕ) (a b : Expr)
    (first : Built h h1 lo mid p a) (second : Built h1 h2 mid hi q b) (enough : hi ≤ fuel) where
  abbrev left : Open h2 lo mid p
  left = kept h1 h2 lo mid p first.part (λ i l u. second.before i u)

  left-Decides : Decides h2 lo mid p left (meaning a)
  left-Decides =
      kept-Decides h1 h2 lo mid p first.part (λ i l u. second.before i u) (meaning a) first.decides

  both_count : hi ≡ lo + (size a + size b)
  both_count = let c = first.count in let c' = second.count in omega arith

  joined_before :
      (d : Bool) (h3 : Heap)
      → ((i : ℕ)
          → h3 i
            ≡ joined d h2 p q (left.lists d) (last_of q (second.part.lists (not d))) (h2 q).head i)
      → (i : ℕ) → i < lo
      → h3 i ≡ h i
  joined_before d h3 is_new i u =
      let (l, m) = first.part.root_in in
      outside_same d h2 h3 p q lo mid hi left second.part is_new i u
      ∙ second.before i (omega arith)
      ∙ first.before i u

  gen_and-Built : (h3 : Heap) × (gen_and fuel h2 p q ≡ some h3) × Built h h3 lo hi q (both_of a b)
  gen_and-Built =
      let s0 = left.short true in
      let s1 = second.part.short false in
      let (h3, gives, is_new) =
        gen_and-joined fuel h2 p q (left.lists true) (second.part.lists false) (left.chain true)
          (second.part.chain false) (left.not_root true, left.distinct true)
          (second.part.not_root false) (parts-Apart h2 lo mid hi p q left second.part true false)
          (omega arith) (omega arith) in
      (
        h3,
        gives,
        record {
          count = both_count;
          part = whole true h2 h3 p q lo mid hi left second.part is_new;
          decides =
              whole-Decides true h2 h3 p q lo mid hi left second.part is_new (meaning a) (meaning b)
                left-Decides second.decides;
          before = joined_before true h3 is_new;
        },
      )

  gen_or-Built : (h3 : Heap) × (gen_or fuel h2 p q ≡ some h3) × Built h h3 lo hi q (either_of a b)
  gen_or-Built =
      let s0 = left.short false in
      let s1 = second.part.short true in
      let (h3, gives, is_new) =
        gen_or-joined fuel h2 p q (left.lists false) (second.part.lists true) (left.chain false)
          (second.part.chain true) (left.not_root false, left.distinct false)
          (second.part.not_root true) (parts-Apart h2 lo mid hi p q left second.part false true)
          (omega arith) (omega arith) in
      (
        h3,
        gives,
        record {
          count = both_count;
          part = whole false h2 h3 p q lo mid hi left second.part is_new;
          decides =
              whole-Decides false h2 h3 p q lo mid hi left second.part is_new (meaning a)
                (meaning b) left-Decides second.decides;
          before = joined_before false h3 is_new;
        },
      )

-- With a unit of fuel for each block, the actions succeed.
pub actions-Built :
    (fuel : ℕ) (e : Expr) (h : Heap) (lo : ℕ)
    → lo + size e ≤ fuel
    → (h' : Heap) × (hi root : ℕ) × (actions fuel e h lo ≡ some (h', hi, root))
      × Built h h' lo hi root e
unfolding actions
actions-Built fuel (term n) h lo enough = (
  new_block h lo (test n),
  suc lo,
  lo,
  refl,
  record {
    count = omega arith;
    part = one h lo n;
    decides = one-Decides h lo n;
    before = λ i u. rw (differ_of-lt i lo u) refl;
  },
)
actions-Built fuel (both_of a b) h lo enough =
    let (h1, mid, p, gives1, first) = actions-Built fuel a h lo (omega arith) in
    let c1 = first.count in
    let (h2, hi, q, gives2, second) = actions-Built fuel b h1 mid (omega arith) in
    let c2 = second.count in
    let (h3, gives3, built) =
      gen_and-Built fuel h h1 h2 lo mid hi p q a b first second (omega arith) in
    (h3, hi, q, rw (gives1, gives2, gives3) refl, built)
actions-Built fuel (either_of a b) h lo enough =
    let (h1, mid, p, gives1, first) = actions-Built fuel a h lo (omega arith) in
    let c1 = first.count in
    let (h2, hi, q, gives2, second) = actions-Built fuel b h1 mid (omega arith) in
    let c2 = second.count in
    let (h3, gives3, built) =
      gen_or-Built fuel h h1 h2 lo mid hi p q a b first second (omega arith) in
    (h3, hi, q, rw (gives1, gives2, gives3) refl, built)
actions-Built fuel (none_of a) h lo enough =
    let (h1, hi, p, gives, built) = actions-Built fuel a h lo enough in
    (
      gen_not h1 p,
      hi,
      p,
      rw gives refl,
      record {
        count = built.count;
        part = swapped h1 lo hi p built.part;
        decides = swapped-Decides h1 lo hi p built.part (meaning a) built.decides;
        before = λ i u.
            let (l, r) = built.part.root_in in
            (rw (differ_of-lt i p (omega arith)) refl) ∙ built.before i u;
      },
    )
