-- ===== src/Views/FindingsTraceTable/Sorted.antt =====
-- frontend/src/components/trace/FindingsTraceTable.tsx: the order of the table.
use Prim.Native.Nat.{zero, suc}
use mathlib.Core.List.{Perm}
use mathlib.Core.List.Perm
use arka.Prelude.{
  ℕ, ◌≡◌, refl, sym, ◌∙◌, Bool, true, false, List, [], ◌∷◌, arith, Text, leb, All, All-map,
  Bool-cases, inl, inr, ℤ, pos, negsuc, ◌-◌,
}
use arka.Types.FindingsTrace.{FindingTraceItem}
use arka.Views.FindingsTraceTable.{
  SortField, by_severity, by_detected_at_unix, by_risk_score, by_finding_id, SortOrder, asc, desc,
  severity_weight, minus, negate, comparator, keeps_order, insert, sort, sorted_findings,
}

module _ {A : Type 0} (cmp : A → A → ℤ) where
  insert-Perm : (x : A) (xs : List A) → Perm (insert cmp x xs) (x ∷ xs)
  unfolding insert
  insert-Perm x [] = Perm.refl (x ∷ [])
  insert-Perm x (y ∷ ys) = elim (Bool-cases (keeps_order (cmp x y))) [
    | inl first ↦ rw first (Perm.refl (x ∷ y ∷ ys))
    | inr later ↦ rw later (Perm.trans (Perm.cons y (insert-Perm x ys)) (Perm.swap x y ys))
  ]

  pub sort-Perm : (xs : List A) → Perm (sort cmp xs) xs
  unfolding sort
  sort-Perm [] = Perm.refl []
  sort-Perm (x ∷ xs) = Perm.trans (insert-Perm x (sort cmp xs)) (Perm.cons x (sort-Perm xs))

  insert-All : (P : A → Type 0) (x : A) (xs : List A) → P x → All P xs → All P (insert cmp x xs)
  unfolding insert
  insert-All P x [] h k = (h, tt)
  insert-All P x (y ∷ ys) h (k, ks) = elim (Bool-cases (keeps_order (cmp x y))) [
    | inl first ↦ rw first (h, (k, ks))
    | inr later ↦ rw later (k, insert-All P x ys h ks)
  ]

-- Every element stands in that relation to all behind it.
abbrev pub Ordered : {A : Type 0} → (A → A → Bool) → List A → Type 0
Ordered le [] = Unit
Ordered le (x ∷ xs) = All (λ y. le x y ≡ true) xs × Ordered le xs

-- What a sort relies on: its comparator decides a total preorder.
pub record Decides {A : Type 0} (cmp : A → A → ℤ) (le : A → A → Bool) : Type 0 where
  pub decides : (a b : A) → keeps_order (cmp a b) ≡ le a b
  pub total : (a b : A) → le a b ≡ false → le b a ≡ true
  pub trans : (a b c : A) → le a b ≡ true → le b c ≡ true → le a c ≡ true

module _ {A : Type 0} (cmp : A → A → ℤ) (le : A → A → Bool) (d : Decides cmp le) where
  insert-Ordered : (x : A) (xs : List A) → Ordered le xs → Ordered le (insert cmp x xs)
  unfolding insert
  insert-Ordered x [] h = (tt, tt)
  insert-Ordered x (y ∷ ys) (h, hs) = elim (Bool-cases (keeps_order (cmp x y))) [
    | inl first ↦
        let xy = sym (d.decides x y) ∙ first in
        rw first ((xy, All-map (λ z k. d.trans x y z xy k) ys h), (h, hs))
    | inr later ↦
        let yx = d.total x y (sym (d.decides x y) ∙ later) in
        rw later (insert-All cmp (λ z. le y z ≡ true) x ys yx h, insert-Ordered x ys hs)
  ]

  pub sort-Ordered : (xs : List A) → Ordered le (sort cmp xs)
  unfolding sort
  sort-Ordered [] = tt
  sort-Ordered (x ∷ xs) = insert-Ordered x (sort cmp xs) (sort-Ordered xs)

-- `localeCompare` orders text: its negation is the comparison the other way round, of two texts one
-- comes first, and the order is transitive.
pub record IsCollation (locale_compare : Text → Text → ℤ) : Type 0 where
  pub opposite :
      (s t : Text) → keeps_order (negate (locale_compare s t)) ≡ keeps_order (locale_compare t s)
  pub total :
      (s t : Text)
      → keeps_order (locale_compare s t) ≡ false
      → keeps_order (locale_compare t s) ≡ true
  pub trans :
      (s t u : Text)
      → keeps_order (locale_compare s t) ≡ true
      → keeps_order (locale_compare t u) ≡ true
      → keeps_order (locale_compare s u) ≡ true

minus-le : (a b : ℕ) → keeps_order (minus a b) ≡ leb a b
unfolding minus keeps_order
minus-le a b = ground arith

negate-pos : (n : ℕ) → keeps_order (negate (pos n)) ≡ true
unfolding keeps_order negate
negate-pos zero = refl
negate-pos (suc n) = refl

negate-negsuc : (n : ℕ) → keeps_order (negate (negsuc n)) ≡ false
unfolding keeps_order negate
negate-negsuc n = ground arith

negate-minus-le : (a b : ℕ) → keeps_order (negate (minus a b)) ≡ leb b a
unfolding minus
negate-minus-le a b = elim (Bool-cases (leb b a)) [
  | inl le ↦ rw le (negate-pos (a - b))
  | inr gt ↦ rw gt (negate-negsuc (b - a - 1))
]

module _ (locale_compare : Text → Text → ℤ) where
  -- Whether the first finding comes at most as late as the second in ascending order.
  at_most : SortField → FindingTraceItem → FindingTraceItem → Bool
  unfolding severity_weight keeps_order
  at_most by_severity a b = leb (severity_weight a.severity) (severity_weight b.severity)
  at_most by_risk_score a b = leb a.risk_score b.risk_score
  at_most by_finding_id a b = keeps_order (locale_compare a.finding_id b.finding_id)
  at_most by_detected_at_unix a b = leb a.detected_at_unix b.detected_at_unix

  -- Whether it may stand in front of the second in that order.
  pub in_order : SortField → SortOrder → FindingTraceItem → FindingTraceItem → Bool
  unfolding at_most
  in_order field asc a b = at_most field a b
  in_order field desc a b = at_most field b a

module _ (locale_compare : Text → Text → ℤ) (l : IsCollation locale_compare) where
  at_most_total :
      (field : SortField) (a b : FindingTraceItem)
      → at_most locale_compare field a b ≡ false
      → at_most locale_compare field b a ≡ true
  unfolding at_most
  at_most_total by_severity a b h = ground arith
  at_most_total by_risk_score a b h = ground arith
  at_most_total by_finding_id a b h = l.total _ _ h
  at_most_total by_detected_at_unix a b h = ground arith

  at_most_trans :
      (field : SortField) (a b c : FindingTraceItem)
      → at_most locale_compare field a b ≡ true
      → at_most locale_compare field b c ≡ true
      → at_most locale_compare field a c ≡ true
  unfolding at_most
  at_most_trans by_severity a b c h k = ground arith
  at_most_trans by_risk_score a b c h k = ground arith
  at_most_trans by_finding_id a b c h k = l.trans _ _ _ h k
  at_most_trans by_detected_at_unix a b c h k = ground arith

  comparator-asc :
      (field : SortField) (a b : FindingTraceItem)
      → keeps_order (comparator locale_compare field asc a b) ≡ at_most locale_compare field a b
  unfolding comparator at_most
  comparator-asc by_severity a b = minus-le _ _
  comparator-asc by_risk_score a b = minus-le _ _
  comparator-asc by_finding_id a b = refl
  comparator-asc by_detected_at_unix a b = minus-le _ _

  comparator-desc :
      (field : SortField) (a b : FindingTraceItem)
      → keeps_order (comparator locale_compare field desc a b) ≡ at_most locale_compare field b a
  unfolding comparator at_most
  comparator-desc by_severity a b = negate-minus-le (severity_weight a.severity) _
  comparator-desc by_risk_score a b = negate-minus-le a.risk_score _
  comparator-desc by_finding_id a b = l.opposite a.finding_id b.finding_id
  comparator-desc by_detected_at_unix a b = negate-minus-le a.detected_at_unix _

  comparator-Decides :
      (field : SortField) (order : SortOrder)
      → Decides (comparator locale_compare field order) (in_order locale_compare field order)
  unfolding in_order
  comparator-Decides field asc = record {
    decides = comparator-asc field;
    total = at_most_total field;
    trans = at_most_trans field;
  }
  comparator-Decides field desc = record {
    decides = comparator-desc field;
    total = λ a b h. at_most_total field b a h;
    trans = λ a b c h k. at_most_trans field c b a k h;
  }

-- If `localeCompare` orders text, then for every field and direction the sorted findings are the
-- given ones rearranged, and each stands in the chosen order to all behind it.
pub sorted_findings_lem :
    (locale_compare : Text → Text → ℤ) (field : SortField) (order : SortOrder)
    (findings : List FindingTraceItem)
    → IsCollation locale_compare
    → Perm (sorted_findings locale_compare field order findings) findings
      × Ordered
          (in_order locale_compare field order)
          (sorted_findings locale_compare field order findings)
unfolding sorted_findings
sorted_findings_lem locale_compare field order findings l = (
  sort-Perm (comparator locale_compare field order) findings,
  sort-Ordered (comparator locale_compare field order) (in_order locale_compare field order)
      (comparator-Decides locale_compare l field order) findings,
)
