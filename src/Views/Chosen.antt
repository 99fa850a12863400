-- ===== src/Views/Chosen.antt =====
-- The selection that the list views share (AttackSurfaceView.tsx, ProposalsView.tsx, EvidenceView.tsx,
-- FindingsView.tsx, ReportsView.tsx, AgentsAndTasksView.tsx and ApprovalsView.tsx under
-- frontend/src/components):
-- `list.find((x) => x.id === selectedId) || list[0]` beside rows that are marked by their id.
use arka.Prelude.{
  ◌≡◌, refl, ◌⊎◌, inl, inr, Bool, true, false, Bool-cases, Option, none, some, List, [], ◌∷◌, Text,
  text_eq, text_eq_iff, find, head?, any,
}

abbrev pub or_first : {A : Type 0} → Option A → List A → Option A
or_first none xs = head? xs
or_first (some x) xs = some x

module _ {A : Type 0} (key : A → Text) where
  -- The item in the detail pane
  unfoldable pub chosen : Text → List A → Option A
  chosen selected_id xs = or_first (find (λ x. text_eq (key x) selected_id) xs) xs

  -- `list[0]?.id || ''`, the selection when the view is mounted
  unfoldable pub first_key : List A → Text
  first_key [] = []
  first_key (x ∷ xs) = key x

  -- Whether the row of an item is marked
  unfoldable pub is_marked : Text → A → Bool
  is_marked selected_id x = text_eq (key x) selected_id

  find-some :
      (id : Text) (xs : List A) (x : A) → find (λ y. text_eq (key y) id) xs ≡ some x → key x ≡ id
  find-some id [] x e = cc
  find-some id (y ∷ ys) x e = elim (Bool-cases (text_eq (key y) id)) [
    | inl h ↦
        let same : some y ≡ some x = rw h at e in
        let found : text_eq (key x) id ≡ true = cc in (text_eq_iff (key x) id).0 found
    | inr h ↦ find-some id ys x (rw h at e)
  ]

  find-none :
      (id : Text) (xs : List A)
      → find (λ y. text_eq (key y) id) xs ≡ none
      → any (is_marked id) xs ≡ false
  unfolding is_marked
  find-none id [] e = refl
  find-none id (y ∷ ys) e = elim (Bool-cases (text_eq (key y) id)) [
    | inl h ↦ let clash : some y ≡ none = rw h at e in cc
    | inr h ↦ rw h (find-none id ys (rw h at e))
  ]

  or_first-cases :
      (id : Text) (x : A) (xs : List A) (o : Option A)
      → find (λ y. text_eq (key y) id) (x ∷ xs) ≡ o
      → ((y : A) × (or_first o (x ∷ xs) ≡ some y) × (key y ≡ id))
        ⊎ ((or_first o (x ∷ xs) ≡ some x) × (any (is_marked id) (x ∷ xs) ≡ false))
  or_first-cases id x xs none e = inr (refl, find-none id (x ∷ xs) e)
  or_first-cases id x xs (some y) e = inl (y, refl, find-some id (x ∷ xs) y e)

  -- As soon as there is an item, one is in the detail pane: the one that is selected, or else the
  -- first one while no row is marked.
  pub chosen_lem :
      (id : Text) (x : A) (xs : List A)
      → ((y : A) × (chosen id (x ∷ xs) ≡ some y) × (key y ≡ id))
        ⊎ ((chosen id (x ∷ xs) ≡ some x) × (any (is_marked id) (x ∷ xs) ≡ false))
  unfolding chosen
  chosen_lem id x xs = or_first-cases id x xs _ refl
