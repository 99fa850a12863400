-- ===== src/Views/ApprovalsView/Bound.antt =====
-- What a confirmation is bound to.
use arka.Prelude.{
  is_empty-ne, ◌≡◌, ◌≢◌, refl, Bool, Option, none, some, List, [], ◌∷◌, Text, trim, is_empty,
  text_eq, find, Any, Bool-cases, inl, inr,
}
use arka.Types.Core.{Approval}
use arka.Views.Chosen.{chosen, or_first}
use arka.Views.ApprovalsView.{
  Panel, Decision, on_approve, on_reject, selected_approval, confirm, refuse,
  handle_confirm_approval, handle_confirm_rejection,
}

-- An approval of the queue has the id and, for an approving decision, the action hash; a rejection
-- has a reason.
abbrev pub IsBound : List Approval → Decision → Type 0
IsBound approvals (on_approve id hash) =
    Any (λ (a : Approval). (a.approval_id ≡ id) × (a.action_hash ≡ hash)) approvals
IsBound approvals (on_reject id reason) =
    Any (λ (a : Approval). a.approval_id ≡ id) approvals × (reason ≢ [])

-- No decision, or one that satisfies the predicate.
abbrev pub Whenever : (Decision → Type 0) → Option Decision → Type 0
Whenever P none = Unit
Whenever P (some d) = P d

abbrev Queued : List Approval → Option Approval → Type 0
Queued approvals none = Unit
Queued approvals (some a) = Any (λ (x : Approval). x ≡ a) approvals

find-Queued :
    (p : Approval → Bool) (approvals : List Approval) → Queued approvals (find p approvals)
find-Queued p [] = tt
find-Queued p (a ∷ rest) = elim (Bool-cases (p a)) [
  | inl here ↦ rw here (inl refl)
  | inr later ↦ rw later (further (find p rest) (find-Queued p rest))
]
  where
    further : (o : Option Approval) → Queued rest o → Queued (a ∷ rest) o
    further none h = tt
    further (some x) h = inr h

or_first-Queued :
    (o : Option Approval) (approvals : List Approval)
    → Queued approvals o
    → Queued approvals (or_first o approvals)
or_first-Queued (some a) approvals h = h
or_first-Queued none [] h = tt
or_first-Queued none (a ∷ rest) h = inl refl

selected_approval-Queued :
    (approvals : List Approval) (id : Text) → Queued approvals (selected_approval approvals id)
unfolding selected_approval chosen
selected_approval-Queued approvals id =
    or_first-Queued _ approvals (find-Queued (λ (a : Approval). text_eq a.approval_id id) approvals)

queued-map :
    (P : Approval → Type 0) (a : Approval) (approvals : List Approval)
    → Any (λ (x : Approval). x ≡ a) approvals
    → P a
    → Any P approvals
queued-map P a [] h k = elim h [ ]
queued-map P a (x ∷ xs) (inl e) k = inl (rw e k)
queued-map P a (x ∷ xs) (inr h) k = inr (queued-map P a xs h k)

confirm-IsBound :
    (approvals : List Approval) (o : Option Approval) (d : Panel)
    → Queued approvals o
    → Whenever (IsBound approvals) (confirm o d).1
unfolding confirm
confirm-IsBound approvals none d h = tt
confirm-IsBound approvals (some a) d h = queued-map _ a approvals h (refl, refl)

refuse-IsBound :
    (approvals : List Approval) (o : Option Approval) (d : Panel)
    → Queued approvals o
    → Whenever (IsBound approvals) (refuse o d).1
unfolding refuse
refuse-IsBound approvals none d h = tt
refuse-IsBound approvals (some a) d h = elim (Bool-cases (is_empty (trim d.rejection_reason))) [
  | inl blank ↦ rw blank tt
  | inr given ↦ rw given (queued-map _ a approvals h refl, is_empty-ne _ given)
]

-- A confirmed approval carries the id and the action hash of one approval of the queue, and a
-- confirmed rejection the id of one and a reason that is not blank.
pub confirmations-IsBound :
    (approvals : List Approval) (d : Panel)
    → Whenever (IsBound approvals) (handle_confirm_approval approvals d).1
      × Whenever (IsBound approvals) (handle_confirm_rejection approvals d).1
unfolding handle_confirm_approval handle_confirm_rejection
confirmations-IsBound approvals d =
    let queued = selected_approval-Queued approvals d.selected_approval_id in
    (confirm-IsBound approvals _ d queued, refuse-IsBound approvals _ d queued)
