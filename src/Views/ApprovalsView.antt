-- ===== src/Views/ApprovalsView.antt =====
-- frontend/src/components/approvals/ApprovalsView.tsx: the selection and the two confirmations. A
-- confirmation is the piece before its awaited callback, and one of two after it.
pub mod Bound
pub mod Page
pub mod Decided
pub mod Wired
use arka.Prelude.{
  Bool, true, false, not, Option, none, some, List, [], Text, codes, trim, is_empty, text_eq, find,
  head?, if◌then◌else◌, or_else,
}
use arka.Types.Core.{Approval, ActionProposal}
use arka.Views.Chosen.{chosen, first_key}

pub record Panel : Type 0 where
  pub selected_approval_id : Text
  pub is_confirm_modal_open : Bool
  pub is_reject_modal_open : Bool
  pub rejection_reason : Text
  pub is_submitting : Bool
  pub error_message : Option Text

-- The cells at the first render
unfoldable pub initial_panel : List Approval → Panel
initial_panel approvals = record {
  selected_approval_id = first_key (λ a. a.approval_id) approvals;
  is_confirm_modal_open = false;
  is_reject_modal_open = false;
  rejection_reason = [];
  is_submitting = false;
  error_message = none;
}

-- The two buttons of a pending approval
unfoldable pub open_reject : Panel → Panel
open_reject d = record d { rejection_reason = []; is_reject_modal_open = true }

unfoldable pub open_confirm : Panel → Panel
open_confirm d = record d { is_confirm_modal_open = true }

-- `onClose` of the two modals
unfoldable pub close_confirm : Panel → Panel
close_confirm d = if not d.is_submitting then record d { is_confirm_modal_open = false } else d

unfoldable pub close_reject : Panel → Panel
close_reject d = if not d.is_submitting then record d { is_reject_modal_open = false } else d

-- The callback that a confirmation awaits, and its arguments
pub data Decision : Type 0 where
  on_approve : (approval_id action_hash : Text) → Decision
  on_reject : (approval_id reason : Text) → Decision

unfoldable pub selected_approval : List Approval → Text → Option Approval
unfolding chosen
selected_approval approvals id = chosen (λ a. a.approval_id) id approvals

unfoldable pub bound_proposal : List ActionProposal → Option Approval → Option ActionProposal
bound_proposal proposals none = none
bound_proposal proposals (some a) =
    find (λ (p : ActionProposal). text_eq p.action_hash a.action_hash) proposals

abbrev submitting : Panel → Panel
submitting d = record d { is_submitting = true; error_message = none }

confirm : Option Approval → Panel → Panel × Option Decision
confirm none d = (d, none)
confirm (some a) d = (submitting d, some (on_approve a.approval_id a.action_hash))

-- `handleConfirmApproval` up to its `await`
unfoldable pub handle_confirm_approval : List Approval → Panel → Panel × Option Decision
unfolding confirm
handle_confirm_approval approvals d = confirm (selected_approval approvals d.selected_approval_id) d

refuse : Option Approval → Panel → Panel × Option Decision
refuse none d = (d, none)
refuse (some a) d =
    if is_empty (trim d.rejection_reason)
    then (d, none)
    else (submitting d, some (on_reject a.approval_id (trim d.rejection_reason)))

-- `handleConfirmRejection` up to its `await`
unfoldable pub handle_confirm_rejection : List Approval → Panel → Panel × Option Decision
unfolding refuse
handle_confirm_rejection approvals d = refuse (selected_approval approvals d.selected_approval_id) d

-- and after it
unfoldable pub on_decided : Decision → Panel → Panel
on_decided (on_approve id hash) d = record d {
  is_confirm_modal_open = false;
  is_submitting = false;
}
on_decided (on_reject id reason) d = record d {
  is_reject_modal_open = false;
  is_submitting = false;
}

unfoldable pub on_decision_failed : Decision → Option Text → Panel → Panel
on_decision_failed (on_approve id hash) message d = record d {
  error_message = some (or_else message (codes "Approval failed"));
  is_submitting = false;
}
on_decision_failed (on_reject id reason) message d = record d {
  error_message = some (or_else message (codes "Rejection failed"));
  is_submitting = false;
}
