-- ===== src/Views/ApprovalsView/Page.antt =====
-- frontend/src/components/approvals/ApprovalsView.tsx: the rows of the queue and the details of the
-- selected approval. The parameters are shown before they become JSON text.
use arka.Prelude.{
  ℕ, ◌/◌, ◌≤◌, ◌≡◌, ap, Bool, true, Option, none, some, List, map, Text, codes, text_eq, filter,
  length, is_empty, Value, le→leb,
}
use arka.Prelude.Values.{obj}
use arka.Types.Core.{Approval, ApprovalStatus, ActionProposal, StandardCapability}
use arka.App.{is_pending}
use arka.Formatting.{format_countdown, truncate_hash}
use arka.Security.{redact_sensitive_data}
use arka.Views.Badge.{Variant}
use arka.Views.ActiveMissionCard.{text_or}
use arka.Views.ApprovalsView.{
  Panel, on_approve, selected_approval, bound_proposal, confirm, handle_confirm_approval,
}

unfoldable pub row_variant : ApprovalStatus → Variant
row_variant ApprovalStatus.pending = Variant.warning
row_variant ApprovalStatus.consumed = Variant.success
row_variant ApprovalStatus.approved = Variant.danger
row_variant ApprovalStatus.revoked = Variant.danger
row_variant ApprovalStatus.expired = Variant.danger

abbrev capability_of : Option ActionProposal → Option StandardCapability
capability_of none = none
capability_of (some p) = some p.capability_id

abbrev target_of : Option ActionProposal → Text
target_of none = codes "—"
target_of (some p) = text_or (some p.target) (codes "—")

-- A row of the queue; with no proposal the capability is the text 'UNKNOWN_CAPABILITY', here `none`.
pub record QueueRow : Type 0 where
  pub is_selected : Bool
  pub capability : Option StandardCapability
  pub status : ApprovalStatus
  pub variant : Variant
  pub target : Text
  pub hash : Text
  pub countdown : Text

unfoldable pub queue_row : ℕ → List ActionProposal → Panel → Approval → QueueRow
unfolding row_variant bound_proposal
queue_row date_now proposals d app =
    let prop = bound_proposal proposals (some app) in
    record {
      is_selected = text_eq app.approval_id d.selected_approval_id;
      capability = capability_of prop;
      status = app.status;
      variant = row_variant app.status;
      target = target_of prop;
      hash = truncate_hash 6 4 app.action_hash;
      countdown = format_countdown date_now app.expires_at_unix;
    }

-- The details; `has_buttons` is that of the buttons Reject and Sign & Authorize.
pub record ApprovalDetails : Type 0 where
  pub capability : Option StandardCapability
  pub status : ApprovalStatus
  pub approval_id : Text
  pub expires : Text
  pub has_buttons : Bool
  pub binding : Text
  pub target : Text
  pub requesting_agent : Text
  pub action_hash : Text
  pub rationale : Option Text
  pub payload : Option Value

abbrev agent_of : Option ActionProposal → Text
agent_of none = codes "—"
agent_of (some p) = text_or (some p.requesting_agent) (codes "—")

abbrev rationale_of : Option ActionProposal → Option Text
rationale_of none = none
rationale_of (some p) = elim (is_empty p.rationale) [ true ↦ none | _ ↦ some p.rationale ]

abbrev payload_of : Option ActionProposal → Option Value
payload_of none = none
payload_of (some p) = some (redact_sensitive_data (obj p.normalized_parameters))

unfoldable pub approval_details : ℕ → List ActionProposal → Approval → ApprovalDetails
unfolding bound_proposal
approval_details date_now proposals a =
    let prop = bound_proposal proposals (some a) in
    record {
      capability = capability_of prop;
      status = a.status;
      approval_id = a.approval_id;
      expires = format_countdown date_now a.expires_at_unix;
      has_buttons = is_pending a.status;
      binding = truncate_hash 8 6 a.action_hash;
      target = target_of prop;
      requesting_agent = agent_of prop;
      action_hash = truncate_hash 8 6 a.action_hash;
      rationale = rationale_of prop;
      payload = payload_of prop;
    }

pub record ApprovalsPage : Type 0 where
  pub pending : ℕ
  pub queue : List QueueRow
  pub details : Option ApprovalDetails

unfoldable pub approvals_page : ℕ → List Approval → List ActionProposal → Panel → ApprovalsPage
unfolding queue_row approval_details
approvals_page date_now approvals proposals d = record {
  pending = length (filter (λ (a : Approval). is_pending a.status) approvals);
  queue = map (queue_row date_now proposals d) approvals;
  details = elim (selected_approval approvals d.selected_approval_id) [
    | none ↦ none
    | some a ↦ some (approval_details date_now proposals a)
  ];
}

format_countdown-late :
    (date_now expires : ℕ)
    → expires ≤ date_now / 1000
    → format_countdown date_now expires ≡ codes "EXPIRED"
unfolding format_countdown
format_countdown-late date_now expires h = rw (le→leb expires (date_now / 1000) h)

details-expired :
    (date_now : ℕ) (proposals : List ActionProposal) (a : Approval)
    → a.status ≡ ApprovalStatus.pending
    → a.expires_at_unix ≤ date_now / 1000
    → ((approval_details date_now proposals a).expires ≡ codes "EXPIRED")
      × ((approval_details date_now proposals a).has_buttons ≡ true)
unfolding approval_details
details-expired date_now proposals a s h =
    (format_countdown-late date_now a.expires_at_unix h, ap is_pending s)

-- A selected approval whose status is PENDING and whose time is over is shown as EXPIRED, and yet
-- with its buttons; its confirmation approves it.
pub approvals_page-expired :
    (date_now : ℕ) (approvals : List Approval) (proposals : List ActionProposal) (d : Panel)
    (a : Approval)
    → selected_approval approvals d.selected_approval_id ≡ some a
    → a.status ≡ ApprovalStatus.pending
    → a.expires_at_unix ≤ date_now / 1000
    → (x : ApprovalDetails) × ((approvals_page date_now approvals proposals d).details ≡ some x)
      × (x.expires ≡ codes "EXPIRED")
      × (x.has_buttons ≡ true)
      × ((handle_confirm_approval approvals d).1 ≡ some (on_approve a.approval_id a.action_hash))
unfolding approvals_page handle_confirm_approval confirm
approvals_page-expired date_now approvals proposals d a e s h =
    let (shown, offered) = details-expired date_now proposals a s h in
    (approval_details date_now proposals a, rw (e, approvals_page), shown, offered, rw e)
