-- ===== src/Views/ProposalsView.antt =====
-- frontend/src/components/proposals/ProposalsView.tsx: the proposals, by decision, beside the one that
-- is selected. The class of a badge is kept as the text after `badge-`, which the source gives it.
pub mod Shown
use arka.Prelude.{
  given, is_text, ℕ, Bool, true, false, Option, none, some, List, [], ◌∷◌, Text, codes, is_empty,
  text_eq, filter, map, length, if◌then◌else◌, Fields, Value,
}
use arka.Prelude.Values.{obj}
use arka.Types.Core.{ActionProposal, ProposalDecision, RiskClass, StandardCapability}
use arka.Security.{redact_sensitive_data}
use arka.Formatting.{format_time_ago, get_risk_badge_class}
use arka.Views.Badge.{Variant, success, danger, warning}
use arka.Views.Chosen.{chosen, first_key, is_marked}
use arka.Views.FindingsTraceTable.{decision_text}

pub record ProposalsPanel : Type 0 where
  pub selected_proposal_id : Text
  pub filter_decision : Text
  pub copied_hash : Option Text

unfoldable pub initial_proposals : List ActionProposal → ProposalsPanel
initial_proposals proposals = record {
  selected_proposal_id = first_key (λ p. p.proposal_id) proposals;
  filter_decision = codes "ALL";
  copied_hash = none;
}

unfoldable pub selected_proposal : ProposalsPanel → List ActionProposal → Option ActionProposal
unfolding chosen
selected_proposal s proposals = chosen (λ p. p.proposal_id) s.selected_proposal_id proposals

-- The values that the filter offers
abbrev pub filter_options : List Text
filter_options = codes "ALL" ∷ codes "REQUIRE_APPROVAL" ∷ codes "ALLOW" ∷ codes "DENY" ∷ []

abbrev pub passes_filter : Text → ActionProposal → Bool
passes_filter decision p =
    if text_eq decision (codes "ALL") then true else text_eq (decision_text p.decision) decision

unfoldable pub filtered_proposals : Text → List ActionProposal → List ActionProposal
filtered_proposals decision proposals = filter (passes_filter decision) proposals

pub data Event : Type 0 where
  row_pressed filter_pressed : Text → Event
  -- `handleCopy`, and what it schedules
  copied : Text → Event
  copy_expired : Event

unfoldable pub handle : Event → ProposalsPanel → ProposalsPanel
handle (row_pressed id) s = record s { selected_proposal_id = id }
handle (filter_pressed decision) s = record s { filter_decision = decision }
handle (copied text) s = record s { copied_hash = some text }
handle copy_expired s = record s { copied_hash = none }

abbrev is_critical : RiskClass → Bool
is_critical RiskClass.critical = true
is_critical RiskClass.observation = false
is_critical RiskClass.low = false
is_critical RiskClass.moderate = false
is_critical RiskClass.high = false

abbrev requires_approval : ProposalDecision → Bool
requires_approval d = text_eq (decision_text d) (codes "REQUIRE_APPROVAL")

abbrev is_deny : ProposalDecision → Bool
is_deny d = text_eq (decision_text d) (codes "DENY")

abbrev is_allow : ProposalDecision → Bool
is_allow d = text_eq (decision_text d) (codes "ALLOW")

-- The colour of the decision on the row of a proposal
unfoldable pub row_variant : RiskClass → ProposalDecision → Variant
row_variant risk d =
    if is_critical risk
    then danger
    else if requires_approval d
    then warning
    else if is_deny d
    then danger
    else success

-- and in its details
unfoldable pub details_variant : ProposalDecision → Variant
details_variant d = if is_allow d then success else if requires_approval d then warning else danger

pub record ProposalRow : Type 0 where
  pub is_selected : Bool
  pub capability_id : StandardCapability
  pub variant : Variant
  pub decision : ProposalDecision
  pub target : Text
  pub requesting_agent : Text
  pub age : Text

unfoldable pub proposal_row : ℕ → ProposalsPanel → ActionProposal → ProposalRow
unfolding is_marked row_variant
proposal_row date_now s p = record {
  is_selected = is_marked (λ q. q.proposal_id) s.selected_proposal_id p;
  capability_id = p.capability_id;
  variant = row_variant p.true_risk p.decision;
  decision = p.decision;
  target = p.target;
  requesting_agent = p.requesting_agent;
  age = format_time_ago date_now p.timestamp_unix;
}

pub record ProposalDetails : Type 0 where
  pub capability_id : StandardCapability
  pub risk : RiskClass
  pub risk_class : Text
  pub variant : Variant
  pub decision : ProposalDecision
  pub proposal_id : Text
  pub mission_id : Text
  -- "Open in Approval Gate"
  pub has_approval_button : Bool
  pub verdict : Option Text
  pub requesting_agent : Text
  pub rationale : Text
  pub action_hash : Text
  pub is_copied : Bool
  pub parameter_hash : Text
  pub nonce : Text
  -- what `JSON.stringify` prints
  pub parameters : Value

unfoldable pub proposal_details : Bool → ProposalsPanel → ActionProposal → ProposalDetails
unfolding details_variant
proposal_details can_open s p = record {
  capability_id = p.capability_id;
  risk = p.true_risk;
  risk_class = get_risk_badge_class p.true_risk;
  variant = details_variant p.decision;
  decision = p.decision;
  proposal_id = p.proposal_id;
  mission_id = p.mission_id;
  has_approval_button = if requires_approval p.decision then can_open else false;
  verdict = given p.decision_reason;
  requesting_agent = p.requesting_agent;
  rationale = p.rationale;
  action_hash = p.action_hash;
  is_copied = is_text s.copied_hash p.action_hash;
  parameter_hash = p.parameter_hash;
  nonce = p.nonce;
  parameters = redact_sensitive_data (obj p.normalized_parameters);
}

abbrev details_of : Bool → ProposalsPanel → Option ActionProposal → Option ProposalDetails
details_of can_open s none = none
details_of can_open s (some p) = some (proposal_details can_open s p)

pub record ProposalsPage : Type 0 where
  pub total : ℕ
  pub rows : List ProposalRow
  pub details : Option ProposalDetails

unfoldable pub proposals_page : ℕ → Bool → ProposalsPanel → List ActionProposal → ProposalsPage
unfolding proposal_row filtered_proposals selected_proposal proposal_details
proposals_page date_now can_open s proposals = record {
  total = length proposals;
  rows = map (proposal_row date_now s) (filtered_proposals s.filter_decision proposals);
  details = details_of can_open s (selected_proposal s proposals);
}
