-- ===== src/Views/MissionOverview.antt =====
-- frontend/src/components/overview/MissionOverviewView.tsx: what the overview shows of the
-- console's state, whose props App.tsx takes from that state.
pub mod Claims
use arka.Prelude.{
  ℕ, Bool, true, false, not, Option, none, some, List, [], ◌∷◌, ◌++◌, map, Text, codes, filter,
  find, length, take, text_eq, ltb,
}
use arka.Types.Core.{
  Approval, ActionProposal, ProposalDecision, StandardCapability, AuditRecord, AuditRecordEventType,
  Mission, MissionState, MissionMode,
}
use arka.Types.Agents.{AgentInstance, AgentStatus, AgentTask, TaskLifecycleState}
use arka.Types.Findings.{Finding}
use arka.Types.FindingsTrace.{FindingSeverity}
use arka.App.{App, current_mission, is_pending, NavDestination}
use arka.Formatting.{format_time_ago, truncate_hash}
use arka.Views.ActiveMissionCard.{
  ActiveMissionCardProps, Card, active_mission_card, count_scope, is_authorized, is_unauthorized,
  text_or,
}

abbrev is_denied : ProposalDecision → Bool
is_denied ProposalDecision.deny = true
is_denied ProposalDecision.allow = false
is_denied ProposalDecision.require_approval = false
is_denied ProposalDecision.invalid_proposal = false
is_denied ProposalDecision.expired_proposal = false
is_denied ProposalDecision.unavailable_dependency = false

abbrev is_critical : FindingSeverity → Bool
is_critical FindingSeverity.critical = true
is_critical _ = false

abbrev is_terminated : AgentStatus → Bool
is_terminated AgentStatus.terminated = true
is_terminated _ = false

abbrev is_in_progress : TaskLifecycleState → Bool
is_in_progress TaskLifecycleState.in_progress = true
is_in_progress _ = false

unfoldable pub pending_approvals : App → List Approval
pending_approvals app = filter (λ (a : Approval). is_pending a.status) app.approvals

unfoldable pub denied_proposals : App → List ActionProposal
denied_proposals app = filter (λ (p : ActionProposal). is_denied p.decision) app.proposals

-- The strip of five metrics
pub record Metrics : Type 0 where
  pub state : MissionState
  pub mode : Text
  pub pending : ℕ
  pub authorized : ℕ
  pub discovered : ℕ
  pub agents : ℕ
  pub profiles : ℕ
  pub running : ℕ
  pub findings : ℕ
  pub critical : Option ℕ

abbrev mode_text : MissionMode → Text
mode_text MissionMode.authorized_professional = codes "Professional"
mode_text MissionMode.lab_ctf = codes "CTF Lab"

-- `n > 0 && ...`
abbrev if_positive : ℕ → Option ℕ
if_positive n = elim (ltb 0 n) [ true ↦ some n | false ↦ none ]

unfoldable pub metrics : Mission → App → Metrics
unfolding pending_approvals count_scope
metrics current app = record {
  state = current.state;
  mode = mode_text current.mode;
  pending = length (pending_approvals app);
  authorized = count_scope is_authorized app.assets;
  discovered = count_scope is_unauthorized app.assets;
  agents = length (filter (λ (a : AgentInstance). not (is_terminated a.status)) app.agents);
  profiles = length app.agents;
  running = length (filter (λ (t : AgentTask). is_in_progress t.state) app.tasks);
  findings = length app.findings;
  critical = if_positive (length (filter (λ (f : Finding). is_critical f.severity) app.findings));
}

-- A pending approval with what its proposal adds; without a proposal the operation is the text
-- 'Sensitive Operation', here `none`.
pub record ApprovalBox : Type 0 where
  pub operation : Option StandardCapability
  pub target : Text
  pub action_hash : Text

unfoldable pub approval_box : List ActionProposal → Approval → ApprovalBox
approval_box proposals a =
    let prop = find (λ (p : ActionProposal). text_eq p.action_hash a.action_hash) proposals in
    record {
      operation = elim prop [ none ↦ none | some p ↦ some p.capability_id ];
      target = text_or (elim prop [ none ↦ none | some p ↦ some p.target ]) (codes "—");
      action_hash = truncate_hash 8 6 a.action_hash;
    }

pub record DeniedBox : Type 0 where
  pub capability_id : StandardCapability
  pub ago : Text
  pub reason : Text
  pub target : Text
  pub agent : Text

unfoldable pub denied_box : ℕ → ActionProposal → DeniedBox
denied_box date_now dp = record {
  capability_id = dp.capability_id;
  ago = format_time_ago date_now dp.timestamp_unix;
  reason = text_or dp.decision_reason (codes "Out of authorized scope.");
  target = dp.target;
  agent = dp.requesting_agent;
}

pub record AuditLine : Type 0 where
  pub sequence_number : ℕ
  pub event_type : AuditRecordEventType
  pub current_hash : Text
  pub ago : Text

unfoldable pub audit_line : ℕ → AuditRecord → AuditLine
audit_line date_now r = record {
  sequence_number = r.sequence_number;
  event_type = r.event_type;
  current_hash = truncate_hash 6 4 r.current_hash;
  ago = format_time_ago date_now r.timestamp_unix;
}

-- The props that the overview gives the card of the current mission
unfoldable pub card_props : Mission → App → ActiveMissionCardProps
card_props current app = record {
  mission = current;
  scope_definition = none;
  assets = app.assets;
  scope_counts = none;
  scope_enforcement_state = none;
  scope_verification_details = none;
  is_transitioning = false;
  transition_target_state = none;
  can_switch_mission = ltb 1 (length app.missions);
  has_on_switch_mission = true;
}

pub record Overview : Type 0 where
  pub dev_notice : Bool
  pub stop_banner : Bool
  pub strip : Metrics
  pub card : Card
  pub approval_boxes : List ApprovalBox
  pub denied_boxes : List DeniedBox
  pub audit_lines : List AuditLine

unfoldable pub overview : (ℕ → Text) → ℕ → Text → App → Overview
unfolding metrics pending_approvals denied_proposals approval_box denied_box audit_line card_props
overview to_iso_string date_now operator_id app =
    let current = current_mission date_now operator_id app in
    record {
      dev_notice = app.is_dev_mode;
      stop_banner = app.emergency_stop_status.active;
      strip = metrics current app;
      card = active_mission_card to_iso_string date_now (card_props current app);
      approval_boxes = map (approval_box app.proposals) (pending_approvals app);
      denied_boxes = map (denied_box date_now) (denied_proposals app);
      audit_lines = map (audit_line date_now) (take 4 app.audit_records);
    }
