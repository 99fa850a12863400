-- ===== src/Views/Lifecycle.antt =====
-- frontend/src/components/trace/FindingLifecycleTimeline.tsx and FindingLifecycleFlow.tsx: the stages
-- of the selected finding, and the fixed process view under them. Colours and icons are left out.
pub mod Highlighted
use arka.Prelude.{
  ℕ, ◌+◌, ◌==◌, Bool, true, false, not, ◌||◌, Option, none, some, List, [], ◌∷◌, ◌++◌, map, Text,
  codes, if◌then◌else◌, is_some, length, to_string,
}
use arka.Types.FindingsTrace.{LifecycleStageId, LifecycleStageInfo, LifecycleStageStatus}
use arka.Formatting.{format_timestamp}
use arka.Views.AgentFindingsTrace.{stage_rank, toggle_stage}

-- The label of `getStatusBadgeStyle`
unfoldable pub status_label : LifecycleStageStatus → Text
status_label LifecycleStageStatus.completed = codes "VERIFIED"
status_label LifecycleStageStatus.active = codes "IN PROGRESS"
status_label LifecycleStageStatus.denied = codes "POLICY DENIED"
status_label LifecycleStageStatus.failed = codes "REJECTED"
status_label LifecycleStageStatus.not_required = codes "NOT REQUIRED"
status_label LifecycleStageStatus.pending = codes "AWAITING EVAL"
status_label LifecycleStageStatus.stale = codes "AWAITING EVAL"
status_label LifecycleStageStatus.unknown = codes "AWAITING EVAL"

abbrev default_stage :
    LifecycleStageId → ℕ → Text → Text → LifecycleStageStatus → LifecycleStageInfo
default_stage id stage_number title short_desc status = record {
  id = id;
  stage_number = stage_number;
  title = title;
  short_desc = short_desc;
  status = status;
  timestamp_unix = none;
  event_ref = none;
  details = none;
}

abbrev pub default_stages : List LifecycleStageInfo
default_stages =
    default_stage LifecycleStageId.discovery 1 (codes "Discovery") (codes "Agent candidate finding")
      LifecycleStageStatus.completed
    ∷ default_stage LifecycleStageId.evidence_collection 2 (codes "Evidence Collection")
        (codes "Normalized raw artifacts") LifecycleStageStatus.completed
    ∷ default_stage LifecycleStageId.validation 3 (codes "Validation")
        (codes "Structural verification") LifecycleStageStatus.completed
    ∷ default_stage LifecycleStageId.risk_scoring 4 (codes "Risk Scoring")
        (codes "Deterministic severity model") LifecycleStageStatus.completed
    ∷ default_stage LifecycleStageId.kernel_policy_check 5 (codes "Kernel Policy Check")
        (codes "Scope & exclusion rules") LifecycleStageStatus.denied
    ∷ default_stage LifecycleStageId.human_approval 6 (codes "Human Approval")
        (codes "Two-person integrity gate") LifecycleStageStatus.not_required
    ∷ default_stage LifecycleStageId.final_finding 7 (codes "Final Finding")
        (codes "Dual-signed audit commit") LifecycleStageStatus.completed
    ∷ []

unfoldable pub display_stages : Option (List LifecycleStageInfo) → List LifecycleStageInfo
display_stages none = default_stages
display_stages (some []) = default_stages
display_stages (some (s ∷ stages)) = s ∷ stages

abbrev pub same_stage : LifecycleStageId → LifecycleStageId → Bool
same_stage a b = stage_rank a == stage_rank b

abbrev pub is_stage : Option LifecycleStageId → LifecycleStageId → Bool
is_stage none id = false
is_stage (some selected) id = same_stage selected id

-- `timestamp ? formatTimestamp(timestamp) : '—'`
abbrev stage_time : (ℕ → Text) → Option ℕ → Text
stage_time to_iso_string none = codes "—"
stage_time to_iso_string (some n) = if n == 0 then codes "—" else format_timestamp to_iso_string n

pub record StageCard : Type 0 where
  pub is_selected : Bool
  pub number : Text
  pub title : Text
  pub short_desc : Text
  pub label : Text
  pub time : Text

unfoldable pub stage_card : (ℕ → Text) → Option LifecycleStageId → LifecycleStageInfo → StageCard
unfolding status_label
stage_card to_iso_string selected_stage_id stage = record {
  is_selected = is_stage selected_stage_id stage.id;
  number = b'0' ∷ to_string stage.stage_number;
  title = stage.title;
  short_desc = stage.short_desc;
  label = status_label stage.status;
  time = stage_time to_iso_string stage.timestamp_unix;
}

unfoldable pub timeline :
    (ℕ → Text) → Option LifecycleStageId → Option (List LifecycleStageInfo) → List StageCard
unfolding stage_card display_stages
timeline to_iso_string selected_stage_id stages =
    map (stage_card to_iso_string selected_stage_id) (display_stages stages)

pub data AuthorityLevel : Type 0 where
  untrusted isolated deterministic_trusted human_authority immutable_record : AuthorityLevel

pub record FlowNode : Type 0 where
  pub id : LifecycleStageId
  pub label : Text
  pub sublabel : Text
  pub role : Text
  pub authority_level : AuthorityLevel

-- `FLOW_NODES`; the risk scoring has none.
abbrev pub flow_nodes : List FlowNode
flow_nodes =
    record {
      id = LifecycleStageId.discovery;
      label = codes "Agent Plane";
      sublabel = codes "Discovery & Proposal";
      role = codes "Untrusted AI Agent identifies attack surface and submits raw proposal.";
      authority_level = untrusted;
    }
    ∷ record {
      id = LifecycleStageId.evidence_collection;
      label = codes "Evidence Pipeline";
      sublabel = codes "Artifact Ingestion";
      role = codes "Rootless container captures stdout, sockets, and hashes raw payloads.";
      authority_level = isolated;
    }
    ∷ record {
      id = LifecycleStageId.validation;
      label = codes "Safe Parsers";
      sublabel = codes "Validation Engine";
      role = codes "Safe parsers enforce bounds, defuse XML bombs, and reject duplicate keys.";
      authority_level = isolated;
    }
    ∷ record {
      id = LifecycleStageId.kernel_policy_check;
      label = codes "Security Kernel";
      sublabel = codes "Policy Enforcement";
      role = codes "Authoritative Rust kernel enforces scope, exclusion rules, and replay nonces.";
      authority_level = deterministic_trusted;
    }
    ∷ record {
      id = LifecycleStageId.human_approval;
      label = codes "Two-Person Gate";
      sublabel = codes "Human Authorization";
      role = codes "High/Critical proposals require human signature bound to action hash.";
      authority_level = human_authority;
    }
    ∷ record {
      id = LifecycleStageId.final_finding;
      label = codes "Audit Ledger";
      sublabel = codes "Verified Outcome";
      role = codes "Tamper-evident outcome appended to dual-signed Ed25519 audit chain.";
      authority_level = immutable_record;
    }
    ∷ []

-- The cells of the process view, and the filter on the stages of the view that holds it
pub record Flow : Type 0 where
  pub show_data_flow : Bool
  pub active_inspector_node : Option FlowNode
  pub selected_stage_filter : Option LifecycleStageId

abbrev pub initial_flow : Flow
initial_flow = record {
  show_data_flow = true;
  active_inspector_node = none;
  selected_stage_filter = none;
}

pub data Press : Type 0 where
  data_flow_toggled dismissed : Press
  node_pressed : FlowNode → Press
  -- a card of the timeline
  stage_pressed : LifecycleStageId → Press

unfoldable pub press : Press → Flow → Flow
unfolding toggle_stage
press data_flow_toggled s = record s { show_data_flow = not s.show_data_flow }
press dismissed s = record s { active_inspector_node = none }
press (node_pressed node) s = record s {
  active_inspector_node = some node;
  selected_stage_filter = toggle_stage node.id s.selected_stage_filter;
}
press (stage_pressed id) s = record s {
  selected_stage_filter = toggle_stage id s.selected_stage_filter;
}

abbrev pub is_node : Option FlowNode → LifecycleStageId → Bool
is_node none id = false
is_node (some node) id = same_stage node.id id

pub record NodeCard : Type 0 where
  pub node : FlowNode
  pub is_selected : Bool
  pub has_arrow : Bool

unfoldable pub is_selected : Flow → FlowNode → Bool
is_selected s node =
    is_stage s.selected_stage_filter node.id || is_node s.active_inspector_node node.id

-- The cards in order; an arrow leads from each but the last.
unfoldable pub node_cards : Flow → List FlowNode → List NodeCard
unfolding is_selected
node_cards s [] = []
node_cards s (n ∷ []) = record { node = n; is_selected = is_selected s n; has_arrow = false } ∷ []
node_cards s (n ∷ m ∷ nodes) =
    record { node = n; is_selected = is_selected s n; has_arrow = s.show_data_flow }
    ∷ node_cards s (m ∷ nodes)

-- The cards, and the node whose details stand under them
unfoldable pub flow_view : Flow → List NodeCard × Option FlowNode
unfolding node_cards
flow_view s = (node_cards s flow_nodes, s.active_inspector_node)
