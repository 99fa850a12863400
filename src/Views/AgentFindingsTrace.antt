-- ===== src/Views/AgentFindingsTrace.antt =====
-- frontend/src/components/trace/AgentFindingsTraceView.tsx: the state of the findings trace, its
-- two effects and its handlers. A load is kept from its start to its answer, with the selection
-- that its closure captured; React runs the effects after every commit, here in `flush`.
pub mod Selected
pub mod Loads
pub mod Settles
use arka.Prelude.{
  ℕ, Bool, true, false, Option, none, some, List, [], ◌∷◌, ◌++◌, Text, codes, text_eq, any, find,
  filter, length, is_empty, if◌then◌else◌, ◌==◌,
}
use arka.Types.Core.{ProposalDecision}
use arka.Types.FindingsTrace.{FindingTraceItem, LifecycleStageId, ValidationState}
use arka.Client.{Outcome, returned, thrown}

pub data TimeRangeFilter : Type 0 where
  last_24h last_7d last_30d all_time : TimeRangeFilter

pub record TraceView : Type 0 where
  pub findings : List FindingTraceItem
  pub selected_finding_id : Option Text
  pub selected_stage_filter : Option LifecycleStageId
  pub is_loading : Bool
  pub time_range : TimeRangeFilter
  pub search_query : Text
  pub selected_agent : Text
  pub selected_severity : Text
  pub selected_decision : Text
  -- the loads without an answer, each with the selection that it captured
  pub loads : List (Option Text)
  -- the selection for which the load effect ran last
  pub ran_for : Option (Option Text)

abbrev pub initial_view : TraceView
initial_view = record {
  findings = [];
  selected_finding_id = none;
  selected_stage_filter = none;
  is_loading = true;
  time_range = TimeRangeFilter.last_24h;
  search_query = [];
  selected_agent = codes "ALL";
  selected_severity = codes "ALL";
  selected_decision = codes "ALL";
  loads = [];
  ran_for = none;
}

-- `!selectedFindingId`
abbrev pub is_unset : Option Text → Bool
is_unset none = true
is_unset (some id) = is_empty id

abbrev pub same_id : Option Text → Option Text → Bool
same_id none none = true
same_id (some a) (some b) = text_eq a b
same_id none (some b) = false
same_id (some a) none = false

-- `f.finding_id === selectedFindingId`
abbrev pub is_selected : Option Text → FindingTraceItem → Bool
is_selected selected f = same_id (some f.finding_id) selected

abbrev pub first_id : List FindingTraceItem → Option Text → Option Text
first_id [] selected = selected
first_id (f ∷ fs) selected = some f.finding_id

-- What `loadTraceData` does before it waits
unfoldable pub start_load : TraceView → TraceView
start_load v = record v { is_loading = true; loads = v.selected_finding_id ∷ v.loads }

unfoldable pub set_findings : Option Text → Option (List FindingTraceItem) → TraceView → TraceView
set_findings captured none v = v
set_findings captured (some items) v = record v {
  findings = items;
  selected_finding_id =
      if is_unset captured then first_id items v.selected_finding_id else v.selected_finding_id;
}

-- What it does after the answer, on each of its paths
unfoldable pub finish_load : Option Text → Outcome (List FindingTraceItem) → TraceView → TraceView
unfolding set_findings
finish_load captured (returned res) v = record (set_findings captured res.payload v) {
  is_loading = false;
}
finish_load captured thrown v = record v { is_loading = false }

-- The first effect, which runs when `loadTraceData` has changed
unfoldable pub load_effect : TraceView → TraceView
unfolding start_load
load_effect v = elim v.ran_for [
  | none ↦ start_load (record v { ran_for = some v.selected_finding_id })
  | some id ↦
      if same_id id v.selected_finding_id
      then v
      else start_load (record v { ran_for = some v.selected_finding_id })
]

-- The second effect, which does nothing when it runs again on the same state
unfoldable pub select_effect : TraceView → TraceView
select_effect v =
    if any (is_selected v.selected_finding_id) v.findings
    then v
    else record v { selected_finding_id = first_id v.findings v.selected_finding_id }

-- Both effects, and the load effect once more for what the second changed
unfoldable pub flush : TraceView → TraceView
unfolding load_effect select_effect
flush v = load_effect (select_effect (load_effect v))

unfoldable pub selected_finding : TraceView → Option FindingTraceItem
selected_finding v = find (is_selected v.selected_finding_id) v.findings

abbrev pub stage_rank : LifecycleStageId → ℕ
stage_rank LifecycleStageId.discovery = 1
stage_rank LifecycleStageId.evidence_collection = 2
stage_rank LifecycleStageId.validation = 3
stage_rank LifecycleStageId.risk_scoring = 4
stage_rank LifecycleStageId.kernel_policy_check = 5
stage_rank LifecycleStageId.human_approval = 6
stage_rank LifecycleStageId.final_finding = 7

-- `(prev) => (prev === stageId ? null : stageId)`
unfoldable pub toggle_stage : LifecycleStageId → Option LifecycleStageId → Option LifecycleStageId
toggle_stage stage none = some stage
toggle_stage stage (some prev) = elim (stage_rank prev == stage_rank stage) [
  | true ↦ none
  | false ↦ some stage
]

-- Everything that writes the state
pub data Event : Type 0 where
  mission_changed : Event
  -- the answer to the load that captured this selection, and the loads that are left
  finished :
      (captured : Option Text)
      → (rest : List (Option Text)) → Outcome (List FindingTraceItem)
      → Event
  refresh_pressed : Event
  row_selected : Text → Event
  panel_closed : Event
  stage_pressed : LifecycleStageId → Event
  time_range_pressed : TimeRangeFilter → Event
  search_changed agent_changed severity_changed decision_changed : Text → Event

unfoldable pub handle : Event → TraceView → TraceView
unfolding finish_load start_load toggle_stage
handle mission_changed v = record v { ran_for = none }
handle (finished captured rest outcome) v = finish_load captured outcome (record v { loads = rest })
handle refresh_pressed v = if v.is_loading then v else start_load v
handle (row_selected id) v = record v { selected_finding_id = some id }
handle panel_closed v = record v { selected_finding_id = none }
handle (stage_pressed stage) v = record v {
  selected_stage_filter = toggle_stage stage v.selected_stage_filter;
}
handle (time_range_pressed range) v = record v { time_range = range }
handle (search_changed text) v = record v { search_query = text }
handle (agent_changed text) v = record v { selected_agent = text }
handle (severity_changed text) v = record v { selected_severity = text }
handle (decision_changed text) v = record v { selected_decision = text }

-- From the first commit on
unfoldable pub run : List Event → TraceView → TraceView
unfolding handle flush
run [] v = flush v
run (e ∷ es) v = run es (handle e (flush v))

abbrev pub is_validated : ValidationState → Bool
is_validated ValidationState.validated = true
is_validated ValidationState.pending = false
is_validated ValidationState.invalid = false
is_validated ValidationState.anomalous = false

abbrev pub is_denied : ProposalDecision → Bool
is_denied ProposalDecision.deny = true
is_denied _ = false

abbrev pub is_allowed : ProposalDecision → Bool
is_allowed ProposalDecision.allow = true
is_allowed _ = false

abbrev pub is_approval_required : ProposalDecision → Bool
is_approval_required ProposalDecision.require_approval = true
is_approval_required _ = false

pub record Counts : Type 0 where
  pub total : ℕ
  pub validated : ℕ
  pub denied : ℕ
  pub allowed : ℕ
  pub approval_required : ℕ

unfoldable pub counts : List FindingTraceItem → Counts
counts findings = record {
  total = length findings;
  validated = length (filter (λ (f : FindingTraceItem). is_validated f.validation_state) findings);
  denied = length (filter (λ (f : FindingTraceItem). is_denied f.policy_decision) findings);
  allowed = length (filter (λ (f : FindingTraceItem). is_allowed f.policy_decision) findings);
  approval_required =
      length (filter (λ (f : FindingTraceItem). is_approval_required f.policy_decision) findings);
}
