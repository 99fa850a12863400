-- ===== src/Views/AgentsAndTasksView.antt =====
-- frontend/src/components/agents/AgentsAndTasksView.tsx: the agents, and the tasks of the selected one.
-- `number_format` is `new Intl.NumberFormat('en-US').format`.
pub mod Tasks
use arka.Prelude.{
  ℕ, ◌*◌, leb, ◌==◌, Bool, true, false, ◌&&◌, Option, none, some, List, [], ◌∷◌, ◌++◌, Text, codes,
  is_empty, text_eq, filter, map, length, if◌then◌else◌,
}
use arka.Types.Core.{RiskClass, StandardCapability}
use arka.Types.Agents.{
  AgentInstance, AgentInstanceResourceUsage, AgentRoleName, AgentStatus, AgentTask,
  TaskLifecycleState,
}
use arka.Formatting.{format_number, get_risk_badge_class}
use arka.Views.Badge.{Variant, success, warning, neutral}
use arka.Views.Chosen.{chosen, first_key, is_marked}

-- The view's one cell is the selected id.
unfoldable pub initial_agent : List AgentInstance → Text
initial_agent agents = first_key (λ a. a.agent_id) agents

unfoldable pub selected_agent : Text → List AgentInstance → Option AgentInstance
unfolding chosen
selected_agent selected_agent_id agents = chosen (λ a. a.agent_id) selected_agent_id agents

unfoldable pub agent_tasks : Option AgentInstance → List AgentTask → List AgentTask
agent_tasks none tasks = []
agent_tasks (some a) tasks = filter (λ t. text_eq t.assigned_agent_id a.agent_id) tasks

abbrev status_variant : AgentStatus → Variant
status_variant AgentStatus.executing = success
status_variant AgentStatus.blocked = warning
status_variant AgentStatus.awaiting_authorization = warning
status_variant AgentStatus.idle = neutral
status_variant AgentStatus.planning = neutral
status_variant AgentStatus.terminated = neutral

pub record AgentCard : Type 0 where
  pub is_selected : Bool
  pub role : AgentRoleName
  pub variant : Variant
  pub status : AgentStatus
  pub agent_id : Text
  pub max_risk_class : RiskClass
  pub tokens : Text

unfoldable pub agent_card : (ℕ → Text) → Text → AgentInstance → AgentCard
unfolding is_marked
agent_card number_format selected_agent_id a = record {
  is_selected = is_marked (λ x. x.agent_id) selected_agent_id a;
  role = a.role;
  variant = status_variant a.status;
  status = a.status;
  agent_id = a.agent_id;
  max_risk_class = a.max_risk_class;
  tokens = format_number number_format a.resource_usage.llm_tokens_consumed;
}

abbrev task_variant : TaskLifecycleState → Variant
task_variant TaskLifecycleState.completed = success
task_variant TaskLifecycleState.blocked_on_approval = warning
task_variant TaskLifecycleState.assigned = neutral
task_variant TaskLifecycleState.in_progress = neutral
task_variant TaskLifecycleState.failed = neutral
task_variant TaskLifecycleState.cancelled = neutral

pub record TaskRow : Type 0 where
  pub title : Text
  pub variant : Variant
  pub state : TaskLifecycleState
  pub description : Text
  pub task_id : Text
  -- how many proposals the button to the proposals names, if there are any
  pub proposals_button : Option ℕ

abbrev proposals_button : Bool → List Text → Option ℕ
proposals_button can_navigate [] = none
proposals_button can_navigate (p ∷ ps) = if can_navigate then some (length (p ∷ ps)) else none

unfoldable pub task_row : Bool → AgentTask → TaskRow
task_row can_navigate t = record {
  title = t.title;
  variant = task_variant t.state;
  state = t.state;
  description = t.description;
  task_id = t.task_id;
  proposals_button = proposals_button can_navigate t.produced_proposals;
}

-- `parent ? ` | Parent: ${parent}` : ' | Root Agent'`
abbrev lineage : Option Text → Text
lineage none = codes " | Root Agent"
lineage (some parent) =
    if is_empty parent then codes " | Root Agent" else codes " | Parent: " ++ parent

-- `Math.min(100, (consumed / budget) * 100)` percent, as a fraction; `none` is the `NaN%` of 0 / 0,
-- and infinity is capped.
unfoldable pub meter_width : ℕ → ℕ → Option (ℕ × ℕ)
meter_width consumed budget =
    if consumed == 0 && budget == 0
    then none
    else some (if leb budget consumed then (100, 1) else (consumed * 100, budget))

pub record AgentDetails : Type 0 where
  pub role : AgentRoleName
  pub risk_class : Text
  pub max_risk_class : RiskClass
  pub status : AgentStatus
  pub agent_id : Text
  pub mission_id : Text
  pub lineage : Text
  pub capabilities : List StandardCapability
  pub expenditure : Text
  pub meter_width : Option (ℕ × ℕ)
  pub actions_proposed : ℕ
  pub actions_authorized : ℕ
  pub actions_denied : ℕ

unfoldable pub agent_details : (ℕ → Text) → Option AgentInstance → Option AgentDetails
unfolding meter_width
agent_details number_format none = none
agent_details number_format (some a) = some (record {
  role = a.role;
  risk_class = get_risk_badge_class a.max_risk_class;
  max_risk_class = a.max_risk_class;
  status = a.status;
  agent_id = a.agent_id;
  mission_id = a.mission_id;
  lineage = lineage a.parent_agent_id;
  capabilities = a.permitted_capabilities;
  expenditure =
      format_number number_format a.resource_usage.llm_tokens_consumed
      ++ (codes " / "
          ++ (format_number number_format a.resource_usage.llm_tokens_budget ++ codes " tokens"));
  meter_width = meter_width a.resource_usage.llm_tokens_consumed a.resource_usage.llm_tokens_budget;
  actions_proposed = a.resource_usage.actions_proposed;
  actions_authorized = a.resource_usage.actions_authorized;
  actions_denied = a.resource_usage.actions_denied;
})

pub record AgentsPage : Type 0 where
  pub agent_profiles : ℕ
  pub task_count : ℕ
  pub cards : List AgentCard
  pub details : Option AgentDetails
  pub ledger : List TaskRow

unfoldable pub agents_page :
    (ℕ → Text) → Bool → Text → List AgentInstance → List AgentTask → AgentsPage
unfolding agent_card agent_details task_row selected_agent agent_tasks
agents_page number_format can_navigate selected_agent_id agents tasks =
    let agent = selected_agent selected_agent_id agents in
    record {
      agent_profiles = length agents;
      task_count = length tasks;
      cards = map (agent_card number_format selected_agent_id) agents;
      details = agent_details number_format agent;
      ledger = map (task_row can_navigate) (agent_tasks agent tasks);
    }
