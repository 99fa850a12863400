-- ===== src/Views/AgentsAndTasksView/Tasks.antt =====
-- frontend/src/components/agents/AgentsAndTasksView.tsx: whose tasks are listed.
use arka.Prelude.{
  ℕ, ◌≡◌, refl, sym, ap, ◌∙◌, Bool, Option, none, some, Text, text_eq, List, [], map, filter,
}
use arka.Types.Agents.{AgentInstance, AgentTask}
use arka.Views.AgentsAndTasksView.{
  AgentDetails, TaskRow, agent_details, agent_tasks, selected_agent, task_row, agents_page,
}

-- The rows of the tasks that are assigned to the agent of the details
ledger_of : Bool → List AgentTask → Option AgentDetails → List TaskRow
ledger_of can_navigate tasks none = []
ledger_of can_navigate tasks (some d) =
    map (task_row can_navigate) (filter (λ t. text_eq t.assigned_agent_id d.agent_id) tasks)

agent_tasks-ledger :
    (number_format : ℕ → Text) (can_navigate : Bool) (o : Option AgentInstance)
    (tasks : List AgentTask)
    → ledger_of can_navigate tasks (agent_details number_format o)
      ≡ map (task_row can_navigate) (agent_tasks o tasks)
unfolding ledger_of agent_tasks agent_details
agent_tasks-ledger number_format can_navigate none tasks = refl
agent_tasks-ledger number_format can_navigate (some a) tasks = refl

-- The ledger lists exactly the tasks that are assigned to the agent in the details, in their order,
-- also when the selected agent is gone and the details show another one.
pub agents_page-ledger :
    (number_format : ℕ → Text) (can_navigate : Bool) (id : Text) (agents : List AgentInstance)
    (tasks : List AgentTask) (d : AgentDetails)
    → (agents_page number_format can_navigate id agents tasks).details ≡ some d
    → (agents_page number_format can_navigate id agents tasks).ledger
      ≡ map (task_row can_navigate) (filter (λ t. text_eq t.assigned_agent_id d.agent_id) tasks)
unfolding agents_page ledger_of
agents_page-ledger number_format can_navigate id agents tasks d e =
    sym (agent_tasks-ledger number_format can_navigate (selected_agent id agents) tasks)
    ∙ ap (ledger_of can_navigate tasks) e
