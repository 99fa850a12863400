-- ===== src/Types/Agents.antt =====
-- frontend/src/types/agents.ts: its types, field by field. An optional field is an `Option`, a union of
-- string literals a data type, a number a natural number (a risk score or a temperature counts tenths).
-- `data` is a reserved word here: that field is `payload`.
use arka.Prelude.{Text, ℕ, List, Option}
use arka.Types.Core.{RiskClass, StandardCapability}

pub data AgentRoleName : Type 0 where
  orchestrator_agent reconnaissance_agent vulnerability_analysis_agent exploitation_validation_agent
        reporting_evidence_agent :
      AgentRoleName

pub data AgentStatus : Type 0 where
  idle planning awaiting_authorization executing blocked terminated : AgentStatus

pub record AgentInstanceResourceUsage : Type 0 where
  pub llm_tokens_consumed : ℕ
  pub llm_tokens_budget : ℕ
  pub actions_proposed : ℕ
  pub actions_authorized : ℕ
  pub actions_denied : ℕ

pub record AgentInstance : Type 0 where
  pub agent_id : Text
  pub role : AgentRoleName
  pub mission_id : Text
  pub parent_agent_id : Option Text
  pub status : AgentStatus
  pub max_risk_class : RiskClass
  pub permitted_capabilities : List StandardCapability
  pub resource_usage : AgentInstanceResourceUsage
  pub active_task_id : Option Text
  pub uptime_seconds : ℕ

pub data TaskLifecycleState : Type 0 where
  assigned in_progress blocked_on_approval completed failed cancelled : TaskLifecycleState

pub record AgentTask : Type 0 where
  pub task_id : Text
  pub mission_id : Text
  pub assigned_agent_id : Text
  pub parent_task_id : Option Text
  pub title : Text
  pub description : Text
  pub state : TaskLifecycleState
  pub created_at_unix : ℕ
  pub updated_at_unix : ℕ
  pub produced_proposals : List Text
  pub produced_evidence : List Text
  pub produced_findings : List Text
