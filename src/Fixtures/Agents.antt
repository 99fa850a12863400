-- ===== src/Fixtures/Agents.antt =====
-- frontend/src/api/mockData.ts: the agents and their tasks of the sample data, as in the source.
use arka.Prelude.{codes, none, some, List, [], ◌∷◌}
use arka.Types.Agents.{AgentInstance, AgentRoleName, AgentStatus, AgentTask, TaskLifecycleState}
use arka.Types.Core.{RiskClass, StandardCapability}

abbrev pub sample_agents : List AgentInstance
sample_agents =
    record {
      agent_id = codes "agt_01J9Y74A1B2C3D4E5F6G7H8J9A";
      role = AgentRoleName.orchestrator_agent;
      mission_id = codes "mis_01J9Y70X9Y8Z7W6V5U4T3S2R1Q";
      parent_agent_id = none;
      status = AgentStatus.planning;
      max_risk_class = RiskClass.observation;
      permitted_capabilities = StandardCapability.dns_lookup ∷ StandardCapability.osint_lookup ∷ [];
      resource_usage = record {
        llm_tokens_consumed = 14200;
        llm_tokens_budget = 100000;
        actions_proposed = 8;
        actions_authorized = 6;
        actions_denied = 2;
      };
      active_task_id = some (codes "tsk_01J9Y71M2N3P4Q5R6S7T8U9V0W");
      uptime_seconds = 7200;
    }
    ∷ record {
      agent_id = codes "agt_01J9Y74A1B2C3D4E5F6G7H8J9B";
      role = AgentRoleName.reconnaissance_agent;
      mission_id = codes "mis_01J9Y70X9Y8Z7W6V5U4T3S2R1Q";
      parent_agent_id = some (codes "agt_01J9Y74A1B2C3D4E5F6G7H8J9A");
      status = AgentStatus.idle;
      max_risk_class = RiskClass.moderate;
      permitted_capabilities =
          StandardCapability.dns_lookup ∷ StandardCapability.tcp_connect
          ∷ StandardCapability.port_scan ∷ StandardCapability.web_discovery ∷ [];
      resource_usage = record {
        llm_tokens_consumed = 22800;
        llm_tokens_budget = 80000;
        actions_proposed = 42;
        actions_authorized = 39;
        actions_denied = 3;
      };
      active_task_id = none;
      uptime_seconds = 7100;
    }
    ∷ record {
      agent_id = codes "agt_01J9Y74A1B2C3D4E5F6G7H8J9C";
      role = AgentRoleName.vulnerability_analysis_agent;
      mission_id = codes "mis_01J9Y70X9Y8Z7W6V5U4T3S2R1Q";
      parent_agent_id = some (codes "agt_01J9Y74A1B2C3D4E5F6G7H8J9A");
      status = AgentStatus.awaiting_authorization;
      max_risk_class = RiskClass.moderate;
      permitted_capabilities =
          StandardCapability.http_request ∷ StandardCapability.service_enumeration
          ∷ StandardCapability.browser_automation ∷ [];
      resource_usage = record {
        llm_tokens_consumed = 41500;
        llm_tokens_budget = 150000;
        actions_proposed = 18;
        actions_authorized = 14;
        actions_denied = 0;
      };
      active_task_id = some (codes "tsk_01J9Y71M2N3P4Q5R6S7T8U9V0X");
      uptime_seconds = 6800;
    }
    ∷ record {
      agent_id = codes "agt_01J9Y74A1B2C3D4E5F6G7H8J9D";
      role = AgentRoleName.exploitation_validation_agent;
      mission_id = codes "mis_01J9Y70X9Y8Z7W6V5U4T3S2R1Q";
      parent_agent_id = some (codes "agt_01J9Y74A1B2C3D4E5F6G7H8J9A");
      status = AgentStatus.blocked;
      max_risk_class = RiskClass.critical;
      permitted_capabilities =
          StandardCapability.credential_validation ∷ StandardCapability.controlled_exploitation
          ∷ [];
      resource_usage = record {
        llm_tokens_consumed = 12000;
        llm_tokens_budget = 50000;
        actions_proposed = 2;
        actions_authorized = 0;
        actions_denied = 0;
      };
      active_task_id = none;
      uptime_seconds = 3600;
    }
    ∷ []

abbrev pub sample_tasks : List AgentTask
sample_tasks =
    record {
      task_id = codes "tsk_01J9Y71M2N3P4Q5R6S7T8U9V0W";
      mission_id = codes "mis_01J9Y70X9Y8Z7W6V5U4T3S2R1Q";
      assigned_agent_id = codes "agt_01J9Y74A1B2C3D4E5F6G7H8J9A";
      parent_task_id = none;
      title = codes "Perimeter Surface Reconnaissance";
      description =
          codes "Map reachable CIDR ranges and catalog public-facing HTTP/TLS entry points.";
      state = TaskLifecycleState.completed;
      created_at_unix = 1774015300;
      updated_at_unix = 1774018000;
      produced_proposals = codes "prp_01J9Y70A1B2C3D4E5F6G7H8J9L" ∷ [];
      produced_evidence = codes "evd_01J9Y75A1B2C3D4E5F6G7H8J9A" ∷ [];
      produced_findings = [];
    }
    ∷ record {
      task_id = codes "tsk_01J9Y71M2N3P4Q5R6S7T8U9V0X";
      mission_id = codes "mis_01J9Y70X9Y8Z7W6V5U4T3S2R1Q";
      assigned_agent_id = codes "agt_01J9Y74A1B2C3D4E5F6G7H8J9C";
      parent_task_id = none;
      title = codes "Spring Actuator Endpoint Analysis";
      description =
          codes "Inspect /actuator/env and /actuator/health for leaked secrets and RCE vector.";
      state = TaskLifecycleState.blocked_on_approval;
      created_at_unix = 1774021000;
      updated_at_unix = 1774022000;
      produced_proposals = codes "prp_01J9Y70A1B2C3D4E5F6G7H8J9K" ∷ [];
      produced_evidence = codes "evd_01J9Y75A1B2C3D4E5F6G7H8J9B" ∷ [];
      produced_findings = codes "fnd_01J9Y76A1B2C3D4E5F6G7H8J9A" ∷ [];
    }
    ∷ []
