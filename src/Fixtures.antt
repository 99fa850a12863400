-- ===== src/Fixtures.antt =====
-- frontend/src/api/mockData.ts and traceData.ts: the bundled samples that a call yields while no
-- backend answers.
pub mod Stages
pub mod Missions
pub mod Proposals
pub mod Assets
pub mod Agents
pub mod Records
pub mod Settings
pub mod Trace
pub mod Traced
pub mod Lifecycle
use arka.Client.Endpoints.{Fixtures}
use Missions.{sample_missions, sample_emergency_stop}
use Proposals.{sample_proposals, sample_approvals}
use Assets.{sample_assets}
use Agents.{sample_agents, sample_tasks}
use Records.{sample_evidence, sample_findings, sample_audit_records}
use Settings.{sample_settings}
use Trace.{sample_finding_trace_items}

abbrev pub sample_fixtures : Fixtures
sample_fixtures = record {
  missions = sample_missions;
  proposals = sample_proposals;
  approvals = sample_approvals;
  assets = sample_assets;
  agents = sample_agents;
  tasks = sample_tasks;
  evidence = sample_evidence;
  findings = sample_findings;
  audit_records = sample_audit_records;
  settings = sample_settings;
  emergency_stop = sample_emergency_stop;
  finding_trace_items = sample_finding_trace_items;
}
