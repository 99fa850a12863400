-- ===== src/Tests.antt =====
-- The data of the tests: a console, networks that answer or do not, and small fixtures.
pub mod Scope
pub mod Requests
pub mod Console
pub mod Halts
pub mod Missions
pub mod Findings
pub mod Redaction
pub mod Reload
pub mod Approvals
pub mod Shell
pub mod Views
pub mod Trace
use arka.Prelude.{Text, codes, Bool, true, false, Option, none, some, List, [], ◌∷◌}
use arka.Types.Core.{
  Mission, MissionState, MissionMode, Approval, ApprovalStatus, EmergencyStopStatus,
}
use arka.Types.Settings.{
  PlatformSettings, PlatformSettingsTheme, PlatformSettingsDensity, PlatformSettingsDataHandling,
}
use arka.Types.Api.{UserSession, security_operator}
use arka.Client.{Client, Net, unreachable, answered, json}
use arka.Client.Endpoints.{Fixtures}
use arka.App.{App, initial_app}

abbrev pub session : UserSession
session = record {
  operator_id = codes "opr_7";
  role = security_operator;
  token = codes "tok";
  hardware_token_bound = true;
  token_expires_at_unix = 900;
}

-- The console in development mode, its session valid up to second 900
abbrev pub console : Client
console = record {
  base_url = codes "/v1";
  session = some session;
  is_development_mode = true;
  is_backend_connected = true;
  allow_mock_mutations = false;
}

-- A call at second 500 that nothing answers
abbrev pub offline : {T : Type 0} → Net T
offline = record { date_now = 500000; random = λ i. i; fetch = λ r. unreachable }

-- and one that a backend answers
abbrev pub backend : {T : Type 0} → T → Net T
backend v = record { date_now = 500000; random = λ i. i; fetch = λ r. answered (json (some v)) }

-- A call at second 901
abbrev pub late : {T : Type 0} → T → Net T
late v = record { date_now = 901000; random = λ i. i; fetch = λ r. answered (json (some v)) }

abbrev pub halted : EmergencyStopStatus
halted = record {
  active = true;
  triggered_at_unix = some 500;
  triggered_by = some (codes "opr_7");
  reason = some (codes "leak");
  cleared_at_unix = none;
  cleared_by = none;
  clear_reason = none;
}

abbrev pub mission : Text → Mission
mission id = record {
  id = id;
  name = codes "Perimeter";
  state = MissionState.created;
  scope_ref = codes "scp_1";
  created_at_unix = 100;
  updated_at_unix = 100;
  created_by = codes "opr_7";
  mode = MissionMode.lab_ctf;
  description = none;
}

abbrev pub approval : Text → Approval
approval id = record {
  approval_id = id;
  mission_id = codes "m1";
  action_hash = codes "h";
  approver = codes "opr_8";
  status = ApprovalStatus.pending;
  issued_at_unix = 100;
  expires_at_unix = 400;
  consumed_at_unix = none;
  rejection_reason = none;
}

abbrev pub fixtures : Fixtures
fixtures = record {
  missions = mission (codes "m1") ∷ mission (codes "m2") ∷ [];
  proposals = [];
  approvals = approval (codes "a1") ∷ [];
  assets = [];
  agents = [];
  tasks = [];
  evidence = [];
  findings = [];
  audit_records = [];
  settings = record {
    theme = PlatformSettingsTheme.dark;
    density = PlatformSettingsDensity.compact;
    reduced_motion = false;
    providers = [];
    workers = [];
    default_mission_budget_usd = 50;
    default_tool_timeout_seconds = 30;
    hardware_token_enforcement = true;
    data_handling = record {
      dlp_masking_active = true;
      evidence_retention_days = 90;
      audit_chain_dual_signing = true;
    };
  };
  emergency_stop = halted;
  finding_trace_items = [];
}

-- The console's state with two missions, two approvals and an engaged stop
abbrev pub app : App
app = record initial_app {
  missions = mission (codes "m1") ∷ mission (codes "m2") ∷ [];
  approvals = approval (codes "a1") ∷ approval (codes "a2") ∷ [];
  emergency_stop_status = halted;
}
