-- ===== src/App.antt =====
-- frontend/src/App.tsx: the console's state. A handler is cut where it awaits: an `on_…` function is
-- what runs, without interruption, once the awaited calls have ended. `Handlers` composes them.
pub mod Events
pub mod Handlers
pub mod Queue
pub mod Failure
pub mod EmergencyStop
pub mod Reload
pub mod Place
use Prim.Native.Nat.{◌/◌}
use arka.Prelude.{
  ℕ, Bool, true, false, not, Option, none, some, List, [], ◌∷◌, ◌++◌, map, Text, codes, text_eq,
  is_empty, if◌then◌else◌, filter, find, head?, length, or_else,
}
use arka.Types.Core.{
  Mission, MissionState, MissionMode, ActionProposal, Approval, ApprovalStatus, EmergencyStopStatus,
  AuditRecord, EvidenceRecord,
}
use arka.Types.AttackSurface.{DiscoveredAsset}
use arka.Types.Agents.{AgentInstance, AgentTask}
use arka.Types.Findings.{Finding, AssessmentReport}
use arka.Types.Settings.{PlatformSettings}
use arka.Client.Endpoints.{Transition, ChainStatus}

-- frontend/src/components/layout/SideNav.tsx
pub data NavDestination : Type 0 where
  overview missions attack_surface proposals approvals agents evidence findings findings_trace
        reports audit settings :
      NavDestination

pub data Theme : Type 0 where
  dark light : Theme

-- The `useState` cells of `App`
pub record App : Type 0 where
  pub current_tab : NavDestination
  pub is_creating_mission : Bool
  pub mobile_nav_open : Bool
  pub missions : List Mission
  pub selected_mission_id : Text
  pub proposals : List ActionProposal
  pub approvals : List Approval
  pub assets : List DiscoveredAsset
  pub agents : List AgentInstance
  pub tasks : List AgentTask
  pub evidence_list : List EvidenceRecord
  pub findings : List Finding
  pub reports : List AssessmentReport
  pub audit_records : List AuditRecord
  pub settings : Option PlatformSettings
  pub emergency_stop_status : EmergencyStopStatus
  pub theme : Theme
  pub is_backend_connected : Bool
  pub is_dev_mode : Bool
  pub initial_loading : Bool
  pub banner_notice : Option Text

abbrev pub initial_app : App
initial_app = record {
  current_tab = NavDestination.overview;
  is_creating_mission = false;
  mobile_nav_open = false;
  missions = [];
  selected_mission_id = [];
  proposals = [];
  approvals = [];
  assets = [];
  agents = [];
  tasks = [];
  evidence_list = [];
  findings = [];
  reports = [];
  audit_records = [];
  settings = none;
  emergency_stop_status = record {
    active = false;
    triggered_at_unix = none;
    triggered_by = none;
    reason = none;
    cleared_at_unix = none;
    cleared_by = none;
    clear_reason = none;
  };
  theme = dark;
  is_backend_connected = false;
  is_dev_mode = true;
  initial_loading = true;
  banner_notice = none;
}

-- `if (res.data) set(res.data)`
unfoldable pub set_if : {T : Type 0} → Option T → (T → App → App) → App → App
set_if none set app = app
set_if (some v) set app = set v app

set_proposals : List ActionProposal → App → App
set_proposals v app = record app { proposals = v }

set_audit_records : List AuditRecord → App → App
set_audit_records v app = record app { audit_records = v }

set_notice : Text → App → App
set_notice text app = record app { banner_notice = some text }

toggle_theme : Theme → Theme
toggle_theme dark = light
toggle_theme light = dark

unfoldable pub handle_toggle_theme : App → App
unfolding toggle_theme
handle_toggle_theme app = record app { theme = toggle_theme app.theme }

-- The missions of a load, and the selection of the first of them where none was selected when the load
-- was made: `loadInitialData` tests the selection that its closure has captured.
load_missions : (captured : Text) → List Mission → App → App
load_missions captured [] app = record app { missions = [] }
load_missions captured (m ∷ ms) app = record app {
  missions = m ∷ ms;
  selected_mission_id = if is_empty captured then m.id else app.selected_mission_id;
}

-- The selection that `loadInitialData` has captured, and the data of its twelve responses
pub record Loaded : Type 0 where
  pub captured_mission_id : Text
  pub missions : Option (List Mission)
  pub proposals : Option (List ActionProposal)
  pub approvals : Option (List Approval)
  pub assets : Option (List DiscoveredAsset)
  pub agents : Option (List AgentInstance)
  pub tasks : Option (List AgentTask)
  pub evidence : Option (List EvidenceRecord)
  pub findings : Option (List Finding)
  pub reports : Option (List AssessmentReport)
  pub audit_records : Option (List AuditRecord)
  pub settings : Option PlatformSettings
  pub emergency_stop : Option EmergencyStopStatus

-- `loadInitialData` before its calls
unfoldable pub on_load_start : (dev connected : Bool) → App → App
on_load_start dev connected app = record app { is_dev_mode = dev; is_backend_connected = connected }

-- and after them
unfoldable pub on_loaded : Loaded → App → App
unfolding set_if load_missions
on_loaded d app =
    let app1 = set_if d.missions (load_missions d.captured_mission_id) app in
    record app1 {
      proposals = or_else d.proposals app1.proposals;
      approvals = or_else d.approvals app1.approvals;
      assets = or_else d.assets app1.assets;
      agents = or_else d.agents app1.agents;
      tasks = or_else d.tasks app1.tasks;
      evidence_list = or_else d.evidence app1.evidence_list;
      findings = or_else d.findings app1.findings;
      reports = or_else d.reports app1.reports;
      audit_records = or_else d.audit_records app1.audit_records;
      settings = elim d.settings [ none ↦ app1.settings | some v ↦ some v ];
      emergency_stop_status = or_else d.emergency_stop app1.emergency_stop_status;
      initial_loading = false;
    }

-- A rejected call of the first load: only the `finally` runs.
unfoldable pub on_load_failed : App → App
on_load_failed app = record app { initial_loading = false }

-- `const [newProposals, newAudit] = …` and the two assignments behind it
unfoldable pub on_refreshed : Option (List ActionProposal) → Option (List AuditRecord) → App → App
unfolding set_if set_proposals set_audit_records
on_refreshed new_proposals new_audit app =
    set_if new_audit set_audit_records (set_if new_proposals set_proposals app)

unfoldable pub on_audit_refreshed : Option (List AuditRecord) → App → App
unfolding set_if set_audit_records
on_audit_refreshed new_audit app = set_if new_audit set_audit_records app

unfoldable pub on_triggered : Text → EmergencyStopStatus → App → App
on_triggered reason status app = record app {
  emergency_stop_status = status;
  banner_notice = some (
      codes "EMERGENCY STOP ENGAGED: All active operations halted. Reason: \""
      ++ (reason ++ codes "\""));
}

unfoldable pub on_cleared : EmergencyStopStatus → App → App
on_cleared status app = record app {
  emergency_stop_status = status;
  banner_notice = some (codes "Emergency stop disengaged. Operational systems returned to idle.");
}

without_approval : Text → List Approval → List Approval
without_approval approval_id xs =
    filter (λ (a : Approval). not (text_eq a.approval_id approval_id)) xs

unfoldable pub on_approved : Text → App → App
unfolding without_approval
on_approved approval_id app = record app {
  banner_notice = some (
      codes "Action approval "
      ++ (approval_id ++ codes " cryptographically sealed and committed."));
  approvals = without_approval approval_id app.approvals;
}

unfoldable pub on_rejected : Text → App → App
unfolding without_approval
on_rejected approval_id app = record app {
  banner_notice = some (codes "Proposal rejection recorded with audit log entry.");
  approvals = without_approval approval_id app.approvals;
}

pub state_name : MissionState → Text
state_name MissionState.created = codes "CREATED"
state_name MissionState.active = codes "ACTIVE"
state_name MissionState.paused = codes "PAUSED"
state_name MissionState.completed = codes "COMPLETED"
state_name MissionState.terminated = codes "TERMINATED"

unfoldable pub set_mission_state : Text → MissionState → Mission → Mission
set_mission_state mission_id updated m =
    if text_eq m.id mission_id then record m { state = updated } else m

unfoldable pub on_transitioned : Text → MissionState → Transition → App → App
unfolding set_mission_state
on_transitioned mission_id target answer app = record app {
  missions = map (set_mission_state mission_id answer.state) app.missions;
  banner_notice = some (
      codes "Mission "
      ++ (mission_id ++ (codes " transitioned to " ++ (state_name target ++ codes "."))));
}

unfoldable pub handle_mission_created : Mission → App → App
handle_mission_created new_mission app = record app {
  missions = new_mission ∷ app.missions;
  selected_mission_id = new_mission.id;
  is_creating_mission = false;
  current_tab = NavDestination.missions;
  banner_notice =
      some (codes "New mission \"" ++ (new_mission.name ++ codes "\" authorized and sealed."));
}

-- What `handleVerifyChain` returns
unfoldable pub verify_result : Option ChainStatus → App → ChainStatus
verify_result (some res) app = res
verify_result none app = record {
  system_chain_valid = true;
  mission_chain_valid = true;
  verified_blocks = length app.audit_records;
}

-- The mission in view: the selected one, or the first, or a default
default_mission : ℕ → Text → Mission
default_mission date_now operator_id = record {
  id = codes "msn_default";
  name = codes "Default Assessment Context";
  state = MissionState.created;
  scope_ref = codes "scp_default";
  created_at_unix = date_now / 1000;
  updated_at_unix = date_now / 1000;
  created_by = operator_id;
  mode = MissionMode.authorized_professional;
  description = some (codes "System initialization context");
}

unfoldable pub current_mission : ℕ → Text → App → Mission
unfolding default_mission
current_mission date_now operator_id app =
    elim (find (λ (m : Mission). text_eq m.id app.selected_mission_id) app.missions) [
      | some m ↦ m
      | none ↦ or_else (head? app.missions) (default_mission date_now operator_id)
    ]

abbrev pub is_pending : ApprovalStatus → Bool
is_pending ApprovalStatus.pending = true
is_pending _ = false

unfoldable pub pending_approvals_count : App → ℕ
pending_approvals_count app = length (filter (λ (a : Approval). is_pending a.status) app.approvals)
