-- ===== src/Views/MissionsListView.antt =====
-- frontend/src/components/missions/MissionsListView.tsx: the rows of the missions table and the
-- transitions that each offers to the operator.
pub mod Transitions
pub mod Console
use arka.Prelude.{
  Bool, true, false, ◌||◌, not, Option, none, some, List, [], ◌∷◌, ◌++◌, map, Text, codes, text_eq,
  ℕ, if◌then◌else◌,
}
use arka.Types.Core.{Mission, MissionState, MissionMode, EmergencyStopStatus}
use arka.Formatting.{format_timestamp}
use arka.Views.Badge.{Badge, Variant}

-- A button of a row: its press is `onTransitionMission(m.id, target)`.
pub record ActionButton : Type 0 where
  pub label : Text
  pub disabled : Bool
  pub title : Text
  pub target : MissionState

abbrev pub is_terminal : MissionState → Bool
is_terminal MissionState.created = false
is_terminal MissionState.active = false
is_terminal MissionState.paused = false
is_terminal MissionState.completed = true
is_terminal MissionState.terminated = true

abbrev pub is_created : MissionState → Bool
is_created MissionState.created = true
is_created MissionState.active = false
is_created MissionState.paused = false
is_created MissionState.completed = false
is_created MissionState.terminated = false

abbrev pub is_active : MissionState → Bool
is_active MissionState.created = false
is_active MissionState.active = true
is_active MissionState.paused = false
is_active MissionState.completed = false
is_active MissionState.terminated = false

abbrev pub is_paused : MissionState → Bool
is_paused MissionState.created = false
is_paused MissionState.active = false
is_paused MissionState.paused = true
is_paused MissionState.completed = false
is_paused MissionState.terminated = false

-- `test && <element>`
unfoldable pub shown_if {ℓ} : {A : Type ℓ} → Bool → A → List A
shown_if true a = a ∷ []
shown_if false a = []

abbrev pub launch_button : EmergencyStopStatus → ActionButton
launch_button stop = record {
  label = codes "Launch";
  disabled = stop.active;
  title = if stop.active then codes "Blocked by E-Stop" else codes "Launch Mission";
  target = MissionState.active;
}

abbrev pub pause_button : ActionButton
pause_button = record {
  label = codes "Pause";
  disabled = false;
  title = codes "Pause Mission execution";
  target = MissionState.paused;
}

abbrev pub resume_button : EmergencyStopStatus → ActionButton
resume_button stop = record {
  label = codes "Resume";
  disabled = stop.active;
  title = codes "Resume Mission";
  target = MissionState.active;
}

abbrev pub complete_button : ActionButton
complete_button = record {
  label = codes "Complete";
  disabled = false;
  title = codes "Mark assessment Completed";
  target = MissionState.completed;
}

unfoldable pub operator_actions : EmergencyStopStatus → MissionState → List ActionButton
unfolding shown_if
operator_actions stop state =
    shown_if (is_created state) (launch_button stop)
    ++ shown_if (is_active state) pause_button
    ++ shown_if (is_paused state) (resume_button stop)
    ++ shown_if (not (is_terminal state)) complete_button

unfoldable pub state_variant : MissionState → Variant
state_variant MissionState.active = Variant.success
state_variant MissionState.paused = Variant.warning
state_variant MissionState.completed = Variant.primary
state_variant MissionState.created = Variant.neutral
state_variant MissionState.terminated = Variant.neutral

abbrev state_text : MissionState → Text
state_text MissionState.created = codes "CREATED"
state_text MissionState.active = codes "ACTIVE"
state_text MissionState.paused = codes "PAUSED"
state_text MissionState.completed = codes "COMPLETED"
state_text MissionState.terminated = codes "TERMINATED"

unfoldable pub mode_label : MissionMode → Text
mode_label MissionMode.authorized_professional = codes "PRO-ASSESSMENT"
mode_label MissionMode.lab_ctf = codes "LAB-CTF"

-- A row of the table: its cells from the left; `id` is also what a click of the row selects.
pub record Row : Type 0 where
  pub is_selected : Bool
  pub name : Text
  pub id : Text
  pub state : Badge
  pub mode : Text
  pub scope_ref : Text
  pub started : Text
  pub actions : List ActionButton
  pub terminal_note : Bool

unfoldable pub mission_row : (ℕ → Text) → Text → EmergencyStopStatus → Mission → Row
unfolding operator_actions state_variant mode_label
mission_row to_iso_string selected_mission_id stop m = record {
  is_selected = text_eq m.id selected_mission_id;
  name = m.name;
  id = m.id;
  state = record {
    variant = state_variant m.state;
    text = state_text m.state;
    pulse_dot = is_active m.state;
    title = none;
  };
  mode = mode_label m.mode;
  scope_ref = m.scope_ref;
  started = format_timestamp to_iso_string m.created_at_unix;
  actions = operator_actions stop m.state;
  terminal_note = is_terminal m.state;
}

unfoldable pub mission_rows : (ℕ → Text) → Text → EmergencyStopStatus → List Mission → List Row
unfolding mission_row
mission_rows to_iso_string selected_mission_id stop missions =
    map (mission_row to_iso_string selected_mission_id stop) missions
