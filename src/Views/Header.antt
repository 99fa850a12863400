-- ===== src/Views/Header.antt =====
-- frontend/src/components/layout/Header.tsx, as App.tsx renders it. The search field has no callback
-- there, the bell no handler, and the shortcut only moves the focus.
use arka.Prelude.{true, List, ◌++◌, map, Text, codes, if◌then◌else◌}
use arka.Types.Core.{EmergencyStopStatus, Mission}
use arka.Security.{mask_token}
use arka.App.{App, NavDestination, Theme, dark, light, state_name}
use arka.App.Events.{Event, mission_selected, mobile_nav_set, theme_toggled}

-- `TAB_LABELS`
unfoldable pub tab_label : NavDestination → Text
tab_label NavDestination.overview = codes "Mission Overview"
tab_label NavDestination.missions = codes "Missions Management"
tab_label NavDestination.attack_surface = codes "Attack Surface"
tab_label NavDestination.proposals = codes "Action Proposals"
tab_label NavDestination.approvals = codes "Approvals Gate"
tab_label NavDestination.agents = codes "Agents & Tasks"
tab_label NavDestination.evidence = codes "Evidence Pipeline"
tab_label NavDestination.findings = codes "Security Findings"
tab_label NavDestination.findings_trace = codes "Agent Findings Trace"
tab_label NavDestination.reports = codes "Assessment Reports"
tab_label NavDestination.audit = codes "Cryptographic Audit Trail"
tab_label NavDestination.settings = codes "Platform Settings"

-- An option of the selection of the mission: its value and its text
unfoldable pub mission_option : Mission → Text × Text
mission_option m = (m.id, m.name ++ (codes " [" ++ (state_name m.state ++ codes "]")))

abbrev theme_title : Theme → Text
theme_title dark = codes "Switch to light mode"
theme_title light = codes "Switch to dark mode"

pub record HeaderBar : Type 0 where
  pub selected_mission_id : Text
  pub mission_options : List (Text × Text)
  pub current_tab_label : Text
  pub connection : Text
  pub connection_title : Text
  pub emergency_stop_status : EmergencyStopStatus
  pub operator : Text
  pub theme_title : Text

unfoldable pub header : Text → App → HeaderBar
unfolding tab_label mission_option
header operator_id app = record {
  selected_mission_id = app.selected_mission_id;
  mission_options = map mission_option app.missions;
  current_tab_label = tab_label app.current_tab;
  connection = if app.is_backend_connected then codes "KERNEL ONLINE" else codes "DEV SAMPLE MODE";
  connection_title =
      if app.is_backend_connected
      then codes "Authoritative Kernel Backend: CONNECTED & ENFORCING"
      else codes "Local Dev Mode: Using verified sample data fixtures";
  emergency_stop_status = app.emergency_stop_status;
  operator = mask_token operator_id;
  theme_title = theme_title app.theme;
}

-- The controls of the header, besides the emergency stop
pub data Control : Type 0 where
  mission_chosen : Text → Control
  menu_pressed theme_pressed : Control

unfoldable pub press_control : Control → Event
press_control (mission_chosen id) = mission_selected id
press_control menu_pressed = mobile_nav_set true
press_control theme_pressed = theme_toggled
