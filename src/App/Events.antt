-- ===== src/App/Events.antt =====
-- frontend/src/App.tsx: everything that writes the console's state, as events.
use arka.Prelude.{Bool, false, Option, none, some, List, [], ◌∷◌, Text}
use arka.Types.Core.{Mission, MissionState, ActionProposal, EmergencyStopStatus, AuditRecord}
use arka.Types.Settings.{PlatformSettings}
use arka.Client.Endpoints.{Transition}
use arka.App.{
  App, NavDestination, Loaded, on_load_start, on_loaded, on_load_failed, on_triggered, on_cleared,
  on_refreshed, on_audit_refreshed, on_approved, on_rejected, on_transitioned,
  handle_mission_created, handle_toggle_theme,
}

-- Everything that writes the state, one event for each uninterrupted piece of a handler and one for
-- each callback that the views are given
pub data Event : Type 0 where
  load_started : (dev connected : Bool) → Event
  loaded : Loaded → Event
  load_failed : Event
  triggered : Text → EmergencyStopStatus → Event
  cleared : EmergencyStopStatus → Event
  refreshed : Option (List ActionProposal) → Option (List AuditRecord) → Event
  audit_refreshed : Option (List AuditRecord) → Event
  approved : Text → Event
  rejected : Text → Event
  transitioned : Text → MissionState → Transition → Event
  mission_created : Mission → Event
  theme_toggled : Event
  mission_selected : Text → Event
  mobile_nav_set : Bool → Event
  -- a tab of the side navigation, which also leaves the mission form
  nav_selected : NavDestination → Event
  -- a link of a view
  tab_opened : NavDestination → Event
  creating_set : Bool → Event
  notice_dismissed : Event
  settings_updated : PlatformSettings → Event

unfoldable pub apply : Event → App → App
unfolding on_load_start on_loaded on_load_failed on_triggered on_cleared on_refreshed
    on_audit_refreshed on_approved on_rejected on_transitioned handle_mission_created
    handle_toggle_theme
apply (load_started dev connected) app = on_load_start dev connected app
apply (loaded d) app = on_loaded d app
apply load_failed app = on_load_failed app
apply (triggered reason status) app = on_triggered reason status app
apply (cleared status) app = on_cleared status app
apply (refreshed new_proposals new_audit) app = on_refreshed new_proposals new_audit app
apply (audit_refreshed new_audit) app = on_audit_refreshed new_audit app
apply (approved id) app = on_approved id app
apply (rejected id) app = on_rejected id app
apply (transitioned id target answer) app = on_transitioned id target answer app
apply (mission_created m) app = handle_mission_created m app
apply theme_toggled app = handle_toggle_theme app
apply (mission_selected id) app = record app { selected_mission_id = id }
apply (mobile_nav_set is_open) app = record app { mobile_nav_open = is_open }
apply (nav_selected tab) app = record app { current_tab = tab; is_creating_mission = false }
apply (tab_opened tab) app = record app { current_tab = tab }
apply (creating_set creating) app = record app { is_creating_mission = creating }
apply notice_dismissed app = record app { banner_notice = none }
apply (settings_updated new_settings) app = record app { settings = some new_settings }

unfoldable pub run : List Event → App → App
unfolding apply
run [] app = app
run (e ∷ es) app = run es (apply e app)
