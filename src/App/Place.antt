-- ===== src/App/Place.antt =====
-- frontend/src/App.tsx: which events move the console to another tab, or open and shut the form for a
-- new mission.
use arka.Prelude.{◌≡◌, refl, Bool, false, Option, none, some, List, [], ◌∷◌, Text}
use arka.Types.Core.{Mission, ActionProposal, AuditRecord}
use arka.App.{App, NavDestination, set_if, load_missions, on_refreshed}
use arka.App.Events.{
  Event, load_started, loaded, load_failed, triggered, cleared, refreshed, audit_refreshed,
  approved, rejected, transitioned, mission_created, theme_toggled, mission_selected,
  mobile_nav_set, nav_selected, tab_opened, creating_set, notice_dismissed, settings_updated, apply,
}

-- Where the console is: its tab, and whether the form is open
abbrev pub place : App → NavDestination × Bool
place app = (app.current_tab, app.is_creating_mission)

-- What an event makes of it
abbrev pub moved : Event → NavDestination × Bool → NavDestination × Bool
moved (mission_created m) at = (NavDestination.missions, false)
moved (nav_selected tab) at = (tab, false)
moved (tab_opened tab) at = (tab, at.1)
moved (creating_set creating) at = (at.0, creating)
moved _ at = at

on_refreshed-place :
    (p : Option (List ActionProposal)) (a : Option (List AuditRecord)) (app : App)
    → place (on_refreshed p a app) ≡ place app
unfolding on_refreshed
on_refreshed-place none none app = refl
on_refreshed-place none (some a) app = refl
on_refreshed-place (some p) none app = refl
on_refreshed-place (some p) (some a) app = refl

load_missions-place :
    (captured : Text) (d : Option (List Mission)) (app : App)
    → place (set_if d (load_missions captured) app) ≡ place app
unfolding set_if load_missions
load_missions-place captured none app = refl
load_missions-place captured (some []) app = refl
load_missions-place captured (some (m ∷ ms)) app = refl

pub apply-place : (e : Event) (app : App) → place (apply e app) ≡ moved e (place app)
unfolding apply
apply-place (load_started dev connected) app = refl
apply-place (loaded d) app = load_missions-place d.captured_mission_id d.missions app
apply-place load_failed app = refl
apply-place (triggered reason status) app = refl
apply-place (cleared status) app = refl
apply-place (refreshed p a) app = on_refreshed-place p a app
apply-place (audit_refreshed none) app = refl
apply-place (audit_refreshed (some a)) app = refl
apply-place (approved id) app = refl
apply-place (rejected id) app = refl
apply-place (transitioned id target answer) app = refl
apply-place (mission_created m) app = refl
apply-place theme_toggled app = refl
apply-place (mission_selected id) app = refl
apply-place (mobile_nav_set is_open) app = refl
apply-place (nav_selected tab) app = refl
apply-place (tab_opened tab) app = refl
apply-place (creating_set creating) app = refl
apply-place notice_dismissed app = refl
apply-place (settings_updated s) app = refl
