-- ===== src/App/EmergencyStop.antt =====
-- The emergency stop status over any interleaving of handlers.
use arka.Prelude.{◌≡◌, refl, ap, ◌∙◌, true, Option, none, some, List, [], ◌∷◌, Text, All, or_else}
use arka.Types.Core.{EmergencyStopStatus, Mission, ActionProposal, AuditRecord}
use arka.App.{App, set_if, load_missions, on_refreshed}
use arka.App.Events.{
  Event, load_started, loaded, load_failed, triggered, cleared, refreshed, audit_refreshed,
  approved, rejected, transitioned, mission_created, theme_toggled, mission_selected,
  mobile_nav_set, nav_selected, tab_opened, creating_set, notice_dismissed, settings_updated, apply,
  run,
}

-- The emergency stop as a register: what an event writes to it.
abbrev pub written : Event → EmergencyStopStatus → EmergencyStopStatus
written (loaded d) status = or_else d.emergency_stop status
written (triggered reason answer) status = answer
written (cleared answer) status = answer
written _ status = status

abbrev pub register : List Event → EmergencyStopStatus → EmergencyStopStatus
register [] status = status
register (e ∷ es) status = register es (written e status)

on_refreshed-status :
    (p : Option (List ActionProposal)) (a : Option (List AuditRecord)) (app : App)
    → (on_refreshed p a app).emergency_stop_status ≡ app.emergency_stop_status
unfolding on_refreshed
on_refreshed-status none none app = refl
on_refreshed-status none (some a) app = refl
on_refreshed-status (some p) none app = refl
on_refreshed-status (some p) (some a) app = refl

load_missions-status :
    (captured : Text) (d : Option (List Mission)) (app : App)
    → (set_if d (load_missions captured) app).emergency_stop_status ≡ app.emergency_stop_status
unfolding set_if load_missions
load_missions-status captured none app = refl
load_missions-status captured (some []) app = refl
load_missions-status captured (some (m ∷ ms)) app = refl

apply-status :
    (e : Event) (app : App)
    → (apply e app).emergency_stop_status ≡ written e app.emergency_stop_status
unfolding apply
apply-status (load_started dev connected) app = refl
apply-status (loaded d) app =
    ap (or_else d.emergency_stop) (load_missions-status d.captured_mission_id d.missions app)
apply-status load_failed app = refl
apply-status (triggered reason status) app = refl
apply-status (cleared status) app = refl
apply-status (refreshed p a) app = on_refreshed-status p a app
apply-status (audit_refreshed none) app = refl
apply-status (audit_refreshed (some a)) app = refl
apply-status (approved id) app = refl
apply-status (rejected id) app = refl
apply-status (transitioned id target answer) app = refl
apply-status (mission_created m) app = refl
apply-status theme_toggled app = refl
apply-status (mission_selected id) app = refl
apply-status (mobile_nav_set is_open) app = refl
apply-status (nav_selected tab) app = refl
apply-status (tab_opened tab) app = refl
apply-status (creating_set creating) app = refl
apply-status notice_dismissed app = refl
apply-status (settings_updated s) app = refl

-- Whatever handlers interleave, the emergency stop status is a register that only the answers to
-- the first load, to a trigger and to a clear write.
pub run-register :
    (es : List Event) (app : App)
    → (run es app).emergency_stop_status ≡ register es app.emergency_stop_status
unfolding run
run-register [] app = refl
run-register (e ∷ es) app = run-register es (apply e app) ∙ ap (register es) (apply-status e app)

abbrev pub SaysActive : Option EmergencyStopStatus → Type 0
SaysActive none = Unit
SaysActive (some status) = status.active ≡ true

-- The event brings no inactive status.
abbrev pub KeepsStop : Event → Type 0
KeepsStop (loaded d) = SaysActive d.emergency_stop
KeepsStop (triggered reason answer) = answer.active ≡ true
KeepsStop (cleared answer) = answer.active ≡ true
KeepsStop _ = Unit

or_else-active :
    (o : Option EmergencyStopStatus) (status : EmergencyStopStatus)
    → SaysActive o
    → status.active ≡ true
    → (or_else o status).active ≡ true
or_else-active none status k h = h
or_else-active (some answer) status k h = k

written-active :
    (e : Event) (status : EmergencyStopStatus)
    → KeepsStop e
    → status.active ≡ true
    → (written e status).active ≡ true
written-active (loaded d) status k h = or_else-active d.emergency_stop status k h
written-active (triggered reason answer) status k h = k
written-active (cleared answer) status k h = k
written-active _ status k h = h

register-active :
    (es : List Event) (status : EmergencyStopStatus)
    → All KeepsStop es
    → status.active ≡ true
    → (register es status).active ≡ true
register-active [] status keeps h = h
register-active (e ∷ es) status (k, keeps) h =
    register-active es (written e status) keeps (written-active e status k h)

-- An engaged stop stays engaged until a status that says that it is inactive is taken over.
pub run-active :
    (es : List Event) (app : App)
    → All KeepsStop es
    → app.emergency_stop_status.active ≡ true
    → (run es app).emergency_stop_status.active ≡ true
run-active es app keeps h =
    rw (run-register es app) (register-active es app.emergency_stop_status keeps h)
