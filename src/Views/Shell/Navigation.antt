-- ===== src/Views/Shell/Navigation.antt =====
-- frontend/src/App.tsx: the form for a new mission and the tab that it stands in.
use arka.Prelude.{
  ◌≡◌, ◌≢◌, refl, sym, subst, ap, ◌∙◌, ◌⊎◌, inl, inr, true, false, Bool, List, [], ◌∷◌,
}
use arka.App.{App, NavDestination, initial_app}
use arka.App.Place.{place, moved, apply-place}
use arka.App.Events.{
  Event, load_started, loaded, load_failed, triggered, cleared, refreshed, audit_refreshed,
  approved, rejected, transitioned, mission_created, theme_toggled, mission_selected,
  mobile_nav_set, nav_selected, tab_opened, creating_set, notice_dismissed, settings_updated, apply,
  run,
}
use arka.Views.Shell.{View, active_view, view_of, mission_creation_view, missions_list_view}

-- The controls of the views: the form has no link to a tab, and only the list of the missions opens
-- the form.
abbrev pub Offers : View → Event → Type 0
Offers view (tab_opened tab) = view ≢ mission_creation_view
Offers view (creating_set true) = view ≡ missions_list_view
Offers view _ = Unit

abbrev pub OffersAll : List Event → App → Type 0
OffersAll [] app = Unit
OffersAll (e ∷ es) app = Offers (active_view app) e × OffersAll es (apply e app)

-- The form is shut, or the tab is that of the missions.
abbrev AtHome : NavDestination × Bool → Type 0
AtHome (tab, creating) = (creating ≡ false) ⊎ (tab ≡ NavDestination.missions)

-- The tab that a view stands in, which is that of the missions for the list of them
only_tab :
    (creating : Bool) (tab : NavDestination)
    → view_of creating tab ≡ missions_list_view
    → tab ≡ NavDestination.missions
unfolding view_of
only_tab creating NavDestination.missions h = refl
only_tab creating NavDestination.overview h = cc
only_tab creating NavDestination.attack_surface h = cc
only_tab creating NavDestination.proposals h = cc
only_tab creating NavDestination.approvals h = cc
only_tab creating NavDestination.agents h = cc
only_tab creating NavDestination.evidence h = cc
only_tab creating NavDestination.findings h = cc
only_tab creating NavDestination.findings_trace h = cc
only_tab creating NavDestination.reports h = cc
only_tab creating NavDestination.audit h = cc
only_tab creating NavDestination.settings h = cc

moved-AtHome :
    (e : Event) (creating : Bool) (tab : NavDestination)
    → Offers (view_of creating tab) e
    → AtHome (tab, creating)
    → AtHome (moved e (tab, creating))
unfolding view_of
moved-AtHome (mission_created m) creating tab o h = inl refl
moved-AtHome (nav_selected t) creating tab o h = inl refl
moved-AtHome (tab_opened t) creating tab o (inl h) = inl h
moved-AtHome (tab_opened t) false tab o (inr h) = inl refl
moved-AtHome (tab_opened t) true tab o (inr h) = absurd (o (ap (view_of true) h))
moved-AtHome (creating_set false) creating tab o h = inl refl
moved-AtHome (creating_set true) creating tab o h = inr (only_tab creating tab o)
moved-AtHome (load_started dev connected) creating tab o h = h
moved-AtHome (loaded d) creating tab o h = h
moved-AtHome load_failed creating tab o h = h
moved-AtHome (triggered reason status) creating tab o h = h
moved-AtHome (cleared status) creating tab o h = h
moved-AtHome (refreshed p a) creating tab o h = h
moved-AtHome (audit_refreshed a) creating tab o h = h
moved-AtHome (approved id) creating tab o h = h
moved-AtHome (rejected id) creating tab o h = h
moved-AtHome (transitioned id target answer) creating tab o h = h
moved-AtHome theme_toggled creating tab o h = h
moved-AtHome (mission_selected id) creating tab o h = h
moved-AtHome (mobile_nav_set is_open) creating tab o h = h
moved-AtHome notice_dismissed creating tab o h = h
moved-AtHome (settings_updated s) creating tab o h = h

run-AtHome :
    (es : List Event) (app : App)
    → OffersAll es app
    → AtHome (place app)
    → AtHome (place (run es app))
unfolding run active_view
run-AtHome [] app o h = h
run-AtHome (e ∷ es) app (o, os) h = run-AtHome es (apply e app) os (
    subst AtHome (sym (apply-place e app))
      (moved-AtHome e app.is_creating_mission app.current_tab o h))

-- Whatever the handlers answer and the operator presses, in any order, the form for a new mission is
-- open on the tab of the missions only.
pub run-creating :
    (es : List Event)
    → OffersAll es initial_app
    → (run es initial_app).is_creating_mission ≡ true
    → (run es initial_app).current_tab ≡ NavDestination.missions
run-creating es o creating = elim (run-AtHome es initial_app o (inl refl)) [
  | inl shut ↦ let clash : true ≡ false = sym creating ∙ shut in cc
  | inr home ↦ home
]
