-- ===== src/App/Queue.antt =====
-- The approval queue and the mission list under the handlers.
use arka.Prelude.{
  ℕ, ◌≡◌, ◌≢◌, refl, ◌⊎◌, inl, inr, true, false, not, some, List, [], ◌∷◌, map, arith, Text,
  text_eq, text_eq_iff, text_eq_refl, All, All-map, filter-All, All-filter, find, find_sound,
  Bool-cases, Option, none,
}
use arka.Types.Core.{Mission, MissionState, Approval}
use arka.Client.Endpoints.{Transition}
use arka.App.{
  App, on_approved, on_rejected, on_transitioned, without_approval, set_mission_state,
  current_mission, handle_mission_created, set_if, load_missions,
}
use arka.App.Events.{
  Event, load_started, loaded, load_failed, triggered, cleared, refreshed, audit_refreshed,
  approved, rejected, transitioned, mission_created, theme_toggled, mission_selected,
  mobile_nav_set, nav_selected, tab_opened, creating_set, notice_dismissed, settings_updated, apply,
  run,
}

text_ne : (s t : Text) → text_eq s t ≡ false → s ≢ t
text_ne s t h e = cc (h, (text_eq_iff s t).1 e)

without_approval-absent :
    (id : Text) (xs : List Approval)
    → All (λ (a : Approval). a.approval_id ≢ id) (without_approval id xs)
unfolding without_approval
without_approval-absent id xs =
    All-map {P = λ (a : Approval). not (text_eq a.approval_id id) ≡ true}
      (λ (a : Approval) h. text_ne a.approval_id id (ground arith)) _
      (filter-All (λ (a : Approval). not (text_eq a.approval_id id)) xs)

-- The elements of `xs` that differ from those of `ys` only by dropping approvals with that id.
pub data Dropped (id : Text) : List Approval → List Approval → Type 0 where
  nil : Dropped id [] []
  keep :
      {a : Approval} {xs ys : List Approval}
      → a.approval_id ≢ id
      → Dropped id xs ys
      → Dropped id (a ∷ xs) (a ∷ ys)
  drop :
      {a : Approval} {xs ys : List Approval}
      → a.approval_id ≡ id
      → Dropped id xs ys
      → Dropped id (a ∷ xs) ys

without_approval-Dropped : (id : Text) (xs : List Approval) → Dropped id xs (without_approval id xs)
unfolding without_approval
without_approval-Dropped id [] = nil
without_approval-Dropped id (a ∷ xs) = elim (Bool-cases (text_eq a.approval_id id)) [
  | inl same ↦ rw same (drop ((text_eq_iff _ _).0 same) (without_approval-Dropped id xs))
  | inr other ↦ rw other (keep (text_ne _ _ other) (without_approval-Dropped id xs))
]

-- An approval or a rejection that the backend took drops exactly the approvals with that id and keeps
-- the others in order; no approval with that id is left.
pub decide-approvals :
    (id : Text) (app : App)
    → Dropped id app.approvals (on_approved id app).approvals
      × Dropped id app.approvals (on_rejected id app).approvals
      × All (λ (a : Approval). a.approval_id ≢ id) (on_approved id app).approvals
      × All (λ (a : Approval). a.approval_id ≢ id) (on_rejected id app).approvals
unfolding on_approved on_rejected
decide-approvals id app = (
  without_approval-Dropped id app.approvals,
  without_approval-Dropped id app.approvals,
  without_approval-absent id app.approvals,
  without_approval-absent id app.approvals,
)

-- No approval in the queue has that id.
abbrev pub Absent : Text → App → Type 0
Absent id app = All (λ (a : Approval). a.approval_id ≢ id) app.approvals

-- The event does not put a new queue in place.
abbrev pub KeepsQueue : Event → Type 0
KeepsQueue (loaded d) = d.approvals ≡ none
KeepsQueue _ = Unit

load_missions-approvals :
    (captured : Text) (d : Option (List Mission)) (app : App)
    → (set_if d (load_missions captured) app).approvals ≡ app.approvals
unfolding set_if load_missions
load_missions-approvals captured none app = refl
load_missions-approvals captured (some []) app = refl
load_missions-approvals captured (some (m ∷ ms)) app = refl

apply-Absent :
    (id : Text) (e : Event) (app : App) → KeepsQueue e → Absent id app → Absent id (apply e app)
unfolding apply without_approval
apply-Absent id (load_started dev connected) app k h = h
apply-Absent id (loaded d) app k h =
    rw (k, load_missions-approvals d.captured_mission_id d.missions app) h
apply-Absent id load_failed app k h = h
apply-Absent id (triggered reason status) app k h = h
apply-Absent id (cleared status) app k h = h
apply-Absent id (refreshed none none) app k h = h
apply-Absent id (refreshed none (some a)) app k h = h
apply-Absent id (refreshed (some p) none) app k h = h
apply-Absent id (refreshed (some p) (some a)) app k h = h
apply-Absent id (audit_refreshed none) app k h = h
apply-Absent id (audit_refreshed (some a)) app k h = h
apply-Absent id (approved j) app k h =
    All-filter (λ (a : Approval). a.approval_id ≢ id) _ app.approvals h
apply-Absent id (rejected j) app k h =
    All-filter (λ (a : Approval). a.approval_id ≢ id) _ app.approvals h
apply-Absent id (transitioned j target answer) app k h = h
apply-Absent id (mission_created m) app k h = h
apply-Absent id theme_toggled app k h = h
apply-Absent id (mission_selected j) app k h = h
apply-Absent id (mobile_nav_set is_open) app k h = h
apply-Absent id (nav_selected tab) app k h = h
apply-Absent id (tab_opened tab) app k h = h
apply-Absent id (creating_set creating) app k h = h
apply-Absent id notice_dismissed app k h = h
apply-Absent id (settings_updated s) app k h = h

run-Absent :
    (id : Text) (es : List Event) (app : App)
    → All KeepsQueue es
    → Absent id app
    → Absent id (run es app)
unfolding run
run-Absent id [] app keeps h = h
run-Absent id (e ∷ es) app (k, keeps) h =
    run-Absent id es (apply e app) keeps (apply-Absent id e app k h)

-- Once the backend took the approval or the rejection of an id, no approval with that id is in the
-- queue, whatever the handlers do and the operator presses, until a load answers with a queue, which
-- may be the sample one.
pub run-decided :
    (id : Text) (es : List Event) (app : App)
    → All KeepsQueue es
    → Absent id (run es (on_approved id app)) × Absent id (run es (on_rejected id app))
run-decided id es app keeps =
    let (_, _, approved_absent, rejected_absent) = decide-approvals id app in
    (
      run-Absent id es (on_approved id app) keeps approved_absent,
      run-Absent id es (on_rejected id app) keeps rejected_absent,
    )

-- A mission before and after a transition: only the one with that id changes, and only in its
-- state.
abbrev pub Moved : Text → MissionState → Mission → Mission → Type 0
Moved id state m m' = ((m.id ≡ id) × (m' ≡ record m { state = state })) ⊎ ((m.id ≢ id) × (m' ≡ m))

abbrev pub AllMoved : Text → MissionState → List Mission → List Mission → Type 0
AllMoved id state [] [] = Unit
AllMoved id state (m ∷ ms) (n ∷ ns) = Moved id state m n × AllMoved id state ms ns
AllMoved id state _ _ = ⊥

set_mission_state-Moved :
    (id : Text) (state : MissionState) (m : Mission)
    → Moved id state m (set_mission_state id state m)
unfolding set_mission_state
set_mission_state-Moved id state m = elim (Bool-cases (text_eq m.id id)) [
  | inl same ↦ rw same (inl ((text_eq_iff _ _).0 same, refl))
  | inr other ↦ rw other (inr (text_ne _ _ other, refl))
]

map-AllMoved :
    (id : Text) (state : MissionState) (ms : List Mission)
    → AllMoved id state ms (map (set_mission_state id state) ms)
map-AllMoved id state [] = tt
map-AllMoved id state (m ∷ ms) = (set_mission_state-Moved id state m, map-AllMoved id state ms)

-- The answer to a transition moves the missions with that id to the answered state, which may be
-- another than the one that was asked for, and leaves all others as they are.
pub on_transitioned-AllMoved :
    (id : Text) (target : MissionState) (answer : Transition) (app : App)
    → AllMoved id answer.state app.missions (on_transitioned id target answer app).missions
unfolding on_transitioned
on_transitioned-AllMoved id target answer app = map-AllMoved id answer.state app.missions

-- The mission in view is the selected one if a mission has that id, and else the first mission.
pub current_mission-selected :
    (now : ℕ) (operator : Text) (app : App) (m : Mission)
    → find (λ (x : Mission). text_eq x.id app.selected_mission_id) app.missions ≡ some m
    → (current_mission now operator app ≡ m) × (m.id ≡ app.selected_mission_id)
unfolding current_mission
current_mission-selected now operator app m e = (
  rw (e, current_mission),
  (text_eq_iff _ _).0
      (find_sound (λ (x : Mission). text_eq x.id app.selected_mission_id) app.missions e),
)

-- After a mission is created it is the one in view.
pub current_mission-created :
    (now : ℕ) (operator : Text) (app : App) (m : Mission)
    → current_mission now operator (handle_mission_created m app) ≡ m
unfolding current_mission handle_mission_created
current_mission-created now operator app m = rw (text_eq_refl m.id, current_mission)
