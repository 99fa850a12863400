-- ===== src/Views/MissionsListView/Console.antt =====
-- frontend/src/components/missions/MissionsListView.tsx in App.tsx: its buttons on the console.
use arka.Prelude.{true, List, [], ◌∷◌, ◌≡◌, ◌≢◌, ◌⊎◌, All, inl, inr, Text}
use arka.Types.Core.{Mission, MissionState, EmergencyStopStatus}
use arka.App.{App}
use arka.App.Events.{Event, run}
use arka.App.EmergencyStop.{KeepsStop, run-active}
use arka.Views.MissionsListView.{ActionButton, operator_actions, shown_if}

-- No enabled button of the table asks to make a mission active.
pub Halted : App → Type 0
Halted app =
    All
      (λ (m : Mission).
        All (λ (b : ActionButton). (b.disabled ≡ true) ⊎ (b.target ≢ MissionState.active))
          (operator_actions app.emergency_stop_status m.state))
      app.missions

operator_actions-Halted :
    (stop : EmergencyStopStatus) (s : MissionState)
    → stop.active ≡ true
    → All
        (λ (b : ActionButton). (b.disabled ≡ true) ⊎ (b.target ≢ MissionState.active))
        (operator_actions stop s)
unfolding operator_actions shown_if
operator_actions-Halted stop MissionState.created h = (inl h, (inr (λ q. cc), tt))
operator_actions-Halted stop MissionState.active h = (inr (λ q. cc), (inr (λ q. cc), tt))
operator_actions-Halted stop MissionState.paused h = (inl h, (inr (λ q. cc), tt))
operator_actions-Halted stop MissionState.completed h = tt
operator_actions-Halted stop MissionState.terminated h = tt

missions-Halted :
    (stop : EmergencyStopStatus) (ms : List Mission)
    → stop.active ≡ true
    → All
        (λ (m : Mission).
          All
            (λ (b : ActionButton). (b.disabled ≡ true) ⊎ (b.target ≢ MissionState.active))
            (operator_actions stop m.state))
        ms
missions-Halted stop [] h = tt
missions-Halted stop (m ∷ ms) h =
    (operator_actions-Halted stop m.state h, missions-Halted stop ms h)

-- Once the emergency stop is active, no enabled button of the missions table asks for ACTIVE, whatever
-- happens on the console, until a status that says that the stop is inactive is taken over: an answer
-- of the backend, or the sample status of an offline load in development mode.
pub run-Halted :
    (es : List Event) (app : App)
    → All KeepsStop es
    → app.emergency_stop_status.active ≡ true
    → Halted (run es app)
unfolding Halted
run-Halted es app keeps h =
    missions-Halted (run es app).emergency_stop_status (run es app).missions
      (run-active es app keeps h)

-- Every mission with that id has the state.
pub HasState : Text → MissionState → List Mission → Type 0
HasState id t = All (λ (m : Mission). (m.id ≢ id) ⊎ (m.state ≡ t))
