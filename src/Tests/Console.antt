-- ===== src/Tests/Console.antt =====
-- The theorems on the console's state at concrete states and handlers.
use arka.Prelude.{◌≡◌, ◌≢◌, All, refl, none, some, List, [], ◌∷◌, codes}
use arka.Types.Core.{MissionState, Approval}
use arka.App.{initial_app, on_approved, on_rejected}
use arka.App.Events.{Event, triggered, refreshed, theme_toggled, approved, run}
use arka.App.EmergencyStop.{register, run-register}
use arka.App.Queue.{Dropped, Absent, decide-approvals, run-decided}
use arka.App.Handlers.{
  handle_trigger_emergency_stop, handle_clear_emergency_stop, handle_approve, handle_reject,
  handle_transition_mission,
}
use arka.App.Failure.{HandlerNets, HandlersOffline, Silent, handlers_fail_silently}
use arka.Tests.{console, offline, halted, fixtures, app, backend}

abbrev events : List Event
events =
    triggered (codes "leak") halted
    ∷ theme_toggled
    ∷ refreshed (some []) none
    ∷ approved (codes "a1")
    ∷ []

run-register_example :
    (run events initial_app).emergency_stop_status
    ≡ register events initial_app.emergency_stop_status
run-register_example = run-register events initial_app

abbrev nets : HandlerNets
nets = record {
  stop = offline;
  submit = offline;
  reject = offline;
  transition = offline;
  refresh = record { proposals = backend []; audit = backend [] };
}

abbrev nets-HandlersOffline : HandlersOffline nets
nets-HandlersOffline = record {
  stop = λ r. refl;
  submit = λ r. refl;
  reject = λ r. refl;
  transition = λ r. refl;
}

handlers_fail_silently_example :
    Silent app
      (handle_trigger_emergency_stop fixtures (codes "h") nets.stop nets.refresh (app, console))
    × Silent app (
        handle_clear_emergency_stop fixtures
          (codes "h")
          nets.stop
          nets.refresh.audit
          (app, console))
    × Silent app
        (handle_approve fixtures (codes "a1") (codes "h") nets.submit nets.refresh (app, console))
    × Silent app
        (handle_reject fixtures (codes "a1") (codes "h") nets.reject nets.refresh (app, console))
    × Silent app
        (handle_transition_mission (codes "a1") MissionState.active nets.transition (app, console))
handlers_fail_silently_example =
    handlers_fail_silently fixtures nets app console (codes "a1") (codes "h") MissionState.active
      nets-HandlersOffline refl

decide-approvals_example :
    Dropped (codes "a1") app.approvals (on_approved (codes "a1") app).approvals
    × Dropped (codes "a1") app.approvals (on_rejected (codes "a1") app).approvals
    × All (λ (a : Approval). a.approval_id ≢ codes "a1") (on_approved (codes "a1") app).approvals
    × All (λ (a : Approval). a.approval_id ≢ codes "a1") (on_rejected (codes "a1") app).approvals
decide-approvals_example = decide-approvals (codes "a1") app

run-decided_example :
    Absent (codes "a1") (run events (on_approved (codes "a1") app))
    × Absent (codes "a1") (run events (on_rejected (codes "a1") app))
run-decided_example = run-decided (codes "a1") events app (tt, (tt, (tt, (tt, tt))))
