-- ===== src/Tests/Views.antt =====
-- The theorems on the missions table, the overview, the audit page and the countdown at concrete
-- states.
use arka.Prelude.{
  ◌/◌, ◌-◌, ◌≤◌, ◌<◌, ◌≡◌, ◌⊎◌, ◌↔◌, refl, false, some, List, [], ◌∷◌, codes, length, to_string,
}
use arka.Types.Core.{MissionState}
use arka.Client.Endpoints.{Transition}
use arka.App.{App}
use arka.App.Events.{Event, triggered, theme_toggled, run}
use arka.App.Handlers.{handle_verify_chain}
use arka.Formatting.{format_countdown}
use arka.Formatting.Countdown.{read_countdown, format_countdown_lem}
use arka.Views.MissionsListView.Transitions.{Offers, Asked, Offers-Asked_iff}
use arka.Views.MissionsListView.Console.{Halted, run-Halted}
use arka.Views.AuditView.{initial_state, start_verify, finish_verify, audit_view, verified_badge}
use arka.Views.AuditView.Verified.{handle_verify-offline}
use arka.Tests.{console, halted, app, offline}

format_countdown_lem_example :
    ((400 ≤ 309_000 / 1000) × (format_countdown 309_000 400 ≡ codes "EXPIRED"))
    ⊎ ((309_000 / 1000 < 400)
        × (read_countdown (format_countdown 309_000 400) ≡ some (400 - 309_000 / 1000)))
format_countdown_lem_example = format_countdown_lem 309_000 400

Offers-Asked_iff_example :
    Offers halted MissionState.paused MissionState.completed
    ↔ Asked halted MissionState.paused MissionState.completed
Offers-Asked_iff_example = Offers-Asked_iff halted MissionState.paused MissionState.completed

abbrev events : List Event
events = triggered (codes "leak") halted ∷ theme_toggled ∷ []

run-Halted_example : Halted (run events app)
run-Halted_example = run-Halted events app (refl, (tt, tt)) refl

-- The launch of a mission on a console without an emergency stop.
abbrev running : App
running = record app { emergency_stop_status = record halted { active = false } }

abbrev answer : Transition
answer = record { id = codes "m1"; state = MissionState.active }

handle_verify-offline_example :
    (audit_view to_string app.audit_records (
      finish_verify
        (handle_verify_chain offline (app, console)).0
        (start_verify (initial_state app.audit_records)))).status
    ≡ verified_badge (length app.audit_records)
handle_verify-offline_example =
    handle_verify-offline offline app console to_string (initial_state app.audit_records)
      (λ r. refl) refl
