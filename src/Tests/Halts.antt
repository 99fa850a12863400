-- ===== src/Tests/Halts.antt =====
-- The theorems on the emergency stop dialog at concrete sessions.
use arka.Prelude.{◌≡◌, refl, true, false, none, some, codes, trim, [], ◌∷◌}
use arka.Views.EmergencyStopControl.{on_trigger, handle_open_trigger, handle_submit}
use arka.Views.EmergencyStopControl.Reachable.{
  Session, start, Reach, here, next, Step, IsValid, Reach-IsValid,
}
use arka.Views.EmergencyStopControl.Wired.{HaltNets, submit, submit-offline}
use arka.Views.SideNav.{initial_halt_dialog, handle_confirm_halt, has_halt_button, confirm_disabled}
use arka.Views.SideNav.Halted as SideNav
use arka.Tests.{console, offline, fixtures, app, backend}

-- The operator opens the dialog, gives a reason and submits it.
abbrev opened : Session
opened = record start { dialog = handle_open_trigger start.dialog }

abbrev filled : Session
filled = record opened { dialog = record opened.dialog { reason = codes " leak " } }

abbrev sent : Session
sent = record {
  dialog = (handle_submit filled.dialog).0;
  awaited = some (on_trigger (codes "leak"));
}

sent-reached : Reach start sent
unfolding handle_open_trigger handle_submit trim
sent-reached =
    next
      (next (next here (Step.press_halt start false refl))
        (Step.type_reason opened (codes " leak ") refl refl))
      (Step.submit filled (on_trigger (codes "leak")) refl refl refl)

Reach-IsValid_example : IsValid sent
Reach-IsValid_example = Reach-IsValid sent-reached

abbrev halt_nets : HaltNets
halt_nets = record {
  stop = offline;
  refresh = record { proposals = backend []; audit = backend [] };
}

submit-offline_example :
    ((submit fixtures halt_nets none filled.dialog (app, console)).0.is_modal_open ≡ false)
    × ((submit fixtures halt_nets none filled.dialog (app, console)).0.error ≡ none)
    × ((submit fixtures halt_nets none filled.dialog (app, console)).1.0 ≡ app)
unfolding handle_open_trigger trim
submit-offline_example =
    submit-offline fixtures halt_nets none filled.dialog app console refl (λ r. refl) refl

-- The same from the sidebar, with the reason that its dialog starts with.
abbrev halting : SideNav.Session
halting = record (SideNav.start false) {
  dialog = record initial_halt_dialog { show_halt_modal = true };
}

abbrev engaged : SideNav.Session
engaged = record halting {
  dialog = (handle_confirm_halt true halting.dialog).0;
  awaited = halting.dialog.halt_reason ∷ [];
}

engaged-reached : SideNav.Reach (SideNav.start false) engaged
unfolding handle_confirm_halt has_halt_button confirm_disabled trim
engaged-reached =
    SideNav.next (SideNav.next SideNav.here (SideNav.Step.press_halt (SideNav.start false) refl))
      (SideNav.Step.press_engage halting halting.dialog.halt_reason refl refl refl)

Reach-Halting_example : SideNav.Halting engaged.awaited engaged.dialog.is_submitting_halt
Reach-Halting_example = SideNav.Reach-Halting engaged-reached
