-- ===== src/Tests/Approvals.antt =====
-- The theorems on the approval panel at a concrete queue.
use arka.Prelude.{refl, true, false, none, [], ◌∷◌, codes, trim}
use arka.Views.ApprovalsView.{
  Panel, initial_panel, on_approve, on_reject, selected_approval, open_confirm,
  handle_confirm_approval, handle_confirm_rejection,
}
use arka.Views.ApprovalsView.Bound.{Whenever, IsBound, confirmations-IsBound}
use arka.Views.ApprovalsView.Decided.{
  Session, start, Reach, here, next, Step, IsValid, Reach-Awaits,
}
use arka.Views.ApprovalsView.Wired.{
  DecisionNets, LooksDecided, confirm_approval, confirm_rejection, decisions-offline,
}
use arka.Views.Chosen.{first_key}
use arka.Tests.{approval, app, console, fixtures, offline, backend}

abbrev deciding : Panel
deciding = record {
  selected_approval_id = codes "a2";
  is_confirm_modal_open = true;
  is_reject_modal_open = false;
  rejection_reason = codes "scope";
  is_submitting = false;
  error_message = none;
}

confirmations-IsBound_example :
    Whenever (IsBound app.approvals) (handle_confirm_approval app.approvals deciding).1
    × Whenever (IsBound app.approvals) (handle_confirm_rejection app.approvals deciding).1
confirmations-IsBound_example = confirmations-IsBound app.approvals deciding

-- The operator opens the first approval's dialog and authorizes it.
abbrev opened : Session
opened = record (start app.approvals) { panel = open_confirm (initial_panel app.approvals) }

abbrev authorized : Session
authorized = record opened {
  panel = (handle_confirm_approval app.approvals opened.panel).0;
  awaited = on_approve (codes "a1") (codes "h") ∷ [];
}

authorized-reached : Reach (start app.approvals) authorized
unfolding open_confirm initial_panel handle_confirm_approval selected_approval first_key
authorized-reached =
    next (next here (Step.press_sign (start app.approvals)))
      (Step.press_authorize opened (on_approve (codes "a1") (codes "h")) refl refl refl)

Reach-Awaits_example : IsValid authorized
Reach-Awaits_example = Reach-Awaits authorized-reached

abbrev decision_nets : DecisionNets
decision_nets = record {
  submit = offline;
  reject = offline;
  refresh = record { proposals = backend []; audit = backend [] };
}

decisions-offline_example :
    LooksDecided
      (on_approve (codes "a2") (codes "h"))
      app
      (confirm_approval fixtures decision_nets none deciding (app, console))
    × LooksDecided
        (on_reject (codes "a2") (codes "scope"))
        app
        (confirm_rejection fixtures decision_nets none deciding (app, console))
unfolding selected_approval trim
decisions-offline_example =
    decisions-offline fixtures decision_nets none deciding (approval (codes "a2")) app console refl
      refl (λ r. refl) (λ r. refl) refl
