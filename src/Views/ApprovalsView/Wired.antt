-- ===== src/Views/ApprovalsView/Wired.antt =====
-- The approvals page wired to the handlers of frontend/src/App.tsx.
use arka.Prelude.{◌≡◌, refl, false, Option, none, some, Text, trim, is_empty}
use arka.Types.Core.{Approval}
use arka.Client.{Client, Net}
use arka.Client.Endpoints.{Fixtures, Submitted, Rejected}
use arka.Client.Outcomes.{Offline}
use arka.App.{App}
use arka.App.Failure.{Silent, approve-Silent, reject-Silent}
use arka.App.Handlers.{
  Completion, resolved, rejected, World, RefreshNets, handle_approve, handle_reject,
}
use arka.Views.ApprovalsView.{
  Panel, Decision, on_approve, on_reject, selected_approval, confirm, refuse, submitting,
  handle_confirm_approval, handle_confirm_rejection, on_decided, on_decision_failed,
}

-- What the browser supplies to the calls of one decision
pub record DecisionNets : Type 0 where
  pub submit : Net Submitted
  pub reject : Net Rejected
  pub refresh : RefreshNets

module _ (fx : Fixtures) (n : DecisionNets) where
  callback : Decision → World → Completion × World
  callback (on_approve id hash) w = handle_approve fx id hash n.submit n.refresh w
  callback (on_reject id reason) w = handle_reject fx id reason n.reject n.refresh w

  -- The message of the rejection, an `AbortError`, is the browser's.
  finish : (message : Option Text) → Decision → Panel → Completion × World → Panel × World
  finish message c d (resolved, w) = (on_decided c d, w)
  finish message c d (rejected, w) = (on_decision_failed c message d, w)

  perform : (message : Option Text) → Panel × Option Decision → World → Panel × World
  unfolding callback finish
  perform message (d, none) w = (d, w)
  perform message (d, some c) w = finish message c d (callback c w)

  -- The two confirmations, from the press of the button to their end
  unfoldable pub confirm_approval : (message : Option Text) → Panel → World → Panel × World
  unfolding perform
  confirm_approval message d (app, c) =
      perform message (handle_confirm_approval app.approvals d) (app, c)

  unfoldable pub confirm_rejection : (message : Option Text) → Panel → World → Panel × World
  unfolding perform
  confirm_rejection message d (app, c) =
      perform message (handle_confirm_rejection app.approvals d) (app, c)

callback-Silent :
    (fx : Fixtures) (n : DecisionNets) (d : Decision) (app : App) (c : Client)
    → Offline n.submit
    → Offline n.reject
    → c.allow_mock_mutations ≡ false
    → Silent app (callback fx n d (app, c))
unfolding callback
callback-Silent fx n (on_approve id hash) app c off _ k =
    approve-Silent fx n.submit n.refresh id hash app c off k
callback-Silent fx n (on_reject id reason) app c _ off k =
    reject-Silent fx n.reject n.refresh id reason app c off k

-- The modal of a decision is closed.
abbrev pub Closed : Decision → Panel → Type 0
Closed (on_approve id hash) d = d.is_confirm_modal_open ≡ false
Closed (on_reject id reason) d = d.is_reject_modal_open ≡ false

-- The page as after a decision that has gone through, and the console as before it
abbrev pub LooksDecided : Decision → App → Panel × World → Type 0
LooksDecided e app out =
    Closed e out.0 × (out.0.is_submitting ≡ false) × (out.0.error_message ≡ none) × (out.1.0 ≡ app)

finish-LooksDecided :
    (fx : Fixtures) (n : DecisionNets) (message : Option Text) (e : Decision) (d : Panel)
    (app : App) (out : Completion × World)
    → d.error_message ≡ none
    → Silent app out
    → LooksDecided e app (finish fx n message e d out)
unfolding finish on_decided
finish-LooksDecided fx n message (on_approve id hash) d app (resolved, w) h (r, s) =
    (refl, refl, h, s)
finish-LooksDecided fx n message (on_reject id reason) d app (resolved, w) h (r, s) =
    (refl, refl, h, s)
finish-LooksDecided fx n message e d app (rejected, w) h (r, s) = cc

perform-LooksDecided :
    (fx : Fixtures) (n : DecisionNets) (message : Option Text) (e : Decision) (d : Panel)
    (app : App) (c : Client) (p : Panel × Option Decision)
    → p ≡ (submitting d, some e)
    → Offline n.submit
    → Offline n.reject
    → c.allow_mock_mutations ≡ false
    → LooksDecided e app (perform fx n message p (app, c))
unfolding perform
perform-LooksDecided fx n message e d app c p h off offr k = rw h (
    finish-LooksDecided fx n message e (submitting d) app _ refl
      (callback-Silent fx n e app c off offr k))

-- With no backend and mock mutations off, the confirmation of a selected approval, and its
-- rejection with a reason, end like those that went through: their modal is closed and there is no
-- error, while the console's state, the queue with that approval included, is what it was.
pub decisions-offline :
    (fx : Fixtures) (n : DecisionNets) (message : Option Text) (d : Panel) (a : Approval)
    (app : App) (c : Client)
    → selected_approval app.approvals d.selected_approval_id ≡ some a
    → is_empty (trim d.rejection_reason) ≡ false
    → Offline n.submit
    → Offline n.reject
    → c.allow_mock_mutations ≡ false
    → LooksDecided
        (on_approve a.approval_id a.action_hash)
        app
        (confirm_approval fx n message d (app, c))
      × LooksDecided
          (on_reject a.approval_id (trim d.rejection_reason))
          app
          (confirm_rejection fx n message d (app, c))
unfolding confirm_approval confirm_rejection handle_confirm_approval handle_confirm_rejection
    confirm refuse
decisions-offline fx n message d a app c e given off offr k = (
  perform-LooksDecided fx n message (on_approve a.approval_id a.action_hash) d app c _ (rw e) off
      offr k,
  perform-LooksDecided fx n message (on_reject a.approval_id (trim d.rejection_reason)) d app c _
      (rw (e, given)) off offr k,
)
