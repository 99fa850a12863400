-- ===== src/Views/EmergencyStopControl/Wired.antt =====
-- The dialog wired to the handlers of frontend/src/App.tsx, as `Header` passes them on.
use arka.Prelude.{◌≡◌, refl, ap, ◌∙◌, true, false, Option, none, some, Text, trim, is_empty}
use arka.Types.Core.{EmergencyStopStatus}
use arka.Client.{Client, Net}
use arka.Client.Endpoints.{Fixtures}
use arka.Client.Outcomes.{Offline}
use arka.App.{App}
use arka.App.Failure.{Silent, trigger-Silent, clear-Silent}
use arka.App.Handlers.{
  Completion, resolved, rejected, World, RefreshNets, handle_trigger_emergency_stop,
  handle_clear_emergency_stop,
}
use arka.Views.EmergencyStopControl.{
  Dialog, Call, on_trigger, on_clear, ModalMode, call_of, trigger, clear, handle_submit,
  on_submitted, on_submit_failed,
}
use arka.Views.EmergencyStopControl.Reachable.{handle_submit-given}

-- What the browser supplies to the calls of one submission
pub record HaltNets : Type 0 where
  pub stop : Net EmergencyStopStatus
  pub refresh : RefreshNets

module _ (fx : Fixtures) (n : HaltNets) where
  callback : Call → World → Completion × World
  callback (on_trigger reason) w = handle_trigger_emergency_stop fx reason n.stop n.refresh w
  callback (on_clear reason) w = handle_clear_emergency_stop fx reason n.stop n.refresh.audit w

  -- The message of the rejection, an `AbortError`, is the browser's.
  finish : (message : Option Text) → Dialog → Completion × World → Dialog × World
  finish message d (resolved, w) = (on_submitted d, w)
  finish message d (rejected, w) = (on_submit_failed message d, w)

  perform : (message : Option Text) → Dialog × Option Call → World → Dialog × World
  unfolding callback finish
  perform message (d, none) w = (d, w)
  perform message (d, some call) w = finish message d (callback call w)

  -- `handleSubmit`, from the press of the button to its end
  unfoldable pub submit : (message : Option Text) → Dialog → World → Dialog × World
  unfolding perform
  submit message d w = perform message (handle_submit d) w

callback-Silent :
    (fx : Fixtures) (n : HaltNets) (mode : ModalMode) (text : Text) (app : App) (c : Client)
    → Offline n.stop
    → c.allow_mock_mutations ≡ false
    → Silent app (callback fx n (call_of mode text) (app, c))
unfolding callback
callback-Silent fx n trigger text app c off k = trigger-Silent fx n.stop n.refresh text app c off k
callback-Silent fx n clear text app c off k =
    clear-Silent fx n.stop n.refresh.audit text app c off k

finish-resolved :
    (fx : Fixtures) (n : HaltNets) (message : Option Text) (d : Dialog) (out : Completion × World)
    → out.0 ≡ resolved
    → finish fx n message d out ≡ (on_submitted d, out.1)
unfolding finish
finish-resolved fx n message d (resolved, w) e = refl
finish-resolved fx n message d (rejected, w) e = cc

submit-resolved :
    (fx : Fixtures) (n : HaltNets) (message : Option Text) (d : Dialog) (w : World)
    → is_empty (trim d.reason) ≡ false
    → (callback fx n (call_of d.modal_mode (trim d.reason)) w).0 ≡ resolved
    → submit fx n message d w ≡ (
      on_submitted (record d { is_submitting = true; error = none }),
      (callback fx n (call_of d.modal_mode (trim d.reason)) w).1,
    )
unfolding submit perform
submit-resolved fx n message d w given done =
    ap (λ p. perform fx n message p w) (handle_submit-given d given)
    ∙ finish-resolved fx n message _ (callback fx n (call_of d.modal_mode (trim d.reason)) w) done

-- With no backend and mock mutations off, a submission with a reason ends like a successful one,
-- the dialog closed and with no error, while the console's emergency stop status is what it was.
pub submit-offline :
    (fx : Fixtures) (n : HaltNets) (message : Option Text) (d : Dialog) (app : App) (c : Client)
    → is_empty (trim d.reason) ≡ false
    → Offline n.stop
    → c.allow_mock_mutations ≡ false
    → ((submit fx n message d (app, c)).0.is_modal_open ≡ false)
      × ((submit fx n message d (app, c)).0.error ≡ none)
      × ((submit fx n message d (app, c)).1.0 ≡ app)
unfolding on_submitted
submit-offline fx n message d app c given off k =
    let (done, same) = callback-Silent fx n d.modal_mode (trim d.reason) app c off k in
    rw (submit-resolved fx n message d (app, c) given done) (refl, refl, same)
