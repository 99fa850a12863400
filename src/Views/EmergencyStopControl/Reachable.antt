-- ===== src/Views/EmergencyStopControl/Reachable.antt =====
-- The dialog under everything that its buttons allow.
use arka.Prelude.{
  is_empty-ne, ◌≡◌, ◌≢◌, refl, ap, Bool, true, false, Option, none, some, Text, [], trim, is_empty,
  arith, Bool-cases, inl, inr, sym, subst, ◌∙◌,
}
use arka.Views.EmergencyStopControl.{
  ModalMode, trigger, clear, Dialog, initial_dialog, Call, on_trigger, on_clear, call_of,
  handle_open_trigger, handle_open_clear, handle_submit, on_submitted, on_submit_failed,
  handle_close,
}

-- The dialog and the callback that it awaits.
pub record Session : Type 0 where
  pub dialog : Dialog
  pub awaited : Option Call

abbrev pub start : Session
start = record { dialog = initial_dialog; awaited = none }

-- What can happen, `active` being the status that the control is given. The modal covers the two
-- buttons but does not hold the focus, so the keyboard reaches them at any time, also while a call is
-- awaited; `disabled` controls do nothing.
pub data Step : Session → Session → Type 0 where
  press_halt :
      (s : Session) (active : Bool)
      → active ≡ false
      → Step s (record s { dialog = handle_open_trigger s.dialog })
  press_resume :
      (s : Session) (active : Bool)
      → active ≡ true
      → Step s (record s { dialog = handle_open_clear s.dialog })
  type_reason :
      (s : Session) (text : Text)
      → s.dialog.is_modal_open ≡ true
      → s.dialog.is_submitting ≡ false
      → Step s (record s { dialog = record s.dialog { reason = text } })
  press_cancel :
      (s : Session)
      → s.dialog.is_modal_open ≡ true
      → s.dialog.is_submitting ≡ false
      → Step s (record s { dialog = record s.dialog { is_modal_open = false } })
  press_escape : (s : Session) → Step s (record s { dialog = handle_close s.dialog })
  refuse :
      (s : Session)
      → s.dialog.is_modal_open ≡ true
      → s.dialog.is_submitting ≡ false
      → (handle_submit s.dialog).1 ≡ none
      → Step s (record s { dialog = (handle_submit s.dialog).0 })
  submit :
      (s : Session) (call : Call)
      → s.dialog.is_modal_open ≡ true
      → s.dialog.is_submitting ≡ false
      → (handle_submit s.dialog).1 ≡ some call
      → Step s (record { dialog = (handle_submit s.dialog).0; awaited = some call })
  resolve :
      (s : Session) (call : Call)
      → s.awaited ≡ some call
      → Step s (record { dialog = on_submitted s.dialog; awaited = none })
  reject :
      (s : Session) (call : Call) (message : Option Text)
      → s.awaited ≡ some call
      → Step s (record { dialog = on_submit_failed message s.dialog; awaited = none })

pub data Reach (s : Session) : Session → Type 0 where
  here : Reach s s
  next : {t u : Session} → Reach s t → Step t u → Reach s u

-- The text of a call.
abbrev pub text_of : Call → Text
text_of (on_trigger t) = t
text_of (on_clear t) = t

-- A text without the white space around it, and not empty
abbrev pub IsTrimmed : Text → Type 0
IsTrimmed text = (reason : Text) × (text ≡ trim reason) × (text ≢ [])

-- While a call is awaited, the dialog is open and submitting, and the call carries a trimmed reason
-- that is not empty.
abbrev pub Awaits : Option Call → Dialog → Type 0
Awaits none d = d.is_submitting ≡ false
Awaits (some call) d =
    (d.is_submitting ≡ true) × (d.is_modal_open ≡ true) × IsTrimmed (text_of call)

abbrev pub IsValid : Session → Type 0
IsValid s = Awaits s.awaited s.dialog

idle : (o : Option Call) (d : Dialog) → Awaits o d → d.is_submitting ≡ false → o ≡ none
idle none d v h = refl
idle (some call) d v h = cc (v.0, h)

-- A press of one of the two buttons, whatever the dialog is doing, resets what it shows and leaves
-- the awaited call as it is.
open-Awaits :
    (o : Option Call) (d e : Dialog)
    → e.is_submitting ≡ d.is_submitting
    → e.is_modal_open ≡ true
    → Awaits o d
    → Awaits o e
open-Awaits none d e same up v = rw same v
open-Awaits (some call) d e same up v = (rw same v.0, up, v.2)

pub handle_submit-blank :
    (d : Dialog) → is_empty (trim d.reason) ≡ true → (handle_submit d).1 ≡ none
unfolding handle_submit
handle_submit-blank d b = rw b

pub handle_submit-given :
    (d : Dialog)
    → is_empty (trim d.reason) ≡ false
    → handle_submit d ≡ (
      record d { is_submitting = true; error = none },
      some (call_of d.modal_mode (trim d.reason)),
    )
unfolding handle_submit
handle_submit-given d g = rw g

text_of-call_of : (mode : ModalMode) (text : Text) → text_of (call_of mode text) ≡ text
text_of-call_of trigger text = refl
text_of-call_of clear text = refl

call_of-IsTrimmed :
    (d : Dialog)
    → is_empty (trim d.reason) ≡ false
    → IsTrimmed (text_of (call_of d.modal_mode (trim d.reason)))
call_of-IsTrimmed d given =
    let same = text_of-call_of d.modal_mode (trim d.reason) in
    (d.reason, same, λ e. is_empty-ne (trim d.reason) given (sym same ∙ e))

submit-Awaits :
    (d : Dialog) (call : Call)
    → d.is_modal_open ≡ true
    → (handle_submit d).1 ≡ some call
    → Awaits (some call) (handle_submit d).0
submit-Awaits d call o e = elim (Bool-cases (is_empty (trim d.reason))) [
  | inl blank ↦ cc (handle_submit-blank d blank, e)
  | inr given ↦
      let same : call_of d.modal_mode (trim d.reason) ≡ call =
        cc (ap (λ p. p.1) (handle_submit-given d given), e) in
      rw (handle_submit-given d given)
        (refl, o, subst (λ x. IsTrimmed (text_of x)) same (call_of-IsTrimmed d given))
]

close-Awaits : (o : Option Call) (d : Dialog) → Awaits o d → Awaits o (handle_close d)
unfolding handle_close
close-Awaits none d v = rw v
close-Awaits (some call) d v = rw (v.0) (refl, v.1, v.2)

refuse-idle :
    (d : Dialog)
    → d.is_submitting ≡ false
    → (handle_submit d).1 ≡ none
    → (handle_submit d).0.is_submitting ≡ false
unfolding handle_submit
refuse-idle d b e = ground arith

Step-IsValid : {s t : Session} → Step s t → IsValid s → IsValid t
unfolding handle_open_trigger handle_open_clear on_submitted on_submit_failed
Step-IsValid (press_halt s active a) v = open-Awaits s.awaited s.dialog _ refl refl v
Step-IsValid (press_resume s active a) v = open-Awaits s.awaited s.dialog _ refl refl v
Step-IsValid (type_reason s text o b) v = rw (idle s.awaited s.dialog v b) b
Step-IsValid (press_cancel s o b) v = rw (idle s.awaited s.dialog v b) b
Step-IsValid (press_escape s) v = close-Awaits s.awaited s.dialog v
Step-IsValid (refuse s o b e) v = rw (idle s.awaited s.dialog v b) (refuse-idle s.dialog b e)
Step-IsValid (submit s call o b e) v = submit-Awaits s.dialog call o e
Step-IsValid (resolve s call e) v = refl
Step-IsValid (reject s call message e) v = refl

-- Whatever the operator does, presses of HALT and RESUME by the keyboard during a submission
-- included, an awaited call carries a trimmed reason that is not empty, and the dialog is open and
-- submitting; with no awaited call the dialog is not submitting.
pub Reach-IsValid : {s : Session} → Reach start s → IsValid s
Reach-IsValid here = refl
Reach-IsValid (next r st) = Step-IsValid st (Reach-IsValid r)
