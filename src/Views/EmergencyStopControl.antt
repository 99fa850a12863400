-- ===== src/Views/EmergencyStopControl.antt =====
-- frontend/src/components/layout/EmergencyStopControl.tsx: the dialog that triggers and clears the
-- emergency stop. A submission is the piece before the awaited callback, and one of two after it.
pub mod Reachable
pub mod Wired
use arka.Prelude.{
  [], Bool, true, false, not, Option, none, some, Text, codes, trim, is_empty, if◌then◌else◌, ◌≡◌,
  or_else,
}

pub data ModalMode : Type 0 where
  trigger clear : ModalMode

pub record Dialog : Type 0 where
  pub is_modal_open : Bool
  pub modal_mode : ModalMode
  pub reason : Text
  pub is_submitting : Bool
  pub error : Option Text

abbrev pub initial_dialog : Dialog
initial_dialog = record {
  is_modal_open = false;
  modal_mode = trigger;
  reason = [];
  is_submitting = false;
  error = none;
}

-- The callback that a submission awaits, and its argument
pub data Call : Type 0 where
  on_trigger on_clear : Text → Call

open_in : ModalMode → Dialog → Dialog
open_in mode d = record d { modal_mode = mode; reason = []; error = none; is_modal_open = true }

unfoldable pub handle_open_trigger : Dialog → Dialog
unfolding open_in
handle_open_trigger d = open_in trigger d

unfoldable pub handle_open_clear : Dialog → Dialog
unfolding open_in
handle_open_clear d = open_in clear d

abbrev pub call_of : ModalMode → Text → Call
call_of trigger text = on_trigger text
call_of clear text = on_clear text

-- `handleSubmit` up to its `await`
unfoldable pub handle_submit : Dialog → Dialog × Option Call
handle_submit d =
    if is_empty (trim d.reason)
    then (
      record d {
        error = some (codes "A mandatory reason is required for emergency stop state mutations.");
      },
      none,
    )
    else (
      record d { is_submitting = true; error = none },
      some (call_of d.modal_mode (trim d.reason)),
    )

-- and after it: the callback has resolved
unfoldable pub on_submitted : Dialog → Dialog
on_submitted d = record d { is_modal_open = false; is_submitting = false }

-- or it has rejected, with the message of an `Error` or with something else
unfoldable pub on_submit_failed : Option Text → Dialog → Dialog
on_submit_failed message d = record d {
  error = some (or_else message (codes "Operation failed"));
  is_submitting = false;
}

-- `onClose` of the modal
unfoldable pub handle_close : Dialog → Dialog
handle_close d = if not d.is_submitting then record d { is_modal_open = false } else d
