-- ===== src/Views/SideNav/Halted.antt =====
-- The halt dialog of frontend/src/components/layout/SideNav.tsx under everything that its controls
-- allow, and wired to `handleTriggerEmergencyStop` of App.tsx.
use arka.Prelude.{
  is_empty-ne, alone, arith, ◌≡◌, ◌≢◌, refl, Bool, true, false, Option, none, some, List, [], ◌∷◌,
  ◌++◌, Text, trim, is_empty, subst,
}
use arka.Types.Core.{EmergencyStopStatus}
use arka.Client.{Client, Net}
use arka.Client.Endpoints.{Fixtures}
use arka.Client.Outcomes.{Offline}
use arka.App.{App}
use arka.App.Failure.{Silent, trigger-Silent}
use arka.App.Handlers.{
  Completion, resolved, rejected, World, RefreshNets, handle_trigger_emergency_stop,
}
use arka.Views.SideNav.{
  HaltDialog, initial_halt_dialog, confirm_disabled, handle_confirm_halt, on_halted, on_halt_failed,
  has_halt_button,
}

-- The dialog, whether the emergency stop is active, and the reasons of the halts without an answer.
pub record Session : Type 0 where
  pub dialog : HaltDialog
  pub emergency_stop_active : Bool
  pub awaited : List Text

abbrev pub start : Bool → Session
start active = record { dialog = initial_halt_dialog; emergency_stop_active = active; awaited = [] }

pub data Step : Session → Session → Type 0 where
  status_changed :
      (s : Session) (active : Bool) → Step s (record s { emergency_stop_active = active })
  press_halt :
      (s : Session)
      → has_halt_button true s.emergency_stop_active ≡ true
      → Step s (record s { dialog = record s.dialog { show_halt_modal = true } })
  type_reason :
      (s : Session) (text : Text)
      → Step s (record s { dialog = record s.dialog { halt_reason = text } })
  -- the cross, also while a halt is awaited, or Cancel
  leave : (s : Session) → Step s (record s { dialog = record s.dialog { show_halt_modal = false } })
  press_engage :
      (s : Session) (reason : Text)
      → s.dialog.show_halt_modal ≡ true
      → confirm_disabled s.dialog ≡ false
      → (handle_confirm_halt true s.dialog).1 ≡ some reason
      → Step s (record s {
        dialog = (handle_confirm_halt true s.dialog).0;
        awaited = reason ∷ s.awaited;
      })
  resolve :
      (s : Session) (reason : Text) (before after : List Text)
      → s.awaited ≡ before ++ (reason ∷ after)
      → Step s (record s { dialog = on_halted s.dialog; awaited = before ++ after })
  reject :
      (s : Session) (reason : Text) (before after : List Text)
      → s.awaited ≡ before ++ (reason ∷ after)
      → Step s (record s { dialog = on_halt_failed s.dialog; awaited = before ++ after })

pub data Reach (s : Session) : Session → Type 0 where
  here : Reach s s
  next : {t u : Session} → Reach s t → Step t u → Reach s u

-- At most one halt is awaited, its reason is not blank, and the dialog is submitting exactly while
-- one is.
abbrev pub Halting : List Text → Bool → Type 0
Halting [] submitting = submitting ≡ false
Halting (reason ∷ []) submitting = (submitting ≡ true) × (trim reason ≢ [])
Halting (reason ∷ other ∷ rest) submitting = ⊥

idle : (rs : List Text) (b : Bool) → Halting rs b → b ≡ false → rs ≡ []
idle [] b v h = refl
idle (r ∷ []) b v h = cc (v.0, h)
idle (r ∷ q ∷ rs) b v h = elim v [ ]

enabled :
    (d : HaltDialog)
    → confirm_disabled d ≡ false
    → (d.is_submitting_halt ≡ false) × (is_empty (trim d.halt_reason) ≡ false)
unfolding confirm_disabled
enabled d h = ground arith

engage-Halting :
    (rs : List Text) (d : HaltDialog) (r : Text)
    → Halting rs d.is_submitting_halt
    → confirm_disabled d ≡ false
    → (handle_confirm_halt true d).1 ≡ some r
    → Halting (r ∷ rs) (handle_confirm_halt true d).0.is_submitting_halt
unfolding handle_confirm_halt
engage-Halting rs d r v h e =
    let (free, given) = enabled d h in
    let same : d.halt_reason ≡ r = cc in
    rw (idle rs d.is_submitting_halt v free)
      (refl, subst (λ t. trim t ≢ []) same (is_empty-ne (trim d.halt_reason) given))

Step-Halting :
    {s t : Session}
    → Step s t
    → Halting s.awaited s.dialog.is_submitting_halt
    → Halting t.awaited t.dialog.is_submitting_halt
unfolding on_halted on_halt_failed
Step-Halting (status_changed s active) v = v
Step-Halting (press_halt s h) v = v
Step-Halting (type_reason s text) v = v
Step-Halting (leave s) v = v
Step-Halting (press_engage s r o h e) v = engage-Halting s.awaited s.dialog r v h e
Step-Halting (resolve s r before after h) v =
    rw (alone (λ rs. Halting rs s.dialog.is_submitting_halt) (λ x y xs p. p) before after r h v)
      refl
Step-Halting (reject s r before after h) v =
    rw (alone (λ rs. Halting rs s.dialog.is_submitting_halt) (λ x y xs p. p) before after r h v)
      refl

-- Whatever the operator does in the sidebar and whatever becomes of the emergency stop, at most one
-- halt is awaited, its reason is not blank, and the dialog is submitting exactly while one is.
pub Reach-Halting :
    {active : Bool} {s : Session}
    → Reach (start active) s
    → Halting s.awaited s.dialog.is_submitting_halt
Reach-Halting here = refl
Reach-Halting (next r st) = Step-Halting st (Reach-Halting r)

module _ (fx : Fixtures) (net : Net EmergencyStopStatus) (n : RefreshNets) where
  finish : HaltDialog → Completion × World → HaltDialog × World
  finish d (resolved, w) = (on_halted d, w)
  finish d (rejected, w) = (on_halt_failed d, w)

  engage : HaltDialog × Option Text → World → HaltDialog × World
  unfolding finish
  engage (d, none) w = (d, w)
  engage (d, some reason) w = finish d (handle_trigger_emergency_stop fx reason net n w)

  -- `handleConfirmHalt`, from the press of the button to its end
  unfoldable pub confirm_halt : HaltDialog → World → HaltDialog × World
  unfolding engage
  confirm_halt d w = engage (handle_confirm_halt true d) w

finish-Silent :
    (fx : Fixtures) (net : Net EmergencyStopStatus) (n : RefreshNets) (d : HaltDialog) (app : App)
    (out : Completion × World)
    → Silent app out
    → ((finish fx net n d out).0.show_halt_modal ≡ false) × ((finish fx net n d out).1.0 ≡ app)
unfolding finish on_halted
finish-Silent fx net n d app (resolved, w) (r, s) = (refl, s)
finish-Silent fx net n d app (rejected, w) (r, s) = cc

-- With no backend and mock mutations off, a halt that is confirmed in the sidebar closes its dialog
-- as if it had gone through, while the emergency stop status and all else of the console are what they
-- were.
pub confirm_halt-offline :
    (fx : Fixtures) (net : Net EmergencyStopStatus) (n : RefreshNets) (d : HaltDialog) (app : App)
    (c : Client)
    → Offline net
    → c.allow_mock_mutations ≡ false
    → ((confirm_halt fx net n d (app, c)).0.show_halt_modal ≡ false)
      × ((confirm_halt fx net n d (app, c)).1.0 ≡ app)
unfolding confirm_halt engage handle_confirm_halt
confirm_halt-offline fx net n d app c off k =
    finish-Silent fx net n (record d { is_submitting_halt = true }) app _
      (trigger-Silent fx net n d.halt_reason app c off k)
