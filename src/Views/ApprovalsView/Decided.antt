-- ===== src/Views/ApprovalsView/Decided.antt =====
-- frontend/src/components/approvals/ApprovalsView.tsx: the page under everything that its controls
-- allow, while the queue that it is given changes.
use arka.Prelude.{
  is_empty-ne, alone, ◌≡◌, ◌≢◌, refl, subst, ◌∙◌, arith, true, false, Option, none, some, List, [],
  ◌∷◌, ◌++◌, Text, trim, is_empty, Bool-cases, inl, inr,
}
use arka.Types.Core.{Approval}
use arka.Views.ApprovalsView.{
  Panel, initial_panel, Decision, on_approve, on_reject, open_reject, open_confirm, close_confirm,
  close_reject, confirm, refuse, handle_confirm_approval, handle_confirm_rejection, on_decided,
  on_decision_failed,
}

-- The page, the queue that it is given, and the decisions without an answer.
pub record Session : Type 0 where
  pub panel : Panel
  pub queue : List Approval
  pub awaited : List Decision

abbrev pub start : List Approval → Session
start queue = record { panel = initial_panel queue; queue = queue; awaited = [] }

-- What can happen; a control that is not rendered or `disabled` does nothing. The modals are taken
-- not to hide the page, which the keyboard still reaches.
pub data Step : Session → Session → Type 0 where
  queue_changed : (s : Session) (queue : List Approval) → Step s (record s { queue = queue })
  press_row :
      (s : Session) (id : Text)
      → Step s (record s { panel = record s.panel { selected_approval_id = id } })
  press_reject : (s : Session) → Step s (record s { panel = open_reject s.panel })
  press_sign : (s : Session) → Step s (record s { panel = open_confirm s.panel })
  type_reason :
      (s : Session) (text : Text)
      → Step s (record s { panel = record s.panel { rejection_reason = text } })
  leave_confirm : (s : Session) → Step s (record s { panel = close_confirm s.panel })
  leave_reject : (s : Session) → Step s (record s { panel = close_reject s.panel })
  press_authorize :
      (s : Session) (c : Decision)
      → s.panel.is_confirm_modal_open ≡ true
      → s.panel.is_submitting ≡ false
      → (handle_confirm_approval s.queue s.panel).1 ≡ some c
      → Step s (record s {
        panel = (handle_confirm_approval s.queue s.panel).0;
        awaited = c ∷ s.awaited;
      })
  press_confirm_rejection :
      (s : Session) (c : Decision)
      → s.panel.is_reject_modal_open ≡ true
      → s.panel.is_submitting ≡ false
      → (handle_confirm_rejection s.queue s.panel).1 ≡ some c
      → Step s (record s {
        panel = (handle_confirm_rejection s.queue s.panel).0;
        awaited = c ∷ s.awaited;
      })
  resolve :
      (s : Session) (c : Decision) (before after : List Decision)
      → s.awaited ≡ before ++ (c ∷ after)
      → Step s (record s { panel = on_decided c s.panel; awaited = before ++ after })
  reject :
      (s : Session) (c : Decision) (message : Option Text) (before after : List Decision)
      → s.awaited ≡ before ++ (c ∷ after)
      → Step s
          (record s { panel = on_decision_failed c message s.panel; awaited = before ++ after })

pub data Reach (s : Session) : Session → Type 0 where
  here : Reach s s
  next : {t u : Session} → Reach s t → Step t u → Reach s u

-- The modal of a decision is open, and a rejection has a reason.
abbrev pub Decides : Decision → Panel → Type 0
Decides (on_approve id hash) d = d.is_confirm_modal_open ≡ true
Decides (on_reject id reason) d = (d.is_reject_modal_open ≡ true) × (reason ≢ [])

-- At most one decision is awaited, and the page is submitting exactly while one is.
abbrev pub Awaits : List Decision → Panel → Type 0
Awaits [] d = d.is_submitting ≡ false
Awaits (c ∷ []) d = (d.is_submitting ≡ true) × Decides c d
Awaits (c ∷ e ∷ cs) d = ⊥

idle : (cs : List Decision) (d : Panel) → Awaits cs d → d.is_submitting ≡ false → cs ≡ []
idle [] d v h = refl
idle (c ∷ []) d v h = cc (v.0, h)
idle (c ∷ e ∷ cs) d v h = elim v [ ]

-- A change of the panel that keeps `is_submitting`, and closes no modal while it is set
record Keeps (d e : Panel) : Type 0 where
  submitting : e.is_submitting ≡ d.is_submitting
  confirm_open :
      d.is_submitting ≡ true → d.is_confirm_modal_open ≡ true → e.is_confirm_modal_open ≡ true
  reject_open :
      d.is_submitting ≡ true → d.is_reject_modal_open ≡ true → e.is_reject_modal_open ≡ true

Keeps-Decides :
    (c : Decision) (d e : Panel) → Keeps d e → d.is_submitting ≡ true → Decides c d → Decides c e
Keeps-Decides (on_approve id hash) d e k b o = k.confirm_open b o
Keeps-Decides (on_reject id reason) d e k b (o, r) = (k.reject_open b o, r)

Keeps-Awaits : (cs : List Decision) (d e : Panel) → Keeps d e → Awaits cs d → Awaits cs e
Keeps-Awaits [] d e k v = k.submitting ∙ v
Keeps-Awaits (c ∷ []) d e k (b, o) = (k.submitting ∙ b, Keeps-Decides c d e k b o)
Keeps-Awaits (c ∷ x ∷ cs) d e k v = v

close_confirm-Keeps : (d : Panel) → Keeps d (close_confirm d)
unfolding close_confirm
close_confirm-Keeps d = ground arith

close_reject-Keeps : (d : Panel) → Keeps d (close_reject d)
unfolding close_reject
close_reject-Keeps d = ground arith

confirm-Awaits :
    (o : Option Approval) (d : Panel) (c : Decision)
    → d.is_confirm_modal_open ≡ true
    → (confirm o d).1 ≡ some c
    → Awaits (c ∷ []) (confirm o d).0
unfolding confirm
confirm-Awaits none d c h e = cc
confirm-Awaits (some a) d c h e =
    let same : on_approve a.approval_id a.action_hash ≡ c = cc in
    subst (λ x. Awaits (x ∷ []) (confirm (some a) d).0) same (refl, h)

refuse-Awaits :
    (o : Option Approval) (d : Panel) (c : Decision)
    → d.is_reject_modal_open ≡ true
    → (refuse o d).1 ≡ some c
    → Awaits (c ∷ []) (refuse o d).0
unfolding refuse
refuse-Awaits none d c h e = cc
refuse-Awaits (some a) d c h e = elim (Bool-cases (is_empty (trim d.rejection_reason))) [
  | inl blank ↦ cc (rw blank at e)
  | inr given ↦
      let same : some (on_reject a.approval_id (trim d.rejection_reason)) ≡ some c =
        rw given at e in
      let only_one : on_reject a.approval_id (trim d.rejection_reason) ≡ c = cc in
      rw given (
        subst (λ x. Awaits (x ∷ []) (record d { is_submitting = true; error_message = none }))
          only_one (refl, (h, is_empty-ne _ given)))
]

on_decided-idle : (c : Decision) (d : Panel) → (on_decided c d).is_submitting ≡ false
unfolding on_decided
on_decided-idle (on_approve id hash) d = refl
on_decided-idle (on_reject id reason) d = refl

on_decision_failed-idle :
    (c : Decision) (message : Option Text) (d : Panel)
    → (on_decision_failed c message d).is_submitting ≡ false
unfolding on_decision_failed
on_decision_failed-idle (on_approve id hash) message d = refl
on_decision_failed-idle (on_reject id reason) message d = refl

pub IsValid : Session → Type 0
IsValid s = Awaits s.awaited s.panel

keep : (s : Session) (e : Panel) → Keeps s.panel e → IsValid s → Awaits s.awaited e
unfolding IsValid
keep s e k v = Keeps-Awaits s.awaited s.panel e k v

begun :
    (s : Session) (c : Decision) (e : Panel)
    → IsValid s
    → s.panel.is_submitting ≡ false
    → Awaits (c ∷ []) e
    → Awaits (c ∷ s.awaited) e
unfolding IsValid
begun s c e v b w = rw (idle s.awaited s.panel v b) w

ended :
    (s : Session) (c : Decision) (before after : List Decision) (e : Panel)
    → s.awaited ≡ before ++ (c ∷ after)
    → IsValid s
    → e.is_submitting ≡ false
    → Awaits (before ++ after) e
unfolding IsValid
ended s c before after e h v b =
    rw (alone (λ cs. Awaits cs s.panel) (λ x y xs p. p) before after c h v) b

Step-IsValid : {s t : Session} → Step s t → IsValid s → IsValid t
unfolding IsValid open_reject open_confirm handle_confirm_approval handle_confirm_rejection
Step-IsValid (queue_changed s queue) v = v
Step-IsValid (press_row s id) v = keep s _ (ground arith) v
Step-IsValid (press_reject s) v = keep s _ (ground arith) v
Step-IsValid (press_sign s) v = keep s _ (ground arith) v
Step-IsValid (type_reason s text) v = keep s _ (ground arith) v
Step-IsValid (leave_confirm s) v = keep s _ (close_confirm-Keeps s.panel) v
Step-IsValid (leave_reject s) v = keep s _ (close_reject-Keeps s.panel) v
Step-IsValid (press_authorize s c o b e) v = begun s c _ v b (confirm-Awaits _ s.panel c o e)
Step-IsValid (press_confirm_rejection s c o b e) v = begun s c _ v b (refuse-Awaits _ s.panel c o e)
Step-IsValid (resolve s c before after h) v =
    ended s c before after _ h v (on_decided-idle c s.panel)
Step-IsValid (reject s c message before after h) v =
    ended s c before after _ h v (on_decision_failed-idle c message s.panel)

-- Whatever the operator presses and however the queue changes, at most one decision is awaited: the
-- page is submitting exactly while one is, the modal of that decision is open, and a rejection has
-- a reason that is not blank.
pub Reach-Awaits : {queue : List Approval} {s : Session} → Reach (start queue) s → IsValid s
unfolding IsValid initial_panel
Reach-Awaits here = refl
Reach-Awaits (next r st) = Step-IsValid st (Reach-Awaits r)
