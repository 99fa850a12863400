-- ===== src/Views/MissionsListView/Transitions.antt =====
-- frontend/src/components/missions/MissionsListView.tsx: the transitions that its buttons ask for, beside
-- the mission state machine of frontend/tests/emergency_stop.test.ts.
use arka.Prelude.{
  Bool, true, false, ◌≡◌, ◌≢◌, ◌⊎◌, ◌↔◌, inl, inr, refl, subst, sym, Any, Bool-cases, List, [], ◌∷◌,
}
use arka.Types.Core.{
  MissionState, created, active, paused, completed, terminated, EmergencyStopStatus,
}
use arka.Views.MissionsListView.{ActionButton, operator_actions, shown_if}

-- The table of the state machine. `can_transition_to` of crates/arka-core-types/src/mission.rs has the
-- same one, and lets a state follow itself besides.
abbrev pub valid_transitions : MissionState → List MissionState
valid_transitions created = active ∷ (terminated ∷ [])
valid_transitions active = paused ∷ (completed ∷ (terminated ∷ []))
valid_transitions paused = active ∷ (terminated ∷ [])
valid_transitions completed = []
valid_transitions terminated = []

-- `attemptTransition` succeeds: an active emergency stop fails closed, and the table has the target.
unfoldable pub Legal : EmergencyStopStatus → MissionState → MissionState → Type 0
Legal stop s t = (stop.active ≡ false) × Any (λ u. u ≡ t) (valid_transitions s)

-- An enabled button of the row asks for that state.
unfoldable pub Offers : EmergencyStopStatus → MissionState → MissionState → Type 0
Offers stop s t =
    Any (λ (b : ActionButton). (b.disabled ≡ false) × (b.target ≡ t)) (operator_actions stop s)

-- To complete a mission that is not active, and to pause or complete one under an active stop
pub data Excess (stopped : Bool) : MissionState → MissionState → Type 0 where
  complete_created : Excess stopped created completed
  complete_paused : Excess stopped paused completed
  complete_stopped : stopped ≡ true → Excess stopped active completed
  pause_stopped : stopped ≡ true → Excess stopped active paused

-- What the buttons amount to
pub Asked : EmergencyStopStatus → MissionState → MissionState → Type 0
Asked stop s t = (Legal stop s t × (t ≢ terminated)) ⊎ Excess stop.active s t

active-Asked :
    (stop : EmergencyStopStatus) (t : MissionState)
    → (stop.active ≡ false → Legal stop active t)
    → (stop.active ≡ true → Excess stop.active active t)
    → t ≢ terminated
    → Asked stop active t
unfolding Asked
active-Asked stop t legal excess n = elim (Bool-cases stop.active) [
  | inl halted ↦ inr (excess halted)
  | inr running ↦ inl (legal running, n)
]

Offers-Asked : (stop : EmergencyStopStatus) (s t : MissionState) → Offers stop s t → Asked stop s t
unfolding Offers Asked Legal operator_actions shown_if
Offers-Asked stop created t (inl (e, q)) =
    subst (Asked stop created) q (inl ((e, inl refl), λ p. cc))
Offers-Asked stop created t (inr (inl (e, q))) = subst (Asked stop created) q (inr complete_created)
Offers-Asked stop active t (inl (e, q)) =
    subst (Asked stop active) q
      (active-Asked stop paused (λ r. (r, inl refl)) pause_stopped (λ p. cc))
Offers-Asked stop active t (inr (inl (e, q))) =
    subst (Asked stop active) q
      (active-Asked stop completed (λ r. (r, inr (inl refl))) complete_stopped (λ p. cc))
Offers-Asked stop paused t (inl (e, q)) = subst (Asked stop paused) q (inl ((e, inl refl), λ p. cc))
Offers-Asked stop paused t (inr (inl (e, q))) = subst (Asked stop paused) q (inr complete_paused)
Offers-Asked stop created t (inr (inr ended)) = elim ended [ ]
Offers-Asked stop active t (inr (inr ended)) = elim ended [ ]
Offers-Asked stop paused t (inr (inr ended)) = elim ended [ ]
Offers-Asked stop completed t ended = elim ended [ ]
Offers-Asked stop terminated t ended = elim ended [ ]

Excess-Offers :
    (stop : EmergencyStopStatus) {s t : MissionState} → Excess stop.active s t → Offers stop s t
unfolding Offers operator_actions shown_if
Excess-Offers stop complete_created = inr (inl (refl, refl))
Excess-Offers stop complete_paused = inr (inl (refl, refl))
Excess-Offers stop (complete_stopped h) = inr (inl (refl, refl))
Excess-Offers stop (pause_stopped h) = inl (refl, refl)

pub Legal-Offers :
    (stop : EmergencyStopStatus) (s t : MissionState)
    → t ≢ terminated
    → Legal stop s t
    → Offers stop s t
unfolding Offers Legal operator_actions shown_if
Legal-Offers stop created t n (e, inl q) = inl (e, q)
Legal-Offers stop created t n (e, inr (inl q)) = absurd (n (sym q))
Legal-Offers stop active t n (e, inl q) = inl (refl, q)
Legal-Offers stop active t n (e, inr (inl q)) = inr (inl (refl, q))
Legal-Offers stop active t n (e, inr (inr (inl q))) = absurd (n (sym q))
Legal-Offers stop paused t n (e, inl q) = inl (e, q)
Legal-Offers stop paused t n (e, inr (inl q)) = absurd (n (sym q))
Legal-Offers stop created t n (e, inr (inr ended)) = elim ended [ ]
Legal-Offers stop active t n (e, inr (inr (inr ended))) = elim ended [ ]
Legal-Offers stop paused t n (e, inr (inr ended)) = elim ended [ ]
Legal-Offers stop completed t n (e, ended) = elim ended [ ]
Legal-Offers stop terminated t n (e, ended) = elim ended [ ]

-- The enabled buttons of a mission's row ask for exactly the legal transitions but those to
-- TERMINATED, and for four that are not legal: to complete a mission that was only created or is
-- paused, whatever the emergency stop, and to pause or complete an active one under an active stop.
pub Offers-Asked_iff :
    (stop : EmergencyStopStatus) (s t : MissionState) → Offers stop s t ↔ Asked stop s t
unfolding Asked
Offers-Asked_iff stop s t = (
  Offers-Asked stop s t,
  λ h. elim h [
    | inl (legal, n) ↦ Legal-Offers stop s t n legal
    | inr excess ↦ Excess-Offers stop excess
  ],
)
