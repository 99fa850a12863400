-- ===== src/Views/MissionOverview/Claims.antt =====
-- frontend/src/components/overview/MissionOverviewView.tsx: what the card of the current mission
-- claims of the scope.
use arka.Prelude.{ℕ, Text, ◌≡◌, ◌↔◌, refl, ap}
use arka.Types.Core.{MissionState, ScopeEnforcementState}
use arka.App.{App, current_mission}
use arka.Views.Badge.{Badge}
use arka.Views.MissionBadges.{get_scope_badge}
use arka.Views.ActiveMissionCard.{active_mission_card, effective_scope_state, inferred_scope_state}
use arka.Views.MissionOverview.{overview, card_props}

enforced_iff :
    (s : MissionState)
    → (get_scope_badge (inferred_scope_state s)
        ≡ get_scope_badge ScopeEnforcementState.verified_current)
      ↔ (s ≡ MissionState.active)
unfolding get_scope_badge inferred_scope_state
enforced_iff MissionState.created = ((λ e. let v = ap (λ (b : Badge). b.variant) e in cc), λ e. cc)
enforced_iff MissionState.active = ((λ e. refl), λ e. refl)
enforced_iff MissionState.paused = ((λ e. let v = ap (λ (b : Badge). b.variant) e in cc), λ e. cc)
enforced_iff MissionState.completed =
    ((λ e. let v = ap (λ (b : Badge). b.variant) e in cc), λ e. cc)
enforced_iff MissionState.terminated =
    ((λ e. let v = ap (λ (b : Badge). b.variant) e in cc), λ e. cc)

-- On the overview the badge SCOPE ENFORCED, verified by the kernel, stands exactly when the mission
-- in view is active: nothing that the console knows of a verification has a part in it.
pub overview-enforced_iff :
    (to_iso_string : ℕ → Text) (date_now : ℕ) (operator_id : Text) (app : App)
    → ((overview to_iso_string date_now operator_id app).card.scope
        ≡ get_scope_badge ScopeEnforcementState.verified_current)
      ↔ ((current_mission date_now operator_id app).state ≡ MissionState.active)
unfolding overview active_mission_card effective_scope_state card_props
overview-enforced_iff to_iso_string date_now operator_id app =
    enforced_iff (current_mission date_now operator_id app).state
