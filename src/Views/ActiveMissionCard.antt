-- ===== src/Views/ActiveMissionCard.antt =====
-- frontend/src/components/missions/ActiveMissionCard.tsx: what the card of the current mission
-- shows for its props. The clock and `Date.toISOString` are arguments.
pub mod Shown
use arka.Prelude.{
  ℕ, zero, suc, Bool, true, false, ◌&&◌, not, Option, none, some, List, [], ◌∷◌, ◌++◌, Text, codes,
  filter, length, ◌==◌, if◌then◌else◌, is_some, to_string,
}
use arka.Types.Core.{
  Mission, MissionState, ScopeDefinition, ScopeEnforcementState, ScopeBoundaryCounts,
}
use arka.Types.AttackSurface.{DiscoveredAsset, ScopeStatus}
use arka.Security.{mask_token}
use arka.Formatting.{format_timestamp, format_time_ago, pad_start, truncate_hash}
use arka.Views.Badge.{Badge, Variant}
use arka.Views.MissionBadges.{badge, state_badge, get_scope_badge, Alert, scope_alert}

pub record VerificationDetails : Type 0 where
  pub last_verified_unix : Option ℕ
  pub policy_version : Option Text
  pub stale_reason : Option Text

-- The props; `onSwitchMission` is there or not.
pub record ActiveMissionCardProps : Type 0 where
  pub mission : Mission
  pub scope_definition : Option ScopeDefinition
  pub assets : List DiscoveredAsset
  pub scope_counts : Option ScopeBoundaryCounts
  pub scope_enforcement_state : Option ScopeEnforcementState
  pub scope_verification_details : Option VerificationDetails
  pub is_transitioning : Bool
  pub transition_target_state : Option MissionState
  pub can_switch_mission : Bool
  pub has_on_switch_mission : Bool

abbrev pub is_authorized : ScopeStatus → Bool
is_authorized ScopeStatus.authorized_in_scope = true
is_authorized ScopeStatus.discovered_unauthorized = false
is_authorized ScopeStatus.hard_excluded = false

abbrev pub is_unauthorized : ScopeStatus → Bool
is_unauthorized ScopeStatus.authorized_in_scope = false
is_unauthorized ScopeStatus.discovered_unauthorized = true
is_unauthorized ScopeStatus.hard_excluded = false

abbrev pub is_excluded : ScopeStatus → Bool
is_excluded ScopeStatus.authorized_in_scope = false
is_excluded ScopeStatus.discovered_unauthorized = false
is_excluded ScopeStatus.hard_excluded = true

unfoldable pub count_scope : (ScopeStatus → Bool) → List DiscoveredAsset → ℕ
count_scope p assets = length (filter (λ (a : DiscoveredAsset). p a.scope_status) assets)

unfoldable pub effective_counts : ActiveMissionCardProps → ScopeBoundaryCounts
unfolding count_scope
effective_counts props = elim props.scope_counts [
  | some counts ↦ counts
  | none ↦ record {
    authorized_count = count_scope is_authorized props.assets;
    discovered_out_of_scope_count = count_scope is_unauthorized props.assets;
    excluded_count = count_scope is_excluded props.assets;
  }
]

-- The state that the card infers when it is given none
unfoldable pub inferred_scope_state : MissionState → ScopeEnforcementState
inferred_scope_state MissionState.active = ScopeEnforcementState.verified_current
inferred_scope_state MissionState.created = ScopeEnforcementState.verification_pending
inferred_scope_state MissionState.paused = ScopeEnforcementState.verification_unavailable
inferred_scope_state MissionState.completed = ScopeEnforcementState.verification_unavailable
inferred_scope_state MissionState.terminated = ScopeEnforcementState.verification_unavailable

unfoldable pub effective_scope_state : ActiveMissionCardProps → ScopeEnforcementState
unfolding inferred_scope_state
effective_scope_state props = elim props.scope_enforcement_state [
  | some s ↦ s
  | none ↦ inferred_scope_state props.mission.state
]

-- `text || rest`: a missing and an empty text are both falsy.
abbrev pub text_or : Option Text → Text → Text
text_or none rest = rest
text_or (some []) rest = rest
text_or (some (c ∷ s)) rest = c ∷ s

-- `n || undefined`: a missing number and 0 are both falsy.
abbrev pub number_or : Option ℕ → Option ℕ → Option ℕ
number_or none rest = rest
number_or (some zero) rest = rest
number_or (some (suc n)) rest = some (suc n)

unfoldable pub details_of {ℓ} :
    {A : Type ℓ} → (VerificationDetails → Option A) → ActiveMissionCardProps → Option A
details_of field_of props = elim props.scope_verification_details [
  | none ↦ none
  | some d ↦ field_of d
]

unfoldable pub policy_version : ActiveMissionCardProps → Text
unfolding details_of
policy_version props = text_or (details_of (λ (d : VerificationDetails). d.policy_version) props) (
    text_or (elim props.scope_definition [ none ↦ none | some s ↦ some s.policy_version ])
      (codes "v2.2.0"))

unfoldable pub updated_if_active : Mission → Option ℕ
updated_if_active m = elim m.state [
  | MissionState.active ↦ some m.updated_at_unix
  | MissionState.created ↦ none
  | MissionState.paused ↦ none
  | MissionState.completed ↦ none
  | MissionState.terminated ↦ none
]

unfoldable pub last_verified_unix : ActiveMissionCardProps → Option ℕ
unfolding details_of updated_if_active
last_verified_unix props =
    number_or (details_of (λ (d : VerificationDetails). d.last_verified_unix) props)
      (updated_if_active props.mission)

abbrev state_text : MissionState → Text
state_text MissionState.created = codes "CREATED"
state_text MissionState.active = codes "ACTIVE"
state_text MissionState.paused = codes "PAUSED"
state_text MissionState.completed = codes "COMPLETED"
state_text MissionState.terminated = codes "TERMINATED"

abbrev target_text : Option MissionState → Text
target_text none = []
target_text (some s) = codes "→ " ++ state_text s

unfoldable pub get_execution_badge : ActiveMissionCardProps → Badge
unfolding state_badge
get_execution_badge props =
    if props.is_transitioning
    then badge Variant.primary true
        (codes "TRANSITIONING " ++ target_text props.transition_target_state)
        (codes "State transition in progress")
    else state_badge props.mission.state

unfoldable pub health_alert : ActiveMissionCardProps → Option Alert
unfolding effective_scope_state scope_alert details_of
health_alert props = elim (scope_alert (effective_scope_state props)) [
  | none ↦ none
  | some a ↦ some (record a {
    text = text_or (details_of (λ (d : VerificationDetails). d.stale_reason) props) a.text;
  })
]

pub record CardButton : Type 0 where
  pub disabled : Bool
  pub label : Text
  pub title : Text

abbrev card_button : Bool → Text → Text → CardButton
card_button is_transitioning label title = record {
  disabled = is_transitioning;
  label = label;
  title = if is_transitioning then codes "Actions locked during state transition" else title;
}

unfoldable pub toolbar : ActiveMissionCardProps → List CardButton
toolbar props =
    card_button props.is_transitioning (codes "Inspect Scope Boundaries")
      (codes "Inspect authorized scope boundaries")
    ∷ card_button props.is_transitioning (codes "Mission Details")
        (codes "View full mission configuration and logs")
    ∷ (if props.can_switch_mission && props.has_on_switch_mission
        then card_button props.is_transitioning (codes "Switch Context")
            (codes "Switch active assessment mission")
          ∷ []
        else [])

-- The cell `copiedId`: `handleCopyId`, what it schedules, and the text of the button
unfoldable pub handle_copy_id : Bool → Bool → Bool
handle_copy_id has_clipboard copied_id = if has_clipboard then true else copied_id

unfoldable pub copied_id_expired : Bool → Bool
copied_id_expired copied_id = false

unfoldable pub copy_text : Bool → Text
copy_text copied_id = if copied_id then codes "Copied" else codes "Copy"

unfoldable pub kernel_verification : ℕ → ActiveMissionCardProps → Text
unfolding last_verified_unix
kernel_verification date_now props = elim (number_or (last_verified_unix props) none) [
  | none ↦ codes "Unverified"
  | some t ↦ codes "Verified " ++ format_time_ago date_now t
]

-- The card from top to bottom
pub record Card : Type 0 where
  pub name : Text
  pub short_id : Text
  pub execution : Badge
  pub scope : Badge
  pub alert : Option Alert
  pub scope_ref : Text
  pub revision : Text
  pub operator : Text
  pub initiated_at : Text
  pub verification : Text
  pub authorized : Text
  pub discovered : Text
  pub excluded : Text
  pub buttons : List CardButton

unfoldable pub active_mission_card : (ℕ → Text) → ℕ → ActiveMissionCardProps → Card
unfolding effective_counts effective_scope_state get_execution_badge get_scope_badge health_alert
    policy_version kernel_verification toolbar
active_mission_card to_iso_string date_now props = record {
  name = props.mission.name;
  short_id = truncate_hash 8 6 props.mission.id;
  execution = get_execution_badge props;
  scope = get_scope_badge (effective_scope_state props);
  alert = health_alert props;
  scope_ref = props.mission.scope_ref;
  revision = codes "· " ++ policy_version props;
  operator = mask_token props.mission.created_by;
  initiated_at = format_timestamp to_iso_string props.mission.created_at_unix;
  verification = kernel_verification date_now props;
  authorized = pad_start (to_string (effective_counts props).authorized_count);
  discovered = pad_start (to_string (effective_counts props).discovered_out_of_scope_count);
  excluded = pad_start (to_string (effective_counts props).excluded_count);
  buttons = toolbar props;
}
