-- ===== src/Views/MissionBadges.antt =====
-- frontend/src/components/missions/ActiveMissionCard.tsx: the badge of each mission state, and the
-- badge and the alert of each state of the scope's enforcement.
use arka.Prelude.{Bool, true, false, Option, none, some, Text, codes}
use arka.Types.Core.{MissionState, ScopeEnforcementState}
use arka.Views.Badge.{Badge, Variant}

abbrev pub badge : Variant → Bool → Text → Text → Badge
badge variant pulse_dot text title = record {
  variant = variant;
  text = text;
  pulse_dot = pulse_dot;
  title = some title;
}

unfoldable pub state_badge : MissionState → Badge
state_badge MissionState.active =
    badge Variant.success true (codes "MISSION ACTIVE")
      (codes "Mission is actively dispatching authorized tasks")
state_badge MissionState.paused =
    badge Variant.warning false (codes "MISSION PAUSED")
      (codes "Mission dispatch is paused; all active probes held")
state_badge MissionState.completed =
    badge Variant.neutral false (codes "MISSION COMPLETED")
      (codes "Mission objectives completed; scope closed")
state_badge MissionState.terminated =
    badge Variant.danger false (codes "TERMINATED")
      (codes "Mission terminated; all credentials revoked")
state_badge MissionState.created =
    badge Variant.neutral false (codes "INITIALIZED (IDLE)")
      (codes "Mission created; awaiting operator start signal")

unfoldable pub get_scope_badge : ScopeEnforcementState → Badge
get_scope_badge ScopeEnforcementState.verified_current =
    badge Variant.success false (codes "SCOPE ENFORCED")
      (codes "Scope boundary cryptographically verified by kernel")
get_scope_badge ScopeEnforcementState.verification_pending =
    badge Variant.warning false (codes "VERIFICATION PENDING")
      (codes "Scope manifest pending kernel signature verification")
get_scope_badge ScopeEnforcementState.stale_verification =
    badge Variant.warning false (codes "STALE SCOPE POLICY")
      (codes "Policy verification cache expired; refresh required")
get_scope_badge ScopeEnforcementState.invalid_scope =
    badge Variant.danger false (codes "INVALID SCOPE")
      (codes "Scope syntax or CIDR overlap error detected")
get_scope_badge ScopeEnforcementState.verification_unavailable =
    badge Variant.neutral false (codes "SCOPE UNVERIFIED")
      (codes "Authoritative kernel scope service unreachable")

pub record Alert : Type 0 where
  pub heading : Text
  pub text : Text

abbrev pending_alert : Alert
pending_alert = record {
  heading = codes "Scope Verification Pending:";
  text =
      codes
        "Policy manifest has been submitted and is awaiting cryptographic kernel signature validation.";
}

-- The alert below the header, without the reason that the props may give
unfoldable pub scope_alert : ScopeEnforcementState → Option Alert
scope_alert ScopeEnforcementState.verified_current = none
scope_alert ScopeEnforcementState.invalid_scope = some (record {
  heading = codes "Scope Definition Error:";
  text =
      codes
        "The active scope manifest contains CIDR syntax or overlapping exclusion conflicts. Automated targeting is suspended fail-closed.";
})
scope_alert ScopeEnforcementState.stale_verification = some (record {
  heading = codes "Stale Scope Policy Cache:";
  text =
      codes
        "Policy verification TTL has expired. Re-verification required before new action dispatches proceed.";
})
scope_alert ScopeEnforcementState.verification_pending = some pending_alert
scope_alert ScopeEnforcementState.verification_unavailable = some pending_alert
