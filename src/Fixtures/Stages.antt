-- ===== src/Fixtures/Stages.antt =====
-- frontend/src/api/traceData.ts: the seven lifecycle stages of a sample finding.
use arka.Prelude.{ℕ, ◌+◌, List, [], ◌∷◌, ◌++◌, Option, none, some, Text, codes, to_string}
use arka.Types.FindingsTrace.{
  LifecycleStageId, LifecycleStageStatus, LifecycleStageInfo, FindingTraceItemHumanApprovalState,
}

-- The arguments' string unions
pub data PolicyOutcome : Type 0 where
  allow deny require_approval : PolicyOutcome

pub data FinalOutcome : Type 0 where
  recorded_valid recorded_denied recorded_pending : FinalOutcome

abbrev event_ref : Text → ℕ → Text
event_ref prefix n = prefix ++ to_string n

unfoldable pub kernel_desc : PolicyOutcome → Text
kernel_desc deny = codes "Action denied by Security Kernel"
kernel_desc require_approval = codes "Approval required under Two-Person Integrity"
kernel_desc allow = codes "Permitted under active scope definition"

unfoldable pub kernel_status : PolicyOutcome → LifecycleStageStatus
kernel_status deny = LifecycleStageStatus.denied
kernel_status require_approval = LifecycleStageStatus.pending
kernel_status allow = LifecycleStageStatus.completed

unfoldable pub approval_desc : FindingTraceItemHumanApprovalState → Text
approval_desc FindingTraceItemHumanApprovalState.approved =
    codes "Cryptographically sealed by human operator"
approval_desc FindingTraceItemHumanApprovalState.pending =
    codes "Awaiting operator review and action hash binding"
approval_desc FindingTraceItemHumanApprovalState.rejected = codes "Rejected by security operator"
approval_desc FindingTraceItemHumanApprovalState.not_required =
    codes "Bypassed — action does not exceed risk threshold"
approval_desc FindingTraceItemHumanApprovalState.expired =
    codes "Bypassed — action does not exceed risk threshold"

unfoldable pub approval_status : FindingTraceItemHumanApprovalState → LifecycleStageStatus
approval_status FindingTraceItemHumanApprovalState.approved = LifecycleStageStatus.completed
approval_status FindingTraceItemHumanApprovalState.pending = LifecycleStageStatus.active
approval_status FindingTraceItemHumanApprovalState.rejected = LifecycleStageStatus.failed
approval_status FindingTraceItemHumanApprovalState.not_required = LifecycleStageStatus.not_required
approval_status FindingTraceItemHumanApprovalState.expired = LifecycleStageStatus.not_required

-- `approvalStatus !== 'NOT_REQUIRED' ? ... : undefined`
unfoldable pub when_required {ℓ} : {A : Type ℓ} → FindingTraceItemHumanApprovalState → A → Option A
when_required FindingTraceItemHumanApprovalState.not_required a = none
when_required FindingTraceItemHumanApprovalState.pending a = some a
when_required FindingTraceItemHumanApprovalState.approved a = some a
when_required FindingTraceItemHumanApprovalState.rejected a = some a
when_required FindingTraceItemHumanApprovalState.expired a = some a

unfoldable pub approval_details : FindingTraceItemHumanApprovalState → Text
approval_details FindingTraceItemHumanApprovalState.not_required =
    codes "Risk classification is below mandatory operator gate."
approval_details FindingTraceItemHumanApprovalState.pending =
    codes "Bound to normalized proposal action hash."
approval_details FindingTraceItemHumanApprovalState.approved =
    codes "Bound to normalized proposal action hash."
approval_details FindingTraceItemHumanApprovalState.rejected =
    codes "Bound to normalized proposal action hash."
approval_details FindingTraceItemHumanApprovalState.expired =
    codes "Bound to normalized proposal action hash."

unfoldable pub final_desc : FinalOutcome → Text
final_desc recorded_denied = codes "Recorded as verified finding (Action Denied)"
final_desc recorded_pending = codes "Recorded as pending authorization"
final_desc recorded_valid = codes "Recorded and sealed in tamper-evident audit log"

unfoldable pub final_status : FinalOutcome → LifecycleStageStatus
final_status recorded_denied = LifecycleStageStatus.denied
final_status recorded_pending = LifecycleStageStatus.pending
final_status recorded_valid = LifecycleStageStatus.completed

unfoldable pub build_standard_stages :
    ℕ
    → PolicyOutcome
    → Text
    → FindingTraceItemHumanApprovalState
    → FinalOutcome
    → List LifecycleStageInfo
build_standard_stages discovered_unix policy_decision policy_reason approval final_outcome =
    record {
      id = LifecycleStageId.discovery;
      stage_number = 1;
      title = codes "Discovery";
      short_desc = codes "Agent identified candidate target and initiated probe";
      status = LifecycleStageStatus.completed;
      timestamp_unix = some discovered_unix;
      event_ref = some (event_ref (codes "evt_disc_") discovered_unix);
      details = some (codes "Agent observation logged under authenticated Ed25519 session.");
    }
    ∷ record {
      id = LifecycleStageId.evidence_collection;
      stage_number = 2;
      title = codes "Evidence Collection";
      short_desc = codes "Raw network telemetry captured in rootless sandbox";
      status = LifecycleStageStatus.completed;
      timestamp_unix = some (discovered_unix + 12);
      event_ref = some (event_ref (codes "evt_evd_") (discovered_unix + 12));
      details = some (codes "Content SHA-256 hashed and isolated from execution plane.");
    }
    ∷ record {
      id = LifecycleStageId.validation;
      stage_number = 3;
      title = codes "Validation";
      short_desc = codes "Evidence structure normalized and verified";
      status = LifecycleStageStatus.completed;
      timestamp_unix = some (discovered_unix + 18);
      event_ref = some (event_ref (codes "evt_val_") (discovered_unix + 18));
      details = some (codes "Deduplicated; structural payload integrity verified.");
    }
    ∷ record {
      id = LifecycleStageId.risk_scoring;
      stage_number = 4;
      title = codes "Risk Scoring";
      short_desc = codes "Severity classified and risk model calculated";
      status = LifecycleStageStatus.completed;
      timestamp_unix = some (discovered_unix + 22);
      event_ref = some (event_ref (codes "evt_rsk_") (discovered_unix + 22));
      details = some (codes "Confidence derived from deterministic active fingerprinting.");
    }
    ∷ record {
      id = LifecycleStageId.kernel_policy_check;
      stage_number = 5;
      title = codes "Kernel Policy Check";
      short_desc = kernel_desc policy_decision;
      status = kernel_status policy_decision;
      timestamp_unix = some (discovered_unix + 26);
      event_ref = some (event_ref (codes "evt_pol_") (discovered_unix + 26));
      details = some policy_reason;
    }
    ∷ record {
      id = LifecycleStageId.human_approval;
      stage_number = 6;
      title = codes "Human Approval";
      short_desc = approval_desc approval;
      status = approval_status approval;
      timestamp_unix = when_required approval (discovered_unix + 95);
      event_ref = when_required approval (event_ref (codes "evt_app_") (discovered_unix + 95));
      details = some (approval_details approval);
    }
    ∷ record {
      id = LifecycleStageId.final_finding;
      stage_number = 7;
      title = codes "Final Finding";
      short_desc = final_desc final_outcome;
      status = final_status final_outcome;
      timestamp_unix = some (discovered_unix + 110);
      event_ref = some (event_ref (codes "evt_fin_") (discovered_unix + 110));
      details =
          some
            (codes "Dual-signed under KeyDomain::AuditSigning and appended to SQLite WAL store.");
    }
    ∷ []
