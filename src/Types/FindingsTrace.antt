-- ===== src/Types/FindingsTrace.antt =====
-- frontend/src/types/findingsTrace.ts: its types, field by field. An optional field is an `Option`, a union of
-- string literals a data type, a number a natural number (a risk score or a temperature counts tenths).
-- `data` is a reserved word here: that field is `payload`.
use arka.Prelude.{Text, Bool, ℕ, List, Option}
use arka.Types.Core.{ProposalDecision}

pub data FindingSeverity : Type 0 where
  informational low medium high critical : FindingSeverity

pub data FindingConfidence : Type 0 where
  confirmed_exploit observed_anomaly theoretical_match : FindingConfidence

pub data LifecycleStageId : Type 0 where
  discovery evidence_collection validation risk_scoring kernel_policy_check human_approval
        final_finding :
      LifecycleStageId

pub data LifecycleStageStatus : Type 0 where
  completed active pending denied failed not_required stale unknown : LifecycleStageStatus

pub record LifecycleStageInfo : Type 0 where
  pub id : LifecycleStageId
  pub stage_number : ℕ
  pub title : Text
  pub short_desc : Text
  pub status : LifecycleStageStatus
  pub timestamp_unix : Option ℕ
  pub event_ref : Option Text
  pub details : Option Text

pub record FindingEvidenceArtifactProvenance : Type 0 where
  pub agent_id : Text
  pub sandbox : Text
  pub kernel_ticket_receipt : Text

pub data FindingEvidenceArtifactTrustLevel : Type 0 where
  raw_untrusted_target_output kernel_verified_signature : FindingEvidenceArtifactTrustLevel

pub record FindingEvidenceArtifact : Type 0 where
  pub id : Text
  pub filename : Text
  pub size_bytes : ℕ
  pub content_hash : Text
  pub capability : Text
  pub mime_type : Text
  pub provenance : FindingEvidenceArtifactProvenance
  pub sanitized_preview : Text
  pub trust_level : FindingEvidenceArtifactTrustLevel

pub record FindingAuditEvent : Type 0 where
  pub event_id : Text
  pub sequence_number : ℕ
  pub timestamp_unix : ℕ
  pub event_type : Text
  pub actor_id : Text
  pub action_hash : Option Text
  pub previous_hash : Text
  pub current_hash : Text
  pub signature : Text
  pub verified : Bool
  pub summary : Text

pub data ValidationState : Type 0 where
  validated pending invalid anomalous : ValidationState

pub data FindingTraceItemTargetScopeStatus : Type 0 where
  in_scope excluded_target discovered_unauthorized : FindingTraceItemTargetScopeStatus

pub data FindingTraceItemHumanApprovalState : Type 0 where
  not_required pending approved rejected expired : FindingTraceItemHumanApprovalState

pub record FindingTraceItem : Type 0 where
  pub finding_id : Text
  pub mission_id : Text
  pub title : Text
  pub severity : FindingSeverity
  pub risk_score : ℕ
  pub risk_score_scale : Text
  pub scoring_source : Text
  pub confidence : FindingConfidence
  pub confidence_percentage : ℕ
  pub source_agent : Text
  pub agent_role : Text
  pub target : Text
  pub target_scope_status : FindingTraceItemTargetScopeStatus
  pub validation_state : ValidationState
  pub validation_summary : Text
  pub policy_decision : ProposalDecision
  pub policy_reason : Text
  pub policy_rule_id : Text
  pub scope_ref : Text
  pub kernel_version : Text
  pub policy_evaluation_time_unix : ℕ
  pub human_approval_state : FindingTraceItemHumanApprovalState
  pub approval_id : Option Text
  pub bound_action_hash : Option Text
  pub detected_at_unix : ℕ
  pub lifecycle_stages : List LifecycleStageInfo
  pub evidence_artifacts : List FindingEvidenceArtifact
  pub audit_events : List FindingAuditEvent
  pub factual_description : Text
  pub remediation_guidance : Text
  pub cve_id : Option Text
