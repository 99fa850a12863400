-- ===== src/Types/Core.antt =====
-- frontend/src/types/core.ts: its types, field by field. An optional field is an `Option`, a union of
-- string literals a data type, a number a natural number (a risk score or a temperature counts tenths).
-- `data` is a reserved word here: that field is `payload`.
use arka.Prelude.{Text, Bool, ℕ, List, Option, Fields}

pub data MissionState : Type 0 where
  created active paused completed terminated : MissionState

pub data MissionMode : Type 0 where
  lab_ctf authorized_professional : MissionMode

pub record Mission : Type 0 where
  pub id : Text
  pub name : Text
  pub state : MissionState
  pub scope_ref : Text
  pub created_at_unix : ℕ
  pub updated_at_unix : ℕ
  pub created_by : Text
  pub mode : MissionMode
  pub description : Option Text

pub data RiskClass : Type 0 where
  observation low moderate high critical : RiskClass

pub data StandardCapability : Type 0 where
  dns_lookup tcp_connect port_scan http_request web_discovery browser_automation osint_lookup
        pcap_capture service_enumeration credential_validation controlled_exploitation :
      StandardCapability

pub data ScopeEnforcementState : Type 0 where
  verified_current verification_pending stale_verification invalid_scope verification_unavailable :
      ScopeEnforcementState

pub record ScopeBoundaryCounts : Type 0 where
  pub authorized_count : ℕ
  pub discovered_out_of_scope_count : ℕ
  pub excluded_count : ℕ

pub record ScopeDefinitionInclusions : Type 0 where
  pub cidr_blocks : List Text
  pub hostnames : List Text
  pub url_origins : List Text
  pub ports : List ℕ

pub record ScopeDefinitionExclusions : Type 0 where
  pub cidr_blocks : List Text
  pub hostnames : List Text
  pub ports : List ℕ
  pub rationale : Text

pub record ScopeDefinition : Type 0 where
  pub inclusions : ScopeDefinitionInclusions
  pub exclusions : ScopeDefinitionExclusions
  pub policy_version : Text
  pub canonical_hash : Text

pub data ProposalDecision : Type 0 where
  allow deny require_approval invalid_proposal expired_proposal unavailable_dependency :
      ProposalDecision

pub record ActionProposal : Type 0 where
  pub proposal_id : Text
  pub mission_id : Text
  pub parent_task_id : Option Text
  pub requesting_agent : Text
  pub capability_id : StandardCapability
  pub target : Text
  pub raw_parameters : Fields
  pub normalized_parameters : Fields
  pub parameter_hash : Text
  pub action_hash : Text
  pub declared_risk : Option RiskClass
  pub true_risk : RiskClass
  pub decision : ProposalDecision
  pub decision_reason : Option Text
  pub evidence_refs : List Text
  pub rationale : Text
  pub nonce : Text
  pub timestamp_unix : ℕ
  pub expires_at_unix : ℕ

pub data ApprovalStatus : Type 0 where
  pending approved consumed revoked expired : ApprovalStatus

pub record Approval : Type 0 where
  pub approval_id : Text
  pub mission_id : Text
  pub action_hash : Text
  pub approver : Text
  pub status : ApprovalStatus
  pub issued_at_unix : ℕ
  pub expires_at_unix : ℕ
  pub consumed_at_unix : Option ℕ
  pub rejection_reason : Option Text

pub record EmergencyStopStatus : Type 0 where
  pub active : Bool
  pub triggered_at_unix : Option ℕ
  pub triggered_by : Option Text
  pub reason : Option Text
  pub cleared_at_unix : Option ℕ
  pub cleared_by : Option Text
  pub clear_reason : Option Text

pub data AuditRecordEventType : Type 0 where
  mission_created mission_transition proposal_submitted proposal_evaluated approval_requested
        action_authorized approval_consumed approval_revoked action_dispatched execution_completed
        evidence_recorded emergency_stop_triggered emergency_stop_cleared :
      AuditRecordEventType

pub record AuditRecord : Type 0 where
  pub event_id : Text
  pub sequence_number : ℕ
  pub timestamp_unix : ℕ
  pub mission_id : Option Text
  pub event_type : AuditRecordEventType
  pub actor_id : Text
  pub details : Fields
  pub previous_hash : Text
  pub current_hash : Text
  pub signature : Text

pub record EvidenceRecordProvenance : Type 0 where
  pub agent_id : Text
  pub broker_sandbox : Text
  pub kernel_ticket_receipt : Text

pub data EvidenceRecordPayloadType : Type 0 where
  http_response port_survey pcap_header banner_grab service_probe : EvidenceRecordPayloadType

pub data EvidenceRecordTrustLevel : Type 0 where
  raw_untrusted_target_output kernel_verified_signature : EvidenceRecordTrustLevel

pub record EvidenceRecord : Type 0 where
  pub evidence_id : Text
  pub mission_id : Text
  pub originating_action_id : Text
  pub originating_capability : StandardCapability
  pub content_hash : Text
  pub timestamp_unix : ℕ
  pub provenance : EvidenceRecordProvenance
  pub payload_preview : Text
  pub payload_type : EvidenceRecordPayloadType
  pub trust_level : EvidenceRecordTrustLevel
