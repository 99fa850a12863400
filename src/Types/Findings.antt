-- ===== src/Types/Findings.antt =====
-- frontend/src/types/findings.ts: its types, field by field. An optional field is an `Option`, a union of
-- string literals a data type, a number a natural number (a risk score or a temperature counts tenths).
-- `data` is a reserved word here: that field is `payload`.
use arka.Prelude.{Text, Bool, ℕ, List, Option}
use arka.Types.FindingsTrace.{FindingConfidence, FindingSeverity}

pub data FindingStatus : Type 0 where
  opened verified false_positive remediated : FindingStatus

pub record Finding : Type 0 where
  pub finding_id : Text
  pub mission_id : Text
  pub title : Text
  pub severity : FindingSeverity
  pub confidence : FindingConfidence
  pub affected_asset : Text
  pub affected_port : Option ℕ
  pub cve_id : Option Text
  pub description_factual : Text
  pub inference_narrative : Text
  pub reproduction_steps : Option (List Text)
  pub remediation_guidance : Text
  pub evidence_refs : List Text
  pub originating_action_id : Text
  pub discovered_at_unix : ℕ
  pub status : FindingStatus

pub data AssessmentReportFormat : Type 0 where
  json_ld standalone_markdown pdf_receipt : AssessmentReportFormat

pub record AssessmentReportFindingsCount : Type 0 where
  pub critical : ℕ
  pub high : ℕ
  pub medium : ℕ
  pub low : ℕ
  pub info : ℕ

pub record AssessmentReport : Type 0 where
  pub report_id : Text
  pub mission_id : Text
  pub generated_at_unix : ℕ
  pub format : AssessmentReportFormat
  pub executive_summary : Text
  pub scope_digest : Text
  pub findings_count : AssessmentReportFindingsCount
  pub audit_chain_verified : Bool
  pub tamper_evident_signature : Text
