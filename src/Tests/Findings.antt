-- ===== src/Tests/Findings.antt =====
-- The theorems on the findings table at concrete findings.
use mathlib.Core.List.{Perm}
use arka.Prelude.{
  ◌==◌, leb, ◌≡◌, ◌+◌, true, All, Any, min, List, [], ◌∷◌, none, Text, codes, length, ℤ, pos,
  negsuc, if◌then◌else◌, arith,
}
use arka.Types.Core.{ProposalDecision}
use arka.Types.FindingsTrace.{
  FindingTraceItem, FindingSeverity, FindingConfidence, FindingTraceItemTargetScopeStatus,
  FindingTraceItemHumanApprovalState, ValidationState,
}
use arka.Views.FindingsTraceTable.{
  Filters, is_shown, paginated_findings, by_severity, by_finding_id, desc, asc, filtered_findings,
  sorted_findings, total_pages, keeps_order, negate,
}
use arka.Views.FindingsTraceTable.Sorted.{IsCollation, Ordered, in_order, sorted_findings_lem}
use arka.Views.FindingsTraceTable.Pages.{pages_from}
use arka.Views.FindingsTraceTable.Rows.{pages_from-Perm}
use arka.Views.FindingsTraceTable.Page.{footer, unique_agents, all_findings}
use arka.Views.FindingsTraceTable.Page.Agents.{IsDistinct, Has, unique_agents_lem}
use arka.Views.FindingsTraceTable.Page.Numbers.{footer-paginated_findings}

abbrev finding : Text → FindingSeverity → FindingTraceItem
finding id severity = record {
  finding_id = id;
  mission_id = codes "m1";
  title = codes "Open port";
  severity = severity;
  risk_score = 55;
  risk_score_scale = codes "CVSS v3.1";
  scoring_source = codes "agent";
  confidence = FindingConfidence.observed_anomaly;
  confidence_percentage = 80;
  source_agent = codes "recon";
  agent_role = codes "recon";
  target = codes "10.0.0.1";
  target_scope_status = FindingTraceItemTargetScopeStatus.in_scope;
  validation_state = ValidationState.validated;
  validation_summary = [];
  policy_decision = ProposalDecision.deny;
  policy_reason = [];
  policy_rule_id = [];
  scope_ref = [];
  kernel_version = [];
  policy_evaluation_time_unix = 10;
  human_approval_state = FindingTraceItemHumanApprovalState.pending;
  approval_id = none;
  bound_action_hash = none;
  detected_at_unix = 9;
  lifecycle_stages = [];
  evidence_artifacts = [];
  audit_events = [];
  factual_description = [];
  remediation_guidance = [];
  cve_id = none;
}

abbrev two : List FindingTraceItem
two = finding (codes "F1") FindingSeverity.low ∷ finding (codes "F22") FindingSeverity.critical ∷ []

abbrev denied : Filters
denied = record {
  search_query = codes "PORT";
  selected_agent = codes "ALL";
  selected_severity = [];
  selected_decision = codes "DENY";
}

-- A collation: shorter text first
abbrev by_length : Text → Text → ℤ
by_length s t =
    if length s == length t then pos 0 else if leb (length s) (length t) then negsuc 0 else pos 1

by_length-IsCollation : IsCollation by_length
unfolding keeps_order negate
by_length-IsCollation = record {
  opposite = λ s t. ground arith;
  total = λ s t h. ground arith;
  trans = λ s t u h k. ground arith;
}

sorted_findings_lem_example :
    Perm (sorted_findings by_length by_severity desc two) two
    × Ordered (in_order by_length by_severity desc) (sorted_findings by_length by_severity desc two)
sorted_findings_lem_example =
    sorted_findings_lem by_length by_severity desc two by_length-IsCollation

pages_from-Perm_example :
    Perm
      (pages_from 0
        (total_pages (sorted_findings by_length by_finding_id asc (filtered_findings denied two)))
        (sorted_findings by_length by_finding_id asc (filtered_findings denied two)))
      (filtered_findings denied two)
pages_from-Perm_example = pages_from-Perm by_length denied by_finding_id asc two

unique_agents_lem_example :
    IsDistinct (unique_agents two)
    × All (λ f. Has (unique_agents two) f.source_agent) two
    × All
        (λ a. Any (λ f. is_shown (record all_findings { selected_agent = a }) f ≡ true) two)
        (unique_agents two)
unique_agents_lem_example = unique_agents_lem two

footer-paginated_findings_example :
    (footer 1 two).first + length (paginated_findings 1 two) ≡ (footer 1 two).last + min 1 2
unfolding total_pages
footer-paginated_findings_example = footer-paginated_findings 0 two (omega arith)
