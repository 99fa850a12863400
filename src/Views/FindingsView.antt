-- ===== src/Views/FindingsView.antt =====
-- frontend/src/components/findings/FindingsView.tsx: the findings, beside the selected one.
use arka.Prelude.{
  ℕ, Bool, Option, none, some, List, [], ◌++◌, Text, codes, is_empty, map, length, if◌then◌else◌,
  to_string,
}
use arka.Types.Findings.{Finding, FindingStatus}
use arka.Types.FindingsTrace.{FindingConfidence, FindingSeverity}
use arka.Views.Badge.{Variant, danger, warning}
use arka.Views.Chosen.{chosen, first_key, is_marked}

-- The view's one cell is the selected id.
unfoldable pub initial_finding : List Finding → Text
initial_finding findings = first_key (λ f. f.finding_id) findings

unfoldable pub selected_row : Text → List Finding → Option Finding
unfolding chosen
selected_row selected_finding_id findings = chosen (λ f. f.finding_id) selected_finding_id findings

abbrev severity_variant : FindingSeverity → Variant
severity_variant FindingSeverity.critical = danger
severity_variant FindingSeverity.high = warning
severity_variant FindingSeverity.medium = warning
severity_variant FindingSeverity.low = warning
severity_variant FindingSeverity.informational = warning

-- `cve_id || fallback`
abbrev cve_or : Option Text → Text → Text
cve_or none fallback = fallback
cve_or (some cve) fallback = if is_empty cve then fallback else cve

-- A missing port is printed as nothing.
abbrev port_text : Option ℕ → Text
port_text none = []
port_text (some port) = to_string port

pub record FindingRow : Type 0 where
  pub is_selected : Bool
  pub heading : Text
  pub variant : Variant
  pub severity : FindingSeverity
  pub title : Text
  pub affected_asset : Text
  pub confidence : FindingConfidence

unfoldable pub finding_row : Text → Finding → FindingRow
unfolding is_marked
finding_row selected_finding_id f = record {
  is_selected = is_marked (λ x. x.finding_id) selected_finding_id f;
  heading = cve_or f.cve_id f.finding_id;
  variant = severity_variant f.severity;
  severity = f.severity;
  title = f.title;
  affected_asset = f.affected_asset;
  confidence = f.confidence;
}

pub record FindingDetails : Type 0 where
  pub title : Text
  pub variant : Variant
  pub severity : FindingSeverity
  pub confidence : FindingConfidence
  pub finding_id : Text
  pub cve : Text
  pub target : Text
  pub status : FindingStatus
  pub description_factual : Text
  pub inference_narrative : Text
  pub remediation_guidance : Text
  -- the records that the buttons open, if the view is given the callback
  pub evidence_buttons : List Text

abbrev buttons_for : Bool → List Text → List Text
buttons_for can_open refs = if can_open then refs else []

unfoldable pub finding_details : Bool → Option Finding → Option FindingDetails
finding_details can_open none = none
finding_details can_open (some f) = some (record {
  title = f.title;
  variant = severity_variant f.severity;
  severity = f.severity;
  confidence = f.confidence;
  finding_id = f.finding_id;
  cve = cve_or f.cve_id (codes "N/A");
  target = f.affected_asset ++ (codes ":" ++ port_text f.affected_port);
  status = f.status;
  description_factual = f.description_factual;
  inference_narrative = f.inference_narrative;
  remediation_guidance = f.remediation_guidance;
  evidence_buttons = buttons_for can_open f.evidence_refs;
})

pub record FindingsPage : Type 0 where
  pub total : ℕ
  pub rows : List FindingRow
  pub details : Option FindingDetails

unfoldable pub findings_page : Bool → Text → List Finding → FindingsPage
unfolding finding_row finding_details selected_row
findings_page can_open selected_finding_id findings = record {
  total = length findings;
  rows = map (finding_row selected_finding_id) findings;
  details = finding_details can_open (selected_row selected_finding_id findings);
}
