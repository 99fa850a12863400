-- ===== src/Views/ReportsView.antt =====
-- frontend/src/components/reports/ReportsView.tsx: the reports, beside the selected one, and its
-- export. `JSON.stringify` is a parameter.
use arka.Prelude.{
  ℕ, Bool, Option, none, some, List, [], ◌∷◌, ◌++◌, Text, codes, to_lower_case, map, length,
}
use arka.Types.Findings.{AssessmentReport, AssessmentReportFormat}
use arka.Formatting.{format_timestamp, replace_first}
use arka.Views.Chosen.{chosen, first_key, is_marked}

pub record ReportsPanel : Type 0 where
  pub selected_report_id : Text
  pub download_success : Option Text

unfoldable pub initial_reports : List AssessmentReport → ReportsPanel
initial_reports reports = record {
  selected_report_id = first_key (λ r. r.report_id) reports;
  download_success = none;
}

unfoldable pub selected_report : ReportsPanel → List AssessmentReport → Option AssessmentReport
unfolding chosen
selected_report s reports = chosen (λ r. r.report_id) s.selected_report_id reports

-- A file that the browser is told to save
pub record Download : Type 0 where
  pub filename : Text
  pub content : Text

unfoldable pub download_of : (AssessmentReport → Text) → Text → AssessmentReport → Download
download_of json_stringify format report = record {
  filename =
      codes "arka-assessment-"
      ++ (report.report_id
          ++ (codes "."
              ++ (replace_first b'_' (codes "-") (to_lower_case format) ++ codes ".json")));
  content = json_stringify report;
}

abbrev exported : Text → ReportsPanel → ReportsPanel
exported format s = record s {
  download_success = some (codes "Exported report in " ++ (format ++ codes " format."));
}

-- `handleDownload`, for the report in the preview
unfoldable pub handle_download :
    (AssessmentReport → Text)
    → Text
    → Option AssessmentReport
    → ReportsPanel
    → ReportsPanel × Option Download
unfolding download_of
handle_download json_stringify format none s = (s, none)
handle_download json_stringify format (some report) s =
    (exported format s, some (download_of json_stringify format report))

-- what it schedules
unfoldable pub download_expired : ReportsPanel → ReportsPanel
download_expired s = record s { download_success = none }

pub record ReportRow : Type 0 where
  pub is_selected : Bool
  pub report_id : Text
  pub seal : Text
  pub format : AssessmentReportFormat
  pub generated : Text

unfoldable pub report_row : (ℕ → Text) → ReportsPanel → AssessmentReport → ReportRow
unfolding is_marked
report_row to_iso_string s r = record {
  is_selected = is_marked (λ x. x.report_id) s.selected_report_id r;
  report_id = r.report_id;
  seal = codes "SIGNED";
  format = r.format;
  generated = format_timestamp to_iso_string r.generated_at_unix;
}

pub record ReportPreview : Type 0 where
  pub verdict : Text
  pub report_id : Text
  pub mission_id : Text
  pub executive_summary : Text
  pub distribution : List (Text × ℕ)
  pub scope_digest : Text
  pub tamper_evident_signature : Text

-- The verdict does not read `audit_chain_verified`.
unfoldable pub report_preview : Option AssessmentReport → Option ReportPreview
report_preview none = none
report_preview (some r) = some (record {
  verdict = codes "AUDIT CHAIN VERIFIED";
  report_id = r.report_id;
  mission_id = r.mission_id;
  executive_summary = r.executive_summary;
  distribution =
      (codes "CRITICAL", r.findings_count.critical)
      ∷ (codes "HIGH", r.findings_count.high)
      ∷ (codes "MEDIUM", r.findings_count.medium)
      ∷ (codes "LOW", r.findings_count.low)
      ∷ (codes "INFO", r.findings_count.info)
      ∷ [];
  scope_digest = r.scope_digest;
  tamper_evident_signature = r.tamper_evident_signature;
})

pub record ReportsPage : Type 0 where
  pub total : ℕ
  pub rows : List ReportRow
  pub notice : Option Text
  pub preview : Option ReportPreview

unfoldable pub reports_page : (ℕ → Text) → ReportsPanel → List AssessmentReport → ReportsPage
unfolding report_row report_preview selected_report
reports_page to_iso_string s reports = record {
  total = length reports;
  rows = map (report_row to_iso_string s) reports;
  notice = s.download_success;
  preview = report_preview (selected_report s reports);
}
