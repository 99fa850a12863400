-- ===== src/Views/FindingsTraceTable/Page.antt =====
-- frontend/src/components/trace/FindingsTraceTable.tsx: what the table shows and what its controls
-- do. `aria` texts, styles and the labels of the columns are left out.
pub mod Agents
pub mod Numbers
use Prim.Native.Nat.{suc}
use arka.Prelude.{
  is_text, ℕ, ◌+◌, ◌-◌, ◌*◌, ◌==◌, min, ℤ, Bool, true, false, not, ◌||◌, Option, none, some, List,
  [], ◌∷◌, ◌++◌, map, any, Text, codes, text_eq, is_empty, if◌then◌else◌, length, to_string,
}
use arka.Types.Core.{ProposalDecision}
use arka.Types.FindingsTrace.{FindingTraceItem, FindingSeverity, FindingConfidence, ValidationState}
use arka.Formatting.{format_timestamp, replace_first}
use arka.Views.FindingsTraceTable.{
  SortField, Filters, TableState, severity_text, decision_text, filtered_findings, sorted_findings,
  total_pages, page_size, paginated_findings, handle_sort, previous_page, next_page,
  filters_changed,
}

-- `set.add(a)` of a set in the order of its insertions
unfoldable pub add : Text → List Text → List Text
add a agents = if any (text_eq a) agents then agents else agents ++ (a ∷ [])

unfoldable pub add_all : List FindingTraceItem → List Text → List Text
unfolding add
add_all [] agents = agents
add_all (f ∷ fs) agents = add_all fs (add f.source_agent agents)

unfoldable pub unique_agents : List FindingTraceItem → List Text
unfolding add_all
unique_agents findings = add_all findings []

pub data Tone : Type 0 where
  danger warning amber muted neutral success : Tone

pub record Badge : Type 0 where
  pub tone : Tone
  pub label : Text

unfoldable pub severity_badge : FindingSeverity → Badge
severity_badge FindingSeverity.critical = record { tone = danger; label = codes "CRITICAL" }
severity_badge FindingSeverity.high = record { tone = warning; label = codes "HIGH" }
severity_badge FindingSeverity.medium = record { tone = amber; label = codes "MEDIUM" }
severity_badge FindingSeverity.low = record { tone = muted; label = codes "LOW" }
severity_badge FindingSeverity.informational = record {
  tone = muted;
  label = codes "INFORMATIONAL";
}

unfoldable pub decision_badge : ProposalDecision → Badge
decision_badge ProposalDecision.deny = record { tone = danger; label = codes "DENIED" }
decision_badge ProposalDecision.allow = record { tone = success; label = codes "ALLOWED" }
decision_badge ProposalDecision.require_approval = record {
  tone = warning;
  label = codes "PENDING APPROVAL";
}
decision_badge ProposalDecision.invalid_proposal = record {
  tone = neutral;
  label = codes "INVALID_PROPOSAL";
}
decision_badge ProposalDecision.expired_proposal = record {
  tone = neutral;
  label = codes "EXPIRED_PROPOSAL";
}
decision_badge ProposalDecision.unavailable_dependency = record {
  tone = neutral;
  label = codes "UNAVAILABLE_DEPENDENCY";
}

unfoldable pub validation_badge : ValidationState → Badge
validation_badge ValidationState.validated = record { tone = success; label = codes "Validated" }
validation_badge ValidationState.pending = record { tone = warning; label = codes "Pending" }
validation_badge ValidationState.invalid = record { tone = danger; label = codes "INVALID" }
validation_badge ValidationState.anomalous = record { tone = danger; label = codes "ANOMALOUS" }

abbrev confidence_text : FindingConfidence → Text
confidence_text FindingConfidence.confirmed_exploit = codes "CONFIRMED_EXPLOIT"
confidence_text FindingConfidence.observed_anomaly = codes "OBSERVED_ANOMALY"
confidence_text FindingConfidence.theoretical_match = codes "THEORETICAL_MATCH"

-- `cve_id ? ` · ${cve_id}` : ''`
abbrev cve_suffix : Option Text → Text
cve_suffix none = []
cve_suffix (some cve) = if is_empty cve then [] else codes " · " ++ cve

pub record Row : Type 0 where
  pub finding_id : Text
  pub is_selected : Bool
  pub title : Text
  pub target : Text
  pub severity : Badge
  pub confidence_percentage : ℕ
  pub confidence : Text
  pub source_agent : Text
  pub validation : Badge
  pub decision : Badge
  pub detected : Text

unfoldable pub row : (ℕ → Text) → Option Text → FindingTraceItem → Row
unfolding severity_badge decision_badge validation_badge
row to_iso_string selected_finding_id item = record {
  finding_id = item.finding_id;
  is_selected = is_text selected_finding_id item.finding_id;
  title = item.title;
  target = item.target ++ cve_suffix item.cve_id;
  severity = severity_badge item.severity;
  confidence_percentage = item.confidence_percentage;
  confidence = replace_first b'_' (codes " ") (confidence_text item.confidence);
  source_agent = item.source_agent;
  validation = validation_badge item.validation_state;
  decision = decision_badge item.policy_decision;
  detected = format_timestamp to_iso_string item.detected_at_unix;
}

-- The values that the filters on the severity and on the decision offer
abbrev pub severity_options : List Text
severity_options = codes "ALL" ∷ codes "CRITICAL" ∷ codes "HIGH" ∷ codes "MEDIUM" ∷ codes "LOW" ∷ []

abbrev pub decision_options : List Text
decision_options = codes "ALL" ∷ codes "DENY" ∷ codes "ALLOW" ∷ codes "REQUIRE_APPROVAL" ∷ []

unfoldable pub agent_options : List FindingTraceItem → List Text
unfolding unique_agents
agent_options findings = codes "ALL" ∷ unique_agents findings

unfoldable pub has_reset_button : Filters → Bool
has_reset_button w =
    not (is_empty w.search_query)
    || not (text_eq w.selected_agent (codes "ALL"))
    || not (text_eq w.selected_severity (codes "ALL"))
    || not (text_eq w.selected_decision (codes "ALL"))

abbrev pub all_findings : Filters
all_findings = record {
  search_query = [];
  selected_agent = codes "ALL";
  selected_severity = codes "ALL";
  selected_decision = codes "ALL";
}

-- The controls of the table; the filters stand in the view that holds it.
pub data Control : Type 0 where
  search_changed agent_changed severity_changed decision_changed : Text → Control
  reset_pressed previous_pressed next_pressed : Control
  sort_pressed : SortField → Control

unfoldable pub press : ℕ → Control → Filters × TableState → Filters × TableState
unfolding filters_changed previous_page next_page handle_sort
press total (search_changed text) (w, t) = (record w { search_query = text }, filters_changed t)
press total (agent_changed text) (w, t) = (record w { selected_agent = text }, filters_changed t)
press total (severity_changed text) (w, t) =
    (record w { selected_severity = text }, filters_changed t)
press total (decision_changed text) (w, t) =
    (record w { selected_decision = text }, filters_changed t)
press total reset_pressed (w, t) = (all_findings, filters_changed t)
press total previous_pressed (w, t) = (w, previous_page t)
press total next_pressed (w, t) = (w, next_page total t)
press total (sort_pressed field) (w, t) = (w, handle_sort field t)

-- `Showing first–last of all findings`
pub record Footer : Type 0 where
  pub first : ℕ
  pub last : ℕ
  pub all : ℕ
  pub previous_disabled : Bool
  pub position : Text
  pub next_disabled : Bool

-- `xs` are the sorted findings; the first number is 0 when the page is empty.
unfoldable pub footer : ℕ → List FindingTraceItem → Footer
unfolding total_pages paginated_findings
footer current_page xs = record {
  first =
      if length (paginated_findings current_page xs) == 0
      then 0
      else (current_page - 1) * page_size + 1;
  last = min (current_page * page_size) (length xs);
  all = length xs;
  previous_disabled = current_page == 1;
  position = to_string current_page ++ (codes " / " ++ to_string (total_pages xs));
  next_disabled = current_page == total_pages xs;
}

-- The rows of the page in view; none is the line "No findings matching current filters."
pub record Table : Type 0 where
  pub count : ℕ
  pub agents : List Text
  pub reset : Bool
  pub rows : List Row
  pub footer : Footer

module _ (to_iso_string : ℕ → Text) (locale_compare : Text → Text → ℤ) where
  unfoldable pub table : List FindingTraceItem → Option Text → Filters → TableState → Table
  unfolding filtered_findings sorted_findings paginated_findings row footer has_reset_button
      agent_options
  table findings selected_finding_id w t =
      let sorted =
        sorted_findings locale_compare t.sort_field t.sort_order (filtered_findings w findings) in
      record {
        count = length sorted;
        agents = agent_options findings;
        reset = has_reset_button w;
        rows =
            map (row to_iso_string selected_finding_id) (paginated_findings t.current_page sorted);
        footer = footer t.current_page sorted;
      }
