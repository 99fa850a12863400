-- ===== src/Views/FindingsTraceTable.antt =====
-- frontend/src/components/trace/FindingsTraceTable.tsx: search, filters, order and pages of the
-- findings. `localeCompare` is a parameter; `Array.prototype.sort` is a stable sort.
pub mod Shown
pub mod Sorted
pub mod Pages
pub mod Rows
pub mod Page
use Prim.Native.Nat.{◌/◌, zero, suc}
use arka.Prelude.{
  ℕ, ◌+◌, ◌-◌, ◌*◌, Bool, true, false, not, ◌&&◌, ◌||◌, ◌==◌, leb, Option, none, some, List, [],
  ◌∷◌, Text, codes, trim, is_empty, includes, to_lower_case, text_eq, filter, if◌then◌else◌, length,
  take, drop, max, min, ℤ, pos, negsuc,
}
use arka.Types.Core.{ProposalDecision}
use arka.Types.FindingsTrace.{FindingTraceItem, FindingSeverity}

pub data SortField : Type 0 where
  by_severity by_detected_at_unix by_risk_score by_finding_id : SortField

pub data SortOrder : Type 0 where
  asc desc : SortOrder

-- `SEVERITY_WEIGHT`
severity_weight : FindingSeverity → ℕ
severity_weight FindingSeverity.critical = 5
severity_weight FindingSeverity.high = 4
severity_weight FindingSeverity.medium = 3
severity_weight FindingSeverity.low = 2
severity_weight FindingSeverity.informational = 1

abbrev pub severity_text : FindingSeverity → Text
severity_text FindingSeverity.critical = codes "CRITICAL"
severity_text FindingSeverity.high = codes "HIGH"
severity_text FindingSeverity.medium = codes "MEDIUM"
severity_text FindingSeverity.low = codes "LOW"
severity_text FindingSeverity.informational = codes "INFORMATIONAL"

abbrev pub decision_text : ProposalDecision → Text
decision_text ProposalDecision.allow = codes "ALLOW"
decision_text ProposalDecision.deny = codes "DENY"
decision_text ProposalDecision.require_approval = codes "REQUIRE_APPROVAL"
decision_text ProposalDecision.invalid_proposal = codes "INVALID_PROPOSAL"
decision_text ProposalDecision.expired_proposal = codes "EXPIRED_PROPOSAL"
decision_text ProposalDecision.unavailable_dependency = codes "UNAVAILABLE_DEPENDENCY"

-- The four filters that the view is given
pub record Filters : Type 0 where
  pub search_query : Text
  pub selected_agent : Text
  pub selected_severity : Text
  pub selected_decision : Text

-- `item.cve_id ? item.cve_id.toLowerCase().includes(q) : false`
cve_matches : Text → Option Text → Bool
cve_matches q none = false
cve_matches q (some cve) = not (is_empty cve) && includes (to_lower_case cve) q

matches_query : Text → FindingTraceItem → Bool
unfolding cve_matches
matches_query q item =
    includes (to_lower_case item.finding_id) q
    || includes (to_lower_case item.title) q
    || includes (to_lower_case item.target) q
    || cve_matches q item.cve_id

-- A filter that is set to a value, and not to "ALL", wants that value.
passes : (selected value : Text) → Bool
passes selected value =
    is_empty selected || text_eq selected (codes "ALL") || text_eq value selected

unfoldable pub is_shown : Filters → FindingTraceItem → Bool
unfolding matches_query passes
is_shown w item =
    (is_empty (trim w.search_query) || matches_query (to_lower_case w.search_query) item)
    && passes w.selected_agent item.source_agent
    && passes w.selected_severity (severity_text item.severity)
    && passes w.selected_decision (decision_text item.policy_decision)

unfoldable pub filtered_findings : Filters → List FindingTraceItem → List FindingTraceItem
filtered_findings w findings = filter (is_shown w) findings

-- `a - b` and `-z`
minus : ℕ → ℕ → ℤ
minus a b = if leb b a then pos (a - b) else negsuc (b - a - 1)

unfoldable pub negate : ℤ → ℤ
negate (pos zero) = pos 0
negate (pos (suc n)) = negsuc n
negate (negsuc n) = pos (suc n)

module _ (locale_compare : Text → Text → ℤ) where
  comparison : SortField → FindingTraceItem → FindingTraceItem → ℤ
  unfolding minus severity_weight
  comparison by_severity a b = minus (severity_weight a.severity) (severity_weight b.severity)
  comparison by_risk_score a b = minus a.risk_score b.risk_score
  comparison by_finding_id a b = locale_compare a.finding_id b.finding_id
  comparison by_detected_at_unix a b = minus a.detected_at_unix b.detected_at_unix

  comparator : SortField → SortOrder → FindingTraceItem → FindingTraceItem → ℤ
  unfolding comparison negate
  comparator field asc a b = comparison field a b
  comparator field desc a b = negate (comparison field a b)

-- Whether a comparator leaves `a`, the earlier one, in front of `b`
unfoldable pub keeps_order : ℤ → Bool
keeps_order (pos n) = n == 0
keeps_order (negsuc n) = true

-- `Array.prototype.sort`, which is stable
module _ {A : Type 0} (cmp : A → A → ℤ) where
  insert : A → List A → List A
  unfolding keeps_order
  insert x [] = x ∷ []
  insert x (y ∷ ys) =
      let rest = insert x ys in if keeps_order (cmp x y) then x ∷ y ∷ ys else y ∷ rest

  unfoldable pub sort : List A → List A
  unfolding insert
  sort [] = []
  sort (x ∷ xs) = insert x (sort xs)

unfoldable pub sorted_findings :
    (Text → Text → ℤ) → SortField → SortOrder → List FindingTraceItem → List FindingTraceItem
unfolding sort comparator
sorted_findings locale_compare field order findings =
    sort (comparator locale_compare field order) findings

abbrev pub page_size : ℕ
page_size = 10

-- `Math.max(1, Math.ceil(length / pageSize))`
unfoldable pub total_pages : List FindingTraceItem → ℕ
total_pages xs = max 1 ((length xs + (page_size - 1)) / page_size)

-- The slice of a page; that of page 0 would run from -10 to 0 and is empty.
unfoldable pub paginated_findings : ℕ → List FindingTraceItem → List FindingTraceItem
paginated_findings zero xs = []
paginated_findings (suc n) xs = take page_size (drop (n * page_size) xs)

pub record TableState : Type 0 where
  pub sort_field : SortField
  pub sort_order : SortOrder
  pub current_page : ℕ

abbrev pub initial_table : TableState
initial_table = record { sort_field = by_detected_at_unix; sort_order = desc; current_page = 1 }

field_rank : SortField → ℕ
field_rank by_severity = 0
field_rank by_detected_at_unix = 1
field_rank by_risk_score = 2
field_rank by_finding_id = 3

flip : SortOrder → SortOrder
flip asc = desc
flip desc = asc

unfoldable pub handle_sort : SortField → TableState → TableState
unfolding field_rank flip
handle_sort field t =
    if field_rank t.sort_field == field_rank field
    then record t { sort_order = flip t.sort_order }
    else record t { sort_field = field; sort_order = desc }

-- The two buttons of the pager
unfoldable pub previous_page : TableState → TableState
previous_page t = record t { current_page = max 1 (t.current_page - 1) }

unfoldable pub next_page : ℕ → TableState → TableState
next_page total t = record t { current_page = min total (t.current_page + 1) }

-- A change of any of the four filters
unfoldable pub filters_changed : TableState → TableState
filters_changed t = record t { current_page = 1 }
