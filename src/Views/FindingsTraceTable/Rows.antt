-- ===== src/Views/FindingsTraceTable/Rows.antt =====
-- The whole table: filter, order and pages together.
use mathlib.Core.List.{Perm}
use arka.Prelude.{sym, subst, List, Text, ℤ}
use arka.Types.FindingsTrace.{FindingTraceItem}
use arka.Views.FindingsTraceTable.{
  SortField, SortOrder, Filters, filtered_findings, comparator, sorted_findings, total_pages,
}
use arka.Views.FindingsTraceTable.Pages.{pages_from, total_pages-pages_from}
use arka.Views.FindingsTraceTable.Sorted.{sort-Perm}

-- Whatever `localeCompare` is and however the table is filtered and ordered, its pages together hold
-- exactly the findings that pass the filters, each as often as it is given.
pub pages_from-Perm :
    (locale_compare : Text → Text → ℤ) (w : Filters) (field : SortField) (order : SortOrder)
    (findings : List FindingTraceItem)
    → Perm
        (pages_from 0
          (total_pages (sorted_findings locale_compare field order (filtered_findings w findings)))
          (sorted_findings locale_compare field order (filtered_findings w findings)))
        (filtered_findings w findings)
unfolding sorted_findings
pages_from-Perm locale_compare w field order findings =
    subst (λ rows. Perm rows (filtered_findings w findings)) (sym (total_pages-pages_from _))
      (sort-Perm (comparator locale_compare field order) (filtered_findings w findings))
