-- ===== src/Views/FindingsTraceTable/Pages.antt =====
-- frontend/src/components/trace/FindingsTraceTable.tsx: the pages of the table, and the pager.
use Prim.Native.Nat.{zero, suc}
use arka.Prelude.{
  ℕ, ◌+◌, ◌*◌, ◌≤◌, ◌≡◌, refl, ◌∙◌, List, [], ◌++◌, arith, length, take, drop, take-add, drop-drop,
  take_all,
}
use arka.Types.FindingsTrace.{FindingTraceItem}
use arka.Views.FindingsTraceTable.{
  page_size, total_pages, paginated_findings, TableState, SortField, handle_sort, previous_page,
  next_page, filters_changed,
}

-- The rows of `count` pages, from the page behind `before` pages on.
abbrev pub pages_from : ℕ → ℕ → List FindingTraceItem → List FindingTraceItem
pages_from before zero xs = []
pages_from before (suc count) xs =
    paginated_findings (suc before) xs ++ pages_from (suc before) count xs

pages_from-take :
    (before count : ℕ) (xs : List FindingTraceItem)
    → pages_from before count xs ≡ take (count * page_size) (drop (before * page_size) xs)
unfolding paginated_findings
pages_from-take before zero xs = refl
pages_from-take before (suc count) xs =
    let longer : suc count * page_size ≡ page_size + count * page_size = omega arith in
    let further : suc before * page_size ≡ before * page_size + page_size = omega arith in
    rw (
      pages_from-take (suc before) count xs,
      longer,
      further,
      take-add page_size (count * page_size) (drop (before * page_size) xs),
      drop-drop (before * page_size) page_size xs,
      paginated_findings,
    )

total_pages-covers : (xs : List FindingTraceItem) → length xs ≤ total_pages xs * page_size
unfolding total_pages
total_pages-covers xs = omega arith

-- The pages from the first to the last, one after the other, are all rows, each once and in order.
pub total_pages-pages_from : (xs : List FindingTraceItem) → pages_from 0 (total_pages xs) xs ≡ xs
total_pages-pages_from xs =
    pages_from-take 0 (total_pages xs) xs ∙ take_all _ xs (total_pages-covers xs)

-- The page in view exists.
abbrev pub OnPage : ℕ → TableState → Type 0
OnPage total t = (1 ≤ t.current_page) × (t.current_page ≤ total)

handle_sort-current_page :
    (field : SortField) (t : TableState) → (handle_sort field t).current_page ≡ t.current_page
unfolding handle_sort
handle_sort-current_page field t = ground arith

-- While the rows are the same, no button leads to a page that does not exist, and a change of the
-- filters leads to the first page, which always does.
pub pager-OnPage :
    (xs ys : List FindingTraceItem) (field : SortField) (t : TableState)
    → OnPage (total_pages xs) t
    → OnPage (total_pages xs) (previous_page t)
      × OnPage (total_pages xs) (next_page (total_pages xs) t)
      × OnPage (total_pages xs) (handle_sort field t)
      × OnPage (total_pages ys) (filters_changed t)
unfolding previous_page next_page filters_changed total_pages
pager-OnPage xs ys field t (lo, hi) = (
  (omega arith, omega arith),
  (omega arith, omega arith),
  rw (handle_sort-current_page field t) (lo, hi),
  (omega arith, omega arith),
)
