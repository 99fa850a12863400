-- ===== src/Views/FindingsTraceTable/Page/Numbers.antt =====
-- frontend/src/components/trace/FindingsTraceTable.tsx: the numbers under the page in view.
use Prim.Native.Nat.{suc}
use arka.Prelude.{
  ℕ, ◌+◌, ◌*◌, ◌-◌, ◌≤◌, ◌<◌, ◌≡◌, ◌∙◌, min, List, arith, length, length-take, length-drop, drop,
  refl,
}
use arka.Types.FindingsTrace.{FindingTraceItem}
use arka.Views.FindingsTraceTable.{page_size, total_pages, paginated_findings}
use arka.Views.FindingsTraceTable.Page.{footer}

length-page :
    (before : ℕ) (xs : List FindingTraceItem)
    → length (paginated_findings (suc before) xs) ≡ min page_size (length xs - before * page_size)
unfolding paginated_findings
length-page before xs =
    rw (length-take page_size (drop (before * page_size) xs), length-drop (before * page_size) xs)

-- On a page that exists, the footer counts the rows in view: from its first number to its last there
-- are as many as the page has, and both are 0 when there are no findings at all.
pub footer-paginated_findings :
    (before : ℕ) (xs : List FindingTraceItem)
    → suc before ≤ total_pages xs
    → (footer (suc before) xs).first + length (paginated_findings (suc before) xs)
      ≡ (footer (suc before) xs).last + min 1 (length xs)
unfolding footer total_pages
footer-paginated_findings before xs h = let e = length-page before xs in ground (arith, e)

-- On a page past the last one, no finding is in view, while the footer says that all are up to the
-- last one.
pub footer_past_the_end :
    (before : ℕ) (xs : List FindingTraceItem)
    → total_pages xs < suc before
    → (length (paginated_findings (suc before) xs) ≡ 0)
      × ((footer (suc before) xs).first ≡ 0)
      × ((footer (suc before) xs).last ≡ length xs)
unfolding footer total_pages
footer_past_the_end before xs h =
    let e = length-page before xs in
    let gone : length (paginated_findings (suc before) xs) ≡ 0 = e ∙ omega arith in
    (gone, rw gone refl, omega arith)
