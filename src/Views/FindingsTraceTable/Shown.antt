-- ===== src/Views/FindingsTraceTable/Shown.antt =====
-- Which findings the table shows.
use mathlib.Core.Bool.{and-eq-true_iff}
use arka.Prelude.{
  ◌≡◌, ◌≢◌, ◌↔◌, ◌⊎◌, refl, inl, inr, true, ◌||◌, Option, none, some, [], ◌∷◌, arith, Text, codes,
  trim, is_empty, includes, to_lower_case, text_eq, text_eq_iff, or-cases, not,
}
use arka.Types.FindingsTrace.{FindingTraceItem}
use arka.Views.FindingsTraceTable.{
  Filters, severity_text, decision_text, cve_matches, matches_query, passes, is_shown,
}

-- The query stands in the finding's id, title, target or CVE number.
abbrev pub Finds : Text → FindingTraceItem → Type 0
Finds q item =
    (includes (to_lower_case item.finding_id) q ≡ true)
    ⊎ ((includes (to_lower_case item.title) q ≡ true)
        ⊎ ((includes (to_lower_case item.target) q ≡ true)
            ⊎ ((cve : Text) × (item.cve_id ≡ some cve)
                × (cve ≢ [])
                × (includes (to_lower_case cve) q ≡ true))))

-- A filter is not set, is "ALL", or is the value.
abbrev pub Passes : Text → Text → Type 0
Passes selected value = (selected ≡ []) ⊎ ((selected ≡ codes "ALL") ⊎ (value ≡ selected))

abbrev pub Shown : Filters → FindingTraceItem → Type 0
Shown w item =
    ((trim w.search_query ≡ []) ⊎ Finds (to_lower_case w.search_query) item)
    × Passes w.selected_agent item.source_agent
    × Passes w.selected_severity (severity_text item.severity)
    × Passes w.selected_decision (decision_text item.policy_decision)

empty_sound : (t : Text) → is_empty t ≡ true → t ≡ []
empty_sound [] h = refl
empty_sound (c ∷ t) h = cc

empty_complete : (t : Text) → t ≡ [] → is_empty t ≡ true
empty_complete t h = rw h

given_complete : (t : Text) → t ≢ [] → not (is_empty t) ≡ true
given_complete [] h = absurd (h refl)
given_complete (c ∷ t) h = refl

given_sound : (t : Text) → not (is_empty t) ≡ true → t ≢ []
given_sound [] h = cc
given_sound (c ∷ t) h = λ e. cc

passes-Passes : (selected value : Text) → (passes selected value ≡ true) ↔ Passes selected value
unfolding passes
passes-Passes selected value = (sound selected value, complete selected value)
  where
    sound :
        (selected value : Text)
        → (is_empty selected || text_eq selected (codes "ALL") || text_eq value selected) ≡ true
        → Passes selected value
    sound selected value h = elim (or-cases _ _ h) [
      | inl k ↦ elim (or-cases _ _ k) [
        | inl none_set ↦ inl (empty_sound selected none_set)
        | inr all_set ↦ inr (inl ((text_eq_iff _ _).0 all_set))
      ]
      | inr same ↦ inr (inr ((text_eq_iff _ _).0 same))
    ]

    complete :
        (selected value : Text)
        → Passes selected value
        → (is_empty selected || text_eq selected (codes "ALL") || text_eq value selected) ≡ true
    complete selected value (inl h) = rw (empty_complete selected h)
    complete selected value (inr (inl h)) =
        let e = (text_eq_iff selected (codes "ALL")).1 h in ground (arith, e)
    complete selected value (inr (inr h)) =
        let e = (text_eq_iff value selected).1 h in ground (arith, e)

cve_sound :
    (q : Text) (o : Option Text)
    → cve_matches q o ≡ true
    → (cve : Text) × (o ≡ some cve) × (cve ≢ []) × (includes (to_lower_case cve) q ≡ true)
unfolding cve_matches
cve_sound q none h = cc
cve_sound q (some cve) h =
    let (given, found) = (and-eq-true_iff _ _).0 h in (cve, refl, given_sound cve given, found)

cve_complete :
    (q cve : Text)
    → cve ≢ []
    → includes (to_lower_case cve) q ≡ true
    → cve_matches q (some cve) ≡ true
unfolding cve_matches
cve_complete q cve h k = rw (given_complete cve h, k)

query_sound : (q : Text) (item : FindingTraceItem) → matches_query q item ≡ true → Finds q item
unfolding matches_query
query_sound q item h = elim (or-cases _ _ h) [
  | inl k ↦ elim (or-cases _ _ k) [
    | inl l ↦ elim (or-cases _ _ l) [ inl by_id ↦ inl by_id | inr by_title ↦ inr (inl by_title) ]
    | inr by_target ↦ inr (inr (inl by_target))
  ]
  | inr by_cve ↦ inr (inr (inr (cve_sound q item.cve_id by_cve)))
]

query_complete : (q : Text) (item : FindingTraceItem) → Finds q item → matches_query q item ≡ true
unfolding matches_query
query_complete q item (inl h) = ground (arith, h)
query_complete q item (inr (inl h)) = ground (arith, h)
query_complete q item (inr (inr (inl h))) = ground (arith, h)
query_complete q item (inr (inr (inr (cve, e, given, h)))) =
    rw e (ground (arith, cve_complete q cve given h))

-- A finding is shown exactly when the query is blank or found in it and each of the three filters
-- is unset, "ALL" or the finding's value.
pub is_shown_iff : (w : Filters) (item : FindingTraceItem) → (is_shown w item ≡ true) ↔ Shown w item
unfolding is_shown
is_shown_iff w item = (
  λ h.
      let (h3, d) = (and-eq-true_iff _ _).0 h in
      let (h2, s) = (and-eq-true_iff _ _).0 h3 in
      let (q, a) = (and-eq-true_iff _ _).0 h2 in
      (
        elim (or-cases _ _ q) [
          | inl blank ↦ inl (empty_sound _ blank)
          | inr found ↦ inr (query_sound _ item found)
        ],
        (passes-Passes _ _).0 a,
        (passes-Passes _ _).0 s,
        (passes-Passes _ _).0 d,
      ),
  λ (q, a, s, d). (and-eq-true_iff _ _).1 (
    (and-eq-true_iff _ _).1 (
      (and-eq-true_iff _ _).1 (query_shown w item q, (passes-Passes _ _).1 a),
      (passes-Passes _ _).1 s,
    ),
    (passes-Passes _ _).1 d,
  ),
)
  where
    query_shown :
        (w : Filters) (item : FindingTraceItem)
        → (trim w.search_query ≡ []) ⊎ Finds (to_lower_case w.search_query) item
        → (is_empty (trim w.search_query) || matches_query (to_lower_case w.search_query) item)
          ≡ true
    query_shown w item (inl h) = rw (empty_complete _ h)
    query_shown w item (inr h) =
        let e = query_complete (to_lower_case w.search_query) item h in ground (arith, e)
