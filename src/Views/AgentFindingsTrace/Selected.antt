-- ===== src/Views/AgentFindingsTrace/Selected.antt =====
-- frontend/src/components/trace/AgentFindingsTraceView.tsx: the selection after the effects.
use arka.Prelude.{
  Bool, true, false, ◌⊎◌, inl, inr, Option, none, some, List, [], ◌∷◌, Text, ◌≡◌, refl, ap, subst,
  ◌∙◌, any, find, Bool-cases, Option-cases, text_eq_refl,
}
use arka.Types.FindingsTrace.{FindingTraceItem}
use arka.Views.AgentFindingsTrace.{
  TraceView, Event, panel_closed, load_effect, start_load, select_effect, flush, handle, run,
  is_selected, selected_finding, first_id, same_id,
}

pub load_effect-findings : (v : TraceView) → (load_effect v).findings ≡ v.findings
unfolding load_effect start_load
load_effect-findings v = elim (Option-cases v.ran_for) [
  | inl e ↦ rw e
  | inr (id, e) ↦ elim (Bool-cases (same_id id v.selected_finding_id)) [
    | inl s ↦ rw (e, s)
    | inr s ↦ rw (e, s)
  ]
]

pub load_effect-selected :
    (v : TraceView) → (load_effect v).selected_finding_id ≡ v.selected_finding_id
unfolding load_effect start_load
load_effect-selected v = elim (Option-cases v.ran_for) [
  | inl e ↦ rw e
  | inr (id, e) ↦ elim (Bool-cases (same_id id v.selected_finding_id)) [
    | inl s ↦ rw (e, s)
    | inr s ↦ rw (e, s)
  ]
]

-- The selected id is that of a finding, if there are any.
pub IsSelected : List FindingTraceItem → Option Text → Type 0
IsSelected findings selected = (findings ≡ []) ⊎ (any (is_selected selected) findings ≡ true)

select_effect-findings : (v : TraceView) → (select_effect v).findings ≡ v.findings
unfolding select_effect
select_effect-findings v = elim (Bool-cases (any (is_selected v.selected_finding_id) v.findings)) [
  | inl e ↦ rw e
  | inr e ↦ rw e
]

first_id-IsSelected :
    (findings : List FindingTraceItem) (selected : Option Text)
    → IsSelected findings (first_id findings selected)
unfolding IsSelected
first_id-IsSelected [] selected = inl refl
first_id-IsSelected (f ∷ fs) selected = inr (rw (text_eq_refl f.finding_id))

pub select_effect-IsSelected :
    (v : TraceView) → IsSelected v.findings (select_effect v).selected_finding_id
unfolding select_effect
select_effect-IsSelected v =
    elim (Bool-cases (any (is_selected v.selected_finding_id) v.findings)) [
      | inl e ↦ rw e (unfold IsSelected in inr e)
      | inr e ↦ rw e (first_id-IsSelected v.findings v.selected_finding_id)
    ]

pub flush-findings : (v : TraceView) → (flush v).findings ≡ v.findings
unfolding flush
flush-findings v = rw (
  load_effect-findings (select_effect (load_effect v)),
  select_effect-findings (load_effect v),
  load_effect-findings v,
)

pub flush-selected :
    (v : TraceView)
    → (flush v).selected_finding_id ≡ (select_effect (load_effect v)).selected_finding_id
unfolding flush
flush-selected v = load_effect-selected (select_effect (load_effect v))

flush-IsSelected : (v : TraceView) → IsSelected (flush v).findings (flush v).selected_finding_id
flush-IsSelected v =
    rw (flush-findings v, flush-selected v)
      (subst (λ fs. IsSelected fs (select_effect (load_effect v)).selected_finding_id)
        (load_effect-findings v) (select_effect-IsSelected (load_effect v)))

find_complete :
    {A : Type 0} (p : A → Bool) (xs : List A) → any p xs ≡ true → (x : A) × (find p xs ≡ some x)
find_complete p [] h = cc
find_complete p (x ∷ xs) h = elim (Bool-cases (p x)) [
  | inl e ↦ (x, rw e)
  | inr e ↦ let (y, found) = find_complete p xs (rw e at h) in (y, rw (e, found))
]

find-IsSelected :
    (findings : List FindingTraceItem) (selected : Option Text)
    → IsSelected findings selected
    → (findings ≡ []) ⊎ ((f : FindingTraceItem) × (find (is_selected selected) findings ≡ some f))
unfolding IsSelected
find-IsSelected findings selected (inl e) = inl e
find-IsSelected findings selected (inr h) = inr (find_complete (is_selected selected) findings h)

-- Whatever happens, in whatever order the loads are answered, some finding is selected as soon as
-- there are any.
pub run-selected_finding :
    (es : List Event) (v : TraceView)
    → ((run es v).findings ≡ []) ⊎ ((f : FindingTraceItem) × (selected_finding (run es v) ≡ some f))
unfolding run selected_finding
run-selected_finding [] v = find-IsSelected _ _ (flush-IsSelected v)
run-selected_finding (e ∷ es) v = run-selected_finding es (handle e (flush v))

same_id-none : (fs : List FindingTraceItem) → any (is_selected none) fs ≡ false
same_id-none [] = refl
same_id-none (f ∷ fs) = same_id-none fs

select_effect-none :
    (v : TraceView) (f : FindingTraceItem) (fs : List FindingTraceItem)
    → v.findings ≡ f ∷ fs
    → v.selected_finding_id ≡ none
    → (select_effect v).selected_finding_id ≡ some f.finding_id
unfolding select_effect
select_effect-none v f fs e s =
    let gone : any (is_selected v.selected_finding_id) v.findings ≡ false =
      ap (any (is_selected v.selected_finding_id)) e
      ∙ ap (λ id. any (is_selected id) (f ∷ fs)) s
      ∙ same_id-none (f ∷ fs) in
    rw gone (ap (λ xs. first_id xs v.selected_finding_id) e)

flush-none :
    (v : TraceView) (f : FindingTraceItem) (fs : List FindingTraceItem)
    → v.findings ≡ f ∷ fs
    → v.selected_finding_id ≡ none
    → (flush v).selected_finding_id ≡ some f.finding_id
flush-none v f fs e s =
    flush-selected v
    ∙ select_effect-none (load_effect v) f fs (load_effect-findings v ∙ e)
        (load_effect-selected v ∙ s)

-- Closing the details panel selects the first finding, so the panel stays open while there are any.
pub panel_closed-reopens :
    (v : TraceView) (f : FindingTraceItem) (fs : List FindingTraceItem)
    → v.findings ≡ f ∷ fs
    → selected_finding (run (panel_closed ∷ []) v) ≡ some f
unfolding run handle selected_finding
panel_closed-reopens v f fs e =
    let w = record (flush v) { selected_finding_id = none } in
    let fw : w.findings ≡ f ∷ fs = flush-findings v ∙ e in
    rw (flush-findings w, flush-none w f fs fw refl, fw, text_eq_refl f.finding_id)
