-- ===== src/Views/AgentFindingsTrace/Loads.antt =====
-- frontend/src/components/trace/AgentFindingsTraceView.tsx: the loads that wait for an answer, and
-- what the effects add to them.
use arka.Prelude.{
  ℕ, ◌+◌, ◌≤◌, true, inl, inr, Option, none, some, List, [], ◌∷◌, Text, ◌≡◌, refl, ap, any,
  Bool-cases, Option-cases, text_eq_refl, text_eq_iff, arith, length, ◌*◌, if◌then◌else◌,
}
use arka.Views.AgentFindingsTrace.{
  TraceView, load_effect, start_load, select_effect, is_selected, same_id, is_unset,
}

-- A load that captured no selection may change the selection, and so start another.
unfoldable pub weight : Option Text → ℕ
weight captured = if is_unset captured then 2 else 1

unfoldable pub total : List (Option Text) → ℕ
unfolding weight
total [] = 0
total (c ∷ cs) = weight c + total cs

pub total-length : (cs : List (Option Text)) → total cs ≤ 2 * length cs
unfolding total weight
total-length [] = omega arith
total-length (c ∷ cs) =
    let rest = total-length cs in
    elim (Bool-cases (is_unset c)) [ inl h ↦ rw h (omega arith) | inr h ↦ rw h (omega arith) ]

-- The first list is the second with one load more.
pub data Among (c : Option Text) : List (Option Text) → List (Option Text) → Type 0 where
  here : {cs : List (Option Text)} → Among c (c ∷ cs) cs
  there :
      {d : Option Text} {cs rest : List (Option Text)}
      → Among c cs rest
      → Among c (d ∷ cs) (d ∷ rest)

pub Among-total :
    {c : Option Text} {cs rest : List (Option Text)}
    → Among c cs rest
    → total cs ≡ weight c + total rest
unfolding total
Among-total here = refl
Among-total (there a) = let e = Among-total a in omega arith

pub same_id_refl : (id : Option Text) → same_id id id ≡ true
same_id_refl none = refl
same_id_refl (some id) = text_eq_refl id

pub same_id_sound : (a b : Option Text) → same_id a b ≡ true → a ≡ b
same_id_sound none none h = refl
same_id_sound (some a) (some b) h = ap some ((text_eq_iff a b).0 h)
same_id_sound none (some b) h = cc
same_id_sound (some a) none h = cc

-- Both effects have run.
unfoldable pub IsFlushed : TraceView → Type 0
IsFlushed v = v.ran_for ≡ some v.selected_finding_id

pub load_effect-quiet : (v : TraceView) → IsFlushed v → load_effect v ≡ v
unfolding load_effect IsFlushed
load_effect-quiet v e = rw (e, same_id_refl v.selected_finding_id)

pub load_effect-IsFlushed : (v : TraceView) → IsFlushed (load_effect v)
unfolding load_effect start_load IsFlushed
load_effect-IsFlushed v = elim (Option-cases v.ran_for) [
  | inl e ↦ rw e refl
  | inr (id, e) ↦ elim (Bool-cases (same_id id v.selected_finding_id)) [
    | inl s ↦ rw (e, s) (ap some (same_id_sound id v.selected_finding_id s))
    | inr s ↦ rw (e, s) refl
  ]
]

-- The load effect starts at most one load, for the selection.
pub load_effect-total :
    (v : TraceView) → total (load_effect v).loads ≤ weight v.selected_finding_id + total v.loads
unfolding load_effect start_load total
load_effect-total v = elim (Option-cases v.ran_for) [
  | inl e ↦ rw e (omega arith)
  | inr (id, e) ↦ elim (Bool-cases (same_id id v.selected_finding_id)) [
    | inl s ↦ rw (e, s) (omega arith)
    | inr s ↦ rw (e, s) (omega arith)
  ]
]

pub select_effect-quiet :
    (v : TraceView)
    → any (is_selected v.selected_finding_id) v.findings ≡ true
    → select_effect v ≡ v
unfolding select_effect
select_effect-quiet v e = rw e
