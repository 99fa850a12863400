-- ===== src/Views/FindingsTraceTable/Page/Agents.antt =====
-- frontend/src/components/trace/FindingsTraceTable.tsx: what the filter on the agent offers.
use arka.Prelude.{
  ◌≡◌, ◌≢◌, refl, sym, ◌∙◌, ◌⊎◌, inl, inr, true, false, Bool-cases, List, [], ◌∷◌, ◌++◌, any, Any,
  All, All-append, any_sound, Text, text_eq, text_eq_iff, text_eq_refl, Any-map, All-map, arith,
  trim, trim_start,
}
use arka.Types.FindingsTrace.{FindingTraceItem}
use arka.Views.FindingsTraceTable.{is_shown, passes}
use arka.Views.FindingsTraceTable.Page.{add, add_all, unique_agents, all_findings}

-- The agent is that of a finding.
abbrev pub IsSource : List FindingTraceItem → Text → Type 0
IsSource findings a = Any (λ f. f.source_agent ≡ a) findings

abbrev pub Has : List Text → Text → Type 0
Has agents a = Any (λ b. b ≡ a) agents

-- No agent twice
abbrev pub IsDistinct : List Text → Type 0
IsDistinct [] = Unit
IsDistinct (a ∷ agents) = All (λ b. a ≢ b) agents × IsDistinct agents

Has-append : (a : Text) (xs ys : List Text) → Has ys a → Has (xs ++ ys) a
Has-append a [] ys h = h
Has-append a (x ∷ xs) ys h = inr (Has-append a xs ys h)

Has-left : (a : Text) (xs ys : List Text) → Has xs a → Has (xs ++ ys) a
Has-left a [] ys h = elim h [ ]
Has-left a (x ∷ xs) ys (inl h) = inl h
Has-left a (x ∷ xs) ys (inr h) = inr (Has-left a xs ys h)

found-Has : (a : Text) (xs : List Text) → any (text_eq a) xs ≡ true → Has xs a
found-Has a xs h = Any-map (λ b e. sym ((text_eq_iff a b).0 e)) xs (any_sound (text_eq a) xs h)

add-Has : (a b : Text) (xs : List Text) → (a ≡ b) ⊎ Has xs b → Has (add a xs) b
unfolding add
add-Has a b xs h = elim (Bool-cases (any (text_eq a) xs)) [
  | inl there ↦
      rw there (elim h [ inl e ↦ Any-map (λ c k. k ∙ e) xs (found-Has a xs there) | inr k ↦ k ])
  | inr new ↦
      rw new
        (elim h [ inl e ↦ Has-append b xs (a ∷ []) (inl e) | inr k ↦ Has-left b xs (a ∷ []) k ])
]

add-All : (P : Text → Type 0) (a : Text) (xs : List Text) → P a → All P xs → All P (add a xs)
unfolding add
add-All P a xs p h = elim (Bool-cases (any (text_eq a) xs)) [
  | inl there ↦ rw there h
  | inr new ↦ rw new (All-append P xs (a ∷ []) h (p, tt))
]

IsDistinct-append :
    (a : Text) (xs : List Text)
    → any (text_eq a) xs ≡ false
    → IsDistinct xs
    → IsDistinct (xs ++ (a ∷ []))
IsDistinct-append a [] new d = (tt, tt)
IsDistinct-append a (x ∷ xs) new (h, d) = elim (Bool-cases (text_eq a x)) [
  | inl e ↦ let clash : ⊥ = ground arith in absurd clash
  | inr e ↦
      let differ : x ≢ a = λ k. cc (e, k, text_eq_refl a) in
      let later : any (text_eq a) xs ≡ false = ground arith in
      (All-append (λ b. x ≢ b) xs (a ∷ []) h (differ, tt), IsDistinct-append a xs later d)
]

add-IsDistinct : (a : Text) (xs : List Text) → IsDistinct xs → IsDistinct (add a xs)
unfolding add
add-IsDistinct a xs d = elim (Bool-cases (any (text_eq a) xs)) [
  | inl there ↦ rw there d
  | inr new ↦ rw new (IsDistinct-append a xs new d)
]

add_all-IsDistinct :
    (fs : List FindingTraceItem) (xs : List Text) → IsDistinct xs → IsDistinct (add_all fs xs)
unfolding add_all
add_all-IsDistinct [] xs d = d
add_all-IsDistinct (f ∷ fs) xs d =
    add_all-IsDistinct fs (add f.source_agent xs) (add-IsDistinct f.source_agent xs d)

add_all-Has :
    (fs : List FindingTraceItem) (xs : List Text) (a : Text)
    → Has xs a ⊎ IsSource fs a
    → Has (add_all fs xs) a
unfolding add_all
add_all-Has [] xs a (inl h) = h
add_all-Has [] xs a (inr h) = elim h [ ]
add_all-Has (f ∷ fs) xs a (inl h) =
    add_all-Has fs (add f.source_agent xs) a (inl (add-Has f.source_agent a xs (inr h)))
add_all-Has (f ∷ fs) xs a (inr (inl e)) =
    add_all-Has fs (add f.source_agent xs) a (inl (add-Has f.source_agent a xs (inl e)))
add_all-Has (f ∷ fs) xs a (inr (inr h)) = add_all-Has fs (add f.source_agent xs) a (inr h)

add_all-IsSource :
    (P : Text → Type 0) (fs : List FindingTraceItem) (xs : List Text)
    → All P xs
    → All (λ f. P f.source_agent) fs
    → All P (add_all fs xs)
unfolding add_all
add_all-IsSource P [] xs h k = h
add_all-IsSource P (f ∷ fs) xs h (p, k) =
    add_all-IsSource P fs (add f.source_agent xs) (add-All P f.source_agent xs p h) k

own : (fs : List FindingTraceItem) → All (λ f. IsSource fs f.source_agent) fs
own [] = tt
own (f ∷ fs) = (inl refl, All-map (λ g h. inr h) fs (own fs))

-- An agent's own findings pass its filter.
leaves :
    (a : Text) (f : FindingTraceItem)
    → f.source_agent ≡ a
    → is_shown (record all_findings { selected_agent = a }) f ≡ true
unfolding is_shown passes trim trim_start
leaves a f e = ground (arith, (text_eq_iff f.source_agent a).1 e)

-- The filter on the agent offers each agent that found something exactly once, and nobody else:
-- whichever it is set to, with the other filters open, it leaves a finding.
pub unique_agents_lem :
    (findings : List FindingTraceItem)
    → IsDistinct (unique_agents findings)
      × All (λ f. Has (unique_agents findings) f.source_agent) findings
      × All
          (λ a. Any (λ f. is_shown (record all_findings { selected_agent = a }) f ≡ true) findings)
          (unique_agents findings)
unfolding unique_agents
unique_agents_lem findings = (
  add_all-IsDistinct findings [] tt,
  All-map (λ f h. add_all-Has findings [] f.source_agent (inr h)) findings (own findings),
  All-map (λ a h. Any-map (leaves a) findings h) (unique_agents findings)
      (add_all-IsSource (IsSource findings) findings [] tt (own findings)),
)
