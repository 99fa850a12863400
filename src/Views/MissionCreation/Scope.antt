-- ===== src/Views/MissionCreation/Scope.antt =====
-- The scope that the form collects, what the simulator says of it, and the submission.
use arka.Prelude.{
  ℕ, ◌≡◌, ◌≢◌, refl, Bool, true, false, not, Option, none, some, List, [], ◌∷◌, arith, Text, trim,
  split, parse_int, to_string, is_empty, All, All-append, Bool-cases, inl, inr, is_some,
  if◌then◌else◌, zero, suc,
}
use arka.Types.Core.{Mission, MissionState}
use arka.Validation.{is_valid_ipv4_cidr, is_valid_hostname, is_target_excluded, Verdict, rules}
use arka.Views.MissionCreation.{
  Form, SimResult, initial_form, handle_add_cidr, handle_add_host, handle_add_excluded_cidr,
  handle_add_excluded_host, handle_test_simulator, handle_final_submit, handle_proceed, remove_at,
  simulate, in_inclusions, simulated_rules, when_given, created_mission,
}
use arka.Views.MissionCreation.Events.{
  Event, name_typed, description_typed, cidr_typed, host_typed, ports_typed, excluded_cidr_typed,
  excluded_host_typed, excluded_ports_typed, query_typed, mode_chosen, budget_set, timeout_set,
  concurrency_set, capability_toggled, cidr_added, host_added, excluded_cidr_added,
  excluded_host_added, cidr_removed, host_removed, excluded_cidr_removed, excluded_host_removed,
  simulated, proceeded, indicator_pressed, step_back, step_next, submitted, edit, fill,
}

abbrev pub Cidrs : List Text → Type 0
Cidrs xs = All (λ t. is_valid_ipv4_cidr t ≡ true) xs

abbrev pub Hosts : List Text → Type 0
Hosts xs = All (λ t. is_valid_hostname t ≡ true) xs

-- Every block of the form is a valid one, and so is every host that it includes.
abbrev pub IsScoped : Form → Type 0
IsScoped f = Cidrs f.cidr_list × Hosts f.host_list × Cidrs f.excluded_cidrs

remove_at-All : (P : Text → Type 0) (i : ℕ) (xs : List Text) → All P xs → All P (remove_at i xs)
unfolding remove_at
remove_at-All P i [] h = tt
remove_at-All P zero (x ∷ xs) (h, t) = t
remove_at-All P (suc i) (x ∷ xs) (h, t) = (h, remove_at-All P i xs t)

-- A property of the form before and after an addition, blank or not.
when_given_lem :
    (P : Form → Type 0) (text : Text) (changed f : Form)
    → P f
    → P changed
    → P (when_given text changed f)
when_given_lem P text changed f h k = elim (Bool-cases (is_empty (trim text))) [
  | inl blank ↦ rw blank h
  | inr given ↦ rw given k
]

add_cidr-IsScoped : (f : Form) → IsScoped f → IsScoped (handle_add_cidr f)
unfolding handle_add_cidr
add_cidr-IsScoped f v =
    when_given_lem IsScoped f.cidr_input _ f v
      (elim (Bool-cases (is_valid_ipv4_cidr (trim f.cidr_input))) [
        | inl good ↦ rw good (All-append _ f.cidr_list _ v.0 (good, tt), v.1, v.2)
        | inr bad ↦ rw bad v
      ])

add_host-IsScoped : (f : Form) → IsScoped f → IsScoped (handle_add_host f)
unfolding handle_add_host
add_host-IsScoped f v =
    when_given_lem IsScoped f.host_input _ f v
      (elim (Bool-cases (is_valid_hostname (trim f.host_input))) [
        | inl good ↦ rw good (v.0, All-append _ f.host_list _ v.1 (good, tt), v.2)
        | inr bad ↦ rw bad v
      ])

add_excluded_cidr-IsScoped : (f : Form) → IsScoped f → IsScoped (handle_add_excluded_cidr f)
unfolding handle_add_excluded_cidr
add_excluded_cidr-IsScoped f v =
    when_given_lem IsScoped f.excluded_cidr_input _ f v
      (elim (Bool-cases (is_valid_ipv4_cidr (trim f.excluded_cidr_input))) [
        | inl good ↦ rw good (v.0, v.1, All-append _ f.excluded_cidrs _ v.2 (good, tt))
        | inr bad ↦ rw bad v
      ])

proceed-IsScoped : (f : Form) → IsScoped f → IsScoped (handle_proceed f)
unfolding handle_proceed
proceed-IsScoped f v = elim (Bool-cases (is_empty (trim f.mission_name))) [
  | inl blank ↦ rw blank v
  | inr given ↦ rw given v
]

submit-IsScoped :
    (now : ℕ) (operator : Text) (f : Form)
    → IsScoped f
    → IsScoped (handle_final_submit now operator f).0
unfolding handle_final_submit
submit-IsScoped now operator f v = elim (Bool-cases (is_empty (trim f.mission_name))) [
  | inl blank ↦ rw blank v
  | inr given ↦ rw given v
]

edit-IsScoped : (e : Event) (f : Form) → IsScoped f → IsScoped (edit e f)
unfolding edit handle_add_excluded_host handle_test_simulator
edit-IsScoped (name_typed t) f v = v
edit-IsScoped (description_typed t) f v = v
edit-IsScoped (cidr_typed t) f v = v
edit-IsScoped (host_typed t) f v = v
edit-IsScoped (ports_typed t) f v = v
edit-IsScoped (excluded_cidr_typed t) f v = v
edit-IsScoped (excluded_host_typed t) f v = v
edit-IsScoped (excluded_ports_typed t) f v = v
edit-IsScoped (query_typed t) f v = v
edit-IsScoped (mode_chosen m) f v = v
edit-IsScoped (budget_set n) f v = v
edit-IsScoped (timeout_set n) f v = v
edit-IsScoped (concurrency_set n) f v = v
edit-IsScoped (capability_toggled cap) f v = v
edit-IsScoped cidr_added f v = add_cidr-IsScoped f v
edit-IsScoped host_added f v = add_host-IsScoped f v
edit-IsScoped excluded_cidr_added f v = add_excluded_cidr-IsScoped f v
edit-IsScoped excluded_host_added f v = when_given_lem IsScoped f.excluded_host_input _ f v v
edit-IsScoped (cidr_removed i) f v = (remove_at-All _ i f.cidr_list v.0, v.1, v.2)
edit-IsScoped (host_removed i) f v = (v.0, remove_at-All _ i f.host_list v.1, v.2)
edit-IsScoped (excluded_cidr_removed i) f v = (v.0, v.1, remove_at-All _ i f.excluded_cidrs v.2)
edit-IsScoped (excluded_host_removed i) f v = v
edit-IsScoped simulated f v = when_given_lem IsScoped f.sim_query _ f v v
edit-IsScoped proceeded f v = proceed-IsScoped f v
edit-IsScoped (indicator_pressed num) f v = v
edit-IsScoped step_back f v = v
edit-IsScoped step_next f v = v
edit-IsScoped (submitted now operator) f v = submit-IsScoped now operator f v

fill-IsScoped : (es : List Event) (f : Form) → IsScoped f → IsScoped (fill es f)
unfolding fill
fill-IsScoped [] f v = v
fill-IsScoped (e ∷ es) f v = fill-IsScoped es (edit e f) (edit-IsScoped e f v)

initial_form-IsScoped : IsScoped initial_form
unfolding is_valid_ipv4_cidr is_valid_hostname split trim parse_int to_string
initial_form-IsScoped = ((refl, tt), (refl, (refl, tt)), (refl, (refl, tt)))

-- Whatever the operator does to a new form, its included and excluded blocks stay valid CIDR text
-- and its included hosts valid host names.
pub fill-initial_form-IsScoped : (es : List Event) → IsScoped (fill es initial_form)
fill-initial_form-IsScoped es = fill-IsScoped es initial_form initial_form-IsScoped

-- The verdict on the simulator's query of the exclusions that the simulator tests: the form's excluded
-- blocks and hosts. Its excluded ports are left out (`simulated_rules`).
abbrev pub excluded_query : Form → Bool
excluded_query f = (is_target_excluded (trim f.sim_query) (rules (simulated_rules f)) none).excluded

-- The simulator's result, if the query is not blank.
abbrev result_of : Form → SimResult
result_of f =
    simulate (trim f.sim_query) f
      (is_target_excluded (trim f.sim_query) (rules (simulated_rules f)) none)

handle_test_simulator-given :
    (f : Form)
    → is_empty (trim f.sim_query) ≡ false
    → (handle_test_simulator f).sim_result ≡ some (result_of f)
unfolding handle_test_simulator
handle_test_simulator-given f given = rw given

in_inclusions-Cidrs :
    (t : Text) (f : Form) (c : Text) (cs : List Text)
    → f.cidr_list ≡ c ∷ cs
    → is_valid_ipv4_cidr c ≡ true
    → in_inclusions t f ≡ true
unfolding in_inclusions
in_inclusions-Cidrs t f c cs e good = rw (e, good)

simulate-in_scope :
    (t : Text) (f : Form) (v : Verdict)
    → (simulate t f v).in_scope ≡ (if v.excluded then false else in_inclusions t f)
unfolding simulate
simulate-in_scope t f v = ground arith

simulate-excluded :
    (t : Text) (f : Form) (v : Verdict) → v.excluded ≡ true → (simulate t f v).in_scope ≡ false
unfolding simulate
simulate-excluded t f v out = rw out

-- The exclusions override the inclusions: on a target that the form's excluded blocks or hosts exclude,
-- the simulator never answers that it is in scope.
pub handle_test_simulator-excluded :
    (f : Form)
    → is_empty (trim f.sim_query) ≡ false
    → excluded_query f ≡ true
    → (r : SimResult) × ((handle_test_simulator f).sim_result ≡ some r) × (r.in_scope ≡ false)
handle_test_simulator-excluded f given out =
    (result_of f, handle_test_simulator-given f given, simulate-excluded (trim f.sim_query) f _ out)

-- As long as a form that was filled from a new one lists any block at all, the simulator finds a
-- target (a query that is not blank) in scope exactly when the form's excluded blocks and hosts do not
-- exclude it: neither the included blocks and hosts nor the excluded ports make a difference.
pub simulator-ignores_inclusions :
    (es : List Event) (c : Text) (cs : List Text)
    → (fill es initial_form).cidr_list ≡ c ∷ cs
    → is_empty (trim (fill es initial_form).sim_query) ≡ false
    → (r : SimResult) × ((handle_test_simulator (fill es initial_form)).sim_result ≡ some r)
      × (r.in_scope ≡ not (excluded_query (fill es initial_form)))
simulator-ignores_inclusions es c cs e given =
    let f = fill es initial_form in
    let good = (rw e at (fill-initial_form-IsScoped es).0).0 in
    (
      result_of f,
      handle_test_simulator-given f given,
      ground (
        arith,
        simulate-in_scope (trim f.sim_query) f
            (is_target_excluded (trim f.sim_query) (rules (simulated_rules f)) none),
        in_inclusions-Cidrs (trim f.sim_query) f c cs e good,
      ),
    )

-- What a submission is: refused for a blank name, with the form back at its first step, or a new
-- mission with the form unchanged.
abbrev pub IsSubmission : Text → Form → Form × Option Mission → Type 0
IsSubmission operator f (g, none) =
    (trim f.mission_name ≡ []) × (g.step ≡ 1) × (is_some g.errors.name ≡ true)
IsSubmission operator f (g, some m) =
    (trim f.mission_name ≢ [])
    × (g ≡ f)
    × (m.name ≡ trim f.mission_name)
    × (m.created_by ≡ operator)
    × (m.state ≡ MissionState.created)

blank_lem : (t : Text) → is_empty t ≡ true → t ≡ []
blank_lem [] h = refl
blank_lem (c ∷ t) h = cc

given_lem : (t : Text) → is_empty t ≡ false → t ≢ []
given_lem [] h = cc
given_lem (c ∷ t) h = λ e. cc

-- A submission with a blank name is refused, shows an error and leads back to the first step; any
-- other yields a mission in its first state with the trimmed name, created by the operator.
pub handle_final_submit-IsSubmission :
    (now : ℕ) (operator : Text) (f : Form)
    → IsSubmission operator f (handle_final_submit now operator f)
unfolding handle_final_submit created_mission
handle_final_submit-IsSubmission now operator f =
    elim (Bool-cases (is_empty (trim f.mission_name))) [
      | inl blank ↦ rw blank (blank_lem _ blank, refl, refl)
      | inr given ↦ rw given (given_lem _ given, refl, refl, refl, refl)
    ]
