-- ===== src/Fixtures/Traced.antt =====
-- frontend/src/api/traceData.ts: what the samples of the findings trace have in common, and what
-- the trace view gets of them while no backend answers.
use arka.Prelude.{
  ◌/◌, ◌<◌, Bool, true, false, not, Option, none, some, List, [], ◌∷◌, map, Text, ◌≡◌, refl, ap,
  All, All-map, All-filter, is_some, ltb, ltb→lt, or_else, ◌==◌, find, head?, drop,
}
use arka.Types.Core.{ProposalDecision}
use arka.Types.FindingsTrace.{
  FindingTraceItem, FindingTraceItemTargetScopeStatus, FindingTraceItemHumanApprovalState,
  LifecycleStageInfo,
}
use arka.Client.{Client, Net, returned, session_expired}
use arka.Client.Outcomes.{Offline, sample_meta, request-get-offline}
use arka.Client.Endpoints.{for_mission, get_finding_trace_items}
use arka.Fixtures.Stages.{PolicyOutcome, FinalOutcome, build_standard_stages, when_required}
use arka.Fixtures.Trace.{sample_finding_trace_items}
use arka.Fixtures.{sample_fixtures}

-- The text at the kernel's stage
kernel_reason : List LifecycleStageInfo → Text
kernel_reason stages = elim (find (λ (s : LifecycleStageInfo). s.stage_number == 5) stages) [
  | none ↦ []
  | some s ↦ or_else s.details []
]

is_in_scope : FindingTraceItemTargetScopeStatus → Bool
is_in_scope FindingTraceItemTargetScopeStatus.in_scope = true
is_in_scope FindingTraceItemTargetScopeStatus.excluded_target = false
is_in_scope FindingTraceItemTargetScopeStatus.discovered_unauthorized = false

is_denied : ProposalDecision → Bool
is_denied ProposalDecision.deny = true
is_denied ProposalDecision.allow = false
is_denied ProposalDecision.require_approval = false
is_denied ProposalDecision.invalid_proposal = false
is_denied ProposalDecision.expired_proposal = false
is_denied ProposalDecision.unavailable_dependency = false

is_required : FindingTraceItemHumanApprovalState → Bool
unfolding when_required
is_required s = is_some (when_required s true)

-- The stages that belong to a decision, for the decisions the kernel takes on a finding
stages_of : ProposalDecision → FindingTraceItem → Option (List LifecycleStageInfo)
unfolding kernel_reason
stages_of ProposalDecision.allow i = some (
    build_standard_stages i.detected_at_unix PolicyOutcome.allow (kernel_reason i.lifecycle_stages)
      i.human_approval_state FinalOutcome.recorded_valid)
stages_of ProposalDecision.deny i = some (
    build_standard_stages i.detected_at_unix PolicyOutcome.deny (kernel_reason i.lifecycle_stages)
      i.human_approval_state FinalOutcome.recorded_denied)
stages_of ProposalDecision.require_approval i = some (
    build_standard_stages i.detected_at_unix PolicyOutcome.require_approval
      (kernel_reason i.lifecycle_stages) i.human_approval_state FinalOutcome.recorded_pending)
stages_of ProposalDecision.invalid_proposal i = none
stages_of ProposalDecision.expired_proposal i = none
stages_of ProposalDecision.unavailable_dependency i = none

record Facts : Type 0 where
  stages : Option (List LifecycleStageInfo)
  in_scope : Bool
  has_approval : Bool
  has_action_hash : Bool
  decided_later : Bool

stated : FindingTraceItem → Facts
unfolding is_in_scope
stated i = record {
  stages = some i.lifecycle_stages;
  in_scope = is_in_scope i.target_scope_status;
  has_approval = is_some i.approval_id;
  has_action_hash = is_some i.bound_action_hash;
  decided_later = ltb i.detected_at_unix i.policy_evaluation_time_unix;
}

expected : FindingTraceItem → Facts
unfolding stages_of is_denied is_required
expected i = record {
  stages = stages_of i.policy_decision i;
  in_scope = not (is_denied i.policy_decision);
  has_approval = is_required i.human_approval_state;
  has_action_hash = is_required i.human_approval_state;
  decided_later = true;
}

-- The stages are those of the decision; exactly the targets in scope are not denied; an approval
-- and its action hash are recorded exactly where one is required; the kernel decides later.
pub IsTraced : FindingTraceItem → Type 0
IsTraced i =
    (some i.lifecycle_stages ≡ stages_of i.policy_decision i)
    × (is_in_scope i.target_scope_status ≡ not (is_denied i.policy_decision))
    × (is_some i.approval_id ≡ is_required i.human_approval_state)
    × (is_some i.bound_action_hash ≡ is_required i.human_approval_state)
    × (i.detected_at_unix < i.policy_evaluation_time_unix)

stated-IsTraced : (i : FindingTraceItem) → stated i ≡ expected i → IsTraced i
unfolding stated expected IsTraced
stated-IsTraced i e = (
  ap (λ (f : Facts). f.stages) e,
  ap (λ (f : Facts). f.in_scope) e,
  ap (λ (f : Facts). f.has_approval) e,
  ap (λ (f : Facts). f.has_action_hash) e,
  ltb→lt _ _ (ap (λ (f : Facts). f.decided_later) e),
)

map-All : {A B : Type 0} (f g : A → B) (xs : List A) → map f xs ≡ map g xs → All (λ x. f x ≡ g x) xs
map-All f g [] e = tt
map-All f g (x ∷ xs) e =
    (ap (λ ys. or_else (head? ys) (f x)) e, map-All f g xs (ap (λ ys. drop 1 ys) e))

sample_finding_trace_items-stated :
    map stated sample_finding_trace_items ≡ map expected sample_finding_trace_items
unfolding stated expected build_standard_stages
sample_finding_trace_items-stated = refl

for_mission-All :
    {A : Type 0} (P : A → Type 0) (mission_of : A → Text) (id : Option Text) (xs : List A)
    → All P xs
    → All P (for_mission mission_of id xs)
unfolding for_mission
for_mission-All P mission_of none xs h = h
for_mission-All P mission_of (some []) xs h = h
for_mission-All P mission_of (some (c ∷ id)) xs h = All-filter P _ xs h

-- Offline in development mode, with a session that has not expired, the trace view gets findings for
-- whatever mission it asks, whose stages are those of the kernel's decision, which is a denial exactly
-- for the targets out of scope.
pub get_finding_trace_items-IsTraced :
    (id : Option Text) (net : Net (List FindingTraceItem)) (c : Client)
    → Offline net
    → session_expired (net.date_now / 1000) c.session ≡ false
    → c.is_development_mode ≡ true
    → (xs : List FindingTraceItem) × ((get_finding_trace_items sample_fixtures id net c).0
        ≡ returned
            (record { success = true; payload = some xs; error = none; meta = sample_meta net }))
      × All IsTraced xs
unfolding get_finding_trace_items
get_finding_trace_items-IsTraced id net c off live dev = (
  _,
  request-get-offline net _ none _ c off live dev,
  for_mission-All IsTraced (λ (i : FindingTraceItem). i.mission_id) id sample_finding_trace_items
      (All-map stated-IsTraced sample_finding_trace_items
        (map-All stated expected sample_finding_trace_items sample_finding_trace_items-stated)),
)
