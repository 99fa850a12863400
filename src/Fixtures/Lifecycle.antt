-- ===== src/Fixtures/Lifecycle.antt =====
-- frontend/src/api/traceData.ts: the stages of a sample finding as a timeline, for all arguments.
use arka.Prelude.{
  ℕ, ◌≤◌, ◌==◌, Option, none, some, List, [], ◌∷◌, map, Text, ◌≡◌, refl, find, arith,
}
use arka.Types.FindingsTrace.{
  FindingTraceItemHumanApprovalState, LifecycleStageInfo, LifecycleStageId, LifecycleStageStatus,
}
use arka.Fixtures.Stages.{
  PolicyOutcome, FinalOutcome, build_standard_stages, kernel_status, final_status, when_required,
}

-- The ids in the order of their declaration
pub lifecycle : List LifecycleStageId
lifecycle =
    LifecycleStageId.discovery ∷ LifecycleStageId.evidence_collection ∷ LifecycleStageId.validation
    ∷ LifecycleStageId.risk_scoring ∷ LifecycleStageId.kernel_policy_check
    ∷ LifecycleStageId.human_approval ∷ LifecycleStageId.final_finding ∷ []

-- The recorded times do not decrease from `t` on.
pub From : ℕ → List LifecycleStageInfo → Type 0
From t [] = Unit
From t (s ∷ rest) = elim s.timestamp_unix [ none ↦ From t rest | some u ↦ (t ≤ u) × From u rest ]

pub status_at : ℕ → List LifecycleStageInfo → Option LifecycleStageStatus
status_at n stages = elim (find (λ (s : LifecycleStageInfo). s.stage_number == n) stages) [
  | none ↦ none
  | some s ↦ some s.status
]

-- The decision that a status of the kernel's stage stands for
pub decision_of : Option LifecycleStageStatus → Option PolicyOutcome
decision_of (some LifecycleStageStatus.completed) = some PolicyOutcome.allow
decision_of (some LifecycleStageStatus.denied) = some PolicyOutcome.deny
decision_of (some LifecycleStageStatus.pending) = some PolicyOutcome.require_approval
decision_of s = none

-- The outcome that a status of the final stage stands for
pub outcome_of : Option LifecycleStageStatus → Option FinalOutcome
outcome_of (some LifecycleStageStatus.completed) = some FinalOutcome.recorded_valid
outcome_of (some LifecycleStageStatus.denied) = some FinalOutcome.recorded_denied
outcome_of (some LifecycleStageStatus.pending) = some FinalOutcome.recorded_pending
outcome_of s = none

pub IsTimeline : ℕ → List LifecycleStageInfo → Type 0
unfolding lifecycle From
IsTimeline t stages =
    (map (λ (s : LifecycleStageInfo). s.id) stages ≡ lifecycle)
    × (map (λ (s : LifecycleStageInfo). s.stage_number) stages ≡ 1 ∷ 2 ∷ 3 ∷ 4 ∷ 5 ∷ 6 ∷ 7 ∷ [])
    × From t stages

build_standard_stages-From :
    (t : ℕ) (p : PolicyOutcome) (r : Text) (a : FindingTraceItemHumanApprovalState)
    (o : FinalOutcome)
    → From t (build_standard_stages t p r a o)
unfolding build_standard_stages From when_required
build_standard_stages-From t p r FindingTraceItemHumanApprovalState.not_required o = ground arith
build_standard_stages-From t p r FindingTraceItemHumanApprovalState.pending o = ground arith
build_standard_stages-From t p r FindingTraceItemHumanApprovalState.approved o = ground arith
build_standard_stages-From t p r FindingTraceItemHumanApprovalState.rejected o = ground arith
build_standard_stages-From t p r FindingTraceItemHumanApprovalState.expired o = ground arith

decision_of-kernel_status : (p : PolicyOutcome) → decision_of (some (kernel_status p)) ≡ some p
unfolding decision_of kernel_status
decision_of-kernel_status PolicyOutcome.allow = refl
decision_of-kernel_status PolicyOutcome.deny = refl
decision_of-kernel_status PolicyOutcome.require_approval = refl

outcome_of-final_status : (o : FinalOutcome) → outcome_of (some (final_status o)) ≡ some o
unfolding outcome_of final_status
outcome_of-final_status FinalOutcome.recorded_valid = refl
outcome_of-final_status FinalOutcome.recorded_denied = refl
outcome_of-final_status FinalOutcome.recorded_pending = refl

-- The stages of a sample finding are the seven of the lifecycle, numbered in order, with recorded
-- times that never decrease; the kernel's decision and the outcome can be read back from them.
pub build_standard_stages-IsTimeline :
    (t : ℕ) (p : PolicyOutcome) (r : Text) (a : FindingTraceItemHumanApprovalState)
    (o : FinalOutcome)
    → IsTimeline t (build_standard_stages t p r a o)
      × (decision_of (status_at 5 (build_standard_stages t p r a o)) ≡ some p)
      × (outcome_of (status_at 7 (build_standard_stages t p r a o)) ≡ some o)
unfolding build_standard_stages IsTimeline lifecycle status_at
build_standard_stages-IsTimeline t p r a o = (
  (refl, refl, build_standard_stages-From t p r a o),
  decision_of-kernel_status p,
  outcome_of-final_status o,
)
