-- ===== src/Views/Lifecycle/Highlighted.antt =====
-- frontend/src/components/trace/FindingLifecycleFlow.tsx: which nodes of the process view are
-- highlighted.
use arka.Prelude.{◌≡◌, refl, ==_self, ◌&&◌, Bool-cases, inl, inr, Option, none, some, arith}
use arka.Types.FindingsTrace.{LifecycleStageId}
use arka.Views.AgentFindingsTrace.{toggle_stage, stage_rank}
use arka.Views.Lifecycle.{Flow, FlowNode, press, node_pressed, is_selected, is_stage, same_stage}

-- A second press undoes the first on the filter, unless another stage was filtered: then none is.
toggle_stage_twice :
    (id other : LifecycleStageId) (prev : Option LifecycleStageId)
    → is_stage (toggle_stage id (toggle_stage id prev)) other
      ≡ (is_stage prev id && same_stage id other)
unfolding toggle_stage
toggle_stage_twice id other none = rw (is_stage, ==_self (stage_rank id)) refl
toggle_stage_twice id other (some p) = elim (Bool-cases (same_stage p id)) [
  | inl e ↦ rw (is_stage, e) refl
  | inr e ↦ rw (is_stage, e, ==_self (stage_rank id)) refl
]

-- A node that is pressed twice is the only one highlighted, whatever was before: the second press
-- takes the filter on the stages back, or drops it, and leaves the node inspected.
pub node_pressed-is_selected :
    (n m : FlowNode) (s : Flow)
    → is_selected (press (node_pressed n) (press (node_pressed n) s)) m ≡ same_stage n.id m.id
unfolding is_selected press
node_pressed-is_selected n m s =
    ground (arith, toggle_stage_twice n.id m.id s.selected_stage_filter)
