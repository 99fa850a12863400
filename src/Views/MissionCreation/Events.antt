-- ===== src/Views/MissionCreation/Events.antt =====
-- The controls of the form for a new mission, one event for each.
use Prim.Native.Nat.{zero, suc}
use arka.Prelude.{ℕ, ◌||◌, ◌==◌, if◌then◌else◌, ltb, List, [], ◌∷◌, Text}
use arka.Types.Core.{MissionMode, StandardCapability}
use arka.Views.MissionCreation.{
  Form, handle_add_cidr, handle_add_host, handle_add_excluded_cidr, handle_add_excluded_host,
  handle_test_simulator, handle_final_submit, handle_proceed, remove_at, toggle,
}

pub data Event : Type 0 where
  name_typed description_typed cidr_typed host_typed ports_typed : Text → Event
  excluded_cidr_typed excluded_host_typed excluded_ports_typed query_typed : Text → Event
  mode_chosen : MissionMode → Event
  budget_set timeout_set concurrency_set : ℕ → Event
  capability_toggled : StandardCapability → Event
  cidr_added host_added excluded_cidr_added excluded_host_added : Event
  cidr_removed host_removed excluded_cidr_removed excluded_host_removed : ℕ → Event
  simulated proceeded : Event
  -- a press of an indicator of the stepper
  indicator_pressed : ℕ → Event
  -- "Back" and "Proceed" of the steps 2 to 5
  step_back step_next : Event
  submitted : (date_now : ℕ) (operator_id : Text) → Event

-- The steps 2 to 4 have a button to the next one, and 2 to 5 one to the last.
next_step : ℕ → ℕ
next_step n = if (n == 2) || (n == 3) || (n == 4) then suc n else n

last_step : ℕ → ℕ
last_step zero = zero
last_step (suc n) = if (n == 1) || (n == 2) || (n == 3) || (n == 4) then n else suc n

press_indicator : ℕ → ℕ → ℕ
press_indicator num step = if ltb num step then num else step

unfoldable pub edit : Event → Form → Form
unfolding handle_add_cidr handle_add_host handle_add_excluded_cidr handle_add_excluded_host
    handle_test_simulator handle_final_submit handle_proceed remove_at next_step last_step
    press_indicator toggle
edit (name_typed t) f = record f { mission_name = t }
edit (description_typed t) f = record f { description = t }
edit (cidr_typed t) f = record f { cidr_input = t }
edit (host_typed t) f = record f { host_input = t }
edit (ports_typed t) f = record f { port_input = t }
edit (excluded_cidr_typed t) f = record f { excluded_cidr_input = t }
edit (excluded_host_typed t) f = record f { excluded_host_input = t }
edit (excluded_ports_typed t) f = record f { excluded_port_input = t }
edit (query_typed t) f = record f { sim_query = t }
edit (mode_chosen m) f = record f { mode = m }
edit (budget_set n) f = record f { llm_budget_usd = n }
edit (timeout_set n) f = record f { tool_timeout_sec = n }
edit (concurrency_set n) f = record f { max_concurrency = n }
edit (capability_toggled cap) f = record f {
  selected_capabilities = toggle cap f.selected_capabilities;
}
edit cidr_added f = handle_add_cidr f
edit host_added f = handle_add_host f
edit excluded_cidr_added f = handle_add_excluded_cidr f
edit excluded_host_added f = handle_add_excluded_host f
edit (cidr_removed i) f = record f { cidr_list = remove_at i f.cidr_list }
edit (host_removed i) f = record f { host_list = remove_at i f.host_list }
edit (excluded_cidr_removed i) f = record f { excluded_cidrs = remove_at i f.excluded_cidrs }
edit (excluded_host_removed i) f = record f { excluded_hosts = remove_at i f.excluded_hosts }
edit simulated f = handle_test_simulator f
edit proceeded f = handle_proceed f
edit (indicator_pressed num) f = record f { step = press_indicator num f.step }
edit step_back f = record f { step = last_step f.step }
edit step_next f = record f { step = next_step f.step }
edit (submitted now operator) f = (handle_final_submit now operator f).0

unfoldable pub fill : List Event → Form → Form
unfolding edit
fill [] f = f
fill (e ∷ es) f = fill es (edit e f)
