-- ===== src/Views/SideNav.antt =====
-- frontend/src/components/layout/SideNav.tsx: the destinations, the kernel's status and the dialog
-- that halts all agents. A confirmation is the piece before the awaited callback, and one of two
-- after it.
pub mod Halted
use arka.Prelude.{
  ℕ, Bool, true, false, ◌&&◌, ◌||◌, not, Option, none, some, List, [], ◌∷◌, Text, codes, trim,
  is_empty, if◌then◌else◌, map, ltb,
}
use arka.App.{App, NavDestination, pending_approvals_count}
use arka.App.Events.{Event, nav_selected, mobile_nav_set}

pub record NavItem : Type 0 where
  pub id : NavDestination
  pub label : Text
  pub badge : Option ℕ

abbrev nav_item : NavDestination → Text → NavItem
nav_item id label = record { id = id; label = label; badge = none }

unfoldable pub nav_items : ℕ → List NavItem
nav_items pending_approvals_count =
    nav_item NavDestination.overview (codes "Overview")
    ∷ nav_item NavDestination.missions (codes "Missions")
    ∷ nav_item NavDestination.attack_surface (codes "Attack Surface")
    ∷ nav_item NavDestination.proposals (codes "Action Proposals")
    ∷ record {
      id = NavDestination.approvals;
      label = codes "Approvals";
      badge = if ltb 0 pending_approvals_count then some pending_approvals_count else none;
    }
    ∷ nav_item NavDestination.agents (codes "Agents & Tasks")
    ∷ nav_item NavDestination.evidence (codes "Evidence")
    ∷ nav_item NavDestination.findings (codes "Findings")
    ∷ nav_item NavDestination.findings_trace (codes "Agent Findings Trace")
    ∷ nav_item NavDestination.reports (codes "Reports")
    ∷ nav_item NavDestination.audit (codes "Audit Trail")
    ∷ nav_item NavDestination.settings (codes "Settings")
    ∷ []

-- What the press of a destination makes App.tsx do
unfoldable pub press_item : NavItem → List Event
press_item item = nav_selected item.id ∷ mobile_nav_set false ∷ []

pub record HaltDialog : Type 0 where
  pub show_halt_modal : Bool
  pub halt_reason : Text
  pub is_submitting_halt : Bool

abbrev pub initial_halt_dialog : HaltDialog
initial_halt_dialog = record {
  show_halt_modal = false;
  halt_reason = codes "Operator manual halt initiated from navigation sidebar";
  is_submitting_halt = false;
}

unfoldable pub kernel_status : Bool → Text
kernel_status emergency_stop_active =
    if emergency_stop_active then codes "HALTED · LOCKDOWN" else codes "ACTIVE · ENFORCING"

-- Whether the button Halt All Agents is there
unfoldable pub has_halt_button : (has_trigger emergency_stop_active : Bool) → Bool
has_halt_button has_trigger emergency_stop_active = has_trigger && not emergency_stop_active

unfoldable pub confirm_disabled : HaltDialog → Bool
confirm_disabled d = d.is_submitting_halt || is_empty (trim d.halt_reason)

-- `handleConfirmHalt` up to its `await`, whose argument is the reason
unfoldable pub handle_confirm_halt : (has_trigger : Bool) → HaltDialog → HaltDialog × Option Text
handle_confirm_halt has_trigger d =
    if has_trigger then (record d { is_submitting_halt = true }, some d.halt_reason) else (d, none)

-- and after it: the callback has resolved
unfoldable pub on_halted : HaltDialog → HaltDialog
on_halted d = record d { show_halt_modal = false; is_submitting_halt = false }

-- or it has rejected, which only the log of the browser shows
unfoldable pub on_halt_failed : HaltDialog → HaltDialog
on_halt_failed d = record d { is_submitting_halt = false }

-- The bar as App.tsx renders it
pub record SideBar : Type 0 where
  pub items : List NavItem
  pub status : Text
  pub halt_button : Bool
  pub fail_closed_note : Bool

unfoldable pub side_nav : App → SideBar
unfolding nav_items kernel_status has_halt_button
side_nav app = record {
  items = nav_items (pending_approvals_count app);
  status = kernel_status app.emergency_stop_status.active;
  halt_button = has_halt_button true app.emergency_stop_status.active;
  fail_closed_note = app.emergency_stop_status.active;
}
