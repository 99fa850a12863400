-- ===== src/Views/MissionCreation.antt =====
-- frontend/src/components/missions/MissionCreationView.tsx: the five-step form for a new mission and
-- the dry-run simulator of its scope.
pub mod Events
pub mod Scope
use Prim.Native.Nat.{◌/◌, zero, suc}
use arka.Prelude.{
  ℕ, Bool, true, false, not, ◌||◌, ◌==◌, Option, none, some, List, [], ◌∷◌, ◌++◌, Text, codes, trim,
  is_empty, includes, starts_with, drop, any, filter, if◌then◌else◌, or_else, ltb,
}
use arka.Types.Core.{
  Mission, MissionMode, MissionState, RiskClass, StandardCapability, authorized_professional,
  moderate,
}
use arka.Client.Endpoints.{to_base36}
use arka.Validation.{
  is_valid_ipv4_cidr, is_valid_hostname, is_target_excluded, ExclusionRules, rules, Verdict,
}

-- The messages of the keys `cidr`, `host`, `excCidr` and `name`
pub record Errors : Type 0 where
  pub cidr : Option Text
  pub host : Option Text
  pub exc_cidr : Option Text
  pub name : Option Text

pub record SimResult : Type 0 where
  pub evaluated : Bool
  pub in_scope : Bool
  pub reason : Text

pub record Form : Type 0 where
  pub step : ℕ
  pub mission_name : Text
  pub description : Text
  pub mode : MissionMode
  pub cidr_input : Text
  pub cidr_list : List Text
  pub host_input : Text
  pub host_list : List Text
  pub port_input : Text
  pub excluded_cidr_input : Text
  pub excluded_cidrs : List Text
  pub excluded_host_input : Text
  pub excluded_hosts : List Text
  pub excluded_port_input : Text
  pub exclusion_rationale : Text
  pub selected_capabilities : List StandardCapability
  pub max_risk_class : RiskClass
  pub llm_budget_usd : ℕ
  pub tool_timeout_sec : ℕ
  pub max_concurrency : ℕ
  pub sim_query : Text
  pub sim_result : Option SimResult
  pub errors : Errors

abbrev no_errors : Errors
no_errors = record { cidr = none; host = none; exc_cidr = none; name = none }

abbrev pub initial_form : Form
initial_form = record {
  step = 1;
  mission_name = [];
  description = [];
  mode = authorized_professional;
  cidr_input = [];
  cidr_list = codes "10.42.18.0/24" ∷ [];
  host_input = [];
  host_list = codes "*.prod-api.arka.internal" ∷ codes "auth.arka-sec.cloud" ∷ [];
  port_input = codes "80, 443, 8443";
  excluded_cidr_input = [];
  excluded_cidrs = codes "10.42.18.1/32" ∷ codes "10.42.18.254/32" ∷ [];
  excluded_host_input = [];
  excluded_hosts = codes "k8s-master-01.internal" ∷ [];
  excluded_port_input = codes "22, 10250";
  exclusion_rationale =
      codes "Strict isolation of default gateway, HSM enclave, and SSH management ports.";
  selected_capabilities =
      StandardCapability.dns_lookup ∷ StandardCapability.tcp_connect
      ∷ StandardCapability.http_request ∷ StandardCapability.port_scan
      ∷ StandardCapability.service_enumeration ∷ [];
  max_risk_class = moderate;
  llm_budget_usd = 150;
  tool_timeout_sec = 30;
  max_concurrency = 8;
  sim_query = [];
  sim_result = none;
  errors = no_errors;
}

-- The three ways in which a text is added: blank, refused or accepted
abbrev pub when_given : Text → Form → Form → Form
when_given text changed f = if is_empty (trim text) then f else changed

unfoldable pub handle_add_cidr : Form → Form
handle_add_cidr f =
    when_given f.cidr_input
      (if is_valid_ipv4_cidr (trim f.cidr_input)
        then record f {
          cidr_list = f.cidr_list ++ trim f.cidr_input ∷ [];
          cidr_input = [];
          errors = record f.errors { cidr = some [] };
        }
        else record f {
          errors = record f.errors {
            cidr = some (codes "Invalid CIDR format (expected e.g. 192.168.1.0/24)");
          };
        })
      f

unfoldable pub handle_add_host : Form → Form
handle_add_host f =
    when_given f.host_input
      (if is_valid_hostname (trim f.host_input)
        then record f {
          host_list = f.host_list ++ trim f.host_input ∷ [];
          host_input = [];
          errors = record f.errors { host = some [] };
        }
        else record f {
          errors = record f.errors {
            host = some (codes "Invalid hostname format (e.g. target.internal or *.domain.com)");
          };
        })
      f

unfoldable pub handle_add_excluded_cidr : Form → Form
handle_add_excluded_cidr f =
    when_given f.excluded_cidr_input
      (if is_valid_ipv4_cidr (trim f.excluded_cidr_input)
        then record f {
          excluded_cidrs = f.excluded_cidrs ++ trim f.excluded_cidr_input ∷ [];
          excluded_cidr_input = [];
        }
        else record f {
          errors = record f.errors { exc_cidr = some (codes "Invalid CIDR format") };
        })
      f

unfoldable pub handle_add_excluded_host : Form → Form
handle_add_excluded_host f =
    when_given f.excluded_host_input
      (record f {
        excluded_hosts = f.excluded_hosts ++ trim f.excluded_host_input ∷ [];
        excluded_host_input = [];
      })
      f

-- `h.replace('*.', '')`: the first "*.", wherever it stands
remove_wildcard : Text → Text
remove_wildcard [] = []
remove_wildcard (c ∷ s) =
    let rest = remove_wildcard s in
    if starts_with (c ∷ s) (codes "*.") then drop 2 (c ∷ s) else c ∷ rest

-- The exclusions of the simulator: the addresses and hosts, no ports
abbrev pub simulated_rules : Form → ExclusionRules
simulated_rules f = record {
  cidr_blocks = some f.excluded_cidrs;
  hostnames = some f.excluded_hosts;
  ports = none;
  rationale = none;
}

in_inclusions : Text → Form → Bool
unfolding remove_wildcard
in_inclusions test_target f =
    any is_valid_ipv4_cidr f.cidr_list
    || any (λ h. includes test_target (remove_wildcard h)) f.host_list

simulate : Text → Form → Verdict → SimResult
unfolding in_inclusions
simulate test_target f exc_check =
    if exc_check.excluded
    then record {
      evaluated = true;
      in_scope = false;
      reason = codes "DENIED BY EXCLUSION: " ++ or_else exc_check.reason (codes "undefined");
    }
    else if in_inclusions test_target f
    then record {
      evaluated = true;
      in_scope = true;
      reason =
          codes
            "VERIFIED IN-SCOPE: Target satisfies authorized CIDR/host rule and has no exclusion match.";
    }
    else record {
      evaluated = true;
      in_scope = false;
      reason =
          codes
            "DENIED (DEFAULT-DENY): Target is not in authorized CIDR or Hostname inclusion rules.";
    }

unfoldable pub handle_test_simulator : Form → Form
unfolding simulate
handle_test_simulator f =
    when_given f.sim_query
      (record f {
        sim_result = some (
            simulate (trim f.sim_query) f
              (is_target_excluded (trim f.sim_query) (rules (simulated_rules f)) none));
      })
      f

created_mission : ℕ → Text → Form → Mission
created_mission date_now operator_id f = record {
  id = codes "mis_" ++ to_base36 date_now;
  name = trim f.mission_name;
  state = MissionState.created;
  scope_ref = codes "scope_" ++ to_base36 date_now;
  created_at_unix = date_now / 1000;
  updated_at_unix = date_now / 1000;
  created_by = operator_id;
  mode = f.mode;
  description = some (trim f.description);
}

-- The form after a submission, and the mission that is given to `onMissionCreated`
unfoldable pub handle_final_submit : ℕ → Text → Form → Form × Option Mission
unfolding created_mission
handle_final_submit date_now operator_id f =
    if is_empty (trim f.mission_name)
    then (
      record f {
        step = 1;
        errors = record f.errors { name = some (codes "Mission name is required.") };
      },
      none,
    )
    else (f, some (created_mission date_now operator_id f))

-- "Proceed" of the first step
unfoldable pub handle_proceed : Form → Form
handle_proceed f =
    if is_empty (trim f.mission_name)
    then record f { errors = record no_errors { name = some (codes "Mission name is required.") } }
    else record f { errors = no_errors; step = 2 }

-- `list.filter((_, i) => i !== idx)`
remove_at : ℕ → List Text → List Text
remove_at idx [] = []
remove_at zero (x ∷ xs) = xs
remove_at (suc idx) (x ∷ xs) = x ∷ remove_at idx xs

-- A capability's place in its union, to compare two
capability_rank : StandardCapability → ℕ
capability_rank StandardCapability.dns_lookup = 0
capability_rank StandardCapability.tcp_connect = 1
capability_rank StandardCapability.port_scan = 2
capability_rank StandardCapability.http_request = 3
capability_rank StandardCapability.web_discovery = 4
capability_rank StandardCapability.browser_automation = 5
capability_rank StandardCapability.osint_lookup = 6
capability_rank StandardCapability.pcap_capture = 7
capability_rank StandardCapability.service_enumeration = 8
capability_rank StandardCapability.credential_validation = 9
capability_rank StandardCapability.controlled_exploitation = 10

same_capability : StandardCapability → StandardCapability → Bool
unfolding capability_rank
same_capability a b = capability_rank a == capability_rank b

-- `onChange` of a capability's checkbox
toggle : StandardCapability → List StandardCapability → List StandardCapability
unfolding same_capability
toggle cap selected =
    if any (same_capability cap) selected
    then filter (λ c. not (same_capability cap c)) selected
    else selected ++ cap ∷ []
