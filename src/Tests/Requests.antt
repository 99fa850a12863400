-- ===== src/Tests/Requests.antt =====
-- The client's theorems at concrete calls.
use arka.Prelude.{refl, none, some, codes}
use arka.Types.Core.{MissionState, MissionMode}
use arka.Client.{get, post, request}
use arka.Client.Outcomes.{
  Returns, Genuine, Flagged, IsConsistent, sent, request-mutation-Genuine, request-Flagged,
  request-IsConsistent,
}
use arka.Client.Endpoints.{
  MissionPayload, create_mission, transition_mission, submit_approval, reject_approval,
  trigger_emergency_stop, clear_emergency_stop, verify_audit_chain,
}
use arka.Client.FailClosed.{MutationNets, AllOffline, FailsClosed, mutations_fail_closed}
use arka.Tests.{console, offline, backend, halted}

request-mutation-Genuine_example :
    Returns
      (Genuine ((backend halted).fetch (sent (backend halted) (codes "/x") post none console)))
      (request (backend halted) (codes "/x") post none none console).0
request-mutation-Genuine_example =
    request-mutation-Genuine (backend halted) (codes "/x") post none none console refl refl

request-Flagged_example :
    Returns
      (Flagged ((backend halted).fetch (sent (backend halted) (codes "/x") get none console)))
      (request (backend halted) (codes "/x") get none (some halted) console).0
request-Flagged_example =
    request-Flagged (backend halted) (codes "/x") get none (some halted) console

request-IsConsistent_example :
    Returns IsConsistent (request offline (codes "/x") get none (some halted) console).0
request-IsConsistent_example =
    request-IsConsistent offline (codes "/x") get none (some halted) console

abbrev payload_1 : MissionPayload
payload_1 = record {
  name = codes "Perimeter";
  scope_ref = codes "scp_1";
  created_by = codes "opr_7";
  mode = MissionMode.lab_ctf;
  description = none;
}

abbrev all_nets : MutationNets
all_nets = record {
  create = offline;
  transition = offline;
  submit = offline;
  reject = offline;
  trigger = offline;
  clear = offline;
  verify = offline;
}

abbrev all_nets-AllOffline : AllOffline all_nets
all_nets-AllOffline = record {
  create = λ r. refl;
  transition = λ r. refl;
  submit = λ r. refl;
  reject = λ r. refl;
  trigger = λ r. refl;
  clear = λ r. refl;
  verify = λ r. refl;
}

mutations_fail_closed_example :
    FailsClosed all_nets.create console (create_mission payload_1 all_nets.create console).0
    × FailsClosed all_nets.transition console
        (transition_mission (codes "m1") MissionState.active all_nets.transition console).0
    × FailsClosed all_nets.submit console
        (submit_approval (codes "m1") (codes "h") (codes "o") all_nets.submit console).0
    × FailsClosed all_nets.reject console
        (reject_approval (codes "m1") (codes "r") all_nets.reject console).0
    × FailsClosed all_nets.trigger console
        (trigger_emergency_stop (codes "r") (codes "o") all_nets.trigger console).0
    × FailsClosed all_nets.clear console
        (clear_emergency_stop (codes "r") (codes "o") all_nets.clear console).0
    × FailsClosed all_nets.verify console (verify_audit_chain all_nets.verify console).0
mutations_fail_closed_example =
    mutations_fail_closed all_nets console payload_1 (codes "m1") (codes "h") (codes "o")
      (codes "r") MissionState.active all_nets-AllOffline refl
