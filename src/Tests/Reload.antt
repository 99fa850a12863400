-- ===== src/Tests/Reload.antt =====
-- The theorem on the offline load at a console with an engaged stop.
use arka.Prelude.{◌≡◌, refl, false}
use arka.Client.{session_expired}
use arka.Client.Endpoints.{Fixtures}
use arka.App.Handlers.{LoadNets, load_initial_data}
use arka.App.Reload.{LoadSilenced, load_initial_data-offline}
use arka.Tests.{console, offline, fixtures, app, halted}

abbrev load_nets : LoadNets
load_nets = record {
  missions = offline;
  proposals = offline;
  approvals = offline;
  assets = offline;
  agents = offline;
  tasks = offline;
  evidence = offline;
  findings = offline;
  reports = offline;
  audit = offline;
  settings = offline;
  emergency_stop = offline;
}

load_nets-LoadSilenced : LoadSilenced load_nets console
unfolding session_expired
load_nets-LoadSilenced = record {
  missions = (λ r. refl, refl);
  proposals = (λ r. refl, refl);
  approvals = (λ r. refl, refl);
  assets = (λ r. refl, refl);
  agents = (λ r. refl, refl);
  tasks = (λ r. refl, refl);
  evidence = (λ r. refl, refl);
  findings = (λ r. refl, refl);
  reports = (λ r. refl, refl);
  audit = (λ r. refl, refl);
  settings = (λ r. refl, refl);
  emergency_stop = (λ r. refl, refl);
}

-- The samples have no engaged stop, as in mockData.ts.
abbrev released : Fixtures
released = record fixtures { emergency_stop = record halted { active = false } }

load_initial_data-offline_example :
    ((load_initial_data released load_nets (app, console)).0.emergency_stop_status
      ≡ released.emergency_stop)
    × ((load_initial_data released load_nets (app, console)).0.approvals ≡ released.approvals)
    × ((load_initial_data released load_nets (app, console)).0.audit_records
        ≡ released.audit_records)
load_initial_data-offline_example =
    load_initial_data-offline released load_nets app console load_nets-LoadSilenced refl
