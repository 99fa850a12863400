-- ===== src/App/Reload.antt =====
-- `loadInitialData` of frontend/src/App.tsx with no backend. It runs again whenever the selected
-- mission changes.
use Prim.Native.Nat.{◌/◌}
use arka.Prelude.{◌≡◌, ap, ◌∙◌, true, false, none, some, Text, codes}
use arka.Client.{Client, Net, Outcome, returned, request, get, session_expired}
use arka.Client.Endpoints.{
  Fixtures, sample_reports, for_mission, get_missions, get_proposals, get_approvals, get_assets,
  get_agents, get_tasks, get_evidence, get_findings, get_reports, get_audit_records, get_settings,
  get_emergency_stop_status,
}
use arka.Client.Outcomes.{
  Offline, sample_meta, sent, connection_after, request-get-offline, request-client,
}
use arka.App.{App, Loaded, on_loaded, on_load_start}
use arka.App.Handlers.{LoadNets, load_initial_data}

-- The call is not answered, and does not come after the session's end.
abbrev pub Silenced : {T : Type 0} → Net T → Client → Type 0
Silenced net c = Offline net × (session_expired (net.date_now / 1000) c.session ≡ false)

pub record LoadSilenced (n : LoadNets) (c : Client) : Type 0 where
  pub missions : Silenced n.missions c
  pub proposals : Silenced n.proposals c
  pub approvals : Silenced n.approvals c
  pub assets : Silenced n.assets c
  pub agents : Silenced n.agents c
  pub tasks : Silenced n.tasks c
  pub evidence : Silenced n.evidence c
  pub findings : Silenced n.findings c
  pub reports : Silenced n.reports c
  pub audit : Silenced n.audit c
  pub settings : Silenced n.settings c
  pub emergency_stop : Silenced n.emergency_stop c

abbrev quiet : Client → Client
quiet c = record c { is_backend_connected = false }

abbrev sampled : {T : Type 0} → Net T → T → Outcome T
sampled net sample =
    returned
      (record { success = true; payload = some sample; error = none; meta = sample_meta net })

pair_lem : {A B : Type 0} (p : A × B) {a : A} {b : B} → p.0 ≡ a → p.1 ≡ b → p ≡ (a, b)
pair_lem (x, y) h k = cc

request-Silenced :
    {T : Type 0} (net : Net T) (path : Text) (sample : T) (c : Client)
    → Silenced net c
    → c.is_development_mode ≡ true
    → request net path get none (some sample) c ≡ (sampled net sample, quiet c)
request-Silenced net path sample c (off, live) dev =
    pair_lem _ (request-get-offline net path none sample c off live dev) (
      request-client net path get none (some sample) c live
      ∙ ap (λ f. record c { is_backend_connected = connection_after c.is_backend_connected f })
          (off (sent net path get none c)))

-- The state after a load with the samples
abbrev sample_data : (captured : Text) → Fixtures → Loaded
sample_data captured fx = record {
  captured_mission_id = captured;
  missions = some fx.missions;
  proposals = some fx.proposals;
  approvals = some fx.approvals;
  assets = some fx.assets;
  agents = some fx.agents;
  tasks = some fx.tasks;
  evidence = some fx.evidence;
  findings = some fx.findings;
  reports = some sample_reports;
  audit_records = some fx.audit_records;
  settings = some fx.settings;
  emergency_stop = some fx.emergency_stop;
}

load_initial_data-sample_data :
    (fx : Fixtures) (n : LoadNets) (app : App) (c : Client)
    → LoadSilenced n c
    → c.is_development_mode ≡ true
    → (load_initial_data fx n (app, c)).0
      ≡ on_loaded
          (sample_data app.selected_mission_id fx)
          (on_load_start c.is_development_mode c.is_backend_connected app)
unfolding load_initial_data get_missions get_proposals get_approvals get_assets get_agents get_tasks
    get_evidence get_findings get_reports get_audit_records get_settings get_emergency_stop_status
    for_mission
load_initial_data-sample_data fx n app c s dev = rw (
  request-Silenced n.missions (codes "/missions") fx.missions c s.missions dev,
  request-Silenced n.proposals (codes "/proposals") fx.proposals (quiet c) s.proposals dev,
  request-Silenced n.approvals (codes "/approvals") fx.approvals (quiet c) s.approvals dev,
  request-Silenced n.assets (codes "/assets") fx.assets (quiet c) s.assets dev,
  request-Silenced n.agents (codes "/agents") fx.agents (quiet c) s.agents dev,
  request-Silenced n.tasks (codes "/tasks") fx.tasks (quiet c) s.tasks dev,
  request-Silenced n.evidence (codes "/evidence") fx.evidence (quiet c) s.evidence dev,
  request-Silenced n.findings (codes "/findings") fx.findings (quiet c) s.findings dev,
  request-Silenced n.reports (codes "/reports") sample_reports (quiet c) s.reports dev,
  request-Silenced n.audit (codes "/audit/records") fx.audit_records (quiet c) s.audit dev,
  request-Silenced n.settings (codes "/settings") fx.settings (quiet c) s.settings dev,
  request-Silenced n.emergency_stop (codes "/emergency-stop/status") fx.emergency_stop (quiet c)
      s.emergency_stop dev,
)

-- In development mode with no backend, and with a session that has not expired at any of the twelve
-- calls, a load replaces the emergency stop status, the approval queue and the audit records by the
-- sample ones, whatever the backend said of them before.
pub load_initial_data-offline :
    (fx : Fixtures) (n : LoadNets) (app : App) (c : Client)
    → LoadSilenced n c
    → c.is_development_mode ≡ true
    → ((load_initial_data fx n (app, c)).0.emergency_stop_status ≡ fx.emergency_stop)
      × ((load_initial_data fx n (app, c)).0.approvals ≡ fx.approvals)
      × ((load_initial_data fx n (app, c)).0.audit_records ≡ fx.audit_records)
unfolding on_loaded
load_initial_data-offline fx n app c s dev =
    let e = load_initial_data-sample_data fx n app c s dev in
    (
      ap (λ (a : App). a.emergency_stop_status) e,
      ap (λ (a : App). a.approvals) e,
      ap (λ (a : App). a.audit_records) e,
    )
