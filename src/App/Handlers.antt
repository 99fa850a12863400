-- ===== src/App/Handlers.antt =====
-- frontend/src/App.tsx: the asynchronous handlers, run from their call to their end with no other
-- handler in between. The calls of one `Promise.all` are made in the order of the source.
use arka.Prelude.{
  Bool, true, false, ◌&&◌, Option, none, some, List, Text, codes, is_empty, if◌then◌else◌,
}
use arka.Types.Core.{
  Mission, MissionState, ActionProposal, Approval, EmergencyStopStatus, AuditRecord, EvidenceRecord,
}
use arka.Types.Api.{UserSession}
use arka.Types.AttackSurface.{DiscoveredAsset}
use arka.Types.Agents.{AgentInstance, AgentTask}
use arka.Types.Findings.{Finding, AssessmentReport}
use arka.Types.Settings.{PlatformSettings}
use arka.Client.{Client, Net, Outcome, returned, thrown}
use arka.Client.Endpoints.{
  Fixtures, Transition, Submitted, Rejected, ChainStatus, get_missions, get_proposals,
  get_approvals, get_assets, get_agents, get_tasks, get_evidence, get_findings, get_reports,
  get_audit_records, get_settings, get_emergency_stop_status, transition_mission, submit_approval,
  reject_approval, trigger_emergency_stop, clear_emergency_stop, verify_audit_chain,
}
use arka.App.{
  App, on_load_start, on_loaded, on_load_failed, on_refreshed, on_audit_refreshed, on_triggered,
  on_cleared, on_approved, on_rejected, on_transitioned, verify_result,
}

-- How the promise of a handler ends
pub data Completion : Type 0 where
  resolved rejected : Completion

abbrev pub World : Type 0
World = App × Client

-- `session?.operator_id || 'opr_01J9Y70OPERATOR01'`
session_operator : Option UserSession → Text
session_operator none = codes "opr_01J9Y70OPERATOR01"
session_operator (some s) =
    if is_empty s.operator_id then codes "opr_01J9Y70OPERATOR01" else s.operator_id

unfoldable pub operator_id : Client → Text
unfolding session_operator
operator_id c = session_operator c.session

-- `const res = await …; if (res.data) { … }`
abbrev pub when_data :
    {T : Type 0} → Outcome T × Client → App → (T → World → Completion × World) → Completion × World
when_data (thrown, c) app k = (rejected, (app, c))
when_data (returned r, c) app k = elim r.payload [
  | none ↦ (resolved, (app, c))
  | some v ↦ k v (app, c)
]

-- The second half of a `Promise.all` of two calls
abbrev pub both :
    {S T : Type 0}
    → Outcome S
    → Outcome T × Client
    → App
    → (Option S → Option T → App → App)
    → Completion × World
both (returned r) (returned q, c) app k = (resolved, (k r.payload q.payload app, c))
both thrown (o, c) app k = (rejected, (app, c))
both (returned r) (thrown, c) app k = (rejected, (app, c))

audit_ended : Outcome (List AuditRecord) × Client → App → Completion × World
audit_ended (thrown, c) app = (rejected, (app, c))
audit_ended (returned r, c) app = (resolved, (on_audit_refreshed r.payload app, c))

pub record RefreshNets : Type 0 where
  pub proposals : Net (List ActionProposal)
  pub audit : Net (List AuditRecord)

module _ (fx : Fixtures) where
  pub refresh : RefreshNets → World → Completion × World
  refresh n (app, c) =
      let (o, c1) = get_proposals fx none n.proposals c in
      both o (get_audit_records fx n.audit c1) app on_refreshed

  unfoldable pub handle_trigger_emergency_stop :
      Text → Net EmergencyStopStatus → RefreshNets → World → Completion × World
  unfolding refresh
  handle_trigger_emergency_stop reason net n (app, c) =
      when_data (trigger_emergency_stop reason (operator_id c) net c) app
        (λ status w. refresh n (on_triggered reason status w.0, w.1))

  refresh_audit : Net (List AuditRecord) → World → Completion × World
  unfolding audit_ended
  refresh_audit net (app, c) = audit_ended (get_audit_records fx net c) app

  unfoldable pub handle_clear_emergency_stop :
      Text → Net EmergencyStopStatus → Net (List AuditRecord) → World → Completion × World
  unfolding refresh_audit
  handle_clear_emergency_stop reason net audit (app, c) =
      when_data (clear_emergency_stop reason (operator_id c) net c) app
        (λ status w. refresh_audit audit (on_cleared status w.0, w.1))

  unfoldable pub handle_approve :
      Text → Text → Net Submitted → RefreshNets → World → Completion × World
  unfolding refresh
  handle_approve approval_id action_hash net n (app, c) =
      when_data (submit_approval approval_id action_hash (operator_id c) net c) app
        (λ _ w. refresh n (on_approved approval_id w.0, w.1))

  unfoldable pub handle_reject :
      Text → Text → Net Rejected → RefreshNets → World → Completion × World
  unfolding refresh
  handle_reject approval_id reason net n (app, c) =
      when_data (reject_approval approval_id reason net c) app
        (λ _ w. refresh n (on_rejected approval_id w.0, w.1))

unfoldable pub handle_transition_mission :
    Text → MissionState → Net Transition → World → Completion × World
handle_transition_mission mission_id target net (app, c) =
    when_data (transition_mission mission_id target net c) app
      (λ answer w. (resolved, (on_transitioned mission_id target answer w.0, w.1)))

-- `none` is a rejected promise.
abbrev pub chain_verified : Outcome ChainStatus × Client → App → Option ChainStatus × World
chain_verified (thrown, c) app = (none, (app, c))
chain_verified (returned r, c) app = (some (verify_result r.payload app), (app, c))

unfoldable pub handle_verify_chain : Net ChainStatus → World → Option ChainStatus × World
handle_verify_chain net (app, c) = chain_verified (verify_audit_chain net c) app

pub record LoadNets : Type 0 where
  pub missions : Net (List Mission)
  pub proposals : Net (List ActionProposal)
  pub approvals : Net (List Approval)
  pub assets : Net (List DiscoveredAsset)
  pub agents : Net (List AgentInstance)
  pub tasks : Net (List AgentTask)
  pub evidence : Net (List EvidenceRecord)
  pub findings : Net (List Finding)
  pub reports : Net (List AssessmentReport)
  pub audit : Net (List AuditRecord)
  pub settings : Net PlatformSettings
  pub emergency_stop : Net EmergencyStopStatus

-- The payload of an outcome, and whether the outcome was thrown
abbrev payload_of : {T : Type 0} → Outcome T → Option T
payload_of thrown = none
payload_of (returned r) = r.payload

abbrev is_returned : {T : Type 0} → Outcome T → Bool
is_returned thrown = false
is_returned (returned r) = true

unfoldable pub load_initial_data : Fixtures → LoadNets → World → World
load_initial_data fx n (app, c0) =
    let (missions, c1) = get_missions fx n.missions c0 in
    let (proposals, c2) = get_proposals fx none n.proposals c1 in
    let (approvals, c3) = get_approvals fx n.approvals c2 in
    let (assets, c4) = get_assets fx n.assets c3 in
    let (agents, c5) = get_agents fx none n.agents c4 in
    let (tasks, c6) = get_tasks fx none n.tasks c5 in
    let (evidence, c7) = get_evidence fx n.evidence c6 in
    let (findings, c8) = get_findings fx n.findings c7 in
    let (reports, c9) = get_reports fx n.reports c8 in
    let (audit, c10) = get_audit_records fx n.audit c9 in
    let (settings, c11) = get_settings fx n.settings c10 in
    let (estop, c12) = get_emergency_stop_status fx n.emergency_stop c11 in
    let app1 = on_load_start c0.is_development_mode c0.is_backend_connected app in
    (
      if is_returned missions
            && is_returned proposals
            && is_returned approvals
            && is_returned assets
            && is_returned agents
            && is_returned tasks
            && is_returned evidence
            && is_returned findings
            && is_returned reports
            && is_returned audit
            && is_returned settings
            && is_returned estop
          then on_loaded
              (record {
                captured_mission_id = app.selected_mission_id;
                missions = payload_of missions;
                proposals = payload_of proposals;
                approvals = payload_of approvals;
                assets = payload_of assets;
                agents = payload_of agents;
                tasks = payload_of tasks;
                evidence = payload_of evidence;
                findings = payload_of findings;
                reports = payload_of reports;
                audit_records = payload_of audit;
                settings = payload_of settings;
                emergency_stop = payload_of estop;
              })
              app1
          else on_load_failed app1,
      c12,
    )
