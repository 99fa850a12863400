-- ===== src/App/Failure.antt =====
-- What the handlers of frontend/src/App.tsx do with a call that fails.
use arka.Prelude.{◌≡◌, refl, ap, ◌∙◌, true, false, none, some, Text, List, length}
use arka.Types.Core.{MissionState, EmergencyStopStatus, AuditRecord}
use arka.Types.Api.{ApiResponse}
use arka.Client.{Client, Net, Outcome, returned, thrown}
use arka.Client.Endpoints.{
  Fixtures, Submitted, Rejected, Transition, ChainStatus, submit_approval, reject_approval,
  transition_mission, trigger_emergency_stop, clear_emergency_stop, verify_audit_chain,
}
use arka.Client.Outcomes.{Offline, request-mutation-offline}
use arka.App.{App, verify_result}
use arka.App.Handlers.{
  Completion, resolved, World, RefreshNets, when_data, handle_trigger_emergency_stop,
  handle_clear_emergency_stop, handle_approve, handle_reject, handle_transition_mission,
  chain_verified, handle_verify_chain,
}

when_data-failed :
    {T : Type 0} (o : Outcome T × Client) (app : App) (k : T → World → Completion × World)
    {r : ApiResponse T}
    → o.0 ≡ returned r
    → r.payload ≡ none
    → when_data o app k ≡ (resolved, (app, o.1))
when_data-failed (thrown, c) app k e h = cc
when_data-failed (returned q, c) app k {r} e h =
    let same : q ≡ r = cc in rw (ap (λ (x : ApiResponse _). x.payload) same ∙ h)

-- A handler that resolves and leaves the state as it was.
abbrev pub Silent : App → Completion × World → Type 0
Silent app out = (out.0 ≡ resolved) × (out.1.0 ≡ app)

when_data-Silent :
    {T : Type 0} (o : Outcome T × Client) (app : App) (k : T → World → Completion × World)
    {r : ApiResponse T}
    → o.0 ≡ returned r
    → r.payload ≡ none
    → Silent app (when_data o app k)
when_data-Silent o app k e h = rw (when_data-failed o app k e h) (refl, refl)

-- The networks of the five handlers that change the platform.
pub record HandlerNets : Type 0 where
  pub stop : Net EmergencyStopStatus
  pub submit : Net Submitted
  pub reject : Net Rejected
  pub transition : Net Transition
  pub refresh : RefreshNets

pub record HandlersOffline (n : HandlerNets) : Type 0 where
  pub stop : Offline n.stop
  pub submit : Offline n.submit
  pub reject : Offline n.reject
  pub transition : Offline n.transition

pub trigger-Silent :
    (fx : Fixtures) (net : Net EmergencyStopStatus) (n : RefreshNets) (text : Text) (app : App)
    (c : Client)
    → Offline net
    → c.allow_mock_mutations ≡ false
    → Silent app (handle_trigger_emergency_stop fx text net n (app, c))
unfolding handle_trigger_emergency_stop trigger_emergency_stop
trigger-Silent fx net n text app c off k =
    when_data-Silent _ app _ (request-mutation-offline net _ _ _ _ c off refl k) refl

pub clear-Silent :
    (fx : Fixtures) (net : Net EmergencyStopStatus) (audit : Net (List AuditRecord)) (text : Text)
    (app : App) (c : Client)
    → Offline net
    → c.allow_mock_mutations ≡ false
    → Silent app (handle_clear_emergency_stop fx text net audit (app, c))
unfolding handle_clear_emergency_stop clear_emergency_stop
clear-Silent fx net audit text app c off k =
    when_data-Silent _ app _ (request-mutation-offline net _ _ _ _ c off refl k) refl

pub approve-Silent :
    (fx : Fixtures) (net : Net Submitted) (n : RefreshNets) (id hash : Text) (app : App)
    (c : Client)
    → Offline net
    → c.allow_mock_mutations ≡ false
    → Silent app (handle_approve fx id hash net n (app, c))
unfolding handle_approve submit_approval
approve-Silent fx net n id hash app c off k =
    when_data-Silent _ app _ (request-mutation-offline net _ _ _ _ c off refl k) refl

pub reject-Silent :
    (fx : Fixtures) (net : Net Rejected) (n : RefreshNets) (id text : Text) (app : App) (c : Client)
    → Offline net
    → c.allow_mock_mutations ≡ false
    → Silent app (handle_reject fx id text net n (app, c))
unfolding handle_reject reject_approval
reject-Silent fx net n id text app c off k =
    when_data-Silent _ app _ (request-mutation-offline net _ _ _ _ c off refl k) refl

-- With no backend and mock mutations off, no handler changes the state of the console: no stop is
-- shown as engaged or cleared, no approval leaves the queue and no mission moves. Each handler
-- resolves all the same.
pub handlers_fail_silently :
    (fx : Fixtures) (n : HandlerNets) (app : App) (c : Client) (id text : Text)
    (target : MissionState)
    → HandlersOffline n
    → c.allow_mock_mutations ≡ false
    → Silent app (handle_trigger_emergency_stop fx text n.stop n.refresh (app, c))
      × Silent app (handle_clear_emergency_stop fx text n.stop n.refresh.audit (app, c))
      × Silent app (handle_approve fx id text n.submit n.refresh (app, c))
      × Silent app (handle_reject fx id text n.reject n.refresh (app, c))
      × Silent app (handle_transition_mission id target n.transition (app, c))
unfolding handle_transition_mission transition_mission
handlers_fail_silently fx n app c id text target off k = (
  trigger-Silent fx n.stop n.refresh text app c off.stop k,
  clear-Silent fx n.stop n.refresh.audit text app c off.stop k,
  approve-Silent fx n.submit n.refresh id text app c off.submit k,
  reject-Silent fx n.reject n.refresh id text app c off.reject k,
  when_data-Silent _ app _ (request-mutation-offline n.transition _ _ _ _ c off.transition refl k)
      refl,
)

chain_verified-failed :
    (o : Outcome ChainStatus × Client) (app : App) {r : ApiResponse ChainStatus}
    → o.0 ≡ returned r
    → r.payload ≡ none
    → (chain_verified o app).0 ≡ some (verify_result none app)
chain_verified-failed (thrown, c) app e h = cc
chain_verified-failed (returned q, c) app {r} e h =
    let same : q ≡ r = cc in
    ap (λ p. some (verify_result p app)) (ap (λ (x : ApiResponse ChainStatus). x.payload) same ∙ h)

-- With no backend and mock mutations off, whatever the audit records are, `handleVerifyChain` reports
-- both chains as valid and counts every record of the console as verified.
pub handle_verify_chain-offline :
    (net : Net ChainStatus) (app : App) (c : Client)
    → Offline net
    → c.allow_mock_mutations ≡ false
    → (handle_verify_chain net (app, c)).0
      ≡ some (record {
        system_chain_valid = true;
        mission_chain_valid = true;
        verified_blocks = length app.audit_records;
      })
unfolding handle_verify_chain verify_audit_chain verify_result
handle_verify_chain-offline net app c off k =
    chain_verified-failed _ app (request-mutation-offline net _ _ _ _ c off refl k) refl
