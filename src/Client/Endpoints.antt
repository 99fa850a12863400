-- ===== src/Client/Endpoints.antt =====
-- frontend/src/api/client.ts: one function for each endpoint. The sample fixtures are a parameter
-- of those that fall back on them, so what is proved holds for any fixtures.
use Prim.Native.Nat.{◌/◌, ◌%◌, zero, suc}
use arka.Prelude.{
  ℕ, ◌+◌, Bool, true, false, Option, none, some, List, [], ◌∷◌, ◌++◌, Text, codes, text_eq,
  is_empty, Value, Fields, ltb, if◌then◌else◌, filter, find, head?,
}
use arka.Prelude.Values.{str, obj, end, field}
use arka.Types.Core.{
  Mission, MissionState, MissionMode, ActionProposal, Approval, EmergencyStopStatus, AuditRecord,
  EvidenceRecord,
}
use arka.Types.AttackSurface.{DiscoveredAsset}
use arka.Types.Agents.{AgentInstance, AgentTask}
use arka.Types.Findings.{Finding, AssessmentReport, AssessmentReportFormat}
use arka.Types.FindingsTrace.{FindingTraceItem}
use arka.Types.Settings.{PlatformSettings}
use arka.Client.{Client, get, post, Net, Outcome, request}

-- The constants of mockData.ts and traceData.ts
pub record Fixtures : Type 0 where
  pub missions : List Mission
  pub proposals : List ActionProposal
  pub approvals : List Approval
  pub assets : List DiscoveredAsset
  pub agents : List AgentInstance
  pub tasks : List AgentTask
  pub evidence : List EvidenceRecord
  pub findings : List Finding
  pub audit_records : List AuditRecord
  pub settings : PlatformSettings
  pub emergency_stop : EmergencyStopStatus
  pub finding_trace_items : List FindingTraceItem

-- `sampleReports`
abbrev pub sample_reports : List AssessmentReport
sample_reports =
    record {
      report_id = codes "rep_01J9Y79A1B2C3D4E5F6G7H8J9X";
      mission_id = codes "mis_01J9Y70X9Y8Z7W6V5U4T3S2R1Q";
      generated_at_unix = 1774022400;
      format = AssessmentReportFormat.json_ld;
      executive_summary =
          codes
            "Assessment verified 1 Critical vulnerability (Spring Actuator deserialization) and cataloged 21 in-scope assets.";
      scope_digest =
          codes "sha256:4f8e9a21b3c4d5e6f7a8b9c0d1e2f3a4b5c6d7e8f9a0b1c2d3e4f5a6b7c8d9e0";
      findings_count = record { critical = 1; high = 0; medium = 0; low = 0; info = 0 };
      audit_chain_verified = true;
      tamper_evident_signature =
          codes "ed25519:abcdef1234567890abcdef1234567890abcdef1234567890abcdef1234567890";
    }
    ∷ []

-- `missionId ? xs.filter((x) => x.mission_id === missionId) : xs`
unfoldable pub for_mission : {A : Type 0} → (A → Text) → Option Text → List A → List A
for_mission mission_of none xs = xs
for_mission mission_of (some id) xs =
    if is_empty id then xs else filter (λ x. text_eq (mission_of x) id) xs

-- The digits of `n.toString(36)` in front of `rest`, on fuel above `n`
base36_digits : ℕ → ℕ → Text → Text
base36_digits zero n rest = rest
base36_digits (suc f) n rest =
    let d = λ (k : ℕ). if ltb k 10 then k + 48 else k + 87 in
    let more = base36_digits f (n / 36) (d (n % 36) ∷ rest) in if ltb n 36 then d n ∷ rest else more

unfoldable pub to_base36 : ℕ → Text
unfolding base36_digits
to_base36 n = base36_digits (suc n) n (codes "")

-- `Omit<Mission, 'id' | 'state' | 'created_at_unix' | 'updated_at_unix'>`
pub record MissionPayload : Type 0 where
  pub name : Text
  pub scope_ref : Text
  pub created_by : Text
  pub mode : MissionMode
  pub description : Option Text

pub record Transition : Type 0 where
  pub id : Text
  pub state : MissionState

pub data SubmitStatus : Type 0 where
  approved consumed : SubmitStatus

pub record Submitted : Type 0 where
  pub approval_id : Text
  pub status : SubmitStatus

-- The status of a rejection has one value, REVOKED.
pub data RejectStatus : Type 0 where
  revoked : RejectStatus

pub record Rejected : Type 0 where
  pub approval_id : Text
  pub status : RejectStatus

pub record ChainStatus : Type 0 where
  pub system_chain_valid : Bool
  pub mission_chain_valid : Bool
  pub verified_blocks : ℕ

state_text : MissionState → Text
state_text MissionState.created = codes "CREATED"
state_text MissionState.active = codes "ACTIVE"
state_text MissionState.paused = codes "PAUSED"
state_text MissionState.completed = codes "COMPLETED"
state_text MissionState.terminated = codes "TERMINATED"

mode_text : MissionMode → Text
mode_text MissionMode.lab_ctf = codes "LAB_CTF"
mode_text MissionMode.authorized_professional = codes "AUTHORIZED_PROFESSIONAL"

optional_field : Text → Option Text → Fields → Fields
optional_field key none rest = rest
optional_field key (some v) rest = field key (str v) rest

mission_body : MissionPayload → Value
unfolding mode_text optional_field
mission_body p = obj (
    field (codes "name") (str p.name) (
      field (codes "scope_ref") (str p.scope_ref) (
        field (codes "created_by") (str p.created_by) (
          field (codes "mode") (str (mode_text p.mode))
            (optional_field (codes "description") p.description end)))))

abbrev two_fields : Text → Text → Text → Text → Value
two_fields k v l w = obj (field k (str v) (field l (str w) end))

module _ (fx : Fixtures) where
  unfoldable pub get_missions : Net (List Mission) → Client → Outcome (List Mission) × Client
  get_missions net c = request net (codes "/missions") get none (some fx.missions) c

  -- `SAMPLE_MISSIONS.find((m) => m.id === id) || SAMPLE_MISSIONS[0]`
  unfoldable pub sample_mission : Text → Option Mission
  sample_mission id = elim (find (λ (m : Mission). text_eq m.id id) fx.missions) [
    | some m ↦ some m
    | none ↦ head? fx.missions
  ]

  unfoldable pub get_mission : Text → Net Mission → Client → Outcome Mission × Client
  get_mission id net c = request net (codes "/missions/" ++ id) get none (sample_mission id) c

  unfoldable pub get_proposals :
      Option Text → Net (List ActionProposal) → Client → Outcome (List ActionProposal) × Client
  get_proposals mission net c =
      request net (codes "/proposals") get none
        (some (for_mission (λ (p : ActionProposal). p.mission_id) mission fx.proposals)) c

  unfoldable pub get_approvals : Net (List Approval) → Client → Outcome (List Approval) × Client
  get_approvals net c = request net (codes "/approvals") get none (some fx.approvals) c

  unfoldable pub get_assets :
      Net (List DiscoveredAsset) → Client → Outcome (List DiscoveredAsset) × Client
  get_assets net c = request net (codes "/assets") get none (some fx.assets) c

  unfoldable pub get_agents :
      Option Text → Net (List AgentInstance) → Client → Outcome (List AgentInstance) × Client
  get_agents mission net c =
      request net (codes "/agents") get none
        (some (for_mission (λ (a : AgentInstance). a.mission_id) mission fx.agents)) c

  unfoldable pub get_tasks :
      Option Text → Net (List AgentTask) → Client → Outcome (List AgentTask) × Client
  get_tasks mission net c =
      request net (codes "/tasks") get none
        (some (for_mission (λ (t : AgentTask). t.mission_id) mission fx.tasks)) c

  unfoldable pub get_evidence :
      Net (List EvidenceRecord) → Client → Outcome (List EvidenceRecord) × Client
  get_evidence net c = request net (codes "/evidence") get none (some fx.evidence) c

  unfoldable pub get_findings : Net (List Finding) → Client → Outcome (List Finding) × Client
  get_findings net c = request net (codes "/findings") get none (some fx.findings) c

  unfoldable pub get_finding_trace_items :
      Option Text → Net (List FindingTraceItem) → Client → Outcome (List FindingTraceItem) × Client
  get_finding_trace_items mission net c =
      request net (codes "/findings/trace") get none
        (some (for_mission (λ (i : FindingTraceItem). i.mission_id) mission fx.finding_trace_items))
        c

  -- The fallback is never undefined: a missing item is `null`, here `some none`.
  unfoldable pub get_finding_trace_by_id :
      Text → Net (Option FindingTraceItem) → Client → Outcome (Option FindingTraceItem) × Client
  get_finding_trace_by_id finding_id net c =
      request net (codes "/findings/trace/" ++ finding_id) get none
        (some
          (find (λ (f : FindingTraceItem). text_eq f.finding_id finding_id) fx.finding_trace_items))
        c

  unfoldable pub get_reports :
      Net (List AssessmentReport) → Client → Outcome (List AssessmentReport) × Client
  get_reports net c = request net (codes "/reports") get none (some sample_reports) c

  unfoldable pub get_emergency_stop_status :
      Net EmergencyStopStatus → Client → Outcome EmergencyStopStatus × Client
  get_emergency_stop_status net c =
      request net (codes "/emergency-stop/status") get none (some fx.emergency_stop) c

  unfoldable pub get_audit_records :
      Net (List AuditRecord) → Client → Outcome (List AuditRecord) × Client
  get_audit_records net c = request net (codes "/audit/records") get none (some fx.audit_records) c

  unfoldable pub get_settings : Net PlatformSettings → Client → Outcome PlatformSettings × Client
  get_settings net c = request net (codes "/settings") get none (some fx.settings) c

new_mission : ℕ → MissionPayload → Mission
new_mission date_now p = record {
  id = codes "mis_" ++ to_base36 date_now;
  name = p.name;
  state = MissionState.created;
  scope_ref = p.scope_ref;
  created_at_unix = date_now / 1000;
  updated_at_unix = date_now / 1000;
  created_by = p.created_by;
  mode = p.mode;
  description = p.description;
}

unfoldable pub create_mission : MissionPayload → Net Mission → Client → Outcome Mission × Client
unfolding new_mission mission_body
create_mission payload' net c =
    request net (codes "/missions") post (some (mission_body payload'))
      (some (new_mission net.date_now payload')) c

unfoldable pub transition_mission :
    Text → MissionState → Net Transition → Client → Outcome Transition × Client
unfolding state_text
transition_mission mission_id target net c =
    request net (codes "/missions/transition") post
      (some (two_fields (codes "mission_id") mission_id (codes "target_state") (state_text target)))
      (some (record { id = mission_id; state = target })) c

unfoldable pub submit_approval :
    Text → Text → Text → Net Submitted → Client → Outcome Submitted × Client
submit_approval approval_id bound_action_hash operator_id net c =
    request net (codes "/approvals/submit") post
      (some (
        obj (
          field (codes "approval_id") (str approval_id) (
            field (codes "bound_action_hash") (str bound_action_hash)
              (field (codes "approver") (str operator_id) end)))))
      (some (record { approval_id = approval_id; status = SubmitStatus.consumed })) c

unfoldable pub reject_approval : Text → Text → Net Rejected → Client → Outcome Rejected × Client
reject_approval approval_id reason net c =
    request net (codes "/approvals/reject") post
      (some (two_fields (codes "approval_id") approval_id (codes "reason") reason))
      (some (record { approval_id = approval_id; status = RejectStatus.revoked })) c

triggered_status : ℕ → Text → Text → EmergencyStopStatus
triggered_status date_now reason operator_id = record {
  active = true;
  triggered_at_unix = some (date_now / 1000);
  triggered_by = some operator_id;
  reason = some reason;
  cleared_at_unix = none;
  cleared_by = none;
  clear_reason = none;
}

cleared_status : ℕ → Text → Text → EmergencyStopStatus
cleared_status date_now clear_reason operator_id = record {
  active = false;
  triggered_at_unix = none;
  triggered_by = none;
  reason = none;
  cleared_at_unix = some (date_now / 1000);
  cleared_by = some operator_id;
  clear_reason = some clear_reason;
}

unfoldable pub trigger_emergency_stop :
    Text → Text → Net EmergencyStopStatus → Client → Outcome EmergencyStopStatus × Client
unfolding triggered_status
trigger_emergency_stop reason operator_id net c =
    request net (codes "/emergency-stop/trigger") post
      (some (two_fields (codes "reason") reason (codes "operatorId") operator_id))
      (some (triggered_status net.date_now reason operator_id)) c

unfoldable pub clear_emergency_stop :
    Text → Text → Net EmergencyStopStatus → Client → Outcome EmergencyStopStatus × Client
unfolding cleared_status
clear_emergency_stop clear_reason operator_id net c =
    request net (codes "/emergency-stop/clear") post
      (some (two_fields (codes "clearReason") clear_reason (codes "operatorId") operator_id))
      (some (cleared_status net.date_now clear_reason operator_id)) c

unfoldable pub verify_audit_chain : Net ChainStatus → Client → Outcome ChainStatus × Client
verify_audit_chain net c =
    request net (codes "/audit/verify") post none
      (some
        (record { system_chain_valid = true; mission_chain_valid = true; verified_blocks = 1402 }))
      c
