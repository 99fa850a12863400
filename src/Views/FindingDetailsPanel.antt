-- ===== src/Views/FindingDetailsPanel.antt =====
-- frontend/src/components/trace/FindingDetailsPanel.tsx: the panel of the selected finding. Its cells
-- outlive a change of the finding that it is given. `size_text` is `(bytes / 1024).toFixed(1)`.
pub mod Preview
use arka.Prelude.{
  given, is_text, ℕ, Bool, true, false, Option, none, some, List, [], ◌∷◌, ◌++◌, map, Text, codes,
  text_eq, is_empty, if◌then◌else◌, length, take, to_string,
}
use arka.Types.Core.{ProposalDecision}
use arka.Types.FindingsTrace.{
  FindingTraceItem, FindingSeverity, FindingEvidenceArtifact, FindingEvidenceArtifactTrustLevel,
  FindingAuditEvent, FindingTraceItemTargetScopeStatus,
}
use arka.Formatting.{format_timestamp}

pub data DetailsTab : Type 0 where
  overview evidence policy audit : DetailsTab

pub record Details : Type 0 where
  pub active_tab : DetailsTab
  pub selected_artifact : Option FindingEvidenceArtifact
  pub copied_hash : Option Text

abbrev pub initial_details : Details
initial_details = record { active_tab = overview; selected_artifact = none; copied_hash = none }

-- What the controls of the panel do
pub data Event : Type 0 where
  tab_pressed : DetailsTab → Event
  artifact_pressed : FindingEvidenceArtifact → Event
  preview_closed : Event
  -- `handleCopy`, and what it schedules
  copied : Text → Event
  copy_expired : Event

unfoldable pub handle : Event → Details → Details
handle (tab_pressed tab) d = record d { active_tab = tab; selected_artifact = none }
handle (artifact_pressed artifact) d = record d { selected_artifact = some artifact }
handle preview_closed d = record d { selected_artifact = none }
handle (copied text) d = record d { copied_hash = some text }
handle copy_expired d = record d { copied_hash = none }

abbrev is_excluded_target : FindingTraceItemTargetScopeStatus → Bool
is_excluded_target FindingTraceItemTargetScopeStatus.excluded_target = true
is_excluded_target FindingTraceItemTargetScopeStatus.in_scope = false
is_excluded_target FindingTraceItemTargetScopeStatus.discovered_unauthorized = false

unfoldable pub scope_text : FindingTraceItemTargetScopeStatus → Text
scope_text s =
    if is_excluded_target s
    then codes "Target matches explicit exclusion rule."
    else codes "Target verified in active scope."

unfoldable pub tab_label : FindingTraceItem → DetailsTab → Text
tab_label f overview = codes "Overview"
tab_label f evidence = codes "Evidence (" ++ (to_string (length f.evidence_artifacts) ++ codes ")")
tab_label f policy = codes "Policy"
tab_label f audit = codes "Audit (" ++ (to_string (length f.audit_events) ++ codes ")")

abbrev same_tab : DetailsTab → DetailsTab → Bool
same_tab overview overview = true
same_tab evidence evidence = true
same_tab policy policy = true
same_tab audit audit = true
same_tab _ _ = false

pub record TabButton : Type 0 where
  pub tab : DetailsTab
  pub label : Text
  pub is_active : Bool

unfoldable pub tab_button : FindingTraceItem → Details → DetailsTab → TabButton
unfolding tab_label
tab_button f d tab = record {
  tab = tab;
  label = tab_label f tab;
  is_active = same_tab d.active_tab tab;
}

pub record OverviewTab : Type 0 where
  pub source_agent : Text
  pub agent_role : Text
  pub target : Text
  pub target_scope_status : FindingTraceItemTargetScopeStatus
  pub risk_score_scale : Text
  pub scoring_source : Text
  pub policy_decision : ProposalDecision
  pub evaluated : Text
  pub factual_description : Text
  pub remediation_guidance : Text

unfoldable pub overview_tab : (ℕ → Text) → FindingTraceItem → OverviewTab
overview_tab to_iso_string f = record {
  source_agent = f.source_agent;
  agent_role = f.agent_role;
  target = f.target;
  target_scope_status = f.target_scope_status;
  risk_score_scale = f.risk_score_scale;
  scoring_source = f.scoring_source;
  policy_decision = f.policy_decision;
  evaluated = format_timestamp to_iso_string f.policy_evaluation_time_unix;
  factual_description = f.factual_description;
  remediation_guidance = f.remediation_guidance;
}

abbrev trust_text : FindingEvidenceArtifactTrustLevel → Text
trust_text FindingEvidenceArtifactTrustLevel.kernel_verified_signature = codes "VERIFIED"
trust_text FindingEvidenceArtifactTrustLevel.raw_untrusted_target_output = codes "RAW UNTRUSTED"

abbrev is_artifact : Option FindingEvidenceArtifact → Text → Bool
is_artifact none id = false
is_artifact (some a) id = text_eq a.id id

pub record ArtifactRow : Type 0 where
  pub is_selected : Bool
  pub filename : Text
  pub size : Text
  pub short_hash : Text
  pub is_copied : Bool
  pub capability : Text
  pub trust : Text

unfoldable pub artifact_row : (ℕ → Text) → Details → FindingEvidenceArtifact → ArtifactRow
artifact_row size_text d a = record {
  is_selected = is_artifact d.selected_artifact a.id;
  filename = a.filename;
  size = size_text a.size_bytes ++ codes " KB";
  short_hash = take 24 a.content_hash ++ codes "...";
  is_copied = is_text d.copied_hash a.content_hash;
  capability = a.capability;
  trust = trust_text a.trust_level;
}

pub record PreviewDrawer : Type 0 where
  pub filename : Text
  pub sanitized_preview : Text

unfoldable pub preview : Option FindingEvidenceArtifact → Option PreviewDrawer
preview none = none
preview (some a) = some (record { filename = a.filename; sanitized_preview = a.sanitized_preview })

unfoldable pub policy_banner : ProposalDecision → Text
policy_banner ProposalDecision.deny = codes "AUTHORITATIVE KERNEL DENIAL"
policy_banner ProposalDecision.require_approval = codes "TWO-PERSON INTEGRITY APPROVAL REQUIRED"
policy_banner ProposalDecision.allow = codes "AUTHORIZED BY SECURITY KERNEL"
policy_banner ProposalDecision.invalid_proposal = codes "AUTHORIZED BY SECURITY KERNEL"
policy_banner ProposalDecision.expired_proposal = codes "AUTHORIZED BY SECURITY KERNEL"
policy_banner ProposalDecision.unavailable_dependency = codes "AUTHORIZED BY SECURITY KERNEL"

pub record PolicyTab : Type 0 where
  pub banner : Text
  pub policy_reason : Text
  pub policy_rule_id : Text
  pub scope_ref : Text
  pub kernel_version : Text
  pub evaluated : Text
  pub approval_ticket : Option Text

unfoldable pub policy_tab : (ℕ → Text) → FindingTraceItem → PolicyTab
unfolding policy_banner
policy_tab to_iso_string f = record {
  banner = policy_banner f.policy_decision;
  policy_reason = f.policy_reason;
  policy_rule_id = f.policy_rule_id;
  scope_ref = f.scope_ref;
  kernel_version = f.kernel_version;
  evaluated = format_timestamp to_iso_string f.policy_evaluation_time_unix;
  approval_ticket = given f.approval_id;
}

-- An audit event; every one is marked ED25519 VERIFIED.
pub record EventRow : Type 0 where
  pub heading : Text
  pub seal : Text
  pub summary : Text
  pub actor : Text
  pub timestamp : Text
  pub signature : Text

unfoldable pub event_row : (ℕ → Text) → FindingAuditEvent → EventRow
event_row to_iso_string e = record {
  heading = codes "#" ++ (to_string e.sequence_number ++ (codes " · " ++ e.event_type));
  seal = codes "ED25519 VERIFIED";
  summary = e.summary;
  actor = e.actor_id;
  timestamp = format_timestamp to_iso_string e.timestamp_unix;
  signature = take 36 e.signature ++ codes "...";
}

-- The body of the panel, which is that of the active tab
pub data Body : Type 0 where
  overview_body : OverviewTab → Body
  evidence_body : List ArtifactRow → Option PreviewDrawer → Body
  policy_body : PolicyTab → Body
  audit_body : List EventRow → Body

module _ (to_iso_string size_text : ℕ → Text) where
  unfoldable pub body : FindingTraceItem → Details → DetailsTab → Body
  unfolding overview_tab artifact_row preview policy_tab event_row
  body f d overview = overview_body (overview_tab to_iso_string f)
  body f d evidence =
      evidence_body (map (artifact_row size_text d) f.evidence_artifacts)
        (preview d.selected_artifact)
  body f d policy = policy_body (policy_tab to_iso_string f)
  body f d audit = audit_body (map (event_row to_iso_string) f.audit_events)

  pub record DetailsPanel : Type 0 where
    pub severity : FindingSeverity
    pub finding_id : Text
    pub title : Text
    pub scope : Text
    pub cve_id : Option Text
    pub tabs : List TabButton
    pub content : Body

  unfoldable pub panel_of : FindingTraceItem → Details → DetailsPanel
  unfolding scope_text tab_button body
  panel_of f d = record {
    severity = f.severity;
    finding_id = f.finding_id;
    title = f.title;
    scope = scope_text f.target_scope_status;
    cve_id = given f.cve_id;
    tabs = map (tab_button f d) (overview ∷ evidence ∷ policy ∷ audit ∷ []);
    content = body f d d.active_tab;
  }

  -- `none` is the empty panel.
  unfoldable pub details_panel : Option FindingTraceItem → Details → Option DetailsPanel
  unfolding panel_of
  details_panel none d = none
  details_panel (some f) d = some (panel_of f d)
