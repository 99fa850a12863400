-- ===== src/Tests/Shell.antt =====
-- The theorems on the page around the views, and on the links between them, at concrete consoles.
use arka.Prelude.{
  ◌≡◌, refl, true, false, not, any, none, some, List, [], ◌∷◌, Text, codes, to_string,
}
use arka.Prelude.Values.{str, end, field}
use arka.Types.Core.{
  ActionProposal, EvidenceRecord, EvidenceRecordPayloadType, EvidenceRecordTrustLevel,
  ProposalDecision, RiskClass, StandardCapability,
}
use arka.App.{App, NavDestination, initial_app}
use arka.App.Events.{Event, nav_selected, creating_set, theme_toggled, apply, run}
use arka.Security.Redaction.{is_redacted}
use arka.Views.Header.{header}
use arka.Views.SideNav.{side_nav}
use arka.Views.Shell.{Page, render, banners, active_view, view_of, select_evidence, evidence_view}
use arka.Views.Shell.Lockdown.{is_lockdown, render-lockdown}
use arka.Views.Shell.Navigation.{OffersAll, run-creating}
use arka.Views.Shell.EvidenceLinks.{mounted, select_evidence-first}
use arka.Views.EvidenceView.{evidence_details, initial_evidence}
use arka.Views.ProposalsView.{
  ProposalDetails, proposals_page, proposal_details, initial_proposals, selected_proposal,
}
use arka.Views.ProposalsView.Shown.{proposals_page-redacted}
use arka.Views.Chosen.{chosen, first_key}
use arka.Tests.{app, halted}

abbrev locked : App
locked = record app { initial_loading = false; emergency_stop_status = halted }

abbrev locked_page : Page
locked_page = record {
  header = header (codes "opr_7") locked;
  side_nav = side_nav locked;
  banners = banners locked;
  view = active_view locked;
}

render-lockdown_example : any is_lockdown locked_page.banners ≡ not locked_page.side_nav.halt_button
unfolding render
render-lockdown_example = render-lockdown (codes "opr_7") locked locked_page refl

-- The operator opens the form on the tab of the missions and toggles the theme.
abbrev form_opened : List Event
form_opened = nav_selected NavDestination.missions ∷ creating_set true ∷ theme_toggled ∷ []

form_opened-offered : OffersAll form_opened initial_app
unfolding apply active_view view_of
form_opened-offered = (tt, (refl, (tt, tt)))

run-creating_example : (run form_opened initial_app).current_tab ≡ NavDestination.missions
unfolding run apply
run-creating_example = run-creating form_opened form_opened-offered refl

abbrev evidence : Text → EvidenceRecord
evidence id = record {
  evidence_id = id;
  mission_id = codes "m1";
  originating_action_id = codes "act_1";
  originating_capability = StandardCapability.port_scan;
  content_hash = codes "sha256:a1";
  timestamp_unix = 500;
  provenance = record {
    agent_id = codes "agt_1";
    broker_sandbox = codes "sbx_1";
    kernel_ticket_receipt = codes "tkt_1";
  };
  payload_preview = codes "8443/tcp open";
  payload_type = EvidenceRecordPayloadType.port_survey;
  trust_level = EvidenceRecordTrustLevel.raw_untrusted_target_output;
}

abbrev vault : App
vault = record app { evidence_list = evidence (codes "e1") ∷ evidence (codes "e2") ∷ [] }

-- The button names the second record.
select_evidence-first_example :
    (active_view (apply (select_evidence (codes "e2")) vault) ≡ evidence_view)
    × ((mounted to_string (apply (select_evidence (codes "e2")) vault)).details
        ≡ evidence_details (initial_evidence vault.evidence_list) (some (evidence (codes "e1"))))
select_evidence-first_example =
    select_evidence-first to_string (codes "e2") vault (evidence (codes "e1"))
      (evidence (codes "e2") ∷ []) refl

abbrev proposal : ActionProposal
proposal = record {
  proposal_id = codes "p1";
  mission_id = codes "m1";
  parent_task_id = none;
  requesting_agent = codes "agt_1";
  capability_id = StandardCapability.http_request;
  target = codes "10.0.0.1";
  raw_parameters = end;
  normalized_parameters = field (codes "api_key") (str (codes "s3")) end;
  parameter_hash = codes "h1";
  action_hash = codes "h2";
  declared_risk = none;
  true_risk = RiskClass.low;
  decision = ProposalDecision.require_approval;
  decision_reason = none;
  evidence_refs = [];
  rationale = codes "probe";
  nonce = codes "n1";
  timestamp_unix = 400;
  expires_at_unix = 900;
}

abbrev shown_details : ProposalDetails
shown_details = proposal_details true (initial_proposals (proposal ∷ [])) proposal

proposals_page-redacted_example : is_redacted shown_details.parameters ≡ true
unfolding proposals_page selected_proposal initial_proposals chosen first_key
proposals_page-redacted_example =
    proposals_page-redacted 500000 true (initial_proposals (proposal ∷ [])) (proposal ∷ [])
      shown_details refl
