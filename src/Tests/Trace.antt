-- ===== src/Tests/Trace.antt =====
-- The theorems on the view of the findings trace at concrete states.
use arka.Prelude.{
  ◌+◌, ◌*◌, ◌≤◌, ◌≡◌, ◌⊎◌, inl, refl, true, none, some, List, [], ◌∷◌, codes, length, Text,
}
use arka.Types.Api.{ApiResponse}
use arka.Types.FindingsTrace.{
  FindingTraceItem, FindingEvidenceArtifact, FindingEvidenceArtifactTrustLevel,
}
use arka.Client.{returned}
use arka.Fixtures.Trace.First.{exposed_management_port, outdated_ssh_version}
use arka.Views.AgentFindingsTrace.{
  TraceView, Event, initial_view, finished, panel_closed, row_selected, selected_finding, run,
  flush, finish_load,
}
use arka.Views.AgentFindingsTrace.Selected.{run-selected_finding}
use arka.Views.AgentFindingsTrace.Loads.{IsFlushed, here}
use arka.Views.AgentFindingsTrace.Settles.{Ends, answer, no_more, one_more, loads_end}
use arka.Views.FindingDetailsPanel.{
  initial_details, artifact_pressed, tab_pressed, evidence, handle,
}
use arka.Views.FindingDetailsPanel.Preview.{
  Session, Reach, opened, used, shown, IsFresh, Reach-IsFresh,
}

abbrev listing : ApiResponse (List FindingTraceItem)
listing = record {
  success = true;
  payload = some (exposed_management_port ∷ outdated_ssh_version ∷ []);
  error = none;
  meta = record { request_id = codes "r"; timestamp_unix = 500; kernel_version = none };
}

abbrev events : List Event
events = finished none [] (returned listing) ∷ row_selected (codes "zz") ∷ panel_closed ∷ []

run-selected_finding_example :
    ((run events initial_view).findings ≡ [])
    ⊎ ((f : FindingTraceItem) × (selected_finding (run events initial_view) ≡ some f))
run-selected_finding_example = run-selected_finding events initial_view

-- The view at its first commit, with its first load on the way
abbrev first_commit : TraceView
first_commit = record initial_view { loads = none ∷ []; ran_for = some none }

loads_end_example :
    (1 ≤ 2 * length first_commit.loads + 1)
    × Ends listing exposed_management_port
        (outdated_ssh_version ∷ [])
        refl
        refl
        (flush (finish_load none (returned listing) (record first_commit { loads = [] })))
unfolding IsFlushed
loads_end_example =
    loads_end listing exposed_management_port (outdated_ssh_version ∷ []) refl refl refl
      (one_more (answer none [] here) no_more)

abbrev artifact : Text → FindingEvidenceArtifact
artifact id = record {
  id = id;
  filename = codes "scan.txt";
  size_bytes = 2150;
  content_hash = codes "sha256:a1";
  capability = codes "PORT_SCAN";
  mime_type = codes "text/plain";
  provenance = record {
    agent_id = codes "agt_1";
    sandbox = codes "sbx_1";
    kernel_ticket_receipt = codes "tkt_1";
  };
  sanitized_preview = codes "8443/tcp open";
  trust_level = FindingEvidenceArtifactTrustLevel.raw_untrusted_target_output;
}

abbrev with_artifact : FindingTraceItem
with_artifact = record exposed_management_port { evidence_artifacts = artifact (codes "e1") ∷ [] }

-- The artifact of one finding is opened, and another finding is selected.
abbrev stale : Session
stale = record {
  finding = outdated_ssh_version;
  details = record initial_details {
    active_tab = evidence;
    selected_artifact = some (artifact (codes "e1"));
  };
}

stale-reached : Reach (outdated_ssh_version ∷ with_artifact ∷ []) stale
unfolding handle
stale-reached =
    shown
      (used (used (opened with_artifact) (tab_pressed evidence) tt)
        (artifact_pressed (artifact (codes "e1"))) (refl, inl refl))
      outdated_ssh_version

Reach-IsFresh_example :
    IsFresh
      (outdated_ssh_version ∷ with_artifact ∷ [])
      stale.details.active_tab
      stale.details.selected_artifact
Reach-IsFresh_example = Reach-IsFresh stale-reached
