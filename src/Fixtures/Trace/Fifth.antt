-- ===== src/Fixtures/Trace/Fifth.antt =====
-- frontend/src/api/traceData.ts: three of the sample findings, as in the source.
use arka.Prelude.{codes, none, true, [], ◌∷◌}
use arka.Types.Core.{ProposalDecision}
use arka.Types.FindingsTrace.{
  FindingConfidence, FindingEvidenceArtifactTrustLevel, FindingSeverity, FindingTraceItem,
  FindingTraceItemHumanApprovalState, FindingTraceItemTargetScopeStatus, ValidationState,
}
use arka.Fixtures.Stages.{PolicyOutcome, FinalOutcome, build_standard_stages}

abbrev pub exposed_node_exporter_telemetry_endpoint : FindingTraceItem
exposed_node_exporter_telemetry_endpoint = record {
  finding_id = codes "find_01J9Y7QX1M";
  mission_id = codes "mis_01J9Y70X9Y8Z7W6V5U4T3S2R1Q";
  title = codes "Exposed Node Exporter Telemetry Endpoint";
  severity = FindingSeverity.low;
  risk_score = 29;
  risk_score_scale = codes "2.9 / 10 — Low";
  scoring_source = codes "Port Scan + HTTP Header Inspection";
  confidence = FindingConfidence.observed_anomaly;
  confidence_percentage = 98;
  source_agent = codes "ReconAgent-01";
  agent_role = codes "Perimeter Surface Reconnaissance";
  target = codes "10.42.18.15:9100";
  target_scope_status = FindingTraceItemTargetScopeStatus.excluded_target;
  validation_state = ValidationState.validated;
  validation_summary = codes "Node Exporter metrics endpoint open on port 9100.";
  policy_decision = ProposalDecision.deny;
  policy_reason = codes "Target is outside the authorized testing envelope.";
  policy_rule_id = codes "RULE-DEFAULT-DENY";
  scope_ref = codes "scope-vpc-east-v2.1";
  kernel_version = codes "arka-kerneld v0.1.0";
  policy_evaluation_time_unix = 1774028026;
  human_approval_state = FindingTraceItemHumanApprovalState.not_required;
  approval_id = none;
  bound_action_hash = none;
  detected_at_unix = 1774028000;
  lifecycle_stages =
      build_standard_stages 1774028000 PolicyOutcome.deny
        (codes "Port 9100 denied by scope policy.") FindingTraceItemHumanApprovalState.not_required
        FinalOutcome.recorded_denied;
  evidence_artifacts =
      record {
        id = codes "evd_01J9Y75A1B2C3D4E5F6G7H8J9O";
        filename = codes "node_exporter_preview.txt";
        size_bytes = 520;
        content_hash =
            codes "sha256:456789abcdef0123456789abcdef01234a5b6c7d8e9f0123456789abcdef0123";
        capability = codes "HTTP_REQUEST";
        mime_type = codes "text/plain";
        provenance = record {
          agent_id = codes "agt_01J9Y74A1B2C3D4E5F6G7H8J9B";
          sandbox = codes "arka-sbx-net-rootless-01";
          kernel_ticket_receipt = codes "tkt_01J9Y78A1B2C3D4E5F6G7H8J9L";
        };
        sanitized_preview =
            codes "# HELP node_cpu_seconds_total Seconds the CPUs spent in each mode.";
        trust_level = FindingEvidenceArtifactTrustLevel.raw_untrusted_target_output;
      }
      ∷ [];
  audit_events =
      record {
        event_id = codes "evt_01J9Y77A1B2C3D4E5F6G7H8J9N";
        sequence_number = 1520;
        timestamp_unix = 1774028026;
        event_type = codes "PROPOSAL_EVALUATED";
        actor_id = codes "kernel_policy_engine";
        action_hash = none;
        previous_hash = codes "234567890abcdef1234567890abcdef1234567890abcdef1234567890abcdef1";
        current_hash = codes "34567890abcdef1234567890abcdef1234567890abcdef1234567890abcdef12";
        signature =
            codes "ed25519:7890abcdef1234567890abcdef1234567890abcdef1234567890abcdef123456";
        verified = true;
        summary = codes "Node exporter action denied.";
      }
      ∷ [];
  factual_description =
      codes "Port 9100 exposes hardware metrics to unauthenticated hosts on the VPC network.";
  remediation_guidance =
      codes
        "Restrict access to port 9100 via AWS security groups to the Prometheus server IP only.";
  cve_id = none;
}

abbrev pub kubernetes_control_plane_anonymous_authentication_enabled : FindingTraceItem
kubernetes_control_plane_anonymous_authentication_enabled = record {
  finding_id = codes "find_01J9Y7QX1N";
  mission_id = codes "mis_01J9Y70X9Y8Z7W6V5U4T3S2R1Q";
  title = codes "Kubernetes Control Plane Anonymous Authentication Enabled";
  severity = FindingSeverity.critical;
  risk_score = 97;
  risk_score_scale = codes "9.7 / 10 — Critical";
  scoring_source = codes "Kube-apiserver Discovery Response Header";
  confidence = FindingConfidence.observed_anomaly;
  confidence_percentage = 98;
  source_agent = codes "ExploitAgent-01";
  agent_role = codes "Controlled PoC Verification";
  target = codes "10.42.18.2:6443";
  target_scope_status = FindingTraceItemTargetScopeStatus.excluded_target;
  validation_state = ValidationState.validated;
  validation_summary =
      codes "Kube-apiserver /version returns gitVersion: v1.28.2 under system:anonymous.";
  policy_decision = ProposalDecision.deny;
  policy_reason =
      codes "Target is the Kubernetes master node; explicitly excluded from intrusive assessment.";
  policy_rule_id = codes "RULE-EXCL-CONTROL-PLANE";
  scope_ref = codes "scope-vpc-east-v2.1";
  kernel_version = codes "arka-kerneld v0.1.0";
  policy_evaluation_time_unix = 1774028826;
  human_approval_state = FindingTraceItemHumanApprovalState.not_required;
  approval_id = none;
  bound_action_hash = none;
  detected_at_unix = 1774028800;
  lifecycle_stages =
      build_standard_stages 1774028800 PolicyOutcome.deny
        (codes "Control plane target denied under core exclusion rule.")
        FindingTraceItemHumanApprovalState.not_required FinalOutcome.recorded_denied;
  evidence_artifacts =
      record {
        id = codes "evd_01J9Y75A1B2C3D4E5F6G7H8J9P";
        filename = codes "kube_version_response.json";
        size_bytes = 980;
        content_hash =
            codes "sha256:56789abcdef0123456789abcdef01234a5b6c7d8e9f0123456789abcdef01234";
        capability = codes "HTTP_REQUEST";
        mime_type = codes "application/json";
        provenance = record {
          agent_id = codes "agt_01J9Y74A1B2C3D4E5F6G7H8J9D";
          sandbox = codes "arka-sbx-gvisor-l2-02";
          kernel_ticket_receipt = codes "tkt_01J9Y78A1B2C3D4E5F6G7H8J9K";
        };
        sanitized_preview =
            codes
              "{\n  \"major\": \"1\",\n  \"minor\": \"28\",\n  \"gitVersion\": \"v1.28.2\",\n  \"platform\": \"linux/amd64\"\n}";
        trust_level = FindingEvidenceArtifactTrustLevel.kernel_verified_signature;
      }
      ∷ [];
  audit_events =
      record {
        event_id = codes "evt_01J9Y77A1B2C3D4E5F6G7H8J9O";
        sequence_number = 1530;
        timestamp_unix = 1774028826;
        event_type = codes "PROPOSAL_EVALUATED";
        actor_id = codes "kernel_policy_engine";
        action_hash = none;
        previous_hash = codes "34567890abcdef1234567890abcdef1234567890abcdef1234567890abcdef12";
        current_hash = codes "4567890abcdef1234567890abcdef1234567890abcdef1234567890abcdef123";
        signature =
            codes "ed25519:890abcdef1234567890abcdef1234567890abcdef1234567890abcdef1234567";
        verified = true;
        summary = codes "Control plane action denied fail-closed.";
      }
      ∷ [];
  factual_description =
      codes "Kubernetes API server allows unauthenticated users to access API discovery endpoints.";
  remediation_guidance =
      codes
        "Set --anonymous-auth=false on the kube-apiserver manifest and review RBAC bindings for system:unauthenticated.";
  cve_id = none;
}

abbrev pub cross_origin_resource_sharing_cors_misconfiguration : FindingTraceItem
cross_origin_resource_sharing_cors_misconfiguration = record {
  finding_id = codes "find_01J9Y7QX1O";
  mission_id = codes "mis_01J9Y70X9Y8Z7W6V5U4T3S2R1Q";
  title = codes "Cross-Origin Resource Sharing (CORS) Misconfiguration";
  severity = FindingSeverity.low;
  risk_score = 38;
  risk_score_scale = codes "3.8 / 10 — Low";
  scoring_source = codes "HTTP Preflight Option Header Probe";
  confidence = FindingConfidence.observed_anomaly;
  confidence_percentage = 94;
  source_agent = codes "VulnAnalysisAgent-02";
  agent_role = codes "Vulnerability Analysis & Service Fingerprinting";
  target = codes "api.vpc-east.internal/v1/auth";
  target_scope_status = FindingTraceItemTargetScopeStatus.in_scope;
  validation_state = ValidationState.validated;
  validation_summary = codes "Access-Control-Allow-Origin: * reflected with credentials allowed.";
  policy_decision = ProposalDecision.allow;
  policy_reason = codes "HTTP header inspection is permitted within active target scope.";
  policy_rule_id = codes "RULE-PERIMETER-HTTP-ALLOW";
  scope_ref = codes "scope-vpc-east-v2.1";
  kernel_version = codes "arka-kerneld v0.1.0";
  policy_evaluation_time_unix = 1774029526;
  human_approval_state = FindingTraceItemHumanApprovalState.not_required;
  approval_id = none;
  bound_action_hash = none;
  detected_at_unix = 1774029500;
  lifecycle_stages =
      build_standard_stages 1774029500 PolicyOutcome.allow
        (codes "Permitted passive header inspection.")
        FindingTraceItemHumanApprovalState.not_required FinalOutcome.recorded_valid;
  evidence_artifacts =
      record {
        id = codes "evd_01J9Y75A1B2C3D4E5F6G7H8J9Q";
        filename = codes "cors_preflight_response.txt";
        size_bytes = 750;
        content_hash =
            codes "sha256:6789abcdef0123456789abcdef01234a5b6c7d8e9f0123456789abcdef012345";
        capability = codes "HTTP_REQUEST";
        mime_type = codes "text/plain";
        provenance = record {
          agent_id = codes "agt_01J9Y74A1B2C3D4E5F6G7H8J9C";
          sandbox = codes "arka-sbx-gvisor-l2-02";
          kernel_ticket_receipt = codes "tkt_01J9Y78A1B2C3D4E5F6G7H8J9J";
        };
        sanitized_preview =
            codes
              "HTTP/1.1 204 No Content\nAccess-Control-Allow-Origin: *\nAccess-Control-Allow-Credentials: true\nAccess-Control-Allow-Methods: GET, POST, OPTIONS";
        trust_level = FindingEvidenceArtifactTrustLevel.raw_untrusted_target_output;
      }
      ∷ [];
  audit_events =
      record {
        event_id = codes "evt_01J9Y77A1B2C3D4E5F6G7H8J9P";
        sequence_number = 1540;
        timestamp_unix = 1774029526;
        event_type = codes "PROPOSAL_EVALUATED";
        actor_id = codes "kernel_policy_engine";
        action_hash = none;
        previous_hash = codes "4567890abcdef1234567890abcdef1234567890abcdef1234567890abcdef123";
        current_hash = codes "567890abcdef1234567890abcdef1234567890abcdef1234567890abcdef1234";
        signature =
            codes "ed25519:90abcdef1234567890abcdef1234567890abcdef1234567890abcdef12345678";
        verified = true;
        summary = codes "CORS finding authorized and recorded.";
      }
      ∷ [];
  factual_description =
      codes
        "The API endpoint responds with Access-Control-Allow-Origin: * while specifying credentials support.";
  remediation_guidance =
      codes
        "Explicitly whitelist trusted origins rather than using a wildcard, and never combine wildcard origins with credentials.";
  cve_id = none;
}
