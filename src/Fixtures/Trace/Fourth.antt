-- ===== src/Fixtures/Trace/Fourth.antt =====
-- frontend/src/api/traceData.ts: three of the sample findings, as in the source.
use arka.Prelude.{codes, none, some, true, [], ◌∷◌}
use arka.Types.Core.{ProposalDecision}
use arka.Types.FindingsTrace.{
  FindingConfidence, FindingEvidenceArtifactTrustLevel, FindingSeverity, FindingTraceItem,
  FindingTraceItemHumanApprovalState, FindingTraceItemTargetScopeStatus, ValidationState,
}
use arka.Fixtures.Stages.{PolicyOutcome, FinalOutcome, build_standard_stages}

abbrev pub hardcoded_api_token_in_client_javascript_bundle : FindingTraceItem
hardcoded_api_token_in_client_javascript_bundle = record {
  finding_id = codes "find_01J9Y7QX1J";
  mission_id = codes "mis_01J9Y70X9Y8Z7W6V5U4T3S2R1Q";
  title = codes "Hardcoded API Token in Client JavaScript Bundle";
  severity = FindingSeverity.high;
  risk_score = 79;
  risk_score_scale = codes "7.9 / 10 — High";
  scoring_source = codes "Static Asset Regex Analysis";
  confidence = FindingConfidence.observed_anomaly;
  confidence_percentage = 96;
  source_agent = codes "VulnAnalysisAgent-02";
  agent_role = codes "Vulnerability Analysis & Service Fingerprinting";
  target = codes "app.vpc-east.internal/static/main.js";
  target_scope_status = FindingTraceItemTargetScopeStatus.in_scope;
  validation_state = ValidationState.validated;
  validation_summary =
      codes "JWT token matching internal analytics service hardcoded in compiled bundle.";
  policy_decision = ProposalDecision.allow;
  policy_reason =
      codes "Static code retrieval and entropy scanning authorized under standard web discovery.";
  policy_rule_id = codes "RULE-WEB-DISCOVERY-ALLOW";
  scope_ref = codes "scope-vpc-east-v2.1";
  kernel_version = codes "arka-kerneld v0.1.0";
  policy_evaluation_time_unix = 1774026026;
  human_approval_state = FindingTraceItemHumanApprovalState.not_required;
  approval_id = none;
  bound_action_hash = none;
  detected_at_unix = 1774026000;
  lifecycle_stages =
      build_standard_stages 1774026000 PolicyOutcome.allow
        (codes "Web asset inspection approved by Security Kernel.")
        FindingTraceItemHumanApprovalState.not_required FinalOutcome.recorded_valid;
  evidence_artifacts =
      record {
        id = codes "evd_01J9Y75A1B2C3D4E5F6G7H8J9L";
        filename = codes "hardcoded_jwt_snippet.js";
        size_bytes = 940;
        content_hash =
            codes "sha256:123456789abcdef0123456789abcdef01234a5b6c7d8e9f0123456789abcdef0";
        capability = codes "WEB_DISCOVERY";
        mime_type = codes "application/javascript";
        provenance = record {
          agent_id = codes "agt_01J9Y74A1B2C3D4E5F6G7H8J9C";
          sandbox = codes "arka-sbx-gvisor-l2-02";
          kernel_ticket_receipt = codes "tkt_01J9Y78A1B2C3D4E5F6G7H8J9O";
        };
        sanitized_preview =
            codes
              "const ANALYTICS_CONFIG = {\n  endpoint: \"https://telemetry.internal/collect\",\n  apiKey: \"[REDACTED_SECRET_JWT]\"\n};";
        trust_level = FindingEvidenceArtifactTrustLevel.kernel_verified_signature;
      }
      ∷ [];
  audit_events =
      record {
        event_id = codes "evt_01J9Y77A1B2C3D4E5F6G7H8J9K";
        sequence_number = 1490;
        timestamp_unix = 1774026026;
        event_type = codes "EVIDENCE_RECORDED";
        actor_id = codes "agt_01J9Y74A1B2C3D4E5F6G7H8J9C";
        action_hash = none;
        previous_hash = codes "9012345678abcdef1234567890abcdef1234567890abcdef1234567890abcdef";
        current_hash = codes "0123456789abcdef1234567890abcdef1234567890abcdef1234567890abcdef";
        signature =
            codes "ed25519:4567890abcdef1234567890abcdef1234567890abcdef1234567890abcdef123";
        verified = true;
        summary = codes "Hardcoded secret evidence logged and masked.";
      }
      ∷ [];
  factual_description =
      codes
        "Client JavaScript contains hardcoded authorization header credentials for internal telemetry reporting.";
  remediation_guidance =
      codes
        "Rotate the leaked token immediately and remove authentication keys from static frontend assets.";
  cve_id = none;
}

abbrev pub grafana_dashboard_anonymous_admin_access : FindingTraceItem
grafana_dashboard_anonymous_admin_access = record {
  finding_id = codes "find_01J9Y7QX1K";
  mission_id = codes "mis_01J9Y70X9Y8Z7W6V5U4T3S2R1Q";
  title = codes "Grafana Dashboard Anonymous Admin Access";
  severity = FindingSeverity.medium;
  risk_score = 67;
  risk_score_scale = codes "6.7 / 10 — Medium";
  scoring_source = codes "HTTP Response Code & Title Extraction";
  confidence = FindingConfidence.observed_anomaly;
  confidence_percentage = 95;
  source_agent = codes "VulnAnalysisAgent-02";
  agent_role = codes "Vulnerability Analysis & Service Fingerprinting";
  target = codes "10.42.18.88:3000";
  target_scope_status = FindingTraceItemTargetScopeStatus.excluded_target;
  validation_state = ValidationState.validated;
  validation_summary =
      codes "Grafana responds to /api/dashboards/home with HTTP 200 without session cookie.";
  policy_decision = ProposalDecision.deny;
  policy_reason = codes "Target is in the excluded internal monitoring subnet.";
  policy_rule_id = codes "RULE-EXCL-MONITORING-01";
  scope_ref = codes "scope-vpc-east-v2.1";
  kernel_version = codes "arka-kerneld v0.1.0";
  policy_evaluation_time_unix = 1774026826;
  human_approval_state = FindingTraceItemHumanApprovalState.not_required;
  approval_id = none;
  bound_action_hash = none;
  detected_at_unix = 1774026800;
  lifecycle_stages =
      build_standard_stages 1774026800 PolicyOutcome.deny
        (codes "Target matches exclusion rule for monitoring hosts.")
        FindingTraceItemHumanApprovalState.not_required FinalOutcome.recorded_denied;
  evidence_artifacts =
      record {
        id = codes "evd_01J9Y75A1B2C3D4E5F6G7H8J9M";
        filename = codes "grafana_home_api.json";
        size_bytes = 2210;
        content_hash =
            codes "sha256:23456789abcdef0123456789abcdef01234a5b6c7d8e9f0123456789abcdef01";
        capability = codes "HTTP_REQUEST";
        mime_type = codes "application/json";
        provenance = record {
          agent_id = codes "agt_01J9Y74A1B2C3D4E5F6G7H8J9C";
          sandbox = codes "arka-sbx-gvisor-l2-02";
          kernel_ticket_receipt = codes "tkt_01J9Y78A1B2C3D4E5F6G7H8J9N";
        };
        sanitized_preview =
            codes
              "{\n  \"meta\": {\"isHome\": true, \"canEdit\": false},\n  \"dashboard\": {\"title\": \"Main Cluster Health\", \"panels\": 18}\n}";
        trust_level = FindingEvidenceArtifactTrustLevel.raw_untrusted_target_output;
      }
      ∷ [];
  audit_events =
      record {
        event_id = codes "evt_01J9Y77A1B2C3D4E5F6G7H8J9L";
        sequence_number = 1500;
        timestamp_unix = 1774026826;
        event_type = codes "PROPOSAL_EVALUATED";
        actor_id = codes "kernel_policy_engine";
        action_hash = none;
        previous_hash = codes "0123456789abcdef1234567890abcdef1234567890abcdef1234567890abcdef";
        current_hash = codes "1234567890abcdef1234567890abcdef1234567890abcdef1234567890abcdef";
        signature =
            codes "ed25519:567890abcdef1234567890abcdef1234567890abcdef1234567890abcdef1234";
        verified = true;
        summary = codes "Grafana interaction rejected under monitoring exclusion policy.";
      }
      ∷ [];
  factual_description =
      codes
        "Grafana allows unauthenticated visitors to view cluster performance dashboards and data sources.";
  remediation_guidance =
      codes "Set auth.anonymous enabled = false in grafana.ini and require SSO login.";
  cve_id = none;
}

abbrev pub mongodb_accessible_without_authentication : FindingTraceItem
mongodb_accessible_without_authentication = record {
  finding_id = codes "find_01J9Y7QX1L";
  mission_id = codes "mis_01J9Y70X9Y8Z7W6V5U4T3S2R1Q";
  title = codes "MongoDB Accessible Without Authentication";
  severity = FindingSeverity.critical;
  risk_score = 90;
  risk_score_scale = codes "9.0 / 10 — Critical";
  scoring_source = codes "MongoDB Wire Protocol Hello / IsMaster Probe";
  confidence = FindingConfidence.observed_anomaly;
  confidence_percentage = 95;
  source_agent = codes "ExploitAgent-01";
  agent_role = codes "Controlled PoC Verification";
  target = codes "10.42.18.99:27017";
  target_scope_status = FindingTraceItemTargetScopeStatus.in_scope;
  validation_state = ValidationState.validated;
  validation_summary =
      codes "MongoDB isMaster command returns cluster topology without requiring auth.";
  policy_decision = ProposalDecision.require_approval;
  policy_reason =
      codes
        "Database validation carries Critical risk and potential operational disruption. Two-Person Integrity required.";
  policy_rule_id = codes "RULE-TPI-DATABASE-PROBE";
  scope_ref = codes "scope-vpc-east-v2.1";
  kernel_version = codes "arka-kerneld v0.1.0";
  policy_evaluation_time_unix = 1774027526;
  human_approval_state = FindingTraceItemHumanApprovalState.pending;
  approval_id = some (codes "app_01J9Y78A1B2C3D4E5F6G7H8J9R");
  bound_action_hash =
      some (codes "sha256:3456789abcdef0123456789abcdef01234a5b6c7d8e9f0123456789abcdef012");
  detected_at_unix = 1774027500;
  lifecycle_stages =
      build_standard_stages 1774027500 PolicyOutcome.require_approval
        (codes "Operator gate active: action hash awaiting human approval.")
        FindingTraceItemHumanApprovalState.pending FinalOutcome.recorded_pending;
  evidence_artifacts =
      record {
        id = codes "evd_01J9Y75A1B2C3D4E5F6G7H8J9N";
        filename = codes "mongodb_ismaster.json";
        size_bytes = 1540;
        content_hash =
            codes "sha256:3456789abcdef0123456789abcdef01234a5b6c7d8e9f0123456789abcdef012";
        capability = codes "SERVICE_ENUMERATION";
        mime_type = codes "application/json";
        provenance = record {
          agent_id = codes "agt_01J9Y74A1B2C3D4E5F6G7H8J9D";
          sandbox = codes "arka-sbx-gvisor-l2-02";
          kernel_ticket_receipt = codes "tkt_01J9Y78A1B2C3D4E5F6G7H8J9M";
        };
        sanitized_preview =
            codes
              "{\n  \"ismaster\": true,\n  \"maxBsonObjectSize\": 16777216,\n  \"ok\": 1.0,\n  \"version\": \"6.0.8\"\n}";
        trust_level = FindingEvidenceArtifactTrustLevel.kernel_verified_signature;
      }
      ∷ [];
  audit_events =
      record {
        event_id = codes "evt_01J9Y77A1B2C3D4E5F6G7H8J9M";
        sequence_number = 1510;
        timestamp_unix = 1774027526;
        event_type = codes "APPROVAL_REQUESTED";
        actor_id = codes "kernel_policy_engine";
        action_hash =
            some (codes "sha256:3456789abcdef0123456789abcdef01234a5b6c7d8e9f0123456789abcdef012");
        previous_hash = codes "1234567890abcdef1234567890abcdef1234567890abcdef1234567890abcdef";
        current_hash = codes "234567890abcdef1234567890abcdef1234567890abcdef1234567890abcdef1";
        signature =
            codes "ed25519:67890abcdef1234567890abcdef1234567890abcdef1234567890abcdef12345";
        verified = true;
        summary =
            codes "Database action approval ticket generated and awaiting operator clearance.";
      }
      ∷ [];
  factual_description =
      codes "MongoDB accepts connections without client certificate or password authentication.";
  remediation_guidance =
      codes "Enable authentication in mongod.conf under security.authorization = enabled.";
  cve_id = none;
}
