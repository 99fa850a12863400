-- ===== src/Fixtures/Trace/Second.antt =====
-- frontend/src/api/traceData.ts: three of the sample findings, as in the source.
use arka.Prelude.{codes, none, some, true, [], ◌∷◌}
use arka.Types.Core.{ProposalDecision}
use arka.Types.FindingsTrace.{
  FindingConfidence, FindingEvidenceArtifactTrustLevel, FindingSeverity, FindingTraceItem,
  FindingTraceItemHumanApprovalState, FindingTraceItemTargetScopeStatus, ValidationState,
}
use arka.Fixtures.Stages.{PolicyOutcome, FinalOutcome, build_standard_stages}

abbrev pub internal_api_endpoint_exposure : FindingTraceItem
internal_api_endpoint_exposure = record {
  finding_id = codes "find_01J9Y7QX1D";
  mission_id = codes "mis_01J9Y70X9Y8Z7W6V5U4T3S2R1Q";
  title = codes "Internal API Endpoint Exposure";
  severity = FindingSeverity.medium;
  risk_score = 55;
  risk_score_scale = codes "5.5 / 10 — Medium";
  scoring_source = codes "HTTP Crawler + Path Enumeration";
  confidence = FindingConfidence.observed_anomaly;
  confidence_percentage = 88;
  source_agent = codes "VulnAnalysisAgent-02";
  agent_role = codes "Vulnerability Analysis & Service Fingerprinting";
  target = codes "api-internal.vpc-east.internal:8080/metrics";
  target_scope_status = FindingTraceItemTargetScopeStatus.discovered_unauthorized;
  validation_state = ValidationState.validated;
  validation_summary =
      codes
        "Prometheus metrics text format containing JVM heap and database connection pool details.";
  policy_decision = ProposalDecision.deny;
  policy_reason =
      codes
        "Endpoint is located on an unauthorized internal interface not registered in the active mission scope inclusions.";
  policy_rule_id = codes "RULE-DEFAULT-DENY-UNAUTHORIZED";
  scope_ref = codes "scope-vpc-east-v2.1";
  kernel_version = codes "arka-kerneld v0.1.0";
  policy_evaluation_time_unix = 1774020126;
  human_approval_state = FindingTraceItemHumanApprovalState.not_required;
  approval_id = none;
  bound_action_hash = none;
  detected_at_unix = 1774020100;
  lifecycle_stages =
      build_standard_stages 1774020100 PolicyOutcome.deny
        (codes
          "Target is not part of authorized scope inclusions (Invariant: DISCOVERED != AUTHORIZED).")
        FindingTraceItemHumanApprovalState.not_required FinalOutcome.recorded_denied;
  evidence_artifacts =
      record {
        id = codes "evd_01J9Y75A1B2C3D4E5F6G7H8J9F";
        filename = codes "prometheus_metrics_preview.txt";
        size_bytes = 3120;
        content_hash =
            codes "sha256:5b6c7d8e9f0123456789abcdef0123456789abcdef0123456789abcdef01234a";
        capability = codes "HTTP_REQUEST";
        mime_type = codes "text/plain";
        provenance = record {
          agent_id = codes "agt_01J9Y74A1B2C3D4E5F6G7H8J9C";
          sandbox = codes "arka-sbx-gvisor-l2-02";
          kernel_ticket_receipt = codes "tkt_01J9Y78A1B2C3D4E5F6G7H8J9U";
        };
        sanitized_preview =
            codes
              "# HELP jvm_memory_used_bytes The amount of used memory\n# TYPE jvm_memory_used_bytes gauge\njvm_memory_used_bytes{area=\"heap\",id=\"G1 Survivor Space\",} 1.048576E7\nhikari_cp_connections_active{pool=\"MainDataSource\"} 14";
        trust_level = FindingEvidenceArtifactTrustLevel.raw_untrusted_target_output;
      }
      ∷ [];
  audit_events =
      record {
        event_id = codes "evt_01J9Y77A1B2C3D4E5F6G7H8J9E";
        sequence_number = 1432;
        timestamp_unix = 1774020126;
        event_type = codes "PROPOSAL_EVALUATED";
        actor_id = codes "kernel_policy_engine";
        action_hash = none;
        previous_hash = codes "3456789012abcdef1234567890abcdef1234567890abcdef1234567890abcdef";
        current_hash = codes "4567890123abcdef1234567890abcdef1234567890abcdef1234567890abcdef";
        signature =
            codes "ed25519:def1234567890abcdef1234567890abcdef1234567890abcdef1234567890abc";
        verified = true;
        summary = codes "Target out of scope; denied under default-deny policy.";
      }
      ∷ [];
  factual_description =
      codes
        "An internal management metrics endpoint was discovered accessible over HTTP port 8080 without authentication headers.";
  remediation_guidance =
      codes
        "Bind actuator and metrics listeners to 127.0.0.1 or configure Spring Security to enforce mutual TLS on management endpoints.";
  cve_id = none;
}

abbrev pub spring_framework_deserialization_vulnerability_cve_2024_38819 : FindingTraceItem
spring_framework_deserialization_vulnerability_cve_2024_38819 = record {
  finding_id = codes "find_01J9Y7QX1E";
  mission_id = codes "mis_01J9Y70X9Y8Z7W6V5U4T3S2R1Q";
  title = codes "Spring Framework Deserialization Vulnerability (CVE-2024-38819)";
  severity = FindingSeverity.critical;
  risk_score = 98;
  risk_score_scale = codes "9.8 / 10 — Critical";
  scoring_source = codes "CVE-2024-38819 + Exploit PoC Validation";
  confidence = FindingConfidence.confirmed_exploit;
  confidence_percentage = 99;
  source_agent = codes "ExploitAgent-01";
  agent_role = codes "Controlled PoC Verification";
  target = codes "10.42.18.104:8443";
  target_scope_status = FindingTraceItemTargetScopeStatus.in_scope;
  validation_state = ValidationState.validated;
  validation_summary =
      codes "Non-destructive probe verified arbitrary class instantiation vulnerability.";
  policy_decision = ProposalDecision.allow;
  policy_reason =
      codes
        "Human operator signed and sealed cryptographic approval (Two-Person Integrity) for non-destructive validation PoC.";
  policy_rule_id = codes "RULE-TPI-VERIFIED-POCTEST";
  scope_ref = codes "scope-vpc-east-v2.1";
  kernel_version = codes "arka-kerneld v0.1.0";
  policy_evaluation_time_unix = 1774022026;
  human_approval_state = FindingTraceItemHumanApprovalState.approved;
  approval_id = some (codes "app_01J9Y78A1B2C3D4E5F6G7H8J9Q");
  bound_action_hash =
      some (codes "sha256:7c9e8f1b2a3d4e5f6a7b8c9d0e1f2a3b4c5d6e7f8a9b0c1d2e3f4a5b6c7d88f1");
  detected_at_unix = 1774021920;
  lifecycle_stages =
      build_standard_stages 1774021920 PolicyOutcome.allow
        (codes "Operator approved action hash byte-for-byte under Two-Person Integrity.")
        FindingTraceItemHumanApprovalState.approved FinalOutcome.recorded_valid;
  evidence_artifacts =
      record {
        id = codes "evd_01J9Y75A1B2C3D4E5F6G7H8J9G";
        filename = codes "deserialization_poc_response.json";
        size_bytes = 1840;
        content_hash =
            codes "sha256:6c7d8e9f0123456789abcdef0123456789abcdef0123456789abcdef01234a5b";
        capability = codes "CONTROLLED_EXPLOITATION";
        mime_type = codes "application/json";
        provenance = record {
          agent_id = codes "agt_01J9Y74A1B2C3D4E5F6G7H8J9D";
          sandbox = codes "arka-sbx-gvisor-l2-02";
          kernel_ticket_receipt = codes "tkt_01J9Y78A1B2C3D4E5F6G7H8J9T";
        };
        sanitized_preview =
            codes
              "{\n  \"status\": \"VULNERABLE\",\n  \"leak\": \"org.springframework.core.serializer.DefaultDeserializer\",\n  \"execution_safe\": true,\n  \"side_effects\": \"ZERO_MUTATION\"\n}";
        trust_level = FindingEvidenceArtifactTrustLevel.kernel_verified_signature;
      }
      ∷ [];
  audit_events =
      record {
        event_id = codes "evt_01J9Y77A1B2C3D4E5F6G7H8J9F";
        sequence_number = 1440;
        timestamp_unix = 1774022026;
        event_type = codes "ACTION_AUTHORIZED";
        actor_id = codes "kernel_policy_engine";
        action_hash =
            some (codes "sha256:7c9e8f1b2a3d4e5f6a7b8c9d0e1f2a3b4c5d6e7f8a9b0c1d2e3f4a5b6c7d88f1");
        previous_hash = codes "4567890123abcdef1234567890abcdef1234567890abcdef1234567890abcdef";
        current_hash = codes "5678901234abcdef1234567890abcdef1234567890abcdef1234567890abcdef";
        signature =
            codes "ed25519:ef1234567890abcdef1234567890abcdef1234567890abcdef1234567890abcd";
        verified = true;
        summary = codes "Action authorized following valid human operator cryptographic approval.";
      }
      ∷ [];
  factual_description =
      codes
        "Confirmed unauthenticated remote code execution via unsafe Java deserialization on Spring Actuator endpoint.";
  remediation_guidance =
      codes
        "Upgrade Spring Framework immediately to version 6.1.14+. Apply temporary WAF virtual patch blocking serialized object payloads.";
  cve_id = some (codes "CVE-2024-38819");
}

abbrev pub unauthenticated_redis_key_value_store : FindingTraceItem
unauthenticated_redis_key_value_store = record {
  finding_id = codes "find_01J9Y7QX1F";
  mission_id = codes "mis_01J9Y70X9Y8Z7W6V5U4T3S2R1Q";
  title = codes "Unauthenticated Redis Key-Value Store";
  severity = FindingSeverity.high;
  risk_score = 82;
  risk_score_scale = codes "8.2 / 10 — High";
  scoring_source = codes "Redis INFO Command Banner Probe";
  confidence = FindingConfidence.observed_anomaly;
  confidence_percentage = 94;
  source_agent = codes "ReconAgent-01";
  agent_role = codes "Perimeter Surface Reconnaissance";
  target = codes "10.42.18.60:6379";
  target_scope_status = FindingTraceItemTargetScopeStatus.excluded_target;
  validation_state = ValidationState.validated;
  validation_summary = codes "Redis responds to INFO command without requiring AUTH password.";
  policy_decision = ProposalDecision.deny;
  policy_reason =
      codes "Target is in the excluded database subnet. Active queries denied fail-closed.";
  policy_rule_id = codes "RULE-EXCL-PROD-DB-01";
  scope_ref = codes "scope-vpc-east-v2.1";
  kernel_version = codes "arka-kerneld v0.1.0";
  policy_evaluation_time_unix = 1774023026;
  human_approval_state = FindingTraceItemHumanApprovalState.not_required;
  approval_id = none;
  bound_action_hash = none;
  detected_at_unix = 1774023000;
  lifecycle_stages =
      build_standard_stages 1774023000 PolicyOutcome.deny
        (codes "Target within excluded subnet (10.42.18.0/24). Action denied by Rust Kernel.")
        FindingTraceItemHumanApprovalState.not_required FinalOutcome.recorded_denied;
  evidence_artifacts =
      record {
        id = codes "evd_01J9Y75A1B2C3D4E5F6G7H8J9H";
        filename = codes "redis_info_snippet.txt";
        size_bytes = 1450;
        content_hash =
            codes "sha256:7d8e9f0123456789abcdef0123456789abcdef0123456789abcdef01234a5b6c";
        capability = codes "SERVICE_ENUMERATION";
        mime_type = codes "text/plain";
        provenance = record {
          agent_id = codes "agt_01J9Y74A1B2C3D4E5F6G7H8J9B";
          sandbox = codes "arka-sbx-net-rootless-01";
          kernel_ticket_receipt = codes "tkt_01J9Y78A1B2C3D4E5F6G7H8J9S";
        };
        sanitized_preview =
            codes
              "# Server\nredis_version:7.0.12\nos:Linux 5.15.0-88-generic x86_64\ntcp_port:6379\nrole:master\nconnected_clients:3";
        trust_level = FindingEvidenceArtifactTrustLevel.raw_untrusted_target_output;
      }
      ∷ [];
  audit_events =
      record {
        event_id = codes "evt_01J9Y77A1B2C3D4E5F6G7H8J9G";
        sequence_number = 1452;
        timestamp_unix = 1774023026;
        event_type = codes "PROPOSAL_EVALUATED";
        actor_id = codes "kernel_policy_engine";
        action_hash = none;
        previous_hash = codes "5678901234abcdef1234567890abcdef1234567890abcdef1234567890abcdef";
        current_hash = codes "6789012345abcdef1234567890abcdef1234567890abcdef1234567890abcdef";
        signature =
            codes "ed25519:f1234567890abcdef1234567890abcdef1234567890abcdef1234567890abcde";
        verified = true;
        summary = codes "Redis probe denied: target matches exclusion rule.";
      }
      ∷ [];
  factual_description =
      codes
        "Redis instance accepts unauthenticated TCP connections and returns full server information.";
  remediation_guidance =
      codes "Enable requirepass authentication in redis.conf and bind strictly to 127.0.0.1.";
  cve_id = none;
}
