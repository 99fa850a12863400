-- ===== src/Fixtures/Trace/Seventh.antt =====
-- frontend/src/api/traceData.ts: three of the sample findings, as in the source.
use arka.Prelude.{codes, none, true, [], ◌∷◌}
use arka.Types.Core.{ProposalDecision}
use arka.Types.FindingsTrace.{
  FindingConfidence, FindingEvidenceArtifactTrustLevel, FindingSeverity, FindingTraceItem,
  FindingTraceItemHumanApprovalState, FindingTraceItemTargetScopeStatus, ValidationState,
}
use arka.Fixtures.Stages.{PolicyOutcome, FinalOutcome, build_standard_stages}

abbrev pub hashicorp_vault_running_in_development_mode : FindingTraceItem
hashicorp_vault_running_in_development_mode = record {
  finding_id = codes "find_01J9Y7QX1S";
  mission_id = codes "mis_01J9Y70X9Y8Z7W6V5U4T3S2R1Q";
  title = codes "HashiCorp Vault Running in Development Mode";
  severity = FindingSeverity.critical;
  risk_score = 96;
  risk_score_scale = codes "9.6 / 10 — Critical";
  scoring_source = codes "Vault Sys Health API Response";
  confidence = FindingConfidence.observed_anomaly;
  confidence_percentage = 98;
  source_agent = codes "ExploitAgent-01";
  agent_role = codes "Controlled PoC Verification";
  target = codes "10.42.18.50:8200";
  target_scope_status = FindingTraceItemTargetScopeStatus.excluded_target;
  validation_state = ValidationState.validated;
  validation_summary =
      codes "Vault /v1/sys/health indicates unsealed status with in-memory storage.";
  policy_decision = ProposalDecision.deny;
  policy_reason = codes "Secrets infrastructure is explicitly excluded from active missions.";
  policy_rule_id = codes "RULE-EXCL-KMS-VAULT";
  scope_ref = codes "scope-vpc-east-v2.1";
  kernel_version = codes "arka-kerneld v0.1.0";
  policy_evaluation_time_unix = 1774032626;
  human_approval_state = FindingTraceItemHumanApprovalState.not_required;
  approval_id = none;
  bound_action_hash = none;
  detected_at_unix = 1774032600;
  lifecycle_stages =
      build_standard_stages 1774032600 PolicyOutcome.deny
        (codes "Vault target matches exclusion rule for KMS.")
        FindingTraceItemHumanApprovalState.not_required FinalOutcome.recorded_denied;
  evidence_artifacts =
      record {
        id = codes "evd_01J9Y75A1B2C3D4E5F6G7H8J9U";
        filename = codes "vault_sys_health.json";
        size_bytes = 840;
        content_hash =
            codes "sha256:abcdef0123456789abcdef01234a5b6c7d8e9f0123456789abcdef0123456789";
        capability = codes "HTTP_REQUEST";
        mime_type = codes "application/json";
        provenance = record {
          agent_id = codes "agt_01J9Y74A1B2C3D4E5F6G7H8J9D";
          sandbox = codes "arka-sbx-gvisor-l2-02";
          kernel_ticket_receipt = codes "tkt_01J9Y78A1B2C3D4E5F6G7H8J9F";
        };
        sanitized_preview =
            codes
              "{\n  \"initialized\": true,\n  \"sealed\": false,\n  \"standby\": false,\n  \"server_time_utc\": 1774032600,\n  \"version\": \"1.15.2\"\n}";
        trust_level = FindingEvidenceArtifactTrustLevel.kernel_verified_signature;
      }
      ∷ [];
  audit_events =
      record {
        event_id = codes "evt_01J9Y77A1B2C3D4E5F6G7H8J9T";
        sequence_number = 1580;
        timestamp_unix = 1774032626;
        event_type = codes "PROPOSAL_EVALUATED";
        actor_id = codes "kernel_policy_engine";
        action_hash = none;
        previous_hash = codes "890abcdef1234567890abcdef1234567890abcdef1234567890abcdef1234567";
        current_hash = codes "90abcdef1234567890abcdef1234567890abcdef1234567890abcdef12345678";
        signature =
            codes "ed25519:cdef1234567890abcdef1234567890abcdef1234567890abcdef1234567890ab";
        verified = true;
        summary = codes "Vault action denied under KMS protection policy.";
      }
      ∷ [];
  factual_description =
      codes
        "Vault server is running in dev mode with known root tokens and unencrypted in-memory storage.";
  remediation_guidance =
      codes "Deploy production Vault cluster with Auto-Unseal and durable storage backend.";
  cve_id = none;
}

abbrev pub open_memcached_udp_reflection_vector : FindingTraceItem
open_memcached_udp_reflection_vector = record {
  finding_id = codes "find_01J9Y7QX1T";
  mission_id = codes "mis_01J9Y70X9Y8Z7W6V5U4T3S2R1Q";
  title = codes "Open Memcached UDP Reflection Vector";
  severity = FindingSeverity.medium;
  risk_score = 58;
  risk_score_scale = codes "5.8 / 10 — Medium";
  scoring_source = codes "UDP Probe Stats Extraction";
  confidence = FindingConfidence.observed_anomaly;
  confidence_percentage = 91;
  source_agent = codes "ReconAgent-01";
  agent_role = codes "Perimeter Surface Reconnaissance";
  target = codes "10.42.18.70:11211";
  target_scope_status = FindingTraceItemTargetScopeStatus.excluded_target;
  validation_state = ValidationState.validated;
  validation_summary = codes "Memcached responds to UDP stats query with 48x amplification ratio.";
  policy_decision = ProposalDecision.deny;
  policy_reason = codes "UDP reflection probing is restricted to prevent network flooding.";
  policy_rule_id = codes "RULE-DENY-UDP-FLOOD";
  scope_ref = codes "scope-vpc-east-v2.1";
  kernel_version = codes "arka-kerneld v0.1.0";
  policy_evaluation_time_unix = 1774033226;
  human_approval_state = FindingTraceItemHumanApprovalState.not_required;
  approval_id = none;
  bound_action_hash = none;
  detected_at_unix = 1774033200;
  lifecycle_stages =
      build_standard_stages 1774033200 PolicyOutcome.deny
        (codes "UDP reflection evaluation denied by Security Kernel.")
        FindingTraceItemHumanApprovalState.not_required FinalOutcome.recorded_denied;
  evidence_artifacts =
      record {
        id = codes "evd_01J9Y75A1B2C3D4E5F6G7H8J9V";
        filename = codes "memcached_stats_preview.txt";
        size_bytes = 410;
        content_hash =
            codes "sha256:bcdef0123456789abcdef01234a5b6c7d8e9f0123456789abcdef0123456789a";
        capability = codes "SERVICE_ENUMERATION";
        mime_type = codes "text/plain";
        provenance = record {
          agent_id = codes "agt_01J9Y74A1B2C3D4E5F6G7H8J9B";
          sandbox = codes "arka-sbx-net-rootless-01";
          kernel_ticket_receipt = codes "tkt_01J9Y78A1B2C3D4E5F6G7H8J9E";
        };
        sanitized_preview =
            codes "STAT pid 419\nSTAT uptime 482910\nSTAT version 1.6.14\nSTAT bytes 84920";
        trust_level = FindingEvidenceArtifactTrustLevel.raw_untrusted_target_output;
      }
      ∷ [];
  audit_events =
      record {
        event_id = codes "evt_01J9Y77A1B2C3D4E5F6G7H8J9U";
        sequence_number = 1590;
        timestamp_unix = 1774033226;
        event_type = codes "PROPOSAL_EVALUATED";
        actor_id = codes "kernel_policy_engine";
        action_hash = none;
        previous_hash = codes "90abcdef1234567890abcdef1234567890abcdef1234567890abcdef12345678";
        current_hash = codes "0abcdef1234567890abcdef1234567890abcdef1234567890abcdef123456789";
        signature =
            codes "ed25519:def1234567890abcdef1234567890abcdef1234567890abcdef1234567890abc";
        verified = true;
        summary = codes "Memcached action denied.";
      }
      ∷ [];
  factual_description =
      codes
        "Memcached is exposed on UDP port 11211, enabling amplification denial-of-service reflection attacks.";
  remediation_guidance = codes "Disable UDP support with -U 0 flag and bind strictly to localhost.";
  cve_id = none;
}

abbrev pub elasticsearch_cluster_health_endpoint_exposed : FindingTraceItem
elasticsearch_cluster_health_endpoint_exposed = record {
  finding_id = codes "find_01J9Y7QX1U";
  mission_id = codes "mis_01J9Y70X9Y8Z7W6V5U4T3S2R1Q";
  title = codes "Elasticsearch Cluster Health Endpoint Exposed";
  severity = FindingSeverity.low;
  risk_score = 34;
  risk_score_scale = codes "3.4 / 10 — Low";
  scoring_source = codes "Elasticsearch REST API Response";
  confidence = FindingConfidence.observed_anomaly;
  confidence_percentage = 97;
  source_agent = codes "ReconAgent-01";
  agent_role = codes "Perimeter Surface Reconnaissance";
  target = codes "10.42.18.75:9200";
  target_scope_status = FindingTraceItemTargetScopeStatus.in_scope;
  validation_state = ValidationState.validated;
  validation_summary = codes "Elasticsearch /_cluster/health returns status: green without auth.";
  policy_decision = ProposalDecision.allow;
  policy_reason = codes "Passive cluster status retrieval authorized within scope inclusions.";
  policy_rule_id = codes "RULE-PERIMETER-HTTP-ALLOW";
  scope_ref = codes "scope-vpc-east-v2.1";
  kernel_version = codes "arka-kerneld v0.1.0";
  policy_evaluation_time_unix = 1774034026;
  human_approval_state = FindingTraceItemHumanApprovalState.not_required;
  approval_id = none;
  bound_action_hash = none;
  detected_at_unix = 1774034000;
  lifecycle_stages =
      build_standard_stages 1774034000 PolicyOutcome.allow
        (codes "Read-only health check permitted.") FindingTraceItemHumanApprovalState.not_required
        FinalOutcome.recorded_valid;
  evidence_artifacts =
      record {
        id = codes "evd_01J9Y75A1B2C3D4E5F6G7H8J9W";
        filename = codes "es_cluster_health.json";
        size_bytes = 480;
        content_hash =
            codes "sha256:cdef0123456789abcdef01234a5b6c7d8e9f0123456789abcdef0123456789ab";
        capability = codes "HTTP_REQUEST";
        mime_type = codes "application/json";
        provenance = record {
          agent_id = codes "agt_01J9Y74A1B2C3D4E5F6G7H8J9B";
          sandbox = codes "arka-sbx-net-rootless-01";
          kernel_ticket_receipt = codes "tkt_01J9Y78A1B2C3D4E5F6G7H8J9D";
        };
        sanitized_preview =
            codes
              "{\n  \"cluster_name\": \"vpc-east-logs\",\n  \"status\": \"green\",\n  \"number_of_nodes\": 3\n}";
        trust_level = FindingEvidenceArtifactTrustLevel.raw_untrusted_target_output;
      }
      ∷ [];
  audit_events =
      record {
        event_id = codes "evt_01J9Y77A1B2C3D4E5F6G7H8J9V";
        sequence_number = 1600;
        timestamp_unix = 1774034026;
        event_type = codes "PROPOSAL_EVALUATED";
        actor_id = codes "kernel_policy_engine";
        action_hash = none;
        previous_hash = codes "0abcdef1234567890abcdef1234567890abcdef1234567890abcdef123456789";
        current_hash = codes "1abcdef1234567890abcdef1234567890abcdef1234567890abcdef1234567890";
        signature =
            codes "ed25519:ef1234567890abcdef1234567890abcdef1234567890abcdef1234567890abcd";
        verified = true;
        summary = codes "Elasticsearch finding logged.";
      }
      ∷ [];
  factual_description =
      codes
        "Elasticsearch endpoint discloses cluster names and node topology without authentication headers.";
  remediation_guidance =
      codes "Enable xpack.security.enabled = true and enforce TLS encryption on HTTP layer.";
  cve_id = none;
}
