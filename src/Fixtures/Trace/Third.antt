-- ===== src/Fixtures/Trace/Third.antt =====
-- frontend/src/api/traceData.ts: three of the sample findings, as in the source.
use arka.Prelude.{codes, none, true, [], ◌∷◌}
use arka.Types.Core.{ProposalDecision}
use arka.Types.FindingsTrace.{
  FindingConfidence, FindingEvidenceArtifactTrustLevel, FindingSeverity, FindingTraceItem,
  FindingTraceItemHumanApprovalState, FindingTraceItemTargetScopeStatus, ValidationState,
}
use arka.Fixtures.Stages.{PolicyOutcome, FinalOutcome, build_standard_stages}

abbrev pub exposed_aws_access_key_id_in_client_api_response : FindingTraceItem
exposed_aws_access_key_id_in_client_api_response = record {
  finding_id = codes "find_01J9Y7QX1G";
  mission_id = codes "mis_01J9Y70X9Y8Z7W6V5U4T3S2R1Q";
  title = codes "Exposed AWS Access Key ID in Client API Response";
  severity = FindingSeverity.critical;
  risk_score = 95;
  risk_score_scale = codes "9.5 / 10 — Critical";
  scoring_source = codes "DLP Regex Filter + Response Body Inspection";
  confidence = FindingConfidence.observed_anomaly;
  confidence_percentage = 97;
  source_agent = codes "VulnAnalysisAgent-02";
  agent_role = codes "Vulnerability Analysis & Service Fingerprinting";
  target = codes "10.42.18.45:443";
  target_scope_status = FindingTraceItemTargetScopeStatus.in_scope;
  validation_state = ValidationState.validated;
  validation_summary =
      codes "API debug endpoint returns credentials containing an active AWS IAM key prefix.";
  policy_decision = ProposalDecision.allow;
  policy_reason =
      codes
        "Passive observation and DLP-masked record creation is authorized under Observation risk class.";
  policy_rule_id = codes "RULE-OBSERVATION-ALLOW";
  scope_ref = codes "scope-vpc-east-v2.1";
  kernel_version = codes "arka-kerneld v0.1.0";
  policy_evaluation_time_unix = 1774023826;
  human_approval_state = FindingTraceItemHumanApprovalState.not_required;
  approval_id = none;
  bound_action_hash = none;
  detected_at_unix = 1774023800;
  lifecycle_stages =
      build_standard_stages 1774023800 PolicyOutcome.allow
        (codes "Observation capability is permitted without human gate.")
        FindingTraceItemHumanApprovalState.not_required FinalOutcome.recorded_valid;
  evidence_artifacts =
      record {
        id = codes "evd_01J9Y75A1B2C3D4E5F6G7H8J9I";
        filename = codes "redacted_api_debug_response.json";
        size_bytes = 1220;
        content_hash =
            codes "sha256:8e9f0123456789abcdef0123456789abcdef0123456789abcdef01234a5b6c7d";
        capability = codes "HTTP_REQUEST";
        mime_type = codes "application/json";
        provenance = record {
          agent_id = codes "agt_01J9Y74A1B2C3D4E5F6G7H8J9C";
          sandbox = codes "arka-sbx-gvisor-l2-02";
          kernel_ticket_receipt = codes "tkt_01J9Y78A1B2C3D4E5F6G7H8J9R";
        };
        sanitized_preview =
            codes
              "{\n  \"app_status\": \"DEBUG\",\n  \"aws_access_key\": \"[REDACTED_API_KEY]\",\n  \"environment\": \"production-east\"\n}";
        trust_level = FindingEvidenceArtifactTrustLevel.kernel_verified_signature;
      }
      ∷ [];
  audit_events =
      record {
        event_id = codes "evt_01J9Y77A1B2C3D4E5F6G7H8J9H";
        sequence_number = 1460;
        timestamp_unix = 1774023826;
        event_type = codes "EVIDENCE_RECORDED";
        actor_id = codes "agt_01J9Y74A1B2C3D4E5F6G7H8J9C";
        action_hash = none;
        previous_hash = codes "6789012345abcdef1234567890abcdef1234567890abcdef1234567890abcdef";
        current_hash = codes "7890123456abcdef1234567890abcdef1234567890abcdef1234567890abcdef";
        signature =
            codes "ed25519:1234567890abcdef1234567890abcdef1234567890abcdef1234567890abcdef";
        verified = true;
        summary = codes "Finding recorded with automated DLP scrubbing applied.";
      }
      ∷ [];
  factual_description =
      codes
        "HTTP response leaked credentials matching AWS access key ID format. Secret was redacted in-flight by gateway DLP before storage.";
  remediation_guidance =
      codes
        "Immediately revoke the exposed AWS credential in IAM. Disable debug endpoints in production build profiles.";
  cve_id = none;
}

abbrev pub deprecate_tls_1_0_1_1_support : FindingTraceItem
deprecate_tls_1_0_1_1_support = record {
  finding_id = codes "find_01J9Y7QX1H";
  mission_id = codes "mis_01J9Y70X9Y8Z7W6V5U4T3S2R1Q";
  title = codes "Deprecate TLS 1.0 / 1.1 Support";
  severity = FindingSeverity.low;
  risk_score = 32;
  risk_score_scale = codes "3.2 / 10 — Low";
  scoring_source = codes "TLS Handshake Matrix Probe";
  confidence = FindingConfidence.observed_anomaly;
  confidence_percentage = 99;
  source_agent = codes "ReconAgent-01";
  agent_role = codes "Perimeter Surface Reconnaissance";
  target = codes "198.51.100.12:443";
  target_scope_status = FindingTraceItemTargetScopeStatus.in_scope;
  validation_state = ValidationState.validated;
  validation_summary =
      codes "Server accepts ClientHello negotiated under TLSv1.0 protocol version.";
  policy_decision = ProposalDecision.allow;
  policy_reason = codes "Read-only TLS inspection allowed on authorized external endpoints.";
  policy_rule_id = codes "RULE-PERIMETER-TLS-ALLOW";
  scope_ref = codes "scope-vpc-east-v2.1";
  kernel_version = codes "arka-kerneld v0.1.0";
  policy_evaluation_time_unix = 1774024526;
  human_approval_state = FindingTraceItemHumanApprovalState.not_required;
  approval_id = none;
  bound_action_hash = none;
  detected_at_unix = 1774024500;
  lifecycle_stages =
      build_standard_stages 1774024500 PolicyOutcome.allow
        (codes "Passive protocol handshake evaluation authorized.")
        FindingTraceItemHumanApprovalState.not_required FinalOutcome.recorded_valid;
  evidence_artifacts =
      record {
        id = codes "evd_01J9Y75A1B2C3D4E5F6G7H8J9J";
        filename = codes "tls10_handshake.txt";
        size_bytes = 620;
        content_hash =
            codes "sha256:9f0123456789abcdef0123456789abcdef0123456789abcdef01234a5b6c7d8e";
        capability = codes "TCP_CONNECT";
        mime_type = codes "text/plain";
        provenance = record {
          agent_id = codes "agt_01J9Y74A1B2C3D4E5F6G7H8J9B";
          sandbox = codes "arka-sbx-net-rootless-01";
          kernel_ticket_receipt = codes "tkt_01J9Y78A1B2C3D4E5F6G7H8J9Q";
        };
        sanitized_preview =
            codes
              "Negotiated Protocol: TLSv1.0\nSelected Cipher: TLS_RSA_WITH_AES_128_CBC_SHA\nStatus: INSECURE_DEPRECATED_PROTOCOL";
        trust_level = FindingEvidenceArtifactTrustLevel.kernel_verified_signature;
      }
      ∷ [];
  audit_events =
      record {
        event_id = codes "evt_01J9Y77A1B2C3D4E5F6G7H8J9I";
        sequence_number = 1470;
        timestamp_unix = 1774024526;
        event_type = codes "PROPOSAL_EVALUATED";
        actor_id = codes "kernel_policy_engine";
        action_hash = none;
        previous_hash = codes "7890123456abcdef1234567890abcdef1234567890abcdef1234567890abcdef";
        current_hash = codes "8901234567abcdef1234567890abcdef1234567890abcdef1234567890abcdef";
        signature =
            codes "ed25519:234567890abcdef1234567890abcdef1234567890abcdef1234567890abcdef1";
        verified = true;
        summary = codes "TLS 1.0 finding authorized and sealed.";
      }
      ∷ [];
  factual_description =
      codes
        "The server supports TLS 1.0 with CBC cipher suites, susceptible to cryptographic downgrade and BEAST attacks.";
  remediation_guidance =
      codes
        "Disable TLS 1.0 and TLS 1.1 in web server configuration. Enforce TLS 1.2 minimum with modern AEAD ciphers.";
  cve_id = none;
}

abbrev pub unrestricted_dns_zone_transfer_axfr : FindingTraceItem
unrestricted_dns_zone_transfer_axfr = record {
  finding_id = codes "find_01J9Y7QX1I";
  mission_id = codes "mis_01J9Y70X9Y8Z7W6V5U4T3S2R1Q";
  title = codes "Unrestricted DNS Zone Transfer (AXFR)";
  severity = FindingSeverity.medium;
  risk_score = 61;
  risk_score_scale = codes "6.1 / 10 — Medium";
  scoring_source = codes "DNS Query Response Analyzer";
  confidence = FindingConfidence.observed_anomaly;
  confidence_percentage = 93;
  source_agent = codes "ReconAgent-01";
  agent_role = codes "Perimeter Surface Reconnaissance";
  target = codes "ns1.vpc-east.internal:53";
  target_scope_status = FindingTraceItemTargetScopeStatus.excluded_target;
  validation_state = ValidationState.validated;
  validation_summary = codes "Nameserver answered AXFR query returning 86 zone records.";
  policy_decision = ProposalDecision.deny;
  policy_reason =
      codes "Internal authoritative nameserver is excluded from autonomous testing scope.";
  policy_rule_id = codes "RULE-EXCL-DNS-INTERNAL";
  scope_ref = codes "scope-vpc-east-v2.1";
  kernel_version = codes "arka-kerneld v0.1.0";
  policy_evaluation_time_unix = 1774025126;
  human_approval_state = FindingTraceItemHumanApprovalState.not_required;
  approval_id = none;
  bound_action_hash = none;
  detected_at_unix = 1774025100;
  lifecycle_stages =
      build_standard_stages 1774025100 PolicyOutcome.deny
        (codes "Target nameserver belongs to protected core DNS infrastructure.")
        FindingTraceItemHumanApprovalState.not_required FinalOutcome.recorded_denied;
  evidence_artifacts =
      record {
        id = codes "evd_01J9Y75A1B2C3D4E5F6G7H8J9K";
        filename = codes "axfr_zone_dump_snippet.txt";
        size_bytes = 1890;
        content_hash =
            codes "sha256:0123456789abcdef0123456789abcdef01234a5b6c7d8e9f0123456789abcdef";
        capability = codes "DNS_LOOKUP";
        mime_type = codes "text/plain";
        provenance = record {
          agent_id = codes "agt_01J9Y74A1B2C3D4E5F6G7H8J9B";
          sandbox = codes "arka-sbx-net-rootless-01";
          kernel_ticket_receipt = codes "tkt_01J9Y78A1B2C3D4E5F6G7H8J9P";
        };
        sanitized_preview =
            codes
              "vpc-east.internal. IN SOA ns1.vpc-east.internal. admin.vpc-east.internal. 2026032001\nvpc-east.internal. IN NS ns1.vpc-east.internal.\nhsm01.vpc-east.internal. IN A 10.42.18.5";
        trust_level = FindingEvidenceArtifactTrustLevel.raw_untrusted_target_output;
      }
      ∷ [];
  audit_events =
      record {
        event_id = codes "evt_01J9Y77A1B2C3D4E5F6G7H8J9J";
        sequence_number = 1480;
        timestamp_unix = 1774025126;
        event_type = codes "PROPOSAL_EVALUATED";
        actor_id = codes "kernel_policy_engine";
        action_hash = none;
        previous_hash = codes "8901234567abcdef1234567890abcdef1234567890abcdef1234567890abcdef";
        current_hash = codes "9012345678abcdef1234567890abcdef1234567890abcdef1234567890abcdef";
        signature =
            codes "ed25519:34567890abcdef1234567890abcdef1234567890abcdef1234567890abcdef12";
        verified = true;
        summary = codes "DNS AXFR action rejected by scope policy.";
      }
      ∷ [];
  factual_description =
      codes
        "DNS server allows unrestricted AXFR zone transfers to unauthenticated clients, exposing complete internal host topology.";
  remediation_guidance =
      codes
        "Configure BIND/CoreDNS allow-transfer directive to restrict zone transfers exclusively to secondary nameservers.";
  cve_id = none;
}
