-- ===== src/Fixtures/Records.antt =====
-- frontend/src/api/mockData.ts: the evidence, the findings and the audit records of the sample data, as in the source.
use arka.Prelude.{codes, none, some, List, [], ◌∷◌}
use arka.Prelude.Values.{str, end, field}
use arka.Types.Core.{
  AuditRecord, AuditRecordEventType, EvidenceRecord, EvidenceRecordPayloadType,
  EvidenceRecordTrustLevel, StandardCapability,
}
use arka.Types.Findings.{Finding, FindingStatus}
use arka.Types.FindingsTrace.{FindingConfidence, FindingSeverity}

abbrev pub sample_evidence : List EvidenceRecord
sample_evidence =
    record {
      evidence_id = codes "evd_01J9Y75A1B2C3D4E5F6G7H8J9A";
      mission_id = codes "mis_01J9Y70X9Y8Z7W6V5U4T3S2R1Q";
      originating_action_id = codes "act_01J9Y72A3B4C5D6E7F8G9H0J1K";
      originating_capability = StandardCapability.tcp_connect;
      content_hash =
          codes "sha256:a1b2c3d4e5f60718293a4b5c6d7e8f90a1b2c3d4e5f60718293a4b5c6d7e8f90";
      timestamp_unix = 1774017500;
      provenance = record {
        agent_id = codes "agt_01J9Y74A1B2C3D4E5F6G7H8J9B";
        broker_sandbox = codes "arka-sbx-net-rootless-01";
        kernel_ticket_receipt = codes "tkt_01J9Y78A1B2C3D4E5F6G7H8J9Z";
      };
      payload_preview =
          codes
            "{\"target\": \"10.42.18.104\", \"port\": 8443, \"handshake\": \"SYN-ACK\", \"rtt_ms\": 1.4, \"tls_cipher\": \"TLS_AES_256_GCM_SHA384\"}";
      payload_type = EvidenceRecordPayloadType.port_survey;
      trust_level = EvidenceRecordTrustLevel.kernel_verified_signature;
    }
    ∷ record {
      evidence_id = codes "evd_01J9Y75A1B2C3D4E5F6G7H8J9B";
      mission_id = codes "mis_01J9Y70X9Y8Z7W6V5U4T3S2R1Q";
      originating_action_id = codes "act_01J9Y72A3B4C5D6E7F8G9H0J1M";
      originating_capability = StandardCapability.http_request;
      content_hash =
          codes "sha256:d41d8cd98f00b204e9800998ecf8427e02cda309a993c72e0883e9b63a4b0282";
      timestamp_unix = 1774021900;
      provenance = record {
        agent_id = codes "agt_01J9Y74A1B2C3D4E5F6G7H8J9C";
        broker_sandbox = codes "arka-sbx-gvisor-l2-02";
        kernel_ticket_receipt = codes "tkt_01J9Y78A1B2C3D4E5F6G7H8J9Y";
      };
      payload_preview =
          codes
            "HTTP/1.1 500 Internal Server Error\\r\\nServer: Nginx/1.24.0\\r\\nX-Application-Context: application:production:8443\\r\\nContent-Type: application/json\\r\\n\\r\\n{\"error\":\"Failed to deserialize payload token: DeserializingConverter\"}";
      payload_type = EvidenceRecordPayloadType.http_response;
      trust_level = EvidenceRecordTrustLevel.raw_untrusted_target_output;
    }
    ∷ []

abbrev pub sample_findings : List Finding
sample_findings =
    record {
      finding_id = codes "fnd_01J9Y76A1B2C3D4E5F6G7H8J9A";
      mission_id = codes "mis_01J9Y70X9Y8Z7W6V5U4T3S2R1Q";
      title = codes "Spring Boot Actuator Deserialization Vulnerability (CVE-2024-38819)";
      severity = FindingSeverity.critical;
      confidence = FindingConfidence.observed_anomaly;
      affected_asset = codes "10.42.18.104";
      affected_port = some 8443;
      cve_id = some (codes "CVE-2024-38819");
      description_factual =
          codes
            "Port 8443 exposes an HTTP 500 response explicitly leaking org.springframework.core.serializer DeserializingConverter class references when malformed JSON bodies are submitted.";
      inference_narrative =
          codes
            "The backend appears vulnerable to unauthenticated remote code execution via unsafe Java deserialization on the actuator endpoint. Controlled non-destructive validation is proposed under Two-Person Integrity approval.";
      reproduction_steps = none;
      remediation_guidance =
          codes
            "Upgrade Spring Framework to version 6.1.14 or later. Restrict actuator endpoints from public exposure or bind exclusively to internal management networks.";
      evidence_refs = codes "evd_01J9Y75A1B2C3D4E5F6G7H8J9B" ∷ [];
      originating_action_id = codes "act_01J9Y72A3B4C5D6E7F8G9H0J1M";
      discovered_at_unix = 1774021920;
      status = FindingStatus.verified;
    }
    ∷ []

abbrev pub sample_audit_records : List AuditRecord
sample_audit_records =
    record {
      event_id = codes "evt_01J9Y77A1B2C3D4E5F6G7H8J9A";
      sequence_number = 1402;
      timestamp_unix = 1774022010;
      mission_id = some (codes "mis_01J9Y70X9Y8Z7W6V5U4T3S2R1Q");
      event_type = AuditRecordEventType.approval_requested;
      actor_id = codes "agt_01J9Y74A1B2C3D4E5F6G7H8J9C";
      details = field (codes "proposal_id") (str (codes "prp_01J9Y70A1B2C3D4E5F6G7H8J9K")) (
          field (codes "capability") (str (codes "CONTROLLED_EXPLOITATION")) (
            field (codes "risk_class") (str (codes "CRITICAL")) (
              field (codes "action_hash")
                (str
                  (codes "sha256:7c9e8f1b2a3d4e5f6a7b8c9d0e1f2a3b4c5d6e7f8a9b0c1d2e3f4a5b6c7d88f1"))
                (end))));
      previous_hash = codes "e3b0c44298fc1c149afbf4c8996fb92427ae41e4649b934ca495991b7852b855";
      current_hash = codes "9a8b7c6d5e4f3a2b1c0d9e8f7a6b5c4d3e2f1a0b9c8d7e6f5a4b3c2d1e0f11aa";
      signature = codes "ed25519:7890abcdef1234567890abcdef1234567890abcdef1234567890abcdef123456";
    }
    ∷ record {
      event_id = codes "evt_01J9Y77A1B2C3D4E5F6G7H8J9B";
      sequence_number = 1401;
      timestamp_unix = 1774021800;
      mission_id = some (codes "mis_01J9Y70X9Y8Z7W6V5U4T3S2R1Q");
      event_type = AuditRecordEventType.action_authorized;
      actor_id = codes "kernel_policy_engine";
      details = field (codes "proposal_id") (str (codes "prp_01J9Y70A1B2C3D4E5F6G7H8J9L")) (
          field (codes "capability") (str (codes "TCP_CONNECT")) (
            field (codes "risk_class") (str (codes "MODERATE"))
              (field (codes "decision") (str (codes "ALLOW")) (end))));
      previous_hash = codes "1234567890abcdef1234567890abcdef1234567890abcdef1234567890abcdef";
      current_hash = codes "e3b0c44298fc1c149afbf4c8996fb92427ae41e4649b934ca495991b7852b855";
      signature = codes "ed25519:abcdef1234567890abcdef1234567890abcdef1234567890abcdef1234567890";
    }
    ∷ []
