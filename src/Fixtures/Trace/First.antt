-- ===== src/Fixtures/Trace/First.antt =====
-- frontend/src/api/traceData.ts: three of the sample findings, as in the source.
use arka.Prelude.{codes, none, some, true, [], ◌∷◌}
use arka.Types.Core.{ProposalDecision}
use arka.Types.FindingsTrace.{
  FindingConfidence, FindingEvidenceArtifactTrustLevel, FindingSeverity, FindingTraceItem,
  FindingTraceItemHumanApprovalState, FindingTraceItemTargetScopeStatus, ValidationState,
}
use arka.Fixtures.Stages.{PolicyOutcome, FinalOutcome, build_standard_stages}

abbrev pub exposed_management_port : FindingTraceItem
exposed_management_port = record {
  finding_id = codes "find_01J9Y7QX1A";
  mission_id = codes "mis_01J9Y70X9Y8Z7W6V5U4T3S2R1Q";
  title = codes "Exposed Management Port";
  severity = FindingSeverity.critical;
  risk_score = 91;
  risk_score_scale = codes "9.1 / 10 — Critical";
  scoring_source = codes "Active Port Fingerprint + CVSS 3.1 Base Metric";
  confidence = FindingConfidence.observed_anomaly;
  confidence_percentage = 95;
  source_agent = codes "ReconAgent-01";
  agent_role = codes "Perimeter Surface Reconnaissance";
  target = codes "10.42.18.104:8443";
  target_scope_status = FindingTraceItemTargetScopeStatus.excluded_target;
  validation_state = ValidationState.validated;
  validation_summary =
      codes "Service banner confirms HTTPS management listener on 8443 with TLS 1.3.";
  policy_decision = ProposalDecision.deny;
  policy_reason =
      codes
        "Target matches an explicit exclusion rule: 10.42.18.0/24 (Production Database & HSM Subnet). Exclusions strictly override inclusions under Invariant INV-003.";
  policy_rule_id = codes "RULE-EXCL-PROD-DB-01";
  scope_ref = codes "scope-vpc-east-v2.1";
  kernel_version = codes "arka-kerneld v0.1.0";
  policy_evaluation_time_unix = 1774017526;
  human_approval_state = FindingTraceItemHumanApprovalState.not_required;
  approval_id = none;
  bound_action_hash = none;
  detected_at_unix = 1774017500;
  lifecycle_stages =
      build_standard_stages 1774017500 PolicyOutcome.deny
        (codes "Target matches explicit exclusion rule (10.42.18.0/24). Action denied fail-closed.")
        FindingTraceItemHumanApprovalState.not_required FinalOutcome.recorded_denied;
  evidence_artifacts =
      record {
        id = codes "evd_01J9Y75A1B2C3D4E5F6G7H8J9A";
        filename = codes "port_scan_10.42.18.104.txt";
        size_bytes = 2150;
        content_hash =
            codes "sha256:a1b2c3d4e5f60718293a4b5c6d7e8f90a1b2c3d4e5f60718293a4b5c6d7e8f90";
        capability = codes "PORT_SCAN";
        mime_type = codes "text/plain";
        provenance = record {
          agent_id = codes "agt_01J9Y74A1B2C3D4E5F6G7H8J9B";
          sandbox = codes "arka-sbx-net-rootless-01";
          kernel_ticket_receipt = codes "tkt_01J9Y78A1B2C3D4E5F6G7H8J9Z";
        };
        sanitized_preview =
            codes
              "# ARKA Sanitized Raw Port Survey\nHost: 10.42.18.104\nPort: 8443/tcp\nState: OPEN\nService: ssl/https-alt\nRTT: 1.42ms\nBanner: nginx/1.24.0 (Ubuntu)";
        trust_level = FindingEvidenceArtifactTrustLevel.kernel_verified_signature;
      }
      ∷ record {
        id = codes "evd_01J9Y75A1B2C3D4E5F6G7H8J9B";
        filename = codes "nmap_service_detect.json";
        size_bytes = 4915;
        content_hash =
            codes "sha256:7c9e8f1b2a3d4e5f6a7b8c9d0e1f2a3b4c5d6e7f8a9b0c1d2e3f4a5b6c7d88f1";
        capability = codes "SERVICE_ENUMERATION";
        mime_type = codes "application/json";
        provenance = record {
          agent_id = codes "agt_01J9Y74A1B2C3D4E5F6G7H8J9C";
          sandbox = codes "arka-sbx-net-rootless-01";
          kernel_ticket_receipt = codes "tkt_01J9Y78A1B2C3D4E5F6G7H8J9Y";
        };
        sanitized_preview =
            codes
              "{\n  \"service\": \"https\",\n  \"product\": \"Spring Boot Admin Console\",\n  \"version\": \"3.1.2\",\n  \"ostype\": \"Linux\",\n  \"cpe\": \"cpe:/a:pivotal_software:spring_boot:3.1.2\"\n}";
        trust_level = FindingEvidenceArtifactTrustLevel.raw_untrusted_target_output;
      }
      ∷ record {
        id = codes "evd_01J9Y75A1B2C3D4E5F6G7H8J9C";
        filename = codes "tls_handshake.log";
        size_bytes = 12697;
        content_hash =
            codes "sha256:d41d8cd98f00b204e9800998ecf8427e02cda309a993c72e0883e9b63a4b0282";
        capability = codes "TCP_CONNECT";
        mime_type = codes "text/plain";
        provenance = record {
          agent_id = codes "agt_01J9Y74A1B2C3D4E5F6G7H8J9B";
          sandbox = codes "arka-sbx-net-rootless-01";
          kernel_ticket_receipt = codes "tkt_01J9Y78A1B2C3D4E5F6G7H8J9X";
        };
        sanitized_preview =
            codes
              "TLSv1.3 Handshake ClientHello\nCipherSuite: TLS_AES_256_GCM_SHA384\nServerHello ALPN: h2, http/1.1\nCertificate Subject: CN=admin-internal.vpc-east.internal\nIssuer: Internal Corporate Intermediate CA G3";
        trust_level = FindingEvidenceArtifactTrustLevel.raw_untrusted_target_output;
      }
      ∷ [];
  audit_events =
      record {
        event_id = codes "evt_01J9Y77A1B2C3D4E5F6G7H8J9A";
        sequence_number = 1402;
        timestamp_unix = 1774017512;
        event_type = codes "EVIDENCE_RECORDED";
        actor_id = codes "agt_01J9Y74A1B2C3D4E5F6G7H8J9B";
        action_hash = none;
        previous_hash = codes "e3b0c44298fc1c149afbf4c8996fb92427ae41e4649b934ca495991b7852b855";
        current_hash = codes "9a8b7c6d5e4f3a2b1c0d9e8f7a6b5c4d3e2f1a0b9c8d7e6f5a4b3c2d1e0f11aa";
        signature =
            codes "ed25519:7890abcdef1234567890abcdef1234567890abcdef1234567890abcdef123456";
        verified = true;
        summary = codes "TCP probe evidence recorded under DOMAIN_EVIDENCE content hashing.";
      }
      ∷ record {
        event_id = codes "evt_01J9Y77A1B2C3D4E5F6G7H8J9B";
        sequence_number = 1403;
        timestamp_unix = 1774017526;
        event_type = codes "PROPOSAL_EVALUATED";
        actor_id = codes "kernel_policy_engine";
        action_hash =
            some (codes "sha256:7c9e8f1b2a3d4e5f6a7b8c9d0e1f2a3b4c5d6e7f8a9b0c1d2e3f4a5b6c7d88f1");
        previous_hash = codes "9a8b7c6d5e4f3a2b1c0d9e8f7a6b5c4d3e2f1a0b9c8d7e6f5a4b3c2d1e0f11aa";
        current_hash = codes "1234567890abcdef1234567890abcdef1234567890abcdef1234567890abcdef";
        signature =
            codes "ed25519:abcdef1234567890abcdef1234567890abcdef1234567890abcdef1234567890";
        verified = true;
        summary =
            codes "Security Kernel evaluated proposal against ScopeDefinition; decision: DENY.";
      }
      ∷ [];
  factual_description =
      codes
        "Port 8443 was discovered open with an active HTTPS service presenting an internal certificate. Target matches an explicit CIDR exclusion rule in the active mission scope.";
  remediation_guidance =
      codes
        "Verify whether port 8443 should be accessible from the VPC perimeter. Enforce security group restrictions to block unauthorized access to the database subnet.";
  cve_id = none;
}

abbrev pub outdated_ssh_version : FindingTraceItem
outdated_ssh_version = record {
  finding_id = codes "find_01J9Y7QX1B";
  mission_id = codes "mis_01J9Y70X9Y8Z7W6V5U4T3S2R1Q";
  title = codes "Outdated SSH Version";
  severity = FindingSeverity.high;
  risk_score = 78;
  risk_score_scale = codes "7.8 / 10 — High";
  scoring_source = codes "Banner Grabbing + CVE-2023-48795 (Terrapin)";
  confidence = FindingConfidence.observed_anomaly;
  confidence_percentage = 92;
  source_agent = codes "ReconAgent-01";
  agent_role = codes "Perimeter Surface Reconnaissance";
  target = codes "10.42.18.22:22";
  target_scope_status = FindingTraceItemTargetScopeStatus.excluded_target;
  validation_state = ValidationState.validated;
  validation_summary =
      codes "SSH identification banner indicates OpenSSH 7.4p1 with ChaCha20-Poly1305 support.";
  policy_decision = ProposalDecision.deny;
  policy_reason =
      codes
        "Active mission window is restricted to HTTP/TLS attack surfaces. SSH exploitation validation is forbidden by capability baseline.";
  policy_rule_id = codes "RULE-CAP-RESTRICTION-SSH";
  scope_ref = codes "scope-vpc-east-v2.1";
  kernel_version = codes "arka-kerneld v0.1.0";
  policy_evaluation_time_unix = 1774018226;
  human_approval_state = FindingTraceItemHumanApprovalState.not_required;
  approval_id = none;
  bound_action_hash = none;
  detected_at_unix = 1774018200;
  lifecycle_stages =
      build_standard_stages 1774018200 PolicyOutcome.deny
        (codes "SSH protocol capability is denied outside authorized maintenance windows.")
        FindingTraceItemHumanApprovalState.not_required FinalOutcome.recorded_denied;
  evidence_artifacts =
      record {
        id = codes "evd_01J9Y75A1B2C3D4E5F6G7H8J9D";
        filename = codes "ssh_banner_10.42.18.22.txt";
        size_bytes = 840;
        content_hash =
            codes "sha256:3a4b5c6d7e8f90a1b2c3d4e5f60718293a4b5c6d7e8f90a1b2c3d4e5f6071829";
        capability = codes "SERVICE_ENUMERATION";
        mime_type = codes "text/plain";
        provenance = record {
          agent_id = codes "agt_01J9Y74A1B2C3D4E5F6G7H8J9B";
          sandbox = codes "arka-sbx-net-rootless-01";
          kernel_ticket_receipt = codes "tkt_01J9Y78A1B2C3D4E5F6G7H8J9W";
        };
        sanitized_preview =
            codes
              "SSH-2.0-OpenSSH_7.4p1 Debian-10+deb9u7\nKeyExchange: curve25519-sha256,ecdh-sha2-nistp256\nCiphers: chacha20-poly1305@openssh.com,aes128-ctr,aes256-ctr";
        trust_level = FindingEvidenceArtifactTrustLevel.kernel_verified_signature;
      }
      ∷ [];
  audit_events =
      record {
        event_id = codes "evt_01J9Y77A1B2C3D4E5F6G7H8J9C";
        sequence_number = 1410;
        timestamp_unix = 1774018226;
        event_type = codes "PROPOSAL_EVALUATED";
        actor_id = codes "kernel_policy_engine";
        action_hash = none;
        previous_hash = codes "1234567890abcdef1234567890abcdef1234567890abcdef1234567890abcdef";
        current_hash = codes "2345678901abcdef1234567890abcdef1234567890abcdef1234567890abcdef";
        signature =
            codes "ed25519:bcdef1234567890abcdef1234567890abcdef1234567890abcdef1234567890a";
        verified = true;
        summary = codes "Evaluated action against SSH capability rules; decision: DENY.";
      }
      ∷ [];
  factual_description =
      codes
        "The host is running OpenSSH 7.4p1, which lacks patches for CVE-2023-48795 (Terrapin attack on ChaCha20-Poly1305 / CBC-EtM).";
  remediation_guidance =
      codes
        "Upgrade OpenSSH to version 9.6p1 or later. Disable ChaCha20-Poly1305 and EtM algorithms if upgrading cannot be performed immediately.";
  cve_id = some (codes "CVE-2023-48795");
}

abbrev pub public_s3_bucket_exposure : FindingTraceItem
public_s3_bucket_exposure = record {
  finding_id = codes "find_01J9Y7QX1C";
  mission_id = codes "mis_01J9Y70X9Y8Z7W6V5U4T3S2R1Q";
  title = codes "Public S3 Bucket Exposure";
  severity = FindingSeverity.high;
  risk_score = 84;
  risk_score_scale = codes "8.4 / 10 — High";
  scoring_source = codes "AWS OSINT + Public Bucket Head Bucket Query";
  confidence = FindingConfidence.observed_anomaly;
  confidence_percentage = 91;
  source_agent = codes "ReconAgent-01";
  agent_role = codes "Perimeter Surface Reconnaissance";
  target = codes "s3://corp-backup-prod-us-east-1";
  target_scope_status = FindingTraceItemTargetScopeStatus.in_scope;
  validation_state = ValidationState.validated;
  validation_summary = codes "ListBucket API responded with HTTP 200 containing 1,482 object keys.";
  policy_decision = ProposalDecision.require_approval;
  policy_reason =
      codes
        "Inspecting object contents requires controlled validation under Two-Person Integrity to prevent inadvertent data exfiltration.";
  policy_rule_id = codes "RULE-TPI-S3-INSPECTION";
  scope_ref = codes "scope-vpc-east-v2.1";
  kernel_version = codes "arka-kerneld v0.1.0";
  policy_evaluation_time_unix = 1774019126;
  human_approval_state = FindingTraceItemHumanApprovalState.pending;
  approval_id = some (codes "app_01J9Y78A1B2C3D4E5F6G7H8J9P");
  bound_action_hash =
      some (codes "sha256:4a5b6c7d8e9f0123456789abcdef0123456789abcdef0123456789abcdef0123");
  detected_at_unix = 1774019100;
  lifecycle_stages =
      build_standard_stages 1774019100 PolicyOutcome.require_approval
        (codes
          "Action carries High Risk class: operator approval required before retrieving S3 object contents.")
        FindingTraceItemHumanApprovalState.pending FinalOutcome.recorded_pending;
  evidence_artifacts =
      record {
        id = codes "evd_01J9Y75A1B2C3D4E5F6G7H8J9E";
        filename = codes "s3_bucket_listing.xml";
        size_bytes = 8420;
        content_hash =
            codes "sha256:4a5b6c7d8e9f0123456789abcdef0123456789abcdef0123456789abcdef0123";
        capability = codes "HTTP_REQUEST";
        mime_type = codes "application/xml";
        provenance = record {
          agent_id = codes "agt_01J9Y74A1B2C3D4E5F6G7H8J9B";
          sandbox = codes "arka-sbx-net-rootless-01";
          kernel_ticket_receipt = codes "tkt_01J9Y78A1B2C3D4E5F6G7H8J9V";
        };
        sanitized_preview =
            codes
              "<?xml version=\"1.0\" encoding=\"UTF-8\"?>\n<ListBucketResult xmlns=\"http://s3.amazonaws.com/doc/2006-03-01/\">\n  <Name>corp-backup-prod-us-east-1</Name>\n  <Prefix></Prefix>\n  <MaxKeys>10</MaxKeys>\n  <IsTruncated>true</IsTruncated>\n  <Contents>\n    <Key>database_dumps/2026-03-15.sql.gz</Key>\n    <Size>482914881</Size>\n  </Contents>\n</ListBucketResult>";
        trust_level = FindingEvidenceArtifactTrustLevel.raw_untrusted_target_output;
      }
      ∷ [];
  audit_events =
      record {
        event_id = codes "evt_01J9Y77A1B2C3D4E5F6G7H8J9D";
        sequence_number = 1420;
        timestamp_unix = 1774019126;
        event_type = codes "APPROVAL_REQUESTED";
        actor_id = codes "kernel_policy_engine";
        action_hash =
            some (codes "sha256:4a5b6c7d8e9f0123456789abcdef0123456789abcdef0123456789abcdef0123");
        previous_hash = codes "2345678901abcdef1234567890abcdef1234567890abcdef1234567890abcdef";
        current_hash = codes "3456789012abcdef1234567890abcdef1234567890abcdef1234567890abcdef";
        signature =
            codes "ed25519:cdef1234567890abcdef1234567890abcdef1234567890abcdef1234567890ab";
        verified = true;
        summary = codes "Two-person integrity approval created and queued for human operator.";
      }
      ∷ [];
  factual_description =
      codes
        "The S3 bucket permits anonymous read access via GetBucketAcl and ListBucket, allowing unauthenticated enumeration of database backup archives.";
  remediation_guidance =
      codes
        "Enable S3 Block Public Access at the account and bucket levels. Audit IAM bucket policies to restrict access to authorized VPC endpoints.";
  cve_id = none;
}
