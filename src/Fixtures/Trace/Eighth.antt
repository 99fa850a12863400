-- ===== src/Fixtures/Trace/Eighth.antt =====
-- frontend/src/api/traceData.ts: three of the sample findings, as in the source.
use arka.Prelude.{codes, none, some, true, [], ◌∷◌}
use arka.Types.Core.{ProposalDecision}
use arka.Types.FindingsTrace.{
  FindingConfidence, FindingEvidenceArtifactTrustLevel, FindingSeverity, FindingTraceItem,
  FindingTraceItemHumanApprovalState, FindingTraceItemTargetScopeStatus, ValidationState,
}
use arka.Fixtures.Stages.{PolicyOutcome, FinalOutcome, build_standard_stages}

abbrev pub snmp_default_community_string_public : FindingTraceItem
snmp_default_community_string_public = record {
  finding_id = codes "find_01J9Y7QX1V";
  mission_id = codes "mis_01J9Y70X9Y8Z7W6V5U4T3S2R1Q";
  title = codes "SNMP Default Community String (public)";
  severity = FindingSeverity.medium;
  risk_score = 59;
  risk_score_scale = codes "5.9 / 10 — Medium";
  scoring_source = codes "SNMPv2c sysDescr Walk Probe";
  confidence = FindingConfidence.observed_anomaly;
  confidence_percentage = 96;
  source_agent = codes "ReconAgent-01";
  agent_role = codes "Perimeter Surface Reconnaissance";
  target = codes "10.42.18.1:161";
  target_scope_status = FindingTraceItemTargetScopeStatus.excluded_target;
  validation_state = ValidationState.validated;
  validation_summary =
      codes "SNMPv2c responded to community string \"public\" with Cisco IOS XE banner.";
  policy_decision = ProposalDecision.deny;
  policy_reason =
      codes "Target is the core perimeter gateway router; excluded from automated testing.";
  policy_rule_id = codes "RULE-EXCL-GATEWAY-ROUTER";
  scope_ref = codes "scope-vpc-east-v2.1";
  kernel_version = codes "arka-kerneld v0.1.0";
  policy_evaluation_time_unix = 1774034826;
  human_approval_state = FindingTraceItemHumanApprovalState.not_required;
  approval_id = none;
  bound_action_hash = none;
  detected_at_unix = 1774034800;
  lifecycle_stages =
      build_standard_stages 1774034800 PolicyOutcome.deny
        (codes "Core router target excluded by mission scope.")
        FindingTraceItemHumanApprovalState.not_required FinalOutcome.recorded_denied;
  evidence_artifacts =
      record {
        id = codes "evd_01J9Y75A1B2C3D4E5F6G7H8J9X";
        filename = codes "snmp_sysdescr.txt";
        size_bytes = 380;
        content_hash =
            codes "sha256:def0123456789abcdef01234a5b6c7d8e9f0123456789abcdef0123456789abc";
        capability = codes "SERVICE_ENUMERATION";
        mime_type = codes "text/plain";
        provenance = record {
          agent_id = codes "agt_01J9Y74A1B2C3D4E5F6G7H8J9B";
          sandbox = codes "arka-sbx-net-rootless-01";
          kernel_ticket_receipt = codes "tkt_01J9Y78A1B2C3D4E5F6G7H8J9C";
        };
        sanitized_preview =
            codes
              "sysDescr.0 = Cisco IOS XE Software, Version 17.09.03a\nsysName.0 = gw01.vpc-east.internal";
        trust_level = FindingEvidenceArtifactTrustLevel.raw_untrusted_target_output;
      }
      ∷ [];
  audit_events =
      record {
        event_id = codes "evt_01J9Y77A1B2C3D4E5F6G7H8J9W";
        sequence_number = 1610;
        timestamp_unix = 1774034826;
        event_type = codes "PROPOSAL_EVALUATED";
        actor_id = codes "kernel_policy_engine";
        action_hash = none;
        previous_hash = codes "1abcdef1234567890abcdef1234567890abcdef1234567890abcdef1234567890";
        current_hash = codes "2abcdef1234567890abcdef1234567890abcdef1234567890abcdef12345678901";
        signature =
            codes "ed25519:f1234567890abcdef1234567890abcdef1234567890abcdef1234567890abcde";
        verified = true;
        summary = codes "SNMP probe denied under core router exclusion rule.";
      }
      ∷ [];
  factual_description =
      codes
        "Perimeter gateway answers SNMP queries with standard community string \"public\", leaking interface maps.";
  remediation_guidance = codes "Disable SNMPv1/v2c and upgrade to SNMPv3 with authPriv encryption.";
  cve_id = none;
}

abbrev pub apache_http_server_path_traversal_cve_2021_41773 : FindingTraceItem
apache_http_server_path_traversal_cve_2021_41773 = record {
  finding_id = codes "find_01J9Y7QX1W";
  mission_id = codes "mis_01J9Y70X9Y8Z7W6V5U4T3S2R1Q";
  title = codes "Apache HTTP Server Path Traversal (CVE-2021-41773)";
  severity = FindingSeverity.high;
  risk_score = 86;
  risk_score_scale = codes "8.6 / 10 — High";
  scoring_source = codes "CVE-2021-41773 Path Pattern Matcher";
  confidence = FindingConfidence.observed_anomaly;
  confidence_percentage = 95;
  source_agent = codes "ExploitAgent-01";
  agent_role = codes "Controlled PoC Verification";
  target = codes "10.42.18.40:80";
  target_scope_status = FindingTraceItemTargetScopeStatus.in_scope;
  validation_state = ValidationState.validated;
  validation_summary = codes "Apache 2.4.49 responds with HTTP 200 on /icons/%2e%2e/ access.";
  policy_decision = ProposalDecision.require_approval;
  policy_reason =
      codes
        "Path traversal PoC requires human verification under Two-Person Integrity to prevent unintended host reads.";
  policy_rule_id = codes "RULE-TPI-PATH-TRAVERSAL";
  scope_ref = codes "scope-vpc-east-v2.1";
  kernel_version = codes "arka-kerneld v0.1.0";
  policy_evaluation_time_unix = 1774035626;
  human_approval_state = FindingTraceItemHumanApprovalState.pending;
  approval_id = some (codes "app_01J9Y78A1B2C3D4E5F6G7H8J9S");
  bound_action_hash =
      some (codes "sha256:ef0123456789abcdef01234a5b6c7d8e9f0123456789abcdef0123456789abcd");
  detected_at_unix = 1774035600;
  lifecycle_stages =
      build_standard_stages 1774035600 PolicyOutcome.require_approval
        (codes "Action hash awaiting human operator clearance.")
        FindingTraceItemHumanApprovalState.pending FinalOutcome.recorded_pending;
  evidence_artifacts =
      record {
        id = codes "evd_01J9Y75A1B2C3D4E5F6G7H8J9Y";
        filename = codes "apache_traversal_test.txt";
        size_bytes = 610;
        content_hash =
            codes "sha256:ef0123456789abcdef01234a5b6c7d8e9f0123456789abcdef0123456789abcd";
        capability = codes "HTTP_REQUEST";
        mime_type = codes "text/plain";
        provenance = record {
          agent_id = codes "agt_01J9Y74A1B2C3D4E5F6G7H8J9D";
          sandbox = codes "arka-sbx-gvisor-l2-02";
          kernel_ticket_receipt = codes "tkt_01J9Y78A1B2C3D4E5F6G7H8J9B";
        };
        sanitized_preview =
            codes
              "GET /icons/%2e%2e/%2e%2e/%2e%2e/%2e%2e/etc/issue HTTP/1.1\nHTTP/1.1 200 OK\nServer: Apache/2.4.49 (Unix)\nUbuntu 20.04.2 LTS \\n \\l";
        trust_level = FindingEvidenceArtifactTrustLevel.raw_untrusted_target_output;
      }
      ∷ [];
  audit_events =
      record {
        event_id = codes "evt_01J9Y77A1B2C3D4E5F6G7H8J9X";
        sequence_number = 1620;
        timestamp_unix = 1774035626;
        event_type = codes "APPROVAL_REQUESTED";
        actor_id = codes "kernel_policy_engine";
        action_hash =
            some (codes "sha256:ef0123456789abcdef01234a5b6c7d8e9f0123456789abcdef0123456789abcd");
        previous_hash = codes "2abcdef1234567890abcdef1234567890abcdef1234567890abcdef12345678901";
        current_hash = codes "3abcdef1234567890abcdef1234567890abcdef1234567890abcdef123456789012";
        signature =
            codes "ed25519:1234567890abcdef1234567890abcdef1234567890abcdef1234567890abcdef";
        verified = true;
        summary = codes "Approval requested for path traversal validation.";
      }
      ∷ [];
  factual_description =
      codes
        "Apache 2.4.49 path normalization flaw permits directory traversal to files outside the document root.";
  remediation_guidance = codes "Update Apache HTTP Server to version 2.4.51 or higher immediately.";
  cve_id = some (codes "CVE-2021-41773");
}

abbrev pub open_ntp_monlist_amplification_ddos_vector : FindingTraceItem
open_ntp_monlist_amplification_ddos_vector = record {
  finding_id = codes "find_01J9Y7QX1X";
  mission_id = codes "mis_01J9Y70X9Y8Z7W6V5U4T3S2R1Q";
  title = codes "Open NTP Monlist Amplification DDoS Vector";
  severity = FindingSeverity.low;
  risk_score = 25;
  risk_score_scale = codes "2.5 / 10 — Low";
  scoring_source = codes "NTP Monlist Mode 7 Request Analyzer";
  confidence = FindingConfidence.observed_anomaly;
  confidence_percentage = 95;
  source_agent = codes "ReconAgent-01";
  agent_role = codes "Perimeter Surface Reconnaissance";
  target = codes "10.42.18.1:123";
  target_scope_status = FindingTraceItemTargetScopeStatus.excluded_target;
  validation_state = ValidationState.validated;
  validation_summary = codes "NTP server responded to mode 7 req_code 42 with last 600 clients.";
  policy_decision = ProposalDecision.deny;
  policy_reason = codes "Target is the core network router; excluded from automated assessment.";
  policy_rule_id = codes "RULE-EXCL-GATEWAY-ROUTER";
  scope_ref = codes "scope-vpc-east-v2.1";
  kernel_version = codes "arka-kerneld v0.1.0";
  policy_evaluation_time_unix = 1774036426;
  human_approval_state = FindingTraceItemHumanApprovalState.not_required;
  approval_id = none;
  bound_action_hash = none;
  detected_at_unix = 1774036400;
  lifecycle_stages =
      build_standard_stages 1774036400 PolicyOutcome.deny
        (codes "Target excluded by mission boundary rules.")
        FindingTraceItemHumanApprovalState.not_required FinalOutcome.recorded_denied;
  evidence_artifacts =
      record {
        id = codes "evd_01J9Y75A1B2C3D4E5F6G7H8J9Z";
        filename = codes "ntp_monlist_sample.txt";
        size_bytes = 340;
        content_hash =
            codes "sha256:f0123456789abcdef01234a5b6c7d8e9f0123456789abcdef0123456789abcde";
        capability = codes "SERVICE_ENUMERATION";
        mime_type = codes "text/plain";
        provenance = record {
          agent_id = codes "agt_01J9Y74A1B2C3D4E5F6G7H8J9B";
          sandbox = codes "arka-sbx-net-rootless-01";
          kernel_ticket_receipt = codes "tkt_01J9Y78A1B2C3D4E5F6G7H8J9A";
        };
        sanitized_preview =
            codes
              "NTP Mode 7 (monlist) response: 42 addresses returned.\nAmplification Factor: 28.5x\nStatus: VULNERABLE";
        trust_level = FindingEvidenceArtifactTrustLevel.raw_untrusted_target_output;
      }
      ∷ [];
  audit_events =
      record {
        event_id = codes "evt_01J9Y77A1B2C3D4E5F6G7H8J9Y";
        sequence_number = 1630;
        timestamp_unix = 1774036426;
        event_type = codes "PROPOSAL_EVALUATED";
        actor_id = codes "kernel_policy_engine";
        action_hash = none;
        previous_hash = codes "3abcdef1234567890abcdef1234567890abcdef1234567890abcdef123456789012";
        current_hash = codes "4abcdef1234567890abcdef1234567890abcdef1234567890abcdef1234567890123";
        signature =
            codes "ed25519:234567890abcdef1234567890abcdef1234567890abcdef1234567890abcdef1";
        verified = true;
        summary = codes "NTP monlist probe denied by policy.";
      }
      ∷ [];
  factual_description =
      codes
        "NTP service on perimeter router answers monlist requests, exposing internal network time clients.";
  remediation_guidance = codes "Disable monlist queries in ntp.conf with restrict default noquery.";
  cve_id = none;
}
