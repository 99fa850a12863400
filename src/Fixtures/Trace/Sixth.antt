-- ===== src/Fixtures/Trace/Sixth.antt =====
-- frontend/src/api/traceData.ts: three of the sample findings, as in the source.
use arka.Prelude.{codes, none, true, [], ◌∷◌}
use arka.Types.Core.{ProposalDecision}
use arka.Types.FindingsTrace.{
  FindingConfidence, FindingEvidenceArtifactTrustLevel, FindingSeverity, FindingTraceItem,
  FindingTraceItemHumanApprovalState, FindingTraceItemTargetScopeStatus, ValidationState,
}
use arka.Fixtures.Stages.{PolicyOutcome, FinalOutcome, build_standard_stages}

abbrev pub subdomain_takeover_via_dangling_cname : FindingTraceItem
subdomain_takeover_via_dangling_cname = record {
  finding_id = codes "find_01J9Y7QX1P";
  mission_id = codes "mis_01J9Y70X9Y8Z7W6V5U4T3S2R1Q";
  title = codes "Subdomain Takeover via Dangling CNAME";
  severity = FindingSeverity.high;
  risk_score = 80;
  risk_score_scale = codes "8.0 / 10 — High";
  scoring_source = codes "DNS Resolution + Cloud Provider Service Probe";
  confidence = FindingConfidence.observed_anomaly;
  confidence_percentage = 95;
  source_agent = codes "ReconAgent-01";
  agent_role = codes "Perimeter Surface Reconnaissance";
  target = codes "dev-portal.vpc-east.internal";
  target_scope_status = FindingTraceItemTargetScopeStatus.in_scope;
  validation_state = ValidationState.validated;
  validation_summary = codes "CNAME points to an unclaimed Azure Traffic Manager endpoint.";
  policy_decision = ProposalDecision.allow;
  policy_reason = codes "DNS lookup is an observation capability permitted by default.";
  policy_rule_id = codes "RULE-OBSERVATION-ALLOW";
  scope_ref = codes "scope-vpc-east-v2.1";
  kernel_version = codes "arka-kerneld v0.1.0";
  policy_evaluation_time_unix = 1774030226;
  human_approval_state = FindingTraceItemHumanApprovalState.not_required;
  approval_id = none;
  bound_action_hash = none;
  detected_at_unix = 1774030200;
  lifecycle_stages =
      build_standard_stages 1774030200 PolicyOutcome.allow (codes "DNS passive query authorized.")
        FindingTraceItemHumanApprovalState.not_required FinalOutcome.recorded_valid;
  evidence_artifacts =
      record {
        id = codes "evd_01J9Y75A1B2C3D4E5F6G7H8J9R";
        filename = codes "cname_dangling_lookup.txt";
        size_bytes = 580;
        content_hash =
            codes "sha256:789abcdef0123456789abcdef01234a5b6c7d8e9f0123456789abcdef0123456";
        capability = codes "DNS_LOOKUP";
        mime_type = codes "text/plain";
        provenance = record {
          agent_id = codes "agt_01J9Y74A1B2C3D4E5F6G7H8J9B";
          sandbox = codes "arka-sbx-net-rootless-01";
          kernel_ticket_receipt = codes "tkt_01J9Y78A1B2C3D4E5F6G7H8J9I";
        };
        sanitized_preview =
            codes
              "dev-portal.vpc-east.internal. IN CNAME dev-portal-east.trafficmanager.net.\nNXDOMAIN: Host does not exist in target provider.";
        trust_level = FindingEvidenceArtifactTrustLevel.kernel_verified_signature;
      }
      ∷ [];
  audit_events =
      record {
        event_id = codes "evt_01J9Y77A1B2C3D4E5F6G7H8J9Q";
        sequence_number = 1550;
        timestamp_unix = 1774030226;
        event_type = codes "PROPOSAL_EVALUATED";
        actor_id = codes "kernel_policy_engine";
        action_hash = none;
        previous_hash = codes "567890abcdef1234567890abcdef1234567890abcdef1234567890abcdef1234";
        current_hash = codes "67890abcdef1234567890abcdef1234567890abcdef1234567890abcdef12345";
        signature =
            codes "ed25519:0abcdef1234567890abcdef1234567890abcdef1234567890abcdef123456789";
        verified = true;
        summary = codes "Dangling CNAME finding registered.";
      }
      ∷ [];
  factual_description =
      codes
        "Subdomain points to an unclaimed cloud resource that can be registered by an external adversary.";
  remediation_guidance =
      codes "Delete the dangling DNS CNAME record or register the corresponding Azure resource.";
  cve_id = none;
}

abbrev pub exposed_docker_engine_http_api_socket : FindingTraceItem
exposed_docker_engine_http_api_socket = record {
  finding_id = codes "find_01J9Y7QX1Q";
  mission_id = codes "mis_01J9Y70X9Y8Z7W6V5U4T3S2R1Q";
  title = codes "Exposed Docker Engine HTTP API Socket";
  severity = FindingSeverity.critical;
  risk_score = 99;
  risk_score_scale = codes "9.9 / 10 — Critical";
  scoring_source = codes "Docker API /version Endpoint Banner";
  confidence = FindingConfidence.observed_anomaly;
  confidence_percentage = 99;
  source_agent = codes "ExploitAgent-01";
  agent_role = codes "Controlled PoC Verification";
  target = codes "10.42.18.30:2375";
  target_scope_status = FindingTraceItemTargetScopeStatus.excluded_target;
  validation_state = ValidationState.validated;
  validation_summary = codes "Docker API /version returns ApiVersion: 1.43 without client TLS.";
  policy_decision = ProposalDecision.deny;
  policy_reason = codes "Target is on the excluded infrastructure subnet.";
  policy_rule_id = codes "RULE-EXCL-PROD-INFRA";
  scope_ref = codes "scope-vpc-east-v2.1";
  kernel_version = codes "arka-kerneld v0.1.0";
  policy_evaluation_time_unix = 1774031026;
  human_approval_state = FindingTraceItemHumanApprovalState.not_required;
  approval_id = none;
  bound_action_hash = none;
  detected_at_unix = 1774031000;
  lifecycle_stages =
      build_standard_stages 1774031000 PolicyOutcome.deny
        (codes "Target excluded: host-level container breakout risk.")
        FindingTraceItemHumanApprovalState.not_required FinalOutcome.recorded_denied;
  evidence_artifacts =
      record {
        id = codes "evd_01J9Y75A1B2C3D4E5F6G7H8J9S";
        filename = codes "docker_version_response.json";
        size_bytes = 1420;
        content_hash =
            codes "sha256:89abcdef0123456789abcdef01234a5b6c7d8e9f0123456789abcdef01234567";
        capability = codes "HTTP_REQUEST";
        mime_type = codes "application/json";
        provenance = record {
          agent_id = codes "agt_01J9Y74A1B2C3D4E5F6G7H8J9D";
          sandbox = codes "arka-sbx-gvisor-l2-02";
          kernel_ticket_receipt = codes "tkt_01J9Y78A1B2C3D4E5F6G7H8J9H";
        };
        sanitized_preview =
            codes
              "{\n  \"Version\": \"24.0.5\",\n  \"ApiVersion\": \"1.43\",\n  \"MinAPIVersion\": \"1.12\",\n  \"Os\": \"linux\"\n}";
        trust_level = FindingEvidenceArtifactTrustLevel.kernel_verified_signature;
      }
      ∷ [];
  audit_events =
      record {
        event_id = codes "evt_01J9Y77A1B2C3D4E5F6G7H8J9R";
        sequence_number = 1560;
        timestamp_unix = 1774031026;
        event_type = codes "PROPOSAL_EVALUATED";
        actor_id = codes "kernel_policy_engine";
        action_hash = none;
        previous_hash = codes "67890abcdef1234567890abcdef1234567890abcdef1234567890abcdef12345";
        current_hash = codes "7890abcdef1234567890abcdef1234567890abcdef1234567890abcdef123456";
        signature =
            codes "ed25519:abcdef1234567890abcdef1234567890abcdef1234567890abcdef1234567890";
        verified = true;
        summary = codes "Docker API interaction denied.";
      }
      ∷ [];
  factual_description =
      codes
        "Unauthenticated Docker socket listening on TCP port 2375 permits full root execution on the host system.";
  remediation_guidance =
      codes
        "Disable TCP listening for dockerd or configure mutual TLS with client certificate verification.";
  cve_id = none;
}

abbrev pub git_repository_metadata_directory_exposure_git : FindingTraceItem
git_repository_metadata_directory_exposure_git = record {
  finding_id = codes "find_01J9Y7QX1R";
  mission_id = codes "mis_01J9Y70X9Y8Z7W6V5U4T3S2R1Q";
  title = codes "Git Repository Metadata Directory Exposure (.git)";
  severity = FindingSeverity.medium;
  risk_score = 65;
  risk_score_scale = codes "6.5 / 10 — Medium";
  scoring_source = codes "Web Crawler + Well-Known Path Survey";
  confidence = FindingConfidence.observed_anomaly;
  confidence_percentage = 97;
  source_agent = codes "VulnAnalysisAgent-02";
  agent_role = codes "Vulnerability Analysis & Service Fingerprinting";
  target = codes "staging.vpc-east.internal/.git/config";
  target_scope_status = FindingTraceItemTargetScopeStatus.in_scope;
  validation_state = ValidationState.validated;
  validation_summary = codes "Web server returns HTTP 200 with raw Git configuration file.";
  policy_decision = ProposalDecision.allow;
  policy_reason = codes "Passive HTTP retrieval of web content is permitted within target scope.";
  policy_rule_id = codes "RULE-PERIMETER-HTTP-ALLOW";
  scope_ref = codes "scope-vpc-east-v2.1";
  kernel_version = codes "arka-kerneld v0.1.0";
  policy_evaluation_time_unix = 1774031826;
  human_approval_state = FindingTraceItemHumanApprovalState.not_required;
  approval_id = none;
  bound_action_hash = none;
  detected_at_unix = 1774031800;
  lifecycle_stages =
      build_standard_stages 1774031800 PolicyOutcome.allow
        (codes "Web discovery action authorized by Kernel.")
        FindingTraceItemHumanApprovalState.not_required FinalOutcome.recorded_valid;
  evidence_artifacts =
      record {
        id = codes "evd_01J9Y75A1B2C3D4E5F6G7H8J9T";
        filename = codes "git_config_snippet.txt";
        size_bytes = 420;
        content_hash =
            codes "sha256:9abcdef0123456789abcdef01234a5b6c7d8e9f0123456789abcdef012345678";
        capability = codes "HTTP_REQUEST";
        mime_type = codes "text/plain";
        provenance = record {
          agent_id = codes "agt_01J9Y74A1B2C3D4E5F6G7H8J9C";
          sandbox = codes "arka-sbx-gvisor-l2-02";
          kernel_ticket_receipt = codes "tkt_01J9Y78A1B2C3D4E5F6G7H8J9G";
        };
        sanitized_preview =
            codes
              "[core]\n\trepositoryformatversion = 0\n\tfilemode = true\n\tbare = false\n[remote \"origin\"]\n\turl = git@github.com:corp/staging-portal.git";
        trust_level = FindingEvidenceArtifactTrustLevel.raw_untrusted_target_output;
      }
      ∷ [];
  audit_events =
      record {
        event_id = codes "evt_01J9Y77A1B2C3D4E5F6G7H8J9S";
        sequence_number = 1570;
        timestamp_unix = 1774031826;
        event_type = codes "PROPOSAL_EVALUATED";
        actor_id = codes "kernel_policy_engine";
        action_hash = none;
        previous_hash = codes "7890abcdef1234567890abcdef1234567890abcdef1234567890abcdef123456";
        current_hash = codes "890abcdef1234567890abcdef1234567890abcdef1234567890abcdef1234567";
        signature =
            codes "ed25519:bcdef1234567890abcdef1234567890abcdef1234567890abcdef1234567890a";
        verified = true;
        summary = codes "Git exposure finding registered.";
      }
      ∷ [];
  factual_description =
      codes
        "The web server serves files from the .git directory, permitting complete source code reconstruction.";
  remediation_guidance =
      codes
        "Configure the web server to deny access to hidden directories starting with a dot (location ~ /\\. { deny all; }).";
  cve_id = none;
}
