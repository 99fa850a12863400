-- ===== src/Fixtures/Proposals.antt =====
-- frontend/src/api/mockData.ts: the proposals and the approvals of the sample data, as in the source.
use arka.Prelude.{codes, none, some, List, [], ◌∷◌, pos}
use arka.Prelude.Values.{str, num, obj, end, field}
use arka.Types.Core.{
  ActionProposal, Approval, ApprovalStatus, ProposalDecision, RiskClass, StandardCapability,
}

abbrev pub sample_proposals : List ActionProposal
sample_proposals =
    record {
      proposal_id = codes "prp_01J9Y70A1B2C3D4E5F6G7H8J9K";
      mission_id = codes "mis_01J9Y70X9Y8Z7W6V5U4T3S2R1Q";
      parent_task_id = some (codes "tsk_01J9Y71M2N3P4Q5R6S7T8U9V0W");
      requesting_agent = codes "VulnAnalysisAgent-02";
      capability_id = StandardCapability.controlled_exploitation;
      target = codes "10.42.18.104:8443";
      raw_parameters = field (codes "action") (str (codes "CVE-2024-38819_EXPLOIT_VERIFY")) (
          field (codes "target")
            (obj (
              field (codes "ipv4") (str (codes "10.42.18.104")) (
                field (codes "port") (num (pos 8443))
                  (field (codes "service") (str (codes "payment-api")) (end)))))
            (field (codes "sandbox_enforcement") (str (codes "gVisor-Hardened-L2")) (
              field (codes "timeout_ms") (num (pos 3500)) (
                field (codes "side_effect_profile") (str (codes "NON_DESTRUCTIVE_PROBE")) (end)))));
      normalized_parameters = field (codes "action") (str (codes "CVE-2024-38819_EXPLOIT_VERIFY")) (
          field (codes "sandbox_enforcement") (str (codes "gVisor-Hardened-L2")) (
            field (codes "side_effect_profile") (str (codes "NON_DESTRUCTIVE_PROBE")) (
              field (codes "target")
                (obj (
                  field (codes "ipv4") (str (codes "10.42.18.104")) (
                    field (codes "port") (num (pos 8443))
                      (field (codes "service") (str (codes "payment-api")) (end)))))
                (field (codes "timeout_ms") (num (pos 3500)) (end)))));
      parameter_hash =
          codes "sha256:d4e1a6c8901b2c3d4e5f60718293a4b5c6d7e8f90a1b2c3d4e5f6071829341c2";
      action_hash = codes "sha256:7c9e8f1b2a3d4e5f6a7b8c9d0e1f2a3b4c5d6e7f8a9b0c1d2e3f4a5b6c7d88f1";
      declared_risk = some RiskClass.high;
      true_risk = RiskClass.critical;
      decision = ProposalDecision.require_approval;
      decision_reason = some (
          codes
            "Capability CONTROLLED_EXPLOITATION carries Critical risk class; requires Two-Person Integrity approval.");
      evidence_refs =
          codes "sha256:a1b2c3d4e5f60718293a4b5c6d7e8f90a1b2c3d4e5f60718293a4b5c6d7e8f90" ∷ [];
      rationale =
          codes
            "Verify Spring Framework remote code execution PoC non-destructively in isolated container.";
      nonce = codes "c4b3a291f8e7d6c5b4a3928170e6f5d4";
      timestamp_unix = 1774022000;
      expires_at_unix = 1774022600;
    }
    ∷ record {
      proposal_id = codes "prp_01J9Y70A1B2C3D4E5F6G7H8J9L";
      mission_id = codes "mis_01J9Y70X9Y8Z7W6V5U4T3S2R1Q";
      parent_task_id = some (codes "tsk_01J9Y71M2N3P4Q5R6S7T8U9V0W");
      requesting_agent = codes "ReconAgent-01";
      capability_id = StandardCapability.tcp_connect;
      target = codes "10.42.18.9:443";
      raw_parameters =
          field (codes "port") (num (pos 443)) (field (codes "timeout_ms") (num (pos 2000)) (end));
      normalized_parameters =
          field (codes "port") (num (pos 443)) (field (codes "timeout_ms") (num (pos 2000)) (end));
      parameter_hash =
          codes "sha256:9a8b7c6d5e4f3a2b1c0d9e8f7a6b5c4d3e2f1a0b9c8d7e6f5a4b3c2d1e0f11aa";
      action_hash = codes "sha256:11223344556677889900aabbccddeeff00112233445566778899aabbccddeeff";
      declared_risk = some RiskClass.moderate;
      true_risk = RiskClass.moderate;
      decision = ProposalDecision.allow;
      decision_reason = some (
          codes "In-scope target with authorized Moderate capability; approved policy evaluation.");
      evidence_refs = [];
      rationale = codes "Confirm HTTPS handshake responsiveness on production ingress.";
      nonce = codes "e8d7c6b5a493827160f5e4d3c2b1a098";
      timestamp_unix = 1774021800;
      expires_at_unix = 1774022400;
    }
    ∷ record {
      proposal_id = codes "prp_01J9Y70A1B2C3D4E5F6G7H8J9M";
      mission_id = codes "mis_01J9Y70X9Y8Z7W6V5U4T3S2R1Q";
      parent_task_id = some (codes "tsk_01J9Y71M2N3P4Q5R6S7T8U9V0W");
      requesting_agent = codes "ReconAgent-01";
      capability_id = StandardCapability.port_scan;
      target = codes "10.42.18.1:22";
      raw_parameters =
          field (codes "port") (num (pos 22)) (field (codes "scan_type") (str (codes "SYN")) (end));
      normalized_parameters =
          field (codes "port") (num (pos 22)) (field (codes "scan_type") (str (codes "SYN")) (end));
      parameter_hash =
          codes "sha256:554433221100ffeeddccbbaa99887766554433221100ffeeddccbbaa99887766";
      action_hash = codes "sha256:ffeeddccbbaa99887766554433221100ffeeddccbbaa99887766554433221100";
      declared_risk = some RiskClass.moderate;
      true_risk = RiskClass.moderate;
      decision = ProposalDecision.deny;
      decision_reason = some (
          codes
            "Target 10.42.18.1 matches explicit exclusion rule (Default Gateway - PROTECTED). Scope Invariant: Exclusions strictly override inclusions.");
      evidence_refs = [];
      rationale = codes "Scan SSH management port on cluster default gateway.";
      nonce = codes "0102030405060708090a0b0c0d0e0f10";
      timestamp_unix = 1774021500;
      expires_at_unix = 1774022100;
    }
    ∷ []

abbrev pub sample_approvals : List Approval
sample_approvals =
    record {
      approval_id = codes "app_01J9Y72A3B4C5D6E7F8G9H0J1K";
      mission_id = codes "mis_01J9Y70X9Y8Z7W6V5U4T3S2R1Q";
      action_hash = codes "sha256:7c9e8f1b2a3d4e5f6a7b8c9d0e1f2a3b4c5d6e7f8a9b0c1d2e3f4a5b6c7d88f1";
      approver = codes "opr_01J9Y6Z8A7B6C5D4E3F2G1H0J";
      status = ApprovalStatus.pending;
      issued_at_unix = 1774022010;
      expires_at_unix = 1774022600;
      consumed_at_unix = none;
      rejection_reason = none;
    }
    ∷ []
