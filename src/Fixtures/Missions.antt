-- ===== src/Fixtures/Missions.antt =====
-- frontend/src/api/mockData.ts: the missions and the emergency stop status of the sample data, as in the source.
use arka.Prelude.{codes, none, some, false, List, [], ◌∷◌}
use arka.Types.Core.{EmergencyStopStatus, Mission, MissionMode, MissionState}

abbrev pub sample_missions : List Mission
sample_missions =
    record {
      id = codes "mis_01J9Y70X9Y8Z7W6V5U4T3S2R1Q";
      name = codes "VPC-East Infrastructure Assessment";
      state = MissionState.active;
      scope_ref = codes "scope_vpc_east_2026_01";
      created_at_unix = 1774015200;
      updated_at_unix = 1774022400;
      created_by = codes "opr_01J9Y6Z8A7B6C5D4E3F2G1H0J";
      mode = MissionMode.authorized_professional;
      description = some (
          codes
            "Authorized penetration assessment of VPC-East Kubernetes cluster and payment API endpoints.");
    }
    ∷ record {
      id = codes "mis_01J9Y70X9Y8Z7W6V5U4T3S2R2B";
      name = codes "SSO Gateway Red Team Exercise";
      state = MissionState.paused;
      scope_ref = codes "scope_sso_lab_2026";
      created_at_unix = 1773990000;
      updated_at_unix = 1774010000;
      created_by = codes "opr_01J9Y6Z8A7B6C5D4E3F2G1H0J";
      mode = MissionMode.lab_ctf;
      description = some (
          codes
            "Controlled CTF laboratory assessment of OAuth/OIDC token exchange and PKCE validation.");
    }
    ∷ record {
      id = codes "mis_01J9Y70X9Y8Z7W6V5U4T3S2R3C";
      name = codes "Legacy DMZ Perimeter Audit";
      state = MissionState.completed;
      scope_ref = codes "scope_dmz_legacy";
      created_at_unix = 1773500000;
      updated_at_unix = 1773600000;
      created_by = codes "opr_01J9Y6Z8A7B6C5D4E3F2G1H0K";
      mode = MissionMode.authorized_professional;
      description =
          some (codes "Completed perimeter service enumeration and CVE-2023 vulnerability scan.");
    }
    ∷ []

abbrev pub sample_emergency_stop : EmergencyStopStatus
sample_emergency_stop = record {
  active = false;
  triggered_at_unix = none;
  triggered_by = none;
  reason = none;
  cleared_at_unix = some 1773900000;
  cleared_by = some (codes "opr_01J9Y6Z8A7B6C5D4E3F2G1H0J");
  clear_reason = some (codes "Post-incident review complete; all sandbox egress rules verified.");
}
