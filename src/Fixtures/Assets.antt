-- ===== src/Fixtures/Assets.antt =====
-- frontend/src/api/mockData.ts: the assets of the sample data, as in the source.
use arka.Prelude.{codes, none, some, List, [], ◌∷◌}
use arka.Types.AttackSurface.{
  DiscoveredAsset, DiscoveredAssetOpenPortsProtocol, DiscoveredAssetOpenPortsState,
  DiscoveredAssetSensitivity, ScopeStatus,
}

abbrev pub sample_assets : List DiscoveredAsset
sample_assets =
    record {
      id = codes "ast_01J9Y73X4Y5Z6W7V8U9T0S1R2A";
      target = codes "10.42.18.104";
      scope_status = ScopeStatus.authorized_in_scope;
      open_ports =
          record {
            port = 80;
            protocol = DiscoveredAssetOpenPortsProtocol.tcp;
            service = codes "http";
            state = DiscoveredAssetOpenPortsState.opened;
            banner = some (codes "nginx/1.24.0");
          }
          ∷ record {
            port = 443;
            protocol = DiscoveredAssetOpenPortsProtocol.tcp;
            service = codes "https";
            state = DiscoveredAssetOpenPortsState.opened;
            banner = some (codes "nginx/1.24.0 (mTLS)");
          }
          ∷ record {
            port = 8443;
            protocol = DiscoveredAssetOpenPortsProtocol.tcp;
            service = codes "spring-admin";
            state = DiscoveredAssetOpenPortsState.opened;
            banner = some (codes "Spring Boot Actuator 3.2.1");
          }
          ∷ [];
      fingerprinted_technologies =
          codes "Nginx 1.24.0"
          ∷ codes "Spring Boot 3.2.1"
          ∷ codes "OpenJDK 21"
          ∷ codes "Kubernetes Pod"
          ∷ [];
      sensitivity = DiscoveredAssetSensitivity.restricted_hsm;
      first_discovered_unix = 1774016000;
      last_observed_unix = 1774022000;
      originating_agent = codes "ReconAgent-01";
      originating_proposal_id = codes "prp_01J9Y70A1B2C3D4E5F6G7H8J9L";
      evidence_ref = some (codes "evd_01J9Y75A1B2C3D4E5F6G7H8J9A");
    }
    ∷ record {
      id = codes "ast_01J9Y73X4Y5Z6W7V8U9T0S1R2B";
      target = codes "10.42.18.9";
      scope_status = ScopeStatus.authorized_in_scope;
      open_ports =
          record {
            port = 443;
            protocol = DiscoveredAssetOpenPortsProtocol.tcp;
            service = codes "https";
            state = DiscoveredAssetOpenPortsState.opened;
            banner = some (codes "envoy/1.28");
          }
          ∷ record {
            port = 9092;
            protocol = DiscoveredAssetOpenPortsProtocol.tcp;
            service = codes "kafka";
            state = DiscoveredAssetOpenPortsState.opened;
            banner = some (codes "Apache Kafka Broker");
          }
          ∷ [];
      fingerprinted_technologies =
          codes "Envoy Proxy" ∷ codes "Apache Kafka" ∷ codes "Alpine Linux" ∷ [];
      sensitivity = DiscoveredAssetSensitivity.confidential_internal;
      first_discovered_unix = 1774015800;
      last_observed_unix = 1774021900;
      originating_agent = codes "ReconAgent-01";
      originating_proposal_id = codes "prp_01J9Y70A1B2C3D4E5F6G7H8J9L";
      evidence_ref = none;
    }
    ∷ record {
      id = codes "ast_01J9Y73X4Y5Z6W7V8U9T0S1R2C";
      target = codes "10.42.18.254";
      scope_status = ScopeStatus.hard_excluded;
      open_ports =
          record {
            port = 10250;
            protocol = DiscoveredAssetOpenPortsProtocol.tcp;
            service = codes "kubelet-api";
            state = DiscoveredAssetOpenPortsState.filtered;
            banner = none;
          }
          ∷ [];
      fingerprinted_technologies = codes "Kubernetes Master / Control Plane" ∷ [];
      sensitivity = DiscoveredAssetSensitivity.restricted_hsm;
      first_discovered_unix = 1774016200;
      last_observed_unix = 1774016200;
      originating_agent = codes "ReconAgent-01";
      originating_proposal_id = codes "prp_01J9Y70A1B2C3D4E5F6G7H8J9L";
      evidence_ref = none;
    }
    ∷ record {
      id = codes "ast_01J9Y73X4Y5Z6W7V8U9T0S1R2D";
      target = codes "172.28.14.88";
      scope_status = ScopeStatus.discovered_unauthorized;
      open_ports =
          record {
            port = 5432;
            protocol = DiscoveredAssetOpenPortsProtocol.tcp;
            service = codes "postgresql";
            state = DiscoveredAssetOpenPortsState.opened;
            banner = some (codes "PostgreSQL 15.4");
          }
          ∷ [];
      fingerprinted_technologies = codes "PostgreSQL 15.4" ∷ codes "Ubuntu 22.04" ∷ [];
      sensitivity = DiscoveredAssetSensitivity.confidential_internal;
      first_discovered_unix = 1774020000;
      last_observed_unix = 1774020000;
      originating_agent = codes "ReconAgent-01";
      originating_proposal_id = codes "prp_01J9Y70A1B2C3D4E5F6G7H8J9L";
      evidence_ref = none;
    }
    ∷ []
