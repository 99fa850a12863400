-- ===== src/Types/AttackSurface.antt =====
-- frontend/src/types/attackSurface.ts: its types, field by field. An optional field is an `Option`, a union of
-- string literals a data type, a number a natural number (a risk score or a temperature counts tenths).
-- `data` is a reserved word here: that field is `payload`.
use arka.Prelude.{Text, ℕ, List, Option}

pub data ScopeStatus : Type 0 where
  authorized_in_scope discovered_unauthorized hard_excluded : ScopeStatus

pub data DiscoveredAssetOpenPortsProtocol : Type 0 where
  tcp udp : DiscoveredAssetOpenPortsProtocol

pub data DiscoveredAssetOpenPortsState : Type 0 where
  opened filtered closed : DiscoveredAssetOpenPortsState

pub record DiscoveredAssetOpenPorts : Type 0 where
  pub port : ℕ
  pub protocol : DiscoveredAssetOpenPortsProtocol
  pub service : Text
  pub state : DiscoveredAssetOpenPortsState
  pub banner : Option Text

pub data DiscoveredAssetSensitivity : Type 0 where
  public_dmz confidential_internal restricted_hsm : DiscoveredAssetSensitivity

pub record DiscoveredAsset : Type 0 where
  pub id : Text
  pub target : Text
  pub scope_status : ScopeStatus
  pub open_ports : List DiscoveredAssetOpenPorts
  pub fingerprinted_technologies : List Text
  pub sensitivity : DiscoveredAssetSensitivity
  pub first_discovered_unix : ℕ
  pub last_observed_unix : ℕ
  pub originating_agent : Text
  pub originating_proposal_id : Text
  pub evidence_ref : Option Text
