-- ===== src/Types/Settings.antt =====
-- frontend/src/types/settings.ts: its types, field by field. An optional field is an `Option`, a union of
-- string literals a data type, a number a natural number (a risk score or a temperature counts tenths).
-- `data` is a reserved word here: that field is `payload`.
use arka.Prelude.{Text, Bool, ℕ, List}

pub data LlmProviderConfigProviderId : Type 0 where
  anthropic openai ollama_local mock_dev : LlmProviderConfigProviderId

pub data LlmProviderConfigStatus : Type 0 where
  online degraded disconnected unconfigured : LlmProviderConfigStatus

pub record LlmProviderConfig : Type 0 where
  pub provider_id : LlmProviderConfigProviderId
  pub display_name : Text
  pub model_identifier : Text
  pub endpoint_url : Text
  pub has_credential_enclave : Bool
  pub status : LlmProviderConfigStatus
  pub temperature : ℕ
  pub max_context_tokens : ℕ

pub data WorkerHealthRuntimeProfile : Type 0 where
  gvisor_l2 rootless_podman wasm_edge : WorkerHealthRuntimeProfile

pub data WorkerHealthStatus : Type 0 where
  healthy draining offline : WorkerHealthStatus

pub data WorkerHealthNetworkContainment : Type 0 where
  isolated_default_deny : WorkerHealthNetworkContainment

pub record WorkerHealth : Type 0 where
  pub worker_id : Text
  pub runtime_profile : WorkerHealthRuntimeProfile
  pub status : WorkerHealthStatus
  pub concurrency_active : ℕ
  pub concurrency_limit : ℕ
  pub network_containment : WorkerHealthNetworkContainment

pub data PlatformSettingsTheme : Type 0 where
  dark light system : PlatformSettingsTheme

pub data PlatformSettingsDensity : Type 0 where
  compact comfortable : PlatformSettingsDensity

pub record PlatformSettingsDataHandling : Type 0 where
  pub dlp_masking_active : Bool
  pub evidence_retention_days : ℕ
  pub audit_chain_dual_signing : Bool

pub record PlatformSettings : Type 0 where
  pub theme : PlatformSettingsTheme
  pub density : PlatformSettingsDensity
  pub reduced_motion : Bool
  pub providers : List LlmProviderConfig
  pub workers : List WorkerHealth
  pub default_mission_budget_usd : ℕ
  pub default_tool_timeout_seconds : ℕ
  pub hardware_token_enforcement : Bool
  pub data_handling : PlatformSettingsDataHandling
