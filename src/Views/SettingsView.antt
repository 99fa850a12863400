-- ===== src/Views/SettingsView.antt =====
-- frontend/src/components/settings/SettingsView.tsx: the sections of the settings, and the health test
-- of a provider. A timer is kept from its start to its end, under the provider that it names.
pub mod Health
use arka.Prelude.{
  ℕ, Bool, true, false, ◌==◌, Option, none, some, List, [], ◌∷◌, ◌++◌, Text, codes, map,
  if◌then◌else◌, to_string,
}
use arka.Types.Settings.{
  LlmProviderConfig, LlmProviderConfigProviderId, LlmProviderConfigStatus, PlatformSettings,
  WorkerHealth, WorkerHealthRuntimeProfile, WorkerHealthStatus,
}
use arka.Views.Badge.{Variant, success, warning, danger}

pub data Section : Type 0 where
  providers workers policy payload appearance : Section

pub record SettingsPanel : Type 0 where
  pub active_section : Section
  pub testing_provider : Option LlmProviderConfigProviderId
  -- `healthStatus`, the last entry of a provider first
  pub health_status : List (LlmProviderConfigProviderId × Text)
  -- the timers that run
  pub timers : List LlmProviderConfigProviderId

abbrev pub initial_settings : SettingsPanel
initial_settings = record {
  active_section = providers;
  testing_provider = none;
  health_status = [];
  timers = [];
}

abbrev pub provider_rank : LlmProviderConfigProviderId → ℕ
provider_rank LlmProviderConfigProviderId.anthropic = 0
provider_rank LlmProviderConfigProviderId.openai = 1
provider_rank LlmProviderConfigProviderId.ollama_local = 2
provider_rank LlmProviderConfigProviderId.mock_dev = 3

abbrev pub same_provider : LlmProviderConfigProviderId → LlmProviderConfigProviderId → Bool
same_provider a b = provider_rank a == provider_rank b

abbrev pub is_testing : Option LlmProviderConfigProviderId → LlmProviderConfigProviderId → Bool
is_testing none id = false
is_testing (some testing) id = same_provider testing id

abbrev pub online_text : Text
online_text = codes "Online (UDS socket responsive, latency: 1.1ms)"

-- `handleTestHealth`
unfoldable pub handle_test_health : LlmProviderConfigProviderId → SettingsPanel → SettingsPanel
handle_test_health id s = record s { testing_provider = some id; timers = s.timers ++ (id ∷ []) }

-- what its timer does
unfoldable pub test_ended : LlmProviderConfigProviderId → SettingsPanel → SettingsPanel
test_ended id s = record s {
  testing_provider = none;
  health_status = (id, online_text) ∷ s.health_status;
}

-- `healthStatus[id]`
unfoldable pub health_of :
    LlmProviderConfigProviderId → List (LlmProviderConfigProviderId × Text) → Option Text
health_of id [] = none
health_of id ((other, text) ∷ rest) =
    let later = health_of id rest in if same_provider other id then some text else later

abbrev status_variant : LlmProviderConfigStatus → Variant
status_variant LlmProviderConfigStatus.online = success
status_variant LlmProviderConfigStatus.degraded = warning
status_variant LlmProviderConfigStatus.disconnected = warning
status_variant LlmProviderConfigStatus.unconfigured = warning

pub record ProviderRow : Type 0 where
  pub display_name : Text
  pub variant : Variant
  pub status : LlmProviderConfigStatus
  pub is_enclave_secured : Bool
  pub model_identifier : Text
  pub endpoint_url : Text
  pub is_test_disabled : Bool
  pub test_label : Text
  pub health : Option Text

unfoldable pub provider_row : SettingsPanel → LlmProviderConfig → ProviderRow
unfolding health_of
provider_row s p = record {
  display_name = p.display_name;
  variant = status_variant p.status;
  status = p.status;
  is_enclave_secured = p.has_credential_enclave;
  model_identifier = p.model_identifier;
  endpoint_url = p.endpoint_url;
  is_test_disabled = is_testing s.testing_provider p.provider_id;
  test_label =
      if is_testing s.testing_provider p.provider_id
      then codes "Pinging socket..."
      else codes "Test Health";
  health = health_of p.provider_id s.health_status;
}

-- A worker's status stands on a green badge, whichever it is.
pub record WorkerRow : Type 0 where
  pub worker_id : Text
  pub variant : Variant
  pub status : WorkerHealthStatus
  pub runtime_profile : WorkerHealthRuntimeProfile
  pub concurrency : Text

unfoldable pub worker_row : WorkerHealth → WorkerRow
worker_row w = record {
  worker_id = w.worker_id;
  variant = success;
  status = w.status;
  runtime_profile = w.runtime_profile;
  concurrency = to_string w.concurrency_active ++ (codes "/" ++ to_string w.concurrency_limit);
}

pub data Pane : Type 0 where
  providers_pane : List ProviderRow → Pane
  workers_pane : List WorkerRow → Pane
  policy_pane : (default_mission_budget_usd default_tool_timeout_seconds : ℕ) → Pane
  -- the badge of the masking, and that of the signing, which is fixed
  payload_pane : Variant → Text → Text → Pane
  appearance_pane : Pane

unfoldable pub pane_of : SettingsPanel → PlatformSettings → Section → Pane
unfolding provider_row worker_row
pane_of s settings providers = providers_pane (map (provider_row s) settings.providers)
pane_of s settings workers = workers_pane (map worker_row settings.workers)
pane_of s settings policy =
    policy_pane settings.default_mission_budget_usd settings.default_tool_timeout_seconds
pane_of s settings payload =
    if settings.data_handling.dlp_masking_active
    then payload_pane success (codes "ACTIVE") (codes "ENFORCED (Ed25519)")
    else payload_pane danger (codes "DISABLED") (codes "ENFORCED (Ed25519)")
pane_of s settings appearance = appearance_pane

unfoldable pub settings_page : SettingsPanel → PlatformSettings → Pane
unfolding pane_of
settings_page s settings = pane_of s settings s.active_section
