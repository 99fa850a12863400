-- ===== src/Fixtures/Settings.antt =====
-- frontend/src/api/mockData.ts: the settings of the sample data, as in the source.
use arka.Prelude.{codes, true, false, [], ◌∷◌}
use arka.Types.Settings.{
  LlmProviderConfigProviderId, LlmProviderConfigStatus, PlatformSettings, PlatformSettingsDensity,
  PlatformSettingsTheme, WorkerHealthNetworkContainment, WorkerHealthRuntimeProfile,
  WorkerHealthStatus,
}

abbrev pub sample_settings : PlatformSettings
sample_settings = record {
  theme = PlatformSettingsTheme.dark;
  density = PlatformSettingsDensity.compact;
  reduced_motion = false;
  providers =
      record {
        provider_id = LlmProviderConfigProviderId.anthropic;
        display_name = codes "Anthropic Claude (Gateway UDS)";
        model_identifier = codes "claude-3-5-sonnet-20241022";
        endpoint_url = codes "unix:/run/arka/gateway.sock";
        has_credential_enclave = true;
        status = LlmProviderConfigStatus.online;
        temperature = 2;
        max_context_tokens = 200000;
      }
      ∷ record {
        provider_id = LlmProviderConfigProviderId.openai;
        display_name = codes "OpenAI GPT-4o (Enclave Proxy)";
        model_identifier = codes "gpt-4o-2024-08-06";
        endpoint_url = codes "unix:/run/arka/gateway.sock";
        has_credential_enclave = true;
        status = LlmProviderConfigStatus.online;
        temperature = 2;
        max_context_tokens = 128000;
      }
      ∷ record {
        provider_id = LlmProviderConfigProviderId.ollama_local;
        display_name = codes "Ollama Local Mistral";
        model_identifier = codes "mistral-nemo:12b";
        endpoint_url = codes "http://127.0.0.1:11434";
        has_credential_enclave = false;
        status = LlmProviderConfigStatus.degraded;
        temperature = 1;
        max_context_tokens = 32000;
      }
      ∷ [];
  workers =
      record {
        worker_id = codes "arka-sbx-gvisor-l2-01";
        runtime_profile = WorkerHealthRuntimeProfile.gvisor_l2;
        status = WorkerHealthStatus.healthy;
        concurrency_active = 2;
        concurrency_limit = 8;
        network_containment = WorkerHealthNetworkContainment.isolated_default_deny;
      }
      ∷ record {
        worker_id = codes "arka-sbx-rootless-podman-01";
        runtime_profile = WorkerHealthRuntimeProfile.rootless_podman;
        status = WorkerHealthStatus.healthy;
        concurrency_active = 0;
        concurrency_limit = 4;
        network_containment = WorkerHealthNetworkContainment.isolated_default_deny;
      }
      ∷ [];
  default_mission_budget_usd = 250;
  default_tool_timeout_seconds = 45;
  hardware_token_enforcement = true;
  data_handling = record {
    dlp_masking_active = true;
    evidence_retention_days = 90;
    audit_chain_dual_signing = true;
  };
}
