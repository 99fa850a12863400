-- ===== src/Views/SettingsView/Health.antt =====
-- frontend/src/components/settings/SettingsView.tsx: what a health test can report.
use arka.Prelude.{
  ◌≡◌, ◌≢◌, refl, ◌⊎◌, inl, inr, Bool-cases, true, none, some, List, [], ◌∷◌, ◌++◌, All, Text,
}
use arka.Types.Settings.{LlmProviderConfig, LlmProviderConfigProviderId}
use arka.Views.SettingsView.{
  SettingsPanel, Section, initial_settings, handle_test_health, test_ended, health_of, online_text,
  provider_row, is_testing, same_provider,
}

-- What happens to the panel: the operator presses a button, or a timer ends.
pub data Step : SettingsPanel → SettingsPanel → Type 0 where
  section_pressed :
      (s : SettingsPanel) (section : Section) → Step s (record s { active_section = section })
  test_pressed :
      (s : SettingsPanel) (p : LlmProviderConfig)
      → is_testing s.testing_provider p.provider_id ≢ true
      → Step s (handle_test_health p.provider_id s)
  timer_ended :
      (s : SettingsPanel) (id : LlmProviderConfigProviderId)
      (before after : List LlmProviderConfigProviderId)
      → s.timers ≡ before ++ (id ∷ after)
      → Step s (test_ended id (record s { timers = before ++ after }))

pub data Reach : SettingsPanel → Type 0 where
  mounted : Reach initial_settings
  next : {s t : SettingsPanel} → Reach s → Step s t → Reach t

Reported : SettingsPanel → Type 0
Reported s = All (λ e. e.1 ≡ online_text) s.health_status

Step-Reported : {s t : SettingsPanel} → Step s t → Reported s → Reported t
unfolding Reported handle_test_health test_ended
Step-Reported (section_pressed s section) h = h
Step-Reported (test_pressed s p e) h = h
Step-Reported (timer_ended s id before after e) h = (refl, h)

Reach-Reported : {s : SettingsPanel} → Reach s → Reported s
unfolding Reported
Reach-Reported mounted = tt
Reach-Reported (next r st) = Step-Reported st (Reach-Reported r)

health_of-online :
    (id : LlmProviderConfigProviderId) (entries : List (LlmProviderConfigProviderId × Text))
    → All (λ e. e.1 ≡ online_text) entries
    → (health_of id entries ≡ none) ⊎ (health_of id entries ≡ some online_text)
unfolding health_of
health_of-online id [] h = inl refl
health_of-online id ((other, text) ∷ rest) (h, t) = elim (Bool-cases (same_provider other id)) [
  | inl e ↦ inr (rw (e, h) refl)
  | inr e ↦ rw e (health_of-online id rest t)
]

-- Whatever the status of a provider, a health test that was pressed can only report it as online:
-- there is no other report beside its row.
pub Reach-health :
    {s : SettingsPanel} (p : LlmProviderConfig)
    → Reach s
    → ((provider_row s p).health ≡ none) ⊎ ((provider_row s p).health ≡ some online_text)
unfolding provider_row
Reach-health {s} p r =
    health_of-online p.provider_id s.health_status (unfold Reported in Reach-Reported r)
