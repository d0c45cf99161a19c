-- ===== src/Config/Providing.antt =====
-- unigateway-config/src/admin/mutations.rs: the operations on providers with their base URLs;
-- `llm_providers::get_endpoint` is the parameter `get_endpoint`, an endpoint being its base URL.
use unigateway.Prelude.{
  ℕ, ◌+◌, Bool, true, Option, none, some, List, [], ◌∷◌, any, if◌then◌else◌, is_empty, unwrap_or,
  ok,
}
use unigateway.Prelude.Text.{Text, text_eq}
use unigateway.Prelude.Keyed.{update_first, upsert}
use unigateway.Config.Schema.{ProviderEntry, ProviderModelOptions, GatewayState}
use unigateway.Config.Admin.{
  provider_not_found, Done, fails, saved, synced, normalize_base_url, is_provider,
}

-- The place of the first entry that meets a test.
unfoldable pub position : {A : Type 0} → (A → Bool) → List A → ℕ
position p [] = 0
position p (x ∷ xs) = let rest = position p xs in if p x then 0 else rest + 1

module _ (get_endpoint : Text → Option Text) where
  -- A base URL that is the endpoint's default is stored as empty.
  unfoldable pub stored_url : Text → Text → Text
  unfolding text_eq normalize_base_url
  stored_url endpoint_id url =
      if is_empty endpoint_id then url else elim (get_endpoint endpoint_id) [
        | none ↦ url
        | some base_url ↦ if text_eq url (normalize_base_url base_url) then [] else url
      ]

  unfoldable pub updated_url : Option Text → ProviderEntry → ProviderEntry
  unfolding stored_url normalize_base_url
  updated_url none p = p
  updated_url (some url) p = record p {
    base_url = stored_url p.endpoint_id (normalize_base_url url);
  }

  unfoldable pub update_provider_by_name :
      Text → (base_url api_key default_model model_mapping : Option Text) → GatewayState → Done
  unfolding update_first updated_url
  update_provider_by_name name base_url api_key default_model model_mapping s =
      if any (is_provider name) s.config.file.providers
      then (
        ok tt,
        synced (
            saved
              (record s.config.file {
                providers =
                    update_first (is_provider name)
                      (λ p. record (updated_url base_url p) {
                        api_key = unwrap_or api_key p.api_key;
                        default_model = unwrap_or default_model p.default_model;
                        model_mapping = unwrap_or model_mapping p.model_mapping;
                      })
                      s.config.file.providers;
              })
              s),
      )
      else fails (provider_not_found name) s

  -- The new entry takes the place of the one of its name, whose index is returned.
  unfoldable pub create_provider_with_models :
      (name provider_type endpoint_id : Text)
      → Option Text
      → Text
      → ProviderModelOptions
      → GatewayState
      → ℕ × GatewayState
  unfolding upsert stored_url normalize_base_url position
  create_provider_with_models name provider_type endpoint_id base_url api_key options s =
      let entry : ProviderEntry = record {
        name = name;
        provider_type = provider_type;
        endpoint_id = endpoint_id;
        base_url =
            stored_url endpoint_id
              (elim base_url [ none ↦ [] | some url ↦ normalize_base_url url ]);
        api_key = api_key;
        default_model = unwrap_or options.default_model [];
        model_mapping = unwrap_or options.model_mapping [];
        is_enabled = true;
        metadata = unwrap_or options.metadata [];
      } in
      (
        position (is_provider name) s.config.file.providers,
        synced (
            saved
              (record s.config.file {
                providers = upsert (is_provider name) (λ p. entry) entry s.config.file.providers;
              })
              s),
      )

  unfoldable pub create_provider :
      (name provider_type endpoint_id : Text)
      → Option Text
      → Text
      → Option Text
      → GatewayState
      → ℕ × GatewayState
  unfolding create_provider_with_models
  create_provider name provider_type endpoint_id base_url api_key model_mapping s =
      create_provider_with_models name provider_type endpoint_id base_url api_key
        (record { default_model = none; model_mapping = model_mapping; metadata = none }) s
