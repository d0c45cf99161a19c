-- ===== src/Config/Runs.antt =====
-- unigateway-config/src/admin: the API keys stay consistent, and with them all of the
-- configuration, after any sequence of operations.
use unigateway.Prelude.{
  ℕ, Bool, true, false, Option, none, some, List, [], ◌∷◌, find, ◌+◌, ◌%◌, ◌^◌, get_elem?,
  if◌then◌else◌, ok,
}
use unigateway.Prelude.Text.{Text, text_eq, text_eq_iff}
use unigateway.Prelude.Keyed.{update_first, Unique, Unique-update, Unique-upsert}
use mathlib.Core.Path.{refl, sym}
use unigateway.Config.Schema.{ApiKeyEntry, GatewayState}
use unigateway.Config.Admin.{
  is_api_key, provider_name_at, bind_provider_to_service_with_priority, AdminError, fails, saved,
}
use unigateway.Config.ApiKeys.{create_api_key, rebound, rebind_api_key_service}
use unigateway.Config.Select.{increment_used_quota}
use unigateway.Config.Operations.{
  Operation, set_value, set_mode, add_service, set_strategy, update_provider, delete_provider,
  add_provider, bind_provider, set_models, add_api_key, rebind_api_key, use_quota, count_request,
  run_one, run_all,
}
use unigateway.Config.Consistency.{
  Kept, text_eq_sym, set_config_value-Keeps, set_default_mode-Keeps, create_service-Kept,
  record_stat-Kept, set_service_routing_strategy-Keeps, Consistent, Keeps,
}
use unigateway.Config.Providers.{
  set_provider_model_options-Keeps, update_provider_by_name-Keeps, create_provider_with_models-Kept,
  delete_provider_by_name-Keeps, found-any, bind_found-Keeps, named-any,
}

-- A change of the API keys that leaves no two of them with one key.
keyed-Kept :
    (s : GatewayState) (ks : List ApiKeyEntry)
    → (Unique text_eq (λ (a : ApiKeyEntry). a.key) s.config.file.api_keys
        → Unique text_eq (λ (a : ApiKeyEntry). a.key) ks)
    → Kept s (saved (record s.config.file { api_keys = ks }) s)
keyed-Kept s ks unique c = record {
  services = c.services;
  providers = c.providers;
  bindings = c.bindings;
  api_keys = unique c.api_keys;
  bound = c.bound;
}

create_api_key-Kept :
    (key service_id : Text) (quota_limit qps_limit concurrency_limit : Option ℕ) (s : GatewayState)
    → Kept s (create_api_key key service_id quota_limit qps_limit concurrency_limit s)
unfolding create_api_key
create_api_key-Kept key service_id quota_limit qps_limit concurrency_limit s = keyed-Kept s _ (
    Unique-upsert text_eq (λ (a : ApiKeyEntry). a.key) text_eq_sym key _
      (λ a h. sym ((text_eq_iff a.key key).0 h)) _ refl s.config.file.api_keys)

rebound-Kept :
    (service_id : Text) (a : ApiKeyEntry) (s : GatewayState) → Kept s (rebound service_id a s)
rebound-Kept service_id a s =
    elim (text_eq a.service_id service_id)
      as (λ same. Kept s (
        if same
        then s
        else saved
            (record s.config.file {
              api_keys =
                  update_first (is_api_key a.key) (λ b. record b { service_id = service_id })
                    s.config.file.api_keys;
            })
            s)) [
              | true ↦ λ c. c
              | false ↦ keyed-Kept s _ (
                  Unique-update text_eq (λ (b : ApiKeyEntry). b.key) _ _ (λ b _. refl)
                    s.config.file.api_keys)
            ]

if_found-Keeps :
    (b : Bool) (e f : AdminError) (s : GatewayState) (found : Option ApiKeyEntry)
    (g : ApiKeyEntry → GatewayState)
    → ((a : ApiKeyEntry) → Kept s (g a))
    → Keeps s (if b then elim found [ none ↦ fails e s | some a ↦ (ok tt, g a) ] else fails f s)
if_found-Keeps true e f s none g h = record { kept = λ c. c }
if_found-Keeps true e f s (some a) g h = record { kept = h a }
if_found-Keeps false e f s found g h = record { kept = λ c. c }

rebind_api_key_service-Keeps :
    (key service_id : Text) (s : GatewayState) → Keeps s (rebind_api_key_service key service_id s)
unfolding rebind_api_key_service
rebind_api_key_service-Keeps key service_id s =
    if_found-Keeps _ _ _ s _ _ (λ a. rebound-Kept service_id a s)

increment_used_quota-Kept : (key : Text) (s : GatewayState) → Kept s (increment_used_quota key s)
unfolding increment_used_quota
increment_used_quota-Kept key s =
    elim (find (is_api_key key) s.config.file.api_keys)
      as (λ found. Kept s (elim found [
        | none ↦ s
        | some k ↦
            saved
              (record s.config.file {
                api_keys =
                    update_first (is_api_key key)
                      (λ a. record a { used_quota = (a.used_quota + 1) % 2 ^ 64 })
                      s.config.file.api_keys;
              })
              s
      ])) [
        | none ↦ λ c. c
        | some k ↦ keyed-Kept s _ (
            Unique-update text_eq (λ (a : ApiKeyEntry). a.key) _ _ (λ a _. refl)
              s.config.file.api_keys)
      ]

module _ (get_endpoint : Text → Option Text) where
  run_one-Kept : (o : Operation) (s : GatewayState) → Kept s (run_one get_endpoint o s)
  unfolding run_one bind_provider_to_service_with_priority provider_name_at
  run_one-Kept (set_value key value) s = (set_config_value-Keeps key value s).kept
  run_one-Kept (set_mode mode_id) s = (set_default_mode-Keeps mode_id s).kept
  run_one-Kept (add_service id name) s = create_service-Kept id name s
  run_one-Kept (set_strategy service_id strategy) s =
      (set_service_routing_strategy-Keeps service_id strategy s).kept
  run_one-Kept (update_provider name base_url api_key default_model model_mapping) s =
      (update_provider_by_name-Keeps get_endpoint name base_url api_key default_model model_mapping
        s).kept
  run_one-Kept (delete_provider name) s = (delete_provider_by_name-Keeps name s).kept
  run_one-Kept (add_provider name provider_type endpoint_id base_url api_key options) s =
      create_provider_with_models-Kept get_endpoint name provider_type endpoint_id base_url api_key
        options s
  run_one-Kept (bind_provider service_id provider_id priority) s =
      (bind_found-Keeps (provider_name_at provider_id s) service_id provider_id priority s (
        named-any s.config.file.providers (get_elem? s.config.file.providers provider_id)
          (found-any provider_id s.config.file.providers))).kept
  run_one-Kept (set_models provider_id options) s =
      (set_provider_model_options-Keeps provider_id options s).kept
  run_one-Kept (add_api_key key service_id quota_limit qps_limit concurrency_limit) s =
      create_api_key-Kept key service_id quota_limit qps_limit concurrency_limit s
  run_one-Kept (rebind_api_key key service_id) s =
      (rebind_api_key_service-Keeps key service_id s).kept
  run_one-Kept (use_quota key) s = increment_used_quota-Kept key s
  run_one-Kept (count_request endpoint) s = record_stat-Kept endpoint s

  -- Whatever sequence of operations is run on a consistent configuration, each finished before
  -- the next begins and some perhaps failing, the configuration is consistent after it: no two
  -- services have one id, no two providers one name, no two API keys one key, no two bindings one
  -- service and provider, and every binding names a provider that exists.
  pub run_all-Consistent :
      (operations : List Operation) (s : GatewayState)
      → Consistent s.config.file
      → Consistent (run_all get_endpoint operations s).config.file
  unfolding run_all
  run_all-Consistent [] s c = c
  run_all-Consistent (o ∷ operations) s c =
      run_all-Consistent operations (run_one get_endpoint o s) (run_one-Kept o s c)
