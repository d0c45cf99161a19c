-- ===== src/Config/Operations.antt =====
-- The operations of unigateway-config/src/admin and select.rs that change the configuration, as
-- values, and a sequence of them, each with its locks taken and released before the next begins.
use unigateway.Prelude.{ℕ, Option, List, [], ◌∷◌}
use unigateway.Prelude.Text.{Text}
use unigateway.Config.Schema.{GatewayState, ProviderModelOptions}
use unigateway.Config.Admin.{
  set_config_value, set_default_mode, create_service, set_service_routing_strategy,
  delete_provider_by_name, bind_provider_to_service_with_priority, set_provider_model_options,
}
use unigateway.Config.Providing.{update_provider_by_name, create_provider_with_models}
use unigateway.Config.ApiKeys.{create_api_key, rebind_api_key_service}
use unigateway.Config.Select.{increment_used_quota, record_stat}

pub data Operation : Type 0 where
  set_value : (key value : Text) → Operation
  set_mode : (mode_id : Text) → Operation
  add_service : (id name : Text) → Operation
  set_strategy : (service_id strategy : Text) → Operation
  update_provider :
      (name : Text) → (base_url api_key default_model model_mapping : Option Text) → Operation
  delete_provider : (name : Text) → Operation
  add_provider :
      (name provider_type endpoint_id : Text)
      → (base_url : Option Text) → (api_key : Text) → (options : ProviderModelOptions) → Operation
  bind_provider : (service_id : Text) → (provider_id priority : ℕ) → Operation
  set_models : (provider_id : ℕ) → (options : ProviderModelOptions) → Operation
  add_api_key :
      (key service_id : Text) → (quota_limit qps_limit concurrency_limit : Option ℕ) → Operation
  rebind_api_key : (key service_id : Text) → Operation
  use_quota : (key : Text) → Operation
  count_request : (endpoint : Text) → Operation

module _ (get_endpoint : Text → Option Text) where
  -- The state after an operation, whether it fails or not.
  unfoldable pub run_one : Operation → GatewayState → GatewayState
  unfolding set_config_value set_default_mode create_service set_service_routing_strategy
      delete_provider_by_name bind_provider_to_service_with_priority set_provider_model_options
      update_provider_by_name create_provider_with_models create_api_key rebind_api_key_service
      increment_used_quota record_stat
  run_one (set_value key value) s = (set_config_value key value s).1
  run_one (set_mode mode_id) s = (set_default_mode mode_id s).1
  run_one (add_service id name) s = create_service id name s
  run_one (set_strategy service_id strategy) s =
      (set_service_routing_strategy service_id strategy s).1
  run_one (update_provider name base_url api_key default_model model_mapping) s =
      (update_provider_by_name get_endpoint name base_url api_key default_model model_mapping s).1
  run_one (delete_provider name) s = (delete_provider_by_name name s).1
  run_one (add_provider name provider_type endpoint_id base_url api_key options) s =
      (create_provider_with_models get_endpoint name provider_type endpoint_id base_url api_key
        options s).1
  run_one (bind_provider service_id provider_id priority) s =
      (bind_provider_to_service_with_priority service_id provider_id priority s).1
  run_one (set_models provider_id options) s = (set_provider_model_options provider_id options s).1
  run_one (add_api_key key service_id quota_limit qps_limit concurrency_limit) s =
      create_api_key key service_id quota_limit qps_limit concurrency_limit s
  run_one (rebind_api_key key service_id) s = (rebind_api_key_service key service_id s).1
  run_one (use_quota key) s = increment_used_quota key s
  run_one (count_request endpoint) s = record_stat endpoint s

  unfoldable pub run_all : List Operation → GatewayState → GatewayState
  unfolding run_one
  run_all [] s = s
  run_all (o ∷ operations) s = run_all operations (run_one o s)
