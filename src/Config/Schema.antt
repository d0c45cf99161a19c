-- ===== src/Config/Schema.antt =====
-- unigateway-config/src/schema.rs and the state of lib.rs. An `i64` is its distance from the least
-- one, 2^63 being 0, and an `f64` is its bits.
use unigateway.Prelude.{ℕ, ◌^◌, Bool, false, Option, List, []}
use unigateway.Prelude.Text.{Text, codes}
use unigateway.Prelude.Dict.{Dict}

abbrev pub zero_i64 : ℕ
zero_i64 = 2 ^ 63

pub record GatewayPreferences : Type 0 where
  pub default_mode : Text

pub record ServiceEntry : Type 0 where
  pub id : Text
  pub name : Text
  pub routing_strategy : Text

abbrev pub default_round_robin : Text
default_round_robin = codes "round_robin"

pub record ProviderEntry : Type 0 where
  pub name : Text
  pub provider_type : Text
  pub endpoint_id : Text
  pub base_url : Text
  pub api_key : Text
  pub default_model : Text
  pub model_mapping : Text
  pub is_enabled : Bool
  pub metadata : Dict Text

pub record ProviderModelOptions : Type 0 where
  pub default_model : Option Text
  pub model_mapping : Option Text
  pub metadata : Option (Dict Text)

pub record BindingEntry : Type 0 where
  pub service_id : Text
  pub provider_name : Text
  pub priority : ℕ

pub record ApiKeyEntry : Type 0 where
  pub key : Text
  pub service_id : Text
  pub quota_limit : Option ℕ
  pub used_quota : ℕ
  pub is_active : Bool
  pub qps_limit : Option ℕ
  pub concurrency_limit : Option ℕ

pub record GatewayConfigFile : Type 0 where
  pub preferences : GatewayPreferences
  pub services : List ServiceEntry
  pub providers : List ProviderEntry
  pub bindings : List BindingEntry
  pub api_keys : List ApiKeyEntry

abbrev pub default_file : GatewayConfigFile
default_file = record {
  preferences = record { default_mode = [] };
  services = [];
  providers = [];
  bindings = [];
  api_keys = [];
}

pub record RequestStats : Type 0 where
  pub total : ℕ
  pub openai_total : ℕ
  pub anthropic_total : ℕ
  pub embeddings_total : ℕ

pub record GatewayConfig : Type 0 where
  pub file : GatewayConfigFile
  pub request_stats : RequestStats
  pub dirty : Bool

abbrev pub default_config : GatewayConfig
default_config = record {
  file = default_file;
  request_stats = record { total = 0; openai_total = 0; anthropic_total = 0; embeddings_total = 0 };
  dirty = false;
}

-- `GatewayState`: the configuration, and how often the core has been asked to take it over.
pub record GatewayState : Type 0 where
  pub config : GatewayConfig
  pub core_syncs : ℕ

abbrev pub new_state : GatewayState
new_state = record { config = default_config; core_syncs = 0 }

pub record GatewayApiKey : Type 0 where
  pub key : Text
  pub service_id : Text
  pub quota_limit : Option ℕ
  pub used_quota : ℕ
  pub is_active : ℕ
  pub qps_limit : Option ℕ
  pub concurrency_limit : Option ℕ

pub record ServiceProvider : Type 0 where
  pub name : Text
  pub provider_type : Text
  pub endpoint_id : Option Text
  pub base_url : Option Text
  pub api_key : Option Text
  pub default_model : Option Text
  pub model_mapping : Option Text

pub data AuthError : Type 0 where
  invalid_key inactive_key : AuthError
