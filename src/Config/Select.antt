-- ===== src/Config/Select.antt =====
-- unigateway-config/src/select.rs: what requests read of the configuration, and the counts that they write.
pub mod Order
pub mod Offers
use unigateway.Prelude.{
  ℕ, ◌+◌, ◌%◌, ◌^◌, Bool, true, false, not, ◌&&◌, ◌||◌, Option, none, some, List, [], ◌∷◌, find,
  keep, map, leb, if◌then◌else◌, is_empty, Result, ok, err, ◌==◌,
}
use unigateway.Prelude.Text.{Text, codes, text_eq}
use unigateway.Prelude.Sorting.{sort_by}
use unigateway.Prelude.Keyed.{update_first}
use unigateway.Config.Schema.{
  ServiceEntry, default_round_robin, ProviderEntry, BindingEntry, ApiKeyEntry, GatewayConfigFile,
  GatewayConfig, GatewayState, RequestStats, GatewayApiKey, ServiceProvider, AuthError, invalid_key,
  inactive_key,
}
use unigateway.Config.Admin.{is_api_key, is_service, saved}

abbrev pub unless_empty : Text → Option Text
unless_empty [] = none
unless_empty (c ∷ s) = some (c ∷ s)

unfoldable pub to_service_provider : ProviderEntry → ServiceProvider
to_service_provider p = record {
  name = p.name;
  provider_type = p.provider_type;
  endpoint_id = unless_empty p.endpoint_id;
  base_url = unless_empty p.base_url;
  api_key = some p.api_key;
  default_model = unless_empty p.default_model;
  model_mapping = unless_empty p.model_mapping;
}

unfoldable pub find_gateway_api_key : Text → GatewayState → Option GatewayApiKey
find_gateway_api_key raw_key s = elim (find (is_api_key raw_key) s.config.file.api_keys) [
  | none ↦ none
  | some k ↦ some (record {
    key = k.key;
    service_id = k.service_id;
    quota_limit = k.quota_limit;
    used_quota = k.used_quota;
    is_active = if k.is_active then 1 else 0;
    qps_limit = k.qps_limit;
    concurrency_limit = k.concurrency_limit;
  })
]

unfoldable pub get_routing_strategy : Text → GatewayState → Text
get_routing_strategy service_id s = elim (find (is_service service_id) s.config.file.services) [
  | none ↦ default_round_robin
  | some service ↦ service.routing_strategy
]

-- The provider of a binding: enabled, of the protocol if one is asked for, and of the name.
abbrev pub serves : Text → Text → ProviderEntry → Bool
serves protocol name p =
    p.is_enabled && ((is_empty protocol || text_eq p.provider_type protocol) && text_eq p.name name)

abbrev pub push_found : Option ProviderEntry → List ServiceProvider → List ServiceProvider
unfolding to_service_provider
push_found none later = later
push_found (some p) later = to_service_provider p ∷ later

unfoldable pub providers_of : Text → List ProviderEntry → List BindingEntry → List ServiceProvider
unfolding push_found
providers_of protocol providers [] = []
providers_of protocol providers (b ∷ bindings) =
    push_found (find (serves protocol b.provider_name) providers)
      (providers_of protocol providers bindings)

abbrev pub by_priority : BindingEntry → BindingEntry → Bool
by_priority a b = leb a.priority b.priority

-- The bindings of a service, in the order of their priorities.
unfoldable pub bindings_of : Text → List BindingEntry → List BindingEntry
unfolding text_eq sort_by
bindings_of service_id bindings =
    sort_by by_priority (keep (λ b. text_eq b.service_id service_id) bindings)

unfoldable pub select_all_providers_for_service :
    (service_id protocol : Text) → GatewayState → List ServiceProvider
unfolding providers_of bindings_of
select_all_providers_for_service service_id protocol s =
    providers_of protocol s.config.file.providers (bindings_of service_id s.config.file.bindings)

unfoldable pub increment_used_quota : Text → GatewayState → GatewayState
unfolding update_first
increment_used_quota key s = elim (find (is_api_key key) s.config.file.api_keys) [
  | none ↦ s
  | some k ↦
      saved
        (record s.config.file {
          api_keys =
              update_first (is_api_key key)
                (λ a. record a { used_quota = (a.used_quota + 1) % 2 ^ 64 }) s.config.file.api_keys;
        })
        s
]

abbrev pub counted : Text → RequestStats → RequestStats
counted endpoint stats =
    if text_eq endpoint (codes "/v1/chat/completions")
    then record stats { openai_total = (stats.openai_total + 1) % 2 ^ 64 }
    else if text_eq endpoint (codes "/v1/messages")
    then record stats { anthropic_total = (stats.anthropic_total + 1) % 2 ^ 64 }
    else if text_eq endpoint (codes "/v1/embeddings")
    then record stats { embeddings_total = (stats.embeddings_total + 1) % 2 ^ 64 }
    else stats

unfoldable pub record_stat : Text → GatewayState → GatewayState
record_stat endpoint s = record s {
  config = record s.config {
    request_stats =
        counted endpoint
          (record s.config.request_stats { total = (s.config.request_stats.total + 1) % 2 ^ 64 });
  };
}

unfoldable pub metrics_snapshot : GatewayState → ℕ × ℕ × ℕ × ℕ
metrics_snapshot s = (
  s.config.request_stats.total, s.config.request_stats.openai_total,
  s.config.request_stats.anthropic_total, s.config.request_stats.embeddings_total,
)
