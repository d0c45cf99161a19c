-- ===== src/Core/Engine.antt =====
-- unigateway-core/src/engine/mod.rs: the engine's state and the operations on it. A `HashMap` is an
-- association list, and the locks make each operation one step.
pub mod Removal
use unigateway.Prelude.{
  ℕ, Bool, true, false, not, Option, none, some, List, [], ◌∷◌, ◌++◌, map, length, find, keep,
  if◌then◌else◌, unwrap_or, Result, ok, err, ◌>>=◌,
}
use unigateway.Prelude.Text.{Text, codes, text_eq, text_le, starts_with}
use unigateway.Prelude.Dict.{Dict, lookup, insert, remove, extend, or_insert}
use unigateway.Prelude.Sorting.{sort_by}
use unigateway.Core.Error.{GatewayError, invalid_request}
use unigateway.Core.Retry.{LoadBalancingStrategy, RetryPolicy}
use unigateway.Core.Aimd.{AdaptiveConcurrency, AdaptiveConcurrencyConfig, new}
use unigateway.Core.Capabilities.{resolve_capabilities, inject_metadata}
use unigateway.Core.Headers.{merge_forward_allowlists}
use unigateway.Core.Pool.{Endpoint, ProviderPool, ExecutionTarget, DriverEndpointContext}
use unigateway.Core.Routing.{
  ExecutionSnapshot, ordered_endpoints, get_pool, build_execution_snapshot,
}
use unigateway.Core.Routing.Feedback.{RoutingFeedback}

pub record EngineState : Type 0 where
  pub pools : Dict ProviderPool
  pub rr_counters : Dict ℕ
  pub aimd_states : Dict AdaptiveConcurrency
  pub routing_feedback_provider : Option (Text → RoutingFeedback)
  pub default_retry_policy : RetryPolicy
  pub default_timeout : Option ℕ
  pub aimd_config : AdaptiveConcurrencyConfig

unfoldable pub upsert_pool : ProviderPool → EngineState → EngineState
unfolding insert
upsert_pool p s = record s { pools = insert p.pool_id p s.pools }

-- `retain(|bucket, _| !bucket.starts_with(prefix))`
unfoldable pub retain_other_buckets : Text → Dict ℕ → Dict ℕ
unfolding starts_with
retain_other_buckets prefix = keep (λ entry. not (starts_with entry.0 prefix))

abbrev pub bucket_prefix : Text → Text
bucket_prefix pool_id = codes "pool:" ++ (pool_id ++ codes ":")

unfoldable pub remove_pool : Text → EngineState → EngineState
unfolding remove retain_other_buckets
remove_pool pool_id s = record s {
  pools = remove pool_id s.pools;
  rr_counters = retain_other_buckets (bucket_prefix pool_id) s.rr_counters;
}

pub record PoolSummary : Type 0 where
  pub pool_id : Text
  pub endpoint_count : ℕ
  pub load_balancing : LoadBalancingStrategy
  pub metadata : Dict Text

abbrev summary : Text × ProviderPool → PoolSummary
summary (id, p) = record {
  pool_id = p.pool_id;
  endpoint_count = length p.endpoints;
  load_balancing = p.load_balancing;
  metadata = p.metadata;
}

unfoldable pub list_pools : EngineState → List PoolSummary
unfolding sort_by text_le
list_pools s = sort_by (λ l r. text_le l.pool_id r.pool_id) (map summary s.pools)

-- The first endpoint of the id, with its metadata extended; `none` if there is none.
unfoldable pub extend_endpoint : Text → Dict Text → List Endpoint → Option (List Endpoint)
unfolding text_eq extend
extend_endpoint id metadata [] = none
extend_endpoint id metadata (e ∷ es) =
    let rest = extend_endpoint id metadata es in
    if text_eq e.endpoint_id id
    then some (record e { metadata = extend e.metadata metadata } ∷ es)
    else elim rest [ none ↦ none | some es' ↦ some (e ∷ es') ]

abbrev endpoint_missing : Text → Text → GatewayError
endpoint_missing endpoint_id pool_id =
    invalid_request (codes "endpoint " ++ (endpoint_id ++ (codes " not found in pool " ++ pool_id)))

unfoldable pub update_endpoint_metadata :
    Text → Text → Dict Text → EngineState → Result EngineState GatewayError
unfolding lookup insert extend_endpoint
update_endpoint_metadata pool_id endpoint_id metadata s = do
  p ← get_pool pool_id s.pools
  elim (extend_endpoint endpoint_id metadata p.endpoints) [
    | none ↦ err (endpoint_missing endpoint_id pool_id)
    | some es ↦ ok (record s { pools = insert pool_id (record p { endpoints = es }) s.pools })
  ]

unfoldable pub update_pool_config :
    Text
    → Option LoadBalancingStrategy
    → Option RetryPolicy
    → EngineState
    → Result EngineState GatewayError
unfolding lookup insert
update_pool_config pool_id load_balancing retry_policy s = do
  p ← get_pool pool_id s.pools
  ok (record s {
    pools =
        insert pool_id
          (record p {
            load_balancing = unwrap_or load_balancing p.load_balancing;
            retry_policy = unwrap_or retry_policy p.retry_policy;
          })
          s.pools;
  })

unfoldable pub execution_snapshot :
    (now : ℕ) → ExecutionTarget → EngineState → Result ExecutionSnapshot GatewayError
unfolding build_execution_snapshot
execution_snapshot now target s =
    build_execution_snapshot now s.pools target s.default_retry_policy s.default_timeout
      s.routing_feedback_provider

unfoldable pub attempt_endpoints :
    (shuffle : List Endpoint → List Endpoint)
    → ExecutionSnapshot
    → EngineState
    → Result (List Endpoint) GatewayError × EngineState
unfolding ordered_endpoints
attempt_endpoints shuffle snapshot s =
    let (result, rr) =
      ordered_endpoints shuffle snapshot s.rr_counters snapshot.retry_policy.max_attempts in
    (result, record s { rr_counters = rr })

-- The state of an endpoint's limiter, new if there is none yet, and the map that has it.
unfoldable pub aimd_for_endpoint :
    AdaptiveConcurrencyConfig
    → Text
    → Dict AdaptiveConcurrency
    → AdaptiveConcurrency × Dict AdaptiveConcurrency
unfolding lookup insert new
aimd_for_endpoint config id states = elim (lookup id states) [
  | none ↦ (new config, insert id (new config) states)
  | some a ↦ (a, states)
]

abbrev with_pool_id : Option Text → Dict Text → Dict Text
with_pool_id none metadata = metadata
with_pool_id (some id) metadata = or_insert (codes "pool_id") id metadata

unfoldable pub driver_context :
    Option Text
    → Endpoint
    → (snapshot_metadata request_metadata : Dict Text) → Option (List Text)
    → DriverEndpointContext
unfolding extend or_insert resolve_capabilities inject_metadata merge_forward_allowlists
driver_context pool_id e snapshot_metadata request_metadata forward =
    let capabilities = resolve_capabilities e.driver_id e.capabilities in
    record {
      endpoint_id = e.endpoint_id;
      provider_kind = e.provider_kind;
      base_url = e.base_url;
      api_key = e.api_key;
      model_policy = e.model_policy;
      capabilities = capabilities;
      metadata =
          inject_metadata capabilities
            (extend (with_pool_id pool_id (extend snapshot_metadata e.metadata)) request_metadata);
      forward_metadata_as_headers = merge_forward_allowlists forward e.forward_metadata_as_headers;
    }
