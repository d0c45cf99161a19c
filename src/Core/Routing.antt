-- ===== src/Core/Routing.antt =====
-- unigateway-core/src/routing.rs: the execution snapshot and the order in which its endpoints are
-- tried. `Feedback` has the pre-ordering by routing feedback.
pub mod Feedback
pub mod Ranking
pub mod Attempts
pub mod Plans
pub mod RoundRobin
use unigateway.Prelude.{
  ℕ, ◌+◌, ◌%◌, min, max, Bool, true, false, ◌&&◌, Option, none, some, List, [], ◌∷◌, ◌++◌, map,
  length, is_empty, take, drop, find, keep, if◌then◌else◌, unwrap_or, Result, ok, err, ◌>>=◌,
}
use unigateway.Prelude.Text.{Text, codes, text_eq, join, trim}
use unigateway.Prelude.Dict.{Dict, lookup, insert}
use unigateway.Core.Error.{
  GatewayError, pool_not_found, endpoint_not_found, invalid_request, no_available_endpoint,
}
use unigateway.Core.Retry.{
  LoadBalancingStrategy, fallback, random, round_robin, score_ordered, RetryPolicy, default_policy,
  is_default,
}
use unigateway.Core.Aimd.{word_end}
use unigateway.Core.Pool.{Endpoint, ProviderPool, ExecutionPlan, ExecutionTarget, pool, plan}
use Feedback.{RoutingFeedback, apply_routing_feedback}

pub record ExecutionSnapshot : Type 0 where
  pub pool_id : Option Text
  pub endpoints : List Endpoint
  pub load_balancing : LoadBalancingStrategy
  pub retry_policy : RetryPolicy
  pub metadata : Dict Text
  pub forward_metadata_as_headers : Option (List Text)
  pub selection_key : Text

-- `rotate_left`
abbrev pub rotate_left {ℓ} : {A : Type ℓ} → ℕ → List A → List A
rotate_left n xs = drop n xs ++ take n xs

-- The counter of a key, 0 for a new key.
abbrev pub counter : Text → Dict ℕ → ℕ
counter key rr_counters = unwrap_or (lookup key rr_counters) 0

-- One use of the load-balancing strategy. `shuffle` is the shuffle of the `rand` crate.
unfoldable pub balance :
    (shuffle : List Endpoint → List Endpoint)
    → LoadBalancingStrategy
    → Text
    → List Endpoint
    → Dict ℕ
    → List Endpoint × Dict ℕ
unfolding lookup insert
balance shuffle fallback key endpoints rr = (endpoints, rr)
balance shuffle score_ordered key endpoints rr = (endpoints, rr)
balance shuffle random key endpoints rr = (shuffle endpoints, rr)
balance shuffle round_robin key endpoints rr =
    let idx = counter key rr in
    (
      rotate_left (idx % length endpoints) endpoints,
      insert key ((idx + 1) % word_end % length endpoints) rr,
    )

unfoldable pub ordered_endpoints :
    (shuffle : List Endpoint → List Endpoint)
    → ExecutionSnapshot
    → Dict ℕ
    → ℕ
    → Result (List Endpoint) GatewayError × Dict ℕ
unfolding balance
ordered_endpoints shuffle s rr max_attempts =
    if is_empty s.endpoints
    then (err (no_available_endpoint s.pool_id), rr)
    else let (ordered, rr') = balance shuffle s.load_balancing s.selection_key s.endpoints rr in
      (ok (take (min (max max_attempts 1) (length s.endpoints)) ordered), rr')

unfoldable pub effective_retry_policy : RetryPolicy → RetryPolicy → Option ℕ → RetryPolicy
unfolding is_default
effective_retry_policy policy default_retry_policy default_timeout =
    let effective = if is_default policy then default_retry_policy else policy in
    elim effective.per_attempt_timeout [
      | none ↦ record effective { per_attempt_timeout = default_timeout }
      | some t ↦ effective
    ]

unfoldable pub enabled_endpoints : List Endpoint → List Endpoint
enabled_endpoints = keep (λ e. e.enabled)

-- `pools.get(pool_id).ok_or_else(..)`
abbrev pub get_pool : Text → Dict ProviderPool → Result ProviderPool GatewayError
get_pool pool_id pools = elim (lookup pool_id pools) [
  | none ↦ err (pool_not_found pool_id)
  | some p ↦ ok p
]

-- `iter().map(f).collect::<Result<Vec<_>, _>>()` stops at the first error.
unfoldable pub collect {ℓ} :
    {A : Type ℓ} {B : Type 0} → (A → Result B GatewayError) → List A → Result (List B) GatewayError
collect f [] = ok []
collect f (x ∷ xs) = let rest = collect f xs in do y ← f x; ys ← rest; ok (y ∷ ys)

abbrev pub or_not_found : Text → Option Endpoint → Result Endpoint GatewayError
or_not_found id none = err (endpoint_not_found id)
or_not_found id (some e) = ok e

unfoldable pub find_candidate : List Endpoint → Text → Result Endpoint GatewayError
unfolding text_eq
find_candidate endpoints id =
    or_not_found id (find (λ e. e.enabled && text_eq e.endpoint_id id) endpoints)

-- The endpoints of all pools, in the order in which the map yields the pools.
unfoldable pub all_endpoints : Dict ProviderPool → List Endpoint
all_endpoints [] = []
all_endpoints ((id, p) ∷ pools) = p.endpoints ++ all_endpoints pools

abbrev pub the_only : Text → List Endpoint → Result Endpoint GatewayError
the_only id [] = err (endpoint_not_found id)
the_only id (e ∷ []) = ok e
the_only id (e ∷ f ∷ rest) =
    err (invalid_request (codes "ambiguous endpoint_id in execution plan: " ++ id))

unfoldable pub resolve_candidate : List Endpoint → Text → Result Endpoint GatewayError
unfolding text_eq
resolve_candidate enabled id = the_only id (keep (λ e. text_eq e.endpoint_id id) enabled)

unfoldable pub resolve_global_plan_endpoints :
    Dict ProviderPool → List Text → Result (List Endpoint) GatewayError
unfolding all_endpoints enabled_endpoints resolve_candidate collect
resolve_global_plan_endpoints pools candidates =
    collect (resolve_candidate (enabled_endpoints (all_endpoints pools))) candidates

-- What the target of a plan settles: pool, endpoints, strategy and retry policy.
pub record Resolved : Type 0 where
  pub pool_id : Option Text
  pub endpoints : List Endpoint
  pub inherited_strategy : LoadBalancingStrategy
  pub inherited_retry : RetryPolicy

unfoldable pub resolve_plan :
    Dict ProviderPool
    → RetryPolicy
    → Option ℕ
    → Option Text
    → List Text
    → Result Resolved GatewayError
unfolding lookup find_candidate collect effective_retry_policy resolve_global_plan_endpoints
resolve_plan pools default_retry default_timeout none candidates = do
  endpoints ← resolve_global_plan_endpoints pools candidates
  ok (record {
    pool_id = none;
    endpoints = endpoints;
    inherited_strategy = round_robin;
    inherited_retry = effective_retry_policy default_policy default_retry default_timeout;
  })
resolve_plan pools default_retry default_timeout (some id) candidates = do
  found ← get_pool id pools
  endpoints ← collect (find_candidate found.endpoints) candidates
  ok (record {
    pool_id = some found.pool_id;
    endpoints = endpoints;
    inherited_strategy = found.load_balancing;
    inherited_retry = effective_retry_policy found.retry_policy default_retry default_timeout;
  })

unfoldable pub plan_key : Option Text → List Text → Text
unfolding join
plan_key none candidates = codes "plan:global:" ++ join (codes ",") candidates
plan_key (some id) candidates = codes "plan:" ++ (id ++ (codes ":" ++ join (codes ",") candidates))

abbrev forwarded : Dict ProviderPool → Option Text → Option (List Text)
forwarded pools none = none
forwarded pools (some id) = elim (lookup id pools) [
  | none ↦ none
  | some p ↦ p.forward_metadata_as_headers
]

unfoldable pub build_plan_snapshot :
    Dict ProviderPool
    → ExecutionPlan
    → RetryPolicy
    → Option ℕ
    → Result ExecutionSnapshot GatewayError
unfolding resolve_plan plan_key
build_plan_snapshot pools p default_retry default_timeout = do
  r ← resolve_plan pools default_retry default_timeout p.pool_id p.candidates
  if is_empty r.endpoints
      then err (no_available_endpoint r.pool_id)
      else ok (record {
        pool_id = r.pool_id;
        endpoints = r.endpoints;
        load_balancing = unwrap_or p.load_balancing_override r.inherited_strategy;
        retry_policy = elim p.retry_policy_override [
          | none ↦ r.inherited_retry
          | some own ↦ effective_retry_policy own default_retry default_timeout
        ];
        metadata = p.metadata;
        forward_metadata_as_headers = forwarded pools r.pool_id;
        selection_key = plan_key r.pool_id p.candidates;
      })

unfoldable pub pool_key : Text → Text
pool_key pool_id = codes "pool:" ++ pool_id

unfoldable pub build_execution_snapshot :
    (now : ℕ)
    → Dict ProviderPool
    → ExecutionTarget
    → RetryPolicy
    → Option ℕ
    → Option (Text → RoutingFeedback)
    → Result ExecutionSnapshot GatewayError
unfolding lookup apply_routing_feedback enabled_endpoints build_plan_snapshot pool_key
build_execution_snapshot now pools (plan p) default_retry default_timeout provider =
    build_plan_snapshot pools p default_retry default_timeout
build_execution_snapshot now pools (pool id) default_retry default_timeout provider = do
  p ← get_pool id pools
  let endpoints = apply_routing_feedback now p.pool_id (enabled_endpoints p.endpoints) provider
  if is_empty endpoints
      then err (no_available_endpoint (some p.pool_id))
      else ok (record {
        pool_id = some p.pool_id;
        endpoints = endpoints;
        load_balancing = p.load_balancing;
        retry_policy = effective_retry_policy p.retry_policy default_retry default_timeout;
        metadata = p.metadata;
        forward_metadata_as_headers = p.forward_metadata_as_headers;
        selection_key = pool_key p.pool_id;
      })
