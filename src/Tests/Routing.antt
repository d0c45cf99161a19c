-- ===== src/Tests/Routing.antt =====
-- The theorems on retries, routing, headers and the engine at concrete inputs.
use mathlib.Core.List.Perm
use mathlib.Core.List.{Perm, Permᴰ}
use unigateway.Prelude.{
  ltb, map, ℕ, ◌≤◌, ◌^◌, ◌-◌, ◌≡◌, ◌≢◌, ◌⊎◌, refl, ◌%◌, ◌*◌, ◌+◌, min, max, Bool, true, false,
  Option, none, some, List, [], ◌∷◌, length, get_elem?, if◌then◌else◌, Result, ok, err, arith,
}
use unigateway.Prelude.Text.{Text, codes}
use unigateway.Prelude.Dict.{Dict, lookup, insert}
use unigateway.Prelude.Sorting.{Ordered}
use unigateway.Core.Error.{
  endpoint_not_found, GatewayError, upstream_http, http_status, is_saturation_error, kind,
  status_code, all_attempts_failed, terminal_error,
}
use unigateway.Core.Error.Classes.{http_status-is_saturation_error, kind-status_code, StatusClass}
use unigateway.Core.Retry.{
  exponential, exponential_delay, retry_delay, round_robin, fallback, default_policy,
}
use unigateway.Core.Retry.Backoff.{exponential_exact, exponential_mono, retry_delay_bounds}
use unigateway.Core.Pool.{Endpoint, ExecutionPlan}
use unigateway.Core.Routing.{
  ExecutionSnapshot, counter, ordered_endpoints, resolve_global_plan_endpoints, build_plan_snapshot,
  pool_key,
}
use unigateway.Core.Routing.Feedback.{RoutingFeedback, EndpointSignal, apply_routing_feedback}
use unigateway.Core.Routing.Attempts.{Selection, ordered_endpoints-Selection}
use unigateway.Core.Routing.RoundRobin.{first, after_requests, round_robin_walks}
use unigateway.Core.Routing.Ranking.{Precedes, feedback_orders}
use unigateway.Core.Routing.Plans.{Chosen, build_plan_snapshot-Chosen, resolve_global-perm}
use unigateway.Core.Headers.{forward_metadata_as_http_headers}
use unigateway.Core.Headers.Forwarding.{Forwarded, forward-Forwarded}
use unigateway.Core.Engine.{remove_pool}
use unigateway.Tests.Data.{both, snapshot, pools, main_pool, other_pool, engine}

exponential_exact_example :
    exponential_delay 100 2_000 3 ≡ min (100 * (if ltb 3 32 then 2 ^ 3 else 2 ^ 32 - 1)) 2_000
exponential_exact_example = exponential_exact 100 2_000 3 (omega arith) (omega arith)

exponential_mono_example :
    (d e : ℕ) × (retry_delay (λ upper. 0) (exponential 100 2_000 false) 3 ≡ some d)
    × (retry_delay (λ upper. 0) (exponential 100 2_000 false) 5 ≡ some e)
    × (d ≤ e)
    × (e ≤ 2_000)
exponential_mono_example =
    exponential_mono (λ upper. 0) 100 2_000 3 5 (omega arith) (omega arith) (omega arith)

retry_delay_bounds_example :
    (d : ℕ) × (retry_delay (λ upper. 0) (exponential 100 2_000 true) 3 ≡ some d)
    × (d ≤ (if true then max 2_000 1_000_000 else 2_000))
retry_delay_bounds_example = retry_delay_bounds (λ upper. 0) 100 2_000 3 true (λ upper. omega arith)

abbrev overloaded : GatewayError
overloaded = all_attempts_failed [] (upstream_http 503 none (codes "east"))

overloaded_saturates : is_saturation_error overloaded ≡ true
unfolding is_saturation_error terminal_error
overloaded_saturates = refl

http_status-is_saturation_error_example :
    (http_status overloaded ≡ 429)
    ⊎ ((502 ≤ http_status overloaded) × (http_status overloaded ≤ 504))
http_status-is_saturation_error_example =
    http_status-is_saturation_error overloaded overloaded_saturates

kind-status_code_example : StatusClass (kind overloaded) (status_code overloaded)
kind-status_code_example = kind-status_code overloaded

ordered_endpoints-Selection_example :
    (chosen : List Endpoint) × ((ordered_endpoints (λ l. l) (snapshot round_robin) [] 1).0
      ≡ ok chosen)
    × Selection both 1 chosen
ordered_endpoints-Selection_example =
    ordered_endpoints-Selection (λ l. l) (snapshot round_robin) [] 1 (λ l. Perm.rfl) (λ e. cc)

round_robin_walks_example :
    first
      (ordered_endpoints
        (λ l. l)
        (snapshot round_robin)
        (after_requests (λ l. l) (snapshot round_robin) 2 3 [])
        2).0
    ≡ get_elem? both ((counter (codes "pool:main") [] + 3) % length both)
unfolding lookup
round_robin_walks_example =
    round_robin_walks (λ l. l) (snapshot round_robin) 2 3 [] refl (omega arith) (omega arith)
      (omega arith)

abbrev signal : ℕ → Bool → EndpointSignal
signal score excluded = record {
  score = some score;
  excluded = excluded;
  cooldown_until = none;
  recent_error_rate = none;
}

abbrev feedback : Text → RoutingFeedback
feedback pool_id = record {
  endpoint_signals = (codes "east", signal 5 true) ∷ (codes "west", signal 3 false) ∷ [];
}

feedback_orders_example :
    Perm (apply_routing_feedback 0 (codes "main") both (some feedback)) both
    × Ordered
        (Precedes 0 (feedback (codes "main")).endpoint_signals)
        (apply_routing_feedback 0 (codes "main") both (some feedback))
feedback_orders_example = feedback_orders 0 (codes "main") both feedback refl

abbrev plan : ExecutionPlan
plan = record {
  pool_id = none;
  candidates = codes "west" ∷ codes "north" ∷ [];
  load_balancing_override = none;
  retry_policy_override = none;
  metadata = [];
}

abbrev planned : Result ExecutionSnapshot GatewayError
planned = build_plan_snapshot pools plan default_policy none

abbrev resolved : Result ExecutionSnapshot GatewayError → ExecutionSnapshot
resolved (ok s) = s
resolved (err e) = snapshot fallback

planned_ok : planned ≡ ok (resolved planned)
unfolding build_plan_snapshot
planned_ok = refl

build_plan_snapshot-Chosen_example :
    Chosen pools plan.pool_id (codes "west" ∷ codes "north" ∷ []) (resolved planned).endpoints
    × ((resolved planned).endpoints ≢ [])
build_plan_snapshot-Chosen_example =
    build_plan_snapshot-Chosen pools plan default_policy none (resolved planned) planned_ok

-- A plan that is bound to a pool does not reach the endpoints of another.
abbrev bound_plan : Text → ExecutionPlan
bound_plan candidate = record plan { pool_id = some (codes "main"); candidates = candidate ∷ [] }

bound_here :
    map
      (λ e. e.endpoint_id)
      (resolved
        (build_plan_snapshot pools (bound_plan (codes "west")) default_policy none)).endpoints
    ≡ (codes "west" ∷ [])
unfolding build_plan_snapshot
bound_here = refl

bound_elsewhere :
    build_plan_snapshot pools (bound_plan (codes "north")) default_policy none
    ≡ err (endpoint_not_found (codes "north"))
unfolding build_plan_snapshot
bound_elsewhere = refl

resolve_global-perm_example :
    resolve_global_plan_endpoints pools (codes "north" ∷ [])
    ≡ resolve_global_plan_endpoints
        ((codes "other", other_pool) ∷ (codes "main", main_pool) ∷ [])
        (codes "north" ∷ [])
resolve_global-perm_example =
    resolve_global-perm pools ((codes "other", other_pool) ∷ (codes "main", main_pool) ∷ [])
      (codes "north" ∷ []) (Permᴰ.swap refl refl)

abbrev request : Dict Text
request = (codes "x-trace", codes "7") ∷ (codes "x-user", codes "u") ∷ []

abbrev kept_headers : Dict Text
kept_headers = (codes "x-user", codes "fixed") ∷ []

abbrev forwarded : Option (Dict Text)
forwarded = forward_metadata_as_http_headers kept_headers request (some (codes "x-*" ∷ []))

abbrev all_headers : Dict Text
all_headers = (codes "x-user", codes "fixed") ∷ (codes "x-trace", codes "7") ∷ []

forwarded_headers : forwarded ≡ some all_headers
unfolding forward_metadata_as_http_headers lookup insert
forwarded_headers = refl

forward-Forwarded_example : Forwarded (codes "x-*" ∷ []) (codes "x-trace") kept_headers all_headers
forward-Forwarded_example =
    forward-Forwarded (codes "x-*" ∷ []) (codes "x-trace") kept_headers request all_headers
      forwarded_headers

-- The counter under which `routing.rs` counts for the pool, `pool:main`, is left.
own_counter_left :
    lookup (pool_key (codes "main")) (remove_pool (codes "main") engine).rr_counters
    ≡ lookup (pool_key (codes "main")) engine.rr_counters
unfolding lookup remove_pool
own_counter_left = refl
