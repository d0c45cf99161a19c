-- ===== src/Core/Fallback.antt =====
-- unigateway-core/src/engine/execution/fallback.rs with the attempt execution of
-- execution/support.rs and the reports of engine/reporting.rs: one request over the ordered
-- endpoints. What the loop cannot know, answers of drivers, clocks, the work of other requests, is a
-- `World`, asked by the index of the attempt. `trace` holds what the hooks are given.
pub mod Loop
pub mod Accounting
pub mod Failover
pub mod Limiters
pub mod Slots
use unigateway.Prelude.{
  ℕ, zero, suc, ◌+◌, ◌/◌, ◌<◌, Bool, true, false, ◌&&◌, Option, none, some, List, [], ◌∷◌, ◌++◌,
  length, is_empty, ltb, if◌then◌else◌, Result, ok, err,
}
use unigateway.Prelude.Text.{Text, codes}
use unigateway.Prelude.Dict.{Dict, lookup, insert}
use unigateway.Core.Error.{
  GatewayError, GatewayErrorKind, AttemptReport, succeeded, failed, retried, invalid_request,
  all_endpoints_saturated, no_available_endpoint, all_attempts_failed, transport, kind, status_code,
  is_saturation_error,
}
use unigateway.Core.Retry.{should_retry_error, retry_delay}
use unigateway.Core.Aimd.{
  AdaptiveConcurrency, AdaptiveConcurrencyConfig, acquire, release, on_success, on_saturation,
  effective_limit,
}
use unigateway.Core.Pool.{Endpoint, DriverEndpointContext}
use unigateway.Core.Routing.{ExecutionSnapshot}
use unigateway.Core.Engine.{aimd_for_endpoint, driver_context}

-- A driver's session: a completed response with the latency that it reports, or a stream.
pub data Session : Type 0 where
  completed : (latency_ms : ℕ) → Session
  streaming : Session

-- What a driver's future does: the time until it is ready, and its answer.
pub record Reply : Type 0 where
  pub takes : ℕ
  pub answer : Result Session GatewayError

-- `execute_chat_attempt` and its siblings: `tokio::time::timeout` over the driver's future.
unfoldable pub execute_attempt : Option ℕ → Text → Reply → Result Session GatewayError
execute_attempt none endpoint_id reply = reply.answer
execute_attempt (some timeout) endpoint_id reply =
    if ltb timeout reply.takes
    then err (transport (codes "attempt timed out") (some endpoint_id))
    else reply.answer

pub record World : Type 0 where
  -- The generated `Display` of an error.
  pub display : GatewayError → Text
  -- The driver registry, if one is configured; a driver answers the context of attempt `n`.
  pub registry : Option (Text → Option (ℕ → DriverEndpointContext → Reply))
  pub now_ms : ℕ → ℕ
  pub latency_ms : ℕ → ℕ
  -- What other requests do to the limiters before turn `n`, in it until the driver has answered,
  -- and from there until the guard is dropped, the backoff included.
  pub before : ℕ → Dict AdaptiveConcurrency → Dict AdaptiveConcurrency
  pub meanwhile : ℕ → Dict AdaptiveConcurrency → Dict AdaptiveConcurrency
  pub afterwards : ℕ → Dict AdaptiveConcurrency → Dict AdaptiveConcurrency
  -- `gen_range(0..=upper)` in attempt `n`.
  pub draw : ℕ → ℕ → ℕ
  pub aimd_config : AdaptiveConcurrencyConfig
  pub request_metadata : Dict Text

pub data Hook : Type 0 where
  attempt_skipped : (endpoint_id : Text) (candidate_index active limit : ℕ) → Hook
  attempt_started : (endpoint_id : Text) (attempt_index active : ℕ) → Hook
  attempt_succeeded : (endpoint_id : Text) (latency_ms : ℕ) → Hook
  attempt_errored :
      (endpoint_id : Text) (latency_ms : ℕ) (status : Option ℕ) (kind : GatewayErrorKind) → Hook
  request_finished : List AttemptReport → Option GatewayErrorKind → Hook

pub record Progress : Type 0 where
  pub aimd_states : Dict AdaptiveConcurrency
  pub attempts : List AttemptReport
  pub skipped_due_to_aimd : ℕ
  pub last_error : Option GatewayError
  pub slept : List (Option ℕ)
  pub trace : List Hook

-- The outcome: a response with the reports of all attempts, or a stream that takes over the guard of
-- its endpoint and the reports of the attempts before it.
pub data Output : Type 0 where
  completed : List AttemptReport → Output
  streaming : (endpoint_id : Text) (previous_attempts : List AttemptReport) → Output

pub data Turn : Type 0 where
  go_on : Progress → Turn
  stop : Result Output GatewayError → Progress → Turn

abbrev pub success_attempt_report : Text → ℕ → AttemptReport
success_attempt_report id latency = record {
  endpoint_id = id;
  status = succeeded;
  latency_ms = latency;
  error = none;
  error_kind = none;
}

abbrev pub failed_attempt_report : World → Text → ℕ → GatewayError → Bool → AttemptReport
failed_attempt_report w id latency e was_retried = record {
  endpoint_id = id;
  status = if was_retried then retried else failed;
  latency_ms = latency;
  error = some (w.display e);
  error_kind = some (kind e);
}

-- `finalize_request_failure`
unfoldable pub finalize : GatewayError → Progress → GatewayError × Progress
finalize e p = if is_empty p.attempts then (e, p) else (
  all_attempts_failed p.attempts e,
  record p { trace = p.trace ++ request_finished p.attempts (some (kind e)) ∷ [] },
)

abbrev fail_with : GatewayError × Progress → Turn
fail_with (e, p) = stop (err e) p

abbrev pub driver_missing : Endpoint → GatewayError
driver_missing e = invalid_request (codes "driver not found: " ++ e.driver_id)

unfoldable pub driver_for_endpoint :
    World → Endpoint → Result (ℕ → DriverEndpointContext → Reply) GatewayError
driver_for_endpoint w e = elim w.registry [
  | none ↦ err (invalid_request (codes "driver registry not configured"))
  | some get ↦ elim (get e.driver_id) [ none ↦ err (driver_missing e) | some d ↦ ok d ]
]

-- An access to one limiter of the map.
unfoldable pub update_aimd :
    Text
    → (AdaptiveConcurrency → AdaptiveConcurrency)
    → Dict AdaptiveConcurrency
    → Dict AdaptiveConcurrency
update_aimd id f states = elim (lookup id states) [
  | none ↦ states
  | some a ↦ insert id (f a) states
]

abbrev pub record_failure : World → ℕ → Text → GatewayError → Bool → Progress → Progress
record_failure w index id e was_retried p = record p {
  attempts = p.attempts ++ failed_attempt_report w id (w.latency_ms index) e was_retried ∷ [];
  trace = p.trace ++ attempt_errored id (w.latency_ms index) (status_code e) (kind e) ∷ [];
}

-- The arms of the match on the attempt's result. The guard is dropped where the turn ends, but for a
-- stream, which keeps it.
unfoldable pub settle :
    World
    → ExecutionSnapshot
    → (total index : ℕ) → Endpoint
    → Result Session GatewayError
    → Progress
    → Turn
settle w s total index e (ok (Session.completed latency)) p =
    let id = e.endpoint_id in
    let attempts = p.attempts ++ success_attempt_report id latency ∷ [] in
    stop (ok (Output.completed attempts)) (record p {
      attempts = attempts;
      aimd_states = update_aimd id (λ a. release (on_success (w.now_ms index) a)) p.aimd_states;
      trace = p.trace ++ attempt_succeeded id latency ∷ request_finished attempts none ∷ [];
    })
settle w s total index e (ok Session.streaming) p =
    stop (ok (Output.streaming e.endpoint_id p.attempts)) p
settle w s total index e (err error) p =
    let id = e.endpoint_id in
    let lowered = λ (a : AdaptiveConcurrency).
      if is_saturation_error error then on_saturation (w.now_ms index) a else a in
    let again = ltb (index + 1) total && should_retry_error s.load_balancing s.retry_policy error in
    let p' = record_failure w index id error again (record p {
      aimd_states =
          update_aimd id release (w.afterwards index (update_aimd id lowered p.aimd_states));
    }) in
    if again
    then go_on (record p' {
      last_error = some error;
      slept = p'.slept ++ retry_delay (w.draw index) s.retry_policy.backoff index ∷ [];
    })
    else fail_with (finalize error p')

abbrev pub timeout_of : ExecutionSnapshot → Option ℕ
timeout_of s = s.retry_policy.per_attempt_timeout

-- The turn from the driver's lookup on.
unfoldable pub attempt_with :
    World
    → ExecutionSnapshot
    → (total index : ℕ) → Endpoint
    → Result (ℕ → DriverEndpointContext → Reply) GatewayError
    → Progress
    → Turn
attempt_with w s total index e (err error) p = fail_with (
    finalize error (
      record_failure w index e.endpoint_id error false (record p {
        aimd_states = update_aimd e.endpoint_id release (w.meanwhile index p.aimd_states);
      })))
attempt_with w s total index e (ok driver) p =
    let context =
      driver_context s.pool_id e s.metadata w.request_metadata s.forward_metadata_as_headers in
    settle w s total index e (execute_attempt (timeout_of s) e.endpoint_id (driver index context))
      (record p { aimd_states = w.meanwhile index p.aimd_states })

-- The turn from `aimd.acquire` on, over the limiter as it was found and its map.
unfoldable pub admit :
    World
    → ExecutionSnapshot
    → (total index : ℕ) → Endpoint
    → AdaptiveConcurrency
    → Option AdaptiveConcurrency
    → Progress
    → Turn
admit w s total index e aimd none p = go_on (record p {
  skipped_due_to_aimd = p.skipped_due_to_aimd + 1;
  trace =
      p.trace
      ++ attempt_skipped e.endpoint_id index aimd.active_connections
          (effective_limit aimd e.max_concurrency)
        ∷ [];
})
admit w s total index e aimd (some acquired) p =
    attempt_with w s total index e (driver_for_endpoint w e) (record p {
      aimd_states = insert e.endpoint_id acquired p.aimd_states;
      trace =
          p.trace
          ++ attempt_started e.endpoint_id (length p.attempts) acquired.active_connections ∷ [];
    })

unfoldable pub turn : World → ExecutionSnapshot → (total index : ℕ) → Endpoint → Progress → Turn
turn w s total index e p =
    let (aimd, states) =
      aimd_for_endpoint w.aimd_config e.endpoint_id (w.before index p.aimd_states) in
    admit w s total index e aimd (acquire e.max_concurrency aimd)
      (record p { aimd_states = states })

-- After the last endpoint.
unfoldable pub conclude : ExecutionSnapshot → Progress → Result Output GatewayError × Progress
conclude s p = elim p.last_error [
  | some e ↦ let (e', p') = finalize e p in (err e', p')
  | none ↦
      if is_empty p.attempts && ltb 0 p.skipped_due_to_aimd
      then (err (all_endpoints_saturated s.pool_id), p)
      else (err (no_available_endpoint s.pool_id), p)
]

unfoldable pub run_attempts :
    World
    → ExecutionSnapshot
    → (total index : ℕ) → List Endpoint
    → Progress
    → Result Output GatewayError × Progress
run_attempts w s total index [] p = conclude s p
run_attempts w s total index (e ∷ es) p = elim (turn w s total index e p) [
  | stop r p' ↦ (r, p')
  | go_on p' ↦ run_attempts w s total (suc index) es p'
]

abbrev pub fresh : Dict AdaptiveConcurrency → Progress
fresh states = record {
  aimd_states = states;
  attempts = [];
  skipped_due_to_aimd = 0;
  last_error = none;
  slept = [];
  trace = [];
}

-- `execute_with_fallback` from the ordered endpoints on.
unfoldable pub execute_with_fallback :
    World
    → ExecutionSnapshot
    → List Endpoint
    → Dict AdaptiveConcurrency
    → Result Output GatewayError × Progress
execute_with_fallback w s endpoints states =
    run_attempts w s (length endpoints) 0 endpoints (fresh states)
