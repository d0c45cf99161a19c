-- ===== src/Core/Retry.antt =====
-- unigateway-core/src/retry.rs, with the retry decision and the backoff of engine/reporting.rs.
-- A `Duration` is its number of nanoseconds.
pub mod Backoff
use unigateway.Prelude.{
  ℕ, ◌+◌, ◌*◌, ◌-◌, ◌/◌, ◌%◌, ◌^◌, min, max, Bool, true, false, ◌&&◌, ◌||◌, Option, none, some,
  List, [], ◌∷◌, any, ltb, leb, ◌==◌, if◌then◌else◌, unwrap_or, is_some, not,
}
use unigateway.Prelude.Text.{Text, codes, text_eq}
use unigateway.Core.Error.{
  GatewayError, pool_not_found, no_available_endpoint, all_endpoints_saturated, upstream_http,
  transport,
}

pub data LoadBalancingStrategy : Type 0 where
  fallback random round_robin score_ordered : LoadBalancingStrategy

pub data RetryCondition : Type 0 where
  on_status : ℕ → RetryCondition
  on_status_range : (start end : ℕ) → RetryCondition
  on_timeout on_transport_error : RetryCondition

pub data BackoffPolicy : Type 0 where
  no_backoff : BackoffPolicy
  fixed : ℕ → BackoffPolicy
  exponential : (base max : ℕ) (jitter : Bool) → BackoffPolicy

pub record RetryPolicy : Type 0 where
  pub max_attempts : ℕ
  pub per_attempt_timeout : Option ℕ
  pub retry_on : List RetryCondition
  pub backoff : BackoffPolicy
  pub stop_after_stream_started : Bool

abbrev pub default_policy : RetryPolicy
default_policy = record {
  max_attempts = 1;
  per_attempt_timeout = none;
  retry_on = [];
  backoff = no_backoff;
  stop_after_stream_started = true;
}

-- `policy == RetryPolicy::default()`: the derived equality at the default.
abbrev is_no_backoff : BackoffPolicy → Bool
is_no_backoff no_backoff = true
is_no_backoff _ = false

abbrev no_conditions : List RetryCondition → Bool
no_conditions [] = true
no_conditions (c ∷ cs) = false

unfoldable pub is_default : RetryPolicy → Bool
is_default p =
    p.max_attempts == 1
    && not (is_some p.per_attempt_timeout)
    && no_conditions p.retry_on
    && is_no_backoff p.backoff
    && p.stop_after_stream_started

-- engine/reporting.rs
unfoldable pub retry_condition_matches : RetryCondition → GatewayError → Bool
unfolding text_eq
retry_condition_matches (on_status status) (upstream_http value body id) = value == status
retry_condition_matches (on_status_range start stop) (upstream_http status body id) =
    leb start status && leb status stop
retry_condition_matches on_timeout (transport message id) =
    text_eq message (codes "attempt timed out")
retry_condition_matches on_transport_error (transport message id) = true
retry_condition_matches on_transport_error (GatewayError.stream_aborted message id) = true
retry_condition_matches _ _ = false

abbrev pub is_local_refusal : GatewayError → Bool
is_local_refusal (pool_not_found m) = true
is_local_refusal (no_available_endpoint p) = true
is_local_refusal (all_endpoints_saturated p) = true
is_local_refusal _ = false

abbrev is_fallback : LoadBalancingStrategy → Bool
is_fallback fallback = true
is_fallback _ = false

unfoldable pub should_retry_error : LoadBalancingStrategy → RetryPolicy → GatewayError → Bool
unfolding retry_condition_matches
should_retry_error strategy policy e =
    if is_fallback strategy
    then not (is_local_refusal e)
    else any (λ c. retry_condition_matches c e) policy.retry_on

-- `Duration::checked_mul`: none past `u64::MAX` seconds and 999999999 nanoseconds.
abbrev pub duration_end : ℕ
duration_end = 2 ^ 64 * 1_000_000_000

unfoldable pub checked_mul : ℕ → ℕ → Option ℕ
checked_mul base factor = let t = base * factor in if ltb t duration_end then some t else none

-- `1u32.checked_shl(attempt_index as u32).unwrap_or(u32::MAX)`: the cast keeps the low 32 bits.
unfoldable pub backoff_factor : ℕ → ℕ
backoff_factor attempt_index =
    let shift = attempt_index % 2 ^ 32 in if ltb shift 32 then 2 ^ shift else 2 ^ 32 - 1

unfoldable pub exponential_delay : ℕ → ℕ → ℕ → ℕ
unfolding checked_mul backoff_factor
exponential_delay base top attempt_index =
    min (unwrap_or (checked_mul base (backoff_factor attempt_index)) top) top

-- The delay that is slept. `draw upper` is the number that `gen_range(0..=upper)` draws, and a
-- millisecond count passes through `as u64`.
unfoldable pub retry_delay : (draw : ℕ → ℕ) → BackoffPolicy → ℕ → Option ℕ
unfolding exponential_delay
retry_delay draw no_backoff attempt_index = none
retry_delay draw (fixed delay) attempt_index = some delay
retry_delay draw (exponential base top jitter) attempt_index =
    let delay = exponential_delay base top attempt_index in
    if jitter then some (draw (max (delay / 1_000_000) 1 % 2 ^ 64) * 1_000_000) else some delay
