-- ===== src/Core/Error/Classes.antt =====
-- The error classes agree with one another and with the HTTP status that a host answers.
use unigateway.Prelude.{ℕ, ◌≤◌, ◌≡◌, refl, ◌≢◌, ◌↔◌, ◌⊎◌, true, Option, some, none, arith}
use unigateway.Core.Error.{
  GatewayError, GatewayErrorKind, all_attempts_failed, attempts, terminal_error, status_code,
  http_status, kind, is_saturation_error, upstream_http, rate_limited, upstream_5xx, upstream_4xx,
}

-- However deep the nesting, the terminal error is not itself an exhaustion failure.
pub attempts-terminal_error : (e : GatewayError) → attempts (terminal_error e) ≡ none
unfolding attempts terminal_error
attempts-terminal_error (all_attempts_failed rs e) = attempts-terminal_error e
attempts-terminal_error _ = refl

pub terminal_error_idem : (e : GatewayError) → terminal_error (terminal_error e) ≡ terminal_error e
unfolding terminal_error
terminal_error_idem (all_attempts_failed rs e) = terminal_error_idem e
terminal_error_idem _ = refl

-- An error that slows an endpoint down is answered with one of 429, 502, 503 and 504.
pub http_status-is_saturation_error :
    (e : GatewayError)
    → is_saturation_error e ≡ true
    → (http_status e ≡ 429) ⊎ ((502 ≤ http_status e) × (http_status e ≤ 504))
unfolding http_status is_saturation_error terminal_error
http_status-is_saturation_error (all_attempts_failed rs e) h = http_status-is_saturation_error e h
http_status-is_saturation_error e h = ground arith

-- What a kind says of the status that the upstream answered, if it answered.
pub record StatusClass (k : GatewayErrorKind) (code : Option ℕ) : Type 0 where
  pub limited : (k ≡ rate_limited) ↔ (code ≡ some 429)
  pub server : (k ≡ upstream_5xx) ↔ ((s : ℕ) × (code ≡ some s) × (500 ≤ s) × (s ≤ 599))
  pub client : (k ≡ upstream_4xx) ↔ ((s : ℕ) × (code ≡ some s) × (s ≢ 429) × (400 ≤ s) × (s ≤ 499))

-- The kind of an error agrees with its upstream status: `rate_limited` is exactly 429,
-- `upstream_5xx` exactly 500 to 599, and `upstream_4xx` exactly 400 to 499 without 429.
pub kind-status_code : (e : GatewayError) → StatusClass (kind e) (status_code e)
unfolding kind status_code terminal_error
kind-status_code (all_attempts_failed rs e) = kind-status_code e
kind-status_code (upstream_http s b i) = record {
  limited = ground arith;
  server = (λ h. (s, ground arith, ground arith, ground arith), λ h. ground arith);
  client = (λ h. (s, ground arith, ground arith, ground arith, ground arith), λ h. ground arith);
}
kind-status_code e = record {
  limited = ground arith;
  server = (λ h. ground arith, λ h. ground arith);
  client = (λ h. ground arith, λ h. ground arith);
}
