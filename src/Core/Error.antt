-- ===== src/Core/Error.antt =====
-- unigateway-core/src/error.rs and the attempt reports of response.rs. The text of an error comes
-- from generated code and is a parameter of the modules that record it.
pub mod Classes
use unigateway.Prelude.{
  ℕ, Bool, true, false, List, Option, none, some, ◌&&◌, ◌||◌, leb, ◌==◌, if◌then◌else◌,
}
use unigateway.Prelude.Text.{Text, codes, contains, to_ascii_lowercase}

pub data GatewayErrorKind : Type 0 where
  timeout rate_limited upstream_5xx upstream_4xx connection_failure invalid_response
        cancelled_by_client stream_aborted other :
      GatewayErrorKind

pub data AttemptStatus : Type 0 where
  succeeded failed retried : AttemptStatus

pub record AttemptReport : Type 0 where
  pub endpoint_id : Text
  pub status : AttemptStatus
  pub latency_ms : ℕ
  pub error : Option Text
  pub error_kind : Option GatewayErrorKind

pub data GatewayError : Type 0 where
  pool_not_found endpoint_not_found invalid_request build_error not_implemented :
      Text → GatewayError
  all_endpoints_saturated no_available_endpoint : Option Text → GatewayError
  all_attempts_failed : List AttemptReport → GatewayError → GatewayError
  upstream_http : (status : ℕ) (body : Option Text) (endpoint_id : Text) → GatewayError
  transport : (message : Text) (endpoint_id : Option Text) → GatewayError
  stream_aborted : (message endpoint_id : Text) → GatewayError

unfoldable pub attempts : GatewayError → Option (List AttemptReport)
attempts (all_attempts_failed reports last_error) = some reports
attempts _ = none

unfoldable pub terminal_error : GatewayError → GatewayError
terminal_error (all_attempts_failed reports last_error) = terminal_error last_error
terminal_error e = e

abbrev upstream_status : GatewayError → Option ℕ
upstream_status (upstream_http status body id) = some status
upstream_status _ = none

unfoldable pub status_code : GatewayError → Option ℕ
status_code e = upstream_status (terminal_error e)

abbrev terminal_http_status : GatewayError → ℕ
terminal_http_status (upstream_http status body id) = status
terminal_http_status (invalid_request m) = 400
terminal_http_status (pool_not_found m) = 404
terminal_http_status (endpoint_not_found m) = 404
terminal_http_status (not_implemented m) = 501
terminal_http_status (transport m id) = 502
terminal_http_status (GatewayError.stream_aborted m id) = 502
terminal_http_status (all_endpoints_saturated p) = 503
terminal_http_status (no_available_endpoint p) = 503
terminal_http_status (build_error m) = 500
terminal_http_status (all_attempts_failed reports e) = 502

unfoldable pub http_status : GatewayError → ℕ
http_status e = terminal_http_status (terminal_error e)

unfoldable pub cancelled : Text → Bool
unfolding contains to_ascii_lowercase
cancelled message =
    let normalized = to_ascii_lowercase message in
    contains normalized (codes "cancelled by client")
    || contains normalized (codes "canceled by client")

unfoldable pub timed_out : Text → Bool
unfolding contains to_ascii_lowercase
timed_out message = contains (to_ascii_lowercase message) (codes "timed out")

abbrev terminal_kind : GatewayError → GatewayErrorKind
terminal_kind (upstream_http status body id) =
    if status == 429
    then rate_limited
    else if leb 500 status && leb status 599
    then upstream_5xx
    else if leb 400 status && leb status 499
    then upstream_4xx
    else other
terminal_kind (transport m id) =
    if timed_out m then timeout else if cancelled m then cancelled_by_client else connection_failure
terminal_kind (GatewayError.stream_aborted m id) =
    if cancelled m then cancelled_by_client else GatewayErrorKind.stream_aborted
terminal_kind (invalid_request m) = invalid_response
terminal_kind _ = other

unfoldable pub kind : GatewayError → GatewayErrorKind
kind e = terminal_kind (terminal_error e)

-- unigateway-core/src/engine/reporting.rs
abbrev terminal_saturation : GatewayError → Bool
terminal_saturation (upstream_http status body id) =
    status == 429 || leb 502 status && leb status 504
terminal_saturation (transport m id) = true
terminal_saturation (GatewayError.stream_aborted m id) = true
terminal_saturation _ = false

unfoldable pub is_saturation_error : GatewayError → Bool
is_saturation_error e = terminal_saturation (terminal_error e)
