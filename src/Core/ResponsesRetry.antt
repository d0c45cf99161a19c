-- ===== src/Core/ResponsesRetry.antt =====
-- unigateway-core/src/responses_retry.rs, with the test of conversion/responses_fields.rs that it
-- uses: whether a failed Responses attempt may be made again without its tools. Of a request only
-- what they read is kept, `V` being the JSON values.
use unigateway.Prelude.{
  ℕ, Bool, true, false, not, ◌&&◌, ◌||◌, Option, none, some, [], is_some, ◌==◌, unwrap_or,
}
use unigateway.Prelude.Text.{Text, codes, contains, to_ascii_lowercase}
use unigateway.Prelude.Dict.{Dict, lookup}
use unigateway.Core.Error.{GatewayError, upstream_http}
use unigateway.Core.Capabilities.{OpenAiApiSurfaceCapabilities}

pub record ProxyResponsesRequest (V : Type 0) : Type 0 where
  pub tools : Option V
  pub tool_choice : Option V
  pub reasoning : Option V
  pub extra : Dict V

abbrev pub has_tools : {V : Type 0} → ProxyResponsesRequest V → Bool
has_tools r = is_some r.tools || is_some r.tool_choice

unfoldable pub proxy_responses_request_uses_tools_and_reasoning :
    {V : Type 0} → ProxyResponsesRequest V → Bool
unfolding lookup
proxy_responses_request_uses_tools_and_reasoning r =
    has_tools r
    && (is_some r.reasoning
        || is_some (lookup (codes "reasoning") r.extra)
        || is_some (lookup (codes "reasoning_effort") r.extra))

unfoldable pub upstream_error_body : GatewayError → Option Text
upstream_error_body (upstream_http status body endpoint_id) = body
upstream_error_body _ = none

abbrev pub body_forbids : Option Text → Bool
unfolding contains to_ascii_lowercase
body_forbids none = false
body_forbids (some body) =
    let lower = to_ascii_lowercase body in
    contains lower (codes "/v1/responses")
    || contains lower (codes "please use /v1/responses")
    || contains lower (codes "not supported for gpt-5.5 in /v1/chat/completions")

unfoldable pub upstream_error_forbids_tool_strip_retry : GatewayError → Bool
unfolding upstream_error_body body_forbids
upstream_error_forbids_tool_strip_retry e = body_forbids (upstream_error_body e)

abbrev pub body_whitelisted : ℕ → Text → Bool
unfolding contains
body_whitelisted status lower =
    not (contains lower (codes "function tools with reasoning_effort"))
    && ((contains lower (codes "does not support") && contains lower (codes "tool"))
        || contains lower (codes "tools are not supported")
        || contains lower (codes "unsupported tool")
        || ((status == 400 || status == 422) && contains lower (codes "tool")))

abbrev pub error_whitelisted : GatewayError → Bool
unfolding body_whitelisted to_ascii_lowercase
error_whitelisted (upstream_http status body endpoint_id) =
    body_whitelisted status (to_ascii_lowercase (unwrap_or body []))
error_whitelisted _ = false

unfoldable pub responses_tool_strip_retry_whitelisted : GatewayError → Bool
unfolding error_whitelisted upstream_error_forbids_tool_strip_retry
responses_tool_strip_retry_whitelisted e =
    not (upstream_error_forbids_tool_strip_retry e) && error_whitelisted e

abbrev pub by_surface : Option Bool → Bool → Bool
by_surface (some true) whitelisted = true
by_surface (some false) whitelisted = whitelisted
by_surface none whitelisted = whitelisted

unfoldable pub should_retry_responses_without_tools :
    {V : Type 0} → ProxyResponsesRequest V → GatewayError → OpenAiApiSurfaceCapabilities → Bool
unfolding proxy_responses_request_uses_tools_and_reasoning upstream_error_forbids_tool_strip_retry
    responses_tool_strip_retry_whitelisted
should_retry_responses_without_tools r e surface =
    has_tools r
    && not (proxy_responses_request_uses_tools_and_reasoning r)
    && not (upstream_error_forbids_tool_strip_retry e)
    && by_surface surface.optional_tools_on_responses_failure_retry
        (responses_tool_strip_retry_whitelisted e)
