-- ===== src/Tests/Retries.antt =====
-- Runs of the decision to retry a Responses request without its tools.
use unigateway.Prelude.{ℕ, ◌≡◌, refl, true, false, Option, none, some, []}
use unigateway.Prelude.Text.{Text, codes}
use unigateway.Core.Error.{GatewayError, upstream_http}
use unigateway.Core.Capabilities.{OpenAiApiSurfaceCapabilities}
use unigateway.Core.ResponsesRetry.{ProxyResponsesRequest, should_retry_responses_without_tools}

abbrev unknown_surface : OpenAiApiSurfaceCapabilities
unknown_surface = record {
  chat_completions_tools_with_reasoning_effort = none;
  responses_tools_with_reasoning = none;
  optional_tools_on_responses_failure_retry = none;
}

abbrev with_tools : Option ℕ → ProxyResponsesRequest ℕ
with_tools reasoning = record {
  tools = some 0;
  tool_choice = none;
  reasoning = reasoning;
  extra = [];
}

abbrev refused : Text → GatewayError
refused body = upstream_http 400 (some body) (codes "ep")

keeps_tools_with_reasoning :
    should_retry_responses_without_tools
      (with_tools (some 1))
      (refused (codes "bad Tool"))
      unknown_surface
    ≡ false
unfolding should_retry_responses_without_tools
keeps_tools_with_reasoning = refl

keeps_tools_for_responses_api :
    should_retry_responses_without_tools
      (with_tools none)
      (refused (codes "unsupported tool. Please use /v1/responses instead."))
      unknown_surface
    ≡ false
unfolding should_retry_responses_without_tools
keeps_tools_for_responses_api = refl

strips_tools :
    should_retry_responses_without_tools
      (with_tools none)
      (refused (codes "bad Tool"))
      unknown_surface
    ≡ true
unfolding should_retry_responses_without_tools
strips_tools = refl
