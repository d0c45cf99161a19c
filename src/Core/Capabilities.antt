-- ===== src/Core/Capabilities.antt =====
-- unigateway-core/src/capabilities.rs: endpoint capabilities, their defaults, and the metadata that
-- they add to a driver context. The metadata keys are those of request.rs.
use unigateway.Prelude.{Bool, true, false, Option, none, some, List, [], ◌∷◌, if◌then◌else◌}
use unigateway.Prelude.Text.{Text, codes, text_eq, contains, to_ascii_lowercase}
use unigateway.Prelude.Dict.{Dict, insert}

pub data ToolChoiceMode : Type 0 where
  auto none_mode required any named_function named_tool : ToolChoiceMode

pub data ToolChoiceDowngradeTarget : Type 0 where
  auto none_mode required any : ToolChoiceDowngradeTarget

pub record ToolCallingCapabilities : Type 0 where
  pub supported_modes : List ToolChoiceMode
  pub downgrade_policy : List (ToolChoiceMode × ToolChoiceDowngradeTarget)
  pub streaming_tool_calls : Bool
  pub require_safe_downgrade : Bool

pub record OpenAiApiSurfaceCapabilities : Type 0 where
  pub chat_completions_tools_with_reasoning_effort : Option Bool
  pub responses_tools_with_reasoning : Option Bool
  pub optional_tools_on_responses_failure_retry : Option Bool

pub record LocalInferenceCapabilities : Type 0 where
  pub prefix_caching : Bool

pub data AnthropicThinkingOutputPolicy : Type 0 where
  structured omit_thinking placeholder_thinking : AnthropicThinkingOutputPolicy

pub record ReasoningCapabilities : Type 0 where
  pub anthropic_thinking_output : AnthropicThinkingOutputPolicy

pub record EndpointCapabilities : Type 0 where
  pub tool_calling : Option ToolCallingCapabilities
  pub reasoning : Option ReasoningCapabilities
  pub openai_api_surface : Option OpenAiApiSurfaceCapabilities
  pub local_inference : Option LocalInferenceCapabilities

abbrev or {ℓ} : {A : Type ℓ} → Option A → Option A → Option A
or none b = b
or (some a) b = some a

unfoldable pub defaults_for_model : Text → OpenAiApiSurfaceCapabilities
unfolding contains to_ascii_lowercase
defaults_for_model model =
    let normalized = to_ascii_lowercase model in
    if contains normalized (codes "gpt-5.5")
    then record {
      chat_completions_tools_with_reasoning_effort = some false;
      responses_tools_with_reasoning = some true;
      optional_tools_on_responses_failure_retry = some false;
    }
    else if contains normalized (codes "gpt-5.4")
    then record {
      chat_completions_tools_with_reasoning_effort = some true;
      responses_tools_with_reasoning = some true;
      optional_tools_on_responses_failure_retry = some true;
    }
    else record {
      chat_completions_tools_with_reasoning_effort = none;
      responses_tools_with_reasoning = none;
      optional_tools_on_responses_failure_retry = some true;
    }

abbrev overridden :
    OpenAiApiSurfaceCapabilities → OpenAiApiSurfaceCapabilities → OpenAiApiSurfaceCapabilities
overridden o d = record {
  chat_completions_tools_with_reasoning_effort =
      or o.chat_completions_tools_with_reasoning_effort
        d.chat_completions_tools_with_reasoning_effort;
  responses_tools_with_reasoning =
      or o.responses_tools_with_reasoning d.responses_tools_with_reasoning;
  optional_tools_on_responses_failure_retry =
      or o.optional_tools_on_responses_failure_retry d.optional_tools_on_responses_failure_retry;
}

unfoldable pub resolve_for_model :
    Text → Option OpenAiApiSurfaceCapabilities → OpenAiApiSurfaceCapabilities
unfolding defaults_for_model
resolve_for_model model none = defaults_for_model model
resolve_for_model model (some endpoint_override) =
    overridden endpoint_override (defaults_for_model model)

abbrev pub openai_compatible_default : ToolCallingCapabilities
openai_compatible_default = record {
  supported_modes = ToolChoiceMode.auto ∷ ToolChoiceMode.none_mode ∷ [];
  downgrade_policy =
      (named_function, ToolChoiceDowngradeTarget.auto)
      ∷ (ToolChoiceMode.required, ToolChoiceDowngradeTarget.auto)
      ∷ [];
  streaming_tool_calls = true;
  require_safe_downgrade = true;
}

abbrev pub anthropic_native_default : ToolCallingCapabilities
anthropic_native_default = record {
  supported_modes =
      ToolChoiceMode.auto ∷ ToolChoiceMode.none_mode ∷ ToolChoiceMode.any ∷ ToolChoiceMode.required
      ∷ named_tool ∷ [];
  downgrade_policy = [];
  streaming_tool_calls = true;
  require_safe_downgrade = true;
}

abbrev is_anthropic : Text → Bool
is_anthropic driver_id = text_eq driver_id (codes "anthropic")

abbrev default_tool_calling_for_driver : Text → ToolCallingCapabilities
default_tool_calling_for_driver driver_id =
    if is_anthropic driver_id then anthropic_native_default else openai_compatible_default

abbrev default_reasoning_for_driver : Text → ReasoningCapabilities
default_reasoning_for_driver driver_id =
    if is_anthropic driver_id
    then record { anthropic_thinking_output = structured }
    else record { anthropic_thinking_output = omit_thinking }

abbrev default_local_inference_for_driver : Text → Option LocalInferenceCapabilities
default_local_inference_for_driver driver_id =
    if text_eq driver_id (codes "sglang-lite")
    then some (record { prefix_caching = true })
    else none

-- `resolve_for_endpoint`, over the two fields of the endpoint that it reads.
unfoldable pub resolve_capabilities : Text → EndpointCapabilities → EndpointCapabilities
unfolding text_eq
resolve_capabilities driver_id c = record {
  tool_calling = or c.tool_calling (some (default_tool_calling_for_driver driver_id));
  reasoning = or c.reasoning (some (default_reasoning_for_driver driver_id));
  openai_api_surface = c.openai_api_surface;
  local_inference = or c.local_inference (default_local_inference_for_driver driver_id);
}

abbrev as_metadata_value : AnthropicThinkingOutputPolicy → Text
as_metadata_value structured = codes "structured"
as_metadata_value omit_thinking = codes "omit_thinking"
as_metadata_value placeholder_thinking = codes "placeholder_thinking"

abbrev bool_text : Bool → Text
bool_text true = codes "true"
bool_text false = codes "false"

abbrev insert_flag : Text → Option Bool → Dict Text → Dict Text
insert_flag key none metadata = metadata
insert_flag key (some value) metadata = insert key (bool_text value) metadata

abbrev inject_surface : Option OpenAiApiSurfaceCapabilities → Dict Text → Dict Text
inject_surface none metadata = metadata
inject_surface (some s) metadata =
    insert_flag (codes "unigateway.openai.responses.optional_tools_failure_retry")
      s.optional_tools_on_responses_failure_retry
      (insert_flag (codes "unigateway.openai.responses.tools_with_reasoning")
        s.responses_tools_with_reasoning
        (insert_flag (codes "unigateway.openai.chat_completions.tools_with_reasoning_effort")
          s.chat_completions_tools_with_reasoning_effort metadata))

abbrev thinking_output : Option ReasoningCapabilities → AnthropicThinkingOutputPolicy
thinking_output none = omit_thinking
thinking_output (some r) = r.anthropic_thinking_output

abbrev caches_prefixes : Option LocalInferenceCapabilities → Bool
caches_prefixes none = false
caches_prefixes (some l) = l.prefix_caching

unfoldable pub inject_metadata : EndpointCapabilities → Dict Text → Dict Text
unfolding insert
inject_metadata c metadata = inject_surface c.openai_api_surface (
    insert (codes "unigateway.capabilities.local_inference.prefix_caching")
      (bool_text (caches_prefixes c.local_inference))
      (insert (codes "unigateway.capabilities.reasoning.anthropic_thinking_output")
        (as_metadata_value (thinking_output c.reasoning)) metadata))
