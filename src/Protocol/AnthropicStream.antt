-- ===== src/Protocol/AnthropicStream.antt =====
-- unigateway-protocol/src/responses/anthropic_stream.rs: a stream of OpenAI chunks told as the
-- events of the Anthropic protocol. The channel to the client is the list of events sent.
pub mod Trace
mod Keeping
mod Blocks
mod Tools
mod Deltas
mod Applying
mod Stops
mod Flushing
mod Steps
pub mod Messages
pub mod Chunks
pub mod Drive
use unigateway.Prelude.{
  ℕ, zero, suc, ◌+◌, Bool, true, false, not, ◌&&◌, ◌||◌, Option, none, some, List, [], ◌∷◌, ◌++◌,
  if◌then◌else◌, is_empty, is_some, any, unwrap_or, and_then, ◌==◌, Result, ok, err,
}
use unigateway.Prelude.Text.{Text, codes, text_eq}
use unigateway.Prelude.Indexed.{Indexed, keys}
use unigateway.Core.Json.{JsonValue}
use unigateway.Core.Capabilities.{
  AnthropicThinkingOutputPolicy, structured, omit_thinking, placeholder_thinking,
}
use unigateway.Core.ToolCalls.{
  PendingOpenAiToolCall, AnthropicToolUseStart, AnthropicInputJsonDelta, OpenAiToolCallStopUpdate,
  Applied, apply_openai_tool_call_delta_update, flush_openai_tool_call_stop_update,
}
use unigateway.Protocol.ReasoningText.{
  StreamParseState, detecting_open, ReasoningTextEncoding, ReasoningTextChunk, thinking, text, push,
  finish,
}

pub data ContentBlock : Type 0 where
  thinking_block text_block : ContentBlock
  tool_use : (id name : Text) → ContentBlock

pub data Delta : Type 0 where
  text_delta thinking_delta signature_delta input_json_delta : Text → Delta

pub record AnthropicUsage : Type 0 where
  pub input_tokens : ℕ
  pub output_tokens : ℕ

-- What is sent: the payloads of `emit_sse_json`, and the error that ends a stream.
pub data Event (V : Type 0) : Type 0 where
  message_start : (id model : Text) → Event V
  ping : Event V
  content_block_start : (index : ℕ) → ContentBlock → Event V
  content_block_delta : (index : ℕ) → Delta → Event V
  content_block_stop : (index : ℕ) → Event V
  message_delta : (stop_reason : Text) → AnthropicUsage → Event V
  message_stop : Event V
  native : (event_type : Text) → V → Event V
  failed : Text → Event V

-- The `&'static str` of the active block's type.
pub data BlockType : Type 0 where
  thinking_type text_type : BlockType

abbrev pub same_type : BlockType → BlockType → Bool
same_type thinking_type thinking_type = true
same_type text_type text_type = true
same_type thinking_type text_type = false
same_type text_type thinking_type = false

-- `AnthropicOpenAiStreamState`, and the channel.
pub record StreamState (V : Type 0) : Type 0 where
  pub prelude_sent : Bool
  pub next_content_index : ℕ
  pub active_content_block_index : Option ℕ
  pub active_content_block_type : Option BlockType
  pub stop_reason : Option Text
  pub pending_tool_calls : Indexed PendingOpenAiToolCall
  pub saw_native_anthropic : Bool
  pub reasoning_text_parser : Option StreamParseState
  pub thinking_output_policy : AnthropicThinkingOutputPolicy
  pub sent : List (Event V)

-- A step that goes on, or that ends the task with what was sent: by an error or by a panic.
pub data Outcome (V : Type 0) : Type 0 where
  going : StreamState V → Outcome V
  halted : List (Event V) → Outcome V

abbrev pub parser_of : Option ReasoningTextEncoding → Option StreamParseState
parser_of none = none
parser_of (some encoding) = some (detecting_open [])

abbrev pub is_placeholder : AnthropicThinkingOutputPolicy → Bool
is_placeholder placeholder_thinking = true
is_placeholder structured = false
is_placeholder omit_thinking = false

unfoldable pub map_finish_reason : Text → Text
unfolding text_eq
map_finish_reason reason =
    if text_eq reason (codes "stop") || text_eq reason (codes "eos")
    then codes "end_turn"
    else if text_eq reason (codes "length")
    then codes "max_tokens"
    else if any (text_eq reason)
        (codes "tool_calls" ∷ codes "function_call" ∷ codes "tool_use" ∷ [])
    then codes "tool_use"
    else codes "end_turn"

-- The token counts of a `TokenUsage`, where there is one.
abbrev pub anthropic_usage_payload : Option (Option ℕ × Option ℕ) → AnthropicUsage
anthropic_usage_payload none = record { input_tokens = 0; output_tokens = 0 }
anthropic_usage_payload (some (input, output)) = record {
  input_tokens = unwrap_or input 0;
  output_tokens = unwrap_or output 0;
}

-- The active block, if it has the type asked for.
abbrev pub reused : Option ℕ → Option BlockType → BlockType → Option ℕ
reused (some index) (some active) block_type =
    if same_type active block_type then some index else none
reused none _ block_type = none
reused (some index) none block_type = none

abbrev pub content_block : BlockType → ContentBlock
content_block thinking_type = thinking_block
content_block text_type = text_block

module _ {V : Type 0} where
  abbrev pub new : Option ReasoningTextEncoding → AnthropicThinkingOutputPolicy → StreamState V
  new encoding policy = record {
    prelude_sent = false;
    next_content_index = 0;
    active_content_block_index = none;
    active_content_block_type = none;
    stop_reason = none;
    pending_tool_calls = [];
    saw_native_anthropic = false;
    reasoning_text_parser = parser_of encoding;
    thinking_output_policy = policy;
    sent = [];
  }

  infixl 4 ◌then_do◌
  abbrev pub ◌then_do◌ : Outcome V → (StreamState V → Outcome V) → Outcome V
  going s then_do f = f s
  halted events then_do f = halted events

  unfoldable pub emit : Event V → StreamState V → StreamState V
  emit event s = record s { sent = s.sent ++ (event ∷ []) }

  unfoldable pub prelude_if : Bool → (request_id model : Text) → StreamState V → StreamState V
  unfolding emit
  prelude_if true request_id model s = s
  prelude_if false request_id model s =
      record (emit ping (emit (message_start (codes "msg_" ++ request_id) model) s)) {
        prelude_sent = true;
      }

  unfoldable pub ensure_anthropic_stream_prelude :
      (request_id model : Text) → StreamState V → StreamState V
  unfolding prelude_if
  ensure_anthropic_stream_prelude request_id model s = prelude_if s.prelude_sent request_id model s

  -- The delta before a stop, under the type of the block and the policy.
  unfoldable pub send_signature : Option BlockType → Bool → ℕ → List (Event V) → List (Event V)
  send_signature (some thinking_type) true index sent =
      sent
      ++ (content_block_delta index (signature_delta (codes "EXTENDED_THINKING_PLACEHOLDER_SIG"))
          ∷ [])
  send_signature (some thinking_type) false index sent = sent
  send_signature (some text_type) placeholder index sent = sent
  send_signature none placeholder index sent = sent

  unfoldable pub close_block : Option ℕ → StreamState V → StreamState V
  unfolding emit send_signature
  close_block none s = s
  close_block (some index) s = emit (content_block_stop index) (record s {
    active_content_block_index = none;
    active_content_block_type = none;
    sent =
        send_signature s.active_content_block_type (is_placeholder s.thinking_output_policy) index
          s.sent;
  })

  unfoldable pub close_active_content_block : StreamState V → StreamState V
  unfolding close_block
  close_active_content_block s = close_block s.active_content_block_index s

  unfoldable pub open_block : BlockType → StreamState V → StreamState V
  unfolding emit
  open_block block_type s =
      record (emit (content_block_start s.next_content_index (content_block block_type)) s) {
        next_content_index = s.next_content_index + 1;
        active_content_block_index = some s.next_content_index;
        active_content_block_type = some block_type;
      }

  -- `emit_content_block_start` and the delta that goes to the block it gives.
  unfoldable pub emit_in_block : Option ℕ → BlockType → Delta → StreamState V → StreamState V
  unfolding emit close_active_content_block open_block
  emit_in_block (some index) block_type delta s = emit (content_block_delta index delta) s
  emit_in_block none block_type delta s =
      let closed = close_active_content_block s in
      emit (content_block_delta closed.next_content_index delta) (open_block block_type closed)

  unfoldable pub emit_block_delta : BlockType → Delta → StreamState V → StreamState V
  unfolding emit_in_block
  emit_block_delta block_type delta s =
      emit_in_block (reused s.active_content_block_index s.active_content_block_type block_type)
        block_type delta s

  abbrev pub emit_text_delta : Text → StreamState V → StreamState V
  emit_text_delta t s = emit_block_delta text_type (text_delta t) s

  abbrev pub emit_thinking_delta : Text → StreamState V → StreamState V
  emit_thinking_delta t s = emit_block_delta thinking_type (thinking_delta t) s
