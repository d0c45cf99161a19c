-- ===== src/Protocol/AnthropicStream/Drive.antt =====
-- `drive_anthropic_chat_stream`: the loop over the items of the stream, and its end.
use unigateway.Prelude.{
  ℕ, Bool, true, false, Option, none, some, List, [], ◌∷◌, if◌then◌else◌, unwrap_or, and_then, ◌==◌,
  Result, ok, err,
}
use unigateway.Prelude.Text.{Text, codes}
use unigateway.Prelude.Indexed.{Indexed, keys}
use unigateway.Core.Json.{JsonValue}
use unigateway.Core.Capabilities.{AnthropicThinkingOutputPolicy}
use unigateway.Core.ToolCalls.{PendingOpenAiToolCall}
use unigateway.Protocol.ReasoningText.{ReasoningTextEncoding}
use unigateway.Protocol.AnthropicStream.{
  Event, message_delta, message_stop, native, failed, StreamState, Outcome, going, halted,
  anthropic_usage_payload, new, ◌then_do◌, emit, ensure_anthropic_stream_prelude,
  close_active_content_block,
}
use unigateway.Protocol.AnthropicStream.Chunks.{
  emit_openai_text_delta, flush_reasoning_text_parser, flush_pending_tool_call_stops,
  is_native_anthropic_chunk, process_openai_chunk_for_anthropic_stream, nonempty_text,
}

-- What the stream gives: a chunk, by its raw JSON, or an error; and what its completion gives: the
-- text and the token counts of the response, or an error.
pub data Item (V : Type 0) : Type 0 where
  chunk : V → Item V
  stream_error : Text → Item V

pub record Completion : Type 0 where
  pub output_text : Option Text
  pub usage : Option (Option ℕ × Option ℕ)

-- The text of the whole response, where no block was started for it.
unfoldable pub emit_output_text : {V : Type 0} → Bool → Option Text → StreamState V → StreamState V
unfolding emit_openai_text_delta
emit_output_text true (some t) s = emit_openai_text_delta t s
emit_output_text true none s = s
emit_output_text false output_text s = s

abbrev pub final_stop_reason : Option Text → Indexed PendingOpenAiToolCall → Text
final_stop_reason (some reason) calls = reason
final_stop_reason none [] = codes "end_turn"
final_stop_reason none (call ∷ calls) = codes "tool_use"

abbrev pub events_of : {V : Type 0} → Outcome V → List (Event V)
events_of (going s) = s.sent
events_of (halted events) = events

module _ {V : Type 0} (J : JsonValue V) (from_str : Text → Option Text)
    (request_id model : Text) where
  abbrev pub native_event : V → Event V
  native_event raw =
      native (unwrap_or (and_then (J.get raw (codes "type")) J.as_str) (codes "message_delta")) raw

  unfoldable pub drive_item : Item V → StreamState V → Outcome V
  unfolding emit is_native_anthropic_chunk ensure_anthropic_stream_prelude
      process_openai_chunk_for_anthropic_stream
  drive_item (chunk raw) s =
      if is_native_anthropic_chunk J raw
      then going (emit (native_event raw) (record s { saw_native_anthropic = true }))
      else process_openai_chunk_for_anthropic_stream J from_str raw
          (ensure_anthropic_stream_prelude request_id model s)
  drive_item (stream_error reason) s = halted (emit (failed reason) s).sent

  unfoldable pub drive_items : List (Item V) → StreamState V → Outcome V
  unfolding drive_item
  drive_items [] s = going s
  drive_items (item ∷ items) s = drive_item item s then_do (λ t. drive_items items t)

  -- The last two events.
  unfoldable pub send_end : Completion → StreamState V → StreamState V
  unfolding emit
  send_end completion s = emit message_stop (
      emit
        (message_delta (final_stop_reason s.stop_reason s.pending_tool_calls)
          (anthropic_usage_payload completion.usage))
        s)

  -- From the prelude to the last stop.
  unfoldable pub close_stream : Completion → StreamState V → Outcome V
  unfolding ensure_anthropic_stream_prelude emit_output_text flush_reasoning_text_parser
      close_active_content_block flush_pending_tool_call_stops keys
  close_stream completion s =
      let begun = ensure_anthropic_stream_prelude request_id model s in
      let closed = close_active_content_block (
        flush_reasoning_text_parser (
          emit_output_text (begun.next_content_index == 0) (nonempty_text completion.output_text)
            begun)) in
      flush_pending_tool_call_stops J from_str (keys closed.pending_tool_calls) closed

  unfoldable pub drive_end : Result Completion Text → StreamState V → Outcome V
  unfolding emit close_stream send_end
  drive_end (err reason) s = halted (emit (failed reason) s).sent
  drive_end (ok completion) s =
      if s.saw_native_anthropic
      then halted s.sent
      else close_stream completion s then_do (λ t. going (send_end completion t))

  unfoldable pub drive_anthropic_chat_stream :
      Option ReasoningTextEncoding
      → AnthropicThinkingOutputPolicy
      → List (Item V)
      → Result Completion Text
      → Outcome V
  unfolding drive_items drive_end
  drive_anthropic_chat_stream encoding policy items completion =
      drive_items items (new encoding policy) then_do (λ s. drive_end completion s)
