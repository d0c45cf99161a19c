-- ===== src/Protocol/AnthropicStream/Chunks.antt =====
-- The chunks of the stream: text, reasoning in the text, and tool calls.
use unigateway.Prelude.{
  ℕ, suc, Bool, true, false, Option, none, some, List, [], ◌∷◌, ◌++◌, any, unwrap_or, and_then,
}
use unigateway.Prelude.Text.{Text, codes, text_eq}
use unigateway.Prelude.Indexed.{Indexed}
use unigateway.Core.Json.{JsonValue}
use unigateway.Core.ToolCalls.{
  PendingOpenAiToolCall, AnthropicToolUseStart, AnthropicInputJsonDelta, OpenAiToolCallStopUpdate,
  Applied, apply_openai_tool_call_delta_update, flush_openai_tool_call_stop_update,
}
use unigateway.Protocol.ReasoningText.{
  StreamParseState, detecting_open, ReasoningTextChunk, thinking, text, push, finish,
}
use unigateway.Protocol.AnthropicStream.{
  tool_use, input_json_delta, Event, content_block_start, content_block_delta, content_block_stop,
  StreamState, Outcome, going, halted, is_placeholder, map_finish_reason, ◌then_do◌, emit,
  close_active_content_block, emit_block_delta, emit_text_delta, emit_thinking_delta,
}

module _ {V : Type 0} where
  -- A piece of reasoning, told as such only under the placeholder policy.
  abbrev pub emit_reasoning : Bool → Text → StreamState V → StreamState V
  emit_reasoning true t s = emit_thinking_delta t s
  emit_reasoning false t s = emit_text_delta t s

  unfoldable pub emit_reasoning_text_chunks :
      List ReasoningTextChunk → StreamState V → StreamState V
  unfolding emit_block_delta
  emit_reasoning_text_chunks [] s = s
  emit_reasoning_text_chunks (thinking t ∷ chunks) s =
      emit_reasoning_text_chunks chunks
        (emit_reasoning (is_placeholder s.thinking_output_policy) t s)
  emit_reasoning_text_chunks (text t ∷ chunks) s =
      emit_reasoning_text_chunks chunks (emit_text_delta t s)

  unfoldable pub push_text : Option StreamParseState → Text → StreamState V → StreamState V
  unfolding emit_reasoning_text_chunks push emit_block_delta
  push_text none t s = emit_text_delta t s
  push_text (some parser) t s =
      let (next, chunks) = push parser t in
      emit_reasoning_text_chunks chunks (record s { reasoning_text_parser = some next })

  unfoldable pub emit_openai_text_delta : Text → StreamState V → StreamState V
  unfolding push_text
  emit_openai_text_delta t s = push_text s.reasoning_text_parser t s

  -- `finish` takes the parser's state, which leaves the default.
  unfoldable pub finish_parser : Option StreamParseState → StreamState V → StreamState V
  unfolding emit_reasoning_text_chunks finish
  finish_parser none s = s
  finish_parser (some parser) s =
      emit_reasoning_text_chunks (finish parser)
        (record s { reasoning_text_parser = some (detecting_open []) })

  unfoldable pub flush_reasoning_text_parser : StreamState V → StreamState V
  unfolding finish_parser
  flush_reasoning_text_parser s = finish_parser s.reasoning_text_parser s

  unfoldable pub send_tool_start : Option AnthropicToolUseStart → List (Event V) → List (Event V)
  send_tool_start none sent = sent
  send_tool_start (some start) sent =
      sent ++ (content_block_start start.anthropic_index (tool_use start.id start.name) ∷ [])

  unfoldable pub send_tool_delta : Option AnthropicInputJsonDelta → List (Event V) → List (Event V)
  send_tool_delta none sent = sent
  send_tool_delta (some delta) sent =
      sent ++ (content_block_delta delta.anthropic_index (input_json_delta delta.partial_json) ∷ [])

  -- The active block is closed before a tool's block starts.
  unfoldable pub close_before : Option AnthropicToolUseStart → StreamState V → StreamState V
  unfolding close_active_content_block
  close_before none s = s
  close_before (some start) s = close_active_content_block s

  unfoldable pub send_update :
      Option AnthropicToolUseStart → Option AnthropicInputJsonDelta → StreamState V → StreamState V
  unfolding send_tool_start send_tool_delta
  send_update start delta s = record s {
    sent = send_tool_delta delta (send_tool_start start s.sent);
  }

  unfoldable pub applied_tool_call : Option Applied → StreamState V → Outcome V
  unfolding close_before send_update
  applied_tool_call none s = halted s.sent
  applied_tool_call (some applied) s = going (
      send_update applied.update.start applied.update.delta (
        close_before applied.update.start (record s {
          pending_tool_calls = applied.calls;
          next_content_index = applied.next_content_index;
        })))

  -- The stop of one call: nothing is sent where there is nothing to stop.
  unfoldable pub send_stop : OpenAiToolCallStopUpdate → Option ℕ → StreamState V → StreamState V
  unfolding emit send_update
  send_stop update none s = s
  send_stop update (some index) s =
      emit (content_block_stop index) (send_update update.start update.delta s)

  unfoldable pub flushed_tool_call :
      Option (Indexed PendingOpenAiToolCall × OpenAiToolCallStopUpdate) → StreamState V → Outcome V
  unfolding send_stop
  flushed_tool_call none s = halted s.sent
  flushed_tool_call (some (calls, update)) s =
      going (send_stop update update.stop_index (record s { pending_tool_calls = calls }))

  unfoldable pub set_stop_reason : Option Text → StreamState V → StreamState V
  unfolding map_finish_reason
  set_stop_reason none s = s
  set_stop_reason (some reason) s = record s { stop_reason = some (map_finish_reason reason) }

  unfoldable pub chunk_thinking : Option Text → Bool → StreamState V → StreamState V
  unfolding emit_block_delta
  chunk_thinking (some t) true s = emit_thinking_delta t s
  chunk_thinking (some t) false s = s
  chunk_thinking none placeholder s = s

  unfoldable pub chunk_text : Option Text → StreamState V → StreamState V
  unfolding emit_openai_text_delta
  chunk_text none s = s
  chunk_text (some t) s = emit_openai_text_delta t s

  abbrev pub or_else : Option V → Option V → Option V
  or_else none later = later
  or_else (some v) later = some v

  abbrev pub first : List V → Option V
  first [] = none
  first (v ∷ vs) = some v

abbrev pub nonempty_text : Option Text → Option Text
nonempty_text none = none
nonempty_text (some []) = none
nonempty_text (some (c ∷ s)) = some (c ∷ s)

module _ {V : Type 0} (J : JsonValue V) where
  -- A member of a value that may be there, and the text of it that is not empty.
  abbrev pub member : Option V → Text → Option V
  member value key = and_then value λ v. J.get v key

  abbrev pub string : Option V → Option Text
  string value = nonempty_text (and_then value J.as_str)

  unfoldable pub is_native_anthropic_chunk : V → Bool
  unfolding text_eq
  is_native_anthropic_chunk raw = elim (and_then (J.get raw (codes "type")) J.as_str) [
    | none ↦ false
    | some t ↦ any (text_eq t) (
        codes "message_start"
        ∷ codes "content_block_start"
        ∷ codes "content_block_delta"
        ∷ codes "content_block_stop"
        ∷ codes "message_delta"
        ∷ codes "message_stop"
        ∷ codes "ping"
        ∷ [])
  ]

module _ {V : Type 0} (J : JsonValue V) (from_str : Text → Option Text) where
  unfoldable pub apply_openai_tool_call_delta : ℕ → V → StreamState V → Outcome V
  unfolding applied_tool_call apply_openai_tool_call_delta_update
  apply_openai_tool_call_delta tool_index tool_call s =
      applied_tool_call
        (apply_openai_tool_call_delta_update J from_str s.pending_tool_calls s.next_content_index
          tool_index tool_call)
        s

  unfoldable pub flush_pending_tool_call_stops : List ℕ → StreamState V → Outcome V
  unfolding apply_openai_tool_call_delta flushed_tool_call flush_openai_tool_call_stop_update
  flush_pending_tool_call_stops [] s = going s
  flush_pending_tool_call_stops (tool_index ∷ tool_indexes) s =
      apply_openai_tool_call_delta tool_index J.empty_object s
      then_do (λ t.
          flushed_tool_call (flush_openai_tool_call_stop_update t.pending_tool_calls tool_index) t)
      then_do (λ t. flush_pending_tool_call_stops tool_indexes t)

  -- The tool calls of a chunk, each under its own index or its place.
  unfoldable pub chunk_tool_calls : ℕ → List V → StreamState V → Outcome V
  unfolding apply_openai_tool_call_delta
  chunk_tool_calls fallback_index [] s = going s
  chunk_tool_calls fallback_index (tool_call ∷ tool_calls) s =
      apply_openai_tool_call_delta
        (unwrap_or (and_then (J.get tool_call (codes "index")) J.as_u64) fallback_index) tool_call s
      then_do (λ t. chunk_tool_calls (suc fallback_index) tool_calls t)

  unfoldable pub process_openai_chunk_for_anthropic_stream : V → StreamState V → Outcome V
  unfolding set_stop_reason chunk_thinking chunk_text chunk_tool_calls
  process_openai_chunk_for_anthropic_stream raw s =
      let choice = and_then (and_then (J.get raw (codes "choices")) J.as_array) first in
      let delta = member J choice (codes "delta") in
      chunk_tool_calls 0 (unwrap_or (and_then (member J delta (codes "tool_calls")) J.as_array) [])
        (chunk_text (string J (member J delta (codes "content"))) (
          chunk_thinking
            (string J (
              or_else (member J delta (codes "reasoning_content"))
                (member J delta (codes "thinking"))))
            (is_placeholder s.thinking_output_policy)
            (set_stop_reason (string J (member J choice (codes "finish_reason"))) s)))
