-- ===== src/Protocol/AnthropicStream/Steps.antt =====
-- The steps of a chunk keep the invariant, and the mark that the prelude has been sent.
use unigateway.Prelude.{
  ℕ, suc, ◌≡◌, refl, ◌∙◌, Bool, true, false, Option, none, some, List, [], ◌∷◌,
}
use unigateway.Prelude.Text.{Text}
use unigateway.Core.Json.{JsonValue}
use unigateway.Core.ToolCalls.{AnthropicToolUseStart, Applied}
use unigateway.Protocol.ReasoningText.{
  ReasoningTextChunk, thinking, text, StreamParseState, push, finish,
}
use unigateway.Protocol.AnthropicStream.{
  BlockType, thinking_type, text_type, Delta, text_delta, thinking_delta, StreamState, Outcome,
  going, halted, ◌then_do◌, emit, close_block, close_active_content_block, open_block,
  emit_in_block, emit_block_delta, is_placeholder,
}
use unigateway.Protocol.AnthropicStream.Chunks.{
  emit_reasoning, emit_reasoning_text_chunks, push_text, emit_openai_text_delta, finish_parser,
  flush_reasoning_text_parser, send_update, close_before, applied_tool_call,
  apply_openai_tool_call_delta, set_stop_reason, chunk_thinking, chunk_text, chunk_tool_calls,
  process_openai_chunk_for_anthropic_stream,
}
use unigateway.Protocol.AnthropicStream.Trace.{Holds, OutcomeHolds, Traced, Phase}
use unigateway.Protocol.AnthropicStream.Applying.{apply-Holds}
use unigateway.Protocol.AnthropicStream.Blocks.{emit_block_delta-Holds}

abbrev pub all : ℕ → Bool
all = λ _. true

-- A state whose prelude has been sent and whose events are those of a message so far.
pub record Told {V : Type 0} (s : StreamState V) : Type 0 where
  pub prelude : s.prelude_sent ≡ true
  pub holds : Holds all s

abbrev pub OutcomeTold : {V : Type 0} → Outcome V → Type 0
OutcomeTold (going s) = Told s
OutcomeTold (halted events) = (phases : ℕ → Phase) × Traced events phases

module _ {V : Type 0} where
  close_block-prelude :
      (active : Option ℕ) (s : StreamState V) → (close_block active s).prelude_sent ≡ s.prelude_sent
  unfolding close_block emit
  close_block-prelude none s = refl
  close_block-prelude (some index) s = refl

  pub close-prelude :
      (s : StreamState V) → (close_active_content_block s).prelude_sent ≡ s.prelude_sent
  unfolding close_active_content_block
  close-prelude s = close_block-prelude s.active_content_block_index s

  in_block-prelude :
      (target : Option ℕ) (block_type : BlockType) (part : Delta) (s : StreamState V)
      → (emit_in_block target block_type part s).prelude_sent ≡ s.prelude_sent
  unfolding emit_in_block open_block emit
  in_block-prelude none block_type part s = close-prelude s
  in_block-prelude (some index) block_type part s = refl

  delta-Told :
      (block_type : BlockType) (part : Delta) (s : StreamState V)
      → Told s
      → Told (emit_block_delta block_type part s)
  unfolding emit_block_delta
  delta-Told block_type part s told = record {
    prelude = in_block-prelude _ block_type part s ∙ told.prelude;
    holds = emit_block_delta-Holds block_type part s told.holds;
  }

  reasoning-Told :
      (placeholder : Bool) (t : Text) (s : StreamState V)
      → Told s
      → Told (emit_reasoning placeholder t s)
  reasoning-Told true t s told = delta-Told thinking_type (thinking_delta t) s told
  reasoning-Told false t s told = delta-Told text_type (text_delta t) s told

  chunks-Told :
      (chunks : List ReasoningTextChunk) (s : StreamState V)
      → Told s
      → Told (emit_reasoning_text_chunks chunks s)
  unfolding emit_reasoning_text_chunks
  chunks-Told [] s told = told
  chunks-Told (thinking t ∷ chunks) s told =
      chunks-Told chunks _ (reasoning-Told (is_placeholder s.thinking_output_policy) t s told)
  chunks-Told (text t ∷ chunks) s told =
      chunks-Told chunks _ (delta-Told text_type (text_delta t) s told)

  -- Fields that no event depends on.
  with_parser-Told :
      (parser : Option StreamParseState) (s : StreamState V)
      → Told s
      → Told (record s { reasoning_text_parser = parser })
  with_parser-Told parser s told = record { prelude = told.prelude; holds = told.holds }

  push_text-Told :
      (parser : Option StreamParseState) (t : Text) (s : StreamState V)
      → Told s
      → Told (push_text parser t s)
  unfolding push_text
  push_text-Told none t s told = delta-Told text_type (text_delta t) s told
  push_text-Told (some parser) t s told =
      chunks-Told (push parser t).1 _ (with_parser-Told (some (push parser t).0) s told)

  pub text-Told : (t : Text) (s : StreamState V) → Told s → Told (emit_openai_text_delta t s)
  unfolding emit_openai_text_delta
  text-Told t s told = push_text-Told s.reasoning_text_parser t s told

  finish_parser-Told :
      (parser : Option StreamParseState) (s : StreamState V)
      → Told s
      → Told (finish_parser parser s)
  unfolding finish_parser
  finish_parser-Told none s told = told
  finish_parser-Told (some parser) s told =
      chunks-Told (finish parser) _ (with_parser-Told _ s told)

  pub flush_parser-Told : (s : StreamState V) → Told s → Told (flush_reasoning_text_parser s)
  unfolding flush_reasoning_text_parser
  flush_parser-Told s told = finish_parser-Told s.reasoning_text_parser s told

  reason-Told :
      (reason : Option Text) (s : StreamState V) → Told s → Told (set_stop_reason reason s)
  unfolding set_stop_reason
  reason-Told none s told = told
  reason-Told (some reason) s told = record { prelude = told.prelude; holds = told.holds }

  thinking-Told :
      (t : Option Text) (placeholder : Bool) (s : StreamState V)
      → Told s
      → Told (chunk_thinking t placeholder s)
  unfolding chunk_thinking
  thinking-Told none placeholder s told = told
  thinking-Told (some t) true s told = delta-Told thinking_type (thinking_delta t) s told
  thinking-Told (some t) false s told = told

  chunk_text-Told : (t : Option Text) (s : StreamState V) → Told s → Told (chunk_text t s)
  unfolding chunk_text
  chunk_text-Told none s told = told
  chunk_text-Told (some t) s told = text-Told t s told

  close_before-prelude :
      (begin : Option AnthropicToolUseStart) (s : StreamState V)
      → (close_before begin s).prelude_sent ≡ s.prelude_sent
  unfolding close_before
  close_before-prelude none s = refl
  close_before-prelude (some begin) s = close-prelude s

  -- The marks that a tool call's step leaves.
  KeepsPrelude : StreamState V → Outcome V → Type 0
  KeepsPrelude s (going t) = t.prelude_sent ≡ s.prelude_sent
  KeepsPrelude s (halted events) = Unit

  applied-prelude :
      (s : StreamState V) (answer : Option Applied) → KeepsPrelude s (applied_tool_call answer s)
  unfolding applied_tool_call send_update KeepsPrelude
  applied-prelude s none = tt
  applied-prelude s (some applied) = close_before-prelude applied.update.start _

  together :
      (s : StreamState V) (o : Outcome V)
      → Told s
      → KeepsPrelude s o
      → OutcomeHolds all o
      → OutcomeTold o
  unfolding KeepsPrelude
  together s (going t) told kept held = record { prelude = kept ∙ told.prelude; holds = held }
  together s (halted events) told kept held = held

  then-Told :
      (o : Outcome V) (f : StreamState V → Outcome V)
      → OutcomeTold o
      → ((t : StreamState V) → Told t → OutcomeTold (f t))
      → OutcomeTold (o then_do f)
  then-Told (going t) f told next = next t told
  then-Told (halted events) f told next = told

module _ {V : Type 0} (J : JsonValue V) (from_str : Text → Option Text) where
  apply-Told :
      (t : ℕ) (tool_call : V) (s : StreamState V)
      → Told s
      → OutcomeTold (apply_openai_tool_call_delta J from_str t tool_call s)
  unfolding apply_openai_tool_call_delta
  apply-Told t tool_call s told =
      together s (apply_openai_tool_call_delta J from_str t tool_call s) told (applied-prelude s _)
        (apply-Holds J from_str t tool_call s refl told.holds)

  tool_calls-Told :
      (fallback : ℕ) (tool_calls : List V) (s : StreamState V)
      → Told s
      → OutcomeTold (chunk_tool_calls J from_str fallback tool_calls s)
  unfolding chunk_tool_calls
  tool_calls-Told fallback [] s told = told
  tool_calls-Told fallback (tool_call ∷ tool_calls) s told =
      then-Told (apply_openai_tool_call_delta J from_str _ tool_call s) _
        (apply-Told _ tool_call s told) λ t. tool_calls-Told (suc fallback) tool_calls t

  pub process-Told :
      (raw : V) (s : StreamState V)
      → Told s
      → OutcomeTold (process_openai_chunk_for_anthropic_stream J from_str raw s)
  unfolding process_openai_chunk_for_anthropic_stream
  process-Told raw s told = tool_calls-Told 0 _ _ (
      chunk_text-Told _ _
        (thinking-Told _ (is_placeholder s.thinking_output_policy) _ (reason-Told _ s told)))
