-- ===== src/Core/ToolCalls/Stopping.antt =====
-- What the end of the stream does to the entry of a tool call.
use unigateway.Prelude.{
  ℕ, ◌≡◌, refl, sym, ap, Bool, true, false, Option, none, some, unwrap_or, Ensures,
  Ensures-and_then, if◌then◌else◌,
}
use unigateway.Prelude.Indexed.{Indexed, at, put}
use unigateway.Core.ToolCalls.{
  PendingOpenAiToolCall, AnthropicToolUseStart, AnthropicInputJsonDelta, OpenAiToolCallStopUpdate,
  emitted, unsent, stop_update, stop_entry, stored, no_stop, blank,
  flush_openai_tool_call_stop_update,
}
use unigateway.Core.ToolCalls.Updates.{OfCall, emitted-Emitted, Begins, Emitted}

-- What a stop of a call that has not been stopped leaves: nothing to send for a call without
-- contents, else the stop of its index.
pub data StopStep (i : ℕ) (p left : PendingOpenAiToolCall) : OpenAiToolCallStopUpdate → Type 0 where
  no_block : p.started ≡ false → StopStep i p left no_stop
  block :
      (begin : Option AnthropicToolUseStart) (delta : Option AnthropicInputJsonDelta)
      → Begins i p.started true begin
      → OfCall i true delta
      → StopStep i p left (record { start = begin; delta = delta; stop_index = some i })

stop-StopStep :
    (started empty : Bool) (i : ℕ) (p : PendingOpenAiToolCall)
    → p.started ≡ started
    → Ensures (λ (left, update). StopStep i p left update) (stop_update started empty i p)
unfolding stop_update
stop-StopStep true empty i p h = block none none (sym h) tt
stop-StopStep false true i p h = no_block h
stop-StopStep false false i p h =
    Ensures-and_then (λ (q, delta). Emitted (unsent p) i (record p { started = true }) q delta)
      (λ (left, update). StopStep i p left update)
      (emitted (unsent p) i (record p { started = true })) _
      (emitted-Emitted (unsent p) i (record p { started = true }))
      λ (left, delta) step. block (some _) delta (refl, h, refl) (OfCall-true delta step.of_call)
  where
    OfCall-true :
        (delta : Option AnthropicInputJsonDelta) → OfCall i (unsent p) delta → OfCall i true delta
    OfCall-true none h = tt
    OfCall-true (some delta) (h, k) = (h, refl)

-- What the flush of a call leaves.
pub record Flushed (tool_index i : ℕ) (p : PendingOpenAiToolCall)
    (calls after : Indexed PendingOpenAiToolCall) (update : OpenAiToolCallStopUpdate) : Type 0 where
  pub left : PendingOpenAiToolCall
  pub stored_as : after ≡ put tool_index left calls
  pub step : StopStep i p left update

entry-Flushed :
    (calls : Indexed PendingOpenAiToolCall) (tool_index i : ℕ) (p : PendingOpenAiToolCall)
    → p.stopped ≡ false
    → p.anthropic_index ≡ some i
    → Ensures
        (λ (after, update). Flushed tool_index i p calls after update)
        (stop_entry calls tool_index (some p))
unfolding stop_entry
entry-Flushed calls tool_index i p unstopped own =
    decided p.stopped (unwrap_or p.anthropic_index tool_index) unstopped
      (ap (λ o. unwrap_or o tool_index) own)
  where
    kept :
        (o : Option (PendingOpenAiToolCall × OpenAiToolCallStopUpdate))
        → Ensures (λ (left, update). StopStep i p left update) o
        → Ensures
            (λ (after, update). Flushed tool_index i p calls after update)
            (stored calls tool_index o)
    kept none h = tt
    kept (some (left, update)) h = record { left = left; stored_as = refl; step = h }

    decided :
        (stopped : Bool) (index : ℕ)
        → stopped ≡ false
        → index ≡ i
        → Ensures
            (λ (after, update). Flushed tool_index i p calls after update)
            (if stopped
              then some (calls, no_stop)
              else stored calls tool_index (stop_update p.started (blank p) index p))
    decided true index h k = cc
    decided false index h k =
        rw k
          (kept (stop_update p.started (blank p) i p) (stop-StopStep p.started (blank p) i p refl))

pub flush-Flushed :
    (calls : Indexed PendingOpenAiToolCall) (tool_index i : ℕ) (p : PendingOpenAiToolCall)
    → at tool_index calls ≡ some p
    → p.stopped ≡ false
    → p.anthropic_index ≡ some i
    → Ensures
        (λ (after, update). Flushed tool_index i p calls after update)
        (flush_openai_tool_call_stop_update calls tool_index)
unfolding flush_openai_tool_call_stop_update
flush-Flushed calls tool_index i p found unstopped own =
    rw found (entry-Flushed calls tool_index i p unstopped own)

pub flush-absent :
    (calls : Indexed PendingOpenAiToolCall) (tool_index : ℕ)
    → at tool_index calls ≡ none
    → flush_openai_tool_call_stop_update calls tool_index ≡ some (calls, no_stop)
unfolding flush_openai_tool_call_stop_update stop_entry
flush-absent calls tool_index absent = rw absent refl
