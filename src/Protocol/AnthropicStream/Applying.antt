-- ===== src/Protocol/AnthropicStream/Applying.antt =====
-- The whole step of a delta of a tool call keeps the invariant.
use unigateway.Prelude.{
  ℕ, ◌≡◌, refl, sym, subst, Bool, true, Option, none, some, Ensures, unwrap_or,
}
use unigateway.Prelude.Text.{Text}
use unigateway.Prelude.Indexed.{at, put}
use unigateway.Core.Json.{JsonValue}
use unigateway.Core.ToolCalls.{
  PendingOpenAiToolCall, default_pending, AnthropicToolUseStart, AnthropicInputJsonDelta, Applied,
}
use unigateway.Protocol.AnthropicStream.{StreamState, Outcome, going, halted}
use unigateway.Protocol.AnthropicStream.Chunks.{
  send_tool_start, close_before, send_update, applied_tool_call, apply_openai_tool_call_delta,
}
use unigateway.Protocol.AnthropicStream.Trace.{Phase, opened, set_phase, Inv, Holds, OutcomeHolds}
use unigateway.Core.ToolCalls.Updates.{OfCall, Begins, Stepped, apply-Stepped}
use unigateway.Protocol.AnthropicStream.Blocks.{close_active-Inv, close_active-keeps}
use unigateway.Protocol.AnthropicStream.Deltas.{Allotted, continued-Inv, begun-Inv}

-- Where no block is active before a step, none is after it.
abbrev pub StaysClosed : {V : Type 0} → StreamState V → Outcome V → Type 0
StaysClosed s (going t) = s.active_content_block_index ≡ none → t.active_content_block_index ≡ none
StaysClosed s (halted events) = Unit

module _ {V : Type 0} {live : ℕ → Bool} where
  sent-Holds :
      (s : StreamState V) (phases : ℕ → Phase) (t i after : ℕ) (o : Option PendingOpenAiToolCall)
      (left : PendingOpenAiToolCall) (begin : Option AnthropicToolUseStart)
      (part : Option AnthropicInputJsonDelta)
      → at t s.pending_tool_calls ≡ o
      → live t ≡ true
      → Inv live s.sent s.next_content_index s.active_content_block_index s.pending_tool_calls
          phases
      → Allotted (unwrap_or o default_pending) i s.next_content_index after
      → left.anthropic_index ≡ some i
      → left.stopped ≡ (unwrap_or o default_pending).stopped
      → Begins i (unwrap_or o default_pending).started left.started begin
      → OfCall i left.started part
      → Holds live (
          send_update begin part (
            close_before begin (record s {
              pending_tool_calls = put t left s.pending_tool_calls;
              next_content_index = after;
            })))
  unfolding send_update close_before send_tool_start
  sent-Holds s phases t i after o left none part found is_live inv allotted own stopped same
        of_call =
      (
        phases,
        continued-Inv t i after o left part found is_live inv allotted own stopped same of_call,
      )
  sent-Holds s phases t i after o left (some begin) part found is_live inv allotted own stopped
        begins of_call =
      let (after_close, closed_inv) =
        close_active-Inv
          (record s {
            pending_tool_calls = put t left s.pending_tool_calls;
            next_content_index = after;
          })
          phases inv in
      (
        set_phase after_close begin.anthropic_index opened,
        rw
            (
              (close_active-keeps (record s {
                pending_tool_calls = put t left s.pending_tool_calls;
                next_content_index = after;
              })).0,
              (close_active-keeps (record s {
                pending_tool_calls = put t left s.pending_tool_calls;
                next_content_index = after;
              })).1,
              (close_active-keeps (record s {
                pending_tool_calls = put t left s.pending_tool_calls;
                next_content_index = after;
              })).2,
            )
            (begun-Inv t i after o left begin part found is_live closed_inv allotted own stopped
              begins of_call),
      )

  applied-Holds :
      (s : StreamState V) (t : ℕ) (answer : Option Applied)
      → live t ≡ true
      → Holds live s
      → Ensures
          (Stepped t s.next_content_index
            (unwrap_or (at t s.pending_tool_calls) default_pending)
            s.pending_tool_calls)
          answer
      → OutcomeHolds live (applied_tool_call answer s)
  unfolding applied_tool_call
  applied-Holds s t none is_live (phases, inv) step = (phases, inv.traced)
  applied-Holds s t (some applied) is_live (phases, inv) step =
      subst
        (λ calls. Holds live (
          send_update applied.update.start applied.update.delta (
            close_before applied.update.start (record s {
              pending_tool_calls = calls;
              next_content_index = applied.next_content_index;
            }))))
        (sym step.stored_as)
        (sent-Holds s phases t step.index applied.next_content_index (at t s.pending_tool_calls)
          step.left applied.update.start applied.update.delta refl is_live inv step.allotted
          step.own step.stop_kept step.begins step.of_call)

close_before-closed :
    {V : Type 0} (begin : Option AnthropicToolUseStart) (s : StreamState V)
    → s.active_content_block_index ≡ none
    → (close_before begin s).active_content_block_index ≡ none
unfolding close_before
close_before-closed none s h = h
close_before-closed (some begin) s h = (close_active-keeps s).2

applied-StaysClosed :
    {V : Type 0} (s : StreamState V) (answer : Option Applied)
    → StaysClosed s (applied_tool_call answer s)
unfolding applied_tool_call send_update
applied-StaysClosed s none = tt
applied-StaysClosed s (some applied) = close_before-closed applied.update.start _

module _ {V : Type 0} (J : JsonValue V) (from_str : Text → Option Text) where
  pub apply-Holds :
      {live : ℕ → Bool} (t : ℕ) (tool_call : V) (s : StreamState V)
      → live t ≡ true
      → Holds live s
      → OutcomeHolds live (apply_openai_tool_call_delta J from_str t tool_call s)
  unfolding apply_openai_tool_call_delta
  apply-Holds t tool_call s is_live holds =
      applied-Holds s t _ is_live holds
        (apply-Stepped J from_str s.pending_tool_calls s.next_content_index t tool_call)

  pub apply-StaysClosed :
      (t : ℕ) (tool_call : V) (s : StreamState V)
      → StaysClosed s (apply_openai_tool_call_delta J from_str t tool_call s)
  unfolding apply_openai_tool_call_delta
  apply-StaysClosed t tool_call s = applied-StaysClosed s _
