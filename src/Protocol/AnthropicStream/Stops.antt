-- ===== src/Protocol/AnthropicStream/Stops.antt =====
-- The stops of the tool calls at the end of a stream.
use unigateway.Prelude.{
  ℕ, ◌≡◌, ◌≢◌, ◌⊎◌, refl, sym, subst, ap, ◌∙◌, inl, inr, Bool, true, Option, none, some, List, [],
  ◌∷◌, ◌++◌, Ensures,
}
use unigateway.Prelude.Indexed.{Indexed, at, put}
use unigateway.Core.ToolCalls.{
  PendingOpenAiToolCall, AnthropicToolUseStart, AnthropicInputJsonDelta, OpenAiToolCallStopUpdate,
  flush_openai_tool_call_stop_update, no_stop,
}
use unigateway.Protocol.AnthropicStream.{
  tool_use, Event, content_block_start, content_block_stop, StreamState, emit,
}
use unigateway.Protocol.AnthropicStream.Chunks.{
  send_tool_start, send_tool_delta, send_update, send_stop, flushed_tool_call,
}
use unigateway.Protocol.AnthropicStream.Trace.{
  Phase, opened, closed, set_phase, Traced, start, delta, stop, started_phase, Held, Owned, Inv,
  Holds, OutcomeHolds,
}
use unigateway.Core.ToolCalls.Stopping.{
  StopStep, no_block, block, Flushed, flush-Flushed, flush-absent,
}
use unigateway.Core.ToolCalls.Updates.{OfCall, Begins}
use unigateway.Protocol.AnthropicStream.Applying.{StaysClosed}
use unigateway.Protocol.AnthropicStream.Deltas.{call-Before}
use unigateway.Protocol.AnthropicStream.Keeping.{
  set_phase_same, set_phase_other, fresh-ne-opened, closed-ne-opened,
}
use unigateway.Protocol.AnthropicStream.Tools.{none-ne-some, retire-Inv}

-- The events of one call's stop, after which its block is not open.
record Shut {V : Type 0} (sent : List (Event V)) (phases : ℕ → Phase) (i : ℕ) : Type 0 where
  after : ℕ → Phase
  pub traced : Traced sent after
  agree : (j : ℕ) → i ≢ j → after j ≡ phases j
  pub shut : after i ≢ opened

module _ {V : Type 0} {sent : List (Event V)} {phases : ℕ → Phase} where
  delta-Traced :
      (i : ℕ) (part : Option AnthropicInputJsonDelta)
      → OfCall i true part
      → phases i ≡ opened
      → Traced sent phases
      → Traced (send_tool_delta part sent) phases
  unfolding send_tool_delta
  delta-Traced i none of_call is_open traced = traced
  delta-Traced i (some part) (of_index, begun) is_open traced =
      delta part.anthropic_index _ (ap phases of_index ∙ is_open) traced

  stop-Shut :
      (i : ℕ) (part : Option AnthropicInputJsonDelta)
      → OfCall i true part
      → phases i ≡ opened
      → Traced sent phases
      → Shut (send_tool_delta part sent ++ (content_block_stop i ∷ [])) phases i
  stop-Shut i part of_call is_open traced = record {
    after = set_phase phases i closed;
    traced = stop i is_open (delta-Traced i part of_call is_open traced);
    agree = λ j e. set_phase_other phases i j closed e;
    shut = λ e. closed-ne-opened (sym (set_phase_same phases i closed) ∙ e);
  }

call-Shut :
    {V : Type 0} {sent : List (Event V)} {phases : ℕ → Phase} (i : ℕ) (started : Bool)
    (begin : Option AnthropicToolUseStart) (part : Option AnthropicInputJsonDelta)
    → Begins i started true begin
    → OfCall i true part
    → phases i ≡ started_phase started
    → Traced sent phases
    → Shut
        (send_tool_delta part (send_tool_start begin sent) ++ (content_block_stop i ∷ []))
        phases
        i
unfolding send_tool_start
call-Shut {phases = phases} i started none part begun of_call phase traced =
    stop-Shut i part of_call (phase ∙ ap started_phase (sym begun)) traced
call-Shut {sent = sent} {phases = phases} i started (some begin) part (of_index, unstarted, begun)
      of_call phase traced =
    record {
      after = shut.after;
      traced = shut.traced;
      agree = λ j e.
          shut.agree j e
          ∙ set_phase_other phases begin.anthropic_index j opened (λ k. e (sym of_index ∙ k));
      shut = shut.shut;
    }
  where
    shut :
        Shut
          (send_tool_delta part (
              sent
              ++ (content_block_start begin.anthropic_index (tool_use begin.id begin.name) ∷ []))
            ++ (content_block_stop i ∷ []))
          (set_phase phases begin.anthropic_index opened)
          i
    shut =
        stop-Shut i part of_call
          (ap (set_phase phases begin.anthropic_index opened) (sym of_index)
            ∙ set_phase_same phases begin.anthropic_index opened)
          (start begin.anthropic_index (tool_use begin.id begin.name)
            (ap phases of_index ∙ phase ∙ ap started_phase unstarted) traced)

-- A call that is flushed leaves the live ones.
pub record Leaves (live left_live : ℕ → Bool) (t : ℕ) : Type 0 where
  pub fewer : (u : ℕ) → left_live u ≡ true → (live u ≡ true) × (t ≢ u)
  pub others : (u : ℕ) → live u ≡ true → t ≢ u → left_live u ≡ true

-- There was no call of this index.
absent-Inv :
    {V : Type 0} {live : ℕ → Bool} {sent : List (Event V)} {next : ℕ} {active : Option ℕ}
    {calls : Indexed PendingOpenAiToolCall} {phases : ℕ → Phase} (left_live : ℕ → Bool) (t : ℕ)
    → at t calls ≡ none
    → Leaves live left_live t
    → Inv live sent next active calls phases
    → Inv left_live sent next active calls phases
absent-Inv {live = live} {active = active} {calls = calls} left_live t absent leaves inv = record {
  traced = inv.traced;
  unused = inv.unused;
  active_open = inv.active_open;
  held = λ u call a k. inv.held u call (leaves.fewer u a).0 k;
  apart =
      λ u v j call other a b. inv.apart u v j call other (leaves.fewer u a).0 (leaves.fewer v b).0;
  held_open = λ j h. kept (inv.held_open j h);
}
  where
    kept :
        {j : ℕ}
        → (active ≡ some j) ⊎ Owned live calls j
        → (active ≡ some j) ⊎ Owned left_live calls j
    kept (inl e) = inl e
    kept (inr (u, (call, a, found, own))) = inr (
      u,
      (
        call,
        leaves.others u a (λ e. none-ne-some (sym absent ∙ ap (λ x. at x calls) e ∙ found)),
        found,
        own,
      ),
    )

unsent :
    {V : Type 0} {live : ℕ → Bool} (s : StreamState V) (phases : ℕ → Phase)
    → Inv live s.sent s.next_content_index s.active_content_block_index s.pending_tool_calls phases
    → OutcomeHolds live (flushed_tool_call (some (s.pending_tool_calls, no_stop)) s)
unfolding flushed_tool_call send_stop
unsent s phases inv = (phases, inv)

module _ {V : Type 0} {live : ℕ → Bool} (left_live : ℕ → Bool) (s : StreamState V) (t : ℕ) where
  step-Holds :
      (phases : ℕ → Phase) (i : ℕ) (call left : PendingOpenAiToolCall)
      {update : OpenAiToolCallStopUpdate}
      → at t s.pending_tool_calls ≡ some call
      → live t ≡ true
      → Leaves live left_live t
      → Inv live s.sent s.next_content_index s.active_content_block_index s.pending_tool_calls
          phases
      → Held s.next_content_index s.active_content_block_index phases call i
      → StopStep i call left update
      → Holds left_live (
          send_stop update update.stop_index
            (record s { pending_tool_calls = put t left s.pending_tool_calls }))
  unfolding send_stop send_update emit
  step-Holds phases i call left found is_live leaves inv held (no_block unstarted) = (
    phases,
    retire-Inv left_live t i left s.sent phases call.started leaves.fewer leaves.others inv
        (call-Before t i call found is_live inv held) held.below inv.traced (λ j e. refl)
        (λ e. fresh-ne-opened (sym (held.phase ∙ ap started_phase unstarted) ∙ e)),
  )
  step-Holds phases i call left found is_live leaves inv held (block begin part begins of_call) = (
    shut.after,
    retire-Inv left_live t i left _ shut.after call.started leaves.fewer leaves.others inv
        (call-Before t i call found is_live inv held) held.below shut.traced shut.agree shut.shut,
  )
    where
      shut :
          Shut
            (send_tool_delta part (send_tool_start begin s.sent) ++ (content_block_stop i ∷ []))
            phases
            i
      shut = call-Shut i call.started begin part begins of_call held.phase inv.traced

  flushed-Holds :
      (phases : ℕ → Phase) (i : ℕ) (call : PendingOpenAiToolCall)
      (answer : Option (Indexed PendingOpenAiToolCall × OpenAiToolCallStopUpdate))
      → at t s.pending_tool_calls ≡ some call
      → live t ≡ true
      → Leaves live left_live t
      → Inv live s.sent s.next_content_index s.active_content_block_index s.pending_tool_calls
          phases
      → Held s.next_content_index s.active_content_block_index phases call i
      → Ensures (λ (after, update). Flushed t i call s.pending_tool_calls after update) answer
      → OutcomeHolds left_live (flushed_tool_call answer s)
  unfolding flushed_tool_call
  flushed-Holds phases i call none found is_live leaves inv held flushed = (phases, inv.traced)
  flushed-Holds phases i call (some (after, update)) found is_live leaves inv held flushed =
      subst
        (λ calls.
          Holds left_live
            (send_stop update update.stop_index (record s { pending_tool_calls = calls })))
        (sym flushed.stored_as)
        (step-Holds phases i call flushed.left found is_live leaves inv held flushed.step)

  pub flush-Holds :
      live t ≡ true
      → Leaves live left_live t
      → Holds live s
      → OutcomeHolds left_live
          (flushed_tool_call (flush_openai_tool_call_stop_update s.pending_tool_calls t) s)
  flush-Holds is_live leaves (phases, inv) = by_entry (at t s.pending_tool_calls) refl
    where
      by_entry :
          (o : Option PendingOpenAiToolCall)
          → at t s.pending_tool_calls ≡ o
          → OutcomeHolds left_live
              (flushed_tool_call (flush_openai_tool_call_stop_update s.pending_tool_calls t) s)
      by_entry none absent =
          rw (flush-absent s.pending_tool_calls t absent)
            (unsent s phases (absent-Inv left_live t absent leaves inv))
      by_entry (some call) found =
          let (i, held) = inv.held t call is_live found in
          flushed-Holds phases i call _ found is_live leaves inv held
            (flush-Flushed s.pending_tool_calls t i call found held.unstopped held.own)

send_stop-active :
    {V : Type 0} (update : OpenAiToolCallStopUpdate) (o : Option ℕ) (s : StreamState V)
    → (send_stop update o s).active_content_block_index ≡ s.active_content_block_index
unfolding send_stop send_update emit
send_stop-active update none s = refl
send_stop-active update (some index) s = refl

pub flushed-StaysClosed :
    {V : Type 0} (s : StreamState V)
    (answer : Option (Indexed PendingOpenAiToolCall × OpenAiToolCallStopUpdate))
    → StaysClosed s (flushed_tool_call answer s)
unfolding flushed_tool_call
flushed-StaysClosed s none = tt
flushed-StaysClosed s (some (calls, update)) = λ h. send_stop-active update update.stop_index _ ∙ h
