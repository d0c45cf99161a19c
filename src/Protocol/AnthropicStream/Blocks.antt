-- ===== src/Protocol/AnthropicStream/Blocks.antt =====
-- Every step on the active block keeps the invariant.
use unigateway.Prelude.{ℕ, ◌≡◌, refl, Bool, true, false, Option, none, some, List}
use unigateway.Prelude.Indexed.{Indexed}
use unigateway.Core.ToolCalls.{PendingOpenAiToolCall}
use unigateway.Protocol.AnthropicStream.{
  Delta, Event, BlockType, thinking_type, text_type, StreamState, reused, content_block, emit,
  send_signature, close_block, close_active_content_block, open_block, emit_in_block,
  emit_block_delta, is_placeholder,
}
use unigateway.Protocol.AnthropicStream.Trace.{Phase, opened, closed, set_phase, Inv, Holds, Closed}
use unigateway.Protocol.AnthropicStream.Keeping.{
  set_phase_same, delta-Inv, stop-Inv, start-Inv, reused-active,
}

-- What closing leaves of the rest of the state.
close_block-keeps :
    {V : Type 0} (s : StreamState V) (active : Option ℕ)
    → s.active_content_block_index ≡ active
    → ((close_block active s).next_content_index ≡ s.next_content_index)
      × ((close_block active s).pending_tool_calls ≡ s.pending_tool_calls)
      × ((close_block active s).active_content_block_index ≡ none)
unfolding close_block emit
close_block-keeps s none h = (refl, refl, h)
close_block-keeps s (some index) h = (refl, refl, refl)

pub close_active-keeps :
    {V : Type 0} (s : StreamState V)
    → ((close_active_content_block s).next_content_index ≡ s.next_content_index)
      × ((close_active_content_block s).pending_tool_calls ≡ s.pending_tool_calls)
      × ((close_active_content_block s).active_content_block_index ≡ none)
unfolding close_active_content_block
close_active-keeps s = close_block-keeps s s.active_content_block_index refl

-- Steps on whole states.
module _ {V : Type 0} {live : ℕ → Bool} where
  signature-Inv :
      (block : Option BlockType) (placeholder : Bool) (index : ℕ) {sent : List (Event V)} {next : ℕ}
      {active : Option ℕ} {calls : Indexed PendingOpenAiToolCall} {phases : ℕ → Phase}
      → phases index ≡ opened
      → Inv live sent next active calls phases
      → Inv live (send_signature block placeholder index sent) next active calls phases
  unfolding send_signature
  signature-Inv (some thinking_type) true index is_open inv = delta-Inv index _ is_open inv
  signature-Inv (some thinking_type) false index is_open inv = inv
  signature-Inv (some text_type) placeholder index is_open inv = inv
  signature-Inv none placeholder index is_open inv = inv

  close_block-Inv :
      (s : StreamState V) (active : Option ℕ) {next : ℕ} {calls : Indexed PendingOpenAiToolCall}
      (phases : ℕ → Phase)
      → Inv live s.sent next active calls phases
      → (after : ℕ → Phase) × Inv live (close_block active s).sent next none calls after
  unfolding close_block emit
  close_block-Inv s none phases inv = (phases, inv)
  close_block-Inv s (some index) phases inv = (
    set_phase phases index closed,
    stop-Inv index (
        signature-Inv s.active_content_block_type (is_placeholder s.thinking_output_policy) index
          (inv.active_open index refl) inv),
  )

  -- Closing the active block of a state, with any next index and calls.
  pub close_active-Inv :
      (s : StreamState V) {next : ℕ} {calls : Indexed PendingOpenAiToolCall} (phases : ℕ → Phase)
      → Inv live s.sent next s.active_content_block_index calls phases
      → (after : ℕ → Phase) × Inv live (close_active_content_block s).sent next none calls after
  unfolding close_active_content_block
  close_active-Inv s phases inv = close_block-Inv s s.active_content_block_index phases inv

  pub close_active-Closed :
      (s : StreamState V) → Holds live s → Closed live (close_active_content_block s)
  close_active-Closed s (phases, inv) =
      let (after, closed_inv) = close_active-Inv s phases inv in
      (
        after,
        (
          rw ((close_active-keeps s).0, (close_active-keeps s).1) closed_inv,
          (close_active-keeps s).2,
        ),
      )

  -- A delta in the block that is active, or in one started for it.
  in_block-Holds :
      (block_type : BlockType) (part : Delta) (s : StreamState V) (target : Option ℕ)
      → ((i : ℕ) → target ≡ some i → s.active_content_block_index ≡ some i)
      → Holds live s
      → Holds live (emit_in_block target block_type part s)
  unfolding emit_in_block emit open_block
  in_block-Holds block_type part s none active (phases, inv) =
      let (after, (closed_inv, e)) = close_active-Closed s (phases, inv) in
      (
        set_phase after (close_active_content_block s).next_content_index opened,
        delta-Inv (close_active_content_block s).next_content_index part
            (set_phase_same after _ opened) (start-Inv (content_block block_type) closed_inv),
      )
  in_block-Holds block_type part s (some index) active (phases, inv) =
      (phases, delta-Inv index part (inv.active_open index (active index refl)) inv)

  pub emit_block_delta-Holds :
      (block_type : BlockType) (part : Delta) (s : StreamState V)
      → Holds live s
      → Holds live (emit_block_delta block_type part s)
  unfolding emit_block_delta
  emit_block_delta-Holds block_type part s holds =
      in_block-Holds block_type part s
        (reused s.active_content_block_index s.active_content_block_type block_type)
        (λ i. reused-active s.active_content_block_index s.active_content_block_type block_type i)
        holds
