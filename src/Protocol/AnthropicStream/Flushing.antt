-- ===== src/Protocol/AnthropicStream/Flushing.antt =====
-- The flush of all tool calls at the end of a stream.
use unigateway.Prelude.{
  ℕ, ◌≡◌, ◌≢◌, ◌⊎◌, sym, ◌∙◌, inl, inr, Bool, true, false, Option, none, some, List, [], ◌∷◌, arith,
}
use unigateway.Prelude.Text.{Text}
use unigateway.Core.Json.{JsonValue}
use unigateway.Core.ToolCalls.{flush_openai_tool_call_stop_update}
use unigateway.Protocol.AnthropicStream.{StreamState, Outcome, going, halted, ◌then_do◌}
use unigateway.Protocol.AnthropicStream.Chunks.{apply_openai_tool_call_delta, flushed_tool_call}
use unigateway.Protocol.AnthropicStream.Trace.{Phase, opened, Traced, Owned, Holds, OutcomeHolds}
use unigateway.Prelude.Indexed.{listed, Once}
use unigateway.Protocol.AnthropicStream.Chunks.{flush_pending_tool_call_stops}
use unigateway.Protocol.AnthropicStream.Applying.{apply-Holds, apply-StaysClosed, StaysClosed}
use unigateway.Protocol.AnthropicStream.Stops.{flush-Holds, flushed-StaysClosed, Leaves}
use unigateway.Protocol.AnthropicStream.Tools.{none-ne-some}

-- No block is open once the calls have been flushed and no block is active.
abbrev pub Finished : {V : Type 0} → Outcome V → Type 0
Finished (going s) = (phases : ℕ → Phase) × (Traced s.sent phases × ((i : ℕ) → phases i ≢ opened))
Finished (halted events) = (phases : ℕ → Phase) × Traced events phases

unfoldable pub listing : List ℕ → ℕ → Bool
unfolding listed
listing ks u = listed u ks

head-Leaves : (k : ℕ) (ks : List ℕ) → listed k ks ≡ false → Leaves (listing (k ∷ ks)) (listing ks) k
unfolding listing listed
head-Leaves k ks new = record {
  fewer = λ u h. (ground arith, λ e. ground (arith, new));
  others = λ u h other. ground arith;
}

none-Finished :
    {V : Type 0} (s : StreamState V)
    → Holds (listing []) s
    → s.active_content_block_index ≡ none
    → Finished (going s)
unfolding listing listed
none-Finished s (phases, inv) idle = (phases, (inv.traced, λ i h. shut i (inv.held_open i h)))
  where
    shut :
        (i : ℕ)
        → (s.active_content_block_index ≡ some i) ⊎ Owned (listing []) s.pending_tool_calls i
        → ⊥
    shut i (inl active) = none-ne-some (sym idle ∙ active)
    shut i (inr (t, (call, live, found, own))) = cc

head_live : (k : ℕ) (ks : List ℕ) → listing (k ∷ ks) k ≡ true
unfolding listing listed
head_live k ks = ground arith

-- One call's flush, and the flush of the calls that follow.
module _ {V : Type 0} (k : ℕ) (ks : List ℕ) (new : listed k ks ≡ false)
    (rest : StreamState V → Outcome V)
    (rest-Finished : (u : StreamState V)
      → Holds (listing ks) u
      → u.active_content_block_index ≡ none
      → Finished (rest u)) where
  after_flush :
      (t : StreamState V) (o : Outcome V)
      → OutcomeHolds (listing ks) o
      → StaysClosed t o
      → t.active_content_block_index ≡ none
      → Finished (o then_do rest)
  after_flush t (halted events) (phases, traced) stays idle = (phases, traced)
  after_flush t (going u) held stays idle = rest-Finished u held (stays idle)

  after_delta :
      (s : StreamState V) (o : Outcome V)
      → OutcomeHolds (listing (k ∷ ks)) o
      → StaysClosed s o
      → s.active_content_block_index ≡ none
      → Finished (
          o
          then_do (λ t.
              flushed_tool_call (flush_openai_tool_call_stop_update t.pending_tool_calls k) t)
          then_do rest)
  after_delta s (halted events) (phases, traced) stays idle = (phases, traced)
  after_delta s (going t) held stays idle =
      after_flush t _ (flush-Holds (listing ks) t k (head_live k ks) (head-Leaves k ks new) held)
        (flushed-StaysClosed t _) (stays idle)

module _ {V : Type 0} (J : JsonValue V) (from_str : Text → Option Text) where
  pub flush-Finished :
      (ks : List ℕ) (s : StreamState V)
      → Once ks
      → Holds (listing ks) s
      → s.active_content_block_index ≡ none
      → Finished (flush_pending_tool_call_stops J from_str ks s)
  unfolding flush_pending_tool_call_stops Once
  flush-Finished [] s once holds idle = none-Finished s holds idle
  flush-Finished (k ∷ ks) s (new, once) holds idle =
      after_delta k ks new (flush_pending_tool_call_stops J from_str ks)
        (λ u. flush-Finished ks u once) s
        (apply_openai_tool_call_delta J from_str k J.empty_object s)
        (apply-Holds J from_str k J.empty_object s (head_live k ks) holds)
        (apply-StaysClosed J from_str k J.empty_object s) idle
