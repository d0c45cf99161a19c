-- ===== src/Protocol/AnthropicStream/Messages.antt =====
-- Whatever the chunks, the client is told a message of the Anthropic protocol.
use unigateway.Prelude.{
  ℕ, ◌≡◌, ◌⊎◌, inl, inr, refl, sym, subst, Bool, true, false, Option, none, some, List, [], ◌∷◌,
  ◌++◌, if◌then◌else◌, Result, ok, err, All,
}
use unigateway.Prelude.Text.{Text}
use unigateway.Prelude.Indexed.{Indexed, at, keys, at-listed, keys-Once}
use unigateway.Core.Json.{JsonValue}
use unigateway.Core.Capabilities.{AnthropicThinkingOutputPolicy}
use unigateway.Core.ToolCalls.{PendingOpenAiToolCall}
use unigateway.Protocol.ReasoningText.{ReasoningTextEncoding}
use unigateway.Protocol.AnthropicStream.{
  Event, StreamState, Outcome, going, halted, ◌then_do◌, emit, failed, message_start, ping, new,
  prelude_if, ensure_anthropic_stream_prelude, close_active_content_block,
}
use unigateway.Protocol.AnthropicStream.Chunks.{
  is_native_anthropic_chunk, flush_pending_tool_call_stops,
}
use unigateway.Protocol.AnthropicStream.Drive.{
  Item, chunk, stream_error, Completion, emit_output_text, drive_item, drive_items, send_end,
  close_stream, drive_end, drive_anthropic_chat_stream,
}
use unigateway.Protocol.AnthropicStream.Trace.{
  Phase, fresh, begun, Inv, Owned, CutShort, nothing, only_error, part, part_error, whole, Ends,
}
use unigateway.Protocol.AnthropicStream.Steps.{
  all, Told, OutcomeTold, text-Told, flush_parser-Told, process-Told,
}
use unigateway.Protocol.AnthropicStream.Blocks.{close_active-Closed}
use unigateway.Protocol.AnthropicStream.Flushing.{Finished, listing, flush-Finished}

-- The state before the prelude.
record Silent {V : Type 0} (s : StreamState V) : Type 0 where
  unsent : s.prelude_sent ≡ false
  empty : s.sent ≡ []
  first_index : s.next_content_index ≡ 0
  idle : s.active_content_block_index ≡ none
  no_calls : s.pending_tool_calls ≡ []

abbrev Ready : {V : Type 0} → StreamState V → Type 0
Ready s = Silent s ⊎ Told s

abbrev OutcomeReady : {V : Type 0} → Outcome V → Type 0
OutcomeReady (going s) = Ready s
OutcomeReady (halted events) = CutShort events

-- No chunk is an event of the Anthropic protocol itself.
abbrev pub OpenAiItem : {V : Type 0} → JsonValue V → Item V → Type 0
unfolding is_native_anthropic_chunk
OpenAiItem J (chunk raw) = is_native_anthropic_chunk J raw ≡ false
OpenAiItem J (stream_error reason) = Unit

begun-Inv :
    {V : Type 0} (id model : Text)
    → Inv {V = V} all (message_start id model ∷ ping ∷ []) 0 none [] (λ _. fresh)
unfolding at
begun-Inv id model = record {
  traced = begun id model;
  unused = λ i h. refl;
  active_open = λ i h. cc;
  held = λ t call live found. cc;
  apart = λ t u i call other a b found. cc;
  held_open = λ i h. cc;
}

begun_from :
    {V : Type 0} (id model : Text) {sent : List (Event V)} {next : ℕ} {active : Option ℕ}
    {calls : Indexed PendingOpenAiToolCall}
    → sent ≡ []
    → next ≡ 0
    → active ≡ none
    → calls ≡ []
    → Inv all
        ((sent ++ (message_start id model ∷ [])) ++ (ping ∷ []))
        next
        active
        calls
        (λ _. fresh)
begun_from id model e n a c = rw (e, n, a, c) (begun-Inv id model)

prelude_if-Told :
    {V : Type 0} (request_id model : Text) (s : StreamState V) (mark : Bool)
    → s.prelude_sent ≡ mark
    → Ready s
    → Told (prelude_if mark request_id model s)
unfolding prelude_if emit
prelude_if-Told request_id model s true h (inl silent) = absurd (cc (h, silent.unsent))
prelude_if-Told request_id model s true h (inr told) = told
prelude_if-Told request_id model s false h (inr told) = absurd (cc (h, told.prelude))
prelude_if-Told request_id model s false h (inl silent) = record {
  prelude = refl;
  holds =
      (λ _. fresh, begun_from _ model silent.empty silent.first_index silent.idle silent.no_calls);
}

module _ {V : Type 0} where
  -- What has been sent, cut short, and with an error after it.
  cut : (s : StreamState V) → Ready s → CutShort s.sent
  cut s (inl silent) = subst CutShort (sym silent.empty) nothing
  cut s (inr told) = part told.holds.1.traced

  cut_error : (reason : Text) (s : StreamState V) → Ready s → CutShort (emit (failed reason) s).sent
  unfolding emit
  cut_error reason s (inl silent) =
      subst (λ sent. CutShort (sent ++ (failed reason ∷ []))) (sym silent.empty) (only_error reason)
  cut_error reason s (inr told) = part_error reason told.holds.1.traced

  Told-Ready : (o : Outcome V) → OutcomeTold o → OutcomeReady o
  Told-Ready (going s) told = inr told
  Told-Ready (halted events) (phases, traced) = part traced

  either_Ends : (b : Bool) (o p : Outcome V) → Ends o → Ends p → Ends (if b then o else p)
  either_Ends true o p h k = h
  either_Ends false o p h k = k

  output_text-Told :
      (wanted : Bool) (t : Option Text) (s : StreamState V)
      → Told s
      → Told (emit_output_text wanted t s)
  unfolding emit_output_text
  output_text-Told true (some t) s told = text-Told t s told
  output_text-Told true none s told = told
  output_text-Told false t s told = told

  -- The calls to be flushed are those of the map.
  listed-Inv :
      {sent : List (Event V)} {next : ℕ} (calls : Indexed PendingOpenAiToolCall)
      {phases : ℕ → Phase}
      → Inv all sent next none calls phases
      → Inv (listing (keys calls)) sent next none calls phases
  unfolding listing
  listed-Inv calls inv = record {
    traced = inv.traced;
    unused = inv.unused;
    active_open = inv.active_open;
    held = λ t call live. inv.held t call refl;
    apart = λ t u i call other a b. inv.apart t u i call other refl refl;
    held_open = λ i h. kept i (inv.held_open i h);
  }
    where
      kept :
          (i : ℕ)
          → (none ≡ some i) ⊎ Owned all calls i
          → (none ≡ some i) ⊎ Owned (listing (keys calls)) calls i
      kept i (inl e) = inl e
      kept i (inr (t, (call, live, found, own))) =
          inr (t, (call, at-listed t call calls found, found, own))

  closed-Finished :
      (J : JsonValue V) (from_str : Text → Option Text) (s : StreamState V)
      → Told s
      → Finished (
          flush_pending_tool_call_stops J from_str
            (keys (close_active_content_block s).pending_tool_calls)
            (close_active_content_block s))
  closed-Finished J from_str s told =
      let (phases, (inv, idle)) = close_active-Closed s told.holds in
      let closed = close_active_content_block s in
      flush-Finished J from_str (keys closed.pending_tool_calls) closed
        (keys-Once closed.pending_tool_calls)
        (phases, rw idle (listed-Inv closed.pending_tool_calls inv)) idle

module _ {V : Type 0} (J : JsonValue V) (from_str : Text → Option Text)
    (request_id model : Text) where
  prelude-Told :
      (s : StreamState V) → Ready s → Told (ensure_anthropic_stream_prelude request_id model s)
  unfolding ensure_anthropic_stream_prelude
  prelude-Told s ready = prelude_if-Told request_id model s s.prelude_sent refl ready

  item-Ready :
      (item : Item V) (s : StreamState V)
      → OpenAiItem J item
      → Ready s
      → OutcomeReady (drive_item J from_str request_id model item s)
  unfolding drive_item
  item-Ready (chunk raw) s openai ready =
      rw openai (Told-Ready _ (process-Told J from_str raw _ (prelude-Told s ready)))
  item-Ready (stream_error reason) s openai ready = cut_error reason s ready

  end-Ends :
      (completion : Completion) (o : Outcome V)
      → Finished o
      → Ends (o then_do λ t. going (send_end J from_str request_id model completion t))
  unfolding send_end emit
  end-Ends completion (going s) (phases, (traced, shut)) = whole _ _ traced shut
  end-Ends completion (halted events) (phases, traced) = part traced

  drive_end-Ends :
      (completion : Result Completion Text) (s : StreamState V)
      → Ready s
      → Ends (drive_end J from_str request_id model completion s)
  unfolding drive_end close_stream
  drive_end-Ends (err reason) s ready = cut_error reason s ready
  drive_end-Ends (ok completion) s ready = either_Ends s.saw_native_anthropic _ _ (cut s ready) (
      end-Ends completion _ (
        closed-Finished J from_str _
          (flush_parser-Told _ (output_text-Told _ _ _ (prelude-Told s ready)))))

  items-Ends :
      (items : List (Item V)) (completion : Result Completion Text) (s : StreamState V)
      → All (OpenAiItem J) items
      → Ready s
      → Ends (
          drive_items J from_str request_id model items s then_do λ t.
          drive_end J from_str request_id model completion t)
  unfolding drive_items
  items-Ends [] completion s openai ready = drive_end-Ends completion s ready
  items-Ends (item ∷ items) completion s (first, openai) ready =
      go (drive_item J from_str request_id model item s) (item-Ready item s first ready)
        (λ t. items-Ends items completion t openai)
    where
      go :
          (o : Outcome V)
          → OutcomeReady o
          → ((t : StreamState V)
              → Ready t
              → Ends (
                  drive_items J from_str request_id model items t then_do λ t.
                  drive_end J from_str request_id model completion t))
          → Ends (
              o then_do (λ t. drive_items J from_str request_id model items t) then_do λ t.
              drive_end J from_str request_id model completion t)
      go (going t) ready rest = rest t ready
      go (halted events) cut rest = cut

  -- For any chunks of OpenAI's protocol, errors of the stream and completion: where the driver goes
  -- through to its end, it has sent a whole message: the prelude first; every content index started
  -- at most once, with deltas only between its start and its stop; every block that was started
  -- stopped before the two last events. Where it ends early, it has sent the beginning of such a
  -- message, or nothing, and possibly an error after it.
  pub drive_anthropic_chat_stream-Ends :
      (encoding : Option ReasoningTextEncoding) (policy : AnthropicThinkingOutputPolicy)
      (items : List (Item V)) (completion : Result Completion Text)
      → All (OpenAiItem J) items
      → Ends
          (drive_anthropic_chat_stream J from_str request_id model encoding policy items completion)
  unfolding drive_anthropic_chat_stream
  drive_anthropic_chat_stream-Ends encoding policy items completion openai =
      items-Ends items completion (new encoding policy) openai (
        inl (record {
          unsent = refl;
          empty = refl;
          first_index = refl;
          idle = refl;
          no_calls = refl;
        }))
