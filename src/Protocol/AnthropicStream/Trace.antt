-- ===== src/Protocol/AnthropicStream/Trace.antt =====
-- The events that the Anthropic protocol allows in a row, and the state of the stream with them.
use unigateway.Prelude.{
  ℕ, ◌≤◌, ◌<◌, ◌≡◌, ◌≢◌, ◌⊎◌, Bool, true, false, Option, none, some, List, [], ◌∷◌, ◌++◌, ◌==◌,
  if◌then◌else◌,
}
use unigateway.Prelude.Text.{Text}
use unigateway.Prelude.Indexed.{Indexed, at}
use unigateway.Core.ToolCalls.{PendingOpenAiToolCall}
use unigateway.Protocol.AnthropicStream.{
  ContentBlock, Delta, AnthropicUsage, Event, message_start, ping, content_block_start,
  content_block_delta, content_block_stop, message_delta, message_stop, failed, StreamState,
  Outcome, going, halted,
}

-- A content index is used for one block, which is open from its start to its stop.
pub data Phase : Type 0 where
  fresh opened closed : Phase

abbrev pub set_phase : (ℕ → Phase) → ℕ → Phase → ℕ → Phase
set_phase phases i phase j = if i == j then phase else phases j

-- What may be sent before the end: the prelude, then starts of fresh indexes, and deltas and stops
-- of open ones.
pub data Traced {V : Type 0} : List (Event V) → (ℕ → Phase) → Type 0 where
  begun : (id model : Text) → Traced (message_start id model ∷ ping ∷ []) (λ _. fresh)
  start :
      {events : List (Event V)} {phases : ℕ → Phase} (index : ℕ) (block : ContentBlock)
      → phases index ≡ fresh
      → Traced events phases
      → Traced (events ++ (content_block_start index block ∷ [])) (set_phase phases index opened)
  delta :
      {events : List (Event V)} {phases : ℕ → Phase} (index : ℕ) (part : Delta)
      → phases index ≡ opened
      → Traced events phases
      → Traced (events ++ (content_block_delta index part ∷ [])) phases
  stop :
      {events : List (Event V)} {phases : ℕ → Phase} (index : ℕ)
      → phases index ≡ opened
      → Traced events phases
      → Traced (events ++ (content_block_stop index ∷ [])) (set_phase phases index closed)

-- What has been sent when the task is cut short: nothing or a part of a message, and maybe an
-- error after it.
pub data CutShort {V : Type 0} : List (Event V) → Type 0 where
  nothing : CutShort []
  only_error : (reason : Text) → CutShort (failed reason ∷ [])
  part : {events : List (Event V)} {phases : ℕ → Phase} → Traced events phases → CutShort events
  part_error :
      {events : List (Event V)} {phases : ℕ → Phase} (reason : Text)
      → Traced events phases
      → CutShort (events ++ (failed reason ∷ []))

-- A whole message: every block that was started has been stopped, and the two last events follow.
pub data Whole {V : Type 0} : List (Event V) → Type 0 where
  whole :
      {events : List (Event V)} {phases : ℕ → Phase} (stop_reason : Text) (usage : AnthropicUsage)
      → Traced events phases
      → ((i : ℕ) → phases i ≢ opened)
      → Whole ((events ++ (message_delta stop_reason usage ∷ [])) ++ (message_stop ∷ []))

abbrev pub Ends : {V : Type 0} → Outcome V → Type 0
Ends (going s) = Whole s.sent
Ends (halted events) = CutShort events

abbrev pub started_phase : Bool → Phase
started_phase true = opened
started_phase false = fresh

-- A tool call of its own index, allocated, whose block is open from `started` on.
pub record Held (next : ℕ) (active : Option ℕ) (phases : ℕ → Phase) (call : PendingOpenAiToolCall)
    (index : ℕ) : Type 0 where
  pub own : call.anthropic_index ≡ some index
  pub below : index < next
  pub phase : phases index ≡ started_phase call.started
  pub unstopped : call.stopped ≡ false
  pub inactive : active ≢ some index

-- A call that has not been flushed has the index for its own.
abbrev pub Owned : (ℕ → Bool) → Indexed PendingOpenAiToolCall → ℕ → Type 0
Owned live calls i =
    (t : ℕ) × ((call : PendingOpenAiToolCall) × (live t ≡ true)
      × (at t calls ≡ some call)
      × (call.anthropic_index ≡ some i))

-- The channel, the next index, the active block and the tool calls, `live` being the calls that
-- have not been flushed.
pub record Inv {V : Type 0} (live : ℕ → Bool) (sent : List (Event V)) (next : ℕ) (active : Option ℕ)
    (calls : Indexed PendingOpenAiToolCall) (phases : ℕ → Phase) : Type 0 where
  pub traced : Traced sent phases
  pub unused : (i : ℕ) → next ≤ i → phases i ≡ fresh
  pub active_open : (i : ℕ) → active ≡ some i → phases i ≡ opened
  pub held :
      (t : ℕ) (call : PendingOpenAiToolCall)
      → live t ≡ true
      → at t calls ≡ some call
      → (i : ℕ) × Held next active phases call i
  pub apart :
      (t u i : ℕ) (call other : PendingOpenAiToolCall)
      → live t ≡ true
      → live u ≡ true
      → at t calls ≡ some call
      → at u calls ≡ some other
      → call.anthropic_index ≡ some i
      → other.anthropic_index ≡ some i
      → t ≡ u
  pub held_open : (i : ℕ) → phases i ≡ opened → (active ≡ some i) ⊎ Owned live calls i

abbrev pub Holds : {V : Type 0} → (ℕ → Bool) → StreamState V → Type 0
Holds live s =
    (phases : ℕ → Phase) × Inv live s.sent s.next_content_index s.active_content_block_index
      s.pending_tool_calls phases

-- The invariant where no block is active.
abbrev pub Closed : {V : Type 0} → (ℕ → Bool) → StreamState V → Type 0
Closed live s =
    (phases : ℕ → Phase) × (Inv live s.sent s.next_content_index none s.pending_tool_calls phases
      × (s.active_content_block_index ≡ none))

-- A step that goes on keeps the invariant; one that ends the task has sent a part of a message.
abbrev pub OutcomeHolds : {V : Type 0} → (ℕ → Bool) → Outcome V → Type 0
OutcomeHolds live (going s) = Holds live s
OutcomeHolds live (halted events) = (phases : ℕ → Phase) × Traced events phases
