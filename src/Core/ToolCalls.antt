-- ===== src/Core/ToolCalls.antt =====
-- unigateway-core/src/conversion/tool_calls.rs: tool calls out of the deltas of a stream. `none` is
-- the panic of a slice that cuts a character.
pub mod Arguments
pub mod Updates
pub mod Stopping
use unigateway.Prelude.{
  ℕ, ◌+◌, Bool, true, false, not, ◌&&◌, Option, none, some, ltb, if◌then◌else◌, is_empty, is_some,
  unwrap_or, and_then, [],
}
use unigateway.Prelude.Text.{Text, codes, byte_len}
use unigateway.Prelude.Indexed.{Indexed, at, put}
use unigateway.Core.Json.{JsonValue}
use unigateway.Core.ToolCalls.Arguments.{
  split_bytes, merge_openai_tool_call_arguments, normalize_openai_tool_call_arguments,
}

pub record PendingOpenAiToolCall : Type 0 where
  pub id : Text
  pub name : Text
  pub raw_arguments : Text
  pub arguments : Text
  pub emitted_argument_len : ℕ
  pub anthropic_index : Option ℕ
  pub started : Bool
  pub stopped : Bool

abbrev pub default_pending : PendingOpenAiToolCall
default_pending = record {
  id = [];
  name = [];
  raw_arguments = [];
  arguments = [];
  emitted_argument_len = 0;
  anthropic_index = none;
  started = false;
  stopped = false;
}

pub record AnthropicToolUseStart : Type 0 where
  pub anthropic_index : ℕ
  pub id : Text
  pub name : Text

pub record AnthropicInputJsonDelta : Type 0 where
  pub anthropic_index : ℕ
  pub partial_json : Text

pub record OpenAiToolCallDeltaUpdate : Type 0 where
  pub start : Option AnthropicToolUseStart
  pub delta : Option AnthropicInputJsonDelta

pub record OpenAiToolCallStopUpdate : Type 0 where
  pub start : Option AnthropicToolUseStart
  pub delta : Option AnthropicInputJsonDelta
  pub stop_index : Option ℕ

abbrev pub no_stop : OpenAiToolCallStopUpdate
no_stop = record { start = none; delta = none; stop_index = none }

-- The entry of a call, with a content index of its own from the first delta on.
abbrev pub allocated : PendingOpenAiToolCall → Option ℕ → ℕ → PendingOpenAiToolCall × ℕ
allocated pending none next = (record pending { anthropic_index = some next }, next + 1)
allocated pending (some index) next = (pending, next)

abbrev pub set_id : PendingOpenAiToolCall → Option Text → PendingOpenAiToolCall
set_id pending none = pending
set_id pending (some id) = record pending { id = id }

abbrev pub set_name : PendingOpenAiToolCall → Option Text → PendingOpenAiToolCall
set_name pending none = pending
set_name pending (some name) = record pending { name = name }

abbrev pub started_by : Bool → PendingOpenAiToolCall → PendingOpenAiToolCall
started_by false pending = pending
started_by true pending = record pending { started = true }

abbrev pub start_of : Bool → ℕ → PendingOpenAiToolCall → Option AnthropicToolUseStart
start_of false index pending = none
start_of true index pending =
    some (record { anthropic_index = index; id = pending.id; name = pending.name })

abbrev pub can_start : PendingOpenAiToolCall → Bool
can_start pending =
    not pending.started && (not (is_empty pending.id) && not (is_empty pending.name))

-- The arguments that have not been emitted, under the test that there are any.
unfoldable pub unsent : PendingOpenAiToolCall → Bool
unfolding byte_len
unsent pending = ltb pending.emitted_argument_len (byte_len pending.arguments)

unfoldable pub emitted :
    Bool
    → ℕ
    → PendingOpenAiToolCall
    → Option (PendingOpenAiToolCall × Option AnthropicInputJsonDelta)
unfolding split_bytes byte_len
emitted false index pending = some (pending, none)
emitted true index pending =
    and_then (split_bytes pending.emitted_argument_len pending.arguments) λ (before, partial_json).
      some (
        record pending { emitted_argument_len = byte_len pending.arguments },
        some (record { anthropic_index = index; partial_json = partial_json }),
      )

-- What a delta starts and emits.
unfoldable pub delta_update :
    Bool → ℕ → PendingOpenAiToolCall → Option (PendingOpenAiToolCall × OpenAiToolCallDeltaUpdate)
unfolding emitted unsent
delta_update starts index pending =
    let current = started_by starts pending in
    and_then (emitted (current.started && unsent current) index current)
      λ (left, delta). some (left, record { start = start_of starts index pending; delta = delta })

-- What the end of the stream starts, emits and stops.
unfoldable pub stop_update :
    (started blank : Bool)
    → ℕ
    → PendingOpenAiToolCall
    → Option (PendingOpenAiToolCall × OpenAiToolCallStopUpdate)
unfolding emitted unsent
stop_update true blank index pending = some (
  record pending { stopped = true },
  record { start = none; delta = none; stop_index = some index },
)
stop_update false true index pending = some (record pending { started = true }, no_stop)
stop_update false false index pending =
    and_then (emitted (unsent pending) index (record pending { started = true })) λ (left, delta).
      some (
        record left { stopped = true },
        record {
          start = some (record {
            anthropic_index = index;
            id = if is_empty pending.id then codes "toolu_unknown" else pending.id;
            name = if is_empty pending.name then codes "tool" else pending.name;
          });
          delta = delta;
          stop_index = some index;
        },
      )

abbrev pub blank : PendingOpenAiToolCall → Bool
blank pending = is_empty pending.id && (is_empty pending.name && is_empty pending.arguments)

-- The map that a stop leaves.
abbrev pub stored :
    {U : Type 0}
    → Indexed PendingOpenAiToolCall
    → ℕ
    → Option (PendingOpenAiToolCall × U)
    → Option (Indexed PendingOpenAiToolCall × U)
stored calls tool_index none = none
stored calls tool_index (some (pending, update)) = some (put tool_index pending calls, update)

unfoldable pub stop_entry :
    Indexed PendingOpenAiToolCall
    → ℕ
    → Option PendingOpenAiToolCall
    → Option (Indexed PendingOpenAiToolCall × OpenAiToolCallStopUpdate)
unfolding stop_update
stop_entry calls tool_index none = some (calls, no_stop)
stop_entry calls tool_index (some pending) =
    if pending.stopped
    then some (calls, no_stop)
    else stored calls tool_index (
        stop_update pending.started (blank pending) (unwrap_or pending.anthropic_index tool_index)
          pending)

unfoldable pub flush_openai_tool_call_stop_update :
    Indexed PendingOpenAiToolCall
    → ℕ
    → Option (Indexed PendingOpenAiToolCall × OpenAiToolCallStopUpdate)
unfolding stop_entry at
flush_openai_tool_call_stop_update calls tool_index =
    stop_entry calls tool_index (at tool_index calls)

-- What a delta leaves: the map and the next content index, with the update.
pub record Applied : Type 0 where
  pub calls : Indexed PendingOpenAiToolCall
  pub next_content_index : ℕ
  pub update : OpenAiToolCallDeltaUpdate

module _ {V : Type 0} (J : JsonValue V) (from_str : Text → Option Text) where
  unfoldable pub set_arguments : PendingOpenAiToolCall → Option Text → Option PendingOpenAiToolCall
  unfolding merge_openai_tool_call_arguments normalize_openai_tool_call_arguments
  set_arguments pending none = some pending
  set_arguments pending (some arguments) =
      and_then (merge_openai_tool_call_arguments pending.raw_arguments arguments) λ raw.
        some (record pending {
          raw_arguments = raw;
          arguments = normalize_openai_tool_call_arguments from_str raw pending.arguments;
        })

  -- The fields of a delta that are strings.
  abbrev pub field : Option V → Text → Option Text
  field value key = and_then value λ v. and_then (J.get v key) J.as_str

  unfoldable pub read_delta : PendingOpenAiToolCall → V → Option PendingOpenAiToolCall
  unfolding set_arguments
  read_delta pending tool_call =
      let function = J.get tool_call (codes "function") in
      set_arguments
        (set_name (set_id pending (field (some tool_call) (codes "id")))
          (field function (codes "name")))
        (field function (codes "arguments"))

  unfoldable pub apply_openai_tool_call_delta_update :
      Indexed PendingOpenAiToolCall → ℕ → ℕ → V → Option Applied
  unfolding read_delta delta_update at put
  apply_openai_tool_call_delta_update calls next tool_index tool_call =
      let entry = unwrap_or (at tool_index calls) default_pending in
      let (pending, after) = allocated entry entry.anthropic_index next in
      and_then (read_delta pending tool_call) λ filled.
        and_then
          (delta_update (can_start filled) (unwrap_or filled.anthropic_index tool_index) filled)
          λ (left, update). some (record {
            calls = put tool_index left calls;
            next_content_index = after;
            update = update;
          })
