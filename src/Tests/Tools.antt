-- ===== src/Tests/Tools.antt =====
-- Runs of the tool calls and of the Anthropic stream, and the witnesses of what is proved of them.
use unigateway.Prelude.{
  ℕ, ◌≡◌, refl, true, Option, none, some, List, [], ◌∷◌, length, if◌then◌else◌, ok, inl, inr, ◌⊎◌,
  ◌<◌, arith, ap, unwrap_or, Bool-cases,
}
use unigateway.Prelude.Text.{Text, codes, text_eq, text_eq_iff, starts_with}
use unigateway.Core.Json.{JsonValue}
use unigateway.Core.Capabilities.{omit_thinking}
use unigateway.Core.ToolCalls.Arguments.{
  merge_openai_tool_call_arguments, normalize_openai_tool_call_arguments,
}
use unigateway.Core.ToolCalls.Arguments.Laws.{merge-extends, merge-Ascii}
use unigateway.Core.ToolCalls.Arguments.Normal.{Settled, normalize_settles}
use unigateway.Protocol.AnthropicStream.{
  message_start, ping, content_block_start, content_block_delta, content_block_stop, message_delta,
  message_stop, text_block, tool_use, text_delta, input_json_delta, Outcome,
}
use unigateway.Protocol.AnthropicStream.Chunks.{is_native_anthropic_chunk}
use unigateway.Protocol.AnthropicStream.Drive.{
  Item, chunk, Completion, events_of, drive_anthropic_chat_stream,
}
use unigateway.Protocol.AnthropicStream.Trace.{Ends}
use unigateway.Protocol.AnthropicStream.Messages.{drive_anthropic_chat_stream-Ends}

-- A delta whose text ends what there was is taken for a repetition of it, and lost.
lost_fragment :
    merge_openai_tool_call_arguments (codes "{\"n\":1") (codes "1") ≡ some (codes "{\"n\":1")
unfolding merge_openai_tool_call_arguments
lost_fragment = refl

-- A delta after a character outside ASCII panics: an overlap of two bytes cuts the character.
cut_character : merge_openai_tool_call_arguments (codes "{\"c\":\"") (0x5317 ∷ []) ≡ none
unfolding merge_openai_tool_call_arguments
cut_character = refl

merge-extends_example : starts_with (codes "{\"a\":1}") (codes "{\"a\"") ≡ true
unfolding merge_openai_tool_call_arguments
merge-extends_example = merge-extends (codes "{\"a\"") (codes "\":1}") (codes "{\"a\":1}") refl

merge-Ascii_example :
    (merged : Text) × ((merge_openai_tool_call_arguments (codes "{\"a") (codes "a\":1}")
        ≡ some merged)
      × (starts_with merged (codes "{\"a") ≡ true))
merge-Ascii_example =
    merge-Ascii (codes "{\"a") (codes "a\":1}") (omega arith, (omega arith, (omega arith, tt)))
      (omega arith, (omega arith, (omega arith, (omega arith, (omega arith, tt)))))

-- A decoder of string literals that knows one.
abbrev decode_one : Text → Option Text
decode_one s = if text_eq s (codes "\"{}\"") then some (codes "{}") else none

decode_one_shortens : (s decoded : Text) → decode_one s ≡ some decoded → length decoded < length s
decode_one_shortens s decoded h = elim (Bool-cases (text_eq s (codes "\"{}\""))) [
  | inl same ↦ known (rw same at h) ((text_eq_iff s (codes "\"{}\"")).0 same)
  | inr other ↦ absurd (none-ne (rw other at h))
]
  where
    known : some (codes "{}") ≡ some decoded → s ≡ codes "\"{}\"" → length decoded < length s
    known e f = omega (arith, ap length f, ap (λ o. length (unwrap_or o [])) e)

    none-ne : none ≡ some decoded → ⊥
    none-ne e = cc

normalize_settles_example :
    (normalize_openai_tool_call_arguments decode_one (codes "{}\"{}\"") [] ≡ [])
    ⊎ Settled (normalize_openai_tool_call_arguments decode_one (codes "{}\"{}\"") [])
normalize_settles_example = normalize_settles decode_one decode_one_shortens (codes "{}\"{}\"") []

-- A `serde_json::Value` with what the stream reads of it.
data Value : Type 0 where
  string_value : Text → Value
  number : ℕ → Value
  empty : Value
  member : (key : Text) → Value → Value → Value
  item : Value → Value → Value

unfoldable get : Value → Text → Option Value
unfolding text_eq
get (member key v rest) k = let later = get rest k in if text_eq key k then some v else later
get _ k = none

unfoldable items_of : Value → List Value
items_of (item v rest) = v ∷ items_of rest
items_of _ = []

abbrev as_str : Value → Option Text
as_str (string_value t) = some t
as_str _ = none

abbrev as_u64 : Value → Option ℕ
as_u64 (number n) = some n
as_u64 _ = none

unfoldable json : JsonValue Value
unfolding get items_of
json = record {
  get = get;
  as_str = as_str;
  as_array = λ v. some (items_of v);
  as_u64 = as_u64;
  empty_object = empty;
}

-- `{"choices": [{"delta": d}]}`
abbrev delta_chunk : Value → Item Value
delta_chunk d = chunk (member (codes "choices") (item (member (codes "delta") d empty) empty) empty)

abbrev call_chunk : Value → Item Value
call_chunk call = delta_chunk (member (codes "tool_calls") (item call empty) empty)

-- A text, then a tool call in two deltas.
abbrev conversation : List (Item Value)
conversation =
    delta_chunk (member (codes "content") (string_value (codes "Hi")) empty)
    ∷ call_chunk (
        member (codes "id") (string_value (codes "c1")) (
          member (codes "function")
            (member (codes "name") (string_value (codes "f"))
              (member (codes "arguments") (string_value (codes "{\"a")) empty))
            empty))
    ∷ call_chunk (
        member (codes "function") (member (codes "arguments") (string_value (codes "\":1}")) empty)
          empty)
    ∷ []

abbrev completion : Completion
completion = record { output_text = none; usage = none }

no_decoder : Text → Option Text
no_decoder s = none

abbrev told : Outcome Value
told =
    drive_anthropic_chat_stream json no_decoder (codes "r") (codes "m") none omit_thinking
      conversation (ok completion)

conversation_told : events_of told ≡ (
    message_start (codes "msg_r") (codes "m")
    ∷ ping
    ∷ content_block_start 0 text_block
    ∷ content_block_delta 0 (text_delta (codes "Hi"))
    ∷ content_block_stop 0
    ∷ content_block_start 1 (tool_use (codes "c1") (codes "f"))
    ∷ content_block_delta 1 (input_json_delta (codes "{\"a"))
    ∷ content_block_delta 1 (input_json_delta (codes "\":1}"))
    ∷ content_block_stop 1
    ∷ message_delta (codes "tool_use") (record { input_tokens = 0; output_tokens = 0 })
    ∷ message_stop
    ∷ [])
unfolding drive_anthropic_chat_stream json
conversation_told = refl

-- Arguments that begin with a `{}` that is dropped later: the client has got the `{}`, and gets the
-- rest of the new text from the third byte on.
abbrev repaired : List (Item Value)
repaired =
    call_chunk (
      member (codes "id") (string_value (codes "c1")) (
        member (codes "function")
          (member (codes "name") (string_value (codes "f"))
            (member (codes "arguments") (string_value (codes "{}")) empty))
          empty))
    ∷ call_chunk (
        member (codes "function")
          (member (codes "arguments") (string_value (codes "{\"a\":1}")) empty) empty)
    ∷ []

repaired_told :
    events_of (
      drive_anthropic_chat_stream json no_decoder
        (codes "r")
        (codes "m")
        none
        omit_thinking
        repaired
        (ok completion))
    ≡ (message_start (codes "msg_r") (codes "m")
        ∷ ping
        ∷ content_block_start 0 (tool_use (codes "c1") (codes "f"))
        ∷ content_block_delta 0 (input_json_delta (codes "{}"))
        ∷ content_block_delta 0 (input_json_delta (codes "a\":1}"))
        ∷ content_block_stop 0
        ∷ message_delta (codes "tool_use") (record { input_tokens = 0; output_tokens = 0 })
        ∷ message_stop
        ∷ [])
unfolding drive_anthropic_chat_stream json
repaired_told = refl

drive_anthropic_chat_stream-Ends_example : Ends told
unfolding json is_native_anthropic_chunk
drive_anthropic_chat_stream-Ends_example =
    drive_anthropic_chat_stream-Ends json no_decoder (codes "r") (codes "m") none omit_thinking
      conversation (ok completion) (refl, (refl, (refl, tt)))
