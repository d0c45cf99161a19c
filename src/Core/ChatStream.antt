-- ===== src/Core/ChatStream.antt =====
-- unigateway-core/src/protocol/openai/streaming.rs: the stream of chat chunks of an OpenAI endpoint,
-- with the usage that openai/parsing.rs reads. `from_str` is serde_json's parse, `decode`
-- String::from_utf8_lossy, and `listens n` says whether the receiver of the chunks is there at the
-- send after n; the channel is the list of what has been sent. The headers, times and ids of the
-- completed response are left out.
use unigateway.Prelude.{
  ℕ, ◌≡◌, Bool, true, false, Option, none, some, List, [], ◌∷◌, ◌++◌, map, length, is_empty,
  if◌then◌else◌, Result, ok, err, and_then,
}
use unigateway.Prelude.Text.{Text, codes, text_eq, join}
use unigateway.Core.Error.{GatewayError, transport, stream_aborted}
use unigateway.Core.Json.{JsonValue}
use unigateway.Core.Sse.{Bytes, ParsedSseEvent}
use unigateway.Core.Sse.Driving.{Ending, drive_stream, drive_stream-flatten}
use mathlib.Core.List.{flatten}
use mathlib.Core.Path.{ap}

pub record TokenUsage : Type 0 where
  pub input_tokens : Option ℕ
  pub output_tokens : Option ℕ
  pub total_tokens : Option ℕ
  pub reasoning_tokens : Option ℕ
  pub cache_hit_tokens : Option ℕ
  pub cache_write_tokens : Option ℕ

pub record ChatResponseChunk (V : Type 0) : Type 0 where
  pub delta : Option Text
  pub raw : V

-- The state, with what has been sent to the channel.
pub record OpenAiChatStreamState (V : Type 0) : Type 0 where
  pub model : Option Text
  pub output_text : Text
  pub usage : Option TokenUsage
  pub raw_events : List V
  pub done : Bool
  pub downstream_detached : Bool
  pub sent : List (Result {0, 0} (ChatResponseChunk V) GatewayError)

abbrev pub new_chat_state : (V : Type 0) → OpenAiChatStreamState V
new_chat_state V = record {
  model = none;
  output_text = [];
  usage = none;
  raw_events = [];
  done = false;
  downstream_detached = false;
  sent = [];
}

-- `ChatResponseFinal`, with the usage that goes into the report.
pub record ChatResponseFinal (V : Type 0) : Type 0 where
  pub model : Option Text
  pub output_text : Option Text
  pub raw : List V
  pub usage : Option TokenUsage

abbrev pub first_of : {A : Type 0} → Option A → Option A → Option A
first_of none later = later
first_of (some a) later = some a

abbrev pub set_some : {A : Type 0} → Option A → Option A → Option A
set_some none old = old
set_some (some a) old = some a

abbrev pub push_some : {A : Type 0} → Option A → List A → List A
push_some none later = later
push_some (some a) later = a ∷ later

abbrev pub first_item : {A : Type 0} → List A → Option A
first_item [] = none
first_item (x ∷ xs) = some x

abbrev pub text_or_empty : Option Text → Text
text_or_empty none = []
text_or_empty (some t) = t

module _ {V : Type 0} (J : JsonValue V) where
  abbrev pub count_of : Text → V → Option ℕ
  count_of key value = and_then (J.get value key) J.as_u64

  abbrev pub count_in : Text → Text → V → Option ℕ
  count_in outer key value = and_then (J.get value outer) (count_of key)

  unfoldable pub parse_cache_hit_tokens : V → Option ℕ
  parse_cache_hit_tokens usage = first_of (count_of (codes "cache_hit_tokens") usage) (
      first_of (count_in (codes "input_tokens_details") (codes "cached_tokens") usage) (
        first_of (count_in (codes "prompt_tokens_details") (codes "cached_tokens") usage) (
          first_of (count_of (codes "prompt_cache_hit_tokens") usage)
            (count_of (codes "cached_tokens") usage))))

  unfoldable pub parse_cache_write_tokens : V → Option ℕ
  parse_cache_write_tokens usage = first_of (count_of (codes "cache_write_tokens") usage) (
      first_of (count_of (codes "cache_creation_input_tokens") usage)
        (count_in (codes "prompt_tokens_details") (codes "cache_creation_input_tokens") usage))

  unfoldable pub parse_openai_usage : V → Option TokenUsage
  unfolding parse_cache_hit_tokens parse_cache_write_tokens
  parse_openai_usage raw = and_then (J.get raw (codes "usage")) (λ usage. some (record {
    input_tokens = count_of (codes "prompt_tokens") usage;
    output_tokens = count_of (codes "completion_tokens") usage;
    total_tokens = count_of (codes "total_tokens") usage;
    reasoning_tokens = none;
    cache_hit_tokens = parse_cache_hit_tokens usage;
    cache_write_tokens = parse_cache_write_tokens usage;
  }))

  unfoldable pub text_parts : List V → List Text
  text_parts [] = []
  text_parts (item ∷ items) =
      push_some (and_then (J.get item (codes "text")) J.as_str) (text_parts items)

  abbrev pub joined_parts : List Text → Option Text
  unfolding join
  joined_parts [] = none
  joined_parts (part ∷ parts) = some (join (10 ∷ []) (part ∷ parts))

  abbrev pub items_of : Option (List V) → List V
  items_of none = []
  items_of (some items) = items

  -- unigateway-core/src/protocol/mod.rs
  unfoldable pub output_text_from_openai_message : V → Option Text
  unfolding text_parts joined_parts
  output_text_from_openai_message value =
      first_of (J.as_str value) (joined_parts (text_parts (items_of (J.as_array value))))

  unfoldable pub chunk_delta : V → Option Text
  unfolding output_text_from_openai_message
  chunk_delta raw = and_then (and_then (J.get raw (codes "choices")) J.as_array) (λ choices.
      and_then (first_item choices) (λ choice.
        and_then (J.get choice (codes "delta"))
          (λ delta. and_then (J.get delta (codes "content")) output_text_from_openai_message)))

  module _ (from_str : Text → Result {0, 0} V Text) (decode : Bytes → Text) (listens : ℕ → Bool)
      (endpoint_id : Text) where
    -- A chunk is sent while the receiver has not been found gone.
    unfoldable pub send_chunk :
        ChatResponseChunk V → OpenAiChatStreamState V → OpenAiChatStreamState V
    send_chunk chunk s =
        if s.downstream_detached
        then s
        else if listens (length s.sent)
        then record s { sent = s.sent ++ (ok chunk ∷ []) }
        else record s { downstream_detached = true }

    unfoldable pub process_raw : V → OpenAiChatStreamState V → OpenAiChatStreamState V
    unfolding send_chunk parse_openai_usage chunk_delta
    process_raw raw s =
        let delta : Option Text = chunk_delta raw in
        send_chunk (record { delta = delta; raw = raw })
          (record s {
            model = first_of s.model (and_then (J.get raw (codes "model")) J.as_str);
            usage = set_some (parse_openai_usage raw) s.usage;
            output_text = s.output_text ++ text_or_empty delta;
            raw_events = s.raw_events ++ (raw ∷ []);
          })

    abbrev pub process_parsed :
        Result {0, 0} V Text
        → OpenAiChatStreamState V
        → Ending (OpenAiChatStreamState V) GatewayError
    unfolding process_raw
    process_parsed (err error) s = (
      err (
          transport (codes "failed to parse openai chat stream frame: " ++ error)
            (some endpoint_id)),
      s,
    )
    process_parsed (ok raw) s = (ok tt, process_raw raw s)

    unfoldable pub process_chat_frame :
        ParsedSseEvent → OpenAiChatStreamState V → Ending (OpenAiChatStreamState V) GatewayError
    unfolding text_eq process_parsed
    process_chat_frame frame s =
        if text_eq frame.«data» (codes "[DONE]")
        then (ok tt, record s { done = true })
        else process_parsed (from_str frame.«data») s

    -- The error is sent, to whoever listens, and returned.
    unfoldable pub fail_stream :
        Text → OpenAiChatStreamState V → Ending (OpenAiChatStreamState V) GatewayError
    fail_stream message s = (
      err (stream_aborted message endpoint_id),
      if listens (length s.sent)
          then record s { sent = s.sent ++ (err (stream_aborted message endpoint_id) ∷ []) }
          else s,
    )

    unfoldable pub finalize_chat_stream : OpenAiChatStreamState V → ChatResponseFinal V
    finalize_chat_stream s = record {
      model = s.model;
      output_text = if is_empty s.output_text then none else some s.output_text;
      raw = s.raw_events;
      usage = s.usage;
    }

    -- What the caller gets, and what the channel has.
    abbrev pub Completed : Type 0
    Completed =
        Result {0, 0} (ChatResponseFinal V) GatewayError
        × List (Result {0, 0} (ChatResponseChunk V) GatewayError)

    unfoldable pub completed : Ending (OpenAiChatStreamState V) GatewayError → Completed
    unfolding finalize_chat_stream
    completed (err e, s) = (err e, s.sent)
    completed (ok _, s) = (ok (finalize_chat_stream s), s.sent)

    unfoldable pub drive_chat_stream : List (Result {0, 0} Bytes Text) → Completed
    unfolding drive_stream process_chat_frame fail_stream completed
    drive_chat_stream items = completed (
        drive_stream decode process_chat_frame (λ s. s.done) fail_stream items []
          (new_chat_state V))

    -- However the bytes that come before the end of the body, or before an error of the transport,
    -- are cut into chunks, the caller gets the same response or error, and the channel the same
    -- chunks in the same order, as where they come in one chunk; also where a frame says that the
    -- stream is done, or cannot be parsed, with more bytes behind it.
    pub drive_chat_stream-flatten :
        (chunks : List Bytes) (rest : List (Result {0, 0} Bytes Text))
        → drive_chat_stream (map ok chunks ++ rest) ≡ drive_chat_stream (ok (flatten chunks) ∷ rest)
    unfolding drive_chat_stream
    drive_chat_stream-flatten chunks rest = ap completed (
        drive_stream-flatten decode process_chat_frame (λ s. s.done) fail_stream chunks rest
          (new_chat_state V))
