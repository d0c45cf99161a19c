-- ===== src/Tests/Streams.antt =====
-- Runs of the streams, and the witnesses of what is proved of them.
use unigateway.Prelude.{
  ◌≡◌, refl, true, none, some, if◌then◌else◌, ◌||◌, Result, ok, err, map, List, [], ◌∷◌, ◌++◌,
  length, ◌≤◌,
}
use mathlib.Core.List.{flatten}
use unigateway.Prelude.Text.{Text, codes, text_eq, trim_start}
use unigateway.Core.Sse.{Bytes, drain_sse_frames, find_sse_delimiter}
use unigateway.Core.Sse.Drain.{drain_sse_frames_completes}
use unigateway.Core.Error.{GatewayError, stream_aborted}
use unigateway.Core.Json.{JsonValue}
use unigateway.Core.ChatStream.{
  ChatResponseChunk, ChatResponseFinal, drive_chat_stream, drive_chat_stream-flatten,
}
use unigateway.Protocol.ReasoningText.{
  text, detecting_open, xml_think_tag, split_reasoning_text, stream, thinking_of, text_of,
}
use unigateway.Protocol.ReasoningText.Outputs.{no_thinking, thinks_first}
use unigateway.Protocol.ReasoningText.Streams.{stream-split, stream-unsplit}

-- Bytes that are all ASCII.
abbrev as_ascii : Bytes → Text
as_ascii bytes = bytes

-- Two events in three chunks, the delimiters cut in two.
abbrev chunks : List Bytes
chunks =
    (codes "event: a" ++ (10 ∷ (codes "data: 1" ++ (13 ∷ 10 ∷ []))))
    ∷ ((13 ∷ 10 ∷ codes "data: 2") ++ (10 ∷ []))
    ∷ (10 ∷ codes "da")
    ∷ []

two_events : drain_sse_frames as_ascii (flatten chunks) ≡ (
  record { event = some (codes "a"); «data» = codes "1" }
      ∷ record { event = none; «data» = codes "2" }
      ∷ [],
  codes "da",
)
unfolding drain_sse_frames flatten
two_events = refl

-- Values that are texts, each the content of the only choice.
abbrev plain : JsonValue Text
plain = record {
  get =
      λ v key. if text_eq key (codes "usage") || text_eq key (codes "model") then none else some v;
  as_str = λ v. some v;
  as_array = λ v. some (v ∷ []);
  as_u64 = λ v. none;
  empty_object = [];
}

abbrev parse_plain : Text → Result {0, 0} Text Text
parse_plain t = if text_eq t (codes "?") then err (codes "bad") else ok t

-- Chunks cut within a frame, and bytes behind the frame that says that the stream is done.
abbrev spoken : List Bytes
spoken =
    (codes "data: a" ++ (10 ∷ 10 ∷ codes "da"))
    ∷ (codes "ta: b" ++ (10 ∷ 10 ∷ codes "data: [DO"))
    ∷ (codes "NE]" ++ (10 ∷ 10 ∷ codes "data: ?" ++ (10 ∷ 10 ∷ [])))
    ∷ []

unfoldable drive_plain :
    List (Result {0, 0} Bytes Text)
    → Result {0, 0} (ChatResponseFinal Text) GatewayError
      × List (Result {0, 0} (ChatResponseChunk Text) GatewayError)
unfolding drive_chat_stream
drive_plain = drive_chat_stream plain parse_plain as_ascii (λ n. true) (codes "e")

spoken_completes : drive_plain (map ok spoken ++ (err (codes "reset") ∷ [])) ≡ (
  ok (record {
    model = none;
    output_text = some (codes "ab");
    raw = codes "a" ∷ codes "b" ∷ [];
    usage = none;
  }),
  ok (record { delta = some (codes "a"); raw = codes "a" })
      ∷ ok (record { delta = some (codes "b"); raw = codes "b" })
      ∷ [],
)
unfolding drive_plain
spoken_completes = refl

-- Without the last chunk the error of the transport ends the stream.
cut_off : drive_plain (ok (codes "data: a" ++ (10 ∷ 10 ∷ [])) ∷ err (codes "reset") ∷ []) ≡ (
  err (stream_aborted (codes "reset") (codes "e")),
  ok (record { delta = some (codes "a"); raw = codes "a" })
      ∷ err (stream_aborted (codes "reset") (codes "e"))
      ∷ [],
)
unfolding drive_plain
cut_off = refl

drive_chat_stream-flatten_example :
    drive_chat_stream plain parse_plain as_ascii
      (λ n. true)
      (codes "e")
      (map ok spoken ++ (err (codes "reset") ∷ []))
    ≡ drive_chat_stream plain parse_plain as_ascii
        (λ n. true)
        (codes "e")
        (ok (flatten spoken) ∷ err (codes "reset") ∷ [])
drive_chat_stream-flatten_example =
    drive_chat_stream-flatten plain parse_plain as_ascii (λ n. true) (codes "e") spoken
      (err (codes "reset") ∷ [])

drain_sse_frames_completes_example :
    (find_sse_delimiter (drain_sse_frames as_ascii (flatten chunks)).1 ≡ none)
    × (length (drain_sse_frames as_ascii (flatten chunks)).1 ≤ length (flatten chunks))
drain_sse_frames_completes_example = drain_sse_frames_completes as_ascii (flatten chunks)

abbrev answer : List Text
answer = codes " <thi" ∷ codes "nk>why</th" ∷ codes "ink>so" ∷ codes "!" ∷ []

answer_splits :
    split_reasoning_text (flatten answer) xml_think_tag ≡ some (codes "why", codes "so!")
unfolding split_reasoning_text flatten
answer_splits = refl

stream-split_example :
    (thinking_of (stream (detecting_open []) answer) ≡ codes "why")
    × (text_of (stream (detecting_open []) answer) ≡ codes "so!")
    × (thinks_first (stream (detecting_open []) answer) ≡ true)
stream-split_example = stream-split answer (codes "why") (codes "so!") answer_splits

-- A text whose tag is not closed loses the white space before the tag.
abbrev unclosed : List Text
unclosed = codes " <think>a" ∷ []

unclosed_told : stream (detecting_open []) unclosed ≡ text (codes "<think>a") ∷ []
unfolding stream
unclosed_told = refl

unclosed_does_not_split : split_reasoning_text (flatten unclosed) xml_think_tag ≡ none
unfolding split_reasoning_text flatten
unclosed_does_not_split = refl

stream-unsplit_example :
    (no_thinking (stream (detecting_open []) unclosed) ≡ true)
    × (trim_start (text_of (stream (detecting_open []) unclosed)) ≡ trim_start (flatten unclosed))
stream-unsplit_example = stream-unsplit unclosed unclosed_does_not_split
