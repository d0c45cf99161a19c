-- ===== src/Protocol/ReasoningText.antt =====
-- unigateway-protocol/src/responses/reasoning_text.rs: reasoning that a model writes between
-- `<think>` and `</think>` at the start of its text. Places in a text are counted in code points.
pub mod Outputs
mod Reading
pub mod Streams
use unigateway.Prelude.{
  ℕ, ◌+◌, Bool, true, false, Option, none, some, List, [], ◌∷◌, ◌++◌, length, take, drop, is_empty,
  if◌then◌else◌,
}
use unigateway.Prelude.Text.{Text, codes, text_eq, strip_prefix, starts_with, trim_start, find_text}
use unigateway.Prelude.Dict.{Dict, lookup}

abbrev pub open_tag : Text
open_tag = codes "<think>"

abbrev pub close_tag : Text
close_tag = codes "</think>"

pub data ReasoningTextEncoding : Type 0 where
  xml_think_tag : ReasoningTextEncoding

-- `remainder.find(close_tag)?` and the two slices around it.
abbrev pub split_at : Text → Text → Option ℕ → Option (Text × Text)
split_at remainder closing none = none
split_at remainder closing (some close_index) =
    some (take close_index remainder, drop (close_index + length closing) remainder)

unfoldable pub split_remainder : Text → Option Text → Option (Text × Text)
unfolding find_text
split_remainder closing none = none
split_remainder closing (some remainder) = split_at remainder closing (find_text remainder closing)

unfoldable pub split_prefixed_xml_tag : Text → (opening closing : Text) → Option (Text × Text)
unfolding trim_start strip_prefix split_remainder
split_prefixed_xml_tag content opening closing =
    split_remainder closing (strip_prefix (trim_start content) opening)

unfoldable pub split_reasoning_text : Text → ReasoningTextEncoding → Option (Text × Text)
unfolding split_prefixed_xml_tag
split_reasoning_text content xml_think_tag = split_prefixed_xml_tag content open_tag close_tag

pub data ReasoningTextChunk : Type 0 where
  thinking text : Text → ReasoningTextChunk

pub data StreamParseState : Type 0 where
  detecting_open collecting_thinking : (buffer : Text) → StreamParseState
  passthrough : StreamParseState

-- What a call leaves and returns.
abbrev pub Parsed : Type 0
Parsed = StreamParseState × List ReasoningTextChunk

unfoldable pub nonempty : (Text → ReasoningTextChunk) → Text → List ReasoningTextChunk
nonempty chunk [] = []
nonempty chunk (c ∷ s) = chunk (c ∷ s) ∷ []

unfoldable pub collected : Text → Option (Text × Text) → Parsed
unfolding nonempty
collected combined none = (collecting_thinking combined, [])
collected combined (some (reasoning, remainder)) =
    (passthrough, nonempty thinking reasoning ++ nonempty text remainder)

-- `push_collecting_thinking` on what is buffered followed by what comes.
unfoldable pub push_collecting_thinking : (buffer : Text) → Text → Parsed
unfolding find_text collected
push_collecting_thinking buffer pushed =
    let combined = buffer ++ pushed in
    collected combined (split_at combined close_tag (find_text combined close_tag))

unfoldable pub detected : Text → Bool → Option Text → Parsed
unfolding push_collecting_thinking
detected combined true after_open = (detecting_open combined, [])
detected combined false none = (passthrough, text combined ∷ [])
detected combined false (some after_open) = push_collecting_thinking [] after_open

unfoldable pub push_detecting_open : (buffer : Text) → Text → Parsed
unfolding detected starts_with trim_start strip_prefix
push_detecting_open buffer pushed =
    let combined = buffer ++ pushed in
    let trimmed = trim_start combined in
    detected combined (starts_with open_tag trimmed) (strip_prefix trimmed open_tag)

unfoldable pub push : StreamParseState → Text → Parsed
unfolding push_detecting_open push_collecting_thinking
push (detecting_open buffer) pushed = push_detecting_open buffer pushed
push (collecting_thinking buffer) pushed = push_collecting_thinking buffer pushed
push passthrough pushed = (passthrough, text pushed ∷ [])

unfoldable pub finish : StreamParseState → List ReasoningTextChunk
unfolding nonempty
finish (detecting_open buffer) = nonempty text buffer
finish (collecting_thinking buffer) = text (open_tag ++ buffer) ∷ []
finish passthrough = []

-- A stream: the parser's answers to the texts pushed, and to the end.
unfoldable pub stream : StreamParseState → List Text → List ReasoningTextChunk
unfolding push finish
stream state [] = finish state
stream state (pushed ∷ later) =
    let (next, chunks) = push state pushed in chunks ++ stream next later

-- The reasoning and the text that a consumer puts together from the chunks.
unfoldable pub thinking_of : List ReasoningTextChunk → Text
thinking_of [] = []
thinking_of (thinking t ∷ chunks) = t ++ thinking_of chunks
thinking_of (text t ∷ chunks) = thinking_of chunks

unfoldable pub text_of : List ReasoningTextChunk → Text
text_of [] = []
text_of (thinking t ∷ chunks) = text_of chunks
text_of (text t ∷ chunks) = t ++ text_of chunks
