-- ===== src/Protocol/ReasoningText/Streams.antt =====
-- The stream parser against `split_reasoning_text` on the whole text.
use mathlib.Core.List.{append-nil, append_assoc, flatten}
use unigateway.Prelude.{
  ℕ, ◌+◌, ◌≡◌, refl, sym, ap, subst, ◌∙◌, inl, inr, true, Option, none, some, List, [], ◌∷◌, ◌++◌,
  length, take, drop, Option-cases,
}
use unigateway.Prelude.Text.{Text, strip_prefix, starts_with, trim_start, find_text}
use unigateway.Prelude.Text.Search.{strip_prefix-eq, starts_with→some, strip_prefix_antisym}
use unigateway.Protocol.ReasoningText.{
  ReasoningTextChunk, text, StreamParseState, detecting_open, open_tag, close_tag, xml_think_tag,
  split_remainder, split_prefixed_xml_tag, split_reasoning_text, nonempty, push, finish, stream,
  thinking_of, text_of,
}
use unigateway.Protocol.ReasoningText.Outputs.{thinks_first, no_thinking, Settled}
use unigateway.Protocol.ReasoningText.Reading.{
  Reads, detecting, collecting, untagged, tagged, push-Reads,
}

-- What holds of the output once the stream has ended, `split` being what the whole text splits
-- into.
abbrev Ended : Text → Option (Text × Text) → List ReasoningTextChunk → Type 0
Ended content none out =
    (no_thinking out ≡ true)
    × (trim_start (text_of out) ≡ trim_start content)
    × (thinks_first out ≡ true)
Ended content (some (reasoning, words)) out = Settled reasoning words out

spoken-Ended : (content : Text) → Ended content none (nonempty text content)
unfolding nonempty no_thinking text_of thinks_first
spoken-Ended [] = (refl, refl, refl)
spoken-Ended (c ∷ content) = (refl, ap trim_start (append-nil (c ∷ content)), refl)

unclosed-Ended :
    (content buffer : Text)
    → strip_prefix (trim_start content) open_tag ≡ some buffer
    → Ended content none (text (open_tag ++ buffer) ∷ [])
unfolding no_thinking text_of thinks_first trim_start
unclosed-Ended content buffer opened = (
  refl,
  ap trim_start (append-nil (open_tag ++ buffer))
      ∙ sym (strip_prefix-eq (trim_start content) open_tag buffer opened),
  refl,
)

untagged-Ended :
    (content : Text) (out : List ReasoningTextChunk)
    → Settled [] content out
    → Ended content none out
untagged-Ended content out settled =
    (settled.silent refl, ap trim_start settled.said, settled.first)

tagged-Ended :
    (content reasoning words : Text) (out : List ReasoningTextChunk)
    → Settled reasoning words out
    → Ended content (some (reasoning, words)) out
tagged-Ended content reasoning words out settled = settled

absent-split :
    (content : Text)
    → strip_prefix (trim_start content) open_tag ≡ none
    → split_reasoning_text content xml_think_tag ≡ none
unfolding split_reasoning_text split_prefixed_xml_tag split_remainder
absent-split content absent = rw absent refl

closed-split :
    (content rest : Text) (i : ℕ)
    → strip_prefix (trim_start content) open_tag ≡ some rest
    → find_text rest close_tag ≡ some i
    → split_reasoning_text content xml_think_tag
      ≡ some (take i rest, drop (i + length close_tag) rest)
unfolding split_reasoning_text split_prefixed_xml_tag split_remainder
closed-split content rest i opened closed = rw (opened, closed) refl

nothing_found : find_text [] close_tag ≡ none
unfolding find_text
nothing_found = refl

-- An opening tag that is not closed, or that is not there.
unclosed-split :
    (content buffer : Text)
    → strip_prefix (trim_start content) open_tag ≡ some buffer
    → find_text buffer close_tag ≡ none
    → split_reasoning_text content xml_think_tag ≡ none
unfolding split_reasoning_text split_prefixed_xml_tag split_remainder
unclosed-split content buffer opened unclosed = rw (opened, unclosed) refl

short-split :
    (content : Text)
    → starts_with open_tag (trim_start content) ≡ true
    → split_reasoning_text content xml_think_tag ≡ none
unfolding split_reasoning_text split_prefixed_xml_tag split_remainder
short-split content short = elim (Option-cases (strip_prefix (trim_start content) open_tag)) [
  | inl absent ↦ rw absent refl
  | inr (rest, opened) ↦ unclosed-split content rest opened (rw (empty rest opened) nothing_found)
]
  where
    empty : (rest : Text) → strip_prefix (trim_start content) open_tag ≡ some rest → rest ≡ []
    empty rest opened =
        strip_prefix_antisym (trim_start content) open_tag
          (starts_with→some open_tag (trim_start content) short).0 rest
          (starts_with→some open_tag (trim_start content) short).1 opened

finish-Ended :
    {seen : Text} {state : StreamParseState} {out : List ReasoningTextChunk}
    → Reads seen state out
    → Ended seen (split_reasoning_text seen xml_think_tag) (out ++ finish state)
unfolding finish
finish-Ended {seen} (detecting short) = rw (short-split seen short) (spoken-Ended seen)
finish-Ended {seen} (collecting {buffer = buffer} opened unclosed) =
    rw (unclosed-split seen buffer opened unclosed) (unclosed-Ended seen buffer opened)
finish-Ended {seen} {out = out} (untagged short absent settled) =
    rw (absent-split seen absent, append-nil out) (untagged-Ended seen out settled)
finish-Ended {seen} {out = out} (tagged rest i opened closed settled) =
    rw (closed-split seen rest i opened closed, append-nil out) (tagged-Ended seen _ _ out settled)

stream-Ended :
    (seen : Text) (state : StreamParseState) (out : List ReasoningTextChunk) (pushes : List Text)
    → Reads seen state out
    → Ended
        (seen ++ flatten pushes)
        (split_reasoning_text (seen ++ flatten pushes) xml_think_tag)
        (out ++ stream state pushes)
unfolding stream flatten
stream-Ended seen state out [] reads = rw (append-nil seen) (finish-Ended reads)
stream-Ended seen state out (pushed ∷ later) reads =
    rw
      (
        sym (append_assoc seen pushed (flatten later)),
        sym (append_assoc out (push state pushed).1 (stream (push state pushed).0 later)),
      )
      (stream-Ended (seen ++ pushed) (push state pushed).0 (out ++ (push state pushed).1) later
        (push-Reads pushed reads))

all_Ended :
    (pushes : List Text)
    → Ended
        (flatten pushes)
        (split_reasoning_text (flatten pushes) xml_think_tag)
        (stream (detecting_open []) pushes)
unfolding starts_with trim_start
all_Ended pushes = stream-Ended [] (detecting_open []) [] pushes (detecting refl)

-- A text that splits into reasoning and the rest: however it is cut into the texts pushed, the
-- chunks add up to that reasoning and that rest, and no reasoning comes after text.
pub stream-split :
    (pushes : List Text) (reasoning words : Text)
    → split_reasoning_text (flatten pushes) xml_think_tag ≡ some (reasoning, words)
    → (thinking_of (stream (detecting_open []) pushes) ≡ reasoning)
      × (text_of (stream (detecting_open []) pushes) ≡ words)
      × (thinks_first (stream (detecting_open []) pushes) ≡ true)
stream-split pushes reasoning words splits = (settled.thought, settled.said, settled.first)
  where
    settled : Settled reasoning words (stream (detecting_open []) pushes)
    settled =
        subst (λ split. Ended (flatten pushes) split (stream (detecting_open []) pushes)) splits
          (all_Ended pushes)

-- A text that does not split: however it is cut, no chunk is reasoning, and the chunks add up to
-- the text, up to white space at its start.
pub stream-unsplit :
    (pushes : List Text)
    → split_reasoning_text (flatten pushes) xml_think_tag ≡ none
    → (no_thinking (stream (detecting_open []) pushes) ≡ true)
      × (trim_start (text_of (stream (detecting_open []) pushes)) ≡ trim_start (flatten pushes))
stream-unsplit pushes unsplit =
    let ended =
      subst (λ split. Ended (flatten pushes) split (stream (detecting_open []) pushes)) unsplit
        (all_Ended pushes) in
    (ended.0, ended.1)
