-- ===== src/Protocol/ReasoningText/Reading.antt =====
-- The states of the stream parser, each with what has been read and put out on the way to it.
use unigateway.Prelude.{
  ℕ, ◌+◌, ◌≤◌, ◌≡◌, refl, inl, inr, Bool, true, false, Option, none, some, List, [], ◌∷◌, ◌++◌,
  length, take, drop, take-append, drop-append, arith, Option-cases,
}
use unigateway.Prelude.Text.{Text, strip_prefix, starts_with, trim_start, find_text}
use unigateway.Prelude.Text.Search.{
  grown, trim_start-append, strip_prefix-append, strip_prefix_mismatch, starts_with→none,
  starts_with-longer, find_text-append, find_text-within,
}
use unigateway.Protocol.ReasoningText.{
  ReasoningTextChunk, StreamParseState, detecting_open, collecting_thinking, passthrough, Parsed,
  open_tag, close_tag, collected, push_collecting_thinking, detected, push_detecting_open, push,
}
use unigateway.Protocol.ReasoningText.Outputs.{Settled, Settled-text, Settled-split, Settled-whole}

tag_kept :
    (trimmed more rest : Text)
    → strip_prefix trimmed open_tag ≡ some rest
    → strip_prefix (grown trimmed more) open_tag ≡ some (rest ++ more)
unfolding grown strip_prefix
tag_kept [] more rest tagged = cc
tag_kept (c ∷ s) more rest tagged = strip_prefix-append (c ∷ s) open_tag more rest tagged

untagged_kept :
    (trimmed more : Text)
    → starts_with open_tag trimmed ≡ false
    → strip_prefix trimmed open_tag ≡ none
    → (starts_with open_tag (grown trimmed more) ≡ false)
      × (strip_prefix (grown trimmed more) open_tag ≡ none)
unfolding grown strip_prefix starts_with
untagged_kept [] more short absent = cc
untagged_kept (c ∷ s) more short absent = (
  starts_with-longer open_tag (c ∷ s) more short,
  strip_prefix_mismatch (c ∷ s) open_tag more absent (starts_with→none open_tag (c ∷ s) short),
)

-- The opening tag is found in the text read, and what follows it.
tag-append :
    (seen more rest : Text)
    → strip_prefix (trim_start seen) open_tag ≡ some rest
    → strip_prefix (trim_start (seen ++ more)) open_tag ≡ some (rest ++ more)
tag-append seen more rest tagged =
    rw (trim_start-append seen more) (tag_kept (trim_start seen) more rest tagged)

untagged-append :
    (seen more : Text)
    → starts_with open_tag (trim_start seen) ≡ false
    → strip_prefix (trim_start seen) open_tag ≡ none
    → (starts_with open_tag (trim_start (seen ++ more)) ≡ false)
      × (strip_prefix (trim_start (seen ++ more)) open_tag ≡ none)
untagged-append seen more short none_there =
    rw (trim_start-append seen more) (untagged_kept (trim_start seen) more short none_there)

-- Where the parser stands after the text it has read, and what it has put out.
pub data Reads : Text → StreamParseState → List ReasoningTextChunk → Type 0 where
  detecting :
      {seen : Text}
      → starts_with open_tag (trim_start seen) ≡ true
      → Reads seen (detecting_open seen) []
  collecting :
      {seen buffer : Text}
      → strip_prefix (trim_start seen) open_tag ≡ some buffer
      → find_text buffer close_tag ≡ none
      → Reads seen (collecting_thinking buffer) []
  untagged :
      {seen : Text} {out : List ReasoningTextChunk}
      → starts_with open_tag (trim_start seen) ≡ false
      → strip_prefix (trim_start seen) open_tag ≡ none
      → Settled [] seen out
      → Reads seen passthrough out
  tagged :
      {seen : Text} {out : List ReasoningTextChunk} (rest : Text) (i : ℕ)
      → strip_prefix (trim_start seen) open_tag ≡ some rest
      → find_text rest close_tag ≡ some i
      → Settled (take i rest) (drop (i + length close_tag) rest) out
      → Reads seen passthrough out

-- The state and the output of a call.
abbrev pub ReadsAfter : Text → List ReasoningTextChunk → Parsed → Type 0
ReadsAfter seen out (next, chunks) = Reads seen next (out ++ chunks)

collect-Reads :
    (seen buffer : Text)
    → strip_prefix (trim_start seen) open_tag ≡ some buffer
    → ReadsAfter seen [] (push_collecting_thinking [] buffer)
unfolding push_collecting_thinking collected
collect-Reads seen buffer opened = elim (Option-cases (find_text buffer close_tag)) [
  | inl unclosed ↦ rw unclosed (collecting opened unclosed)
  | inr (i, closed) ↦ rw closed (
      tagged buffer i opened closed
        (Settled-split (take i buffer) (drop (i + length close_tag) buffer)))
]

detect-Reads-by :
    (seen : Text) (short : Bool) (stripped : Option Text)
    → starts_with open_tag (trim_start seen) ≡ short
    → strip_prefix (trim_start seen) open_tag ≡ stripped
    → ReadsAfter seen [] (detected seen short stripped)
unfolding detected
detect-Reads-by seen true stripped h k = detecting h
detect-Reads-by seen false none h k = untagged h k (Settled-whole seen)
detect-Reads-by seen false (some buffer) h k = collect-Reads seen buffer k

detect-Reads : (seen : Text) → ReadsAfter seen [] (push_detecting_open [] seen)
unfolding push_detecting_open
detect-Reads seen =
    detect-Reads-by seen (starts_with open_tag (trim_start seen))
      (strip_prefix (trim_start seen) open_tag) refl refl

pub push-Reads :
    {seen : Text} {state : StreamParseState} {out : List ReasoningTextChunk} (pushed : Text)
    → Reads seen state out
    → ReadsAfter (seen ++ pushed) out (push state pushed)
unfolding push push_detecting_open push_collecting_thinking
push-Reads {seen} pushed (detecting open_so_far) = detect-Reads (seen ++ pushed)
push-Reads {seen} pushed (collecting {buffer} opened unclosed) =
    collect-Reads (seen ++ pushed) (buffer ++ pushed) (tag-append seen pushed buffer opened)
push-Reads {seen} pushed (untagged short absent settled) =
    untagged (untagged-append seen pushed short absent).0
      (untagged-append seen pushed short absent).1 (Settled-text pushed settled)
push-Reads {seen} pushed (tagged rest i opened closed settled) =
    tagged (rest ++ pushed) i (tag-append seen pushed rest opened)
      (find_text-append rest close_tag pushed i closed)
      (rw
        (
          take-append i rest pushed (omega (arith, inside)),
          drop-append (i + length close_tag) rest pushed inside,
        )
        (Settled-text pushed settled))
  where
    inside : i + length close_tag ≤ length rest
    inside = find_text-within rest close_tag i closed
