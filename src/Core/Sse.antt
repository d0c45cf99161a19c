-- ===== src/Core/Sse.antt =====
-- unigateway-core/src/protocol/mod.rs: server-sent events out of the bytes of a response body.
-- `String::from_utf8_lossy` is the parameter `decode`.
mod Delimiters
pub mod Drain
pub mod Chunks
pub mod Driving
use unigateway.Prelude.{
  ℕ, zero, suc, Bool, true, false, ◌&&◌, ◌||◌, Option, none, some, List, [], ◌∷◌, ◌++◌, length,
  take, drop, ◌==◌, if◌then◌else◌,
}
use unigateway.Prelude.Text.{Text, codes, strip_prefix, trim_start, join}

abbrev pub Bytes : Type 0
Bytes = List ℕ

pub record ParsedSseEvent : Type 0 where
  pub event : Option Text
  pub «data» : Text

-- `str::lines`, less the `\r` it takes off before a `\n`: `trim_end_matches` takes off every one.
abbrev pub prepend : ℕ → List Text → List Text
prepend c [] = (c ∷ []) ∷ []
prepend c (line ∷ rest) = (c ∷ line) ∷ rest

unfoldable pub lines : Text → List Text
lines [] = []
lines (c ∷ s) = let rest = lines s in if c == 10 then [] ∷ rest else prepend c rest

unfoldable pub trim_end_cr : Text → Text
trim_end_cr [] = []
trim_end_cr (c ∷ s) = elim (trim_end_cr s) [
  | [] ↦ if c == 13 then [] else c ∷ []
  | d ∷ t ↦ c ∷ d ∷ t
]

abbrev pub skips : Text → Bool
skips [] = true
skips (c ∷ s) = c == 58

-- What the loop over the lines has collected: the event's name and the data lines.
pub record Collected : Type 0 where
  pub event : Option Text
  pub data_lines : List Text

unfoldable pub collect_data : Collected → Option Text → Collected
unfolding trim_start
collect_data acc none = acc
collect_data acc (some value) = record acc {
  data_lines = acc.data_lines ++ (trim_start value ∷ []);
}

unfoldable pub collect_field : Collected → Text → Option Text → Collected
unfolding collect_data strip_prefix trim_start
collect_field acc line none = collect_data acc (strip_prefix line (codes "data:"))
collect_field acc line (some value) = record acc { event = some (trim_start value) }

unfoldable pub collect_line : Collected → Text → Collected
unfolding collect_field strip_prefix
collect_line acc line =
    if skips line then acc else collect_field acc line (strip_prefix line (codes "event:"))

unfoldable pub collect_lines : Collected → List Text → Collected
unfolding collect_line trim_end_cr
collect_lines acc [] = acc
collect_lines acc (line ∷ rest) = collect_lines (collect_line acc (trim_end_cr line)) rest

unfoldable pub event_of : Collected → Option ParsedSseEvent
unfolding join
event_of acc = elim (acc.data_lines) [
  | [] ↦ none
  | d ∷ ds ↦ some (record { event = acc.event; «data» = join (10 ∷ []) (d ∷ ds) })
]

unfoldable pub parse_sse_frame : (Bytes → Text) → Bytes → Option ParsedSseEvent
unfolding lines collect_lines event_of
parse_sse_frame decode frame_bytes =
    event_of (collect_lines (record { event = none; data_lines = [] }) (lines (decode frame_bytes)))

-- The tests of `find_sse_delimiter` at an index: the bytes from there on.
abbrev pub at_lf_lf : Bytes → Bool
at_lf_lf (b ∷ c ∷ rest) = b == 10 && c == 10
at_lf_lf _ = false

abbrev pub at_crlf_crlf : Bytes → Bool
at_crlf_crlf (b ∷ c ∷ d ∷ e ∷ rest) = b == 13 && c == 10 && (d == 13 && e == 10)
at_crlf_crlf _ = false

-- The answer at an index: what the two tests say there, else what later indexes give.
abbrev pub here_or_later : (lf_lf crlf_crlf : Bool) → Option (ℕ × ℕ) → Option (ℕ × ℕ)
here_or_later true crlf_crlf later = some (0, 2)
here_or_later false true later = some (0, 4)
here_or_later false false none = none
here_or_later false false (some (index, len)) = some (suc index, len)

unfoldable pub find_sse_delimiter : Bytes → Option (ℕ × ℕ)
find_sse_delimiter [] = none
find_sse_delimiter (b ∷ buffer) =
    here_or_later (at_lf_lf (b ∷ buffer)) (at_crlf_crlf (b ∷ buffer)) (find_sse_delimiter buffer)

abbrev pub push_event : Option ParsedSseEvent → List ParsedSseEvent → List ParsedSseEvent
push_event none frames = frames
push_event (some frame) frames = frame ∷ frames

-- One turn of the loop of `drain_sse_frames`, `onward` being the turns that follow: the events of
-- the frames cut off, and the bytes left.
unfoldable pub drain_at :
    (Bytes → Text)
    → (Bytes → List ParsedSseEvent × Bytes)
    → Bytes
    → Option (ℕ × ℕ)
    → List ParsedSseEvent × Bytes
unfolding parse_sse_frame
drain_at decode onward buffer none = ([], buffer)
drain_at decode onward buffer (some (index, delimiter_len)) =
    let (frames, left) = onward (drop delimiter_len (drop index buffer)) in
    (push_event (parse_sse_frame decode (take index buffer)) frames, left)

-- The loop, on fuel.
unfoldable pub drain : (Bytes → Text) → ℕ → Bytes → List ParsedSseEvent × Bytes
unfolding drain_at find_sse_delimiter
drain decode zero buffer = ([], buffer)
drain decode (suc fuel) buffer =
    drain_at decode (drain decode fuel) buffer (find_sse_delimiter buffer)

unfoldable pub drain_sse_frames : (Bytes → Text) → Bytes → List ParsedSseEvent × Bytes
unfolding drain
drain_sse_frames decode buffer = drain decode (length buffer) buffer
