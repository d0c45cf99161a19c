-- ===== src/Core/Sse/Driving.antt =====
-- The loop over the items of a body's stream, as drive_chat_stream and drive_responses_stream of
-- unigateway-core/src/protocol/openai/streaming.rs have it, for any handling of the frames.
use mathlib.Core.List.{flatten}
use unigateway.Prelude.{
  ◌≡◌, refl, ap, ◌∙◌, sym, Bool, true, false, Option, none, some, List, [], ◌∷◌, ◌++◌, map,
  is_empty, if◌then◌else◌, Result, ok, err,
}
use unigateway.Prelude.Text.{Text}
use unigateway.Core.Sse.{Bytes, ParsedSseEvent, parse_sse_frame, drain_sse_frames}
use unigateway.Core.Sse.Chunks.{receive, receive-flatten}

-- After some frames the loop goes on, or it has ended, with an error or to be finalized.
pub data Turn (S E : Type 0) : Type 0 where
  going : S → Turn S E
  ended : Result {0, 0} Unit E → S → Turn S E

-- The end of the loop: `ok tt` where it is to be finalized.
abbrev pub Ending : (S E : Type 0) → Type 0
Ending S E = Result {0, 0} Unit E × S

unfoldable pub then_items : {S E : Type 0} → Turn S E → (S → Ending S E) → Ending S E
then_items (going s) next = next s
then_items (ended r s) next = (r, s)

module _ {S E : Type 0} (decode : Bytes → Text) (process : ParsedSseEvent → S → Ending S E)
    (done : S → Bool) (fail : Text → S → Ending S E) where
  -- The `?` after a frame, and the return once the state is done.
  unfoldable pub after_frame : Ending S E → (S → Turn S E) → Turn S E
  after_frame (err e, s) next = ended (err e) s
  after_frame (ok _, s) next = if done s then ended (ok tt) s else next s

  unfoldable pub process_frames : List ParsedSseEvent → S → Turn S E
  unfolding after_frame
  process_frames [] s = going s
  process_frames (frame ∷ frames) s = after_frame (process frame s) (process_frames frames)

  -- What is left in the buffer at the end may be a frame without its delimiter.
  unfoldable pub last_frame : Option ParsedSseEvent → S → Ending S E
  last_frame none s = (ok tt, s)
  last_frame (some frame) s = process frame s

  unfoldable pub drive_stream : List (Result {0, 0} Bytes Text) → Bytes → S → Ending S E
  unfolding drain_sse_frames process_frames then_items parse_sse_frame last_frame
  drive_stream [] buffer s =
      if is_empty buffer then (ok tt, s) else last_frame (parse_sse_frame decode buffer) s
  drive_stream (ok bytes ∷ items) buffer s =
      let (frames, left) = drain_sse_frames decode (buffer ++ bytes) in
      then_items (process_frames frames s) (drive_stream items left)
  drive_stream (err message ∷ items) buffer s = fail message s

  then_frames : Turn S E → (S → Turn S E) → Turn S E
  then_frames (going s) next = next s
  then_frames (ended r s) next = ended r s

  after-frames :
      (end : Ending S E) (g h k : S → Turn S E)
      → ((s : S) → g s ≡ then_frames (h s) k)
      → after_frame end g ≡ then_frames (after_frame end h) k
  unfolding after_frame then_frames
  after-frames (err e, s) g h k same = refl
  after-frames (ok _, s) g h k same = by_test (done s)
    where
      by_test :
          (b : Bool)
          → (if b then ended (ok tt) s else g s)
            ≡ then_frames (if b then ended (ok tt) s else h s) k
      by_test true = refl
      by_test false = same s

  process_frames-append :
      (xs ys : List ParsedSseEvent) (s : S)
      → process_frames (xs ++ ys) s ≡ then_frames (process_frames xs s) (process_frames ys)
  unfolding process_frames then_frames
  process_frames-append [] ys s = refl
  process_frames-append (x ∷ xs) ys s =
      after-frames (process x s) (process_frames (xs ++ ys)) (process_frames xs) (process_frames ys)
        (process_frames-append xs ys)

  then-then :
      (turn : Turn S E) (k : S → Turn S E) (g next : S → Ending S E)
      → ((s : S) → g s ≡ then_items (k s) next)
      → then_items turn g ≡ then_items (then_frames turn k) next
  unfolding then_items then_frames
  then-then (going s) k g next same = same s
  then-then (ended r s) k g next same = refl

  drive-receive :
      (chunks : List Bytes) (rest : List (Result {0, 0} Bytes Text)) (buffer : Bytes) (s : S)
      → drive_stream (map ok chunks ++ rest) buffer s
        ≡ then_items
            (process_frames (receive decode buffer chunks).0 s)
            (drive_stream rest (receive decode buffer chunks).1)
  unfolding drive_stream receive process_frames then_items
  drive-receive [] rest buffer s = refl
  drive-receive (chunk ∷ chunks) rest buffer s =
      let frames = (drain_sse_frames decode (buffer ++ chunk)).0 in
      let left = (drain_sse_frames decode (buffer ++ chunk)).1 in
      let later = receive decode left chunks in
      then-then (process_frames frames s) (process_frames later.0)
        (drive_stream (map ok chunks ++ rest) left) (drive_stream rest later.1)
        (drive-receive chunks rest left)
      ∙ ap (λ turn. then_items turn (drive_stream rest later.1))
          (sym (process_frames-append frames later.0 s))

  pub drive_stream-flatten :
      (chunks : List Bytes) (rest : List (Result {0, 0} Bytes Text)) (s : S)
      → drive_stream (map ok chunks ++ rest) [] s ≡ drive_stream (ok (flatten chunks) ∷ rest) [] s
  unfolding drive_stream
  drive_stream-flatten chunks rest s =
      drive-receive chunks rest [] s
      ∙ ap (λ received. then_items (process_frames received.0 s) (drive_stream rest received.1))
          (receive-flatten decode chunks)
