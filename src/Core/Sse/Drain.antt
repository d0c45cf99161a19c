-- ===== src/Core/Sse/Drain.antt =====
-- The loop of `drain_sse_frames`: its turns, its fuel, and how it ends.
use unigateway.Prelude.{
  ℕ, zero, suc, ◌+◌, ◌≤◌, ◌≡◌, refl, sym, ap, ◌∙◌, inl, inr, Option, none, some, List, [], ◌∷◌,
  ◌++◌, length, length-drop, take, drop, drop-append, arith, Option-cases,
}
use unigateway.Prelude.Text.{Text}
use unigateway.Core.Sse.{
  Bytes, ParsedSseEvent, parse_sse_frame, find_sse_delimiter, push_event, drain, drain_at,
  drain_sse_frames,
}
use unigateway.Core.Sse.Delimiters.{find-within}

-- The buffer after a frame and its delimiter, at most as long less two.
abbrev pub cut : ℕ → ℕ → Bytes → Bytes
cut index len buffer = drop len (drop index buffer)

pub length-cut :
    (buffer : Bytes) (index len : ℕ)
    → find_sse_delimiter buffer ≡ some (index, len)
    → 2 + length (cut index len buffer) ≤ length buffer
length-cut buffer index len found = omega (
  arith,
  find-within buffer index len found,
  length-drop len (drop index buffer),
  length-drop index buffer,
)

pub cut-append :
    (buffer more : Bytes) (index len : ℕ)
    → find_sse_delimiter buffer ≡ some (index, len)
    → cut index len (buffer ++ more) ≡ cut index len buffer ++ more
cut-append buffer more index len found =
    ap (drop len) (drop-append index buffer more (omega (arith, within)))
    ∙ drop-append len (drop index buffer) more (omega (arith, within, length-drop index buffer))
  where
    within : (index + len ≤ length buffer) × (2 ≤ len)
    within = find-within buffer index len found

pub find-empty : (buffer : Bytes) → length buffer ≤ 0 → find_sse_delimiter buffer ≡ none
unfolding find_sse_delimiter
find-empty [] h = refl
find-empty (b ∷ buffer) h = absurd (omega arith)

-- A frame's event before what the turns that follow give.
abbrev pub turn : Option ParsedSseEvent → List ParsedSseEvent × Bytes → List ParsedSseEvent × Bytes
turn event (frames, left) = (push_event event frames, left)

module _ (decode : Bytes → Text) where
  pub drain-none :
      (fuel : ℕ) (buffer : Bytes)
      → find_sse_delimiter buffer ≡ none
      → drain decode fuel buffer ≡ ([], buffer)
  unfolding drain
  drain-none zero buffer nothing = refl
  drain-none (suc fuel) buffer nothing = rw nothing refl

  pub drain-some :
      (fuel : ℕ) (buffer : Bytes) (index len : ℕ)
      → find_sse_delimiter buffer ≡ some (index, len)
      → drain decode (suc fuel) buffer
        ≡ turn
            (parse_sse_frame decode (take index buffer))
            (drain decode fuel (cut index len buffer))
  unfolding drain drain_at
  drain-some fuel buffer index len found = rw found refl

  -- Fuel for the bytes of the buffer is enough: no delimiter is left, and no more fuel changes the
  -- answer.
  pub drain_complete :
      (fuel : ℕ) (buffer : Bytes)
      → length buffer ≤ fuel
      → find_sse_delimiter (drain decode fuel buffer).1 ≡ none
  drain_complete zero buffer h =
      rw (drain-none zero buffer (find-empty buffer h)) (find-empty buffer h)
  drain_complete (suc fuel) buffer h = elim (Option-cases (find_sse_delimiter buffer)) [
    | inl nothing ↦ rw (drain-none (suc fuel) buffer nothing) nothing
    | inr ((index, len), found) ↦ rw (drain-some fuel buffer index len found) (
        drain_complete fuel (cut index len buffer)
          (omega (arith, length-cut buffer index len found)))
  ]

  pub drain_shrinks :
      (fuel : ℕ) (buffer : Bytes) → length (drain decode fuel buffer).1 ≤ length buffer
  unfolding drain
  drain_shrinks zero buffer = omega arith
  drain_shrinks (suc fuel) buffer = elim (Option-cases (find_sse_delimiter buffer)) [
    | inl nothing ↦ rw (drain-none (suc fuel) buffer nothing) (omega arith)
    | inr ((index, len), found) ↦ rw (drain-some fuel buffer index len found) (
        omega (arith, drain_shrinks fuel (cut index len buffer), length-cut buffer index len found))
  ]

  pub drain_fuel :
      (fuel more : ℕ) (buffer : Bytes)
      → length buffer ≤ fuel
      → length buffer ≤ more
      → drain decode fuel buffer ≡ drain decode more buffer
  drain_fuel zero more buffer h k =
      drain-none zero buffer (find-empty buffer h)
      ∙ sym (drain-none more buffer (find-empty buffer h))
  drain_fuel (suc fuel) zero buffer h k =
      drain-none (suc fuel) buffer (find-empty buffer k)
      ∙ sym (drain-none zero buffer (find-empty buffer k))
  drain_fuel (suc fuel) (suc more) buffer h k = elim (Option-cases (find_sse_delimiter buffer)) [
    | inl nothing ↦
        drain-none (suc fuel) buffer nothing ∙ sym (drain-none (suc more) buffer nothing)
    | inr ((index, len), found) ↦
        drain-some fuel buffer index len found
        ∙ ap (turn (parse_sse_frame decode (take index buffer))) (
            drain_fuel fuel more (cut index len buffer)
              (omega (arith, length-cut buffer index len found))
              (omega (arith, length-cut buffer index len found)))
        ∙ sym (drain-some more buffer index len found)
  ]

  -- Whatever the bytes, `drain_sse_frames` leaves its loop by the loop's own condition: no
  -- delimiter is left in the buffer, which has not grown.
  pub drain_sse_frames_completes :
      (buffer : Bytes)
      → (find_sse_delimiter (drain_sse_frames decode buffer).1 ≡ none)
        × (length (drain_sse_frames decode buffer).1 ≤ length buffer)
  unfolding drain_sse_frames
  drain_sse_frames_completes buffer =
      (drain_complete (length buffer) buffer (omega arith), drain_shrinks (length buffer) buffer)
