-- ===== src/Core/Sse/Chunks.antt =====
-- How a body is cut into chunks does not matter.
use mathlib.Core.List.{append_assoc, append-nil, flatten}
use unigateway.Prelude.{
  ℕ, zero, suc, ◌≤◌, ◌≡◌, refl, sym, ap, ◌∙◌, inl, inr, Option, none, some, List, [], ◌∷◌, ◌++◌,
  length, length-append, take, take-append, arith, Option-cases,
}
use unigateway.Prelude.Text.{Text}
use unigateway.Core.Sse.{
  Bytes, ParsedSseEvent, parse_sse_frame, find_sse_delimiter, drain, drain_sse_frames,
}
use unigateway.Core.Sse.Delimiters.{find-append, find-within}
use unigateway.Core.Sse.Drain.{
  cut, turn, length-cut, cut-append, find-empty, drain-none, drain-some, drain_shrinks, drain_fuel,
  drain_sse_frames_completes,
}

-- The events of a body that comes in chunks, each added to the bytes that are left and drained, and
-- the bytes that are left in the end.
unfoldable pub receive : (Bytes → Text) → Bytes → List Bytes → List ParsedSseEvent × Bytes
unfolding drain_sse_frames
receive decode buffer [] = ([], buffer)
receive decode buffer (chunk ∷ chunks) =
    let (frames, left) = drain_sse_frames decode (buffer ++ chunk) in
    let (later, rest) = receive decode left chunks in (frames ++ later, rest)

module _ (decode : Bytes → Text) where
  -- More bytes after a drain.
  abbrev followed : ℕ → List ParsedSseEvent × Bytes → Bytes → List ParsedSseEvent × Bytes
  followed fuel (frames, left) more =
      let (later, rest) = drain decode fuel (left ++ more) in (frames ++ later, rest)

  followed-turn :
      (fuel : ℕ) (event : Option ParsedSseEvent) (drained : List ParsedSseEvent × Bytes)
      (more : Bytes)
      → followed fuel (turn event drained) more ≡ turn event (followed fuel drained more)
  followed-turn fuel none (frames, left) more = refl
  followed-turn fuel (some event) (frames, left) more = refl

  followed_fuel :
      (fuel : ℕ) (drained : List ParsedSseEvent × Bytes) (more : Bytes)
      → length (drained.1 ++ more) ≤ fuel
      → followed fuel drained more ≡ followed (suc fuel) drained more
  followed_fuel fuel (frames, left) more h =
      ap (λ (later, rest). (frames ++ later, rest))
        (drain_fuel decode fuel (suc fuel) (left ++ more) h (omega (arith, h)))

  drain-append-some :
      (fuel : ℕ) (buffer more : Bytes) (index len : ℕ)
      → find_sse_delimiter buffer ≡ some (index, len)
      → length (buffer ++ more) ≤ suc fuel
      → drain decode fuel (cut index len buffer ++ more)
        ≡ followed fuel (drain decode fuel (cut index len buffer)) more
      → drain decode (suc fuel) (buffer ++ more)
        ≡ followed (suc fuel) (drain decode (suc fuel) buffer) more
  drain-append-some fuel buffer more index len found h later =
      drain-some decode fuel (buffer ++ more) index len (find-append buffer more index len found)
      ∙ rw
          (
            take-append index buffer more (omega (arith, find-within buffer index len found)),
            cut-append buffer more index len found,
            later,
          )
          refl
      ∙ ap (turn event) (followed_fuel fuel drained more (omega (arith, shorter)))
      ∙ sym (followed-turn (suc fuel) event drained more)
      ∙ ap (λ first. followed (suc fuel) first more)
          (sym (drain-some decode fuel buffer index len found))
    where
      event : Option ParsedSseEvent
      event = parse_sse_frame decode (take index buffer)

      drained : List ParsedSseEvent × Bytes
      drained = drain decode fuel (cut index len buffer)

      shorter : length (drained.1 ++ more) ≤ fuel
      shorter = omega (
        arith,
        length-append drained.1 more,
        length-append buffer more,
        h,
        drain_shrinks decode fuel (cut index len buffer),
        length-cut buffer index len found,
      )

  -- Bytes drained in two goes: the frames of the first, then those of what it left with the rest.
  drain-append :
      (fuel : ℕ) (buffer more : Bytes)
      → length (buffer ++ more) ≤ fuel
      → drain decode fuel (buffer ++ more) ≡ followed fuel (drain decode fuel buffer) more
  drain-append zero buffer more h =
      rw
        (drain-none decode zero buffer
          (find-empty buffer (omega (arith, length-append buffer more))))
        refl
  drain-append (suc fuel) buffer more h = elim (Option-cases (find_sse_delimiter buffer)) [
    | inl nothing ↦ rw (drain-none decode (suc fuel) buffer nothing) refl
    | inr ((index, len), found) ↦ drain-append-some fuel buffer more index len found h (
        drain-append fuel (cut index len buffer) more (
          omega (
            arith,
            length-append buffer more,
            length-append (cut index len buffer) more,
            length-cut buffer index len found,
          )))
  ]

  drain_sse_frames-append :
      (buffer more : Bytes)
      → drain_sse_frames decode (buffer ++ more) ≡ (
          let (frames, left) = drain_sse_frames decode buffer in
          let (later, rest) = drain_sse_frames decode (left ++ more) in (frames ++ later, rest))
  unfolding drain_sse_frames
  drain_sse_frames-append buffer more =
      drain-append enough buffer more (omega arith)
      ∙ ap (λ first. followed enough first more)
          (drain_fuel decode enough (length buffer) buffer
            (omega (arith, length-append buffer more)) (omega arith))
      ∙ ap (λ (later, rest). ((drain decode (length buffer) buffer).0 ++ later, rest))
          (drain_fuel decode enough (length (left ++ more)) (left ++ more)
            (omega (
              arith,
              length-append left more,
              length-append buffer more,
              drain_shrinks decode (length buffer) buffer,
            ))
            (omega arith))
    where
      enough : ℕ
      enough = length (buffer ++ more)

      left : Bytes
      left = (drain decode (length buffer) buffer).1

  drain-none-all :
      (buffer : Bytes)
      → find_sse_delimiter buffer ≡ none
      → drain_sse_frames decode buffer ≡ ([], buffer)
  unfolding drain_sse_frames
  drain-none-all buffer clear = drain-none decode (length buffer) buffer clear

  receive-from :
      (buffer : Bytes) (chunks : List Bytes)
      → find_sse_delimiter buffer ≡ none
      → receive decode buffer chunks ≡ drain_sse_frames decode (buffer ++ flatten chunks)
  unfolding receive flatten
  receive-from buffer [] clear =
      sym (drain-none-all buffer clear) ∙ ap (drain_sse_frames decode) (sym (append-nil buffer))
  receive-from buffer (chunk ∷ chunks) clear =
      ap (λ (later, rest). ((drain_sse_frames decode (buffer ++ chunk)).0 ++ later, rest))
        (receive-from (drain_sse_frames decode (buffer ++ chunk)).1 chunks
          (drain_sse_frames_completes decode (buffer ++ chunk)).0)
      ∙ sym (drain_sse_frames-append (buffer ++ chunk) (flatten chunks))
      ∙ ap (drain_sse_frames decode) (append_assoc buffer chunk (flatten chunks))

  pub receive-flatten :
      (chunks : List Bytes) → receive decode [] chunks ≡ drain_sse_frames decode (flatten chunks)
  receive-flatten chunks = receive-from [] chunks (find-empty [] (omega arith))
