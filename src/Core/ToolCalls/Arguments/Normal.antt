-- ===== src/Core/ToolCalls/Arguments/Normal.antt =====
-- What the normalized arguments of a tool call are.
use unigateway.Prelude.{
  ℕ, zero, suc, ◌≤◌, ◌<◌, Bool, true, false, ◌≡◌, refl, ◌⊎◌, inl, inr, Option, none, some, [], ◌∷◌,
  arith, length,
}
use unigateway.Prelude.Text.{Text, byte_len, len_utf8}
use unigateway.Core.ToolCalls.Arguments.{
  strip_empty_object_prefix, quoted, decoded_or, normalize_loop,
  normalize_openai_tool_call_arguments,
}

strip_idempotent :
    (s : Text)
    → strip_empty_object_prefix (strip_empty_object_prefix s) ≡ strip_empty_object_prefix s
unfolding strip_empty_object_prefix
strip_idempotent [] = refl
strip_idempotent (a ∷ []) = refl
strip_idempotent (a ∷ b ∷ []) = refl
strip_idempotent (a ∷ b ∷ c ∷ s) = ground (arith, strip_idempotent (c ∷ s))

strip-le : (s : Text) → length (strip_empty_object_prefix s) ≤ length s
unfolding strip_empty_object_prefix
strip-le [] = omega arith
strip-le (a ∷ []) = omega arith
strip-le (a ∷ b ∷ []) = omega arith
strip-le (a ∷ b ∷ c ∷ s) = ground (arith, strip-le (c ∷ s))

length-le-byte_len : (s : Text) → length s ≤ byte_len s
unfolding byte_len len_utf8
length-le-byte_len [] = omega arith
length-le-byte_len (c ∷ s) = ground (arith, length-le-byte_len s)

-- Nothing is left to take off: no `{}` before more text, and no opening quote.
abbrev pub Settled : Text → Type 0
Settled s = (strip_empty_object_prefix s ≡ s) × (quoted s ≡ false)

module _ (from_str : Text → Option Text)
    (shorter : (s decoded : Text) → from_str s ≡ some decoded → length decoded < length s) where
  turn-Settled :
      (repaired previous : Text) (onward : Text → Text) (quote : Bool) (decoded : Option Text)
      → strip_empty_object_prefix repaired ≡ repaired
      → quoted repaired ≡ quote
      → ((d : Text) → decoded ≡ some d → (onward d ≡ previous) ⊎ Settled (onward d))
      → (decoded_or repaired quote decoded onward previous ≡ previous)
        ⊎ Settled (decoded_or repaired quote decoded onward previous)
  turn-Settled repaired previous onward false decoded h k later = inr (h, k)
  turn-Settled repaired previous onward true none h k later = inl refl
  turn-Settled repaired previous onward true (some d) h k later = later d refl

  loop-Settled :
      (fuel : ℕ) (normalized previous : Text)
      → length normalized < fuel
      → (normalize_loop from_str fuel normalized previous ≡ previous)
        ⊎ Settled (normalize_loop from_str fuel normalized previous)
  unfolding normalize_loop
  loop-Settled zero normalized previous h = absurd (omega arith)
  loop-Settled (suc fuel) normalized previous h =
      turn-Settled repaired previous (λ decoded. normalize_loop from_str fuel decoded previous)
        (quoted repaired) (from_str repaired) (strip_idempotent normalized) refl
        (λ d found.
          loop-Settled fuel d previous
            (omega (arith, shorter repaired d found, strip-le normalized)))
    where
      repaired : Text
      repaired = strip_empty_object_prefix normalized

  -- Where decoding a string literal shortens it, the loop ends within its fuel: the answer is the
  -- previous text, or one that neither starts with `{}` and more nor with a quote.
  pub normalize_settles :
      (raw previous : Text)
      → (normalize_openai_tool_call_arguments from_str raw previous ≡ previous)
        ⊎ Settled (normalize_openai_tool_call_arguments from_str raw previous)
  unfolding normalize_openai_tool_call_arguments
  normalize_settles [] previous = inl refl
  normalize_settles (c ∷ raw) previous =
      loop-Settled (suc (byte_len (c ∷ raw))) (c ∷ raw) previous
        (omega (arith, length-le-byte_len (c ∷ raw)))
