-- ===== src/Core/ToolCalls/Arguments.antt =====
-- unigateway-core/src/conversion/tool_calls.rs: the text of a tool call's arguments, put together
-- from the deltas of a stream. `serde_json::from_str::<String>` is the parameter `from_str`; `none`
-- is the panic of a slice that cuts a character.
pub mod Laws
pub mod Normal
use unigateway.Prelude.{
  ℕ, zero, suc, ◌-◌, ◌+◌, min, Bool, true, false, ◌&&◌, ◌||◌, Option, none, some, List, [], ◌∷◌,
  ◌++◌, ltb, ◌==◌, is_empty, if◌then◌else◌,
}
use unigateway.Prelude.Text.{Text, codes, text_eq, starts_with, byte_len, len_utf8}

-- `&s[..n]` and `&s[n..]` for an offset in bytes.
unfoldable pub split_bytes : ℕ → Text → Option (Text × Text)
unfolding len_utf8
split_bytes zero s = some ([], s)
split_bytes (suc n) [] = none
split_bytes (suc n) (c ∷ s) =
    let rest = split_bytes (suc n - len_utf8 c) s in
    if ltb n (len_utf8 c - 1)
    then none
    else elim rest [ none ↦ none | some (head, tail) ↦ some (c ∷ head, tail) ]

unfoldable pub ends_with : Text → Text → Bool
unfolding text_eq
ends_with [] p = is_empty p
ends_with (c ∷ s) p = text_eq (c ∷ s) p || ends_with s p

-- The two slices compared at an overlap, the text joined there, and what shorter overlaps give.
unfoldable pub joined :
    Text → Option (Text × Text) → Option (Text × Text) → Option Text → Option Text
unfolding text_eq
joined existing none incoming shorter = none
joined existing (some (before, tail)) none shorter = none
joined existing (some (before, tail)) (some (head, rest)) shorter =
    if text_eq tail head then some (existing ++ rest) else shorter

-- The loop over the overlaps, from the longest down.
unfoldable pub overlaps : ℕ → Text → Text → Option Text
unfolding split_bytes byte_len joined
overlaps zero existing incoming = some (existing ++ incoming)
overlaps (suc n) existing incoming =
    joined existing (split_bytes (byte_len existing - suc n) existing)
      (split_bytes (suc n) incoming) (overlaps n existing incoming)

unfoldable pub merge_openai_tool_call_arguments : Text → Text → Option Text
unfolding overlaps starts_with ends_with byte_len
merge_openai_tool_call_arguments existing incoming =
    if is_empty incoming
    then some existing
    else if is_empty existing
    then some incoming
    else if starts_with incoming existing
    then some incoming
    else if starts_with existing incoming || ends_with existing incoming
    then some existing
    else overlaps (min (byte_len existing) (byte_len incoming)) existing incoming

unfoldable pub strip_empty_object_prefix : Text → Text
strip_empty_object_prefix (a ∷ b ∷ c ∷ s) =
    let rest = strip_empty_object_prefix (c ∷ s) in
    if a == 123 && b == 125 then rest else a ∷ b ∷ c ∷ s
strip_empty_object_prefix s = s

abbrev pub quoted : Text → Bool
quoted [] = false
quoted (c ∷ s) = c == 34

-- A turn of the loop of `normalize_openai_tool_call_arguments` whose `repaired` is `normalized`.
abbrev pub decoded_or : Text → Bool → Option Text → (Text → Text) → Text → Text
decoded_or normalized false decoded onward previous = normalized
decoded_or normalized true none onward previous = previous
decoded_or normalized true (some decoded) onward previous = onward decoded

module _ (from_str : Text → Option Text) where
  -- The loop, on fuel: `repaired` is taken up by the same turn, since it has no prefix left.
  unfoldable pub normalize_loop : ℕ → Text → Text → Text
  unfolding strip_empty_object_prefix
  normalize_loop zero normalized previous = normalized
  normalize_loop (suc fuel) normalized previous =
      let repaired = strip_empty_object_prefix normalized in
      decoded_or repaired (quoted repaired) (from_str repaired)
        (λ decoded. normalize_loop fuel decoded previous) previous

  unfoldable pub normalize_openai_tool_call_arguments : (raw previous : Text) → Text
  unfolding normalize_loop byte_len
  normalize_openai_tool_call_arguments raw previous =
      if is_empty raw then previous else normalize_loop (suc (byte_len raw)) raw previous
