-- ===== src/Core/ToolCalls/Arguments/Laws.antt =====
-- What the merged and the normalized arguments of a tool call are.
use mathlib.Core.List.{append-nil}
use unigateway.Prelude.{
  ℕ, zero, suc, ◌-◌, ◌≤◌, ◌<◌, min, Bool, true, false, ◌≡◌, refl, subst, sym, inl, inr, ◌||◌,
  Option, none, some, [], ◌∷◌, ◌++◌, is_empty, if◌then◌else◌, arith, Bool-cases, All, length, take,
  drop,
}
use unigateway.Prelude.Text.{Text, text_eq, starts_with, byte_len, len_utf8, starts_with-append}
use unigateway.Core.ToolCalls.Arguments.{
  split_bytes, ends_with, joined, overlaps, merge_openai_tool_call_arguments,
}

starts_with_self : (s : Text) → starts_with s s ≡ true
starts_with_self s = subst (λ t. starts_with t s ≡ true) (append-nil s) (starts_with-append s [])

starts_with-nil : (s : Text) → starts_with s [] ≡ true
starts_with-nil s = starts_with-append [] s

-- A result, if there is one, goes on from what there was.
extends : Text → Option Text → Bool
extends existing none = true
extends existing (some merged) = starts_with merged existing

joined-extends :
    (existing : Text) (a b : Option (Text × Text)) (shorter : Option Text)
    → extends existing shorter ≡ true
    → extends existing (joined existing a b shorter) ≡ true
unfolding joined extends
joined-extends existing none b shorter h = refl
joined-extends existing (some (before, tail)) none shorter h = refl
joined-extends existing (some (before, tail)) (some (head, rest)) shorter h =
    elim (Bool-cases (text_eq tail head)) [
      | inl same ↦ rw same (starts_with-append existing rest)
      | inr other ↦ rw other h
    ]

overlaps-extends :
    (n : ℕ) (existing incoming : Text) → extends existing (overlaps n existing incoming) ≡ true
unfolding overlaps extends
overlaps-extends zero existing incoming = starts_with-append existing incoming
overlaps-extends (suc n) existing incoming =
    joined-extends existing (split_bytes (byte_len existing - suc n) existing)
      (split_bytes (suc n) incoming) (overlaps n existing incoming)
      (overlaps-extends n existing incoming)

chosen-extends :
    (none_new none_old cumulative known : Bool) (existing incoming : Text) (joint : Option Text)
    → none_old ≡ is_empty existing
    → cumulative ≡ starts_with incoming existing
    → extends existing joint ≡ true
    → extends existing (
        if none_new
        then some existing
        else if none_old
        then some incoming
        else if cumulative
        then some incoming
        else if known
        then some existing
        else joint)
      ≡ true
unfolding extends
chosen-extends true none_old cumulative known existing incoming joint h k j =
    starts_with_self existing
chosen-extends false true cumulative known [] incoming joint h k j = starts_with-nil incoming
chosen-extends false true cumulative known (c ∷ existing) incoming joint h k j = cc
chosen-extends false false true known existing incoming joint h k j = sym k
chosen-extends false false false true existing incoming joint h k j = starts_with_self existing
chosen-extends false false false false existing incoming joint h k j = j

extends-some :
    (existing merged : Text) (answer : Option Text)
    → extends existing answer ≡ true
    → answer ≡ some merged
    → starts_with merged existing ≡ true
unfolding extends
extends-some existing merged none h k = cc
extends-some existing merged (some other) h k = cc

-- Merging a delta into the arguments never takes back or changes what there was: the merged text
-- starts with it.
pub merge-extends :
    (existing incoming merged : Text)
    → merge_openai_tool_call_arguments existing incoming ≡ some merged
    → starts_with merged existing ≡ true
unfolding merge_openai_tool_call_arguments
merge-extends existing incoming merged h =
    extends-some existing merged _
      (chosen-extends (is_empty incoming) (is_empty existing) (starts_with incoming existing)
        (starts_with existing incoming || ends_with existing incoming) existing incoming
        (overlaps (min (byte_len existing) (byte_len incoming)) existing incoming) refl refl
        (overlaps-extends (min (byte_len existing) (byte_len incoming)) existing incoming))
      h

-- In ASCII a byte is a character, and every slice is one.
abbrev pub Ascii : Text → Type 0
Ascii = All (λ c. c < 128)

byte_len-Ascii : (s : Text) → Ascii s → byte_len s ≡ length s
unfolding byte_len len_utf8
byte_len-Ascii [] h = refl
byte_len-Ascii (c ∷ s) h = ground (arith, byte_len-Ascii s)

len_utf8-Ascii : (c : ℕ) → c < 128 → len_utf8 c ≡ 1
unfolding len_utf8
len_utf8-Ascii c h = ground arith

split_bytes-Ascii :
    (n : ℕ) (s : Text) → Ascii s → n ≤ length s → split_bytes n s ≡ some (take n s, drop n s)
unfolding split_bytes
split_bytes-Ascii zero s h k = refl
split_bytes-Ascii (suc n) [] h k = absurd (omega arith)
split_bytes-Ascii (suc n) (c ∷ s) (small, h) k =
    rw (len_utf8-Ascii c small, one_less, split_bytes-Ascii n s h (omega arith)) (ground arith)
  where
    one_less : suc n - 1 ≡ n
    one_less = omega arith

joined-Ascii :
    (existing : Text) (a b : Text × Text) (shorter : Text)
    → (merged : Text) × (joined existing (some a) (some b) (some shorter) ≡ some merged)
unfolding joined
joined-Ascii existing (before, tail) (head, rest) shorter = elim (Bool-cases (text_eq tail head)) [
  | inl same ↦ (existing ++ rest, rw same refl)
  | inr other ↦ (shorter, rw other refl)
]

overlaps-Ascii :
    (n : ℕ) (existing incoming : Text)
    → Ascii existing
    → Ascii incoming
    → n ≤ length existing
    → n ≤ length incoming
    → (merged : Text) × (overlaps n existing incoming ≡ some merged)
unfolding overlaps
overlaps-Ascii zero existing incoming a b h k = (existing ++ incoming, refl)
overlaps-Ascii (suc n) existing incoming a b h k =
    let (shorter, found) = overlaps-Ascii n existing incoming a b (omega arith) (omega arith) in
    rw
      (
        split_bytes-Ascii (byte_len existing - suc n) existing a
            (omega (arith, byte_len-Ascii existing a)),
        split_bytes-Ascii (suc n) incoming b k,
        found,
      )
      (joined-Ascii existing
        (take (byte_len existing - suc n) existing, drop (byte_len existing - suc n) existing)
        (take (suc n) incoming, drop (suc n) incoming) shorter)

chosen-Ascii :
    (none_new none_old cumulative known : Bool) (existing incoming : Text) (joint : Option Text)
    → ((merged : Text) × (joint ≡ some merged))
    → (merged : Text) × ((if none_new
          then some existing
          else if none_old
          then some incoming
          else if cumulative
          then some incoming
          else if known
          then some existing
          else joint)
        ≡ some merged)
chosen-Ascii true none_old cumulative known existing incoming joint h = (existing, refl)
chosen-Ascii false true cumulative known existing incoming joint h = (incoming, refl)
chosen-Ascii false false true known existing incoming joint h = (incoming, refl)
chosen-Ascii false false false true existing incoming joint h = (existing, refl)
chosen-Ascii false false false false existing incoming joint h = h

merge_total-Ascii :
    (existing incoming : Text)
    → Ascii existing
    → Ascii incoming
    → (merged : Text) × (merge_openai_tool_call_arguments existing incoming ≡ some merged)
unfolding merge_openai_tool_call_arguments
merge_total-Ascii existing incoming a b =
    chosen-Ascii (is_empty incoming) (is_empty existing) (starts_with incoming existing)
      (starts_with existing incoming || ends_with existing incoming) existing incoming
      (overlaps n existing incoming)
      (overlaps-Ascii n existing incoming a b (omega (arith, byte_len-Ascii existing a))
        (omega (arith, byte_len-Ascii incoming b)))
  where
    n : ℕ
    n = min (byte_len existing) (byte_len incoming)

-- On ASCII texts the merge does not panic, and the merged text starts with what there was.
pub merge-Ascii :
    (existing incoming : Text)
    → Ascii existing
    → Ascii incoming
    → (merged : Text) × ((merge_openai_tool_call_arguments existing incoming ≡ some merged)
        × (starts_with merged existing ≡ true))
merge-Ascii existing incoming a b =
    let (merged, found) = merge_total-Ascii existing incoming a b in
    (merged, (found, merge-extends existing incoming merged found))
