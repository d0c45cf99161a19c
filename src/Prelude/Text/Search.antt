-- ===== src/Prelude/Text/Search.antt =====
-- How `trim_start`, `strip_prefix` and `str::find` answer when a text grows at its end.
use unigateway.Prelude.Tests.{is_some, if◌then◌else◌}
use unigateway.Prelude.Lists.{length}
use Prim.Native.Nat.{ℕ, suc, ◌+◌, ◌≤◌}
use mathlib.Core.Path.{◌≡◌, refl, ap}
use mathlib.Core.Bool.{Bool, true, false}
use mathlib.Core.List.{[], ◌∷◌, ◌++◌}
use mathlib.Core.Option.{Option, none, some}
use native.Mathlib.Omega.{arith}
use unigateway.Prelude.Text.{
  Text, strip_prefix, starts_with, trim_start, is_whitespace, find_text, or_next,
}

-- A prefix that is there stays there.
pub strip_prefix-append :
    (s p more rest : Text)
    → strip_prefix s p ≡ some rest
    → strip_prefix (s ++ more) p ≡ some (rest ++ more)
unfolding strip_prefix
strip_prefix-append s [] more rest h = ap (λ t. some (t ++ more)) (cc)
strip_prefix-append [] (c ∷ p) more rest h = cc
strip_prefix-append (d ∷ s) (c ∷ p) more rest h = ground (arith, strip_prefix-append s p more rest)

-- A text as long as the prefix decides whether it is there.
pub strip_prefix-append-none :
    (s p more : Text)
    → strip_prefix s p ≡ none
    → (length p ≤ length s)
    → strip_prefix (s ++ more) p ≡ none
unfolding strip_prefix
strip_prefix-append-none s [] more h long = cc
strip_prefix-append-none [] (c ∷ p) more h long = absurd (omega arith)
strip_prefix-append-none (d ∷ s) (c ∷ p) more h long =
    ground (arith, strip_prefix-append-none s p more)

-- A text that is neither a prefix of `p` nor starts with `p` differs from it for good.
pub strip_prefix_mismatch :
    (s p more : Text)
    → strip_prefix s p ≡ none
    → strip_prefix p s ≡ none
    → strip_prefix (s ++ more) p ≡ none
unfolding strip_prefix
strip_prefix_mismatch s [] more h k = cc
strip_prefix_mismatch [] (c ∷ p) more h k = cc
strip_prefix_mismatch (d ∷ s) (c ∷ p) more h k = ground (arith, strip_prefix_mismatch s p more)

-- What is left of a text that began with white space, when more follows it.
unfoldable pub grown : Text → Text → Text
grown [] more = trim_start more
grown (c ∷ s) more = c ∷ (s ++ more)

-- White space at the start goes on until the first other character.
pub trim_start-append : (s more : Text) → trim_start (s ++ more) ≡ grown (trim_start s) more
unfolding trim_start grown
trim_start-append [] more = refl
trim_start-append (c ∷ s) more = keep_or_skip (is_whitespace c) (trim_start-append s more)
  where
    keep_or_skip :
        (white : Bool)
        → trim_start (s ++ more) ≡ grown (trim_start s) more
        → (if white then trim_start (s ++ more) else c ∷ (s ++ more))
          ≡ grown (if white then trim_start s else c ∷ s) more
    keep_or_skip true h = h
    keep_or_skip false h = refl

module _ (p : Text) where
  or_next-within :
      (here : Bool) (later : Option ℕ) (n i : ℕ)
      → (here ≡ true → length p ≤ suc n)
      → ((j : ℕ) → later ≡ some j → j + length p ≤ n)
      → or_next here later ≡ some i
      → i + length p ≤ suc n
  or_next-within true later n i whole rest h = grind (arith, whole refl)
  or_next-within false none n i whole rest h = cc
  or_next-within false (some j) n i whole rest h = grind (arith, rest j refl)

starts_with-within : (s p : Text) → starts_with s p ≡ true → length p ≤ length s
unfolding starts_with
starts_with-within s [] h = omega arith
starts_with-within [] (c ∷ p) h = cc
starts_with-within (d ∷ s) (c ∷ p) h = ground (arith, starts_with-within s p)

pub find_text-within : (s p : Text) (i : ℕ) → find_text s p ≡ some i → i + length p ≤ length s
unfolding find_text
find_text-within [] [] i h = grind arith
find_text-within [] (c ∷ p) i h = cc
find_text-within (c ∷ s) p i h =
    or_next-within p (starts_with (c ∷ s) p) (find_text s p) (length s) i
      (starts_with-within (c ∷ s) p) (find_text-within s p) h

-- Whether a text starts with `p` is settled by its first characters.
pub starts_with-more : (s p more : Text) → starts_with s p ≡ true → starts_with (s ++ more) p ≡ true
unfolding starts_with
starts_with-more s [] more h = refl
starts_with-more [] (c ∷ p) more h = cc
starts_with-more (d ∷ s) (c ∷ p) more h = ground (arith, starts_with-more s p more)

starts_with-more-not :
    (s p more : Text)
    → starts_with s p ≡ false
    → length p ≤ length s
    → starts_with (s ++ more) p ≡ false
unfolding starts_with
starts_with-more-not s [] more h long = cc
starts_with-more-not [] (c ∷ p) more h long = absurd (omega arith)
starts_with-more-not (d ∷ s) (c ∷ p) more h long = ground (arith, starts_with-more-not s p more)

-- One step of the search, in the text there was and in the longer one.
or_next-append :
    (before after : Bool) (later later' : Option ℕ) (i : ℕ)
    → (before ≡ true → after ≡ true)
    → ((j : ℕ) → before ≡ false → later ≡ some j → (after ≡ false) × (later' ≡ some j))
    → or_next before later ≡ some i
    → or_next after later' ≡ some i
or_next-append true after later later' i kept grown h = rw (kept refl) h
or_next-append false after none later' i kept grown h = cc
or_next-append false after (some j) later' i kept grown h =
    rw ((grown j refl refl).0, (grown j refl refl).1) h

-- The first occurrence stays the first one.
pub find_text-append :
    (s p more : Text) (i : ℕ) → find_text s p ≡ some i → find_text (s ++ more) p ≡ some i
unfolding find_text
find_text-append [] [] [] i h = h
find_text-append [] [] (c ∷ more) i h = h
find_text-append [] (c ∷ p) more i h = cc
find_text-append (c ∷ s) p more i h =
    or_next-append (starts_with (c ∷ s) p) (starts_with (c ∷ (s ++ more)) p) (find_text s p)
      (find_text (s ++ more) p) i (starts_with-more (c ∷ s) p more)
      (λ j absent found. (
        starts_with-more-not (c ∷ s) p more absent (omega (arith, find_text-within s p j found)),
        find_text-append s p more j found,
      ))
      h

-- What `strip_prefix` takes off and leaves is the text.
pub strip_prefix-eq : (s p rest : Text) → strip_prefix s p ≡ some rest → s ≡ p ++ rest
unfolding strip_prefix
strip_prefix-eq s [] rest h = cc
strip_prefix-eq [] (c ∷ p) rest h = cc
strip_prefix-eq (d ∷ s) (c ∷ p) rest h = ground (arith, strip_prefix-eq s p rest)

-- A text longer than one that is no prefix of `p` is none either.
pub strip_prefix-longer :
    (p s more : Text) → strip_prefix p s ≡ none → strip_prefix p (s ++ more) ≡ none
unfolding strip_prefix
strip_prefix-longer p [] more h = cc
strip_prefix-longer [] (c ∷ s) more h = refl
strip_prefix-longer (d ∷ p) (c ∷ s) more h = ground (arith, strip_prefix-longer p s more)

-- Two texts, each a prefix of the other.
pub strip_prefix_antisym :
    (s p left right : Text)
    → strip_prefix p s ≡ some left
    → strip_prefix s p ≡ some right
    → right ≡ []
unfolding strip_prefix
strip_prefix_antisym [] [] left right h k = cc
strip_prefix_antisym [] (c ∷ p) left right h k = cc
strip_prefix_antisym (d ∷ s) [] left right h k = cc
strip_prefix_antisym (d ∷ s) (c ∷ p) left right h k =
    ground (arith, strip_prefix_antisym s p left right)

is_some-none : {A : Type 0} (o : Option A) → is_some o ≡ false → o ≡ none
is_some-none none h = refl
is_some-none (some a) h = cc

is_some-some : {A : Type 0} (o : Option A) → is_some o ≡ true → (a : A) × (o ≡ some a)
is_some-some none h = cc
is_some-some (some a) h = (a, refl)

pub starts_with→none : (s p : Text) → starts_with s p ≡ false → strip_prefix s p ≡ none
unfolding starts_with
starts_with→none s p h = is_some-none (strip_prefix s p) h

pub starts_with→some :
    (s p : Text) → starts_with s p ≡ true → (rest : Text) × (strip_prefix s p ≡ some rest)
unfolding starts_with
starts_with→some s p h = is_some-some (strip_prefix s p) h

pub starts_with-longer :
    (p s more : Text) → starts_with p s ≡ false → starts_with p (s ++ more) ≡ false
unfolding starts_with
starts_with-longer p s more h = rw (strip_prefix-longer p s more (starts_with→none p s h)) refl
