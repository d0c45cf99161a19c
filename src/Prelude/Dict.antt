-- ===== src/Prelude/Dict.antt =====
-- Rust's `HashMap<String, V>` as an association list. Its order stands for the order of iteration,
-- which the standard library leaves open.
use mathlib.Core.Path.{◌≡◌, refl, subst, ◌∙◌}
use mathlib.Core.Logic.{inl, inr}
use mathlib.Core.Bool.{true, false}
use mathlib.Core.List.{List, [], ◌∷◌}
use mathlib.Core.Option.{Option, none, some}
use native.Mathlib.Omega.{arith}
use unigateway.Prelude.Tests.{if◌then◌else◌, is_some, Bool-cases}
use unigateway.Prelude.Lists.{All}
use unigateway.Prelude.Text.{Text, text_eq, text_eq_iff}

abbrev pub Dict {ℓ} : Type ℓ → Type ℓ
Dict V = List (Text × V)

module _ {ℓ} {V : Type ℓ} where
  unfoldable pub lookup : Text → Dict V → Option V
  lookup k [] = none
  lookup k ((j, v) ∷ m) = if text_eq j k then some v else lookup k m

  unfoldable pub insert : Text → V → Dict V → Dict V
  insert k v [] = (k, v) ∷ []
  insert k v ((j, w) ∷ m) = if text_eq j k then (k, v) ∷ m else (j, w) ∷ insert k v m

  unfoldable pub remove : Text → Dict V → Dict V
  remove k [] = []
  remove k ((j, v) ∷ m) = let rest = remove k m in if text_eq j k then rest else (j, v) ∷ rest

  -- `extend`: the entries of the second map win.
  unfoldable pub extend : Dict V → Dict V → Dict V
  extend m [] = m
  extend m ((k, v) ∷ new) = extend (insert k v m) new

  -- `entry(k).or_insert(v)`
  unfoldable pub or_insert : Text → V → Dict V → Dict V
  or_insert k v m = if is_some (lookup k m) then m else insert k v m

  pub lookup-insert :
      (key at : Text) (new : V) (d : Dict V)
      → lookup at (insert key new d) ≡ (if text_eq key at then some new else lookup at d)
  unfolding lookup insert
  lookup-insert key at new ((k, old) ∷ d) =
      ground
        (arith, lookup-insert key at new d, text_eq_iff k at, text_eq_iff k key, text_eq_iff key at)
  lookup-insert key at new [] = refl

  pub lookup-remove :
      (k j : Text) (m : Dict V) → lookup j (remove k m) ≡ (if text_eq k j then none else lookup j m)
  unfolding lookup remove
  lookup-remove k j [] = ground arith
  lookup-remove k j ((i, w) ∷ m) =
      ground (arith, text_eq_iff k j, text_eq_iff i k, text_eq_iff i j, lookup-remove k j m)

text_eq_flip : (i k : Text) → text_eq i k ≡ false → text_eq k i ≡ false
text_eq_flip i k e = ground (arith, text_eq_iff i k, text_eq_iff k i)

pair_eq {ℓ} : {V : Type ℓ} {i k : Text} {v w : V} → i ≡ k → v ≡ w → ◌≡◌ {A = Text × V} (i, v) (k, w)
pair_eq p q = λ a. (p a, q a)

module _ {ℓ} {V : Type ℓ} where
  -- No key has two entries.
  abbrev pub Distinct : Dict V → Type ℓ
  Distinct [] = Unit
  Distinct ((k, v) ∷ m) = (lookup k m ≡ none) × Distinct m

  pub insert-Distinct : (k : Text) (v : V) (m : Dict V) → Distinct m → Distinct (insert k v m)
  unfolding insert lookup
  insert-Distinct k v [] d = (refl, tt)
  insert-Distinct k v ((i, w) ∷ m) (new, d) = elim (Bool-cases (text_eq i k)) [
    | inl e ↦ rw e (subst (λ t. lookup t m ≡ none) ((text_eq_iff i k).0 e) new, d)
    | inr e ↦ rw e (lookup-insert k i v m ∙ rw (text_eq_flip i k e) new, insert-Distinct k v m d)
  ]

  pub remove-Distinct : (k : Text) (m : Dict V) → Distinct m → Distinct (remove k m)
  unfolding remove
  remove-Distinct k [] d = tt
  remove-Distinct k ((i, w) ∷ m) (new, d) = elim (Bool-cases (text_eq i k)) [
    | inl e ↦ rw e (remove-Distinct k m d)
    | inr e ↦ rw e (lookup-remove k i m ∙ rw (text_eq_flip i k e) new, remove-Distinct k m d)
  ]

  module _ {κ} (P : Text × V → Type κ) where
    pub All-insert : (k : Text) (v : V) (m : Dict V) → P (k, v) → All P m → All P (insert k v m)
    unfolding insert
    All-insert k v [] p h = (p, tt)
    All-insert k v ((i, w) ∷ m) p (q, h) = elim (Bool-cases (text_eq i k)) [
      | inl e ↦ rw e (p, h)
      | inr e ↦ rw e (q, All-insert k v m p h)
    ]

    pub All-remove : (k : Text) (m : Dict V) → All P m → All P (remove k m)
    unfolding remove
    All-remove k [] h = tt
    All-remove k ((i, w) ∷ m) (q, h) = elim (Bool-cases (text_eq i k)) [
      | inl e ↦ rw e (All-remove k m h)
      | inr e ↦ rw e (q, All-remove k m h)
    ]

    pub All-lookup : (k : Text) (v : V) (m : Dict V) → lookup k m ≡ some v → All P m → P (k, v)
    unfolding lookup
    All-lookup k v [] e h = cc
    All-lookup k v ((i, w) ∷ m) e (q, h) = elim (Bool-cases (text_eq i k)) [
      | inl here ↦ subst P (pair_eq ((text_eq_iff i k).0 here) (cc)) q
      | inr there ↦ All-lookup k v m (cc) h
    ]

pub text_eq_refl : (k : Text) → text_eq k k ≡ true
text_eq_refl k = (text_eq_iff k k).1 refl
