-- ===== src/Prelude/Perms.antt =====
-- Permutations and the functions of `Lists`.
use native.Mathlib.Nat.{ℕ_set}
use mathlib.Core.List.Perm
use mathlib.Core.List.{Perm, Permᴰ}
use mathlib.Core.Logic.{∥∥₁_elim, inl, inr}
use mathlib.Core.Path.{◌≡◌, refl, ◌∙◌}
use mathlib.Core.Bool.{Bool}
use mathlib.Core.List.{List, ◌∷◌}
use native.Mathlib.Omega.{arith}
use unigateway.Prelude.Tests.{Bool-cases}
use unigateway.Prelude.Lists.{length, keep}

module _ {ℓ} {A : Type ℓ} where
  pub length-permᴰ : {xs ys : List A} → Permᴰ xs ys → length xs ≡ length ys
  length-permᴰ Permᴰ.nil = refl
  length-permᴰ (Permᴰ.cons e p) = omega (arith, length-permᴰ p)
  length-permᴰ (Permᴰ.swap e f) = refl
  length-permᴰ (Permᴰ.trans p q) = length-permᴰ p ∙ length-permᴰ q

  pub length-perm : {xs ys : List A} → Perm xs ys → length xs ≡ length ys
  length-perm p = ∥∥₁_elim p (ℕ_set _ _) length-permᴰ

  keep-cons-perm :
      (p : A → Bool) (x : A) (xs ys : List A)
      → Perm (keep p xs) (keep p ys)
      → Perm (keep p (x ∷ xs)) (keep p (x ∷ ys))
  keep-cons-perm p x xs ys h = elim (Bool-cases (p x)) [
    | inl e ↦ rw e (Perm.cons x h)
    | inr e ↦ rw e h
  ]

  keep-swap-perm :
      (p : A → Bool) (x y : A) (xs : List A) → Perm (keep p (x ∷ y ∷ xs)) (keep p (y ∷ x ∷ xs))
  keep-swap-perm p x y xs = elim (Bool-cases (p x)) [
    | inl e ↦ elim (Bool-cases (p y)) [
      | inl f ↦ rw (e, f) (Perm.swap y x (keep p xs))
      | inr f ↦ rw (e, f) Perm.rfl
    ]
    | inr e ↦ rw e Perm.rfl
  ]

  -- Filtering a permuted list permutes what is kept.
  pub keep-permᴰ : (p : A → Bool) {xs ys : List A} → Permᴰ xs ys → Perm (keep p xs) (keep p ys)
  keep-permᴰ p Permᴰ.nil = Perm.nil
  keep-permᴰ p (Permᴰ.cons {a = x} e h) = rw (← e) (keep-cons-perm p x _ _ (keep-permᴰ p h))
  keep-permᴰ p (Permᴰ.swap {a = x} {b = y} {l = l} e f) = rw (← e, ← f) (keep-swap-perm p x y l)
  keep-permᴰ p (Permᴰ.trans h k) = Perm.trans (keep-permᴰ p h) (keep-permᴰ p k)
