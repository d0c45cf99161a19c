-- ===== src/Prelude/Keyed.antt =====
-- Lists whose entries have keys: the first entry of a key changed or a new one pushed, as with
-- `iter_mut().find(..)` and `push`, `retain`, and that no key occurs twice.
use unigateway.Prelude.Tests.{if◌then◌else◌, Bool-cases}
use unigateway.Prelude.Lists.{any, keep, All}
use unigateway.Prelude.Sorting.{All-append}
use mathlib.Core.Path.{◌≡◌, refl, ap, ◌∙◌}
use mathlib.Core.Logic.{inl, inr}
use mathlib.Core.Bool.{Bool, true, false, ◌||◌}
use mathlib.Core.List.{List, [], ◌∷◌, ◌++◌}
use native.Mathlib.Omega.{arith}

module _ {ℓ} {A : Type ℓ} where
  -- The first entry that meets a test, changed, as by `if let Some(x) = iter_mut().find(p)`.
  unfoldable pub update_first : (A → Bool) → (A → A) → List A → List A
  update_first p f [] = []
  update_first p f (x ∷ xs) = let rest = update_first p f xs in if p x then f x ∷ xs else x ∷ rest

  -- That entry changed, or a new one pushed where there is none.
  unfoldable pub upsert : (A → Bool) → (A → A) → A → List A → List A
  unfolding update_first
  upsert p f new xs = if any p xs then update_first p f xs else xs ++ (new ∷ [])

  any-append : (p : A → Bool) (xs ys : List A) → any p (xs ++ ys) ≡ any p xs || any p ys
  any-append p [] ys = refl
  any-append p (x ∷ xs) ys = ground (arith, any-append p xs ys)

module _ {ℓ κ} {A : Type ℓ} {K : Type κ} (eq : K → K → Bool) (key : A → K) where
  -- The entries that have a key.
  abbrev pub has_key : K → A → Bool
  has_key k x = eq (key x) k

  -- No key occurs twice.
  unfoldable pub Unique : List A → Type 0
  Unique [] = Unit
  Unique (x ∷ xs) = (any (has_key (key x)) xs ≡ false) × Unique xs

  any-keep : (p q : A → Bool) (xs : List A) → any p xs ≡ false → any p (keep q xs) ≡ false
  any-keep p q [] h = refl
  any-keep p q (x ∷ xs) h = ground (arith, any-keep p q xs)

  pub Unique-keep : (q : A → Bool) (xs : List A) → Unique xs → Unique (keep q xs)
  unfolding Unique
  Unique-keep q [] h = tt
  Unique-keep q (x ∷ xs) (new, h) = elim (Bool-cases (q x)) [
    | inl kept ↦ rw kept (any-keep (has_key (key x)) q xs new, Unique-keep q xs h)
    | inr gone ↦ rw gone (Unique-keep q xs h)
  ]

  -- A change that keeps the keys of the entries it is made on.
  module _ (p : A → Bool) (f : A → A) (kept : (x : A) → p x ≡ true → key (f x) ≡ key x) where
    pub any-update :
        (k : K) (xs : List A) → any (has_key k) (update_first p f xs) ≡ any (has_key k) xs
    unfolding update_first
    any-update k [] = refl
    any-update k (x ∷ xs) = elim (Bool-cases (p x)) [
      | inl here ↦ rw (here, kept x here) refl
      | inr later ↦ rw (later, any-update k xs) refl
    ]

    pub Unique-update : (xs : List A) → Unique xs → Unique (update_first p f xs)
    unfolding Unique update_first
    Unique-update [] h = tt
    Unique-update (x ∷ xs) (new, h) = elim (Bool-cases (p x)) [
      | inl here ↦ rw (here, kept x here) (new, h)
      | inr later ↦ rw later (any-update (key x) xs ∙ new, Unique-update xs h)
    ]

  -- A new entry whose key no other has.
  pub Unique-push :
      ((a b : K) → eq a b ≡ eq b a)
      → (xs : List A) (x : A) → any (has_key (key x)) xs ≡ false
      → Unique xs
      → Unique (xs ++ (x ∷ []))
  unfolding Unique
  Unique-push eq_sym [] x fresh h = (refl, tt)
  Unique-push eq_sym (y ∷ ys) x fresh (new, h) = elim (Bool-cases (eq (key y) (key x))) [
    | inl same ↦ absurd (ground (arith, fresh, same))
    | inr other ↦ (
      any-append (has_key (key y)) ys (x ∷ []) ∙ ground (arith, new, other, eq_sym (key x) (key y)),
      Unique-push eq_sym ys x (ground (arith, fresh, other)) h,
    )
  ]

  -- The upsert under a key.
  module _ (eq_sym : (a b : K) → eq a b ≡ eq b a) (k : K) (f : A → A)
      (kept : (x : A) → eq (key x) k ≡ true → key (f x) ≡ key x) (new : A)
      (named : key new ≡ k) where
    pub Unique-upsert : (xs : List A) → Unique xs → Unique (upsert (has_key k) f new xs)
    unfolding upsert
    Unique-upsert xs h = elim (Bool-cases (any (has_key k) xs)) [
      | inl old ↦ rw old (Unique-update (has_key k) f kept xs h)
      | inr fresh ↦
          rw fresh (Unique-push eq_sym xs new (ap (λ j. any (has_key j) xs) named ∙ fresh) h)
    ]

    pub any-upsert :
        (j : K) (xs : List A)
        → any (has_key j) xs ≡ true
        → any (has_key j) (upsert (has_key k) f new xs) ≡ true
    unfolding upsert
    any-upsert j xs h = elim (Bool-cases (any (has_key k) xs)) [
      | inl old ↦ rw old (any-update (has_key k) f kept j xs ∙ h)
      | inr fresh ↦
          rw fresh
            (any-append (has_key j) xs (new ∷ []) ∙ ap (λ b. b || any (has_key j) (new ∷ [])) h)
    ]

module _ {ℓ} {A : Type ℓ} where
  All-update {κ} :
      (P : A → Type κ) (p : A → Bool) (f : A → A)
      → ((x : A) → P x → P (f x))
      → (xs : List A) → All P xs
      → All P (update_first p f xs)
  unfolding update_first
  All-update P p f kept [] h = tt
  All-update P p f kept (x ∷ xs) h =
      elim (p x) as (λ b. All P (if b then f x ∷ xs else x ∷ update_first p f xs)) [
        | true ↦ (kept x h.0, h.1)
        | false ↦ (h.0, All-update P p f kept xs h.1)
      ]

  pub All-upsert {κ} :
      (P : A → Type κ) (p : A → Bool) (f : A → A) (new : A)
      → ((x : A) → P x → P (f x))
      → P new
      → (xs : List A) → All P xs
      → All P (upsert p f new xs)
  unfolding upsert
  All-upsert P p f new kept first xs h = elim (Bool-cases (any p xs)) [
    | inl old ↦ rw old (All-update P p f kept xs h)
    | inr fresh ↦ rw fresh (All-append P xs (new ∷ []) h (first, tt))
  ]

  -- What a test finds is found among the kept, if the other test keeps it.
  pub any-kept :
      (p q : A → Bool) (xs : List A)
      → ((x : A) → p x ≡ true → q x ≡ true)
      → any p xs ≡ true
      → any p (keep q xs) ≡ true
  any-kept p q [] f h = h
  any-kept p q (x ∷ xs) f h = elim (Bool-cases (p x)) [
    | inl here ↦ rw (f x here, here) refl
    | inr later ↦ elim (Bool-cases (q x)) [
      | inl kept ↦ rw (kept, later) (any-kept p q xs f (ground (arith, h, later)))
      | inr gone ↦ rw gone (any-kept p q xs f (ground (arith, h, later)))
    ]
  ]
