-- ===== src/Prelude/Sorting.antt =====
-- A stable insertion sort, for the standard library's `sort_by`: for a total preorder every stable
-- sort gives the same list.
use mathlib.Core.List.Perm
use mathlib.Core.List.{Perm, perm_middle}
use mathlib.Core.Path.{◌≡◌, refl}
use mathlib.Core.Logic.{inl, inr}
use mathlib.Core.Bool.{Bool, true, false, not, ◌&&◌}
use native.Mathlib.Omega.{arith}
use mathlib.Core.List.{List, [], ◌∷◌, ◌++◌}
use unigateway.Prelude.Tests.{if◌then◌else◌, Bool-cases}
use unigateway.Prelude.Lists.{All, keep}

unfoldable pub insert_by {ℓ} : {A : Type ℓ} → (A → A → Bool) → A → List A → List A
insert_by le x [] = x ∷ []
insert_by le x (y ∷ ys) = if le x y then x ∷ y ∷ ys else y ∷ insert_by le x ys

unfoldable pub sort_by {ℓ} : {A : Type ℓ} → (A → A → Bool) → List A → List A
unfolding insert_by
sort_by le [] = []
sort_by le (x ∷ xs) = insert_by le x (sort_by le xs)

-- Every element stands in the relation to all later ones.
abbrev pub Ordered {ℓ κ} : {A : Type ℓ} → (A → A → Type κ) → List A → Type (ℓ ⊔ κ)
Ordered R [] = Unit
Ordered R (x ∷ xs) = All (R x) xs × Ordered R xs

-- A total preorder as a test.
pub record IsOrder {ℓ} {A : Type ℓ} (le : A → A → Bool) : Type ℓ where
  pub total : (a b : A) → le a b ≡ false → le b a ≡ true
  pub trans : (a b c : A) → le a b ≡ true → le b c ≡ true → le a c ≡ true

module _ {ℓ} {A : Type ℓ} where
  pub All-map {κ} : {P Q : A → Type κ} (xs : List A) → ((a : A) → P a → Q a) → All P xs → All Q xs
  All-map [] f h = tt
  All-map (x ∷ xs) f h = (f x h.0, All-map xs f h.1)

  pub All-append {κ} : (P : A → Type κ) (xs ys : List A) → All P xs → All P ys → All P (xs ++ ys)
  All-append P [] ys h k = k
  All-append P (x ∷ xs) ys h k = (h.0, All-append P xs ys h.1 k)

  pub All-keep {κ} : (P : A → Type κ) (p : A → Bool) (xs : List A) → All P xs → All P (keep p xs)
  All-keep P p [] h = tt
  All-keep P p (x ∷ xs) h = elim (p x) as (λ b. All P (if b then x ∷ keep p xs else keep p xs)) [
    | true ↦ (h.0, All-keep P p xs h.1)
    | false ↦ All-keep P p xs h.1
  ]

  -- What `keep` keeps passes the test.
  pub keep-All : (p : A → Bool) (xs : List A) → All (λ a. p a ≡ true) (keep p xs)
  keep-All p [] = tt
  keep-All p (x ∷ xs) = elim (Bool-cases (p x)) [
    | inl e ↦ rw e (e, keep-All p xs)
    | inr e ↦ rw e (keep-All p xs)
  ]

  -- The two halves of a partition together hold what the list holds.
  pub keep-perm : (p : A → Bool) (xs : List A) → Perm (keep (λ a. not (p a)) xs ++ keep p xs) xs
  keep-perm p [] = Perm.nil
  keep-perm p (x ∷ xs) = elim (Bool-cases (p x)) [
    | inl e ↦ rw e (
        Perm.trans (perm_middle (keep (λ a. not (p a)) xs) (keep p xs))
          (Perm.cons x (keep-perm p xs)))
    | inr e ↦ rw e (Perm.cons x (keep-perm p xs))
  ]

  module _ (le : A → A → Bool) where
    pub insert_by-perm : (x : A) (ys : List A) → Perm (insert_by le x ys) (x ∷ ys)
    unfolding insert_by
    insert_by-perm x [] = Perm.rfl
    insert_by-perm x (y ∷ ys) = elim (Bool-cases (le x y)) [
      | inl e ↦ rw e Perm.rfl
      | inr e ↦ rw e (Perm.trans (Perm.cons y (insert_by-perm x ys)) (Perm.swap x y ys))
    ]

    pub sort_by-perm : (xs : List A) → Perm (sort_by le xs) xs
    unfolding sort_by
    sort_by-perm [] = Perm.nil
    sort_by-perm (x ∷ xs) =
        Perm.trans (insert_by-perm x (sort_by le xs)) (Perm.cons x (sort_by-perm xs))

    pub insert_by-All {κ} :
        (P : A → Type κ) (x : A) (ys : List A) → P x → All P ys → All P (insert_by le x ys)
    unfolding insert_by
    insert_by-All P x [] p h = (p, tt)
    insert_by-All P x (y ∷ ys) p h =
        elim (le x y) as (λ b. All P (if b then x ∷ y ∷ ys else y ∷ insert_by le x ys)) [
          | true ↦ (p, h)
          | false ↦ (h.0, insert_by-All P x ys p h.1)
        ]

    pub sort_by-All {κ} : (P : A → Type κ) (xs : List A) → All P xs → All P (sort_by le xs)
    unfolding sort_by
    sort_by-All P [] h = tt
    sort_by-All P (x ∷ xs) h = insert_by-All P x (sort_by le xs) h.0 (sort_by-All P xs h.1)

    insert_by-Ordered :
        IsOrder le
        → (x : A) (ys : List A) → Ordered (λ a b. le a b ≡ true) ys
        → Ordered (λ a b. le a b ≡ true) (insert_by le x ys)
    unfolding insert_by
    insert_by-Ordered o x [] h = (tt, tt)
    insert_by-Ordered o x (y ∷ ys) h = elim (Bool-cases (le x y)) [
      | inl e ↦ rw e ((e, All-map ys (λ z p. o.trans x y z e p) h.0), h)
      | inr e ↦ rw e (
        insert_by-All (λ z. le y z ≡ true) x ys (o.total x y e) h.0,
        insert_by-Ordered o x ys h.1,
      )
    ]

    pub sort_by-Ordered :
        IsOrder le → (xs : List A) → Ordered (λ a b. le a b ≡ true) (sort_by le xs)
    unfolding sort_by
    sort_by-Ordered o [] = tt
    sort_by-Ordered o (x ∷ xs) = insert_by-Ordered o x (sort_by le xs) (sort_by-Ordered o xs)

  pub Ordered-append {κ} :
      (R : A → A → Type κ) (xs ys : List A)
      → Ordered R xs
      → Ordered R ys
      → All (λ x. All (R x) ys) xs
      → Ordered R (xs ++ ys)
  Ordered-append R [] ys h k c = k
  Ordered-append R (x ∷ xs) ys h k c =
      (All-append (R x) xs ys h.0 c.0, Ordered-append R xs ys h.1 k c.1)

  pub All-both {κ μ ν} :
      {P : A → Type κ} {Q : A → Type μ} {S : A → Type ν} (xs : List A)
      → ((a : A) → P a → Q a → S a)
      → All P xs
      → All Q xs
      → All S xs
  All-both [] f h k = tt
  All-both (x ∷ xs) f h k = (f x h.0 k.0, All-both xs f h.1 k.1)

  -- A relation that implies another among elements with a property.
  pub Ordered-map {κ μ ν} :
      {R : A → A → Type κ} {S : A → A → Type μ} {Q : A → Type ν} (xs : List A)
      → ((a b : A) → Q a → Q b → R a b → S a b)
      → All Q xs
      → Ordered R xs
      → Ordered S xs
  Ordered-map [] f q h = tt
  Ordered-map (x ∷ xs) f q h =
      (All-both xs (λ b r k. f x b q.0 k r) h.0 q.1, Ordered-map xs f q.1 h.1)

-- Two filters are one.
pub keep-twice :
    {A : Type 0} (p q : A → Bool) (xs : List A) → keep q (keep p xs) ≡ keep (λ x. p x && q x) xs
keep-twice p q [] = refl
keep-twice p q (x ∷ xs) = elim (Bool-cases (p x)) [
  | inl first ↦ rw first (ground (arith, keep-twice p q xs))
  | inr gone ↦ rw gone (keep-twice p q xs)
]
