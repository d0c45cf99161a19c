-- ===== src/Prelude/Indexed.antt =====
-- Rust's `BTreeMap<usize, V>` as an association list in the order of its keys.
use unigateway.Prelude.Tests.{ltb, ◌==◌, if◌then◌else◌, ==_iff, Bool-cases, unwrap_or}
use Prim.Native.Nat.{ℕ}
use mathlib.Core.Path.{◌≡◌, refl, sym, ap, ◌∙◌}
use mathlib.Core.Logic.{◌⊎◌, ◌≢◌, inl, inr}
use mathlib.Core.Bool.{Bool, true, false, ◌||◌}
use mathlib.Core.List.{List, [], ◌∷◌}
use mathlib.Core.Option.{Option, none, some}
use native.Mathlib.Omega.{arith}

abbrev pub Indexed {ℓ} : Type ℓ → Type ℓ
Indexed V = List (ℕ × V)

unfoldable pub listed : ℕ → List ℕ → Bool
listed k [] = false
listed k (j ∷ js) = j == k || listed k js

unfoldable pub without : ℕ → List ℕ → List ℕ
without k [] = []
without k (j ∷ js) = let rest = without k js in if j == k then rest else j ∷ rest

pub listed-without :
    (k j : ℕ) (js : List ℕ) → listed k (without j js) ≡ (if j == k then false else listed k js)
unfolding listed without
listed-without k j [] = ground arith
listed-without k j (i ∷ js) = ground (arith, listed-without k j js)

-- No number is listed twice.
unfoldable pub Once : List ℕ → Type 0
Once [] = Unit
Once (k ∷ ks) = (listed k ks ≡ false) × Once ks

without-Once : (k : ℕ) (js : List ℕ) → Once js → Once (without k js)
unfolding Once without
without-Once k [] h = h
without-Once k (j ∷ js) (new, h) = elim (Bool-cases (j == k)) [
  | inl same ↦ rw same (without-Once k js h)
  | inr other ↦ rw other (kept, without-Once k js h)
]
  where
    kept : listed j (without k js) ≡ false
    kept = ground (arith, listed-without j k js, new)

module _ {ℓ} {V : Type ℓ} where
  unfoldable pub at : ℕ → Indexed V → Option V
  at k [] = none
  at k ((j, v) ∷ m) = if j == k then some v else at k m

  unfoldable pub put : ℕ → V → Indexed V → Indexed V
  put k v [] = (k, v) ∷ []
  put k v ((j, w) ∷ m) =
      let rest = put k v m in
      if j == k then (k, v) ∷ m else if ltb k j then (k, v) ∷ (j, w) ∷ m else (j, w) ∷ rest

  -- Each key once, whatever the list.
  unfoldable pub keys : Indexed V → List ℕ
  unfolding without
  keys [] = []
  keys ((j, v) ∷ m) = j ∷ without j (keys m)

  pub at-put :
      (k i : ℕ) (v : V) (m : Indexed V) → at i (put k v m) ≡ (if k == i then some v else at i m)
  unfolding at put
  at-put k i v [] = refl
  at-put k i v ((j, w) ∷ m) = ground (arith, at-put k i v m)

  -- What is found after a value is put.
  pub at-put-cases :
      (k i : ℕ) (v w : V) (m : Indexed V)
      → at i (put k v m) ≡ some w
      → ((k ≡ i) × (v ≡ w)) ⊎ ((k ≢ i) × (at i m ≡ some w))
  at-put-cases k i v w m h = elim (Bool-cases (k == i)) [
    | inl same ↦ inl ((==_iff k i).0 same, value (sym (at-put k i v m ∙ rw same refl) ∙ h))
    | inr other ↦ inr (ground (arith, other), sym (at-put k i v m ∙ rw other refl) ∙ h)
  ]
    where
      value : some v ≡ some w → v ≡ w
      value e = ap (λ o. unwrap_or o v) e

  pub at-put_same : (k : ℕ) (v : V) (m : Indexed V) → at k (put k v m) ≡ some v
  at-put_same k v m = at-put k k v m ∙ ground arith

  pub at-put_other : (k i : ℕ) (v : V) (m : Indexed V) → k ≢ i → at i (put k v m) ≡ at i m
  at-put_other k i v m other = at-put k i v m ∙ ground arith

  pub at-listed : (k : ℕ) (v : V) (m : Indexed V) → at k m ≡ some v → listed k (keys m) ≡ true
  unfolding at keys listed
  at-listed k v [] h = cc
  at-listed k v ((j, w) ∷ m) h = ground (arith, at-listed k v m, listed-without k j (keys m))

  pub keys-Once : (m : Indexed V) → Once (keys m)
  unfolding keys Once
  keys-Once [] = tt
  keys-Once ((j, v) ∷ m) =
      (ground (arith, listed-without j j (keys m)), without-Once j (keys m) (keys-Once m))
