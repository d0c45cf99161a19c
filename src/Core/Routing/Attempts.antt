-- ===== src/Core/Routing/Attempts.antt =====
-- `ordered_endpoints`: which endpoints one request tries, and the round robin over requests.
use mathlib.Core.List.Perm
use mathlib.Core.List.{Perm, perm_append_comm}
use unigateway.Prelude.{
  ℕ, ◌%◌, min, max, ◌≡◌, ◌≢◌, refl, sym, subst, false, List, [], ◌∷◌, ◌++◌, length, take, drop,
  is_empty, length-take, take-append-drop, ok, arith,
}
use unigateway.Prelude.Text.{Text}
use unigateway.Prelude.Dict.{Dict}
use unigateway.Prelude.Perms.{length-perm}
use unigateway.Core.Retry.{LoadBalancingStrategy, fallback, random, round_robin, score_ordered}
use unigateway.Core.Pool.{Endpoint}
use unigateway.Core.Routing.{ExecutionSnapshot, rotate_left, counter, balance, ordered_endpoints}

rotate_left-perm {ℓ} : {A : Type ℓ} (n : ℕ) (xs : List A) → Perm (rotate_left n xs) xs
rotate_left-perm n xs =
    subst (Perm (rotate_left n xs)) (take-append-drop n xs)
      (perm_append_comm (drop n xs) (take n xs))

module _ (shuffle : List Endpoint → List Endpoint)
    (fair : (l : List Endpoint) → Perm (shuffle l) l) where
  balance-perm :
      (strategy : LoadBalancingStrategy) (key : Text) (endpoints : List Endpoint) (rr : Dict ℕ)
      → Perm (balance shuffle strategy key endpoints rr).0 endpoints
  unfolding balance
  balance-perm fallback key endpoints rr = Perm.rfl
  balance-perm score_ordered key endpoints rr = Perm.rfl
  balance-perm random key endpoints rr = fair endpoints
  balance-perm round_robin key endpoints rr =
      rotate_left-perm (counter key rr % length endpoints) endpoints

not_empty {ℓ} : {A : Type ℓ} (xs : List A) → xs ≢ [] → is_empty xs ≡ false
not_empty [] h = absurd (h refl)
not_empty (x ∷ xs) h = refl

-- What a request tries: a selection of the endpoints.
pub record Selection (endpoints : List Endpoint) (max_attempts : ℕ) (chosen : List Endpoint)
    : Type 0 where
  pub left_out : List Endpoint
  pub selects : Perm (chosen ++ left_out) endpoints
  pub count : length chosen ≡ min (max max_attempts 1) (length endpoints)

-- With a shuffle that permutes, and at least one endpoint: under every strategy the list to try
-- takes each endpoint at most as often as the snapshot has it, and has as many entries as attempts
-- are allowed, one at least, if there are so many endpoints.
pub ordered_endpoints-Selection :
    (shuffle : List Endpoint → List Endpoint) (s : ExecutionSnapshot) (rr : Dict ℕ)
    (max_attempts : ℕ)
    → ((l : List Endpoint) → Perm (shuffle l) l)
    → s.endpoints ≢ []
    → (chosen : List Endpoint) × ((ordered_endpoints shuffle s rr max_attempts).0 ≡ ok chosen)
      × Selection s.endpoints max_attempts chosen
unfolding ordered_endpoints
ordered_endpoints-Selection shuffle s rr max_attempts fair nonempty =
    let all = (balance shuffle s.load_balancing s.selection_key s.endpoints rr).0 in
    let n = min (max max_attempts 1) (length s.endpoints) in
    let same = balance-perm shuffle fair s.load_balancing s.selection_key s.endpoints rr in
    rw (not_empty s.endpoints nonempty) (
      take n all,
      refl,
      record {
        left_out = drop n all;
        selects = subst (λ l. Perm l s.endpoints) (sym (take-append-drop n all)) same;
        count = omega (arith, length-take n all, length-perm same);
      },
    )
