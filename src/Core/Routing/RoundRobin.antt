-- ===== src/Core/Routing/RoundRobin.antt =====
-- Round robin over the requests that share a selection key.
use native.Mathlib.Nat.{mod-lt, mod-add-mod, mod-eq_of_lt}
use unigateway.Prelude.{
  ℕ, zero, suc, ◌+◌, ◌%◌, ◌<◌, ◌≡◌, refl, ap, ◌∙◌, false, Option, none, List, [], ◌∷◌, ◌++◌, length,
  take, drop, get_elem?, is_empty, Result, ok, err, arith,
}
use unigateway.Prelude.Dict.{Dict, lookup-insert, text_eq_refl}
use unigateway.Core.Error.{GatewayError}
use unigateway.Core.Retry.{round_robin}
use unigateway.Core.Aimd.{word_end}
use unigateway.Core.Pool.{Endpoint}
use unigateway.Core.Routing.{ExecutionSnapshot, counter, balance, ordered_endpoints}

get_elem?-drop {ℓ} :
    {A : Type ℓ} (n : ℕ) (xs ys : List A)
    → n < length xs
    → get_elem? (drop n xs ++ ys) 0 ≡ get_elem? xs n
get_elem?-drop n [] ys h = elim h [ ]
get_elem?-drop zero (x ∷ xs) ys h = refl
get_elem?-drop (suc n) (x ∷ xs) ys h = get_elem?-drop n xs ys (omega arith)

get_elem?-take {ℓ} :
    {A : Type ℓ} (n : ℕ) (xs : List A) → 0 < n → get_elem? (take n xs) 0 ≡ get_elem? xs 0
get_elem?-take zero xs h = elim h [ ]
get_elem?-take (suc n) [] h = refl
get_elem?-take (suc n) (x ∷ xs) h = refl

-- The first endpoint that a request tries.
abbrev pub first : Result (List Endpoint) GatewayError → Option Endpoint
first (ok chosen) = get_elem? chosen 0
first (err e) = none

module _ (shuffle : List Endpoint → List Endpoint) (s : ExecutionSnapshot) (max_attempts : ℕ) where
  -- The counters after `k` requests.
  pub after_requests : ℕ → Dict ℕ → Dict ℕ
  after_requests zero rr = rr
  after_requests (suc k) rr = after_requests k (ordered_endpoints shuffle s rr max_attempts).1

  module _ (strategy : s.load_balancing ≡ round_robin)
      (some_endpoint : 0 < length s.endpoints) where
    abbrev count : Dict ℕ → ℕ
    count rr = counter s.selection_key rr

    nonempty : is_empty s.endpoints ≡ false
    nonempty = ground arith

    counter-next :
        (rr : Dict ℕ)
        → count rr + 1 < word_end
        → count (ordered_endpoints shuffle s rr max_attempts).1
          ≡ (count rr + 1) % length s.endpoints
    unfolding ordered_endpoints
    counter-next rr h = rw nonempty (
        rw (strategy, balance)
          (rw (lookup-insert, text_eq_refl) (ap (λ c. c % length s.endpoints) (mod-eq_of_lt h))))

    first_lem :
        (rr : Dict ℕ)
        → first (ordered_endpoints shuffle s rr max_attempts).0
          ≡ get_elem? s.endpoints (count rr % length s.endpoints)
    unfolding ordered_endpoints
    first_lem rr = rw nonempty (
        rw (strategy, balance)
          (get_elem?-take _ _ (omega arith)
            ∙ get_elem?-drop _ s.endpoints _ (mod-lt (count rr) some_endpoint)))

    counter-after_requests :
        (k : ℕ) (rr : Dict ℕ)
        → length s.endpoints < word_end
        → count rr + 1 < word_end
        → count (after_requests k rr) % length s.endpoints ≡ (count rr + k) % length s.endpoints
    unfolding after_requests
    counter-after_requests zero rr fits h = ap (λ c. c % length s.endpoints) (omega arith)
    counter-after_requests (suc k) rr fits h =
        let next = (ordered_endpoints shuffle s rr max_attempts).1 in
        let e = counter-next rr h in
        let small : count next + 1 < word_end =
          omega (arith, e, mod-lt (count rr + 1) some_endpoint) in
        counter-after_requests k next fits small
        ∙ ap (λ c. (c + k) % length s.endpoints) e
        ∙ mod-add-mod (count rr + 1) (length s.endpoints) k
        ∙ ap (λ c. c % length s.endpoints) (omega arith)

-- Under round robin the requests of one selection key walk round the endpoints: after `k` requests
-- the next one tries first the endpoint `k` places on from where the counter stood, cyclically. The
-- endpoints are fewer
-- than a `usize` counts, and the counter does not stand at its last value.
pub round_robin_walks :
    (shuffle : List Endpoint → List Endpoint) (s : ExecutionSnapshot) (max_attempts k : ℕ)
    (rr : Dict ℕ)
    → s.load_balancing ≡ round_robin
    → 0 < length s.endpoints
    → length s.endpoints < word_end
    → counter s.selection_key rr + 1 < word_end
    → first
        (ordered_endpoints shuffle s (after_requests shuffle s max_attempts k rr) max_attempts).0
      ≡ get_elem? s.endpoints ((counter s.selection_key rr + k) % length s.endpoints)
round_robin_walks shuffle s max_attempts k rr strategy some_endpoint fits h =
    first_lem shuffle s max_attempts strategy some_endpoint _
    ∙ ap (get_elem? s.endpoints)
        (counter-after_requests shuffle s max_attempts strategy some_endpoint k rr fits h)
