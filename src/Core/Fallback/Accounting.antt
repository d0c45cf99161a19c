-- ===== src/Core/Fallback/Accounting.antt =====
-- What a request answers: the reports cover the endpoints that were tried, and which error stands
-- for what.
use unigateway.Prelude.{
  ℕ, suc, ◌+◌, ◌≤◌, ◌<◌, ◌≡◌, ◌≢◌, refl, ap, ◌⊎◌, inl, inr, true, false, ◌&&◌, Option, none, some,
  List, [], ◌∷◌, length, All, lt→ltb, length-append, is_empty, ltb, Bool-cases, Result, ok, err,
  arith,
}
use unigateway.Prelude.Dict.{Dict}
use unigateway.Core.Error.{GatewayError, all_endpoints_saturated, all_attempts_failed}
use unigateway.Core.Retry.{should_retry_error}
use unigateway.Core.Aimd.{AdaptiveConcurrency}
use unigateway.Core.Pool.{Endpoint, DriverEndpointContext}
use unigateway.Core.Routing.{ExecutionSnapshot}
use unigateway.Core.Fallback.Loop.{Keeps, run_rule}
use unigateway.Core.Fallback.{
  Session, World, Progress, Output, Turn, Reply, go_on, stop, finalize, settle, attempt_with, admit,
  turn, conclude, fresh, execute_with_fallback,
}

-- An error that closes a request after at least one attempt: it lists the attempts.
abbrev pub Exhausted : GatewayError → Progress → Type 0
Exhausted e p =
    (inner : GatewayError) × (e ≡ all_attempts_failed p.attempts inner) × (0 < length p.attempts)

-- The count of attempts and skips grows by one in each turn.
abbrev pub tried : Progress → ℕ
tried p = length p.attempts + p.skipped_due_to_aimd

-- An error is remembered exactly when there was an attempt.
abbrev pub Remembers : Progress → Type 0
Remembers p =
    ((p.last_error ≡ none) × (p.attempts ≡ []))
    ⊎ ((e : GatewayError) × (p.last_error ≡ some e) × (0 < length p.attempts))

-- What a turn may do, with `n` endpoints dealt with before.
abbrev pub Turned : ℕ → Turn → Type 0
Turned n (go_on p) = (tried p ≡ suc n) × Remembers p
Turned n (stop (ok (Output.completed reports)) p) =
    (reports ≡ p.attempts) × (0 < length reports) × (tried p ≡ suc n)
Turned n (stop (ok (Output.streaming id previous)) p) = (previous ≡ p.attempts) × (tried p ≡ n)
Turned n (stop (err e) p) = Exhausted e p × (tried p ≡ suc n)

nonempty {ℓ} : {A : Type ℓ} (xs : List A) → 0 < length xs → is_empty xs ≡ false
nonempty [] h = elim h [ ]
nonempty (x ∷ xs) h = refl

finalize-Exhausted :
    (e : GatewayError) (p : Progress) (n : ℕ)
    → 0 < length p.attempts
    → tried p ≡ n
    → Exhausted (finalize e p).0 (finalize e p).1 × (tried (finalize e p).1 ≡ n)
unfolding finalize
finalize-Exhausted e p n h t = rw (nonempty p.attempts h) ((e, refl, h), t)

module _ (w : World) (s : ExecutionSnapshot) (total index : ℕ) (e : Endpoint) (n : ℕ) where
  settle-Turned :
      (r : Result Session GatewayError) (p : Progress)
      → tried p ≡ n
      → Turned n (settle w s total index e r p)
  unfolding settle
  settle-Turned (ok (Session.completed l)) p h =
      (refl, rw length-append (omega arith), rw length-append (omega arith))
  settle-Turned (ok Session.streaming) p h = (refl, h)
  settle-Turned (err error) p h =
      elim (Bool-cases
        (ltb (index + 1) total && should_retry_error s.load_balancing s.retry_policy error)) [
          | inl again ↦
              rw again
                (rw length-append (omega arith), inr (error, refl, rw length-append (omega arith)))
          | inr over ↦ rw over (
              finalize-Exhausted error _ (suc n) (rw length-append (omega arith))
                (rw length-append (omega arith)))
        ]

  attempt_with-Turned :
      (d : Result (ℕ → DriverEndpointContext → Reply) GatewayError) (p : Progress)
      → tried p ≡ n
      → Turned n (attempt_with w s total index e d p)
  unfolding attempt_with
  attempt_with-Turned (err error) p h =
      finalize-Exhausted error _ (suc n) (rw length-append (omega arith))
        (rw length-append (omega arith))
  attempt_with-Turned (ok driver) p h = settle-Turned _ _ h

  admit-Turned :
      (aimd : AdaptiveConcurrency) (o : Option AdaptiveConcurrency) (p : Progress)
      → tried p ≡ n
      → Remembers p
      → Turned n (admit w s total index e aimd o p)
  unfolding admit
  admit-Turned aimd none p h m = (omega arith, m)
  admit-Turned aimd (some a) p h m = attempt_with-Turned _ _ h

  pub turn-Turned : (p : Progress) → tried p ≡ n → Remembers p → Turned n (turn w s total index e p)
  unfolding turn
  turn-Turned p h m = admit-Turned _ _ _ h m

-- The answer of a request over `total` endpoints.
abbrev pub Accounted : ExecutionSnapshot → ℕ → Result Output GatewayError → Progress → Type 0
Accounted s total (ok (Output.completed reports)) p =
    (reports ≡ p.attempts) × (0 < length reports) × (tried p ≤ total)
Accounted s total (ok (Output.streaming id previous)) p =
    (previous ≡ p.attempts) × (tried p < total)
Accounted s total (err e) p =
    (Exhausted e p × (tried p ≤ total))
    ⊎ ((e ≡ all_endpoints_saturated s.pool_id)
        × (p.attempts ≡ [])
        × (p.skipped_due_to_aimd ≡ total))

Turned-Accounted :
    (s : ExecutionSnapshot) (n total : ℕ) (r : Result Output GatewayError) (p : Progress)
    → n < total
    → Turned n (stop r p)
    → Accounted s total r p
Turned-Accounted s n total (ok (Output.completed reports)) p h t = (t.0, t.1, omega arith)
Turned-Accounted s n total (ok (Output.streaming id previous)) p h t = (t.0, omega arith)
Turned-Accounted s n total (err e) p h t = inl (t.0, omega arith)

pub conclude-Accounted :
    (s : ExecutionSnapshot) (total : ℕ) (p : Progress)
    → 0 < total
    → tried p ≡ total
    → Remembers p
    → let r = conclude s p in Accounted s total r.0 r.1
unfolding conclude
conclude-Accounted s total p h t (inl (none_left, no_attempts)) =
    let all_skipped : p.skipped_due_to_aimd ≡ total = omega (arith, ap length no_attempts) in
    let test : ltb 0 p.skipped_due_to_aimd ≡ true = lt→ltb 0 _ (omega arith) in
    let no_attempt : is_empty p.attempts ≡ true = rw no_attempts refl in
    rw (none_left, conclude) (rw (no_attempt, test) (inr (refl, no_attempts, all_skipped)))
conclude-Accounted s total p h t (inr (e, last, some_attempt)) =
    let (exhausted, same) = finalize-Exhausted e p total some_attempt t in
    rw (last, conclude) (inl (exhausted, omega arith))

turn-Keeps :
    (w : World) (s : ExecutionSnapshot) (total i : ℕ) (e : Endpoint) (p : Progress)
    → i < total
    → (tried p ≡ i) × Remembers p
    → Keeps (λ j q. (tried q ≡ j) × Remembers q) (Accounted s total) i (turn w s total i e p)
turn-Keeps w s total i e p l inv =
    keep (turn w s total i e p) (turn-Turned w s total i e i p inv.0 inv.1)
  where
    keep :
        (t : Turn) → Turned i t → Keeps (λ j q. (tried q ≡ j) × Remembers q) (Accounted s total) i t
    keep (go_on q) h = h
    keep (stop r q) h = Turned-Accounted s i total r q l h

pub All-Unit : (es : List Endpoint) → All (λ e. Unit {0}) es
All-Unit [] = tt
All-Unit (e ∷ es) = (tt, All-Unit es)

-- A request over at least one endpoint answers in one of four ways. A completed response carries
-- the reports of all its attempts; a stream carries those of the attempts before it; an exhaustion
-- error lists every attempt and there was one at least; and the error that all endpoints are
-- saturated means that not one attempt was made, each endpoint having been skipped. In all cases
-- attempts and skips together are no more than the endpoints.
pub execute_with_fallback-Accounted :
    (w : World) (s : ExecutionSnapshot) (endpoints : List Endpoint)
    (states : Dict AdaptiveConcurrency)
    → endpoints ≢ []
    → let r = execute_with_fallback w s endpoints states in Accounted s (length endpoints) r.0 r.1
unfolding execute_with_fallback
execute_with_fallback-Accounted w s endpoints states h =
    let total = length endpoints in
    let some_endpoint : 0 < total = ground arith in
    run_rule w s total (λ e. Unit {0}) (λ i p. (tried p ≡ i) × Remembers p) (Accounted s total)
      (λ i e p l _ inv. turn-Keeps w s total i e p l inv)
      (λ p inv. conclude-Accounted s total p some_endpoint inv.0 inv.1) 0 endpoints (fresh states)
      (omega arith) (All-Unit endpoints) (refl, inl (refl, refl))
