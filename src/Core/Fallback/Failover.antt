-- ===== src/Core/Fallback/Failover.antt =====
-- The fallback strategy: a request gives up only when no endpoint is left.
use unigateway.Prelude.{
  ℕ, ◌+◌, ◌≤◌, ◌<◌, ◌≡◌, refl, inl, inr, true, false, Option, none, some, List, length, All, ltb,
  ltb→le, Bool-cases, Result, ok, err, arith,
}
use unigateway.Prelude.Text.{Text}
use unigateway.Prelude.Dict.{Dict}
use unigateway.Core.Error.{GatewayError}
use unigateway.Core.Retry.{fallback, should_retry_error, is_local_refusal}
use unigateway.Core.Aimd.{AdaptiveConcurrency}
use unigateway.Core.Pool.{Endpoint, DriverEndpointContext}
use unigateway.Core.Routing.{ExecutionSnapshot}
use unigateway.Core.Fallback.{
  Session, Reply, World, Progress, Output, Turn, go_on, stop, settle, attempt_with, admit, turn,
  driver_for_endpoint, execute_attempt, conclude, finalize, fresh, execute_with_fallback,
}
use unigateway.Core.Fallback.Loop.{Keeps, run_rule}
use unigateway.Core.Fallback.Accounting.{tried, Remembers, Turned, turn-Turned}

abbrev Driver : Type 0
Driver = ℕ → DriverEndpointContext → Reply

-- An answer that is not one of the errors by which the engine itself refuses a request.
abbrev NoRefusal : Result Session GatewayError → Type 0
NoRefusal (ok session) = Unit
NoRefusal (err e) = is_local_refusal e ≡ false

-- The endpoint's driver is registered, and never answers with such an error.
pub record IsServed (w : World) (e : Endpoint) : Type 0 where
  pub driver : Driver
  pub registered : driver_for_endpoint w e ≡ ok driver
  pub answers : (i : ℕ) (context : DriverEndpointContext) → NoRefusal (driver i context).answer

execute_attempt-NoRefusal :
    (timeout : Option ℕ) (id : Text) (reply : Reply)
    → NoRefusal reply.answer
    → NoRefusal (execute_attempt timeout id reply)
unfolding execute_attempt
execute_attempt-NoRefusal none id reply h = h
execute_attempt-NoRefusal (some t) id reply h = elim (Bool-cases (ltb t reply.takes)) [
  | inl late ↦ rw late refl
  | inr in_time ↦ rw in_time h
]

-- A turn that ends the request with an error was the last.
abbrev Persists : ℕ → ℕ → Turn → Type 0
Persists total index (stop (err e) p) = total ≤ index + 1
Persists total index _ = Unit

module _ (w : World) (s : ExecutionSnapshot) (total index : ℕ) (e : Endpoint)
    (strategy : s.load_balancing ≡ fallback) where
  settle-Persists :
      (r : Result Session GatewayError) (p : Progress)
      → NoRefusal r
      → Persists total index (settle w s total index e r p)
  unfolding settle
  settle-Persists (ok (Session.completed l)) p h = tt
  settle-Persists (ok Session.streaming) p h = tt
  settle-Persists (err error) p h =
      let retry : should_retry_error s.load_balancing s.retry_policy error ≡ true =
        unfold should_retry_error in rw (strategy, h) refl in
      elim (Bool-cases (ltb (index + 1) total)) [
        | inl more ↦ rw retry (rw more tt)
        | inr over ↦ rw retry (rw over (ltb→le (index + 1) total over))
      ]

  admit-Persists :
      (aimd : AdaptiveConcurrency) (o : Option AdaptiveConcurrency) (p : Progress)
      → IsServed w e
      → Persists total index (admit w s total index e aimd o p)
  unfolding admit attempt_with
  admit-Persists aimd none p served = tt
  admit-Persists aimd (some a) p served =
      rw (served.registered, attempt_with)
        (settle-Persists _ _ (execute_attempt-NoRefusal _ _ _ (served.answers index _)))

  turn-Persists : (p : Progress) → IsServed w e → Persists total index (turn w s total index e p)
  unfolding turn
  turn-Persists p served = admit-Persists _ _ _ served

-- An error is final only when each endpoint was attempted or skipped.
abbrev pub Exhaustive : ℕ → Result Output GatewayError → Progress → Type 0
Exhaustive total (ok output) p = Unit
Exhaustive total (err e) p = tried p ≡ total

turn-Exhaustive :
    (total i : ℕ) (t : Turn)
    → i < total
    → Turned i t
    → Persists total i t
    → Keeps (λ j q. (tried q ≡ j) × Remembers q) (Exhaustive total) i t
turn-Exhaustive total i (go_on q) l h k = h
turn-Exhaustive total i (stop (ok output) q) l h k = tt
turn-Exhaustive total i (stop (err e) q) l h k = omega arith

tried-conclude : (s : ExecutionSnapshot) (p : Progress) → tried (conclude s p).1 ≡ tried p
unfolding conclude finalize
tried-conclude s p = ground arith

conclude-Exhaustive :
    (s : ExecutionSnapshot) (total : ℕ) (r : Result Output GatewayError) (p q : Progress)
    → tried q ≡ tried p
    → tried p ≡ total
    → Exhaustive total r q
conclude-Exhaustive s total (ok output) p q h k = tt
conclude-Exhaustive s total (err e) p q h k = omega arith

-- Under the fallback strategy, with every endpoint served by a registered driver that never answers
-- "pool not found", "no available endpoint" or "all endpoints saturated" itself: if the request
-- fails, each endpoint was attempted or was skipped for lack of capacity. No failure of one
-- endpoint, whatever its kind, keeps another from being tried.
pub fallback_exhausts :
    (w : World) (s : ExecutionSnapshot) (endpoints : List Endpoint)
    (states : Dict AdaptiveConcurrency)
    → s.load_balancing ≡ fallback
    → All (IsServed w) endpoints
    → let r = execute_with_fallback w s endpoints states in Exhaustive (length endpoints) r.0 r.1
unfolding execute_with_fallback
fallback_exhausts w s endpoints states strategy served =
    let total = length endpoints in
    run_rule w s total (IsServed w) (λ i p. (tried p ≡ i) × Remembers p) (Exhaustive total)
      (λ i e p l g inv.
        turn-Exhaustive total i (turn w s total i e p) l (turn-Turned w s total i e i p inv.0 inv.1)
          (turn-Persists w s total i e strategy p g))
      (λ p inv. conclude-Exhaustive s total _ p _ (tried-conclude s p) inv.0) 0 endpoints
      (fresh states) (omega arith) served (refl, inl (refl, refl))
