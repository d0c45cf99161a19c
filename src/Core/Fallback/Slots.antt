-- ===== src/Core/Fallback/Slots.antt =====
-- A request gives back every concurrency slot that it takes.
use unigateway.Prelude.{
  ℕ, ◌+◌, ◌≡◌, refl, ◌∙◌, inl, inr, Bool, true, false, ◌&&◌, Option, none, some, List, length,
  is_empty, ltb, if◌then◌else◌, Bool-cases, Option-cases, Result, ok, err, arith,
}
use unigateway.Prelude.Text.{Text, text_eq}
use unigateway.Prelude.Dict.{Dict}
use unigateway.Core.Error.{
  GatewayError, all_endpoints_saturated, no_available_endpoint, is_saturation_error,
}
use unigateway.Core.Retry.{should_retry_error}
use unigateway.Core.Aimd.{
  AdaptiveConcurrency, AdaptiveConcurrencyConfig, acquire, release, on_success, on_saturation,
}
use unigateway.Core.Aimd.Safety.{IsValid}
use unigateway.Core.Pool.{Endpoint, DriverEndpointContext}
use unigateway.Core.Routing.{ExecutionSnapshot}
use unigateway.Core.Fallback.{
  Session, Reply, World, Progress, Output, settle, attempt_with, admit, turn, finalize, conclude,
  update_aimd, fresh, execute_with_fallback,
}
use unigateway.Core.Fallback.Loop.{Keeps, run_rule}
use unigateway.Core.Fallback.Accounting.{All-Unit}
use unigateway.Core.Fallback.Limiters.{
  Healthy, slots, SameSlots, KeepsSlots, Holding, Ready, aimd_for_endpoint-Ready, acquire-Holding,
  release-Holding, update-Holding, on_success-Sound, on_saturation-Sound,
}

-- No other request touches the limiters.
pub record IsAlone (w : World) : Type 0 where
  pub before : (i : ℕ) (m : Dict AdaptiveConcurrency) → w.before i m ≡ m
  pub meanwhile : (i : ℕ) (m : Dict AdaptiveConcurrency) → w.meanwhile i m ≡ m
  pub afterwards : (i : ℕ) (m : Dict AdaptiveConcurrency) → w.afterwards i m ≡ m

-- The slots of the request: none, but for a stream, which holds one of its endpoint.
abbrev pub owned : Result Output GatewayError → Text → ℕ
owned (ok (Output.streaming id previous)) j = if text_eq id j then 1 else 0
owned _ j = 0

module _ (w : World) (alone : IsAlone w) (v : IsValid w.aimd_config)
    (start : Dict AdaptiveConcurrency) where
  abbrev c : AdaptiveConcurrencyConfig
  c = w.aimd_config

  -- Every limiter is in range, and the counts are those of the start with what the request owns.
  abbrev Balanced : Result Output GatewayError → Progress → Type 0
  Balanced r p =
      Healthy c p.aimd_states × ((j : Text) → slots j p.aimd_states ≡ slots j start + owned r j)

  abbrev Level : ℕ → Progress → Type 0
  Level i p = Healthy c p.aimd_states × SameSlots p.aimd_states start

  level : (e : GatewayError) (p : Progress) → Level 0 p → Balanced (err e) p
  level e p l = (l.0, λ j. omega (arith, l.1 j))

  finalize-Balanced :
      (e : GatewayError) (p : Progress)
      → Level 0 p
      → Balanced (err (finalize e p).0) (finalize e p).1
  unfolding finalize
  finalize-Balanced e p l = elim (Bool-cases (is_empty p.attempts)) [
    | inl none_made ↦ rw none_made (level e p l)
    | inr made ↦ rw made (level e p l)
  ]

  keeps_as_is : KeepsSlots c (λ a. a)
  keeps_as_is a sound = (sound, refl)

  lowered : ℕ → GatewayError → AdaptiveConcurrency → AdaptiveConcurrency
  lowered i error a = if is_saturation_error error then on_saturation (w.now_ms i) a else a

  lowered-KeepsSlots : (i : ℕ) (error : GatewayError) → KeepsSlots c (lowered i error)
  unfolding lowered
  lowered-KeepsSlots i error a sound = elim (Bool-cases (is_saturation_error error)) [
    | inl e ↦ rw e (on_saturation-Sound c v (w.now_ms i) a sound)
    | inr e ↦ rw e (sound, refl)
  ]

  given_back :
      (i : ℕ) (id : Text) (error : GatewayError) (m : Dict AdaptiveConcurrency)
      → Holding c id start m
      → let m' = update_aimd id release (w.afterwards i (update_aimd id (lowered i error) m)) in
        Healthy c m' × SameSlots m' start
  given_back i id error m h = rw (alone.afterwards i) (
      release-Holding c v id start _
        (update-Holding c v id start m h (lowered i error) (lowered-KeepsSlots i error)) (λ a. a)
        keeps_as_is)

  conclude-Balanced :
      (s : ExecutionSnapshot) (p : Progress)
      → Level 0 p
      → Balanced (conclude s p).0 (conclude s p).1
  unfolding conclude
  conclude-Balanced s p l = elim (Option-cases p.last_error) [
    | inl none_left ↦
        rw (none_left, conclude) (saturated (is_empty p.attempts && ltb 0 p.skipped_due_to_aimd))
    | inr (e, last) ↦ rw (last, conclude) (finalize-Balanced e p l)
  ]
    where
      saturated :
          (b : Bool)
          → let r : Result Output GatewayError × Progress =
              if b
              then (err (all_endpoints_saturated s.pool_id), p)
              else (err (no_available_endpoint s.pool_id), p) in
            Balanced r.0 r.1
      saturated true = level (all_endpoints_saturated s.pool_id) p l
      saturated false = level (no_available_endpoint s.pool_id) p l

  module _ (s : ExecutionSnapshot) (total i : ℕ) (e : Endpoint) where
    settle-Keeps :
        (r : Result Session GatewayError) (p : Progress)
        → Holding c e.endpoint_id start p.aimd_states
        → Keeps Level Balanced i (settle w s total i e r p)
    unfolding settle lowered
    settle-Keeps (ok (Session.completed l)) p h =
        let (healthy, same) =
          release-Holding c v e.endpoint_id start p.aimd_states h (on_success (w.now_ms i))
            (on_success-Sound c v (w.now_ms i)) in
        (healthy, λ j. omega (arith, same j))
    settle-Keeps (ok Session.streaming) p h = (h.healthy, h.counts)
    settle-Keeps (err error) p h =
        let back = given_back i e.endpoint_id error p.aimd_states h in
        elim (Bool-cases
          (ltb (i + 1) total && should_retry_error s.load_balancing s.retry_policy error)) [
            | inl again ↦ rw again back
            | inr over ↦ rw over (finalize-Balanced error _ back)
          ]

    attempt_with-Keeps :
        (d : Result (ℕ → DriverEndpointContext → Reply) GatewayError) (p : Progress)
        → Holding c e.endpoint_id start p.aimd_states
        → Keeps Level Balanced i (attempt_with w s total i e d p)
    unfolding attempt_with
    attempt_with-Keeps (err error) p h = finalize-Balanced error _ (
        rw (alone.meanwhile i)
          (release-Holding c v e.endpoint_id start p.aimd_states h (λ a. a) keeps_as_is))
    attempt_with-Keeps (ok driver) p h = settle-Keeps _ _ (rw (alone.meanwhile i) h)

    admit-Keeps :
        (a : AdaptiveConcurrency) (o : Option AdaptiveConcurrency) (p : Progress)
        → acquire e.max_concurrency a ≡ o
        → Ready c v e.endpoint_id start (a, p.aimd_states)
        → Keeps Level Balanced i (admit w s total i e a o p)
    unfolding admit
    admit-Keeps a none p h ready = (ready.0, ready.2)
    admit-Keeps a (some a') p h ready =
        attempt_with-Keeps _ _
          (acquire-Holding c v e.endpoint_id start p.aimd_states e.max_concurrency a a' ready h)

    turn-Keeps : (p : Progress) → Level i p → Keeps Level Balanced i (turn w s total i e p)
    unfolding turn
    turn-Keeps p l = rw (alone.before i) (
        let found = aimd_for_endpoint-Ready c v e.endpoint_id p.aimd_states l.0 in
        admit-Keeps _ _ _ refl (found.0, found.1, λ j. found.2 j ∙ l.1 j))

-- A request that runs alone, on limiters in range and under a valid configuration, leaves every
-- limiter in range, and the slots in use of every endpoint as they were, whatever the drivers
-- answer and however the request ends. The one exception is the slot of the endpoint whose stream it
-- hands out.
pub execute_with_fallback-slots :
    (w : World) (s : ExecutionSnapshot) (endpoints : List Endpoint)
    (states : Dict AdaptiveConcurrency)
    → IsAlone w
    → IsValid w.aimd_config
    → Healthy w.aimd_config states
    → let r = execute_with_fallback w s endpoints states in
      Healthy w.aimd_config r.1.aimd_states
      × ((j : Text) → slots j r.1.aimd_states ≡ slots j states + owned r.0 j)
unfolding execute_with_fallback
execute_with_fallback-slots w s endpoints states alone v h =
    run_rule w s (length endpoints) (λ e. Unit {0}) (Level w alone v states)
      (Balanced w alone v states) (λ i e p _ _ l. turn-Keeps w alone v states s _ i e p l)
      (λ p l. conclude-Balanced w alone v states s p l) 0 endpoints (fresh states) (omega arith)
      (All-Unit endpoints) (h, λ j. refl)
