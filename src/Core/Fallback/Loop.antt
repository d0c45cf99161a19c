-- ===== src/Core/Fallback/Loop.antt =====
-- The rule for the loop over the endpoints: an invariant of the turns gives a postcondition.
use unigateway.Prelude.{
  ℕ, suc, ◌+◌, ◌<◌, ◌≡◌, refl, sym, subst, ◌⊎◌, inl, inr, List, [], ◌∷◌, length, All, Result, arith,
}
use unigateway.Core.Error.{GatewayError}
use unigateway.Core.Pool.{Endpoint}
use unigateway.Core.Routing.{ExecutionSnapshot}
use unigateway.Core.Fallback.{
  World, Progress, Output, Turn, go_on, stop, turn, conclude, run_attempts,
}

Turn-cases :
    (t : Turn)
    → ((p : Progress) × (t ≡ go_on p))
      ⊎ ((r : Result Output GatewayError) × (p : Progress) × (t ≡ stop r p))
Turn-cases (go_on p) = inl (p, refl)
Turn-cases (stop r p) = inr (r, p, refl)

abbrev pub Keeps :
    (ℕ → Progress → Type 0) → (Result Output GatewayError → Progress → Type 0) → ℕ → Turn → Type 0
Keeps Inv Post i (go_on p) = Inv (suc i) p
Keeps Inv Post i (stop r p) = Post r p

module _ (w : World) (s : ExecutionSnapshot) (total : ℕ) (P : Endpoint → Type 0)
    (Inv : ℕ → Progress → Type 0) (Post : Result Output GatewayError → Progress → Type 0)
    (step : (i : ℕ) (e : Endpoint) (p : Progress)
      → i < total
      → P e
      → Inv i p
      → Keeps Inv Post i (turn w s total i e p))
    (finish : (p : Progress) → Inv total p → Post (conclude s p).0 (conclude s p).1) where
  run-go_on :
      (i : ℕ) (e : Endpoint) (es : List Endpoint) (p p' : Progress)
      → turn w s total i e p ≡ go_on p'
      → run_attempts w s total i (e ∷ es) p ≡ run_attempts w s total (suc i) es p'
  unfolding run_attempts
  run-go_on i e es p p' h = rw (h, run_attempts)

  run-stop :
      (i : ℕ) (e : Endpoint) (es : List Endpoint) (p p' : Progress) (r : Result Output GatewayError)
      → turn w s total i e p ≡ stop r p'
      → run_attempts w s total i (e ∷ es) p ≡ (r, p')
  unfolding run_attempts
  run-stop i e es p p' r h = rw (h, run_attempts)

  pub run_rule :
      (i : ℕ) (es : List Endpoint) (p : Progress)
      → i + length es ≡ total
      → All P es
      → Inv i p
      → let r = run_attempts w s total i es p in Post r.0 r.1
  run_rule i [] p l h inv =
      let done : Inv total p = subst (λ k. Inv k p) (omega arith) inv in
      unfold run_attempts in finish p done
  run_rule i (e ∷ es) p l h inv =
      let kept = step i e p (omega arith) h.0 inv in
      elim (Turn-cases (turn w s total i e p)) [
        | inl (p', eq) ↦
            subst (λ r. Post r.0 r.1) (sym (run-go_on i e es p p' eq))
              (run_rule (suc i) es p' (omega arith) h.1 (subst (Keeps Inv Post i) eq kept))
        | inr (r, p', eq) ↦
            subst (λ r. Post r.0 r.1) (sym (run-stop i e es p p' r eq))
              (subst (Keeps Inv Post i) eq kept)
      ]
