-- ===== src/Core/Routing/Ranking.antt =====
-- Routing feedback reorders the endpoints of a pool and loses none.
use mathlib.Core.List.Perm
use mathlib.Core.List.{Perm}
use unigateway.Prelude.{
  ℕ, ◌≡◌, refl, inl, inr, Bool, true, false, not, ◌&&◌, ◌||◌, Option, none, some, List, [], ◌∷◌,
  ◌++◌, keep, All, is_empty, if◌then◌else◌, Bool-cases, arith,
}
use unigateway.Prelude.Text.{Text, text_le_total, text_le_trans}
use unigateway.Prelude.Dict.{Dict}
use unigateway.Prelude.Sorting.{
  sort_by, Ordered, IsOrder, All-map, keep-All, keep-perm, sort_by-perm, sort_by-All,
  sort_by-Ordered, Ordered-append, Ordered-map,
}
use unigateway.Core.Pool.{Endpoint}
use unigateway.Core.Routing.Feedback.{
  EndpointSignal, RoutingFeedback, suppressed, ranks, reorder, apply_routing_feedback,
}

ranks-IsOrder : (signals : Dict EndpointSignal) → IsOrder (ranks signals)
unfolding ranks
ranks-IsOrder signals = record {
  total = λ a b h. ground (arith, text_le_total a.endpoint_id b.endpoint_id);
  trans = λ a b c h k. ground (arith, text_le_trans a.endpoint_id b.endpoint_id c.endpoint_id);
}

unless_empty {ℓ} : {A : Type ℓ} (xs ys : List A) → (if is_empty xs then ys else xs ++ ys) ≡ xs ++ ys
unless_empty [] ys = refl
unless_empty (x ∷ xs) ys = refl

module _ (now : ℕ) (signals : Dict EndpointSignal) where
  -- The order that the feedback asks for: whoever is not suppressed comes before whoever is; among
  -- equals the higher score comes first, and the smaller id at one score.
  abbrev pub precedes : Endpoint → Endpoint → Bool
  precedes a b =
      if suppressed now signals a
      then suppressed now signals b && ranks signals a b
      else suppressed now signals b || ranks signals a b

  abbrev pub Precedes : Endpoint → Endpoint → Type 0
  Precedes a b = precedes a b ≡ true

  module _ (endpoints : List Endpoint) where
    abbrev pub active : List Endpoint
    active = sort_by (ranks signals) (keep (λ e. not (suppressed now signals e)) endpoints)

    abbrev held_back : List Endpoint
    held_back = sort_by (ranks signals) (keep (suppressed now signals) endpoints)

    reorder-eq : reorder now signals endpoints ≡ active ++ held_back
    unfolding reorder
    reorder-eq = unless_empty active held_back

    active_lem : All (λ e. not (suppressed now signals e) ≡ true) active
    active_lem = sort_by-All (ranks signals) _ _ (keep-All _ endpoints)

    held_back_lem : All (λ e. suppressed now signals e ≡ true) held_back
    held_back_lem = sort_by-All (ranks signals) _ _ (keep-All _ endpoints)

    pub reorder-perm : Perm (reorder now signals endpoints) endpoints
    reorder-perm = rw reorder-eq (
        Perm.trans (Perm.append (sort_by-perm _ _) (sort_by-perm _ _))
          (keep-perm (suppressed now signals) endpoints))

    pub reorder-Ordered : Ordered Precedes (reorder now signals endpoints)
    reorder-Ordered = rw reorder-eq (
        Ordered-append Precedes active held_back
          (Ordered-map active (λ a b p q r. ground arith) active_lem
            (sort_by-Ordered _ (ranks-IsOrder signals) _))
          (Ordered-map held_back (λ a b p q r. ground arith) held_back_lem
            (sort_by-Ordered _ (ranks-IsOrder signals) _))
          (All-map active (λ a p. All-map held_back (λ b q. ground arith) held_back_lem)
            active_lem))

-- Whatever the feedback says, the pool keeps its endpoints, each as often as before.
pub apply_routing_feedback-perm :
    (now : ℕ) (pool_id : Text) (endpoints : List Endpoint)
    (provider : Option (Text → RoutingFeedback))
    → Perm (apply_routing_feedback now pool_id endpoints provider) endpoints
unfolding apply_routing_feedback
apply_routing_feedback-perm now pool_id endpoints none = Perm.rfl
apply_routing_feedback-perm now pool_id endpoints (some feedback) =
    elim (Bool-cases (is_empty (feedback pool_id).endpoint_signals)) [
      | inl e ↦ rw e Perm.rfl
      | inr e ↦ rw e (reorder-perm now (feedback pool_id).endpoint_signals endpoints)
    ]

-- Where the feedback for the pool has a signal, the result is the endpoints in the order that the
-- signals ask for: those that are not suppressed first, then by falling score, then by id. None is
-- lost and none is added, also where all are suppressed.
pub feedback_orders :
    (now : ℕ) (pool_id : Text) (endpoints : List Endpoint) (feedback : Text → RoutingFeedback)
    → is_empty (feedback pool_id).endpoint_signals ≡ false
    → let result = apply_routing_feedback now pool_id endpoints (some feedback) in
      Perm result endpoints × Ordered (Precedes now (feedback pool_id).endpoint_signals) result
unfolding apply_routing_feedback
feedback_orders now pool_id endpoints feedback e =
    let signals = (feedback pool_id).endpoint_signals in
    rw e (reorder-perm now signals endpoints, reorder-Ordered now signals endpoints)
