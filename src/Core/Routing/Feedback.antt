-- ===== src/Core/Routing/Feedback.antt =====
-- Routing feedback: unigateway-core/src/feedback.rs and the pre-ordering of routing.rs. A score is
-- an `f64` by its bits, and a `SystemTime` a number.
use unigateway.Prelude.{
  ℕ, ◌+◌, ◌-◌, ◌^◌, Bool, false, not, ◌&&◌, ◌||◌, Option, none, some, List, ◌++◌, is_empty, keep,
  ltb, ◌==◌, if◌then◌else◌, unwrap_or,
}
use unigateway.Prelude.Text.{Text, text_le}
use unigateway.Prelude.Dict.{Dict, lookup}
use unigateway.Prelude.Sorting.{sort_by}
use unigateway.Core.Pool.{Endpoint}

pub record EndpointSignal : Type 0 where
  pub score : Option ℕ
  pub excluded : Bool
  pub cooldown_until : Option ℕ
  pub recent_error_rate : Option ℕ

pub record RoutingFeedback : Type 0 where
  pub endpoint_signals : Dict EndpointSignal

abbrev is_later : ℕ → Option ℕ → Bool
is_later now none = false
is_later now (some deadline) = ltb now deadline

unfoldable pub should_suppress : ℕ → Option EndpointSignal → Bool
should_suppress now none = false
should_suppress now (some signal) = signal.excluded || is_later now signal.cooldown_until

-- The place of a bit pattern in the order of `f64::total_cmp`: negative values, whose sign bit is
-- set, come in reverse before the others.
unfoldable pub total_order : ℕ → ℕ
total_order bits = if ltb bits (2 ^ 63) then 2 ^ 63 + bits else 2 ^ 64 - 1 - bits

-- The bits of `f64::NEG_INFINITY`.
abbrev pub neg_infinity : ℕ
neg_infinity = 0xfff0_0000_0000_0000

abbrev signal_score : Option EndpointSignal → ℕ
signal_score none = neg_infinity
signal_score (some signal) = unwrap_or signal.score neg_infinity

unfoldable pub score_of : Dict EndpointSignal → Endpoint → ℕ
unfolding lookup
score_of signals e = signal_score (lookup e.endpoint_id signals)

-- The comparator of the sort, as "not after".
unfoldable pub ranks : Dict EndpointSignal → Endpoint → Endpoint → Bool
unfolding score_of total_order text_le
ranks signals left right =
    let l = total_order (score_of signals left) in
    let r = total_order (score_of signals right) in
    ltb r l || (r == l && text_le left.endpoint_id right.endpoint_id)

unfoldable pub suppressed : ℕ → Dict EndpointSignal → Endpoint → Bool
unfolding should_suppress lookup
suppressed now signals e = should_suppress now (lookup e.endpoint_id signals)

unfoldable pub reorder : ℕ → Dict EndpointSignal → List Endpoint → List Endpoint
unfolding suppressed sort_by ranks
reorder now signals endpoints =
    let active = sort_by (ranks signals) (keep (λ e. not (suppressed now signals e)) endpoints) in
    let held_back = sort_by (ranks signals) (keep (suppressed now signals) endpoints) in
    if is_empty active then held_back else active ++ held_back

-- The engine passes the pool's id always.
unfoldable pub apply_routing_feedback :
    ℕ → Text → List Endpoint → Option (Text → RoutingFeedback) → List Endpoint
unfolding reorder
apply_routing_feedback now pool_id endpoints none = endpoints
apply_routing_feedback now pool_id endpoints (some feedback) =
    let signals = (feedback pool_id).endpoint_signals in
    if is_empty signals then endpoints else reorder now signals endpoints
