-- ===== src/Core/Aimd/Machine.antt =====
-- The methods of engine/aimd.rs access by access: what threads that share one
-- `AdaptiveConcurrency` can do to it. A load, a store and a compare-and-exchange are one step each;
-- `spurious` is the failure that `compare_exchange_weak` may report at an expected value.
use unigateway.Prelude.{
  ℕ, zero, suc, ◌+◌, ◌%◌, Bool, not, ◌||◌, Option, List, [], ◌∷◌, ltb, leb, ◌==◌, if◌then◌else◌,
}
use unigateway.Core.Aimd.{AdaptiveConcurrency, word_end, capped, release, next_limit, backed_off}

-- Where a thread stands. From `holding` on it owns an `AimdGuard`: the engine reports success and
-- saturation before it drops the guard.
pub data Thread : Type 0 where
  idle : Thread
  acquire_limit : (hard_limit : Option ℕ) (current_active : ℕ) → Thread
  acquire_exchange : (limit current_active : ℕ) → Thread
  holding success_limit : Thread
  success_ssthresh : (limit : ℕ) → Thread
  success_exchange : (ssthresh limit : ℕ) → Thread
  saturation_limit : (now : ℕ) → Thread
  saturation_store saturation_exchange : (now limit : ℕ) → Thread
  saturation_cooldown : (now : ℕ) → Thread

-- What the thread's program asks for next: a call, the drop of its guard, or to go on.
pub data Event : Type 0 where
  begin_acquire : (hard_limit : Option ℕ) → Event
  drop_guard : Event
  begin_success begin_saturation : (now : ℕ) → Event
  go : (spurious : Bool) → Event

unfoldable pub continue : Bool → AdaptiveConcurrency → Thread → AdaptiveConcurrency × Thread
unfolding next_limit backed_off
continue spurious a (acquire_limit hard_limit n) =
    (a, acquire_exchange (capped a.current_limit hard_limit) n)
continue spurious a (acquire_exchange limit n) =
    if leb limit n
    then (a, idle)
    else if spurious || not (n == a.active_connections)
    then (a, acquire_exchange limit a.active_connections)
    else (record a { active_connections = (n + 1) % word_end }, holding)
continue spurious a success_limit = (a, success_ssthresh a.current_limit)
continue spurious a (success_ssthresh limit) = (a, success_exchange a.ssthresh limit)
continue spurious a (success_exchange ssthresh limit) =
    if next_limit a.max_concurrency ssthresh limit == limit
    then (a, holding)
    else if spurious || not (limit == a.current_limit)
    then (a, success_exchange ssthresh a.current_limit)
    else (record a { current_limit = next_limit a.max_concurrency ssthresh limit }, holding)
continue spurious a (saturation_limit now) = (a, saturation_store now a.current_limit)
continue spurious a (saturation_store now limit) =
    (record a { ssthresh = backed_off a.min_concurrency limit }, saturation_exchange now limit)
continue spurious a (saturation_exchange now limit) =
    if limit == a.current_limit
    then (record a { current_limit = backed_off a.min_concurrency limit }, saturation_cooldown now)
    else (a, saturation_cooldown now)
continue spurious a (saturation_cooldown now) =
    (record a { cooldown_until = (now + a.cooldown_ms) % word_end }, holding)
continue spurious a t = (a, t)

unfoldable pub step : Event → AdaptiveConcurrency → Thread → AdaptiveConcurrency × Thread
unfolding continue release
step (begin_acquire hard_limit) a idle = (a, acquire_limit hard_limit a.active_connections)
step drop_guard a holding = (release a, idle)
step (begin_success now) a holding =
    if ltb now a.cooldown_until then (a, holding) else (a, success_limit)
step (begin_saturation now) a holding =
    if ltb now a.cooldown_until then (a, holding) else (a, saturation_limit now)
step (go spurious) a t = continue spurious a t
step e a t = (a, t)

-- Thread number `i` of the list takes a step.
unfoldable pub step_at :
    ℕ → Event → AdaptiveConcurrency → List Thread → AdaptiveConcurrency × List Thread
unfolding step
step_at i e a [] = (a, [])
step_at zero e a (t ∷ ts) = let (a', t') = step e a t in (a', t' ∷ ts)
step_at (suc i) e a (t ∷ ts) = let (a', ts') = step_at i e a ts in (a', t ∷ ts')

-- Any interleaving: a schedule says which thread goes and what it does.
unfoldable pub run :
    List (ℕ × Event) → AdaptiveConcurrency → List Thread → AdaptiveConcurrency × List Thread
unfolding step_at
run [] a ts = (a, ts)
run ((i, e) ∷ schedule) a ts = let (a', ts') = step_at i e a ts in run schedule a' ts'

-- Whether a thread owns a guard, and how many do.
abbrev pub guards : Thread → ℕ
guards idle = 0
guards (acquire_limit h n) = 0
guards (acquire_exchange limit n) = 0
guards _ = 1

abbrev pub held : List Thread → ℕ
held [] = 0
held (t ∷ ts) = guards t + held ts
