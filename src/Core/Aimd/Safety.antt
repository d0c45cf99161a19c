-- ===== src/Core/Aimd/Safety.antt =====
-- What every interleaving keeps: the limits stay in their range, and the count is that of the
-- guards and below the maximum.
use unigateway.Prelude.{
  ℕ, zero, suc, ◌+◌, ◌≤◌, ◌<◌, ◌≡◌, refl, subst, Bool, none, some, List, [], ◌∷◌, All, arith,
}
use unigateway.Core.Aimd.{
  AdaptiveConcurrency, AdaptiveConcurrencyConfig, new, word_end, release, next_limit, backed_off,
}
use unigateway.Core.Aimd.Machine.{
  Thread, Event, continue, step, step_at, run, guards, held, idle, acquire_limit, acquire_exchange,
  holding, success_ssthresh, success_exchange, saturation_store, saturation_exchange, begin_acquire,
  drop_guard, begin_success, begin_saturation, go,
}

-- What a thread carries is in range.
abbrev pub Carries : (lo hi : ℕ) → Thread → Type 0
Carries lo hi (acquire_exchange limit n) = limit ≤ hi
Carries lo hi (success_ssthresh limit) = (lo ≤ limit) × (limit ≤ hi)
Carries lo hi (success_exchange ssthresh limit) =
    (lo ≤ ssthresh) × (ssthresh ≤ hi) × (lo ≤ limit) × (limit ≤ hi)
Carries lo hi (saturation_store now limit) = limit ≤ hi
Carries lo hi (saturation_exchange now limit) = limit ≤ hi
Carries lo hi _ = Unit

-- The state is in range, with `n` guards out.
pub record InRange (lo hi n : ℕ) (a : AdaptiveConcurrency) : Type 0 where
  pub min_config : a.min_concurrency ≡ lo
  pub max_config : a.max_concurrency ≡ hi
  pub limit_ge : lo ≤ a.current_limit
  pub limit_le : a.current_limit ≤ hi
  pub ssthresh_ge : lo ≤ a.ssthresh
  pub ssthresh_le : a.ssthresh ≤ hi
  pub counted : a.active_connections ≡ n
  pub bounded : n ≤ hi

recount :
    {lo hi m : ℕ} (n : ℕ) {a : AdaptiveConcurrency} → m ≡ n → InRange lo hi m a → InRange lo hi n a
recount {lo} {hi} n {a} e r = subst (λ k. InRange lo hi k a) e r

-- A thread and the state, beside `k` guards of other threads.
pub record Fits (lo hi k : ℕ) (a : AdaptiveConcurrency) (t : Thread) : Type 0 where
  pub state : InRange lo hi (guards t + k) a
  pub carried : Carries lo hi t

module _ (lo hi : ℕ) (ordered : lo ≤ hi) (small : hi < word_end) (k : ℕ) where
  pub next_limit-bounds :
      (ssthresh limit : ℕ)
      → ssthresh ≤ hi
      → lo ≤ ssthresh
      → lo ≤ limit
      → limit ≤ hi
      → (lo ≤ next_limit hi ssthresh limit) × (next_limit hi ssthresh limit ≤ hi)
  unfolding next_limit
  next_limit-bounds ssthresh limit p q r s = ground arith

  pub backed_off-bounds :
      (limit : ℕ) → limit ≤ hi → (lo ≤ backed_off lo limit) × (backed_off lo limit ≤ hi)
  unfolding backed_off
  backed_off-bounds limit h = omega arith

  -- `release` under a guard counts down by one: the subtraction does not wrap.
  release-InRange :
      (a : AdaptiveConcurrency) → InRange lo hi (suc k) a → InRange lo hi k (release a)
  unfolding release
  release-InRange a r = ground arith

  continue-Fits :
      (spurious : Bool) (a : AdaptiveConcurrency) (t : Thread)
      → Fits lo hi k a t
      → let r = continue spurious a t in Fits lo hi k r.0 r.1
  unfolding continue
  continue-Fits s a idle f = f
  continue-Fits s a (acquire_limit none n) f = ground arith
  continue-Fits s a (acquire_limit (some h) n) f = ground arith
  continue-Fits s a (acquire_exchange limit n) f = ground arith
  continue-Fits s a (success_exchange ssthresh limit) f =
      ground (arith, next_limit-bounds ssthresh limit)
  continue-Fits s a (saturation_store now limit) f = ground (arith, backed_off-bounds limit)
  continue-Fits s a (saturation_exchange now limit) f = ground (arith, backed_off-bounds limit)
  continue-Fits s a _ f = ground arith

  step-Fits :
      (e : Event) (a : AdaptiveConcurrency) (t : Thread)
      → Fits lo hi k a t
      → let r = step e a t in Fits lo hi k r.0 r.1
  unfolding step
  step-Fits (begin_acquire h) a idle f = ground arith
  step-Fits drop_guard a holding f = record {
    state =
        recount (0 + k) (omega arith) (release-InRange a (recount (suc k) (omega arith) f.state));
    carried = tt;
  }
  step-Fits (begin_success now) a holding f = ground arith
  step-Fits (begin_saturation now) a holding f = ground arith
  step-Fits (go spurious) a t f = continue-Fits spurious a t f
  step-Fits _ a t f = f

-- All threads and the state, beside `k` further guards.
pub record Safe (lo hi k : ℕ) (a : AdaptiveConcurrency) (ts : List Thread) : Type 0 where
  pub state : InRange lo hi (held ts + k) a
  pub carried : All (Carries lo hi) ts

module _ (lo hi : ℕ) (ordered : lo ≤ hi) (small : hi < word_end) where
  step_at-Safe :
      (i : ℕ) (e : Event) (k : ℕ) (a : AdaptiveConcurrency) (ts : List Thread)
      → Safe lo hi k a ts
      → let r = step_at i e a ts in Safe lo hi k r.0 r.1
  unfolding step_at
  step_at-Safe i e k a [] f = f
  step_at-Safe zero e k a (t ∷ ts) f =
      let g =
        step-Fits lo hi ordered small (held ts + k) e a t
          (record { state = recount _ (omega arith) f.state; carried = f.carried.0 }) in
      record { state = recount _ (omega arith) g.state; carried = (g.carried, f.carried.1) }
  step_at-Safe (suc i) e k a (t ∷ ts) f =
      let g =
        step_at-Safe i e (guards t + k) a ts
          (record { state = recount _ (omega arith) f.state; carried = f.carried.1 }) in
      record { state = recount _ (omega arith) g.state; carried = (f.carried.0, g.carried) }

  run-Safe :
      (schedule : List (ℕ × Event)) (a : AdaptiveConcurrency) (ts : List Thread)
      → Safe lo hi 0 a ts
      → let r = run schedule a ts in Safe lo hi 0 r.0 r.1
  unfolding run
  run-Safe [] a ts f = f
  run-Safe ((i, e) ∷ schedule) a ts f =
      let r = step_at i e a ts in run-Safe schedule r.0 r.1 (step_at-Safe i e 0 a ts f)

-- Threads that have not begun.
abbrev pub all_idle : ℕ → List Thread
all_idle zero = []
all_idle (suc n) = idle ∷ all_idle n

held-all_idle : (n : ℕ) → held (all_idle n) ≡ 0
held-all_idle zero = refl
held-all_idle (suc n) = omega (arith, held-all_idle n)

all_idle-Carries : (lo hi n : ℕ) → All (Carries lo hi) (all_idle n)
all_idle-Carries lo hi zero = tt
all_idle-Carries lo hi (suc n) = (tt, all_idle-Carries lo hi n)

-- What a configuration has to satisfy.
pub record IsValid (c : AdaptiveConcurrencyConfig) : Type 0 where
  pub initial_ge : c.min_concurrency ≤ c.initial_concurrency
  pub initial_le : c.initial_concurrency ≤ c.max_concurrency
  pub word : c.max_concurrency < word_end

new-Safe :
    (c : AdaptiveConcurrencyConfig) (threads : ℕ)
    → IsValid c
    → Safe c.min_concurrency c.max_concurrency 0 (new c) (all_idle threads)
unfolding new
new-Safe c threads v = record {
  state = recount _ (omega (arith, held-all_idle threads)) start;
  carried = all_idle-Carries c.min_concurrency c.max_concurrency threads;
}
  where
    start : InRange c.min_concurrency c.max_concurrency 0 (new c)
    start = ground arith

-- Any number of threads, started idle on a new state with a valid configuration, in any
-- interleaving of their atomic accesses: the limit and the threshold stay between the configured
-- minimum and maximum, and the count of active connections is at every moment the number of guards
-- that are out, which never passes the maximum.
pub run-InRange :
    (c : AdaptiveConcurrencyConfig) (threads : ℕ) (schedule : List (ℕ × Event))
    → IsValid c
    → let r = run schedule (new c) (all_idle threads) in
      InRange c.min_concurrency c.max_concurrency (held r.1) r.0
run-InRange c threads schedule v =
    recount _ (omega arith)
      (run-Safe c.min_concurrency c.max_concurrency (omega arith) v.word schedule (new c)
        (all_idle threads) (new-Safe c threads v)).state
