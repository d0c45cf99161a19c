-- ===== src/Core/Aimd/Control.antt =====
-- The control law of one endpoint: cooldown, recovery, and the methods as runs of the machine.
use unigateway.Prelude.{
  leb, ◌-◌, ◌%◌, ap, ◌∙◌, if◌then◌else◌, inl, inr, Bool-cases, ltb→lt, lt→ltb, ℕ, ◌+◌, ◌≤◌, ◌<◌,
  min, ◌≡◌, refl, Bool, true, false, Option, none, some, List, [], ◌∷◌, arith, ltb, max, ◌/◌, All,
  length,
}
use native.Mathlib.Nat.{mod-eq_of_lt}
use unigateway.Core.Aimd.{
  AdaptiveConcurrency, word_end, acquire, release, next_limit, on_success, on_saturation,
}
use unigateway.Core.Aimd.Machine.{
  Thread, Event, step, idle, holding, begin_acquire, drop_guard, begin_success, begin_saturation,
  go,
}

-- One saturation report halves the limit, down to the minimum at most, and starts a cooldown in
-- which neither further saturation nor success moves the limits.
pub saturation_cools_down :
    (a : AdaptiveConcurrency) (now later : ℕ)
    → a.cooldown_until ≤ now
    → now + a.cooldown_ms < word_end
    → later < now + a.cooldown_ms
    → let b = on_saturation now a in
      (b.current_limit ≡ max (a.current_limit / 2) a.min_concurrency)
      × (b.ssthresh ≡ b.current_limit)
      × (on_saturation later b ≡ b)
      × (on_success later b ≡ b)
unfolding on_saturation on_success
saturation_cools_down a now later ready small cool = elim (Bool-cases (ltb now a.cooldown_until)) [
  | inl early ↦ absurd (omega (arith, ltb→lt now a.cooldown_until early))
  | inr late ↦ rw late (rw (mod-eq_of_lt small, lt→ltb later _ cool) (refl, refl, refl, refl))
]

-- Reports of success, one after the other.
abbrev pub successes : List ℕ → AdaptiveConcurrency → AdaptiveConcurrency
successes [] a = a
successes (now ∷ times) a = successes times (on_success now a)

next_limit_exact :
    (hi ssthresh limit : ℕ)
    → hi < word_end
    → ssthresh ≤ hi
    → limit ≤ hi
    → next_limit hi ssthresh limit ≡ min (limit + 1) hi
unfolding next_limit
next_limit_exact hi ssthresh limit small p q = ground arith

abbrev pub raised : AdaptiveConcurrency → AdaptiveConcurrency
raised a = record a { current_limit = min (a.current_limit + 1) a.max_concurrency }

one_success :
    (now : ℕ) (a : AdaptiveConcurrency)
    → a.max_concurrency < word_end
    → a.ssthresh ≤ a.max_concurrency
    → a.current_limit ≤ a.max_concurrency
    → a.cooldown_until ≤ now
    → on_success now a ≡ raised a
unfolding on_success
one_success now a small p q late =
    ground (arith, next_limit_exact a.max_concurrency a.ssthresh a.current_limit small p q)

-- Slow start or not, successes outside the cooldown raise the limit by one each, up to the maximum.
pub successes_recover :
    (times : List ℕ) (a : AdaptiveConcurrency)
    → a.max_concurrency < word_end
    → a.ssthresh ≤ a.max_concurrency
    → a.current_limit ≤ a.max_concurrency
    → All (λ now. a.cooldown_until ≤ now) times
    → (successes times a).current_limit ≡ min (a.current_limit + length times) a.max_concurrency
successes_recover [] a small p q h = omega arith
successes_recover (now ∷ times) a small p q h =
    let e = one_success now a small p q h.0 in
    rw (e, successes) (omega (arith, successes_recover times (raised a) small p (omega arith) h.1))

-- The machine run by one thread alone.
abbrev pub alone : List Event → AdaptiveConcurrency → Thread → AdaptiveConcurrency × Thread
alone [] a t = (a, t)
alone (e ∷ es) a t = let (a', t') = step e a t in alone es a' t'

-- What a limiter becomes: a slot taken, and the limit halved with a cooldown begun.
abbrev pub taken : AdaptiveConcurrency → AdaptiveConcurrency
taken a = record a { active_connections = a.active_connections + 1 }

abbrev pub halved : ℕ → AdaptiveConcurrency → AdaptiveConcurrency
halved now a = record a {
  ssthresh = max (a.current_limit / 2) a.min_concurrency;
  current_limit = max (a.current_limit / 2) a.min_concurrency;
  cooldown_until = now + a.cooldown_ms;
}

-- The limit that a call of `acquire` is held to.
abbrev pub allowed : Option ℕ → AdaptiveConcurrency → ℕ
allowed none a = a.current_limit
allowed (some hard) a = min a.current_limit hard

-- Limits and slots below the word size.
pub record IsSteady (a : AdaptiveConcurrency) : Type 0 where
  pub word : a.max_concurrency < word_end
  pub threshold : a.ssthresh ≤ a.max_concurrency
  pub limit : a.current_limit ≤ a.max_concurrency
  pub slots : a.active_connections + 1 < word_end

-- What the accesses of each method, undisturbed, and the method as one step come to.
pub record Undisturbed (a : AdaptiveConcurrency) (hard_limit : Option ℕ) (now : ℕ) : Type 0 where
  pub acquires :
      alone (begin_acquire hard_limit ∷ go false ∷ go false ∷ []) a idle
      ≡ (if ltb a.active_connections (allowed hard_limit a) then (taken a, holding) else (a, idle))
  pub acquires_at_once :
      acquire hard_limit a
      ≡ (if ltb a.active_connections (allowed hard_limit a) then some (taken a) else none)
  pub releases : alone (drop_guard ∷ []) (taken a) holding ≡ (a, idle)
  pub releases_at_once : release (taken a) ≡ a
  pub succeeds :
      alone (begin_success now ∷ go false ∷ go false ∷ go false ∷ []) a holding
      ≡ ((if ltb now a.cooldown_until then a else raised a), holding)
  pub succeeds_at_once : on_success now a ≡ (if ltb now a.cooldown_until then a else raised a)
  pub saturates :
      alone (begin_saturation now ∷ go false ∷ go false ∷ go false ∷ go false ∷ []) a holding
      ≡ ((if ltb now a.cooldown_until then a else halved now a), holding)
  pub saturates_at_once :
      on_saturation now a ≡ (if ltb now a.cooldown_until then a else halved now a)

abbrev acquired : AdaptiveConcurrency → Option AdaptiveConcurrency → AdaptiveConcurrency × Thread
acquired a none = (a, idle)
acquired a (some b) = (b, holding)

-- The answer of `acquire` with the thread that has it.
acquired-if :
    (a : AdaptiveConcurrency) (b : Bool)
    → acquired a (if b then some (taken a) else none)
      ≡ (if b then (taken a, holding) else (a, idle))
acquired-if a true = refl
acquired-if a false = refl

acquires_alone :
    (a : AdaptiveConcurrency) (hard_limit : Option ℕ)
    → alone (begin_acquire hard_limit ∷ go false ∷ go false ∷ []) a idle
      ≡ acquired a (acquire hard_limit a)
unfolding step acquire
acquires_alone a hard_limit = ground arith

succeeds_alone :
    (a : AdaptiveConcurrency) (now : ℕ)
    → alone (begin_success now ∷ go false ∷ go false ∷ go false ∷ []) a holding
      ≡ (on_success now a, holding)
unfolding step on_success
succeeds_alone a now = ground arith

saturates_alone :
    (a : AdaptiveConcurrency) (now : ℕ)
    → alone (begin_saturation now ∷ go false ∷ go false ∷ go false ∷ go false ∷ []) a holding
      ≡ (on_saturation now a, holding)
unfolding step on_saturation
saturates_alone a now = ground arith

acquire_within :
    (a : AdaptiveConcurrency) (limit : ℕ)
    → a.active_connections + 1 < word_end
    → (if leb limit a.active_connections
        then none
        else some (record a { active_connections = (a.active_connections + 1) % word_end }))
      ≡ (if ltb a.active_connections limit then some (taken a) else none)
acquire_within a limit slots =
    let small : (a.active_connections + 1) % word_end ≡ a.active_connections + 1 =
      omega (arith, slots) in
    rw small (ground arith)

acquire_lem :
    (a : AdaptiveConcurrency) (hard_limit : Option ℕ)
    → a.active_connections + 1 < word_end
    → acquire hard_limit a
      ≡ (if ltb a.active_connections (allowed hard_limit a) then some (taken a) else none)
unfolding acquire
acquire_lem a none slots = acquire_within a a.current_limit slots
acquire_lem a (some hard) slots = acquire_within a (min a.current_limit hard) slots

wrapped : (n : ℕ) → n + 1 < word_end → (n + 1 + word_end - 1) % word_end ≡ n
wrapped n small = omega arith

release-taken :
    (a : AdaptiveConcurrency) → a.active_connections + 1 < word_end → release (taken a) ≡ a
unfolding release
release-taken a slots =
    ap (λ n. record a { active_connections = n }) (wrapped a.active_connections slots)

success_lem :
    (a : AdaptiveConcurrency) (now : ℕ)
    → IsSteady a
    → on_success now a ≡ (if ltb now a.cooldown_until then a else raised a)
unfolding on_success
success_lem a now steady =
    rw
      (next_limit_exact a.max_concurrency a.ssthresh a.current_limit steady.word steady.threshold
        steady.limit)
      refl

saturation_lem :
    (a : AdaptiveConcurrency) (now : ℕ)
    → now + a.cooldown_ms < word_end
    → on_saturation now a ≡ (if ltb now a.cooldown_until then a else halved now a)
unfolding on_saturation
saturation_lem a now small = rw (mod-eq_of_lt small) refl

-- With the limit and the threshold at most the maximum, a slot to spare below 2^64, and an end of the
-- cooldown that is a `u64`: a thread that nothing interrupts does by its single atomic accesses what
-- the method does as one step, and that is, for `acquire`, to take one slot below the limit in
-- force and none from it on; for the drop of a guard, to give back the slot that was taken; within
-- the cooldown, nothing for a success and a saturation; out of it, for a success, to raise the
-- limit by one up to the maximum, and for a saturation, to set limit and threshold to half the
-- limit, at least the minimum, and to begin a cooldown of the configured length.
pub alone-Undisturbed :
    (a : AdaptiveConcurrency) (hard_limit : Option ℕ) (now : ℕ)
    → IsSteady a
    → now + a.cooldown_ms < word_end
    → Undisturbed a hard_limit now
unfolding step
alone-Undisturbed a hard_limit now steady small =
    let taking = acquire_lem a hard_limit steady.slots in
    let freed = release-taken a steady.slots in
    let raising = success_lem a now steady in
    let halving = saturation_lem a now small in
    record {
      acquires =
          acquires_alone a hard_limit
          ∙ ap (acquired a) taking
          ∙ acquired-if a (ltb a.active_connections (allowed hard_limit a));
      acquires_at_once = taking;
      releases = ap (λ b. (b, idle)) freed;
      releases_at_once = freed;
      succeeds = succeeds_alone a now ∙ ap (λ b. (b, holding)) raising;
      succeeds_at_once = raising;
      saturates = saturates_alone a now ∙ ap (λ b. (b, holding)) halving;
      saturates_at_once = halving;
    }
