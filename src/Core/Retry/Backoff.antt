-- ===== src/Core/Retry/Backoff.antt =====
-- The exponential backoff: what it computes, its bound, and that it grows with the attempts.
use native.Mathlib.Nat.{mod-eq_of_lt, pow-le-pow_right, mul-le-mul_left}
use unigateway.Prelude.{
  ℕ, ◌-◌, ◌*◌, ◌/◌, ◌%◌, ◌^◌, ◌≤◌, ◌<◌, min, max, ◌≡◌, refl, inl, inr, Bool, true, false, some,
  arith, ltb, if◌then◌else◌, Bool-cases,
}
use unigateway.Core.Retry.{
  exponential, duration_end, backoff_factor, exponential_delay, retry_delay,
}

-- The powers of two up to the 31st, and `u32::MAX` for every later index.
ideal_factor : ℕ → ℕ
ideal_factor i = if ltb i 32 then 2 ^ i else 2 ^ 32 - 1

factor_exact : (i : ℕ) → i < 2 ^ 32 → backoff_factor i ≡ ideal_factor i
unfolding backoff_factor ideal_factor
factor_exact i h = rw (mod-eq_of_lt h)

ideal_factor_mono : (i j : ℕ) → i ≤ j → ideal_factor i ≤ ideal_factor j
unfolding ideal_factor
ideal_factor_mono i j h = elim (Bool-cases (ltb j 32)) [
  | inl small ↦ ground (arith, pow-le-pow_right {n = 2} (omega arith) {i = i} {j = j} h)
  | inr large ↦ ground (arith, small_power i)
]
  where
    small_power : (i : ℕ) → i < 32 → 2 ^ i ≤ 2 ^ 31
    small_power i h = pow-le-pow_right {n = 2} (omega arith) {i = i} {j = 31} (omega arith)

exponential_delay-le : (base top i : ℕ) → exponential_delay base top i ≤ top
unfolding exponential_delay
exponential_delay-le base top i = omega arith

-- Overflow of the `Duration` does not show.
product_exact :
    (base top i : ℕ)
    → top < duration_end
    → i < 2 ^ 32
    → exponential_delay base top i ≡ min (base * ideal_factor i) top
unfolding exponential_delay
product_exact base top i fits small = rw (factor_exact i small) (ground arith)

-- For a maximum that is a `Duration` and an index below 2^32, the delay before jitter is the base
-- times two to the power of the index, for an index below 32, or times 2^32 - 1, for any other, cut
-- at the maximum, also where the product is no `Duration`.
pub exponential_exact :
    (base top i : ℕ)
    → top < duration_end
    → i < 2 ^ 32
    → exponential_delay base top i ≡ min (base * (if ltb i 32 then 2 ^ i else 2 ^ 32 - 1)) top
unfolding ideal_factor
exponential_exact base top i fits small = product_exact base top i fits small

-- With jitter off, and a maximum that is a `Duration`, a later attempt waits at least as long as an
-- earlier one, and never longer than the maximum, for indexes below 2^32.
pub exponential_mono :
    (draw : ℕ → ℕ) (base top i j : ℕ)
    → top < duration_end
    → i ≤ j
    → j < 2 ^ 32
    → (d e : ℕ) × (retry_delay draw (exponential base top false) i ≡ some d)
      × (retry_delay draw (exponential base top false) j ≡ some e)
      × (d ≤ e)
      × (e ≤ top)
unfolding retry_delay
exponential_mono draw base top i j fits h small = (
  exponential_delay base top i,
  exponential_delay base top j,
  refl,
  refl,
  rw (product_exact base top i fits (omega arith), product_exact base top j fits small)
      (omega (arith, mul-le-mul_left base (ideal_factor_mono i j h))),
  exponential_delay-le base top j,
)

-- With any draw within its range, the delay of the exponential policy exists, and is at most the
-- maximum, or one millisecond where jitter is on and the maximum is shorter.
pub retry_delay_bounds :
    (draw : ℕ → ℕ) (base top i : ℕ) (jitter : Bool)
    → ((upper : ℕ) → draw upper ≤ upper)
    → (d : ℕ) × (retry_delay draw (exponential base top jitter) i ≡ some d)
      × (d ≤ (if jitter then max top 1_000_000 else top))
unfolding retry_delay
retry_delay_bounds draw base top i true within =
    let delay = exponential_delay base top i in
    let drawn = within (max (delay / 1_000_000) 1 % 2 ^ 64) in
    (_, refl, omega (arith, drawn, exponential_delay-le base top i))
retry_delay_bounds draw base top i false within = (_, refl, exponential_delay-le base top i)
