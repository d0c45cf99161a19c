-- ===== src/Core/Fallback/Limiters.antt =====
-- Single accesses to the map of limiters: they keep every limiter in range, and count slots.
use unigateway.Prelude.{
  ℕ, ◌+◌, ◌≤◌, ◌<◌, ◌≡◌, refl, sym, ap, subst, ◌∙◌, inl, inr, Bool, true, false, Option, none, some,
  if◌then◌else◌, Option-cases, arith,
}
use unigateway.Prelude.Text.{Text, text_eq, text_eq_iff}
use unigateway.Prelude.Dict.{Dict, lookup, insert, lookup-insert, text_eq_refl}
use unigateway.Core.Aimd.{
  AdaptiveConcurrency, AdaptiveConcurrencyConfig, new, acquire, release, on_success, on_saturation,
}
use unigateway.Core.Aimd.Safety.{InRange, IsValid, next_limit-bounds, backed_off-bounds}
use unigateway.Core.Engine.{aimd_for_endpoint}
use unigateway.Core.Fallback.{update_aimd}

-- A limiter whose limits are in range, and whose count is below the maximum.
abbrev pub Sound : AdaptiveConcurrencyConfig → AdaptiveConcurrency → Type 0
Sound c a = InRange c.min_concurrency c.max_concurrency a.active_connections a

abbrev pub Healthy : AdaptiveConcurrencyConfig → Dict AdaptiveConcurrency → Type 0
Healthy c states = (id : Text) (a : AdaptiveConcurrency) → lookup id states ≡ some a → Sound c a

-- The slots in use of an endpoint.
abbrev active : Option AdaptiveConcurrency → ℕ
active none = 0
active (some a) = a.active_connections

pub slots : Text → Dict AdaptiveConcurrency → ℕ
slots id states = active (lookup id states)

module _ (c : AdaptiveConcurrencyConfig) (v : IsValid c) where
  lo-le-hi : c.min_concurrency ≤ c.max_concurrency
  lo-le-hi = omega (arith, v.initial_ge, v.initial_le)

  pub new-Sound : Sound c (new c)
  unfolding new
  new-Sound = ground arith

  pub acquire-Sound :
      (hard : Option ℕ) (a a' : AdaptiveConcurrency)
      → acquire hard a ≡ some a'
      → Sound c a
      → Sound c a' × (a'.active_connections ≡ a.active_connections + 1)
  unfolding acquire
  acquire-Sound none a a' h s = ground arith
  acquire-Sound (some hard) a a' h s = ground arith

  pub release-Sound :
      (a : AdaptiveConcurrency)
      → Sound c a
      → 0 < a.active_connections
      → Sound c (release a) × (a.active_connections ≡ (release a).active_connections + 1)
  unfolding release
  release-Sound a s h = ground arith

  pub on_success-Sound :
      (now : ℕ) (a : AdaptiveConcurrency)
      → Sound c a
      → Sound c (on_success now a) × ((on_success now a).active_connections ≡ a.active_connections)
  unfolding on_success
  on_success-Sound now a s = ground (
    arith,
    next_limit-bounds c.min_concurrency c.max_concurrency lo-le-hi v.word 0 a.ssthresh
        a.current_limit,
  )

  pub on_saturation-Sound :
      (now : ℕ) (a : AdaptiveConcurrency)
      → Sound c a
      → Sound c (on_saturation now a)
        × ((on_saturation now a).active_connections ≡ a.active_connections)
  unfolding on_saturation
  on_saturation-Sound now a s = ground (
    arith,
    backed_off-bounds c.min_concurrency c.max_concurrency lo-le-hi v.word 0 a.current_limit,
  )

  pub insert-Healthy :
      (id : Text) (a : AdaptiveConcurrency) (states : Dict AdaptiveConcurrency)
      → Healthy c states
      → Sound c a
      → Healthy c (insert id a states)
  insert-Healthy id a states h s j b e =
      split (text_eq id j) (sym (lookup-insert id j a states) ∙ e)
    where
      split : (hit : Bool) → (if hit then some a else lookup j states) ≡ some b → Sound c b
      split true same = let q : a ≡ b = ground arith in subst (Sound c) q s
      split false same = h j b same

pub slots-insert :
    (id j : Text) (a : AdaptiveConcurrency) (states : Dict AdaptiveConcurrency)
    → slots j (insert id a states) ≡ (if text_eq id j then a.active_connections else slots j states)
unfolding slots
slots-insert id j a states = ground (arith, lookup-insert id j a states)

-- A change of a limiter that keeps it in range, and its count.
abbrev pub KeepsSlots :
    AdaptiveConcurrencyConfig → (AdaptiveConcurrency → AdaptiveConcurrency) → Type 0
KeepsSlots c f =
    (a : AdaptiveConcurrency)
    → Sound c a
    → Sound c (f a) × ((f a).active_connections ≡ a.active_connections)

abbrev pub SameSlots : (now before : Dict AdaptiveConcurrency) → Type 0
SameSlots now before = (j : Text) → slots j now ≡ slots j before

-- One slot of `id` more than before is out.
pub record Holding (c : AdaptiveConcurrencyConfig) (id : Text)
    (before now : Dict AdaptiveConcurrency) : Type 0 where
  pub limiter : AdaptiveConcurrency
  pub found : lookup id now ≡ some limiter
  pub healthy : Healthy c now
  pub counts : (j : Text) → slots j now ≡ slots j before + (if text_eq id j then 1 else 0)

slots_at :
    (id : Text) (states : Dict AdaptiveConcurrency) (a : AdaptiveConcurrency)
    → lookup id states ≡ some a
    → slots id states ≡ a.active_connections
unfolding slots
slots_at id states a h = rw h refl

unused_slots :
    (id : Text) (c : AdaptiveConcurrencyConfig) (states : Dict AdaptiveConcurrency)
    → lookup id states ≡ none
    → (new c).active_connections ≡ slots id states + 0
unfolding slots new
unused_slots id c states h = rw h refl

-- A limiter whose count has grown by `k`, or fallen by one, is put in place.
slots-insert_more :
    (id j : Text) (a : AdaptiveConcurrency) (states : Dict AdaptiveConcurrency) (k : ℕ)
    → a.active_connections ≡ slots id states + k
    → slots j (insert id a states) ≡ slots j states + (if text_eq id j then k else 0)
slots-insert_more id j a states k h = ground (arith, slots-insert id j a states, text_eq_iff id j)

slots-insert_less :
    (id j : Text) (a : AdaptiveConcurrency) (states : Dict AdaptiveConcurrency)
    → slots id states ≡ a.active_connections + 1
    → slots j (insert id a states) + (if text_eq id j then 1 else 0) ≡ slots j states
slots-insert_less id j a states h = ground (arith, slots-insert id j a states, text_eq_iff id j)

update-found :
    (id : Text) (f : AdaptiveConcurrency → AdaptiveConcurrency) (states : Dict AdaptiveConcurrency)
    (a : AdaptiveConcurrency)
    → lookup id states ≡ some a
    → update_aimd id f states ≡ insert id (f a) states
unfolding update_aimd
update-found id f states a h = rw (h, update_aimd)

module _ (c : AdaptiveConcurrencyConfig) (v : IsValid c) (id : Text) where
  abbrev pub Ready :
      Dict AdaptiveConcurrency → AdaptiveConcurrency × Dict AdaptiveConcurrency → Type 0
  Ready states r = Healthy c r.1 × (lookup id r.1 ≡ some r.0) × SameSlots r.1 states

  pub aimd_for_endpoint-Ready :
      (states : Dict AdaptiveConcurrency)
      → Healthy c states
      → Ready states (aimd_for_endpoint c id states)
  unfolding aimd_for_endpoint
  aimd_for_endpoint-Ready states h = elim (Option-cases (lookup id states)) [
    | inl e ↦
        rw (e, aimd_for_endpoint)
          (
            insert-Healthy c v id (new c) states h (new-Sound c v),
            simp (lookup-insert, text_eq_refl),
            λ j. added e j,
          )
    | inr (a, e) ↦ rw (e, aimd_for_endpoint) (h, e, λ j. refl)
  ]
    where
      added :
          lookup id states ≡ none → (j : Text) → slots j (insert id (new c) states) ≡ slots j states
      added e j =
          ground (arith, slots-insert_more id j (new c) states 0 (unused_slots id c states e))

  pub acquire-Holding :
      (before states : Dict AdaptiveConcurrency) (hard : Option ℕ) (a a' : AdaptiveConcurrency)
      → Ready before (a, states)
      → acquire hard a ≡ some a'
      → Holding c id before (insert id a' states)
  acquire-Holding before states hard a a' ready e =
      let (h, found, same) = ready in
      let (sound, more) = acquire-Sound c v hard a a' e (h id a found) in
      record {
        limiter = a';
        found = simp (lookup-insert, text_eq_refl);
        healthy = insert-Healthy c v id a' states h sound;
        counts = λ j.
            slots-insert_more id j a' states 1 (omega (arith, slots_at id states a found))
            ∙ ap (λ n. n + (if text_eq id j then 1 else 0)) (same j);
      }

  module _ (before now : Dict AdaptiveConcurrency) (held : Holding c id before now) where
    pub update-Holding :
        (f : AdaptiveConcurrency → AdaptiveConcurrency)
        → KeepsSlots c f
        → Holding c id before (update_aimd id f now)
    update-Holding f keeps =
        let a = held.limiter in
        let (sound, same) = keeps a (held.healthy id a held.found) in
        rw (update-found id f now a held.found) (record {
          limiter = f a;
          found = simp (lookup-insert, text_eq_refl);
          healthy = insert-Healthy c v id (f a) now held.healthy sound;
          counts = λ j.
              slots-insert_more id j (f a) now 0 (omega (arith, slots_at id now a held.found))
              ∙ ground (arith, held.counts j);
        })

    held_some : 0 < held.limiter.active_connections
    held_some =
        ground (arith, held.counts id, slots_at id now held.limiter held.found, text_eq_refl id)

    -- The slot is given back, after a change that keeps the count.
    pub release-Holding :
        (f : AdaptiveConcurrency → AdaptiveConcurrency)
        → KeepsSlots c f
        → let after = update_aimd id (λ a. release (f a)) now in
          Healthy c after × SameSlots after before
    release-Holding f keeps =
        let a = held.limiter in
        let (sound, same) = keeps a (held.healthy id a held.found) in
        let (released, less) = release-Sound c v (f a) sound (omega (arith, held_some)) in
        rw (update-found id (λ a. release (f a)) now a held.found) (
          insert-Healthy c v id (release (f a)) now held.healthy released,
          λ j. ground (
            arith,
            held.counts j,
            slots-insert_less id j (release (f a)) now
                (omega (arith, slots_at id now a held.found)),
          ),
        )
