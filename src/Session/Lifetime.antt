-- ===== src/Session/Lifetime.antt =====
-- unigateway-session/src/lifetime.rs: when a session has expired.
-- Times and durations count the clock's units. A clock that was set back reads earlier than a time
-- stored before, in which case `duration_since` fails and nothing expires.
use unigateway.Prelude.{
  ℕ, ◌-◌, ◌≤◌, ◌≡◌, refl, Bool, true, false, ◌||◌, Option, none, some, ltb, leb, is_some,
  if◌then◌else◌, arith,
}

pub record SessionLifetime : Type 0 where
  pub idle_ttl : Option ℕ
  pub max_lifetime : Option ℕ
  pub touch_on_read : Bool

abbrev pub default_lifetime : SessionLifetime
default_lifetime = record { idle_ttl = none; max_lifetime = none; touch_on_read = true }

abbrev pub is_enabled : SessionLifetime → Bool
is_enabled l = is_some l.idle_ttl || is_some l.max_lifetime

unfoldable pub duration_since : ℕ → ℕ → Option ℕ
duration_since from now = if leb from now then some (now - from) else none

-- `if let Some(limit) = limit && duration_since(from, now).is_some_and(|elapsed| elapsed > limit)`
unfoldable pub outlasted : Option ℕ → ℕ → ℕ → Bool
outlasted none from now = false
outlasted (some limit) from now = elim (duration_since from now) [
  | none ↦ false
  | some elapsed ↦ ltb limit elapsed
]

unfoldable pub is_session_expired : (created_at last_accessed_at : ℕ) → SessionLifetime → ℕ → Bool
is_session_expired created_at last_accessed_at l now =
    outlasted l.max_lifetime created_at now || outlasted l.idle_ttl last_accessed_at now

pub outlasted_later :
    (limit : Option ℕ) (from now later : ℕ)
    → now ≤ later
    → outlasted limit from now ≡ true
    → outlasted limit from later ≡ true
unfolding outlasted duration_since
outlasted_later none from now later le h = cc
outlasted_later (some limit) from now later le h = ground arith

-- An expired session stays expired while the clock runs forward.
pub expiry_lasts :
    (created_at last_accessed_at now later : ℕ) (l : SessionLifetime)
    → now ≤ later
    → is_session_expired created_at last_accessed_at l now ≡ true
    → is_session_expired created_at last_accessed_at l later ≡ true
unfolding is_session_expired
expiry_lasts c a now later l le h = ground (
  arith,
  outlasted_later l.max_lifetime c now later le,
  outlasted_later l.idle_ttl a now later le,
)

pub outlasted-now : (limit : Option ℕ) (now : ℕ) → outlasted limit now now ≡ false
unfolding outlasted duration_since
outlasted-now none now = refl
outlasted-now (some limit) now = ground arith

pub fresh_is_live : (now : ℕ) (l : SessionLifetime) → is_session_expired now now l now ≡ false
unfolding is_session_expired
fresh_is_live now l = rw (outlasted-now l.max_lifetime now, outlasted-now l.idle_ttl now) refl
