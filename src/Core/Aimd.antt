-- ===== src/Core/Aimd.antt =====
-- unigateway-core/src/engine/aimd.rs: the adaptive concurrency limit of one endpoint.
-- This file has the methods as they run undisturbed; `Machine` has their single atomic accesses.
pub mod Machine
pub mod Safety
pub mod Control
use unigateway.Prelude.{
  ℕ, ◌+◌, ◌-◌, ◌/◌, ◌%◌, ◌^◌, min, max, Bool, Option, none, some, ltb, leb, ◌==◌, if◌then◌else◌,
}

-- `usize` and `u64` of a 64-bit target.
abbrev pub word_end : ℕ
word_end = 2 ^ 64

pub record AdaptiveConcurrencyConfig : Type 0 where
  pub initial_concurrency : ℕ
  pub max_concurrency : ℕ
  pub min_concurrency : ℕ
  pub cooldown_ms : ℕ

abbrev pub default_config : AdaptiveConcurrencyConfig
default_config = record {
  initial_concurrency = 10;
  max_concurrency = 100;
  min_concurrency = 2;
  cooldown_ms = 1000;
}

pub record AdaptiveConcurrency : Type 0 where
  pub config : AdaptiveConcurrencyConfig
  pub open config use *
  pub current_limit : ℕ
  pub ssthresh : ℕ
  pub active_connections : ℕ
  pub cooldown_until : ℕ

unfoldable pub new : AdaptiveConcurrencyConfig → AdaptiveConcurrency
new c = record {
  config = c;
  current_limit = c.initial_concurrency;
  ssthresh = c.max_concurrency;
  active_connections = 0;
  cooldown_until = 0;
}

abbrev pub capped : ℕ → Option ℕ → ℕ
capped limit none = limit
capped limit (some hard) = min limit hard

unfoldable pub effective_limit : AdaptiveConcurrency → Option ℕ → ℕ
effective_limit a hard_limit = capped a.current_limit hard_limit

-- `none`: no slot. A guard is the new count alone.
unfoldable pub acquire : Option ℕ → AdaptiveConcurrency → Option AdaptiveConcurrency
acquire hard_limit a =
    if leb (capped a.current_limit hard_limit) a.active_connections
    then none
    else some (record a { active_connections = (a.active_connections + 1) % word_end })

-- `fetch_sub` wraps around at 0.
unfoldable pub release : AdaptiveConcurrency → AdaptiveConcurrency
release a = record a { active_connections = (a.active_connections + word_end - 1) % word_end }

unfoldable pub saturating_add : ℕ → ℕ → ℕ
saturating_add a b = min (a + b) (word_end - 1)

unfoldable pub next_limit : (max_concurrency ssthresh limit : ℕ) → ℕ
unfolding saturating_add
next_limit max_concurrency ssthresh limit =
    if ltb limit ssthresh
    then min (saturating_add limit 1) ssthresh
    else min (saturating_add limit 1) max_concurrency

unfoldable pub on_success : (now : ℕ) → AdaptiveConcurrency → AdaptiveConcurrency
unfolding next_limit
on_success now a =
    if ltb now a.cooldown_until
    then a
    else record a { current_limit = next_limit a.max_concurrency a.ssthresh a.current_limit }

unfoldable pub backed_off : (min_concurrency limit : ℕ) → ℕ
backed_off min_concurrency limit = max (limit / 2) min_concurrency

-- `now + cooldown_ms`: the wrapped sum of a release build.
unfoldable pub on_saturation : (now : ℕ) → AdaptiveConcurrency → AdaptiveConcurrency
unfolding backed_off
on_saturation now a = if ltb now a.cooldown_until then a else record a {
  ssthresh = backed_off a.min_concurrency a.current_limit;
  current_limit = backed_off a.min_concurrency a.current_limit;
  cooldown_until = (now + a.cooldown_ms) % word_end;
}
