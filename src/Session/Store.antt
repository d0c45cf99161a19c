-- ===== src/Session/Store.antt =====
-- unigateway-session/src/store.rs: the in-memory store of session prefixes.
-- Each operation takes the time that `SystemTime::now` reads, and returns its result with the store
-- that it leaves; the store keeps the events that the lifecycle hook was given. The write lock makes
-- an operation one step; `poisoned` says that a thread panicked while it held the lock.
pub mod Machine
pub mod Rule
pub mod Isolation
pub mod Epochs
pub mod Purging
pub mod Soundness
pub mod Publishing
use unigateway.Prelude.{
  ℕ, Bool, true, false, ◌&&◌, Option, none, some, List, [], ◌∷◌, ◌++◌, length, map, keep, ltb,
  unwrap_or, is_some, if◌then◌else◌, Result, ok, err,
}
use unigateway.Prelude.Text.{Text, codes}
use unigateway.Prelude.Dict.{Dict, lookup, insert, remove}
use unigateway.Session.Lifetime.{SessionLifetime, is_enabled, is_session_expired}
use unigateway.Session.Keys.{
  SessionKey, storage_key, parse_storage_key, SessionError, not_found, expired, unavailable,
  PublishResult, SessionLifecycleEvent, from_publish_result, session_expired, session_deleted,
  stale_publish, stale_epoch,
}
use unigateway.Session.Limits.{
  Json, Checked, SessionSizeLimits, SessionPrefix, message_json_bytes, validate_prefix, normalize,
  prefix_eq,
}

pub record SessionStoreConfig : Type 0 where
  pub size_limits : SessionSizeLimits
  pub lifetime : SessionLifetime
  pub has_hook : Bool

pub record StoredSession (V : Type 0) : Type 0 where
  pub prefix : SessionPrefix V
  pub created_at : ℕ
  pub last_accessed_at : ℕ

pub record MemorySessionStore (V : Type 0) : Type 0 where
  pub inner : Dict (StoredSession V)
  pub config : SessionStoreConfig
  pub poisoned : Bool
  pub events : List SessionLifecycleEvent

-- The result of an operation with the store that it leaves.
abbrev pub Outcome : Type 0 → Type 0 → Type 0
Outcome V A = Result A SessionError × MemorySessionStore V

-- `if let Err(error) = .. && !matches!(error, Expired(_))`
abbrev pub other_error : Checked → Option SessionError
other_error (ok _) = none
other_error (err (SessionError.expired _)) = none
other_error (err e) = some e

abbrev pub lock_poisoned : SessionError
lock_poisoned = unavailable (codes "lock poisoned")

module _ {V : Type 0} where
  -- `self.lock()?`
  abbrev pub under_lock : {A : Type 0} → Bool → MemorySessionStore V → Outcome V A → Outcome V A
  under_lock true m r = (err lock_poisoned, m)
  under_lock false m r = r

  abbrev pub with_config : SessionStoreConfig → MemorySessionStore V
  with_config c = record { inner = []; config = c; poisoned = false; events = [] }

  abbrev pub new_session : SessionPrefix V → ℕ → StoredSession V
  new_session p now = record { prefix = p; created_at = now; last_accessed_at = now }

  abbrev pub touch : ℕ → StoredSession V → StoredSession V
  touch now s = record s { last_accessed_at = now }

  abbrev pub replace_prefix : SessionPrefix V → ℕ → StoredSession V → StoredSession V
  replace_prefix p now s = record s { prefix = p; created_at = now; last_accessed_at = now }

  -- `emit`, under a condition of the source.
  abbrev pub emit_if : Bool → SessionLifecycleEvent → MemorySessionStore V → MemorySessionStore V
  emit_if b event m = record m {
    events = if b && m.config.has_hook then m.events ++ event ∷ [] else m.events;
  }

  abbrev pub emit : SessionLifecycleEvent → MemorySessionStore V → MemorySessionStore V
  emit = emit_if true

  abbrev pub has_expired : SessionLifetime → ℕ → StoredSession V → Bool
  has_expired l now s = is_session_expired s.created_at s.last_accessed_at l now

  -- On an expired entry: the entry gone, and the error.
  unfoldable pub remove_if_expired : SessionKey → Text → ℕ → MemorySessionStore V → Outcome V Unit
  remove_if_expired key at now m = elim (lookup at m.inner) [
    | none ↦ (ok tt, m)
    | some entry ↦
        if has_expired m.config.lifetime now entry
        then (
          err (expired key),
          emit (session_expired key) (record m { inner = remove at m.inner }),
        )
        else (ok tt, m)
  ]

  abbrev announce :
      SessionKey
      → SessionPrefix V
      → (bytes : ℕ) → PublishResult
      → MemorySessionStore V
      → Outcome V PublishResult
  announce key p bytes r m = (
    ok r,
    emit (from_publish_result key r p.epoch (unwrap_or p.message_count (length p.messages)) bytes)
        m,
  )

  -- The match on the entry at the key, once an expired one is gone.
  unfoldable pub publish_over :
      Json V
      → (now : ℕ) → SessionKey
      → SessionPrefix V
      → (bytes : ℕ) → Option (StoredSession V)
      → MemorySessionStore V
      → Outcome V PublishResult
  publish_over j now key p bytes none m =
      announce key p bytes PublishResult.created
        (record m { inner = insert (storage_key key) (new_session p now) m.inner })
  publish_over j now key p bytes (some s) m =
      if ltb s.prefix.epoch p.epoch
      then announce key p bytes PublishResult.replaced
          (record m { inner = insert (storage_key key) (replace_prefix p now s) m.inner })
      else if ltb p.epoch s.prefix.epoch
      then (
        err (stale_epoch key s.prefix.epoch p.epoch),
        emit (stale_publish key s.prefix.epoch p.epoch) m,
      )
      else if prefix_eq j s.prefix p
      then announce key p bytes PublishResult.already_current
          (record m { inner = insert (storage_key key) (touch now s) m.inner })
      else (
        err (SessionError.epoch_conflict key p.epoch),
        emit (SessionLifecycleEvent.epoch_conflict key p.epoch) m,
      )

  -- `Expired` goes on as a create.
  unfoldable pub publish_locked :
      Json V
      → (now : ℕ) → SessionKey
      → SessionPrefix V
      → (bytes : ℕ) → Outcome V Unit
      → Outcome V PublishResult
  publish_locked j now key p bytes (checked, m) = elim (other_error checked) [
    | some e ↦ (err e, m)
    | none ↦ publish_over j now key p bytes (lookup (storage_key key) m.inner) m
  ]

  -- From the two checks on the prefix on.
  unfoldable pub publish_checked :
      Json V
      → (now : ℕ) → SessionKey
      → SessionPrefix V
      → Checked
      → Result ℕ SessionError
      → MemorySessionStore V
      → Outcome V PublishResult
  publish_checked j now key p (err e) counted m = (err e, m)
  publish_checked j now key p (ok _) (err e) m = (err e, m)
  publish_checked j now key p (ok _) (ok bytes) m =
      under_lock m.poisoned m
        (publish_locked j now key p bytes (remove_if_expired key (storage_key key) now m))

  unfoldable pub publish_key :
      Json V
      → (now : ℕ) → SessionKey
      → SessionPrefix V
      → MemorySessionStore V
      → Outcome V PublishResult
  publish_key j now key given m =
      let p = normalize given in
      publish_checked j now key p (validate_prefix j m.config.size_limits key p.messages)
        (message_json_bytes j p.messages) m

  -- The entry at the key, once an expired one is gone.
  abbrev looked_up : SessionKey → Outcome V Unit → Outcome V (Option (StoredSession V))
  looked_up key (err _, m) = (err (expired key), m)
  looked_up key (ok _, m) = (ok (lookup (storage_key key) m.inner), m)

  unfoldable pub live_entry :
      (now : ℕ) → SessionKey → MemorySessionStore V → Outcome V (Option (StoredSession V))
  live_entry now key m =
      under_lock m.poisoned m (looked_up key (remove_if_expired key (storage_key key) now m))

  abbrev put : SessionKey → StoredSession V → MemorySessionStore V → MemorySessionStore V
  put key s m = record m { inner = insert (storage_key key) s m.inner }

  -- On a store without the key the expiry check does nothing, so that its guard in the source,
  -- `guard.get(..).is_some()`, changes nothing.
  unfoldable pub get_found :
      (now : ℕ)
      → SessionKey
      → Outcome V (Option (StoredSession V))
      → Outcome V (Option (SessionPrefix V))
  get_found now key (err e, m) = (err e, m)
  get_found now key (ok none, m) = (ok none, m)
  get_found now key (ok (some s), m) =
      (ok (some s.prefix), if m.config.lifetime.touch_on_read then put key (touch now s) m else m)

  unfoldable pub get_key :
      (now : ℕ) → SessionKey → MemorySessionStore V → Outcome V (Option (SessionPrefix V))
  get_key now key m = get_found now key (live_entry now key m)

  unfoldable pub touch_found :
      (now : ℕ) → SessionKey → Outcome V (Option (StoredSession V)) → Outcome V Unit
  touch_found now key (err e, m) = (err e, m)
  touch_found now key (ok none, m) = (err (not_found key), m)
  touch_found now key (ok (some s), m) = (ok tt, put key (touch now s) m)

  unfoldable pub touch_key : (now : ℕ) → SessionKey → MemorySessionStore V → Outcome V Unit
  touch_key now key m = touch_found now key (live_entry now key m)

  unfoldable pub delete_key : SessionKey → MemorySessionStore V → Outcome V Unit
  delete_key key m = under_lock m.poisoned m (
    ok tt,
    emit_if (is_some (lookup (storage_key key) m.inner)) (session_deleted key)
        (record m { inner = remove (storage_key key) m.inner }),
  )

  -- The keys of the entries that have expired, parsed, in the order of iteration.
  abbrev pub expired_keys : ℕ → MemorySessionStore V → List SessionKey
  expired_keys now m =
      map (λ e. parse_storage_key e.0) (keep (λ e. has_expired m.config.lifetime now e.1) m.inner)

  unfoldable pub drop_keys : List SessionKey → MemorySessionStore V → MemorySessionStore V
  drop_keys [] m = m
  drop_keys (key ∷ keys) m =
      drop_keys keys
        (emit (session_expired key) (record m { inner = remove (storage_key key) m.inner }))

  unfoldable pub purge_expired : (now : ℕ) → MemorySessionStore V → Outcome V ℕ
  purge_expired now m =
      if is_enabled m.config.lifetime
      then under_lock m.poisoned m
          (ok (length (expired_keys now m)), drop_keys (expired_keys now m) m)
      else (ok 0, m)
