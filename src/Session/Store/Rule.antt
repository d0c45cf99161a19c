-- ===== src/Session/Store/Rule.antt =====
-- What holds of the store before an operation on one key holds after it, if the removal of the key's
-- entry, an entry put at the key, and events keep it. `Q` is what is known of the entry.
use unigateway.Prelude.{
  ℕ, ◌≡◌, refl, inl, inr, Bool, true, false, Option, none, some, List, if◌then◌else◌, Bool-cases,
  Option-cases, ltb, Result, ok, err,
}
use unigateway.Prelude.Dict.{lookup, insert, remove}
use unigateway.Session.Keys.{SessionKey, SessionError, SessionLifecycleEvent, storage_key}
use unigateway.Session.Limits.{Json, Checked, SessionPrefix, normalize, validate_prefix, prefix_eq}
use unigateway.Session.Store.{
  MemorySessionStore, StoredSession, Outcome, remove_if_expired, publish_over, publish_locked,
  publish_checked, publish_key, looked_up, live_entry, get_found, get_key, touch_found, touch_key,
  delete_key, has_expired, other_error, under_lock, new_session, touch,
}

module _ {V : Type 0} (j : Json V) (now : ℕ) (key : SessionKey) (P : MemorySessionStore V → Type 0)
    (Q : StoredSession V → Type 0)
    (noted : (m : MemorySessionStore V) (l : List SessionLifecycleEvent)
      → P m
      → P (record m { events = l }))
    (removed : (m : MemorySessionStore V) (l : List SessionLifecycleEvent)
      → P m
      → P (record m { inner = remove (storage_key key) m.inner; events = l }))
    (inserted : (m : MemorySessionStore V) (s : StoredSession V) (l : List SessionLifecycleEvent)
      → Q s
      → P m
      → P (record m { inner = insert (storage_key key) s m.inner; events = l }))
    (found : (m : MemorySessionStore V) (s : StoredSession V)
      → lookup (storage_key key) m.inner ≡ some s
      → P m
      → Q s)
    (touched : (s : StoredSession V) → Q s → Q (touch now s)) where
  under_lock-keeps :
      {A : Type 0} (b : Bool) (m : MemorySessionStore V) (r : Outcome V A)
      → P m
      → (P m → P r.1)
      → P (under_lock b m r).1
  under_lock-keeps true m r h k = h
  under_lock-keeps false m r h k = k h

  either-keeps : (b : Bool) (m m' : MemorySessionStore V) → P m → P m' → P (if b then m else m')
  either-keeps true m m' h h' = h
  either-keeps false m m' h h' = h'

  remove_if_expired-keeps :
      (m : MemorySessionStore V) → P m → P (remove_if_expired key (storage_key key) now m).1
  unfolding remove_if_expired
  remove_if_expired-keeps m h = elim (Option-cases (lookup (storage_key key) m.inner)) [
    | inl e ↦ rw (e, remove_if_expired) h
    | inr (s, e) ↦ elim (Bool-cases (has_expired m.config.lifetime now s)) [
      | inl gone ↦ rw (e, remove_if_expired, gone) (removed m _ h)
      | inr live ↦ rw (e, remove_if_expired, live) h
    ]
  ]

  publish_over-keeps :
      (p : SessionPrefix V) (bytes : ℕ) (o : Option (StoredSession V)) (m : MemorySessionStore V)
      → Q (new_session p now)
      → lookup (storage_key key) m.inner ≡ o
      → P m
      → P (publish_over j now key p bytes o m).1
  unfolding publish_over
  publish_over-keeps p bytes none m q o h = inserted m _ _ q h
  publish_over-keeps p bytes (some s) m q o h = elim (Bool-cases (ltb s.prefix.epoch p.epoch)) [
    | inl newer ↦ rw newer (inserted m _ _ q h)
    | inr n ↦ elim (Bool-cases (ltb p.epoch s.prefix.epoch)) [
      | inl stale ↦ rw (n, stale) (noted m _ h)
      | inr k ↦ elim (Bool-cases (prefix_eq j s.prefix p)) [
        | inl same ↦ rw (n, k, same) (inserted m _ _ (touched s (found m s o h)) h)
        | inr other ↦ rw (n, k, other) (noted m _ h)
      ]
    ]
  ]

  publish_locked-keeps :
      (p : SessionPrefix V) (bytes : ℕ) (r : Outcome V Unit)
      → Q (new_session p now)
      → P r.1
      → P (publish_locked j now key p bytes r).1
  unfolding publish_locked
  publish_locked-keeps p bytes (ok _, m) q h = publish_over-keeps p bytes _ m q refl h
  publish_locked-keeps p bytes (err e, m) q h = elim (Option-cases (other_error (err e))) [
    | inl none_other ↦ rw (none_other, publish_locked) (publish_over-keeps p bytes _ m q refl h)
    | inr (e', other) ↦ rw (other, publish_locked) h
  ]

  publish_checked-keeps :
      (p : SessionPrefix V) (valid : Checked) (counted : Result ℕ SessionError)
      (m : MemorySessionStore V)
      → (valid ≡ ok tt → Q (new_session p now))
      → P m
      → P (publish_checked j now key p valid counted m).1
  unfolding publish_checked
  publish_checked-keeps p (err e) counted m q h = h
  publish_checked-keeps p (ok _) (err e) m q h = h
  publish_checked-keeps p (ok _) (ok bytes) m q h =
      under_lock-keeps m.poisoned m _ h
        (λ h. publish_locked-keeps p bytes _ (q refl) (remove_if_expired-keeps m h))

  live_entry-keeps :
      (m : MemorySessionStore V)
      → P m
      → let (o, m') = live_entry now key m in P m' × ((s : StoredSession V) → o ≡ ok (some s) → Q s)
  unfolding live_entry
  live_entry-keeps m h = locked m.poisoned
    where
      looked :
          (r : Outcome V Unit) (p : P r.1)
          → let (o, m') = looked_up key r in P m' × ((s : StoredSession V) → o ≡ ok (some s) → Q s)
      looked (ok _, m) p = (p, λ s e. found m s (cc) p)
      looked (err _, m) p = (p, λ s e. cc)

      locked :
          (b : Bool)
          → let (o, m') =
              under_lock b m (looked_up key (remove_if_expired key (storage_key key) now m)) in
            P m' × ((s : StoredSession V) → o ≡ ok (some s) → Q s)
      locked true = (h, λ s e. cc)
      locked false = looked _ (remove_if_expired-keeps m h)

  get_found-keeps :
      (r : Outcome V (Option (StoredSession V)))
      → P r.1 × ((s : StoredSession V) → r.0 ≡ ok (some s) → Q s)
      → P (get_found now key r).1
  unfolding get_found
  get_found-keeps (err e, m) (h, q) = h
  get_found-keeps (ok none, m) (h, q) = h
  get_found-keeps (ok (some s), m) (h, q) =
      either-keeps m.config.lifetime.touch_on_read _ _ (inserted m _ _ (touched s (q s refl)) h) h

  touch_found-keeps :
      (r : Outcome V (Option (StoredSession V)))
      → P r.1 × ((s : StoredSession V) → r.0 ≡ ok (some s) → Q s)
      → P (touch_found now key r).1
  unfolding touch_found
  touch_found-keeps (err e, m) (h, q) = h
  touch_found-keeps (ok none, m) (h, q) = h
  touch_found-keeps (ok (some s), m) (h, q) = inserted m _ _ (touched s (q s refl)) h

  pub publish_keeps :
      (p : SessionPrefix V) (m : MemorySessionStore V)
      → (validate_prefix j m.config.size_limits key (normalize p).messages ≡ ok tt
          → Q (new_session (normalize p) now))
      → P m
      → P (publish_key j now key p m).1
  unfolding publish_key
  publish_keeps p m q h = publish_checked-keeps _ _ _ m q h

  pub get_keeps : (m : MemorySessionStore V) → P m → P (get_key now key m).1
  unfolding get_key
  get_keeps m h = get_found-keeps _ (live_entry-keeps m h)

  pub touch_keeps : (m : MemorySessionStore V) → P m → P (touch_key now key m).1
  unfolding touch_key
  touch_keeps m h = touch_found-keeps _ (live_entry-keeps m h)

  pub delete_keeps : (m : MemorySessionStore V) → P m → P (delete_key key m).1
  unfolding delete_key
  delete_keeps m h = under_lock-keeps m.poisoned m _ h (removed m _)
