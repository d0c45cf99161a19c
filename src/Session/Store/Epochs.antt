-- ===== src/Session/Store/Epochs.antt =====
-- Epochs of a stored session only grow, and one epoch has one prefix.
use unigateway.Prelude.{
  ℕ, ◌<◌, ◌≡◌, refl, sym, subst, ◌∙◌, ◌⊎◌, inl, inr, Bool, true, false, Option, some, List, [], ◌∷◌,
  ltb, if◌then◌else◌, Bool-cases, Option-cases, Result, ok, err, All, ltb→lt, arith,
}
use unigateway.Prelude.Text.{Text, text_eq, text_eq_iff}
use unigateway.Prelude.Dict.{Dict, lookup, insert, lookup-insert, text_eq_refl}
use unigateway.Session.Lifetime.{SessionLifetime, is_enabled, is_session_expired, outlasted}
use unigateway.Session.Keys.{SessionKey, SessionError, storage_key}
use unigateway.Session.Limits.{Json, Checked, SessionPrefix, normalize, prefix_eq}
use unigateway.Session.Store.{
  MemorySessionStore, StoredSession, remove_if_expired, publish_over, publish_key, live_entry,
  get_key, touch_key, purge_expired, publish_checked, publish_locked, under_lock, looked_up,
  lock_poisoned, get_found, touch_found, touch,
}
use unigateway.Session.Store.Machine.{Operation, perform, run, perform-config}
use unigateway.Session.Store.Isolation.{
  publish_elsewhere, get_elsewhere, touch_elsewhere, delete_elsewhere,
}

pub never_expires :
    (l : SessionLifetime) (created accessed now : ℕ)
    → is_enabled l ≡ false
    → is_session_expired created accessed l now ≡ false
unfolding is_session_expired outlasted
never_expires l c a now h = ground (arith)

module _ {V : Type 0} (j : Json V) where
  -- What has become of the session `s`: it is stored, at a later epoch or with the same prefix.
  abbrev pub Advanced : StoredSession V → Option (StoredSession V) → Type 0
  Advanced s o =
      (t : StoredSession V) × (o ≡ some t)
      × ((s.prefix.epoch < t.prefix.epoch) ⊎ (t.prefix ≡ s.prefix))

  remove_if_expired-kept :
      (key : SessionKey) (at : Text) (now : ℕ) (m : MemorySessionStore V)
      → is_enabled m.config.lifetime ≡ false
      → remove_if_expired key at now m ≡ (ok tt, m)
  unfolding remove_if_expired
  remove_if_expired-kept key at now m off = elim (Option-cases (lookup at m.inner)) [
    | inl e ↦ rw (e, remove_if_expired) refl
    | inr (s, e) ↦
        rw
          (
            e,
            remove_if_expired,
            never_expires m.config.lifetime s.created_at s.last_accessed_at now off,
          )
          refl
  ]

  publish_over-Advanced :
      (now : ℕ) (key : SessionKey) (p : SessionPrefix V) (bytes : ℕ) (s : StoredSession V)
      (m : MemorySessionStore V)
      → lookup (storage_key key) m.inner ≡ some s
      → Advanced s (lookup (storage_key key) (publish_over j now key p bytes (some s) m).1.inner)
  unfolding publish_over
  publish_over-Advanced now key p bytes s m e = elim (Bool-cases (ltb s.prefix.epoch p.epoch)) [
    | inl newer ↦ rw (newer, lookup-insert, text_eq_refl) (_, refl, inl (ltb→lt _ _ newer))
    | inr h ↦ elim (Bool-cases (ltb p.epoch s.prefix.epoch)) [
      | inl stale ↦ rw (h, stale) (s, e, inr refl)
      | inr k ↦ elim (Bool-cases (prefix_eq j s.prefix p)) [
        | inl same ↦ rw (h, k, same, lookup-insert, text_eq_refl) (_, refl, inr refl)
        | inr other ↦ rw (h, k, other) (s, e, inr refl)
      ]
    ]
  ]

  publish_checked-Advanced :
      (now : ℕ) (key : SessionKey) (p : SessionPrefix V) (valid : Checked)
      (counted : Result ℕ SessionError) (s : StoredSession V) (m : MemorySessionStore V)
      → is_enabled m.config.lifetime ≡ false
      → lookup (storage_key key) m.inner ≡ some s
      → Advanced s (lookup (storage_key key) (publish_checked j now key p valid counted m).1.inner)
  unfolding publish_checked publish_locked
  publish_checked-Advanced now key p (err e) counted s m off h = (s, h, inr refl)
  publish_checked-Advanced now key p (ok _) (err e) s m off h = (s, h, inr refl)
  publish_checked-Advanced now key p (ok _) (ok bytes) s m off h = locked m.poisoned
    where
      locked :
          (b : Bool)
          → Advanced s (
              lookup
                (storage_key key)
                (under_lock b m (
                  publish_locked j now key p bytes
                    (remove_if_expired key (storage_key key) now m))).1.inner)
      locked true = (s, h, inr refl)
      locked false =
          rw (remove_if_expired-kept key (storage_key key) now m off, h)
            (publish_over-Advanced now key p bytes s m h)

  live_entry-kept :
      (now : ℕ) (key : SessionKey) (s : StoredSession V) (m : MemorySessionStore V)
      → is_enabled m.config.lifetime ≡ false
      → lookup (storage_key key) m.inner ≡ some s
      → (live_entry now key m ≡ (err lock_poisoned, m)) ⊎ (live_entry now key m ≡ (ok (some s), m))
  unfolding live_entry
  live_entry-kept now key s m off h = locked m.poisoned
    where
      locked :
          (b : Bool)
          → let r =
              under_lock b m (looked_up key (remove_if_expired key (storage_key key) now m)) in
            (r ≡ (err lock_poisoned, m)) ⊎ (r ≡ (ok (some s), m))
      locked true = inl refl
      locked false = inr (rw (remove_if_expired-kept key (storage_key key) now m off, h) refl)

  get_found-Advanced :
      (now : ℕ) (key : SessionKey) (s : StoredSession V) (m : MemorySessionStore V)
      → lookup (storage_key key) m.inner ≡ some s
      → Advanced s (lookup (storage_key key) (get_found now key (ok (some s), m)).1.inner)
  unfolding get_found
  get_found-Advanced now key s m h = either m.config.lifetime.touch_on_read
    where
      put_back :
          Advanced s (lookup (storage_key key) (insert (storage_key key) (touch now s) m.inner))
      put_back = rw (lookup-insert, text_eq_refl) (_, refl, inr refl)

      either :
          (b : Bool)
          → let m' : MemorySessionStore V =
              if b
              then record m { inner = insert (storage_key key) (touch now s) m.inner }
              else m in
            Advanced s (lookup (storage_key key) m'.inner)
      either true = put_back
      either false = (s, h, inr refl)

  purge_expired-kept :
      (now : ℕ) (m : MemorySessionStore V)
      → is_enabled m.config.lifetime ≡ false
      → purge_expired now m ≡ (ok 0, m)
  unfolding purge_expired
  purge_expired-kept now m off = rw off refl

  -- An operation on `key` advances the session at `at`, if it does so where these are the same.
  at_any_key :
      (key : SessionKey) (at : Text) (s : StoredSession V) (d d' : Dict (StoredSession V))
      → (text_eq (storage_key key) at ≡ false → lookup at d' ≡ lookup at d)
      → (lookup (storage_key key) d ≡ some s → Advanced s (lookup (storage_key key) d'))
      → lookup at d ≡ some s
      → Advanced s (lookup at d')
  at_any_key key at s d d' elsewhere here h = elim (Bool-cases (text_eq (storage_key key) at)) [
    | inl e ↦
        subst (λ k. lookup k d ≡ some s → Advanced s (lookup k d')) ((text_eq_iff _ _).0 e) here h
    | inr e ↦ (s, elsewhere e ∙ h, inr refl)
  ]

  -- An operation that does not delete the entry at `at`.
  abbrev pub Spares : Text → Operation V → Type 0
  Spares at (Operation.delete key) = text_eq (storage_key key) at ≡ false
  Spares at op = Unit

  perform-Advanced :
      (at : Text) (now : ℕ) (op : Operation V) (s : StoredSession V) (m : MemorySessionStore V)
      → Spares at op
      → is_enabled m.config.lifetime ≡ false
      → lookup at m.inner ≡ some s
      → Advanced s (lookup at (perform j now op m).inner)
  unfolding publish_key get_key touch_key touch_found get_found
  perform-Advanced at now (Operation.publish key p) s m spares off h =
      at_any_key key at s m.inner _ (λ apart. publish_elsewhere j now key at apart m p)
        (publish_checked-Advanced now key (normalize p) _ _ s m off) h
  perform-Advanced at now (Operation.get key) s m spares off h =
      at_any_key key at s m.inner _ (λ apart. get_elsewhere j now key at apart m)
        (λ here. elim (live_entry-kept now key s m off here) [
          | inl e ↦ rw e (s, here, inr refl)
          | inr e ↦ rw e (get_found-Advanced now key s m here)
        ])
        h
  perform-Advanced at now (Operation.touch key) s m spares off h =
      at_any_key key at s m.inner _ (λ apart. touch_elsewhere j now key at apart m)
        (λ here. elim (live_entry-kept now key s m off here) [
          | inl e ↦ rw e (s, here, inr refl)
          | inr e ↦ rw (e, lookup-insert, text_eq_refl) (_, refl, inr refl)
        ])
        h
  perform-Advanced at now (Operation.delete key) s m spares off h =
      (s, delete_elsewhere j now key at spares m ∙ h, inr refl)
  perform-Advanced at now Operation.purge s m spares off h =
      subst (λ r. Advanced s (lookup at r.1.inner)) (sym (purge_expired-kept now m off))
        (s, h, inr refl)

  Advanced-trans :
      (s t : StoredSession V) (o : Option (StoredSession V))
      → (s.prefix.epoch < t.prefix.epoch) ⊎ (t.prefix ≡ s.prefix)
      → Advanced t o
      → Advanced s o
  Advanced-trans s t o (inl h) (u, e, inl k) = (u, e, inl (omega (arith, h, k)))
  Advanced-trans s t o (inl h) (u, e, inr k) =
      (u, e, inl (subst (λ p. s.prefix.epoch < p.epoch) (sym k) h))
  Advanced-trans s t o (inr h) (u, e, inl k) =
      (u, e, inl (subst (λ p. p.epoch < u.prefix.epoch) h k))
  Advanced-trans s t o (inr h) (u, e, inr k) = (u, e, inr (k ∙ h))

  -- With no lifetime configured, a stored session that is not deleted stays stored through any
  -- sequence of operations on any keys: its epoch only grows, and while its epoch stays its prefix is
  -- the same, whatever is published.
  pub epochs_only_grow :
      (at : Text) (ops : List (ℕ × Operation V)) (s : StoredSession V) (m : MemorySessionStore V)
      → All (λ e. Spares at e.1) ops
      → is_enabled m.config.lifetime ≡ false
      → lookup at m.inner ≡ some s
      → Advanced s (lookup at (run j ops m).inner)
  unfolding run
  epochs_only_grow at [] s m spare off h = (s, h, inr refl)
  epochs_only_grow at ((now, op) ∷ ops) s m (spares, spare) off h =
      let (t, e, step) = perform-Advanced at now op s m spares off h in
      Advanced-trans s t _ step (
        epochs_only_grow at ops t _ spare
          (subst (λ c. is_enabled c.lifetime ≡ false) (sym (perform-config j now op m)) off) e)
