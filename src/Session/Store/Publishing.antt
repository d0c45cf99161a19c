-- ===== src/Session/Store/Publishing.antt =====
-- What was published is what is read.
use unigateway.Prelude.{
  ℕ, ◌≡◌, refl, ap, ◌∙◌, inl, inr, Bool, true, false, Option, none, some, ltb, if◌then◌else◌,
  Bool-cases, Option-cases, Result, ok, err,
}
use unigateway.Prelude.Dict.{lookup, insert, remove, lookup-insert, text_eq_refl}
use unigateway.Session.Keys.{
  SessionKey, SessionError, PublishResult, storage_key, expired, session_expired,
}
use unigateway.Session.Limits.{
  Json, IsJson, Checked, SessionPrefix, normalize, prefix_eq, prefix_eq_refl,
}
use unigateway.Session.Store.{
  MemorySessionStore, StoredSession, Outcome, remove_if_expired, publish_over, publish_locked,
  publish_checked, publish_key, looked_up, live_entry, get_found, get_key, has_expired, other_error,
  under_lock, emit,
}

module _ {V : Type 0} (j : Json V) where
  -- A store that holds `p` at the key, and answers a reader with it until it expires.
  abbrev pub Serves : SessionKey → SessionPrefix V → ℕ → MemorySessionStore V → Type 0
  Serves key p later m =
      (s : StoredSession V) × (lookup (storage_key key) m.inner ≡ some s)
      × (prefix_eq j s.prefix p ≡ true)
      × ((get_key later key m).0 ≡ (
          if has_expired m.config.lifetime later s then err (expired key) else ok (some s.prefix)))

  get_key-stored :
      (now : ℕ) (key : SessionKey) (s : StoredSession V) (m : MemorySessionStore V)
      → m.poisoned ≡ false
      → lookup (storage_key key) m.inner ≡ some s
      → (get_key now key m).0
        ≡ (if has_expired m.config.lifetime now s then err (expired key) else ok (some s.prefix))
  unfolding get_key live_entry remove_if_expired get_found
  get_key-stored now key s m intact e =
      ap
        (λ b.
          (get_found now key
            (under_lock b m (looked_up key (remove_if_expired key (storage_key key) now m)))).0)
        intact
      ∙ elim (Bool-cases (has_expired m.config.lifetime now s)) [
        | inl gone ↦ rw gone (ap (λ r. (get_found now key r).0) (removed gone))
        | inr live ↦ rw live (ap (λ r. (get_found now key r).0) (kept live))
      ]
    where
      removed :
          has_expired m.config.lifetime now s ≡ true
          → looked_up key (remove_if_expired key (storage_key key) now m) ≡ (
            err (expired key),
            emit (session_expired key) (record m { inner = remove (storage_key key) m.inner }),
          )
      removed gone = rw (e, remove_if_expired, gone) refl

      kept :
          has_expired m.config.lifetime now s ≡ false
          → looked_up key (remove_if_expired key (storage_key key) now m) ≡ (ok (some s), m)
      kept live = rw (e, remove_if_expired, live, e) refl

  serves :
      (key : SessionKey) (p : SessionPrefix V) (later : ℕ) (s : StoredSession V)
      (m : MemorySessionStore V)
      → m.poisoned ≡ false
      → lookup (storage_key key) m.inner ≡ some s
      → prefix_eq j s.prefix p ≡ true
      → Serves key p later m
  serves key p later s m intact e same = (s, e, same, get_key-stored later key s m intact e)

  module _ (law : IsJson j) (now later : ℕ) (key : SessionKey) (p : SessionPrefix V) where
    holds :
        (s : StoredSession V) (m : MemorySessionStore V)
        → lookup (storage_key key) (insert (storage_key key) s m.inner) ≡ some s
    holds s m =
        lookup-insert (storage_key key) (storage_key key) s m.inner
        ∙ rw (text_eq_refl (storage_key key)) refl

    publish_over-Serves :
        (bytes : ℕ) (o : Option (StoredSession V)) (m : MemorySessionStore V) (a : PublishResult)
        → m.poisoned ≡ false
        → (publish_over j now key p bytes o m).0 ≡ ok a
        → Serves key p later (publish_over j now key p bytes o m).1
    unfolding publish_over
    publish_over-Serves bytes none m a intact =
        λ h. serves key p later _ _ intact (holds _ m) (prefix_eq_refl j law p)
    publish_over-Serves bytes (some s) m a intact = elim (Bool-cases (ltb s.prefix.epoch p.epoch)) [
      | inl newer ↦
          rw newer (λ h. serves key p later _ _ intact (holds _ m) (prefix_eq_refl j law p))
      | inr n ↦ elim (Bool-cases (ltb p.epoch s.prefix.epoch)) [
        | inl stale ↦ rw (n, stale) (λ h. cc)
        | inr k ↦ elim (Bool-cases (prefix_eq j s.prefix p)) [
          | inl same ↦ rw (n, k, same) (λ h. serves key p later _ _ intact (holds _ m) same)
          | inr other ↦ rw (n, k, other) (λ h. cc)
        ]
      ]
    ]

    publish_locked-Serves :
        (bytes : ℕ) (r : Outcome V Unit) (a : PublishResult)
        → r.1.poisoned ≡ false
        → (publish_locked j now key p bytes r).0 ≡ ok a
        → Serves key p later (publish_locked j now key p bytes r).1
    unfolding publish_locked
    publish_locked-Serves bytes (ok _, m) a intact = publish_over-Serves bytes _ m a intact
    publish_locked-Serves bytes (err e, m) a intact = elim (Option-cases (other_error (err e))) [
      | inl none_other ↦ rw (none_other, publish_locked) (publish_over-Serves bytes _ m a intact)
      | inr (e', other) ↦ rw (other, publish_locked) (λ h. cc)
    ]

    remove_if_expired-poisoned :
        (m : MemorySessionStore V)
        → (remove_if_expired key (storage_key key) now m).1.poisoned ≡ m.poisoned
    unfolding remove_if_expired
    remove_if_expired-poisoned m = elim (Option-cases (lookup (storage_key key) m.inner)) [
      | inl e ↦ rw (e, remove_if_expired) refl
      | inr (s, e) ↦ elim (Bool-cases (has_expired m.config.lifetime now s)) [
        | inl gone ↦ rw (e, remove_if_expired, gone) refl
        | inr live ↦ rw (e, remove_if_expired, live) refl
      ]
    ]

    publish_checked-Serves :
        (valid : Checked) (counted : Result ℕ SessionError) (m : MemorySessionStore V)
        (a : PublishResult)
        → (publish_checked j now key p valid counted m).0 ≡ ok a
        → Serves key p later (publish_checked j now key p valid counted m).1
    unfolding publish_checked
    publish_checked-Serves (err e) counted m a = λ h. cc
    publish_checked-Serves (ok _) (err e) m a = λ h. cc
    publish_checked-Serves (ok _) (ok bytes) m a = go m.poisoned refl
      where
        locked : Outcome V PublishResult
        locked = publish_locked j now key p bytes (remove_if_expired key (storage_key key) now m)

        go :
            (b : Bool)
            → m.poisoned ≡ b
            → (under_lock b m locked).0 ≡ ok a
            → Serves key p later (under_lock b m locked).1
        go true e = λ h. cc
        go false e = publish_locked-Serves bytes _ a (remove_if_expired-poisoned m ∙ e)

-- A prefix that was accepted, as new, as a replacement or as the one already there, is stored under
-- the key, and a read of the key at any time gives that prefix, with its messages counted; but if
-- the session has expired by then, the read says so.
pub publish-get :
    {V : Type 0} (j : Json V)
    → IsJson j
    → (now later : ℕ) (key : SessionKey) (p : SessionPrefix V) (m : MemorySessionStore V)
      (a : PublishResult)
    → (publish_key j now key p m).0 ≡ ok a
    → Serves j key (normalize p) later (publish_key j now key p m).1
unfolding publish_key
publish-get j law now later key p m a =
    publish_checked-Serves j law now later key (normalize p) _ _ m a
