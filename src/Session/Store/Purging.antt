-- ===== src/Session/Store/Purging.antt =====
-- A purge removes the expired sessions and no other.
use unigateway.Prelude.{
  ℕ, ◌≡◌, refl, sym, ap, subst, length, ok, ◌∙◌, inl, inr, Bool, true, false, ◌||◌, Option, none,
  some, List, [], ◌∷◌, any, All, map, keep, if◌then◌else◌, Bool-cases,
}
use unigateway.Prelude.Text.{Text, text_eq, text_eq_iff}
use unigateway.Prelude.Dict.{Dict, lookup, lookup-remove, Distinct}
use unigateway.Session.Lifetime.{SessionLifetime, is_enabled}
use unigateway.Session.Keys.{SessionKey, storage_key, parse_storage_key}
use unigateway.Session.Store.{
  MemorySessionStore, StoredSession, has_expired, drop_keys, expired_keys, purge_expired,
  under_lock, Outcome,
}
use unigateway.Session.Store.Epochs.{never_expires}

-- What is left of an entry at the time `now`.
abbrev pub still_live :
    {V : Type 0} → SessionLifetime → ℕ → Option (StoredSession V) → Option (StoredSession V)
still_live l now none = none
still_live l now (some s) = if has_expired l now s then none else some s

-- The text is the storage key of some session.
abbrev pub IsStorageKey : Text → Type 0
IsStorageKey t = storage_key (parse_storage_key t) ≡ t

module _ {V : Type 0} where
  drop_keys-lookup :
      (at : Text) (keys : List SessionKey) (m : MemorySessionStore V)
      → lookup at (drop_keys keys m).inner
        ≡ (if any (λ k. text_eq (storage_key k) at) keys then none else lookup at m.inner)
  unfolding drop_keys
  drop_keys-lookup at [] m = refl
  drop_keys-lookup at (key ∷ keys) m =
      drop_keys-lookup at keys _
      ∙ (rw (lookup-remove (storage_key key) at m.inner)
          (either (text_eq (storage_key key) at) (any (λ k. text_eq (storage_key k) at) keys)))
    where
      either :
          (b rest : Bool)
          → (if rest then none else (if b then none else lookup at m.inner))
            ≡ (if b || rest then none else lookup at m.inner)
      either true true = refl
      either true false = refl
      either false rest = refl

  abbrev expired_at : SessionLifetime → ℕ → Option (StoredSession V) → Bool
  expired_at l now none = false
  expired_at l now (some s) = has_expired l now s

  listed :
      (l : SessionLifetime) (now : ℕ) (at : Text) (d : Dict (StoredSession V))
      → All (λ e. IsStorageKey e.0) d
      → Distinct d
      → any
          (λ k. text_eq (storage_key k) at)
          (map (λ e. parse_storage_key e.0) (keep (λ e. has_expired l now e.1) d))
        ≡ expired_at l now (lookup at d)
  unfolding lookup
  listed l now at [] keyed d = refl
  listed l now at ((k, s) ∷ m) (key, keyed) (new, d) = elim (Bool-cases (text_eq k at)) [
    | inl here ↦ elim (Bool-cases (has_expired l now s)) [
      | inl gone ↦ rw (here, gone, key, here) refl
      | inr live ↦
          rw (here, live)
            (listed l now at m keyed d ∙ rw (sym ((text_eq_iff k at).0 here), new) refl)
    ]
    | inr there ↦ elim (Bool-cases (has_expired l now s)) [
      | inl gone ↦ rw (there, gone, key, there) (listed l now at m keyed d)
      | inr live ↦ rw (there, live) (listed l now at m keyed d)
    ]
  ]

  dropped :
      (l : SessionLifetime) (now : ℕ) (o : Option (StoredSession V))
      → (if expired_at l now o then none else o) ≡ still_live l now o
  dropped l now none = refl
  dropped l now (some s) = refl

  all_live :
      (l : SessionLifetime) (now : ℕ) (o : Option (StoredSession V))
      → is_enabled l ≡ false
      → o ≡ still_live l now o
  all_live l now none off = refl
  all_live l now (some s) off = rw (never_expires l s.created_at s.last_accessed_at now off) refl

  -- A purge with the lock intact removes exactly the expired sessions: it looks up at any key what
  -- was there before, unless that has expired. The store's keys are storage keys, and none has two
  -- entries.
  pub purge_removes_expired :
      (now : ℕ) (at : Text) (m : MemorySessionStore V)
      → m.poisoned ≡ false
      → All (λ e. IsStorageKey e.0) m.inner
      → Distinct m.inner
      → lookup at (purge_expired now m).1.inner
        ≡ still_live m.config.lifetime now (lookup at m.inner)
  unfolding purge_expired
  purge_removes_expired now at m intact keyed d = elim (Bool-cases (is_enabled m.config.lifetime)) [
    | inl on ↦
        subst
          (λ b.
            lookup at
              (if◌then◌else◌ {A = Outcome V ℕ} b
                (under_lock m.poisoned m
                  (ok (length (expired_keys now m)), drop_keys (expired_keys now m) m))
                (ok 0, m)).1.inner
            ≡ still_live m.config.lifetime now (lookup at m.inner))
          (sym on)
          (subst
            (λ b.
              lookup at
                (under_lock b m
                  (ok (length (expired_keys now m)), drop_keys (expired_keys now m) m)).1.inner
              ≡ still_live m.config.lifetime now (lookup at m.inner))
            (sym intact)
            (drop_keys-lookup at (expired_keys now m) m
              ∙ (ap (λ b. if b then none else lookup at m.inner)
                    (listed m.config.lifetime now at m.inner keyed d)
                  ∙ dropped m.config.lifetime now (lookup at m.inner))))
    | inr off ↦
        subst
          (λ b.
            lookup at
              (if◌then◌else◌ {A = Outcome V ℕ} b
                (under_lock m.poisoned m
                  (ok (length (expired_keys now m)), drop_keys (expired_keys now m) m))
                (ok 0, m)).1.inner
            ≡ still_live m.config.lifetime now (lookup at m.inner))
          (sym off) (all_live m.config.lifetime now (lookup at m.inner) off)
  ]
