-- ===== src/Session/Store/Isolation.antt =====
-- An operation on one session leaves the others as they are.
use unigateway.Prelude.{ℕ, ◌≡◌, ◌≢◌, refl, ◌∙◌, inl, inr, false, Bool-cases}
use unigateway.Prelude.Text.{Text, text_eq, text_eq_iff}
use unigateway.Prelude.Dict.{lookup, insert, remove, lookup-insert, lookup-remove}
use unigateway.Session.Keys.{SessionKey, storage_key, HasNoNul, storage_key_injective}
use unigateway.Session.Limits.{Json, SessionPrefix}
use unigateway.Session.Store.{
  MemorySessionStore, StoredSession, publish_key, get_key, touch_key, delete_key,
}
use unigateway.Session.Store.Rule.{publish_keeps, get_keeps, touch_keeps, delete_keeps}

module _ {V : Type 0} (j : Json V) (now : ℕ) (key : SessionKey) (at : Text)
    (apart : text_eq (storage_key key) at ≡ false) (m : MemorySessionStore V) where
  abbrev Undisturbed : MemorySessionStore V → Type 0
  Undisturbed m' = lookup at m'.inner ≡ lookup at m.inner

  inserted :
      (s : StoredSession V) (m' : MemorySessionStore V)
      → Undisturbed m'
      → lookup at (insert (storage_key key) s m'.inner) ≡ lookup at m.inner
  inserted s m' h = lookup-insert (storage_key key) at s m'.inner ∙ rw apart h

  removed :
      (m' : MemorySessionStore V)
      → Undisturbed m'
      → lookup at (remove (storage_key key) m'.inner) ≡ lookup at m.inner
  removed m' h = lookup-remove (storage_key key) at m'.inner ∙ rw apart h

  pub publish_elsewhere : (p : SessionPrefix V) → Undisturbed (publish_key j now key p m).1
  publish_elsewhere p =
      publish_keeps j now key Undisturbed (λ _. Unit) (λ _ _ h. h) (λ m' _. removed m')
        (λ m' s _ _. inserted s m') (λ _ _ _ _. tt) (λ _ _. tt) p m (λ _. tt) refl

  pub get_elsewhere : Undisturbed (get_key now key m).1
  get_elsewhere =
      get_keeps j now key Undisturbed (λ _. Unit) (λ _ _ h. h) (λ m' _. removed m')
        (λ m' s _ _. inserted s m') (λ _ _ _ _. tt) (λ _ _. tt) m refl

  pub touch_elsewhere : Undisturbed (touch_key now key m).1
  touch_elsewhere =
      touch_keeps j now key Undisturbed (λ _. Unit) (λ _ _ h. h) (λ m' _. removed m')
        (λ m' s _ _. inserted s m') (λ _ _ _ _. tt) (λ _ _. tt) m refl

  pub delete_elsewhere : Undisturbed (delete_key key m).1
  delete_elsewhere =
      delete_keeps j now key Undisturbed (λ _. Unit) (λ _ _ h. h) (λ m' _. removed m')
        (λ m' s _ _. inserted s m') (λ _ _ _ _. tt) (λ _ _. tt) m refl

-- Whatever is published, read, touched or deleted at one session's key, the entry of another session
-- is as it was, where the namespaces of both have no NUL.
pub sessions_are_isolated :
    {V : Type 0} (j : Json V) (now : ℕ) (key other : SessionKey) (p : SessionPrefix V)
    (m : MemorySessionStore V)
    → HasNoNul key.namespace
    → HasNoNul other.namespace
    → key ≢ other
    → (lookup (storage_key other) (publish_key j now key p m).1.inner
        ≡ lookup (storage_key other) m.inner)
      × (lookup (storage_key other) (get_key now key m).1.inner
          ≡ lookup (storage_key other) m.inner)
      × (lookup (storage_key other) (touch_key now key m).1.inner
          ≡ lookup (storage_key other) m.inner)
      × (lookup (storage_key other) (delete_key key m).1.inner ≡ lookup (storage_key other) m.inner)
sessions_are_isolated j now key other p m hk ho differ =
    let apart : text_eq (storage_key key) (storage_key other) ≡ false =
      elim (Bool-cases (text_eq (storage_key key) (storage_key other))) [
        | inl e ↦ absurd (differ (storage_key_injective key other hk ho ((text_eq_iff _ _).0 e)))
        | inr e ↦ e
      ] in
    (
      publish_elsewhere j now key _ apart m p,
      get_elsewhere j now key _ apart m,
      touch_elsewhere j now key _ apart m,
      delete_elsewhere j now key _ apart m,
    )
