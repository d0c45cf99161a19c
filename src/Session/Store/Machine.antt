-- ===== src/Session/Store/Machine.antt =====
-- Sequences of operations of the session store, each with the time that it reads.
use unigateway.Prelude.{ℕ, ◌≡◌, refl, Bool, true, false, List, [], ◌∷◌, length, if◌then◌else◌, ok}
use unigateway.Session.Lifetime.{is_enabled}
use unigateway.Session.Keys.{SessionKey}
use unigateway.Session.Limits.{Json, SessionPrefix}
use unigateway.Session.Store.{
  MemorySessionStore, publish_key, get_key, touch_key, delete_key, purge_expired, drop_keys,
  expired_keys, under_lock, Outcome,
}
use unigateway.Session.Store.Rule.{publish_keeps, get_keeps, touch_keeps, delete_keeps}

pub data Operation (V : Type 0) : Type 0 where
  publish : SessionKey → SessionPrefix V → Operation V
  get touch delete : SessionKey → Operation V
  purge : Operation V

module _ {V : Type 0} where
  -- The store that an operation leaves, whether it succeeds or fails.
  abbrev pub perform : Json V → ℕ → Operation V → MemorySessionStore V → MemorySessionStore V
  perform j now (Operation.publish key p) m = (publish_key j now key p m).1
  perform j now (Operation.get key) m = (get_key now key m).1
  perform j now (Operation.touch key) m = (touch_key now key m).1
  perform j now (Operation.delete key) m = (delete_key key m).1
  perform j now Operation.purge m = (purge_expired now m).1

  unfoldable pub run : Json V → List (ℕ × Operation V) → MemorySessionStore V → MemorySessionStore V
  run j [] m = m
  run j ((now, op) ∷ ops) m = run j ops (perform j now op m)

  purge-config :
      (keys : List SessionKey) (m : MemorySessionStore V) → (drop_keys keys m).config ≡ m.config
  unfolding drop_keys
  purge-config [] m = refl
  purge-config (key ∷ keys) m = purge-config keys _

  purge_expired-config :
      (now : ℕ) (m : MemorySessionStore V) → (purge_expired now m).1.config ≡ m.config
  unfolding purge_expired
  purge_expired-config now m = go (is_enabled m.config.lifetime) m.poisoned
    where
      go :
          (b locked : Bool)
          → let r : Outcome V ℕ =
              if b
              then under_lock locked m
                  (ok (length (expired_keys now m)), drop_keys (expired_keys now m) m)
              else (ok 0, m) in
            r.1.config ≡ m.config
      go true true = refl
      go true false = purge-config _ m
      go false locked = refl

  pub perform-config :
      (j : Json V) (now : ℕ) (op : Operation V) (m : MemorySessionStore V)
      → (perform j now op m).config ≡ m.config
  perform-config j now (Operation.publish key p) m =
      publish_keeps j now key (λ m'. m'.config ≡ m.config) (λ _. Unit) (λ _ _ h. h) (λ _ _ h. h)
        (λ _ _ _ _ h. h) (λ _ _ _ _. tt) (λ _ _. tt) p m (λ _. tt) refl
  perform-config j now (Operation.get key) m =
      get_keeps j now key (λ m'. m'.config ≡ m.config) (λ _. Unit) (λ _ _ h. h) (λ _ _ h. h)
        (λ _ _ _ _ h. h) (λ _ _ _ _. tt) (λ _ _. tt) m refl
  perform-config j now (Operation.touch key) m =
      touch_keeps j now key (λ m'. m'.config ≡ m.config) (λ _. Unit) (λ _ _ h. h) (λ _ _ h. h)
        (λ _ _ _ _ h. h) (λ _ _ _ _. tt) (λ _ _. tt) m refl
  perform-config j now (Operation.delete key) m =
      delete_keeps j now key (λ m'. m'.config ≡ m.config) (λ _. Unit) (λ _ _ h. h) (λ _ _ h. h)
        (λ _ _ _ _ h. h) (λ _ _ _ _. tt) (λ _ _. tt) m refl
  perform-config j now Operation.purge m = purge_expired-config now m
