-- ===== src/Session/Store/Soundness.antt =====
-- What holds of every store that the operations reach.
use mathlib.Core.List.{Memᴰ}
use unigateway.Prelude.{
  ℕ, ◌≡◌, refl, subst, Bool, true, false, some, List, [], ◌∷◌, length, All, is_some, if◌then◌else◌,
  ok, unwrap_or, inl, inr, Option-cases,
}
use unigateway.Prelude.Text.{Text}
use unigateway.Prelude.Dict.{
  lookup, insert, remove, Distinct, insert-Distinct, remove-Distinct, All-insert, All-remove,
  All-lookup,
}
use unigateway.Session.Lifetime.{is_enabled}
use unigateway.Session.Keys.{
  SessionLifecycleEvent, SessionKey, storage_key, storage_key-parse_storage_key,
}
use unigateway.Session.Limits.{Json, SessionPrefix, normalize, validate_prefix}
use unigateway.Session.Store.{
  MemorySessionStore, StoredSession, SessionStoreConfig, with_config, drop_keys, expired_keys,
  purge_expired, under_lock, Outcome,
}
use unigateway.Session.Store.Rule.{publish_keeps, get_keeps, touch_keeps, delete_keeps}
use unigateway.Session.Store.Machine.{Operation, perform, run}
use unigateway.Session.Store.Purging.{IsStorageKey}

module _ {V : Type 0} (j : Json V) (c : SessionStoreConfig) where
  -- A prefix that is stored under a storage key: one of the operations has published it for that
  -- key, it passed the limits, and its count of messages is the one given or else their number.
  pub record IsAdmitted (ops : List (ℕ × Operation V)) (k : Text) (p : SessionPrefix V)
      : Type 0 where
    pub key : SessionKey
    pub placed : storage_key key ≡ k
    pub now : ℕ
    pub source : SessionPrefix V
    pub published : Memᴰ (now, Operation.publish key source) ops
    pub valid : validate_prefix j c.size_limits key p.messages ≡ ok tt
    pub epoch : p.epoch ≡ source.epoch
    pub messages : p.messages ≡ source.messages
    pub counted : p.message_count ≡ some (unwrap_or source.message_count (length source.messages))

  abbrev pub AdmittedAt : List (ℕ × Operation V) → Text × StoredSession V → Type 0
  AdmittedAt ops (k, s) = IsStorageKey k × IsAdmitted ops k s.prefix

  pub record IsSound (ops : List (ℕ × Operation V)) (m : MemorySessionStore V) : Type 0 where
    pub configured : m.config ≡ c
    pub distinct : Distinct m.inner
    pub admitted : All (AdmittedAt ops) m.inner

  normalize-counted :
      (p : SessionPrefix V)
      → (normalize p).message_count ≡ some (unwrap_or p.message_count (length p.messages))
  unfolding normalize
  normalize-counted p = elim (Option-cases p.message_count) [
    | inl omitted ↦ rw omitted refl
    | inr (n, given) ↦ rw given refl
  ]

  normalize-kept :
      (p : SessionPrefix V)
      → ((normalize p).epoch ≡ p.epoch) × ((normalize p).messages ≡ p.messages)
  unfolding normalize
  normalize-kept p =
      elim (is_some p.message_count)
        as (λ b.
          ((if b then p else record p { message_count = some (length p.messages) }).epoch ≡ p.epoch)
          × ((if b then p else record p { message_count = some (length p.messages) }).messages
              ≡ p.messages)) [ true ↦ (refl, refl) | false ↦ (refl, refl) ]

  module _ (ops : List (ℕ × Operation V)) where
    module _ (now : ℕ) (key : SessionKey) where
      inserted :
          (m : MemorySessionStore V) (s : StoredSession V)
          → IsAdmitted ops (storage_key key) s.prefix
          → IsSound ops m
          → All (AdmittedAt ops) (insert (storage_key key) s m.inner)
      inserted m s q h =
          All-insert (AdmittedAt ops) (storage_key key) s m.inner
            (storage_key-parse_storage_key key, q) h.admitted

      found :
          (m : MemorySessionStore V) (s : StoredSession V)
          → lookup (storage_key key) m.inner ≡ some s
          → IsSound ops m
          → IsAdmitted ops (storage_key key) s.prefix
      found m s e h = (All-lookup (AdmittedAt ops) (storage_key key) s m.inner e h.admitted).1

      put-IsSound :
          (m : MemorySessionStore V) (s : StoredSession V) (l : List SessionLifecycleEvent)
          → IsAdmitted ops (storage_key key) s.prefix
          → IsSound ops m
          → IsSound ops (record m { inner = insert (storage_key key) s m.inner; events = l })
      put-IsSound m s l q h = record {
        configured = h.configured;
        distinct = insert-Distinct (storage_key key) s m.inner h.distinct;
        admitted = inserted m s q h;
      }

    removed-IsSound :
        (key : SessionKey) (m : MemorySessionStore V) (l : List SessionLifecycleEvent)
        → IsSound ops m
        → IsSound ops (record m { inner = remove (storage_key key) m.inner; events = l })
    removed-IsSound key m l h = record {
      configured = h.configured;
      distinct = remove-Distinct (storage_key key) m.inner h.distinct;
      admitted = All-remove (AdmittedAt ops) (storage_key key) m.inner h.admitted;
    }

    noted-IsSound :
        (m : MemorySessionStore V) (l : List SessionLifecycleEvent)
        → IsSound ops m
        → IsSound ops (record m { events = l })
    noted-IsSound m l h = record {
      configured = h.configured;
      distinct = h.distinct;
      admitted = h.admitted;
    }

    drop_keys-IsSound :
        (keys : List SessionKey) (m : MemorySessionStore V)
        → IsSound ops m
        → IsSound ops (drop_keys keys m)
    unfolding drop_keys
    drop_keys-IsSound [] m h = h
    drop_keys-IsSound (key ∷ keys) m h = drop_keys-IsSound keys _ (removed-IsSound key m _ h)

    purge_expired-IsSound :
        (now : ℕ) (m : MemorySessionStore V) → IsSound ops m → IsSound ops (purge_expired now m).1
    unfolding purge_expired
    purge_expired-IsSound now m h = either (is_enabled m.config.lifetime) m.poisoned
      where
        either :
            (b locked : Bool)
            → let r : Outcome V ℕ =
                if b
                then under_lock locked m
                    (ok (length (expired_keys now m)), drop_keys (expired_keys now m) m)
                else (ok 0, m) in
              IsSound ops r.1
        either true true = h
        either true false = drop_keys-IsSound (expired_keys now m) m h
        either false locked = h

    perform-IsSound :
        (now : ℕ) (op : Operation V) (m : MemorySessionStore V)
        → Memᴰ (now, op) ops
        → IsSound ops m
        → IsSound ops (perform j now op m)
    perform-IsSound now (Operation.publish key p) m done h =
        publish_keeps j now key (IsSound ops) (λ s. IsAdmitted ops (storage_key key) s.prefix)
          noted-IsSound (removed-IsSound key) (put-IsSound now key) (found now key) (λ _ q. q) p m
          (λ valid. record {
            key = key;
            placed = refl;
            now = now;
            source = p;
            published = done;
            epoch = (normalize-kept p).0;
            messages = (normalize-kept p).1;
            valid =
                subst (λ d. validate_prefix j d.size_limits key (normalize p).messages ≡ ok tt)
                  h.configured valid;
            counted = normalize-counted p;
          })
          h
    perform-IsSound now (Operation.get key) m done h =
        get_keeps j now key (IsSound ops) (λ s. IsAdmitted ops (storage_key key) s.prefix)
          noted-IsSound (removed-IsSound key) (put-IsSound now key) (found now key) (λ _ q. q) m h
    perform-IsSound now (Operation.touch key) m done h =
        touch_keeps j now key (IsSound ops) (λ s. IsAdmitted ops (storage_key key) s.prefix)
          noted-IsSound (removed-IsSound key) (put-IsSound now key) (found now key) (λ _ q. q) m h
    perform-IsSound now (Operation.delete key) m done h =
        delete_keeps j now key (IsSound ops) (λ s. IsAdmitted ops (storage_key key) s.prefix)
          noted-IsSound (removed-IsSound key) (put-IsSound now key) (found now key) (λ _ q. q) m h
    perform-IsSound now Operation.purge m done h = purge_expired-IsSound now m h

    run-IsSound :
        (later : List (ℕ × Operation V)) (m : MemorySessionStore V)
        → ((o : ℕ × Operation V) → Memᴰ o later → Memᴰ o ops)
        → IsSound ops m
        → IsSound ops (run j later m)
    unfolding run
    run-IsSound [] m all h = h
    run-IsSound ((now, op) ∷ later) m all h =
        run-IsSound later _ (λ o i. all o (Memᴰ.tail i))
          (perform-IsSound now op m (all (now, op) (Memᴰ.head refl)) h)

  -- After any sequence of operations on a new store, every stored prefix is one that an operation
  -- of the sequence has published, for the session whose storage key it stands under; it has the
  -- epoch and the messages that were published, which the configured limits admit; its count of
  -- messages is the count that the publisher gave, or their number where it gave none; and no key
  -- has two entries.
  pub reachable-IsSound : (ops : List (ℕ × Operation V)) → IsSound ops (run j ops (with_config c))
  reachable-IsSound ops =
      run-IsSound ops ops (with_config c) (λ o i. i)
        (record { configured = refl; distinct = tt; admitted = tt })
