-- ===== src/Tests/Sessions.antt =====
-- The theorems on sessions at concrete inputs. A message is a text, an array is the texts of its
-- characters, and a message is as long as its text.
use unigateway.Prelude.{
  ℕ, ◌≡◌, ◌≢◌, refl, ap, true, false, none, some, List, [], ◌∷◌, length, map, ok, err, arith,
}
use unigateway.Prelude.Text.{Text, codes, text_eq, join, split_once}
use unigateway.Prelude.Dict.{lookup, Distinct, text_eq_refl}
use unigateway.Session.Lifetime.{
  SessionLifetime, is_session_expired, duration_since, outlasted, expiry_lasts,
}
use unigateway.Session.Keys.{
  SessionKey, epoch_mismatch, PublishResult, FingerprintPolicy, storage_key, parse_storage_key,
  parse_storage_key-storage_key, storage_key_injective,
}
use unigateway.Session.Limits.{
  Json, IsJson, no_limits, SessionPrefix, normalize, validate_prefix, within, message_json_bytes,
  validate_tail, validate_assembled,
}
use unigateway.Session.Store.{
  SessionStoreConfig, MemorySessionStore, with_config, new_session, publish_key, get_key, touch_key,
  delete_key, purge_expired, publish_checked, publish_locked, remove_if_expired, publish_over,
  get_found, live_entry,
}
use unigateway.Session.Store.Machine.{Operation, run}
use unigateway.Session.Store.Isolation.{sessions_are_isolated}
use unigateway.Session.Store.Epochs.{Advanced, epochs_only_grow}
use unigateway.Session.Store.Purging.{IsStorageKey, still_live, purge_removes_expired}
use unigateway.Session.Store.Soundness.{IsSound, reachable-IsSound}
use unigateway.Session.Store.Publishing.{Serves, publish-get}
use unigateway.Session.Middleware.{
  SessionDelivery, SessionGatewayContext, SessionMiddlewareConfig, TailPositionPolicy, Exchange,
  assemble_delta, on_stored, assembled, validate_fingerprint, request_fingerprint,
  validate_tail_start, raw_tail_messages, deliver,
}
use unigateway.Session.Middleware.Assembly.{
  Accepted, assemble_delta-Accepted, assemble_delta-Rejected,
}

abbrev json : Json Text
json = record {
  same = text_eq;
  bytes = λ l. ok (length (join [] l));
  as_array = λ t. some (map (λ c. c ∷ []) t);
  array = join [];
}

json-IsJson : IsJson json
json-IsJson = record { same_refl = text_eq_refl }

abbrev lasting : SessionLifetime
lasting = record { idle_ttl = none; max_lifetime = none; touch_on_read = true }

abbrev short : SessionLifetime
short = record { idle_ttl = some 60; max_lifetime = none; touch_on_read = true }

expired_then : is_session_expired 0 100 short 161 ≡ true
unfolding is_session_expired outlasted duration_since
expired_then = refl

expiry_lasts_example : is_session_expired 0 100 short 500 ≡ true
expiry_lasts_example = expiry_lasts 0 100 161 500 short (omega arith) expired_then

abbrev alice : SessionKey
alice = record { namespace = codes "a"; session_id = codes "s" }

abbrev bob : SessionKey
bob = record { namespace = codes "b"; session_id = codes "s" }

parse_storage_key-storage_key_example : parse_storage_key (storage_key alice) ≡ alice
parse_storage_key-storage_key_example = parse_storage_key-storage_key alice refl

storage_key_injective_example : alice ≡ alice
storage_key_injective_example = storage_key_injective alice alice refl refl refl

abbrev config : SessionLifetime → SessionStoreConfig
config l = record { size_limits = no_limits; lifetime = l; has_hook = true }

abbrev prefix : ℕ → SessionPrefix Text
prefix epoch = record {
  epoch = epoch;
  messages = codes "hi" ∷ [];
  pinned_boundary = none;
  fingerprint = none;
  message_count = some 1;
}

abbrev holding : SessionLifetime → MemorySessionStore Text
holding l = record (with_config (config l)) {
  inner = (storage_key alice, new_session (prefix 1) 100) ∷ [];
}

alice-bob : alice ≢ bob
unfolding text_eq
alice-bob e = let differ : false ≡ true = ap (λ k. text_eq k.namespace (codes "b")) e in cc

sessions_are_isolated_example :
    (lookup (storage_key bob) (publish_key json 120 alice (prefix 2) (holding short)).1.inner
      ≡ lookup (storage_key bob) (holding short).inner)
    × (lookup (storage_key bob) (get_key 120 alice (holding short)).1.inner
        ≡ lookup (storage_key bob) (holding short).inner)
    × (lookup (storage_key bob) (touch_key 120 alice (holding short)).1.inner
        ≡ lookup (storage_key bob) (holding short).inner)
    × (lookup (storage_key bob) (delete_key alice (holding short)).1.inner
        ≡ lookup (storage_key bob) (holding short).inner)
sessions_are_isolated_example =
    sessions_are_isolated json 120 alice bob (prefix 2) (holding short) refl refl alice-bob

abbrev later_operations : List (ℕ × Operation Text)
later_operations =
    (110, Operation.publish alice (prefix 2))
    ∷ (120, Operation.publish alice (prefix 1))
    ∷ (130, Operation.delete bob)
    ∷ []

alice_held : lookup (storage_key alice) (holding lasting).inner ≡ some (new_session (prefix 1) 100)
unfolding lookup storage_key text_eq
alice_held = refl

apart : text_eq (storage_key bob) (storage_key alice) ≡ false
unfolding storage_key text_eq
apart = refl

epochs_only_grow_example :
    Advanced json
      (new_session (prefix 1) 100)
      (lookup (storage_key alice) (run json later_operations (holding lasting)).inner)
epochs_only_grow_example =
    epochs_only_grow json (storage_key alice) later_operations (new_session (prefix 1) 100)
      (holding lasting) (tt, (tt, (apart, tt))) refl alice_held

held_key : IsStorageKey (storage_key alice)
unfolding storage_key parse_storage_key split_once
held_key = refl

held-Distinct : Distinct (holding short).inner
unfolding lookup
held-Distinct = (refl, tt)

purge_removes_expired_example :
    lookup (storage_key alice) (purge_expired 161 (holding short)).1.inner
    ≡ still_live short 161 (lookup (storage_key alice) (holding short).inner)
purge_removes_expired_example =
    purge_removes_expired 161 (storage_key alice) (holding short) refl (held_key, tt) held-Distinct

reachable-IsSound_example :
    IsSound json
      (config short)
      later_operations
      (run json later_operations (with_config (config short)))
reachable-IsSound_example = reachable-IsSound json (config short) later_operations

published : (publish_key json 120 alice (prefix 2) (holding short)).0 ≡ ok PublishResult.replaced
unfolding publish_key publish_checked validate_prefix within message_json_bytes publish_locked
    remove_if_expired lookup text_eq storage_key is_session_expired outlasted duration_since
    publish_over normalize
published = refl

publish-get_example :
    Serves json alice
      (normalize (prefix 2))
      150
      (publish_key json 120 alice (prefix 2) (holding short)).1
publish-get_example =
    publish-get json json-IsJson 120 150 alice (prefix 2) (holding short) PublishResult.replaced
      published

abbrev middleware : SessionMiddlewareConfig
middleware = record {
  tail_position_policy = TailPositionPolicy.exact_prefix_length;
  fingerprint_policy = FingerprintPolicy.optional;
  size_limits = no_limits;
  touch_on_delta = false;
  has_hook = true;
  key_resolver = λ ctx. alice;
}

abbrev context : ℕ → SessionGatewayContext
context epoch = record {
  session_id = codes "s";
  epoch = epoch;
  delivery = SessionDelivery.delta;
  fingerprint = none;
  prefix_hash = none;
  tail_start = some 1;
}

abbrev exchange : Exchange Text
exchange = record { raw_messages = some (codes "yo"); store = holding short; events = [] }

delta_works : (assemble_delta json middleware 120 121 (context 1) exchange).0 ≡ ok tt
unfolding assemble_delta get_key get_found live_entry remove_if_expired lookup text_eq storage_key
    is_session_expired outlasted duration_since on_stored assembled validate_fingerprint
    request_fingerprint validate_tail_start raw_tail_messages validate_tail validate_assembled
    within deliver
delta_works = refl

assemble_delta-Accepted_example :
    (stored : SessionPrefix Text) × (merged : List Text) × ((get_key 120 alice (holding short)).0
      ≡ ok (some stored))
    × Accepted json middleware alice (context 1) stored (some (codes "yo")) merged
    × ((assemble_delta json middleware 120 121 (context 1) exchange).1.raw_messages
        ≡ some (join [] merged))
assemble_delta-Accepted_example =
    assemble_delta-Accepted json middleware 120 121 (context 1) exchange delta_works

delta_fails :
    (assemble_delta json middleware 120 121 (context 2) exchange).0 ≡ err (epoch_mismatch alice 1 2)
unfolding assemble_delta get_key get_found live_entry remove_if_expired lookup text_eq storage_key
    is_session_expired outlasted duration_since on_stored assembled validate_fingerprint
    request_fingerprint validate_tail_start raw_tail_messages validate_tail validate_assembled
    within deliver
delta_fails = refl

assemble_delta-Rejected_example :
    (assemble_delta json middleware 120 121 (context 2) exchange).1.raw_messages ≡ some (codes "yo")
assemble_delta-Rejected_example =
    assemble_delta-Rejected json middleware 120 121 (context 2) exchange (epoch_mismatch alice 1 2)
      refl delta_fails
