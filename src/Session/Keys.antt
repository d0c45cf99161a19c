-- ===== src/Session/Keys.antt =====
-- unigateway-session/src/store.rs and lifecycle.rs: the keys of sessions, fingerprints, errors and
-- lifecycle events.
use unigateway.Prelude.{
  ℕ, ◌==◌, ◌≡◌, refl, sym, ap, Bool, true, false, not, ◌&&◌, Option, none, some, [], ◌∷◌, ◌++◌,
  is_empty, if◌then◌else◌, any, inl, inr, ◌∙◌, Bool-cases, ==_iff, arith,
}
use unigateway.Prelude.Text.{Text, codes, text_eq, split_once}

pub record SessionKey : Type 0 where
  pub namespace : Text
  pub session_id : Text

abbrev pub default_namespace : Text → SessionKey
default_namespace session_id = record { namespace = codes "default"; session_id = session_id }

-- `format!("{}\0{}", namespace, session_id)`
unfoldable pub storage_key : SessionKey → Text
storage_key k = k.namespace ++ 0 ∷ k.session_id

abbrev parsed : Text → Option (Text × Text) → SessionKey
parsed s none = default_namespace s
parsed s (some (namespace, session_id)) = record { namespace = namespace; session_id = session_id }

unfoldable pub parse_storage_key : Text → SessionKey
parse_storage_key s = parsed s (split_once 0 s)

pub record Fingerprint : Type 0 where
  pub algorithm : Text
  pub value : Text

-- Algorithms are compared where both are named.
unfoldable pub fingerprints_match : Fingerprint → Fingerprint → Bool
fingerprints_match stored request =
    if not (is_empty stored.algorithm)
      && (not (is_empty request.algorithm) && not (text_eq stored.algorithm request.algorithm))
    then false
    else text_eq stored.value request.value

pub data FingerprintPolicy : Type 0 where
  disabled optional required : FingerprintPolicy

pub data PublishResult : Type 0 where
  created replaced already_current : PublishResult

pub data SessionError : Type 0 where
  not_found expired : SessionKey → SessionError
  stale_epoch : SessionKey → (existing_epoch attempted_epoch : ℕ) → SessionError
  epoch_conflict : SessionKey → (epoch : ℕ) → SessionError
  epoch_mismatch : SessionKey → (expected_epoch actual_epoch : ℕ) → SessionError
  fingerprint_mismatch : SessionKey → SessionError
  tail_start_mismatch : SessionKey → (expected actual : ℕ) → SessionError
  prefix_too_large tail_too_large assembled_too_large :
      SessionKey → (limit actual : ℕ) → SessionError
  invalid_context unavailable : Text → SessionError

pub data SizeRejectKind : Type 0 where
  prefix tail assembled : SizeRejectKind

pub data SessionLifecycleEvent : Type 0 where
  publish_created publish_replaced :
      SessionKey → (epoch message_count bytes : ℕ) → SessionLifecycleEvent
  publish_idempotent : SessionKey → (epoch : ℕ) → SessionLifecycleEvent
  stale_publish : SessionKey → (existing_epoch attempted_epoch : ℕ) → SessionLifecycleEvent
  epoch_conflict : SessionKey → (epoch : ℕ) → SessionLifecycleEvent
  delta_hit : SessionKey → (epoch : ℕ) → SessionLifecycleEvent
  delta_miss session_expired session_deleted fingerprint_mismatch tail_mismatch :
      SessionKey → SessionLifecycleEvent
  size_rejected : SessionKey → SizeRejectKind → SessionLifecycleEvent
  store_unavailable : SessionLifecycleEvent

unfoldable pub from_publish_result :
    SessionKey → PublishResult → (epoch message_count bytes : ℕ) → SessionLifecycleEvent
from_publish_result k PublishResult.created epoch count bytes =
    SessionLifecycleEvent.publish_created k epoch count bytes
from_publish_result k PublishResult.replaced epoch count bytes =
    SessionLifecycleEvent.publish_replaced k epoch count bytes
from_publish_result k PublishResult.already_current epoch count bytes =
    SessionLifecycleEvent.publish_idempotent k epoch

-- A host keeps NUL out of its namespaces.
abbrev pub HasNoNul : Text → Type 0
HasNoNul s = any (λ c. c == 0) s ≡ false

split_once_first : (a b : Text) → HasNoNul a → split_once 0 (a ++ 0 ∷ b) ≡ some (a, b)
unfolding split_once
split_once_first [] b h = refl
split_once_first (c ∷ a) b h = elim (Bool-cases (c == 0)) [
  | inl e ↦ ground arith
  | inr e ↦ rw (e, split_once_first a b (ground arith)) refl
]

split_once_joins :
    (s : Text)
    → any (λ c. c == 0) s ≡ true
    → (a : Text) × (b : Text) × (split_once 0 s ≡ some (a, b)) × (a ++ 0 ∷ b ≡ s)
unfolding split_once
split_once_joins [] h = cc
split_once_joins (c ∷ s) h = elim (Bool-cases (c == 0)) [
  | inl e ↦ ([], s, rw e refl, rw ((==_iff c 0).0 e) refl)
  | inr e ↦
      let (a, b, cut, joined) = split_once_joins s (ground arith) in
      (c ∷ a, b, rw (e, cut) refl, rw joined refl)
]

-- Reading back the storage key of a session gives the session's key, if its namespace has no NUL.
pub parse_storage_key-storage_key :
    (k : SessionKey) → HasNoNul k.namespace → parse_storage_key (storage_key k) ≡ k
unfolding parse_storage_key storage_key
parse_storage_key-storage_key k h =
    ap (parsed (storage_key k)) (split_once_first k.namespace k.session_id h)

-- No two sessions share a storage key, if the namespaces have no NUL: the namespace separates them.
pub storage_key_injective :
    (k j : SessionKey)
    → HasNoNul k.namespace
    → HasNoNul j.namespace
    → storage_key k ≡ storage_key j
    → k ≡ j
storage_key_injective k j hk hj e =
    sym (parse_storage_key-storage_key k hk)
    ∙ (ap parse_storage_key e ∙ parse_storage_key-storage_key j hj)

any_after : (a b : Text) → any (λ c. c == 0) (a ++ 0 ∷ b) ≡ true
any_after [] b = refl
any_after (c ∷ a) b = ground (arith, any_after a b)

-- The storage key of any session's key, NUL in the namespace or not, survives being read and written.
pub storage_key-parse_storage_key :
    (k : SessionKey) → storage_key (parse_storage_key (storage_key k)) ≡ storage_key k
unfolding parse_storage_key storage_key
storage_key-parse_storage_key k =
    let (a, b, cut, joined) =
      split_once_joins (k.namespace ++ 0 ∷ k.session_id) (any_after k.namespace k.session_id) in
    rw (cut, parse_storage_key) joined
