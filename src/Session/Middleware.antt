-- ===== src/Session/Middleware.antt =====
-- unigateway-session/src/middleware.rs: a delta request is completed by the stored prefix.
-- The store is the in-memory one. The payload under the session field is read by serde_json, whose
-- result is an argument; so is the text of an error. `now` is read twice, by the store's `get_key`
-- and `touch_key`.
pub mod Assembly
use unigateway.Prelude.{
  ℕ, ◌==◌, ◌-◌, ◌^◌, Bool, true, false, Option, none, some, List, [], ◌∷◌, ◌++◌, length,
  if◌then◌else◌, Result, ok, err, ◌>>=◌, ◌>>◌,
}
use unigateway.Prelude.Text.{Text, codes}
use unigateway.Session.Keys.{
  SessionKey, Fingerprint, FingerprintPolicy, fingerprints_match, SessionError, not_found,
  epoch_mismatch, tail_start_mismatch, invalid_context, SizeRejectKind, SessionLifecycleEvent,
  delta_miss, delta_hit, size_rejected, tail_mismatch,
}
use unigateway.Session.Limits.{
  Json, Checked, SessionSizeLimits, SessionPrefix, validate_tail, validate_assembled,
}
use unigateway.Session.Store.{MemorySessionStore, Outcome, get_key, touch_key}

pub data SessionDelivery : Type 0 where
  full delta : SessionDelivery

pub data TailPositionPolicy : Type 0 where
  ignore optional exact_prefix_length : TailPositionPolicy

pub record SessionGatewayContext : Type 0 where
  pub session_id : Text
  pub epoch : ℕ
  pub delivery : SessionDelivery
  pub fingerprint : Option Fingerprint
  pub prefix_hash : Option Text
  pub tail_start : Option ℕ

unfoldable pub request_fingerprint : SessionGatewayContext → Option Fingerprint
request_fingerprint ctx = elim ctx.fingerprint [
  | some f ↦ some f
  | none ↦ elim ctx.prefix_hash [
    | none ↦ none
    | some value ↦ some (record { algorithm = []; value = value })
  ]
]

-- The resolver is given the host, which is one for the middleware.
pub record SessionMiddlewareConfig : Type 0 where
  pub tail_position_policy : TailPositionPolicy
  pub fingerprint_policy : FingerprintPolicy
  pub size_limits : SessionSizeLimits
  pub touch_on_delta : Bool
  pub has_hook : Bool
  pub key_resolver : SessionGatewayContext → SessionKey

abbrev matched : SessionKey → Fingerprint → Fingerprint → Checked
matched key stored request =
    if fingerprints_match stored request then ok tt else err (SessionError.fingerprint_mismatch key)

unfoldable pub validate_fingerprint :
    FingerprintPolicy → SessionKey → (stored request : Option Fingerprint) → Checked
validate_fingerprint FingerprintPolicy.disabled key stored request = ok tt
validate_fingerprint FingerprintPolicy.optional key (some stored) (some request) =
    matched key stored request
validate_fingerprint FingerprintPolicy.optional key _ _ = ok tt
validate_fingerprint FingerprintPolicy.required key stored none =
    err (invalid_context (codes "fingerprint required"))
validate_fingerprint FingerprintPolicy.required key none (some request) =
    err (invalid_context (codes "stored fingerprint missing"))
validate_fingerprint FingerprintPolicy.required key (some stored) (some request) =
    matched key stored request

abbrev at_length : SessionKey → ℕ → ℕ → Checked
at_length key prefix_len actual =
    if actual == prefix_len then ok tt else err (tail_start_mismatch key prefix_len actual)

unfoldable pub validate_tail_start :
    TailPositionPolicy → SessionKey → (prefix_len : ℕ) → Option ℕ → Checked
validate_tail_start TailPositionPolicy.ignore key prefix_len tail_start = ok tt
validate_tail_start TailPositionPolicy.optional key prefix_len none = ok tt
validate_tail_start TailPositionPolicy.optional key prefix_len (some actual) =
    at_length key prefix_len actual
validate_tail_start TailPositionPolicy.exact_prefix_length key prefix_len none =
    err (tail_start_mismatch key prefix_len (2 ^ 64 - 1))
validate_tail_start TailPositionPolicy.exact_prefix_length key prefix_len (some actual) =
    at_length key prefix_len actual

-- The event for an error of each check, where it is of the kind that the source looks for.
abbrev pub fingerprint_event : SessionKey → SessionError → List SessionLifecycleEvent
fingerprint_event key (SessionError.fingerprint_mismatch _) =
    SessionLifecycleEvent.fingerprint_mismatch key ∷ []
fingerprint_event key e = []

abbrev pub tail_event : SessionKey → SessionError → List SessionLifecycleEvent
tail_event key (SessionError.tail_start_mismatch _ _ _) = tail_mismatch key ∷ []
tail_event key e = []

abbrev pub size_event : SessionKey → SizeRejectKind → SessionError → List SessionLifecycleEvent
size_event key SizeRejectKind.tail (SessionError.tail_too_large _ _ _) =
    size_rejected key SizeRejectKind.tail ∷ []
size_event key SizeRejectKind.assembled (SessionError.assembled_too_large _ _ _) =
    size_rejected key SizeRejectKind.assembled ∷ []
size_event key kind e = []

abbrev pub map_err : {A : Type 0} {E : Type 0} {F : Type 0} → (E → F) → Result A E → Result A F
map_err f (ok a) = ok a
map_err f (err e) = err (f e)

-- What a chat request changes: its raw messages, the store, and the events of the middleware's hook.
pub record Exchange (V : Type 0) : Type 0 where
  pub raw_messages : Option V
  pub store : MemorySessionStore V
  pub events : List SessionLifecycleEvent

module _ {V : Type 0} (j : Json V) (c : SessionMiddlewareConfig) where
  abbrev emit : List SessionLifecycleEvent → Exchange V → Exchange V
  emit new x = record x { events = if c.has_hook then x.events ++ new else x.events }

  unfoldable pub raw_tail_messages : Option V → Result (List V) SessionError
  raw_tail_messages none = err (
      invalid_context (
        codes
          "delta assembly requires raw_messages; simplified messages cannot be preserved losslessly"))
  raw_tail_messages (some raw) = elim (j.as_array raw) [
    | none ↦ err (
        invalid_context (
          codes
            "delta assembly requires raw_messages; simplified messages cannot be preserved losslessly"))
    | some tail ↦ ok tail
  ]

  -- The checks in their order; the first error, with its events, or the messages.
  unfoldable pub assembled :
      SessionKey
      → SessionGatewayContext
      → SessionPrefix V
      → Option V
      → Result (List V) (SessionError × List SessionLifecycleEvent)
  assembled key ctx stored raw =
      (if stored.epoch == ctx.epoch
        then ok tt
        else err (epoch_mismatch key stored.epoch ctx.epoch, []))
      >> (map_err (λ e. (e, fingerprint_event key e))
            (validate_fingerprint c.fingerprint_policy key stored.fingerprint
              (request_fingerprint ctx))
          >> (map_err (λ e. (e, tail_event key e))
                (validate_tail_start c.tail_position_policy key (length stored.messages)
                  ctx.tail_start)
              >> (map_err (λ e. (e, [])) (raw_tail_messages raw) >>= λ tail.
                  map_err (λ e. (e, size_event key SizeRejectKind.tail e))
                    (validate_tail j c.size_limits key tail)
                  >> (map_err (λ e. (e, size_event key SizeRejectKind.assembled e))
                        (validate_assembled j c.size_limits key (stored.messages ++ tail))
                      >> ok (stored.messages ++ tail)))))

  -- `if self.config.touch_on_delta { self.store.touch_key(&key)?; }`
  abbrev pub touch_if : Bool → (now : ℕ) → SessionKey → Exchange V → Checked × Exchange V
  touch_if false now key x = (ok tt, x)
  touch_if true now key x = let (r, m) = touch_key now key x.store in (r, record x { store = m })

  unfoldable pub deliver :
      (now : ℕ)
      → SessionKey
      → SessionGatewayContext
      → Result (List V) (SessionError × List SessionLifecycleEvent)
      → Exchange V
      → Checked × Exchange V
  deliver now key ctx (err (e, events)) x = (err e, emit events x)
  deliver now key ctx (ok merged) x =
      let x' =
        emit (delta_hit key ctx.epoch ∷ []) (record x { raw_messages = some (j.array merged) }) in
      touch_if c.touch_on_delta now key x'

  unfoldable pub on_stored :
      (now : ℕ)
      → SessionKey
      → SessionGatewayContext
      → Outcome V (Option (SessionPrefix V))
      → Exchange V
      → Checked × Exchange V
  on_stored now key ctx (err e, m) x = (err e, record x { store = m })
  on_stored now key ctx (ok none, m) x =
      (err (not_found key), emit (delta_miss key ∷ []) (record x { store = m }))
  on_stored now key ctx (ok (some stored), m) x =
      deliver now key ctx (assembled key ctx stored x.raw_messages) (record x { store = m })

  unfoldable pub assemble_delta :
      (now later : ℕ) → SessionGatewayContext → Exchange V → Checked × Exchange V
  assemble_delta now later ctx x =
      let key = c.key_resolver ctx in on_stored later key ctx (get_key now key x.store) x

  -- The outer result's error is `CoreInvalidRequest` of the text.
  unfoldable pub on_chat_request :
      (SessionError → Text)
      → (now later : ℕ) → Result (Option SessionGatewayContext) Text
      → Exchange V
      → Result {0, 0} Unit Text × Exchange V
  on_chat_request display now later (err invalid) x = (err invalid, x)
  on_chat_request display now later (ok none) x = (ok tt, x)
  on_chat_request display now later (ok (some ctx)) x = elim ctx.delivery [
    | SessionDelivery.full ↦ (ok tt, x)
    | SessionDelivery.delta ↦
        let (r, x') = assemble_delta now later ctx x in
        (elim r [ ok _ ↦ ok tt | err e ↦ err (display e) ], x')
  ]
