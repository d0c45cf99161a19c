-- ===== src/Session/Limits.antt =====
-- unigateway-session/src/store.rs: stored prefixes and the limits on their size.
-- A message is a `serde_json::Value`, which is not this repository's: its type, its equality and the
-- length of its serialization are a parameter.
use unigateway.Prelude.{
  ℕ, ◌==◌, Bool, true, false, ◌&&◌, Option, none, some, List, [], ◌∷◌, length, ltb, if◌then◌else◌,
  is_some, Result, ok, err, ◌>>=◌, ◌>>◌, ◌≡◌, refl, ==_iff,
}
use unigateway.Prelude.Text.{Text, text_eq}
use unigateway.Prelude.Dict.{text_eq_refl}
use unigateway.Session.Keys.{
  SessionKey, SessionError, Fingerprint, prefix_too_large, tail_too_large, assembled_too_large,
  invalid_context,
}

-- `PartialEq` of a value, the length of `to_vec` or the text of its error, `Value::as_array` and
-- `Value::Array`.
pub record Json (V : Type 0) : Type 0 where
  pub same : V → V → Bool
  pub bytes : List V → Result ℕ Text
  pub as_array : V → Option (List V)
  pub array : List V → V

-- `Value` is `Eq`.
pub record IsJson {V : Type 0} (j : Json V) : Type 0 where
  pub same_refl : (v : V) → j.same v v ≡ true

pub record SessionSizeLimits : Type 0 where
  pub max_messages : Option ℕ
  pub max_prefix_bytes : Option ℕ
  pub max_tail_bytes : Option ℕ
  pub max_assembled_bytes : Option ℕ

abbrev pub no_limits : SessionSizeLimits
no_limits = record {
  max_messages = none;
  max_prefix_bytes = none;
  max_tail_bytes = none;
  max_assembled_bytes = none;
}

pub record SessionPrefix (V : Type 0) : Type 0 where
  pub epoch : ℕ
  pub messages : List V
  pub pinned_boundary : Option ℕ
  pub fingerprint : Option Fingerprint
  pub message_count : Option ℕ

-- `Result<(), SessionError>`
abbrev pub Checked : Type 0
Checked = Result {0, 0} Unit SessionError

-- The derived `PartialEq` of options and of fingerprints.
unfoldable pub option_eq : {A : Type 0} → (A → A → Bool) → Option A → Option A → Bool
option_eq eq none none = true
option_eq eq (some a) (some b) = eq a b
option_eq eq _ _ = false

abbrev pub fingerprint_eq : Fingerprint → Fingerprint → Bool
fingerprint_eq a b = text_eq a.algorithm b.algorithm && text_eq a.value b.value

module _ {V : Type 0} where
  unfoldable pub message_json_bytes : Json V → List V → Result ℕ SessionError
  message_json_bytes j messages = elim (j.bytes messages) [
    | ok n ↦ ok n
    | err e ↦ err (invalid_context e)
  ]

  -- One limit in bytes, with the error that it raises.
  unfoldable pub within : Json V → Option ℕ → (ℕ → ℕ → SessionError) → List V → Checked
  within j none too_large messages = ok tt
  within j (some limit) too_large messages = message_json_bytes j messages >>= λ actual.
      if ltb limit actual then err (too_large limit actual) else ok tt

  unfoldable pub validate_prefix : Json V → SessionSizeLimits → SessionKey → List V → Checked
  validate_prefix j limits key messages =
      (elim limits.max_messages [
        | none ↦ ok tt
        | some limit ↦
            if ltb limit (length messages)
            then err (prefix_too_large key limit (length messages))
            else ok tt
      ])
      >> within j limits.max_prefix_bytes (prefix_too_large key) messages

  unfoldable pub validate_tail : Json V → SessionSizeLimits → SessionKey → List V → Checked
  validate_tail j limits key = within j limits.max_tail_bytes (tail_too_large key)

  unfoldable pub validate_assembled : Json V → SessionSizeLimits → SessionKey → List V → Checked
  validate_assembled j limits key = within j limits.max_assembled_bytes (assembled_too_large key)

  unfoldable pub normalize : SessionPrefix V → SessionPrefix V
  normalize p =
      if is_some p.message_count then p else record p { message_count = some (length p.messages) }

  -- The derived `PartialEq`.
  unfoldable pub all_same : (V → V → Bool) → List V → List V → Bool
  all_same same [] [] = true
  all_same same (x ∷ xs) (y ∷ ys) = same x y && all_same same xs ys
  all_same same _ _ = false

  unfoldable pub prefix_eq : Json V → SessionPrefix V → SessionPrefix V → Bool
  prefix_eq j p q =
      (p.epoch == q.epoch)
      && (all_same j.same p.messages q.messages
          && (option_eq (λ a b. a == b) p.pinned_boundary q.pinned_boundary
              && (option_eq fingerprint_eq p.fingerprint q.fingerprint
                  && option_eq (λ a b. a == b) p.message_count q.message_count)))

option_eq_refl :
    {A : Type 0} (eq : A → A → Bool) (o : Option A)
    → ((a : A) → eq a a ≡ true)
    → option_eq eq o o ≡ true
unfolding option_eq
option_eq_refl eq none h = refl
option_eq_refl eq (some a) h = h a

all_same_refl :
    {V : Type 0} (same : V → V → Bool) (l : List V)
    → ((v : V) → same v v ≡ true)
    → all_same same l l ≡ true
unfolding all_same
all_same_refl same [] h = refl
all_same_refl same (v ∷ l) h = rw (h v) (all_same_refl same l h)

pub prefix_eq_refl :
    {V : Type 0} (j : Json V) → IsJson j → (p : SessionPrefix V) → prefix_eq j p p ≡ true
unfolding prefix_eq
prefix_eq_refl j law p =
    let nat_refl : (n : ℕ) → (n == n) ≡ true = λ n. (==_iff n n).1 refl in
    rw
      (
        nat_refl p.epoch,
        all_same_refl j.same p.messages law.same_refl,
        option_eq_refl (λ a b. a == b) p.pinned_boundary nat_refl,
        option_eq_refl fingerprint_eq p.fingerprint
            (λ f. rw (text_eq_refl f.algorithm) (text_eq_refl f.value)),
      )
      (option_eq_refl (λ a b. a == b) p.message_count nat_refl)
