-- ===== src/Core/Json.antt =====
-- What the conversions read of a `serde_json::Value`, which is not this repository's.
use unigateway.Prelude.{ℕ, ◌≡◌, Option, none, List}
use unigateway.Prelude.Text.{Text}

-- `Value::get`, `Value::as_str`, `Value::as_array`, `Value::as_u64` and `json!({})`.
pub record JsonValue (V : Type 0) : Type 0 where
  pub get : V → Text → Option V
  pub as_str : V → Option Text
  pub as_array : V → Option (List V)
  pub as_u64 : V → Option ℕ
  pub empty_object : V

-- An object without members has no member.
pub record IsJsonValue {V : Type 0} (J : JsonValue V) : Type 0 where
  pub get-empty : (key : Text) → J.get J.empty_object key ≡ none
