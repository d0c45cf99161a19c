-- ===== src/Config/ApiKeys.antt =====
-- unigateway-config/src/admin/api_keys.rs: the keys of the gateway's clients.
use unigateway.Prelude.{
  ℕ, true, Option, none, some, List, any, find, if◌then◌else◌, Result, ok, err, ◌==◌,
}
use unigateway.Prelude.Text.{Text, text_eq}
use unigateway.Prelude.Keyed.{update_first, upsert}
use unigateway.Config.Schema.{
  zero_i64, ApiKeyEntry, GatewayState, GatewayApiKey, AuthError, invalid_key, inactive_key,
}
use unigateway.Config.Admin.{
  Done, fails, saved, is_service, is_api_key, service_not_found, api_key_not_found,
}
use unigateway.Config.Select.{find_gateway_api_key}

unfoldable pub create_api_key :
    (key service_id : Text)
    → (quota_limit qps_limit concurrency_limit : Option ℕ) → GatewayState
    → GatewayState
unfolding upsert
create_api_key key service_id quota_limit qps_limit concurrency_limit s =
    let used : ℕ = elim (find (is_api_key key) s.config.file.api_keys) [
      | none ↦ zero_i64
      | some a ↦ a.used_quota
    ] in
    let entry : ApiKeyEntry = record {
      key = key;
      service_id = service_id;
      quota_limit = quota_limit;
      used_quota = used;
      is_active = true;
      qps_limit = qps_limit;
      concurrency_limit = concurrency_limit;
    } in
    saved
      (record s.config.file {
        api_keys = upsert (is_api_key key) (λ a. entry) entry s.config.file.api_keys;
      })
      s

abbrev pub rebound : Text → ApiKeyEntry → GatewayState → GatewayState
rebound service_id a s =
    if text_eq a.service_id service_id
    then s
    else saved
        (record s.config.file {
          api_keys =
              update_first (is_api_key a.key) (λ b. record b { service_id = service_id })
                s.config.file.api_keys;
        })
        s

unfoldable pub rebind_api_key_service : (key service_id : Text) → GatewayState → Done
rebind_api_key_service key service_id s =
    if any (is_service service_id) s.config.file.services
    then elim (find (is_api_key key) s.config.file.api_keys) [
      | none ↦ fails (api_key_not_found key) s
      | some a ↦ (ok tt, rebound service_id a s)
    ]
    else fails (service_not_found service_id) s

unfoldable pub authorize_readonly : Text → GatewayState → Result {0, 0} GatewayApiKey AuthError
unfolding find_gateway_api_key
authorize_readonly raw_key s = elim (find_gateway_api_key raw_key s) [
  | none ↦ err invalid_key
  | some key ↦ if key.is_active == 1 then ok key else err inactive_key
]

unfoldable pub list_api_keys : GatewayState → List ApiKeyEntry
list_api_keys s = s.config.file.api_keys
