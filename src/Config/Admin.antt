-- ===== src/Config/Admin.antt =====
-- unigateway-config/src/admin/mutations.rs. Each operation is what it does under its lock, a
-- `provider_id` its cast to `usize`. An operation that fails leaves the state as it was.
use unigateway.Prelude.{
  ℕ, zero, suc, ◌+◌, Bool, true, not, ◌&&◌, Option, none, some, List, [], ◌∷◌, ◌++◌, any, keep,
  length, get_elem?, if◌then◌else◌, is_empty, unwrap_or, Result, ok, err, ltb, ◌==◌,
}
use unigateway.Prelude.Text.{Text, codes, text_eq, trim}
use unigateway.Prelude.Keyed.{update_first, upsert}
use unigateway.Core.ToolCalls.Arguments.{ends_with}
use unigateway.Config.Schema.{
  zero_i64, ServiceEntry, default_round_robin, ProviderEntry, ProviderModelOptions, BindingEntry,
  ApiKeyEntry, GatewayConfigFile, GatewayState,
}

pub data AdminError : Type 0 where
  unknown_config_key mode_not_found service_not_found provider_not_found api_key_not_found :
      Text → AdminError
  provider_id_not_found : ℕ → AdminError
  no_provider : AdminError

-- `Result<()>` with the state after the call.
abbrev pub Done : Type 0
Done = Result {0, 0} Unit AdminError × GatewayState

abbrev pub fails : AdminError → GatewayState → Done
fails e s = (err e, s)

-- The file changed and marked as to be saved, and the core asked to take it over.
abbrev pub saved : GatewayConfigFile → GatewayState → GatewayState
saved file s = record s { config = record s.config { file = file; dirty = true } }

abbrev pub synced : GatewayState → GatewayState
synced s = record s { core_syncs = s.core_syncs + 1 }

-- unigateway-core/src/routing.rs
unfoldable pub normalize_base_url : Text → Text
unfolding trim ends_with
normalize_base_url url =
    let s = trim url in
    if is_empty s then s else if ends_with s (codes "/") then s else s ++ codes "/"

unfoldable pub set_config_value : Text → Text → GatewayState → Done
unfolding text_eq
set_config_value key value s =
    if text_eq key (codes "preferences.default_mode")
    then (ok tt, saved (record s.config.file { preferences = record { default_mode = value } }) s)
    else fails (unknown_config_key key) s

abbrev pub is_service : Text → ServiceEntry → Bool
is_service id service = text_eq service.id id

abbrev pub is_provider : Text → ProviderEntry → Bool
is_provider name p = text_eq p.name name

abbrev pub is_api_key : Text → ApiKeyEntry → Bool
is_api_key key a = text_eq a.key key

abbrev pub is_binding : Text → Text → BindingEntry → Bool
is_binding service_id name b = text_eq b.service_id service_id && text_eq b.provider_name name

unfoldable pub set_default_mode : Text → GatewayState → Done
set_default_mode mode_id s =
    if any (is_service mode_id) s.config.file.services
    then (ok tt, saved (record s.config.file { preferences = record { default_mode = mode_id } }) s)
    else fails (mode_not_found mode_id) s

unfoldable pub create_service : (id name : Text) → GatewayState → GatewayState
unfolding upsert
create_service id name s = synced (
    saved
      (record s.config.file {
        services =
            upsert (is_service id) (λ service. record service { name = name })
              (record { id = id; name = name; routing_strategy = default_round_robin })
              s.config.file.services;
      })
      s)

unfoldable pub set_service_routing_strategy : (service_id strategy : Text) → GatewayState → Done
unfolding update_first
set_service_routing_strategy service_id strategy s =
    if any (is_service service_id) s.config.file.services
    then (
      ok tt,
      synced (
          saved
            (record s.config.file {
              services =
                  update_first (is_service service_id)
                    (λ service. record service { routing_strategy = strategy })
                    s.config.file.services;
            })
            s),
    )
    else fails (service_not_found service_id) s

unfoldable pub delete_provider_by_name : Text → GatewayState → Done
delete_provider_by_name name s =
    let left = keep (λ p. not (text_eq p.name name)) s.config.file.providers in
    if length left == length s.config.file.providers then fails (provider_not_found name) s else (
      ok tt,
      synced (
          saved
            (record s.config.file {
              providers = left;
              bindings = keep (λ b. not (text_eq b.provider_name name)) s.config.file.bindings;
            })
            s),
    )

-- The two locked sections of `bind_provider_to_service_with_priority`: the read of the name, and
-- the write of the binding under that name.
unfoldable pub provider_name_at : ℕ → GatewayState → Option Text
provider_name_at provider_id s = elim (get_elem? s.config.file.providers provider_id) [
  | none ↦ none
  | some p ↦ some p.name
]

unfoldable pub bind_name :
    (service_id provider_name : Text) → (priority : ℕ) → GatewayState → GatewayState
unfolding upsert
bind_name service_id provider_name priority s = synced (
    saved
      (record s.config.file {
        bindings =
            upsert (is_binding service_id provider_name) (λ b. record b { priority = priority })
              (record {
                service_id = service_id;
                provider_name = provider_name;
                priority = priority;
              })
              s.config.file.bindings;
      })
      s)

unfoldable pub bind_found : Option Text → Text → (provider_id priority : ℕ) → GatewayState → Done
unfolding bind_name
bind_found none service_id provider_id priority s = fails (provider_id_not_found provider_id) s
bind_found (some name) service_id provider_id priority s =
    (ok tt, bind_name service_id name priority s)

unfoldable pub bind_provider_to_service_with_priority :
    Text → (provider_id priority : ℕ) → GatewayState → Done
unfolding provider_name_at bind_found
bind_provider_to_service_with_priority service_id provider_id priority s =
    bind_found (provider_name_at provider_id s) service_id provider_id priority s

unfoldable pub bind_provider_to_service : Text → (provider_id : ℕ) → GatewayState → Done
unfolding bind_provider_to_service_with_priority
bind_provider_to_service service_id provider_id s =
    bind_provider_to_service_with_priority service_id provider_id zero_i64 s

unfoldable pub update_at : {A : Type 0} → ℕ → (A → A) → List A → List A
update_at i f [] = []
update_at zero f (x ∷ xs) = f x ∷ xs
update_at (suc i) f (x ∷ xs) = x ∷ update_at i f xs

unfoldable pub set_provider_model_options : ℕ → ProviderModelOptions → GatewayState → Done
unfolding update_at
set_provider_model_options provider_id options s =
    if ltb provider_id (length s.config.file.providers)
    then (
      ok tt,
      saved
          (record s.config.file {
            providers =
                update_at provider_id
                  (λ p. record p {
                    default_model = unwrap_or options.default_model p.default_model;
                    model_mapping = unwrap_or options.model_mapping p.model_mapping;
                  })
                  s.config.file.providers;
          })
          s,
    )
    else fails no_provider s
