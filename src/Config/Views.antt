-- ===== src/Config/Views.antt =====
-- unigateway-config/src/admin/views.rs and the views of schema.rs. The parse of a model mapping by
-- serde_json is the parameter `parse_mapping`, with its entries in the order of their keys, as a
-- `BTreeMap` iterates them. The id of a provider in a view is its place.
pub mod Ids
use unigateway.Prelude.{
  ℕ, ◌+◌, Bool, true, false, not, ◌&&◌, ◌||◌, Option, none, some, List, [], ◌∷◌, ◌++◌, any, find,
  keep, map, if◌then◌else◌, is_empty, leb,
}
use unigateway.Prelude.Text.{Text, codes, text_eq, text_le, trim, starts_with}
use unigateway.Prelude.Dict.{Dict, lookup, insert}
use unigateway.Prelude.Sorting.{sort_by}
use unigateway.Config.Schema.{
  ServiceEntry, ProviderEntry, BindingEntry, ApiKeyEntry, GatewayConfigFile, GatewayPreferences,
  GatewayConfig, GatewayState, ServiceProvider,
}
use unigateway.Config.Select.{unless_empty, select_all_providers_for_service}

pub record ModeProvider : Type 0 where
  pub name : Text
  pub provider_type : Text
  pub endpoint_id : Option Text
  pub base_url : Option Text
  pub default_model : Option Text
  pub model_mapping : Option Text
  pub has_api_key : Bool
  pub is_enabled : Bool
  pub priority : ℕ

pub record ModeKey : Type 0 where
  pub key : Text
  pub is_active : Bool
  pub quota_limit : Option ℕ
  pub qps_limit : Option ℕ
  pub concurrency_limit : Option ℕ

pub record ModeView : Type 0 where
  pub id : Text
  pub name : Text
  pub is_default : Bool
  pub routing_strategy : Text
  pub providers : List ModeProvider
  pub keys : List ModeKey

abbrev pub mode_provider : BindingEntry → Option ProviderEntry → ModeProvider
mode_provider b none = record {
  name = b.provider_name;
  provider_type = codes "unknown";
  endpoint_id = none;
  base_url = none;
  default_model = none;
  model_mapping = none;
  has_api_key = false;
  is_enabled = false;
  priority = b.priority;
}
mode_provider b (some p) = record {
  name = b.provider_name;
  provider_type = p.provider_type;
  endpoint_id = unless_empty p.endpoint_id;
  base_url = unless_empty p.base_url;
  default_model = unless_empty p.default_model;
  model_mapping = unless_empty p.model_mapping;
  has_api_key = not (is_empty p.api_key);
  is_enabled = p.is_enabled;
  priority = b.priority;
}

abbrev pub mode_key : ApiKeyEntry → ModeKey
mode_key a = record {
  key = a.key;
  is_active = a.is_active;
  quota_limit = a.quota_limit;
  qps_limit = a.qps_limit;
  concurrency_limit = a.concurrency_limit;
}

unfoldable pub mode_view : GatewayConfigFile → Text → ServiceEntry → ModeView
unfolding text_eq sort_by
mode_view file default_mode service = record {
  id = service.id;
  name = service.name;
  is_default = not (is_empty default_mode) && text_eq default_mode service.id;
  routing_strategy = service.routing_strategy;
  providers =
      sort_by (λ a b. leb a.priority b.priority)
        (map (λ b. mode_provider b (find (λ p. text_eq p.name b.provider_name) file.providers))
          (keep (λ b. text_eq b.service_id service.id) file.bindings));
  keys = map mode_key (keep (λ a. text_eq a.service_id service.id) file.api_keys);
}

unfoldable pub build_mode_views : GatewayConfigFile → Text → List ModeView
unfolding mode_view
build_mode_views file default_mode = map (mode_view file default_mode) file.services

unfoldable pub list_services : GatewayState → List (Text × Text)
list_services s =
    map {B = Text × Text} (λ service. (service.id, service.name)) s.config.file.services

unfoldable pub list_services_with_routing : GatewayState → List (Text × Text × Text)
list_services_with_routing s =
    map {B = Text × Text × Text} (λ service. (service.id, service.name, service.routing_strategy))
      s.config.file.services

unfoldable pub get_default_mode : GatewayState → Option Text
unfolding trim
get_default_mode s = unless_empty (trim s.config.file.preferences.default_mode)

unfoldable pub list_mode_views : GatewayState → List ModeView
unfolding build_mode_views
list_mode_views s = build_mode_views s.config.file s.config.file.preferences.default_mode

-- `list_providers` from a place on.
unfoldable pub providers_from :
    ℕ → List ProviderEntry → List (ℕ × Text × Text × Option Text × Option Text)
providers_from i [] = []
providers_from i (p ∷ ps) =
    (i, p.name, p.provider_type, unless_empty p.endpoint_id, unless_empty p.base_url)
    ∷ providers_from (i + 1) ps

unfoldable pub list_providers : GatewayState → List (ℕ × Text × Text × Option Text × Option Text)
unfolding providers_from
list_providers s = providers_from 0 s.config.file.providers

pub record ProviderView : Type 0 where
  pub id : ℕ
  pub name : Text
  pub provider_type : Text
  pub endpoint_id : Option Text
  pub base_url : Option Text
  pub default_model : Option Text
  pub models : List Text
  pub is_enabled : Bool

pub record ServiceModel : Type 0 where
  pub id : Text
  pub alias : Text
  pub canonical : Option Text
  pub owned_by : Text

abbrev pub routing_ids : ServiceModel → List Text
routing_ids m = m.id ∷ m.alias ∷ []

-- An alias that is not empty and not there yet is added at the end.
unfoldable pub add_alias : Text → List Text → List Text
unfolding text_eq
add_alias alias aliases =
    if is_empty alias || any (λ a. text_eq a alias) aliases
    then aliases
    else aliases ++ (alias ∷ [])

unfoldable pub add_aliases : List Text → List Text → List Text
unfolding add_alias trim
add_aliases [] aliases = aliases
add_aliases (key ∷ keys) aliases = add_aliases keys (add_alias (trim key) aliases)

-- The keys trimmed, of which the last of equal ones counts.
unfoldable pub trimmed_keys : Dict Text → Dict Text → Dict Text
unfolding trim insert
trimmed_keys [] mapping = mapping
trimmed_keys ((k, v) ∷ rest) mapping = trimmed_keys rest (insert (trim k) v mapping)

abbrev pub parsed_or_empty : Option (Dict Text) → Dict Text
parsed_or_empty none = []
parsed_or_empty (some parsed) = parsed

module _ (parse_mapping : Text → Option (Dict Text)) where
  unfoldable pub models_from_provider_entry : ProviderEntry → List Text
  unfolding trim starts_with
  models_from_provider_entry p =
      let trimmed = trim p.model_mapping in
      if is_empty trimmed || not (starts_with trimmed (codes "{"))
      then []
      else keep (λ alias. not (is_empty alias))
          (map (λ e. trim e.0) (parsed_or_empty (parse_mapping trimmed)))

  unfoldable pub views_from : ℕ → List ProviderEntry → List ProviderView
  unfolding models_from_provider_entry
  views_from i [] = []
  views_from i (p ∷ ps) =
      record {
        id = i;
        name = p.name;
        provider_type = p.provider_type;
        endpoint_id = unless_empty p.endpoint_id;
        base_url = unless_empty p.base_url;
        default_model = unless_empty p.default_model;
        models = models_from_provider_entry p;
        is_enabled = p.is_enabled;
      }
      ∷ views_from (i + 1) ps

  unfoldable pub list_provider_views : GatewayState → List ProviderView
  unfolding views_from
  list_provider_views s = views_from 0 s.config.file.providers

  unfoldable pub mapping_of : Option Text → Dict Text
  unfolding trim starts_with trimmed_keys
  mapping_of none = []
  mapping_of (some raw) =
      if starts_with (trim raw) (codes "{")
      then trimmed_keys (parsed_or_empty (parse_mapping (trim raw))) []
      else []

  abbrev pub with_default : Option Text → List Text → List Text
  unfolding add_alias trim
  with_default none aliases = aliases
  with_default (some model) aliases = add_alias (trim model) aliases

  unfoldable pub models_of : ServiceProvider → List ServiceModel
  unfolding with_default mapping_of add_aliases sort_by text_le lookup
  models_of provider =
      map
        (λ alias. record {
          id = provider.name ++ codes "/" ++ alias;
          alias = alias;
          canonical = lookup alias (mapping_of provider.model_mapping);
          owned_by = provider.name;
        })
        (with_default provider.default_model
          (sort_by text_le (add_aliases (map (λ e. e.0) (mapping_of provider.model_mapping)) [])))

  unfoldable pub models_of_all : List ServiceProvider → List ServiceModel
  unfolding models_of
  models_of_all [] = []
  models_of_all (p ∷ ps) = models_of p ++ models_of_all ps

  unfoldable pub list_service_models : Text → GatewayState → List ServiceModel
  unfolding models_of_all select_all_providers_for_service
  list_service_models service_id s =
      models_of_all (select_all_providers_for_service service_id [] s)

-- The ids that have not been seen before, with their owner; `seen` is what `result` has.
abbrev pub add_id : Text → Text → List (Text × Text) → List (Text × Text)
unfolding text_eq
add_id owned_by id result =
    if any (λ r. text_eq r.0 id) result then result else result ++ ((id, owned_by) ∷ [])

unfoldable pub add_ids : Text → List Text → List (Text × Text) → List (Text × Text)
unfolding add_id
add_ids owned_by [] result = result
add_ids owned_by (id ∷ ids) result = add_ids owned_by ids (add_id owned_by id result)

unfoldable pub model_ids : List ServiceModel → List (Text × Text) → List (Text × Text)
unfolding add_ids
model_ids [] result = result
model_ids (m ∷ ms) result = model_ids ms (add_ids m.owned_by (routing_ids m) result)

unfoldable pub list_service_model_ids :
    (Text → Option (Dict Text)) → Text → GatewayState → List (Text × Text)
unfolding list_service_models model_ids
list_service_model_ids parse_mapping service_id s =
    model_ids (list_service_models parse_mapping service_id s) []
