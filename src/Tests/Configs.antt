-- ===== src/Tests/Configs.antt =====
-- Runs of the configuration's operations, and the witnesses of what is proved of them.
use unigateway.Prelude.{◌≡◌, refl, false, Option, none, some, List, [], ◌∷◌, any, map, err, ◌+◌}
use unigateway.Prelude.Text.{Text, codes, text_eq}
use unigateway.Prelude.Dict.{Dict, lookup}
use unigateway.Prelude.Keyed.{Unique}
use unigateway.Config.Schema.{
  ProviderModelOptions, zero_i64, new_state, default_file, BindingEntry, ServiceProvider,
  GatewayState, invalid_key,
}
use unigateway.Config.Admin.{provider_name_at, bind_name, delete_provider_by_name, is_provider}
use unigateway.Config.ApiKeys.{authorize_readonly}
use unigateway.Config.Select.{select_all_providers_for_service}
use unigateway.Config.Views.{list_service_models, list_service_model_ids}
use unigateway.Config.Views.Ids.{first_owner, list_service_model_ids-first_owner}
use unigateway.Config.Select.Order.{Pick, provider_of, Offer}
use unigateway.Config.Select.Offers.{select_all_providers_for_service-Offer}
use unigateway.Config.Operations.{
  Operation, add_service, add_provider, bind_provider, add_api_key, set_models, run_all,
}
use unigateway.Config.Consistency.{Consistent}
use unigateway.Config.Runs.{run_all-Consistent}

-- A catalog with one endpoint.
abbrev catalog : Text → Option Text
catalog endpoint_id = some (codes "https://e")

abbrev provider : Text → Operation
provider name =
    add_provider name (codes "openai") (codes "e") (some (codes " https://e ")) (codes "sk")
      (record { default_model = none; model_mapping = none; metadata = none })

abbrev set_up : List Operation
set_up =
    add_service (codes "s") (codes "S")
    ∷ provider (codes "p")
    ∷ provider (codes "q")
    ∷ bind_provider (codes "s") 0 (zero_i64 + 5)
    ∷ bind_provider (codes "s") 1 zero_i64
    ∷ add_api_key (codes "k") (codes "s") none none none
    ∷ []

unfoldable ready : GatewayState
unfolding run_all
ready = run_all catalog set_up new_state

-- The provider of the lower priority number comes first, and the default URL is stored as none.
offered :
    map {B = Text × Option Text}
      (λ (p : ServiceProvider). (p.name, p.base_url))
      (select_all_providers_for_service (codes "s") (codes "openai") ready)
    ≡ ((codes "q", none) ∷ (codes "p", none) ∷ [])
unfolding select_all_providers_for_service ready
offered = refl

other_protocol : select_all_providers_for_service (codes "s") (codes "anthropic") ready ≡ []
unfolding select_all_providers_for_service ready
other_protocol = refl

unknown_key : authorize_readonly (codes "x") ready ≡ err invalid_key
unfolding authorize_readonly ready
unknown_key = refl

-- The name read under one lock and the binding written under the next, with a delete in between:
-- the binding names a provider that does not exist.
unfoldable deleted : GatewayState
unfolding ready delete_provider_by_name
deleted = (delete_provider_by_name (codes "p") ready).1

name_read : provider_name_at 0 ready ≡ some (codes "p")
unfolding provider_name_at ready
name_read = refl

dangling :
    map
      (λ (b : BindingEntry). b.provider_name)
      (bind_name (codes "s") (codes "p") zero_i64 deleted).config.file.bindings
    ≡ (codes "q" ∷ codes "p" ∷ [])
unfolding bind_name deleted
dangling = refl

not_there :
    any
      (is_provider (codes "p"))
      (bind_name (codes "s") (codes "p") zero_i64 deleted).config.file.providers
    ≡ false
unfolding bind_name deleted
not_there = refl

empty-Consistent : Consistent default_file
unfolding Unique
empty-Consistent = record {
  services = tt;
  providers = tt;
  bindings = tt;
  api_keys = tt;
  bound = tt;
}

run_all-Consistent_example : Consistent ready.config.file
unfolding ready
run_all-Consistent_example = run_all-Consistent catalog set_up new_state empty-Consistent

select_all_providers_for_service-Offer_example :
    (picks : List Pick) × (select_all_providers_for_service (codes "s") (codes "openai") ready
      ≡ map provider_of picks)
    × Offer (codes "s") (codes "openai") ready.config.file picks
select_all_providers_for_service-Offer_example =
    select_all_providers_for_service-Offer (codes "s") (codes "openai") ready

-- A mapping of one alias, with white space around it.
abbrev parse_one : Text → Option (Dict Text)
parse_one raw = some ((codes " a ", codes "big") ∷ [])

abbrev two_models : ProviderModelOptions
two_models = record {
  default_model = some (codes "m");
  model_mapping = some (codes "{}");
  metadata = none;
}

unfoldable offering : GatewayState
unfolding ready run_all
offering = run_all catalog (set_models 0 two_models ∷ set_models 1 two_models ∷ []) ready

listed : list_service_model_ids parse_one (codes "s") offering ≡ (
    (codes "q/a", codes "q")
    ∷ (codes "a", codes "q")
    ∷ (codes "q/m", codes "q")
    ∷ (codes "m", codes "q")
    ∷ (codes "p/a", codes "p")
    ∷ (codes "p/m", codes "p")
    ∷ [])
unfolding list_service_model_ids offering
listed = refl

list_service_model_ids-first_owner_example :
    Unique text_eq
      (λ (r : Text × Text). r.0)
      (list_service_model_ids parse_one (codes "s") offering)
    × ((id : Text)
        → lookup id (list_service_model_ids parse_one (codes "s") offering)
          ≡ first_owner id (list_service_models parse_one (codes "s") offering))
list_service_model_ids-first_owner_example =
    list_service_model_ids-first_owner parse_one (codes "s") offering
