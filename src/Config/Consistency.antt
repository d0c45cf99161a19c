-- ===== src/Config/Consistency.antt =====
-- unigateway-config/src/admin: the tables of the configuration stay consistent.
use unigateway.Prelude.{Bool, true, false, ◌&&◌, List, any, All, if◌then◌else◌, Bool-cases, ok}
use unigateway.Prelude.Text.{Text, text_eq, text_eq_iff}
use unigateway.Prelude.Sorting.{All-map}
use unigateway.Prelude.Keyed.{Unique, Unique-update, Unique-upsert}
use mathlib.Core.Path.{◌≡◌, refl, sym, ◌∙◌}
use mathlib.Core.Logic.{inl, inr}
use unigateway.Config.Schema.{
  ServiceEntry, ProviderEntry, BindingEntry, ApiKeyEntry, GatewayConfigFile, GatewayState,
}
use unigateway.Config.Admin.{
  Done, is_provider, set_config_value, set_default_mode, create_service,
  set_service_routing_strategy, AdminError, fails,
}
use unigateway.Config.Select.{record_stat}

unfoldable pub pair_eq : Text × Text → Text × Text → Bool
unfolding text_eq
pair_eq a b = text_eq a.0 b.0 && text_eq a.1 b.1

abbrev pub binding_key : BindingEntry → Text × Text
binding_key b = (b.service_id, b.provider_name)

-- The provider that a binding names exists.
abbrev pub Bound : List ProviderEntry → BindingEntry → Type 0
Bound providers b = any (is_provider b.provider_name) providers ≡ true

-- No two services have one id, no two providers one name, no two API keys one key, no two bindings
-- one service and provider, and every binding names a provider that exists.
pub record Consistent (f : GatewayConfigFile) : Type 0 where
  pub services : Unique text_eq (λ (s : ServiceEntry). s.id) f.services
  pub providers : Unique text_eq (λ (p : ProviderEntry). p.name) f.providers
  pub bindings : Unique pair_eq binding_key f.bindings
  pub api_keys : Unique text_eq (λ (a : ApiKeyEntry). a.key) f.api_keys
  pub bound : All (Bound f.providers) f.bindings

abbrev pub Kept : GatewayState → GatewayState → Type 0
Kept s t = Consistent s.config.file → Consistent t.config.file

pub text_eq_refl : (s : Text) → text_eq s s ≡ true
text_eq_refl s = (text_eq_iff s s).1 refl

pub text_eq_sym : (s t : Text) → text_eq s t ≡ text_eq t s
text_eq_sym s t = elim (Bool-cases (text_eq s t)) [
  | inl same ↦ same ∙ sym ((text_eq_iff t s).1 (sym ((text_eq_iff s t).0 same)))
  | inr differ ↦ elim (Bool-cases (text_eq t s)) [
    | inl same ↦ (text_eq_iff s t).1 (sym ((text_eq_iff t s).0 same)) ∙ sym same
    | inr both ↦ differ ∙ sym both
  ]
]

pub pair_eq_sym : (a b : Text × Text) → pair_eq a b ≡ pair_eq b a
unfolding pair_eq
pair_eq_sym a b = rw (text_eq_sym a.0 b.0, text_eq_sym a.1 b.1) refl

-- Providers that are found stay so, as far as the bindings name them.
pub All-Bound :
    (ps qs : List ProviderEntry)
    → ((name : Text) → any (is_provider name) ps ≡ true → any (is_provider name) qs ≡ true)
    → (bs : List BindingEntry) → All (Bound ps) bs
    → All (Bound qs) bs
All-Bound ps qs f bs = All-map bs (λ b. f b.provider_name)

pub record Keeps (s : GatewayState) (d : Done) : Type 0 where
  pub kept : Kept s d.1

-- An operation that fails keeps the state.
pub if-Keeps :
    (b : Bool) (e : AdminError) (s t : GatewayState)
    → (b ≡ true → Kept s t)
    → Keeps s (if b then (ok tt, t) else fails e s)
if-Keeps true e s t f = record { kept = f refl }
if-Keeps false e s t f = record { kept = λ c. c }

pub set_config_value-Keeps :
    (key value : Text) (s : GatewayState) → Keeps s (set_config_value key value s)
unfolding set_config_value
set_config_value-Keeps key value s = if-Keeps _ _ s _ (λ _ c. record {
  services = c.services;
  providers = c.providers;
  bindings = c.bindings;
  api_keys = c.api_keys;
  bound = c.bound;
})

pub set_default_mode-Keeps :
    (mode_id : Text) (s : GatewayState) → Keeps s (set_default_mode mode_id s)
unfolding set_default_mode
set_default_mode-Keeps mode_id s = if-Keeps _ _ s _ (λ _ c. record {
  services = c.services;
  providers = c.providers;
  bindings = c.bindings;
  api_keys = c.api_keys;
  bound = c.bound;
})

pub create_service-Kept : (id name : Text) (s : GatewayState) → Kept s (create_service id name s)
unfolding create_service
create_service-Kept id name s c = record {
  services =
      Unique-upsert text_eq (λ r. r.id) text_eq_sym id (λ service. record service { name = name })
        (λ r _. refl) _ refl s.config.file.services c.services;
  providers = c.providers;
  bindings = c.bindings;
  api_keys = c.api_keys;
  bound = c.bound;
}

pub record_stat-Kept : (endpoint : Text) (s : GatewayState) → Kept s (record_stat endpoint s)
unfolding record_stat
record_stat-Kept endpoint s c = c

pub set_service_routing_strategy-Keeps :
    (service_id strategy : Text) (s : GatewayState)
    → Keeps s (set_service_routing_strategy service_id strategy s)
unfolding set_service_routing_strategy
set_service_routing_strategy-Keeps service_id strategy s = if-Keeps _ _ s _ (λ _ c. record {
  services = Unique-update text_eq (λ r. r.id) _ _ (λ r _. refl) s.config.file.services c.services;
  providers = c.providers;
  bindings = c.bindings;
  api_keys = c.api_keys;
  bound = c.bound;
})
