-- ===== src/Config/Providers.antt =====
-- unigateway-config/src/admin/mutations.rs: the operations on providers and bindings keep the
-- configuration consistent.
use unigateway.Prelude.{
  ℕ, zero, suc, Bool, true, false, not, ◌||◌, Option, none, some, List, [], ◌∷◌, any, keep,
  get_elem?, if◌then◌else◌, ok,
}
use unigateway.Prelude.Text.{Text, text_eq, text_eq_iff}
use unigateway.Prelude.Sorting.{All-keep, All-both, keep-All}
use unigateway.Prelude.Keyed.{
  Unique, Unique-keep, any-update, Unique-update, Unique-upsert, any-upsert, All-upsert, any-kept,
}
use mathlib.Core.Path.{◌≡◌, refl, sym, ap, ◌∙◌, subst}
use native.Mathlib.Omega.{arith}
use unigateway.Config.Schema.{ProviderEntry, BindingEntry, GatewayState, ProviderModelOptions}
use unigateway.Config.Admin.{
  is_provider, delete_provider_by_name, bind_name, bind_found, update_at,
  set_provider_model_options, AdminError, fails, saved,
}
use unigateway.Config.Providing.{updated_url, update_provider_by_name, create_provider_with_models}
use unigateway.Config.Consistency.{
  pair_eq, binding_key, Bound, Kept, text_eq_refl, text_eq_sym, pair_eq_sym, All-Bound, if-Keeps,
  Keeps,
}

-- A change of the providers that keeps their names.
renamed-Kept :
    (s : GatewayState) (ps : List ProviderEntry)
    → (Unique text_eq (λ (p : ProviderEntry). p.name) s.config.file.providers
        → Unique text_eq (λ (p : ProviderEntry). p.name) ps)
    → ((name : Text)
        → any (is_provider name) s.config.file.providers ≡ true
        → any (is_provider name) ps ≡ true)
    → Kept s (saved (record s.config.file { providers = ps }) s)
renamed-Kept s ps unique found c = record {
  services = c.services;
  providers = unique c.providers;
  bindings = c.bindings;
  api_keys = c.api_keys;
  bound = All-Bound s.config.file.providers ps found s.config.file.bindings c.bound;
}

update_at-any :
    (f : ProviderEntry → ProviderEntry)
    → ((p : ProviderEntry) → (f p).name ≡ p.name)
    → (name : Text) (i : ℕ) (ps : List ProviderEntry)
    → any (is_provider name) (update_at i f ps) ≡ any (is_provider name) ps
unfolding update_at
update_at-any f kept name i [] = refl
update_at-any f kept name zero (p ∷ ps) = rw (kept p) refl
update_at-any f kept name (suc i) (p ∷ ps) = rw (update_at-any f kept name i ps) refl

update_at-Unique :
    (f : ProviderEntry → ProviderEntry)
    → ((p : ProviderEntry) → (f p).name ≡ p.name)
    → (i : ℕ) (ps : List ProviderEntry) → Unique text_eq (λ (p : ProviderEntry). p.name) ps
    → Unique text_eq (λ (p : ProviderEntry). p.name) (update_at i f ps)
unfolding update_at Unique
update_at-Unique f kept i [] h = tt
update_at-Unique f kept zero (p ∷ ps) h = rw (kept p) h
update_at-Unique f kept (suc i) (p ∷ ps) h =
    (update_at-any f kept p.name i ps ∙ h.0, update_at-Unique f kept i ps h.1)

pub set_provider_model_options-Keeps :
    (i : ℕ) (options : ProviderModelOptions) (s : GatewayState)
    → Keeps s (set_provider_model_options i options s)
unfolding set_provider_model_options
set_provider_model_options-Keeps i options s = if-Keeps _ _ s _ (λ _.
    renamed-Kept s _ (update_at-Unique _ (λ p. refl) i s.config.file.providers)
      (λ name h. update_at-any _ (λ p. refl) name i s.config.file.providers ∙ h))

module _ (get_endpoint : Text → Option Text) where
  updated_url-name :
      (url : Option Text) (p : ProviderEntry) → (updated_url get_endpoint url p).name ≡ p.name
  unfolding updated_url
  updated_url-name none p = refl
  updated_url-name (some url) p = refl

  pub update_provider_by_name-Keeps :
      (name : Text) (base_url api_key default_model model_mapping : Option Text) (s : GatewayState)
      → Keeps s
          (update_provider_by_name get_endpoint name base_url api_key default_model model_mapping s)
  unfolding update_provider_by_name
  update_provider_by_name-Keeps name base_url api_key default_model model_mapping s =
      if-Keeps _ _ s _ (λ _.
        renamed-Kept s _
          (Unique-update text_eq (λ (p : ProviderEntry). p.name) _ _
            (λ p _. updated_url-name base_url p) s.config.file.providers)
          (λ other h.
            any-update text_eq (λ (p : ProviderEntry). p.name) _ _
              (λ p _. updated_url-name base_url p) other s.config.file.providers
            ∙ h))

  pub create_provider_with_models-Kept :
      (name provider_type endpoint_id : Text) (base_url : Option Text) (api_key : Text)
      (options : ProviderModelOptions) (s : GatewayState)
      → Kept s
          (create_provider_with_models get_endpoint name provider_type endpoint_id base_url api_key
            options s).1
  unfolding create_provider_with_models
  create_provider_with_models-Kept name provider_type endpoint_id base_url api_key options s =
      renamed-Kept s _
        (Unique-upsert text_eq (λ (p : ProviderEntry). p.name) text_eq_sym name _
          (λ p h. sym ((text_eq_iff p.name name).0 h)) _ refl s.config.file.providers)
        (λ other.
          any-upsert text_eq (λ (p : ProviderEntry). p.name) text_eq_sym name _
            (λ p h. sym ((text_eq_iff p.name name).0 h)) _ refl other s.config.file.providers)

if_not-Keeps :
    (b : Bool) (e : AdminError) (s t : GatewayState)
    → (b ≡ false → Kept s t)
    → Keeps s (if b then fails e s else (ok tt, t))
if_not-Keeps true e s t f = record { kept = λ c. c }
if_not-Keeps false e s t f = record { kept = f refl }

-- A binding that is kept names a provider that is kept.
left-Bound :
    (name : Text) (ps : List ProviderEntry) (b : BindingEntry)
    → not (text_eq b.provider_name name) ≡ true
    → Bound ps b
    → Bound (keep (λ p. not (text_eq p.name name)) ps) b
left-Bound name ps b other =
    any-kept (is_provider b.provider_name) (λ p. not (text_eq p.name name)) ps
      (λ p h. ap (λ n. not (text_eq n name)) ((text_eq_iff p.name b.provider_name).0 h) ∙ other)

-- The deleted provider goes with its bindings.
pub delete_provider_by_name-Keeps :
    (name : Text) (s : GatewayState) → Keeps s (delete_provider_by_name name s)
unfolding delete_provider_by_name
delete_provider_by_name-Keeps name s = if_not-Keeps _ _ s _ (λ _ c. record {
  services = c.services;
  providers =
      Unique-keep text_eq (λ (p : ProviderEntry). p.name) _ s.config.file.providers c.providers;
  bindings = Unique-keep pair_eq binding_key _ s.config.file.bindings c.bindings;
  api_keys = c.api_keys;
  bound =
      All-both (keep (λ b. not (text_eq b.provider_name name)) s.config.file.bindings)
        (left-Bound name s.config.file.providers)
        (keep-All (λ b. not (text_eq b.provider_name name)) s.config.file.bindings)
        (All-keep (Bound s.config.file.providers) _ s.config.file.bindings c.bound);
})

-- The provider at a place is found by its name.
pub found-any :
    (i : ℕ) (ps : List ProviderEntry) (p : ProviderEntry)
    → get_elem? ps i ≡ some p
    → any (is_provider p.name) ps ≡ true
found-any i [] p h = absurd (ground (arith, h))
found-any zero (q ∷ ps) p h =
    ap
      (λ (o : Option ProviderEntry). elim o [
        | none ↦ true
        | some r ↦ text_eq q.name r.name || any (is_provider r.name) ps
      ])
      (sym h)
    ∙ rw (text_eq_refl q.name) refl
found-any (suc i) (q ∷ ps) p h = grind (arith, found-any i ps p h)

pub bind_found-Keeps :
    (found : Option Text) (service_id : Text) (i priority : ℕ) (s : GatewayState)
    → ((name : Text) → found ≡ some name → any (is_provider name) s.config.file.providers ≡ true)
    → Keeps s (bind_found found service_id i priority s)
unfolding bind_found bind_name Unique pair_eq
bind_found-Keeps none service_id i priority s f = record { kept = λ c. c }
bind_found-Keeps (some name) service_id i priority s f = record {
  kept = λ c. record {
    services = c.services;
    providers = c.providers;
    bindings =
        Unique-upsert pair_eq binding_key pair_eq_sym (service_id, name) _ (λ b _. refl) _ refl
          s.config.file.bindings c.bindings;
    api_keys = c.api_keys;
    bound =
        All-upsert (Bound s.config.file.providers) _ _ _ (λ b h. h) (f name refl)
          s.config.file.bindings c.bound;
  };
}

some_inj : {a b : Text} → some a ≡ some b → a ≡ b
some_inj same = cc

pub named-any :
    (ps : List ProviderEntry) (found : Option ProviderEntry)
    → ((p : ProviderEntry) → found ≡ some p → any (is_provider p.name) ps ≡ true)
    → (name : Text) → elim found [ none ↦ none | some p ↦ some p.name ] ≡ some name
    → any (is_provider name) ps ≡ true
named-any ps none f name h = absurd (ground (arith, h))
named-any ps (some p) f name h = subst (λ n. any (is_provider n) ps ≡ true) (some_inj h) (f p refl)
