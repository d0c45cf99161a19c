-- ===== src/Config/Views/Ids.antt =====
-- unigateway-config/src/admin/views.rs: the ids of a service's models.
use unigateway.Prelude.{
  Bool, true, false, ◌||◌, Option, none, some, List, [], ◌∷◌, ◌++◌, any, if◌then◌else◌, Bool-cases,
}
use unigateway.Prelude.Text.{Text, text_eq, text_eq_iff}
use unigateway.Prelude.Dict.{Dict, lookup}
use unigateway.Prelude.Keyed.{Unique, Unique-push}
use mathlib.Core.Path.{◌≡◌, refl, sym, ap, ◌∙◌, subst}
use mathlib.Core.Logic.{inl, inr}
use native.Mathlib.Omega.{arith}
use unigateway.Config.Schema.{GatewayState}
use unigateway.Config.Consistency.{text_eq_sym}
use unigateway.Config.Views.{
  ServiceModel, routing_ids, list_service_models, add_id, add_ids, model_ids,
  list_service_model_ids,
}

-- The first of two owners.
unfoldable or_owner : Option Text → Option Text → Option Text
or_owner none later = later
or_owner (some owner) later = some owner

or_owner_assoc : (a b c : Option Text) → or_owner (or_owner a b) c ≡ or_owner a (or_owner b c)
unfolding or_owner
or_owner_assoc none b c = refl
or_owner_assoc (some a) b c = refl

or_owner-none : (a : Option Text) → or_owner a none ≡ a
unfolding or_owner
or_owner-none none = refl
or_owner-none (some a) = refl

abbrev has_id : Text → ServiceModel → Bool
unfolding text_eq
has_id id m = text_eq m.id id || text_eq m.alias id

-- The owner of the first model that an id routes to.
unfoldable pub first_owner : Text → List ServiceModel → Option Text
unfolding has_id
first_owner id [] = none
first_owner id (m ∷ ms) = if has_id id m then some m.owned_by else first_owner id ms

abbrev owner_if : Bool → Text → Option Text
owner_if b owned_by = if b then some owned_by else none

lookup-append :
    (id i owned_by : Text) (result : Dict Text)
    → lookup id (result ++ ((i, owned_by) ∷ []))
      ≡ or_owner (lookup id result) (owner_if (text_eq i id) owned_by)
unfolding lookup or_owner
lookup-append id i owned_by [] = refl
lookup-append id i owned_by (r ∷ result) = elim (Bool-cases (text_eq r.0 id)) [
  | inl here ↦ rw here refl
  | inr later ↦ rw later (lookup-append id i owned_by result)
]

lookup-there :
    (id : Text) (later : Option Text) (result : Dict Text)
    → any (λ r. text_eq r.0 id) result ≡ true
    → or_owner (lookup id result) later ≡ lookup id result
unfolding lookup or_owner
lookup-there id later [] h = absurd (ground (arith, h))
lookup-there id later (r ∷ result) h = elim (Bool-cases (text_eq r.0 id)) [
  | inl here ↦ rw here refl
  | inr after ↦ rw after (lookup-there id later result (ground (arith, h, after)))
]

lookup-add_id :
    (id owned_by i : Text) (result : Dict Text)
    → lookup id (add_id owned_by i result)
      ≡ or_owner (lookup id result) (owner_if (text_eq i id) owned_by)
unfolding add_id
lookup-add_id id owned_by i result = elim (Bool-cases (any (λ r. text_eq r.0 i) result)) [
  | inl seen ↦ elim (Bool-cases (text_eq i id)) [
    | inl same ↦
        rw (seen, same)
          (sym (
            lookup-there id (some owned_by) result (
              subst (λ j. any (λ r. text_eq r.0 j) result ≡ true) ((text_eq_iff i id).0 same)
                seen)))
    | inr other ↦ rw (seen, other) (sym (or_owner-none (lookup id result)))
  ]
  | inr new ↦ rw new (lookup-append id i owned_by result)
]

two-owners :
    (a b : Bool) (owned_by : Text)
    → or_owner (owner_if a owned_by) (owner_if b owned_by) ≡ owner_if (a || b) owned_by
unfolding or_owner
two-owners true b owned_by = refl
two-owners false b owned_by = refl

owner_or :
    (b : Bool) (owned_by : Text) (later : Option Text)
    → or_owner (owner_if b owned_by) later ≡ (if b then some owned_by else later)
unfolding or_owner
owner_or true owned_by later = refl
owner_or false owned_by later = refl

-- The two ids of one model.
lookup-add_ids :
    (id : Text) (m : ServiceModel) (result : Dict Text)
    → lookup id (add_ids m.owned_by (routing_ids m) result)
      ≡ or_owner (lookup id result) (owner_if (text_eq m.id id || text_eq m.alias id) m.owned_by)
unfolding add_ids
lookup-add_ids id m result =
    lookup-add_id id m.owned_by m.alias (add_id m.owned_by m.id result)
    ∙ ap (λ o. or_owner o (owner_if (text_eq m.alias id) m.owned_by))
        (lookup-add_id id m.owned_by m.id result)
    ∙ or_owner_assoc (lookup id result) (owner_if (text_eq m.id id) m.owned_by)
        (owner_if (text_eq m.alias id) m.owned_by)
    ∙ ap (or_owner (lookup id result))
        (two-owners (text_eq m.id id) (text_eq m.alias id) m.owned_by)

lookup-model_ids :
    (id : Text) (ms : List ServiceModel) (result : Dict Text)
    → lookup id (model_ids ms result) ≡ or_owner (lookup id result) (first_owner id ms)
unfolding model_ids first_owner
lookup-model_ids id [] result = sym (or_owner-none (lookup id result))
lookup-model_ids id (m ∷ ms) result =
    lookup-model_ids id ms (add_ids m.owned_by (routing_ids m) result)
    ∙ ap (λ o. or_owner o (first_owner id ms)) (lookup-add_ids id m result)
    ∙ or_owner_assoc (lookup id result)
        (owner_if (text_eq m.id id || text_eq m.alias id) m.owned_by) (first_owner id ms)
    ∙ ap (or_owner (lookup id result))
        (owner_or (text_eq m.id id || text_eq m.alias id) m.owned_by (first_owner id ms))

add_id-Unique :
    (owned_by id : Text) (result : Dict Text)
    → Unique text_eq (λ (r : Text × Text). r.0) result
    → Unique text_eq (λ (r : Text × Text). r.0) (add_id owned_by id result)
unfolding add_id
add_id-Unique owned_by id result h = elim (Bool-cases (any (λ r. text_eq r.0 id) result)) [
  | inl seen ↦ rw seen h
  | inr new ↦
      rw new
        (Unique-push text_eq (λ (r : Text × Text). r.0) text_eq_sym result (id, owned_by) new h)
]

model_ids-Unique :
    (ms : List ServiceModel) (result : Dict Text)
    → Unique text_eq (λ (r : Text × Text). r.0) result
    → Unique text_eq (λ (r : Text × Text). r.0) (model_ids ms result)
unfolding model_ids add_ids
model_ids-Unique [] result h = h
model_ids-Unique (m ∷ ms) result h =
    model_ids-Unique ms (add_id m.owned_by m.alias (add_id m.owned_by m.id result)) (
      add_id-Unique m.owned_by m.alias (add_id m.owned_by m.id result)
        (add_id-Unique m.owned_by m.id result h))

-- The listed ids of a service's models have no repetition, and an id is listed just where a model
-- of the service has it as its id or its alias, with the owner of the first such model.
pub list_service_model_ids-first_owner :
    (parse_mapping : Text → Option (Dict Text)) (service_id : Text) (s : GatewayState)
    → Unique text_eq (λ (r : Text × Text). r.0) (list_service_model_ids parse_mapping service_id s)
      × ((id : Text)
          → lookup id (list_service_model_ids parse_mapping service_id s)
            ≡ first_owner id (list_service_models parse_mapping service_id s))
unfolding list_service_model_ids Unique or_owner
list_service_model_ids-first_owner parse_mapping service_id s = (
  model_ids-Unique (list_service_models parse_mapping service_id s) [] tt,
  λ id. lookup-model_ids id (list_service_models parse_mapping service_id s) [],
)
