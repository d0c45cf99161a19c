-- ===== src/Core/Routing/Plans.antt =====
-- Execution plans and pool targets: which endpoints a snapshot has.
use mathlib.Core.List.Perm
use mathlib.Core.List.{Perm, Permᴰ, perm_append_comm, append_assoc, flatten}
use mathlib.Core.Logic.{∥∥₁_elim}
use mathlib.Core.Path.{fun_ext}
use unigateway.Prelude.{
  ℕ, ◌≡◌, ◌≢◌, refl, ap, subst, ◌∙◌, sym, Bool, ◌++◌, true, ◌&&◌, Option, none, some, List, [], ◌∷◌,
  map, length, find, keep, All, Result, ok, err, >>=-eq-ok, arith,
}
use unigateway.Prelude.Text.{Text, text_eq, text_eq_iff}
use unigateway.Prelude.Dict.{Dict, lookup}
use unigateway.Prelude.Sorting.{keep-All, keep-twice}
use unigateway.Prelude.Perms.{length-permᴰ, keep-permᴰ}
use unigateway.Core.Error.{GatewayError, pool_not_found}
use unigateway.Core.Retry.{RetryPolicy}
use unigateway.Core.Pool.{Endpoint, ProviderPool, ExecutionPlan}
use unigateway.Core.Routing.{
  ExecutionSnapshot, Resolved, enabled_endpoints, get_pool, collect, find_candidate, all_endpoints,
  the_only, or_not_found, resolve_candidate, resolve_global_plan_endpoints, resolve_plan,
  build_plan_snapshot,
}

-- The endpoints of all pools.
abbrev pub everywhere : Dict ProviderPool → List Endpoint
everywhere pools = flatten (map (λ entry. entry.1.endpoints) pools)

abbrev pub answers : Text → Endpoint → Bool
answers id e = e.enabled && text_eq e.endpoint_id id

-- Where a candidate's endpoint comes from. A plan bound to a pool takes the first enabled endpoint
-- of that pool with the candidate's id; a plan over all pools takes the only enabled endpoint of
-- any pool with that id.
abbrev pub Picks : Dict ProviderPool → Option Text → Text → Endpoint → Type 0
Picks pools none id e = keep (answers id) (everywhere pools) ≡ e ∷ []
Picks pools (some pool_id) id e =
    (p : ProviderPool) × (lookup pool_id pools ≡ some p) × (find (answers id) p.endpoints ≡ some e)

-- One endpoint for each candidate, in their order, each with the id, enabled and from its place.
abbrev pub Chosen : Dict ProviderPool → Option Text → List Text → List Endpoint → Type 0
Chosen pools pool_id [] [] = Unit
Chosen pools pool_id [] (e ∷ es) = ⊥
Chosen pools pool_id (id ∷ ids) [] = ⊥
Chosen pools pool_id (id ∷ ids) (e ∷ es) =
    ((e.endpoint_id ≡ id) × (e.enabled ≡ true) × Picks pools pool_id id e)
    × Chosen pools pool_id ids es

answers-true :
    (id : Text) (e : Endpoint) → answers id e ≡ true → (e.endpoint_id ≡ id) × (e.enabled ≡ true)
answers-true id e h = ground (arith, text_eq_iff e.endpoint_id id)

find-true {ℓ} : {A : Type ℓ} (p : A → Bool) (xs : List A) (a : A) → find p xs ≡ some a → p a ≡ true
find-true p [] a h = cc
find-true p (x ∷ xs) a h = ground (arith, find-true p xs a)

or_not_found-ok :
    (id : Text) (o : Option Endpoint) (e : Endpoint) → or_not_found id o ≡ ok e → o ≡ some e
or_not_found-ok id none e h = cc
or_not_found-ok id (some f) e h = cc

find_candidate-find :
    (endpoints : List Endpoint) (id : Text) (e : Endpoint)
    → find_candidate endpoints id ≡ ok e
    → find (answers id) endpoints ≡ some e
unfolding find_candidate
find_candidate-find endpoints id e h = or_not_found-ok id _ e h

the_only-ok : (id : Text) (es : List Endpoint) (e : Endpoint) → the_only id es ≡ ok e → es ≡ e ∷ []
the_only-ok id [] e h = cc
the_only-ok id (f ∷ []) e h = cc
the_only-ok id (f ∷ g ∷ rest) e h = cc

keep-answers :
    (id : Text) (es : List Endpoint)
    → keep (λ e. text_eq e.endpoint_id id) (enabled_endpoints es) ≡ keep (answers id) es
unfolding enabled_endpoints
keep-answers id = keep-twice (λ e. e.enabled) (λ e. text_eq e.endpoint_id id)

all_endpoints-everywhere : (pools : Dict ProviderPool) → all_endpoints pools ≡ everywhere pools
unfolding all_endpoints flatten
all_endpoints-everywhere [] = refl
all_endpoints-everywhere ((id, p) ∷ pools) =
    ap (λ es. p.endpoints ++ es) (all_endpoints-everywhere pools)

-- The one element that is kept passes the test.
only-true :
    (p : Endpoint → Bool) (es : List Endpoint) (e : Endpoint) → keep p es ≡ e ∷ [] → p e ≡ true
only-true p es e h = (subst (All (λ x. p x ≡ true)) h (keep-All p es)).0

resolve_candidate-only :
    (pools : Dict ProviderPool) (id : Text) (e : Endpoint)
    → resolve_candidate (enabled_endpoints (all_endpoints pools)) id ≡ ok e
    → keep (answers id) (everywhere pools) ≡ e ∷ []
unfolding resolve_candidate
resolve_candidate-only pools id e h =
    ap (keep (answers id)) (sym (all_endpoints-everywhere pools))
    ∙ sym (keep-answers id (all_endpoints pools))
    ∙ the_only-ok id _ e h

-- `collect` gives, in order, what the function gives for each element.
collect-Chosen :
    (pools : Dict ProviderPool) (pool_id : Option Text) (f : Text → Result Endpoint GatewayError)
    → ((id : Text) (e : Endpoint)
        → f id ≡ ok e
        → (e.endpoint_id ≡ id) × (e.enabled ≡ true) × Picks pools pool_id id e)
    → (ids : List Text) (es : List Endpoint) → collect f ids ≡ ok es
    → Chosen pools pool_id ids es
unfolding collect
collect-Chosen pools pool_id f each [] es h =
    let e : [] ≡ es = ground arith in subst (Chosen pools pool_id []) e tt
collect-Chosen pools pool_id f each (id ∷ ids) es h =
    let (y, p, q) = >>=-eq-ok (f id) _ h in
    let (ys, r, s) = >>=-eq-ok (collect f ids) _ q in
    let e : y ∷ ys ≡ es = ground arith in
    subst (Chosen pools pool_id (id ∷ ids)) e
      (each id y p, collect-Chosen pools pool_id f each ids ys r)

get_pool-lookup :
    (id : Text) (found : Option ProviderPool) (p : ProviderPool)
    → elim found [ none ↦ err (pool_not_found id) | some q ↦ ok q ] ≡ ok p
    → found ≡ some p
get_pool-lookup id none p h = cc
get_pool-lookup id (some q) p h = cc

resolve_plan-Chosen :
    (pools : Dict ProviderPool) (retry : RetryPolicy) (timeout : Option ℕ) (pool_id : Option Text)
    (candidates : List Text) (r : Resolved)
    → resolve_plan pools retry timeout pool_id candidates ≡ ok r
    → Chosen pools pool_id candidates r.endpoints
unfolding resolve_plan resolve_global_plan_endpoints
resolve_plan-Chosen pools retry timeout none candidates r h =
    let (es, p, q) = >>=-eq-ok (resolve_global_plan_endpoints pools candidates) _ h in
    let e : es ≡ r.endpoints = ground arith in
    subst (Chosen pools none candidates) e (
      collect-Chosen pools none _
        (λ id e k.
          let only = resolve_candidate-only pools id e k in
          let passed = answers-true id e (only-true (answers id) (everywhere pools) e only) in
          (passed.0, passed.1, only))
        candidates es p)
resolve_plan-Chosen pools retry timeout (some id) candidates r h =
    let (found, k, l) = >>=-eq-ok (get_pool id pools) _ h in
    let (es, p, q) = >>=-eq-ok (collect (find_candidate found.endpoints) candidates) _ l in
    let e : es ≡ r.endpoints = ground arith in
    subst (Chosen pools (some id) candidates) e (
      collect-Chosen pools (some id) _
        (λ c e m.
          let first = find_candidate-find found.endpoints c e m in
          let passed = answers-true c e (find-true (answers c) found.endpoints e first) in
          (passed.0, passed.1, (found, get_pool-lookup id (lookup id pools) found k, first)))
        candidates es p)

-- A snapshot that is built for a plan has exactly one endpoint for each candidate that the plan
-- names, in the plan's order, and at least one. Each has the candidate's id and is enabled; for a
-- plan bound to a pool it is the first such endpoint of that pool, and for a plan over all pools
-- the only such endpoint of them all.
pub build_plan_snapshot-Chosen :
    (pools : Dict ProviderPool) (p : ExecutionPlan) (retry : RetryPolicy) (timeout : Option ℕ)
    (s : ExecutionSnapshot)
    → build_plan_snapshot pools p retry timeout ≡ ok s
    → Chosen pools p.pool_id p.candidates s.endpoints × (s.endpoints ≢ [])
unfolding build_plan_snapshot
build_plan_snapshot-Chosen pools p retry timeout s h =
    let (r, k, l) = >>=-eq-ok (resolve_plan pools retry timeout p.pool_id p.candidates) _ h in
    let same : r.endpoints ≡ s.endpoints = ground arith in
    let c = resolve_plan-Chosen pools retry timeout p.pool_id p.candidates r k in
    (subst (Chosen pools p.pool_id p.candidates) same c, λ e. ground arith)

-- The order in which the map yields the pools does not show in a global plan.
all_endpoints-permᴰ :
    {pools pools' : Dict ProviderPool}
    → Permᴰ pools pools'
    → Perm (all_endpoints pools) (all_endpoints pools')
unfolding all_endpoints
all_endpoints-permᴰ Permᴰ.nil = Perm.nil
all_endpoints-permᴰ (Permᴰ.cons {a = x} e p) =
    rw (← e) (Perm.append_left x.1.endpoints (all_endpoints-permᴰ p))
all_endpoints-permᴰ (Permᴰ.swap {a = x} {b = y} {l = l} e f) =
    rw (← e, ← f, ← append_assoc x.1.endpoints, ← append_assoc y.1.endpoints)
      (Perm.append_right (all_endpoints l) (perm_append_comm x.1.endpoints y.1.endpoints))
all_endpoints-permᴰ (Permᴰ.trans p q) = Perm.trans (all_endpoints-permᴰ p) (all_endpoints-permᴰ q)

the_only-cons :
    (id : Text) {x y : Endpoint} (xs ys : List Endpoint)
    → x ≡ y
    → length xs ≡ length ys
    → the_only id (x ∷ xs) ≡ the_only id (y ∷ ys)
the_only-cons id [] [] e h = ap ok e
the_only-cons id (a ∷ xs) (b ∷ ys) e h = refl
the_only-cons id [] (b ∷ ys) e h = absurd (omega arith)
the_only-cons id (a ∷ xs) [] e h = absurd (omega arith)

the_only-permᴰ : (id : Text) {xs ys : List Endpoint} → Permᴰ xs ys → the_only id xs ≡ the_only id ys
the_only-permᴰ id Permᴰ.nil = refl
the_only-permᴰ id (Permᴰ.cons e p) = the_only-cons id _ _ e (length-permᴰ p)
the_only-permᴰ id (Permᴰ.swap e f) = refl
the_only-permᴰ id (Permᴰ.trans p q) = the_only-permᴰ id p ∙ the_only-permᴰ id q

Endpoint-set : IsSet Endpoint
Endpoint-set = hlevel

Result-set : IsSet (Result Endpoint GatewayError)
Result-set = hlevel Endpoint-set

resolve_candidate-perm :
    (id : Text) {xs ys : List Endpoint}
    → Perm xs ys
    → resolve_candidate (enabled_endpoints xs) id ≡ resolve_candidate (enabled_endpoints ys) id
unfolding resolve_candidate enabled_endpoints
resolve_candidate-perm id p = ∥∥₁_elim p (Result-set _ _) λ d.
    ∥∥₁_elim (keep-permᴰ (λ e. e.enabled) d) (Result-set _ _) λ f.
      ∥∥₁_elim (keep-permᴰ (λ e. text_eq e.endpoint_id id) f) (Result-set _ _) (the_only-permᴰ id)

collect-cong :
    (f g : Text → Result Endpoint GatewayError)
    → ((id : Text) → f id ≡ g id)
    → (ids : List Text) → collect f ids ≡ collect g ids
collect-cong f g h ids = ap (λ k. collect k ids) (fun_ext h)

-- A plan over all pools resolves to the same endpoints, or to the same error, in whatever order the
-- map of pools is iterated.
pub resolve_global-perm :
    (pools pools' : Dict ProviderPool) (candidates : List Text)
    → Permᴰ pools pools'
    → resolve_global_plan_endpoints pools candidates
      ≡ resolve_global_plan_endpoints pools' candidates
unfolding resolve_global_plan_endpoints
resolve_global-perm pools pools' candidates p =
    collect-cong _ _ (λ id. resolve_candidate-perm id (all_endpoints-permᴰ p)) candidates
