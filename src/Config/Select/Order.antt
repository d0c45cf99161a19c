-- ===== src/Config/Select/Order.antt =====
-- unigateway-config/src/select.rs: which providers a service's requests are offered, in what order.
use unigateway.Prelude.{
  Bool, true, false, ◌&&◌, ◌||◌, Option, none, some, List, [], ◌∷◌, any, find, keep, map, All,
  if◌then◌else◌, Bool-cases, is_empty,
}
use unigateway.Prelude.Text.{Text, text_eq, text_eq_iff}
use unigateway.Prelude.Sorting.{Ordered, IsOrder, All-keep}
use unigateway.Prelude.Perms.{keep-permᴰ}
use mathlib.Core.Path.{◌≡◌, refl, ap, ◌∙◌, subst}
use mathlib.Core.Logic.{◌⊎◌, inl, inr, ∥∥₁_elim, ∥∥₁_prop}
use mathlib.Core.List.{Perm}
use native.Mathlib.Omega.{arith}
use unigateway.Config.Schema.{ProviderEntry, BindingEntry, GatewayConfigFile, ServiceProvider}
use unigateway.Config.Select.{to_service_provider, serves, push_found, providers_of, by_priority}

-- A binding with the provider that serves it.
abbrev pub Pick : Type 0
Pick = BindingEntry × ProviderEntry

abbrev pub binding_of : Pick → BindingEntry
binding_of x = x.0

abbrev pub provider_of : Pick → ServiceProvider
unfolding to_service_provider
provider_of x = to_service_provider x.1

-- The provider is the first of the file that is enabled, has the binding's name and, where a
-- protocol is asked for, the protocol.
pub record Suits (protocol : Text) (providers : List ProviderEntry) (x : Pick) : Type 0 where
  pub found : find (serves protocol x.0.provider_name) providers ≡ some x.1
  pub enabled : x.1.is_enabled ≡ true
  pub named : x.1.name ≡ x.0.provider_name
  pub spoken : (protocol ≡ []) ⊎ (x.1.provider_type ≡ protocol)

-- The bindings of a service whose provider is there.
abbrev pub can_serve : Text → Text → List ProviderEntry → BindingEntry → Bool
unfolding text_eq
can_serve service_id protocol providers b =
    text_eq b.service_id service_id && any (serves protocol b.provider_name) providers

-- What a service's requests are offered, by the bindings and providers behind it.
pub record Offer (service_id protocol : Text) (f : GatewayConfigFile) (picks : List Pick)
    : Type 0 where
  pub suited : All (Suits protocol f.providers) picks
  pub ordered : Ordered (λ a b. by_priority a b ≡ true) (map binding_of picks)
  pub complete :
      Perm (map binding_of picks) (keep (can_serve service_id protocol f.providers) f.bindings)

find-any : {A : Type 0} (p : A → Bool) (xs : List A) → find p xs ≡ none → any p xs ≡ false
find-any p [] h = refl
find-any p (x ∷ xs) h = ground (arith, find-any p xs)

option_inj : {A : Type 0} {a b : A} → some a ≡ some b → a ≡ b
option_inj same = cc

module _ {A : Type 0} (p : A → Bool) (a : A) where
  if-some :
      (x : A) (xs : List A) (b : Bool)
      → p x ≡ b
      → (find p xs ≡ some a → (p a ≡ true) × (any p xs ≡ true))
      → (if b then some x else find p xs) ≡ some a
      → (p a ≡ true) × (p x || any p xs ≡ true)
  if-some x xs true e later h =
      (subst (λ y. p y ≡ true) (option_inj h) e, ap (λ b. b || any p xs) e)
  if-some x xs false e later h = ((later h).0, ap (λ b. b || any p xs) e ∙ (later h).1)

  -- What is found passes the test.
  find-some : (xs : List A) → find p xs ≡ some a → (p a ≡ true) × (any p xs ≡ true)
  find-some [] h = absurd (ground (arith, h))
  find-some (x ∷ xs) h = if-some x xs (p x) refl (find-some xs) h

is_empty-nil : (s : Text) → is_empty s ≡ true → s ≡ []
is_empty-nil [] h = refl
is_empty-nil (c ∷ s) h = absurd (ground (arith, h))

-- The three tests of `serves`, read apart.
tests-Suits :
    (protocol : Text) (providers : List ProviderEntry) (b : BindingEntry) (p : ProviderEntry)
    → find (serves protocol b.provider_name) providers ≡ some p
    → serves protocol b.provider_name p ≡ true
    → Suits protocol providers (b, p)
tests-Suits protocol providers b p h s = record {
  found = h;
  enabled = ground (arith, s);
  named = (text_eq_iff p.name b.provider_name).0 (ground (arith, s));
  spoken = elim (Bool-cases (is_empty protocol)) [
    | inl any_one ↦ inl (is_empty-nil protocol any_one)
    | inr asked ↦ inr ((text_eq_iff p.provider_type protocol).0 (ground (arith, s, asked)))
  ];
}

module _ (protocol : Text) (providers : List ProviderEntry) where
  pick_found : Option ProviderEntry → BindingEntry → List Pick → List Pick
  pick_found none b later = later
  pick_found (some p) b later = (b, p) ∷ later

  -- The picks behind the list that the source builds.
  pub picks_of : List BindingEntry → List Pick
  unfolding pick_found
  picks_of [] = []
  picks_of (b ∷ bs) = pick_found (find (serves protocol b.provider_name) providers) b (picks_of bs)

  found-map :
      (found : Option ProviderEntry) (b : BindingEntry) (later : List Pick)
      → map provider_of (pick_found found b later) ≡ push_found found (map provider_of later)
  unfolding pick_found push_found to_service_provider
  found-map none b later = refl
  found-map (some p) b later = refl

  pub picks_of-map :
      (bs : List BindingEntry) → map provider_of (picks_of bs) ≡ providers_of protocol providers bs
  unfolding picks_of providers_of
  picks_of-map [] = refl
  picks_of-map (b ∷ bs) =
      found-map (find (serves protocol b.provider_name) providers) b (picks_of bs)
      ∙ ap (push_found (find (serves protocol b.provider_name) providers)) (picks_of-map bs)

  found-Suits :
      (found : Option ProviderEntry) (b : BindingEntry) (later : List Pick)
      → find (serves protocol b.provider_name) providers ≡ found
      → All (Suits protocol providers) later
      → All (Suits protocol providers) (pick_found found b later)
  unfolding pick_found
  found-Suits none b later e h = h
  found-Suits (some p) b later e h = (
    tests-Suits protocol providers b p e
        (find-some (serves protocol b.provider_name) p providers e).0,
    h,
  )

  pub picks_of-Suits : (bs : List BindingEntry) → All (Suits protocol providers) (picks_of bs)
  unfolding picks_of
  picks_of-Suits [] = tt
  picks_of-Suits (b ∷ bs) =
      found-Suits (find (serves protocol b.provider_name) providers) b (picks_of bs) refl
        (picks_of-Suits bs)

  abbrev pub has_provider : BindingEntry → Bool
  has_provider b = any (serves protocol b.provider_name) providers

  found-keep :
      (found : Option ProviderEntry) (b : BindingEntry) (later : List Pick) (bs : List BindingEntry)
      → find (serves protocol b.provider_name) providers ≡ found
      → map binding_of later ≡ keep has_provider bs
      → map binding_of (pick_found found b later) ≡ keep has_provider (b ∷ bs)
  unfolding pick_found
  found-keep none b later bs e h = rw (find-any (serves protocol b.provider_name) providers e) h
  found-keep (some p) b later bs e h =
      rw (find-some (serves protocol b.provider_name) p providers e).1 (ap (λ l. b ∷ l) h)

  pub picks_of-keep : (bs : List BindingEntry) → map binding_of (picks_of bs) ≡ keep has_provider bs
  unfolding picks_of
  picks_of-keep [] = refl
  picks_of-keep (b ∷ bs) =
      found-keep (find (serves protocol b.provider_name) providers) b (picks_of bs) bs refl
        (picks_of-keep bs)

pub Ordered-keep :
    {A : Type 0} (R : A → A → Type 0) (q : A → Bool) (xs : List A)
    → Ordered R xs
    → Ordered R (keep q xs)
Ordered-keep R q [] h = tt
Ordered-keep R q (x ∷ xs) h = elim (Bool-cases (q x)) [
  | inl kept ↦ rw kept (All-keep (R x) q xs h.0, Ordered-keep R q xs h.1)
  | inr gone ↦ rw gone (Ordered-keep R q xs h.1)
]

pub keep-Perm :
    {A : Type 0} (p : A → Bool) (xs ys : List A) → Perm xs ys → Perm (keep p xs) (keep p ys)
keep-Perm p xs ys h = ∥∥₁_elim h ∥∥₁_prop (keep-permᴰ p)

pub by_priority-IsOrder : IsOrder by_priority
by_priority-IsOrder = record {
  total = λ a b h. ground (arith, h);
  trans = λ a b c h k. ground (arith, h, k);
}
