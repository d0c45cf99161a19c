-- ===== src/Core/Headers/Forwarding.antt =====
-- What forwarding does to the outbound headers.
use unigateway.Prelude.{
  ◌≡◌, refl, sym, subst, ◌∙◌, ◌⊎◌, inl, inr, Bool, true, false, not, ◌&&◌, Option, none, some, List,
  [], ◌∷◌, if◌then◌else◌, Bool-cases, Option-cases,
}
use unigateway.Prelude.Text.{Text, text_eq, text_eq_iff}
use unigateway.Prelude.Dict.{Dict, lookup, or_insert, lookup-insert}
use unigateway.Core.Headers.{
  ◌>>=◌, is_internal_metadata_key, metadata_key_matches_allowlist, is_valid_http_header_value,
  forward_entry, forward_entries, forward_metadata_as_http_headers,
}

-- The header of this name is as it was; or there was none, and the one added is allowed and valid.
abbrev pub Forwarded : List Text → Text → (before after : Dict Text) → Type 0
Forwarded allowlist name before after =
    (lookup name after ≡ lookup name before)
    ⊎ ((lookup name before ≡ none)
        × (v : Text) × (lookup name after ≡ some v)
        × (metadata_key_matches_allowlist name allowlist ≡ some true)
        × (is_valid_http_header_value v ≡ true))

module _ (allowlist : List Text) (name : Text) where
  forward_twice :
      (a b c : Dict Text)
      → Forwarded allowlist name a b
      → Forwarded allowlist name b c
      → Forwarded allowlist name a c
  forward_twice a b c (inl f) (inl g) = inl (g ∙ f)
  forward_twice a b c (inl f) (inr (e, v, at, g, h)) = inr (sym f ∙ e, v, at, g, h)
  forward_twice a b c (inr (e, v, at, f, k)) (inl g) = inr (e, v, g ∙ at, f, k)
  forward_twice a b c (inr (e, v, at, f, k)) (inr (g, w, h, l, n)) = cc

  or_insert-Forwarded :
      (key value : Text) (h : Dict Text)
      → metadata_key_matches_allowlist key allowlist ≡ some true
      → is_valid_http_header_value value ≡ true
      → Forwarded allowlist name h (or_insert key value h)
  unfolding or_insert
  or_insert-Forwarded key value h allowed valid = elim (Option-cases (lookup key h)) [
    | inr (v, e) ↦ rw e (inl refl)
    | inl missing ↦ rw missing (elim (Bool-cases (text_eq key name)) [
      | inr other ↦ inl (lookup-insert key name value h ∙ rw other refl)
      | inl same ↦
          let e = (text_eq_iff key name).0 same in
          inr (
            subst (λ k. lookup k h ≡ none) e missing,
            value,
            lookup-insert key name value h ∙ rw same refl,
            subst (λ k. metadata_key_matches_allowlist k allowlist ≡ some true) e allowed,
            valid,
          )
    ])
  ]

  forward_entry-Forwarded :
      (key value : Text) (h h' : Dict Text)
      → forward_entry allowlist key value h ≡ some h'
      → Forwarded allowlist name h h'
  unfolding forward_entry
  forward_entry-Forwarded key value h h' = refused (is_internal_metadata_key key)
    where
      out : Option Bool → Bool → Option (Dict Text)
      out m valid = m >>= λ allowed. some (if allowed && valid then or_insert key value h else h)

      added :
          (m : Option Bool) (valid : Bool)
          → metadata_key_matches_allowlist key allowlist ≡ m
          → is_valid_http_header_value value ≡ valid
          → out m valid ≡ some h'
          → Forwarded allowlist name h h'
      added none valid e k o = cc
      added (some true) true e k o =
          subst (Forwarded allowlist name h) (cc) (or_insert-Forwarded key value h e k)
      added (some true) false e k o = subst (Forwarded allowlist name h) (cc) (inl refl)
      added (some false) valid e k o = subst (Forwarded allowlist name h) (cc) (inl refl)

      decide :
          (r : Bool)
          → (if r
              then some h
              else out
                  (metadata_key_matches_allowlist key allowlist)
                  (is_valid_http_header_value value))
            ≡ some h'
          → Forwarded allowlist name h h'
      decide true o = subst (Forwarded allowlist name h) (cc) (inl refl)
      decide false o = added _ _ refl refl o

      refused :
          (b : Bool)
          → ((if b
                then (metadata_key_matches_allowlist key allowlist >>= λ m. some (not m))
                else some false)
              >>= λ r.
                  if r
                  then some h
                  else out
                      (metadata_key_matches_allowlist key allowlist)
                      (is_valid_http_header_value value))
            ≡ some h'
          → Forwarded allowlist name h h'
      refused false = decide false
      refused true = checked (metadata_key_matches_allowlist key allowlist)
        where
          checked :
              (a : Option Bool)
              → ((a >>= λ m. some (not m)) >>= λ r.
                  if r
                  then some h
                  else out
                      (metadata_key_matches_allowlist key allowlist)
                      (is_valid_http_header_value value))
                ≡ some h'
              → Forwarded allowlist name h h'
          checked none o = cc
          checked (some m) o = decide (not m) o

  forward_entries-Forwarded :
      (metadata h h' : Dict Text)
      → forward_entries allowlist metadata h ≡ some h'
      → Forwarded allowlist name h h'
  unfolding forward_entries
  forward_entries-Forwarded [] h h' = λ e. subst (Forwarded allowlist name h) (cc) (inl refl)
  forward_entries-Forwarded ((key, value) ∷ metadata) h h' =
      first (forward_entry allowlist key value h) refl (forward_entries-Forwarded metadata)
    where
      first :
          (a : Option (Dict Text))
          → forward_entry allowlist key value h ≡ a
          → ((g g' : Dict Text)
              → forward_entries allowlist metadata g ≡ some g'
              → Forwarded allowlist name g g')
          → (a >>= λ g. forward_entries allowlist metadata g) ≡ some h'
          → Forwarded allowlist name h h'
      first none e rest o = cc
      first (some g) e rest o =
          forward_twice h g h' (forward_entry-Forwarded key value h g e) (rest g h' o)

-- Forwarding that does not panic never overwrites or removes a header that was there; and a header
-- that it adds has a name that the allowlist matches and a value that is a valid header value.
pub forward-Forwarded :
    (allowlist : List Text) (name : Text) (headers metadata after : Dict Text)
    → forward_metadata_as_http_headers headers metadata (some allowlist) ≡ some after
    → Forwarded allowlist name headers after
unfolding forward_metadata_as_http_headers
forward-Forwarded [] name headers metadata after e =
    subst (Forwarded [] name headers) (cc) (inl refl)
forward-Forwarded (pat ∷ allowlist) name headers metadata after e =
    forward_entries-Forwarded (pat ∷ allowlist) name metadata headers after e
