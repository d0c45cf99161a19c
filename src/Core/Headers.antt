-- ===== src/Core/Headers.antt =====
-- unigateway-core/src/metadata_headers.rs: which request metadata becomes an outbound header.
-- `none` is a panic: a `str` is cut at a byte that is not a character boundary.
pub mod Forwarding
use unigateway.Prelude.{
  ℕ, zero, suc, ◌+◌, ◌-◌, Bool, true, false, not, ◌&&◌, ◌||◌, Option, none, some, List, [], ◌∷◌,
  ◌++◌, any, is_empty, is_some, ltb, leb, ◌==◌, if◌then◌else◌,
}
use unigateway.Prelude.Text.{
  Text, codes, starts_with, strip_prefix, contains, to_ascii_lowercase, eq_ignore_ascii_case,
  len_utf8, byte_len,
}
use unigateway.Prelude.Dict.{Dict, lookup, insert, or_insert}

infixl 5 ◌>>=◌
abbrev pub ◌>>=◌ {ℓ κ} : {A : Type ℓ} {B : Type κ} → Option A → (A → Option B) → Option B
none >>= f = none
some a >>= f = f a

-- `&key[..n]`
unfoldable pub slice_to : ℕ → Text → Option Text
unfolding len_utf8
slice_to n [] = if n == 0 then some [] else none
slice_to n (c ∷ s) =
    let rest = slice_to (n - len_utf8 c) s in
    if n == 0 then some [] else if ltb n (len_utf8 c) then none else do t ← rest; some (c ∷ t)

-- `strip_suffix('*')`
unfoldable pub strip_star : Text → Option Text
strip_star [] = none
strip_star (c ∷ []) = if c == b'*' then some [] else none
strip_star (c ∷ d ∷ s) = elim (strip_star (d ∷ s)) [ none ↦ none | some p ↦ some (c ∷ p) ]

unfoldable pub is_internal_metadata_key : Text → Bool
unfolding starts_with
is_internal_metadata_key key =
    starts_with key (codes "unigateway.") || starts_with key (codes "http_header.")

abbrev prefix_matches : Text → Text → Option Bool
prefix_matches prefix key =
    if is_empty prefix
    then some true
    else if leb (byte_len prefix) (byte_len key)
    then (do head ← slice_to (byte_len prefix) key; some (eq_ignore_ascii_case head prefix))
    else some false

unfoldable pub metadata_glob_match : Text → Text → Option Bool
unfolding strip_star slice_to byte_len eq_ignore_ascii_case
metadata_glob_match pat key = elim (strip_star pat) [
  | none ↦ some (eq_ignore_ascii_case pat key)
  | some prefix ↦ prefix_matches prefix key
]

-- `a || b` where either side may panic.
abbrev or_else : Option Bool → Option Bool → Option Bool
or_else a b = do x ← a; if x then some true else b

unfoldable pub pattern_matches : Text → Text → Option Bool
unfolding metadata_glob_match contains to_ascii_lowercase
pattern_matches pat key =
    if contains pat (codes "*")
    then or_else (metadata_glob_match pat key) (metadata_glob_match pat (to_ascii_lowercase key))
    else some (eq_ignore_ascii_case pat key)

unfoldable pub metadata_key_matches_allowlist : Text → List Text → Option Bool
unfolding pattern_matches
metadata_key_matches_allowlist key [] = some false
metadata_key_matches_allowlist key (pat ∷ allowlist) =
    or_else (pattern_matches pat key) (metadata_key_matches_allowlist key allowlist)

abbrev is_control : ℕ → Bool
is_control byte = byte == 13 || byte == 10 || ltb byte 0x20

unfoldable pub is_valid_http_header_value : Text → Bool
is_valid_http_header_value value = not (is_empty value) && not (any is_control value)

-- One turn of the loop over the request metadata.
unfoldable pub forward_entry : List Text → Text → Text → Dict Text → Option (Dict Text)
unfolding metadata_key_matches_allowlist is_internal_metadata_key is_valid_http_header_value
    or_insert
forward_entry allowlist key value headers = do
  refused ←
      (if is_internal_metadata_key key
        then (do m ← metadata_key_matches_allowlist key allowlist; some (not m))
        else some false)
  if refused then some headers else do
    allowed ← metadata_key_matches_allowlist key allowlist
    some (
        if allowed && is_valid_http_header_value value
        then or_insert key value headers
        else headers)

unfoldable pub forward_entries : List Text → Dict Text → Dict Text → Option (Dict Text)
unfolding forward_entry
forward_entries allowlist [] headers = some headers
forward_entries allowlist ((key, value) ∷ metadata) headers = do
  headers' ← forward_entry allowlist key value headers
  forward_entries allowlist metadata headers'

unfoldable pub forward_metadata_as_http_headers :
    Dict Text → Dict Text → Option (List Text) → Option (Dict Text)
unfolding forward_entries
forward_metadata_as_http_headers headers request_metadata none = some headers
forward_metadata_as_http_headers headers request_metadata (some allowlist) =
    if is_empty allowlist then some headers else forward_entries allowlist request_metadata headers

-- The `http_header.*` entries of the endpoint's metadata.
unfoldable pub endpoint_headers : Dict Text → Dict Text → Dict Text
unfolding insert strip_prefix
endpoint_headers [] headers = headers
endpoint_headers ((key, value) ∷ metadata) headers =
    endpoint_headers metadata (elim (strip_prefix key (codes "http_header.")) [
      | none ↦ headers
      | some name ↦ if is_empty value then headers else insert name value headers
    ])

unfoldable pub base_outbound_headers :
    (endpoint_metadata request_metadata static_headers : Dict Text)
    → Option (List Text)
    → Option (Dict Text)
unfolding endpoint_headers forward_metadata_as_http_headers
base_outbound_headers endpoint_metadata request_metadata static_headers allowlist =
    forward_metadata_as_http_headers (endpoint_headers endpoint_metadata static_headers)
      request_metadata allowlist

unfoldable pub merge_items : List Text → List Text → List Text
unfolding eq_ignore_ascii_case
merge_items merged [] = merged
merge_items merged (item ∷ items) =
    merge_items
      (if any (λ existing. eq_ignore_ascii_case existing item) merged
        then merged
        else merged ++ item ∷ [])
      items

unfoldable pub merge_forward_allowlists :
    Option (List Text) → Option (List Text) → Option (List Text)
unfolding merge_items
merge_forward_allowlists none none = none
merge_forward_allowlists (some pool) none = some pool
merge_forward_allowlists none (some endpoint) = some endpoint
merge_forward_allowlists (some pool) (some endpoint) = some (merge_items pool endpoint)
