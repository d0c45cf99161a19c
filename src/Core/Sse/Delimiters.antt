-- ===== src/Core/Sse/Delimiters.antt =====
-- What `find_sse_delimiter` finds does not change when more bytes arrive.
use unigateway.Prelude.{
  ℕ, suc, ◌+◌, ◌≤◌, ◌≡◌, refl, ap, ◌∙◌, Bool, true, false, Option, none, some, [], ◌∷◌, ◌++◌,
  length, arith,
}
use unigateway.Core.Sse.{Bytes, find_sse_delimiter, here_or_later, at_lf_lf, at_crlf_crlf}

-- One step of the scan, for the bytes there were and for more.
step-append :
    (lf crlf : Bool) (before after : Option (ℕ × ℕ)) (index len : ℕ)
    → ((i : ℕ) → before ≡ some (i, len) → after ≡ some (i, len))
    → here_or_later lf crlf before ≡ some (index, len)
    → here_or_later lf crlf after ≡ some (index, len)
step-append true crlf before after index len kept h = h
step-append false true before after index len kept h = h
step-append false false none after index len kept h = cc
step-append false false (some (i, l)) after index len kept h =
    ap (here_or_later false false) (kept i (cc)) ∙ ap some (cc)

-- The earliest delimiter stays the earliest one.
pub find-append :
    (a more : Bytes) (index len : ℕ)
    → find_sse_delimiter a ≡ some (index, len)
    → find_sse_delimiter (a ++ more) ≡ some (index, len)
unfolding find_sse_delimiter
find-append [] more index len h = cc
find-append (b ∷ []) more index len h = ground arith
find-append (b ∷ c ∷ []) more index len h = ground arith
find-append (b ∷ c ∷ d ∷ []) more index len h = ground arith
find-append (b ∷ c ∷ d ∷ e ∷ rest) more index len h =
    step-append (at_lf_lf (b ∷ c ∷ [])) (at_crlf_crlf (b ∷ c ∷ d ∷ e ∷ []))
      (find_sse_delimiter (c ∷ d ∷ e ∷ rest)) (find_sse_delimiter (c ∷ d ∷ e ∷ (rest ++ more)))
      index len (λ i found. find-append (c ∷ d ∷ e ∷ rest) more i len found) h

-- The delimiter found lies inside the buffer.
step-within :
    (lf crlf : Bool) (later : Option (ℕ × ℕ)) (n index len : ℕ)
    → (lf ≡ true → 2 ≤ suc n)
    → (crlf ≡ true → 4 ≤ suc n)
    → ((i : ℕ) → later ≡ some (i, len) → (i + len ≤ n) × (2 ≤ len))
    → here_or_later lf crlf later ≡ some (index, len)
    → (index + len ≤ suc n) × (2 ≤ len)
step-within true crlf later n index len two four h found = grind (arith, two refl)
step-within false true later n index len two four h found = grind (arith, four refl)
step-within false false none n index len two four h found = cc
step-within false false (some (i, l)) n index len two four h found = grind (arith, h i)

pub find-within :
    (a : Bytes) (index len : ℕ)
    → find_sse_delimiter a ≡ some (index, len)
    → (index + len ≤ length a) × (2 ≤ len)
unfolding find_sse_delimiter
find-within [] index len h = cc
find-within (b ∷ a) index len h =
    step-within (at_lf_lf (b ∷ a)) (at_crlf_crlf (b ∷ a)) (find_sse_delimiter a) (length a) index
      len (lf a) (crlf a) (λ i. find-within a i len) h
  where
    lf : (a : Bytes) → at_lf_lf (b ∷ a) ≡ true → 2 ≤ suc (length a)
    lf [] h = cc
    lf (c ∷ a) h = omega arith

    crlf : (a : Bytes) → at_crlf_crlf (b ∷ a) ≡ true → 4 ≤ suc (length a)
    crlf (c ∷ d ∷ e ∷ a) h = omega arith
    crlf [] h = cc
    crlf (c ∷ []) h = cc
    crlf (c ∷ d ∷ []) h = cc
