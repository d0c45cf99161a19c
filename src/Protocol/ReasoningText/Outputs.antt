-- ===== src/Protocol/ReasoningText/Outputs.antt =====
-- What the chunks of the stream parser add up to.
use mathlib.Core.List.{append-nil, append_assoc}
use unigateway.Prelude.{◌≡◌, refl, sym, ap, ◌∙◌, Bool, true, false, List, [], ◌∷◌, ◌++◌}
use unigateway.Prelude.Text.{Text}
use unigateway.Protocol.ReasoningText.{
  ReasoningTextChunk, thinking, text, nonempty, thinking_of, text_of,
}

-- No chunk is reasoning.
unfoldable pub no_thinking : List ReasoningTextChunk → Bool
no_thinking [] = true
no_thinking (thinking t ∷ chunks) = false
no_thinking (text t ∷ chunks) = no_thinking chunks

-- No reasoning comes after text.
unfoldable pub thinks_first : List ReasoningTextChunk → Bool
unfolding no_thinking
thinks_first [] = true
thinks_first (thinking t ∷ chunks) = thinks_first chunks
thinks_first (text t ∷ chunks) = no_thinking chunks

thinking_of-append :
    (xs ys : List ReasoningTextChunk) → thinking_of (xs ++ ys) ≡ thinking_of xs ++ thinking_of ys
unfolding thinking_of
thinking_of-append [] ys = refl
thinking_of-append (thinking t ∷ xs) ys =
    ap (λ s. t ++ s) (thinking_of-append xs ys)
    ∙ sym (append_assoc t (thinking_of xs) (thinking_of ys))
thinking_of-append (text t ∷ xs) ys = thinking_of-append xs ys

text_of-append : (xs ys : List ReasoningTextChunk) → text_of (xs ++ ys) ≡ text_of xs ++ text_of ys
unfolding text_of
text_of-append [] ys = refl
text_of-append (thinking t ∷ xs) ys = text_of-append xs ys
text_of-append (text t ∷ xs) ys =
    ap (λ s. t ++ s) (text_of-append xs ys) ∙ sym (append_assoc t (text_of xs) (text_of ys))

no_thinking-append :
    (xs : List ReasoningTextChunk) (t : Text)
    → no_thinking xs ≡ true
    → no_thinking (xs ++ (text t ∷ [])) ≡ true
unfolding no_thinking
no_thinking-append [] t h = refl
no_thinking-append (thinking s ∷ xs) t h = cc
no_thinking-append (text s ∷ xs) t h = no_thinking-append xs t h

thinks_first-append :
    (xs : List ReasoningTextChunk) (t : Text)
    → thinks_first xs ≡ true
    → thinks_first (xs ++ (text t ∷ [])) ≡ true
unfolding thinks_first
thinks_first-append [] t h = refl
thinks_first-append (thinking s ∷ xs) t h = thinks_first-append xs t h
thinks_first-append (text s ∷ xs) t h = no_thinking-append xs t h

-- What the parser has put out once it passes everything on.
pub record Settled (reasoning words : Text) (out : List ReasoningTextChunk) : Type 0 where
  pub thought : thinking_of out ≡ reasoning
  pub said : text_of out ≡ words
  pub first : thinks_first out ≡ true
  pub silent : reasoning ≡ [] → no_thinking out ≡ true

pub Settled-text :
    {reasoning words : Text} {out : List ReasoningTextChunk} (pushed : Text)
    → Settled reasoning words out
    → Settled reasoning (words ++ pushed) (out ++ (text pushed ∷ []))
unfolding thinking_of text_of
Settled-text {reasoning} {words} {out} pushed settled = record {
  thought =
      thinking_of-append out (text pushed ∷ []) ∙ append-nil (thinking_of out) ∙ settled.thought;
  said =
      text_of-append out (text pushed ∷ [])
      ∙ ap (λ t. text_of out ++ t) (append-nil pushed)
      ∙ ap (λ t. t ++ pushed) settled.said;
  first = thinks_first-append out pushed settled.first;
  silent = λ e. no_thinking-append out pushed (settled.silent e);
}

pub Settled-split :
    (reasoning words : Text)
    → Settled reasoning words (nonempty thinking reasoning ++ nonempty text words)
unfolding thinking_of text_of thinks_first no_thinking nonempty
Settled-split [] [] = record { thought = refl; said = refl; first = refl; silent = λ e. refl }
Settled-split [] (d ∷ words) = record {
  thought = refl;
  said = append-nil _;
  first = refl;
  silent = λ e. refl;
}
Settled-split (c ∷ reasoning) [] = record {
  thought = append-nil _;
  said = refl;
  first = refl;
  silent = λ e. cc;
}
Settled-split (c ∷ reasoning) (d ∷ words) = record {
  thought = append-nil _;
  said = append-nil _;
  first = refl;
  silent = λ e. cc;
}

pub Settled-whole : (words : Text) → Settled [] words (text words ∷ [])
unfolding thinking_of text_of thinks_first no_thinking
Settled-whole words = record {
  thought = refl;
  said = append-nil words;
  first = refl;
  silent = λ e. refl;
}
