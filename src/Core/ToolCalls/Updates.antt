-- ===== src/Core/ToolCalls/Updates.antt =====
-- What a delta and a stop do to the entry of a tool call.
use unigateway.Prelude.{
  ℕ, ◌+◌, ◌≡◌, ◌⊎◌, refl, sym, ap, subst, ◌∙◌, inl, inr, Bool, true, false, not, ◌&&◌, Option, none,
  some, unwrap_or, and_then, Ensures, Ensures-and_then,
}
use unigateway.Prelude.Text.{Text, codes, byte_len}
use unigateway.Prelude.Indexed.{Indexed, at, put}
use unigateway.Core.Json.{JsonValue}
use unigateway.Core.ToolCalls.Arguments.{
  split_bytes, merge_openai_tool_call_arguments, normalize_openai_tool_call_arguments,
}
use unigateway.Core.ToolCalls.{
  PendingOpenAiToolCall, default_pending, AnthropicToolUseStart, AnthropicInputJsonDelta,
  OpenAiToolCallDeltaUpdate, Applied, allocated, set_id, set_name, start_of, can_start, emitted,
  unsent, delta_update, set_arguments, field, read_delta, apply_openai_tool_call_delta_update,
}

-- Two entries that agree in what the events depend on.
pub record Alike (a b : PendingOpenAiToolCall) : Type 0 where
  pub same_index : a.anthropic_index ≡ b.anthropic_index
  pub same_started : a.started ≡ b.started
  pub same_stopped : a.stopped ≡ b.stopped

Alike-refl : (a : PendingOpenAiToolCall) → Alike a a
Alike-refl a = record { same_index = refl; same_started = refl; same_stopped = refl }

Alike-trans : {a b c : PendingOpenAiToolCall} → Alike a b → Alike b c → Alike a c
Alike-trans h k = record {
  same_index = h.same_index ∙ k.same_index;
  same_started = h.same_started ∙ k.same_started;
  same_stopped = h.same_stopped ∙ k.same_stopped;
}

set_id-Alike : (p : PendingOpenAiToolCall) (id : Option Text) → Alike (set_id p id) p
set_id-Alike p none = Alike-refl p
set_id-Alike p (some id) = record { same_index = refl; same_started = refl; same_stopped = refl }

set_name-Alike : (p : PendingOpenAiToolCall) (name : Option Text) → Alike (set_name p name) p
set_name-Alike p none = Alike-refl p
set_name-Alike p (some name) = record {
  same_index = refl;
  same_started = refl;
  same_stopped = refl;
}

-- A delta, if there is one, is of this index and of a call that has been started.
abbrev pub OfCall : ℕ → Bool → Option AnthropicInputJsonDelta → Type 0
OfCall i started none = Unit
OfCall i started (some delta) = (delta.anthropic_index ≡ i) × (started ≡ true)

pub record Emitted (due : Bool) (i : ℕ) (p q : PendingOpenAiToolCall)
    (delta : Option AnthropicInputJsonDelta) : Type 0 where
  pub alike : Alike q p
  pub of_call : OfCall i due delta

pub emitted-Emitted :
    (due : Bool) (i : ℕ) (p : PendingOpenAiToolCall)
    → Ensures (λ (q, delta). Emitted due i p q delta) (emitted due i p)
unfolding emitted
emitted-Emitted false i p = record { alike = Alike-refl p; of_call = tt }
emitted-Emitted true i p = cut (split_bytes p.emitted_argument_len p.arguments)
  where
    cut :
        (o : Option (Text × Text))
        → Ensures
            (λ (q, delta). Emitted true i p q delta)
            (and_then o λ (before, partial_json). some (
              record p { emitted_argument_len = byte_len p.arguments },
              some (record { anthropic_index = i; partial_json = partial_json }),
            ))
    cut none = tt
    cut (some (before, rest)) = record {
      alike = record { same_index = refl; same_started = refl; same_stopped = refl };
      of_call = (refl, refl);
    }

-- The start, if there is one, is of this index and of a call that had not been started.
abbrev pub Begins : ℕ → (before after : Bool) → Option AnthropicToolUseStart → Type 0
Begins i before after none = after ≡ before
Begins i before after (some begin) = (begin.anthropic_index ≡ i) × (before ≡ false) × (after ≡ true)

record DeltaStep (i : ℕ) (p left : PendingOpenAiToolCall) (update : OpenAiToolCallDeltaUpdate)
    : Type 0 where
  index_kept : left.anthropic_index ≡ p.anthropic_index
  stop_kept : left.stopped ≡ p.stopped
  begins : Begins i p.started left.started update.start
  of_call : OfCall i left.started update.delta

OfCall-started :
    (i : ℕ) (a b started : Bool) (delta : Option AnthropicInputJsonDelta)
    → a ≡ started
    → OfCall i (a && b) delta
    → OfCall i started delta
OfCall-started i a b started none h of_call = tt
OfCall-started i true b started (some delta) h (of_index, due) = (of_index, sym h)
OfCall-started i false b started (some delta) h (of_index, due) = cc

sent_step :
    (i : ℕ) (p current : PendingOpenAiToolCall) (begin : Option AnthropicToolUseStart)
    → current.anthropic_index ≡ p.anthropic_index
    → current.stopped ≡ p.stopped
    → Begins i p.started current.started begin
    → Ensures
        (λ (left, update). DeltaStep i p left update)
        (and_then
          (emitted (current.started && unsent current) i current)
          λ (left, delta). some (left, record { start = begin; delta = delta }))
sent_step i p current begin same_index same_stopped begun =
    Ensures-and_then (λ (q, delta). Emitted (current.started && unsent current) i current q delta)
      (λ (left, update). DeltaStep i p left update)
      (emitted (current.started && unsent current) i current) _
      (emitted-Emitted (current.started && unsent current) i current)
      λ (left, delta) step. record {
        index_kept = step.alike.same_index ∙ same_index;
        stop_kept = step.alike.same_stopped ∙ same_stopped;
        begins =
            subst (λ after. Begins i p.started after begin) (sym step.alike.same_started) begun;
        of_call =
            OfCall-started i current.started (unsent current) left.started delta
              (sym step.alike.same_started) step.of_call;
      }

delta_update-DeltaStep :
    (starts : Bool) (i : ℕ) (p : PendingOpenAiToolCall)
    → (starts ≡ true → p.started ≡ false)
    → Ensures (λ (left, update). DeltaStep i p left update) (delta_update starts i p)
unfolding delta_update
delta_update-DeltaStep true i p startable =
    sent_step i p (record p { started = true }) (start_of true i p) refl refl
      (refl, startable refl, refl)
delta_update-DeltaStep false i p startable = sent_step i p p none refl refl refl

can_start-started : (p : PendingOpenAiToolCall) → can_start p ≡ true → p.started ≡ false
can_start-started p h = unstarted p.started _ h
  where
    unstarted : (started b : Bool) → not started && b ≡ true → started ≡ false
    unstarted false b h = refl
    unstarted true b h = cc

-- What a delta leaves, `entry` being what there was of the call.
pub record Stepped (tool_index next : ℕ) (entry : PendingOpenAiToolCall)
    (calls : Indexed PendingOpenAiToolCall) (applied : Applied) : Type 0 where
  pub index : ℕ
  pub left : PendingOpenAiToolCall
  pub stored_as : applied.calls ≡ put tool_index left calls
  pub own : left.anthropic_index ≡ some index
  pub allotted :
      ((entry.anthropic_index ≡ some index) × (applied.next_content_index ≡ next))
      ⊎ ((entry.anthropic_index ≡ none) × (index ≡ next) × (applied.next_content_index ≡ next + 1))
  pub stop_kept : left.stopped ≡ entry.stopped
  pub begins : Begins index entry.started left.started applied.update.start
  pub of_call : OfCall index left.started applied.update.delta

module _ {V : Type 0} (J : JsonValue V) (from_str : Text → Option Text) where
  merged-Alike :
      {p : PendingOpenAiToolCall} (named : PendingOpenAiToolCall)
      → Alike named p
      → (merged : Option Text)
      → Ensures
          (λ filled. Alike filled p)
          (and_then merged λ raw. some (record named {
            raw_arguments = raw;
            arguments = normalize_openai_tool_call_arguments from_str raw named.arguments;
          }))
  merged-Alike named alike none = tt
  merged-Alike named alike (some raw) = record {
    same_index = alike.same_index;
    same_started = alike.same_started;
    same_stopped = alike.same_stopped;
  }

  read_delta-Alike :
      (p : PendingOpenAiToolCall) (tool_call : V)
      → Ensures (λ filled. Alike filled p) (read_delta J from_str p tool_call)
  unfolding read_delta set_arguments
  read_delta-Alike p tool_call =
      filled-Alike (set_name (set_id p id) name)
        (Alike-trans (set_name-Alike (set_id p id) name) (set_id-Alike p id))
        (field J from_str (J.get tool_call (codes "function")) (codes "arguments"))
    where
      id : Option Text
      id = field J from_str (some tool_call) (codes "id")

      name : Option Text
      name = field J from_str (J.get tool_call (codes "function")) (codes "name")

      filled-Alike :
          (named : PendingOpenAiToolCall)
          → Alike named p
          → (arguments : Option Text)
          → Ensures (λ filled. Alike filled p) (set_arguments J from_str named arguments)
      filled-Alike named alike none = alike
      filled-Alike named alike (some arguments) =
          merged-Alike named alike (merge_openai_tool_call_arguments named.raw_arguments arguments)

  apply_from :
      (calls : Indexed PendingOpenAiToolCall) (next tool_index : ℕ) (tool_call : V)
      (entry pending : PendingOpenAiToolCall) (after i : ℕ)
      → pending.anthropic_index ≡ some i
      → pending.started ≡ entry.started
      → pending.stopped ≡ entry.stopped
      → ((entry.anthropic_index ≡ some i) × (after ≡ next))
        ⊎ ((entry.anthropic_index ≡ none) × (i ≡ next) × (after ≡ next + 1))
      → Ensures (Stepped tool_index next entry calls) (
          and_then (read_delta J from_str pending tool_call) λ filled.
            and_then
              (delta_update (can_start filled) (unwrap_or filled.anthropic_index tool_index) filled)
              λ (left, update). some (record {
                calls = put tool_index left calls;
                next_content_index = after;
                update = update;
              }))
  apply_from calls next tool_index tool_call entry pending after i own started stopped allot =
      Ensures-and_then (λ filled. Alike filled pending) (Stepped tool_index next entry calls)
        (read_delta J from_str pending tool_call) _ (read_delta-Alike pending tool_call)
        λ filled alike.
          Ensures-and_then (λ (left, update). DeltaStep i filled left update)
            (Stepped tool_index next entry calls)
            (delta_update (can_start filled) (unwrap_or filled.anthropic_index tool_index) filled) _
            (subst
              (λ j.
                Ensures (λ (left, update). DeltaStep i filled left update)
                  (delta_update (can_start filled) j filled))
              (sym (ap (λ o. unwrap_or o tool_index) (alike.same_index ∙ own)))
              (delta_update-DeltaStep (can_start filled) i filled (can_start-started filled)))
            λ (left, update) step. record {
              index = i;
              left = left;
              stored_as = refl;
              own = step.index_kept ∙ alike.same_index ∙ own;
              allotted = allot;
              stop_kept = step.stop_kept ∙ alike.same_stopped ∙ stopped;
              begins =
                  subst (λ before. Begins i before left.started update.start)
                    (alike.same_started ∙ started) step.begins;
              of_call = step.of_call;
            }

  apply_at :
      (calls : Indexed PendingOpenAiToolCall) (next tool_index : ℕ) (tool_call : V)
      (entry : PendingOpenAiToolCall) (o : Option ℕ)
      → entry.anthropic_index ≡ o
      → Ensures (Stepped tool_index next entry calls) (
          and_then (read_delta J from_str (allocated entry o next).0 tool_call) λ filled.
            and_then
              (delta_update (can_start filled) (unwrap_or filled.anthropic_index tool_index) filled)
              λ (left, update). some (record {
                calls = put tool_index left calls;
                next_content_index = (allocated entry o next).1;
                update = update;
              }))
  apply_at calls next tool_index tool_call entry none h =
      apply_from calls next tool_index tool_call entry
        (record entry { anthropic_index = some next }) (next + 1) next refl refl refl
        (inr (h, refl, refl))
  apply_at calls next tool_index tool_call entry (some i) h =
      apply_from calls next tool_index tool_call entry entry next i h refl refl (inl (h, refl))

  pub apply-Stepped :
      (calls : Indexed PendingOpenAiToolCall) (next tool_index : ℕ) (tool_call : V)
      → Ensures
          (Stepped tool_index next (unwrap_or (at tool_index calls) default_pending) calls)
          (apply_openai_tool_call_delta_update J from_str calls next tool_index tool_call)
  unfolding apply_openai_tool_call_delta_update
  apply-Stepped calls next tool_index tool_call =
      apply_at calls next tool_index tool_call (unwrap_or (at tool_index calls) default_pending) _
        refl
