-- ===== src/Protocol/AnthropicStream/Deltas.antt =====
-- What a delta of a tool call does to the invariant.
use unigateway.Prelude.{
  ℕ, ◌+◌, ◌≤◌, ◌<◌, ◌≡◌, ◌⊎◌, refl, sym, subst, ap, ◌∙◌, inl, inr, Bool, true, false, Option, none,
  some, List, arith, unwrap_or,
}
use unigateway.Prelude.Indexed.{Indexed, at, put}
use unigateway.Core.ToolCalls.{
  PendingOpenAiToolCall, default_pending, AnthropicToolUseStart, AnthropicInputJsonDelta,
}
use unigateway.Protocol.AnthropicStream.{tool_use, Event}
use unigateway.Protocol.AnthropicStream.Chunks.{send_tool_start, send_tool_delta}
use unigateway.Protocol.AnthropicStream.Trace.{
  Phase, fresh, opened, set_phase, start, started_phase, Held, Inv,
}
use unigateway.Core.ToolCalls.Updates.{OfCall, Begins}
use unigateway.Protocol.AnthropicStream.Keeping.{
  set_phase_same, set_phase_other, delta-Inv, fresh-ne-opened,
}
use unigateway.Protocol.AnthropicStream.Tools.{none-ne-some, entry_inj, some_inj, Before, put-Inv}

pub started_open :
    (phases : ℕ → Phase) {started : Bool} (i : ℕ)
    → phases i ≡ started_phase started
    → started ≡ true
    → phases i ≡ opened
started_open phases i phase begun = phase ∙ ap started_phase begun

-- What is known of a call after its delta has been read.
record Prior (next : ℕ) (active : Option ℕ) (phases : ℕ → Phase) (live : ℕ → Bool)
    (calls : Indexed PendingOpenAiToolCall) (t i after : ℕ) (entry : PendingOpenAiToolCall)
    : Type 0 where
  pub before : Before next active phases live calls t i entry.started
  below : i < after
  grows : next ≤ after
  unstopped : entry.stopped ≡ false

module _ {V : Type 0} {live : ℕ → Bool} {sent : List (Event V)} {next : ℕ} {active : Option ℕ}
    {calls : Indexed PendingOpenAiToolCall} {phases : ℕ → Phase} where
  pub call-Before :
      (t i : ℕ) (call : PendingOpenAiToolCall)
      → at t calls ≡ some call
      → live t ≡ true
      → Inv live sent next active calls phases
      → Held next active phases call i
      → Before next active phases live calls t i call.started
  call-Before t i call h is_live inv held = record {
    phase = held.phase;
    inactive = held.inactive;
    sole = λ u other a k own. inv.apart t u i call other is_live a h k held.own own;
    only = λ j other found own.
        some_inj (sym held.own ∙ ap (λ c. c.anthropic_index) (entry_inj (sym h ∙ found)) ∙ own);
  }

  prior :
      (t i after : ℕ) (o : Option PendingOpenAiToolCall)
      → at t calls ≡ o
      → live t ≡ true
      → Inv live sent next active calls phases
      → (((unwrap_or o default_pending).anthropic_index ≡ some i) × (after ≡ next))
        ⊎ (((unwrap_or o default_pending).anthropic_index ≡ none) × (i ≡ next) × (after ≡ next + 1))
      → Prior next active phases live calls t i after (unwrap_or o default_pending)
  prior t i after none h is_live inv (inl (own, same)) = cc
  prior t i after none h is_live inv (inr (none_yet, new, more)) = record {
    before = record {
      phase = inv.unused i (omega (arith, new));
      inactive =
          λ e. fresh-ne-opened (sym (inv.unused i (omega (arith, new))) ∙ inv.active_open i e);
      sole = λ u other a k own.
          let (j, was) = inv.held u other a k in
          absurd (omega (arith, was.below, new, some_inj (sym was.own ∙ own)));
      only = λ j call found own. absurd (none-ne-some (sym h ∙ found));
    };
    below = omega (arith, new, more);
    grows = omega (arith, more);
    unstopped = refl;
  }
  prior t i after (some call) h is_live inv (inl (own, same)) =
      let (j, was) = inv.held t call is_live h in
      let held : Held next active phases call i =
        subst (Held next active phases call) (some_inj (sym was.own ∙ own)) was in
      record {
        before = call-Before t i call h is_live inv held;
        below = omega (arith, held.below, same);
        grows = omega (arith, same);
        unstopped = held.unstopped;
      }
  prior t i after (some call) h is_live inv (inr (none_yet, new, more)) =
      let (j, was) = inv.held t call is_live h in absurd (none-ne-some (sym none_yet ∙ was.own))

  -- A delta of a call whose block is open.
  pub sent_delta-Inv :
      {started : Bool} (i : ℕ) (part : Option AnthropicInputJsonDelta)
      → OfCall i started part
      → (started ≡ true → phases i ≡ opened)
      → Inv live sent next active calls phases
      → Inv live (send_tool_delta part sent) next active calls phases
  unfolding send_tool_delta
  sent_delta-Inv i none of_call is_open inv = inv
  sent_delta-Inv i (some part) (of_index, begun) is_open inv =
      delta-Inv part.anthropic_index _ (ap phases of_index ∙ is_open begun) inv

-- How a call got its index.
abbrev pub Allotted : PendingOpenAiToolCall → (i next after : ℕ) → Type 0
Allotted entry i next after =
    ((entry.anthropic_index ≡ some i) × (after ≡ next))
    ⊎ ((entry.anthropic_index ≡ none) × (i ≡ next) × (after ≡ next + 1))

module _ {V : Type 0} {live : ℕ → Bool} {sent : List (Event V)} {next : ℕ}
    {calls : Indexed PendingOpenAiToolCall} {phases : ℕ → Phase} where
  -- A delta that starts no block.
  pub continued-Inv :
      {active : Option ℕ} (t i after : ℕ) (o : Option PendingOpenAiToolCall)
      (left : PendingOpenAiToolCall) (part : Option AnthropicInputJsonDelta)
      → at t calls ≡ o
      → live t ≡ true
      → Inv live sent next active calls phases
      → Allotted (unwrap_or o default_pending) i next after
      → left.anthropic_index ≡ some i
      → left.stopped ≡ (unwrap_or o default_pending).stopped
      → left.started ≡ (unwrap_or o default_pending).started
      → OfCall i left.started part
      → Inv live (send_tool_delta part sent) after active (put t left calls) phases
  continued-Inv {active} t i after o left part found is_live inv allotted own stopped same of_call =
      sent_delta-Inv i part of_call (started_open phases i phase) (
        put-Inv t i after left sent phases (unwrap_or o default_pending).started is_live inv
          known.before inv.traced (λ j e. refl) phase own (stopped ∙ known.unstopped) known.grows
          known.below)
    where
      known : Prior next active phases live calls t i after (unwrap_or o default_pending)
      known = prior t i after o found is_live inv allotted

      phase : phases i ≡ started_phase left.started
      phase = known.before.phase ∙ ap started_phase (sym same)

  -- A delta that starts the call's block, where no block is active.
  pub begun-Inv :
      (t i after : ℕ) (o : Option PendingOpenAiToolCall) (left : PendingOpenAiToolCall)
      (begin : AnthropicToolUseStart) (part : Option AnthropicInputJsonDelta)
      → at t calls ≡ o
      → live t ≡ true
      → Inv live sent next none calls phases
      → Allotted (unwrap_or o default_pending) i next after
      → left.anthropic_index ≡ some i
      → left.stopped ≡ (unwrap_or o default_pending).stopped
      → Begins i (unwrap_or o default_pending).started left.started (some begin)
      → OfCall i left.started part
      → Inv live
          (send_tool_delta part (send_tool_start (some begin) sent))
          after
          none
          (put t left calls)
          (set_phase phases begin.anthropic_index opened)
  unfolding send_tool_start
  begun-Inv t i after o left begin part found is_live inv allotted own stopped
        (of_index, unstarted, begun) of_call =
      sent_delta-Inv i part of_call
        (started_open (set_phase phases begin.anthropic_index opened) i phase)
        (put-Inv t i after left _ (set_phase phases begin.anthropic_index opened)
          (unwrap_or o default_pending).started is_live inv known.before
          (start begin.anthropic_index (tool_use begin.id begin.name) not_begun inv.traced)
          (λ j e. set_phase_other phases begin.anthropic_index j opened (λ k. e (sym of_index ∙ k)))
          phase own (stopped ∙ known.unstopped) known.grows known.below)
    where
      known : Prior next none phases live calls t i after (unwrap_or o default_pending)
      known = prior t i after o found is_live inv allotted

      not_begun : phases begin.anthropic_index ≡ fresh
      not_begun = ap phases of_index ∙ known.before.phase ∙ ap started_phase unstarted

      phase : set_phase phases begin.anthropic_index opened i ≡ started_phase left.started
      phase =
          ap (set_phase phases begin.anthropic_index opened) (sym of_index)
          ∙ set_phase_same phases begin.anthropic_index opened
          ∙ ap started_phase (sym begun)
