-- ===== src/Protocol/AnthropicStream/Tools.antt =====
-- What a step on a tool call does to the invariant.
use unigateway.Prelude.{
  ℕ, ◌≤◌, ◌<◌, ◌≡◌, ◌≢◌, ◌⊎◌, sym, subst, ap, ◌∙◌, inl, inr, Bool, true, false, Option, none, some,
  List, ◌==◌, ==_iff, arith, Bool-cases, unwrap_or,
}
use unigateway.Prelude.Indexed.{Indexed, at, put, at-put-cases, at-put_same, at-put_other}
use unigateway.Core.ToolCalls.{PendingOpenAiToolCall}
use unigateway.Protocol.AnthropicStream.{Event}
use unigateway.Protocol.AnthropicStream.Trace.{
  Phase, opened, Traced, started_phase, Held, Owned, Inv,
}
use unigateway.Protocol.AnthropicStream.Keeping.{Held-move}

pub none-ne-some : {A : Type 0} {a : A} → none ≢ some a
none-ne-some = λ e. cc

pub entry_inj : {a b : PendingOpenAiToolCall} → some a ≡ some b → a ≡ b
entry_inj {a} e = ap (λ o. unwrap_or o a) e

pub some_inj : {i j : ℕ} → some i ≡ some j → i ≡ j
some_inj same = cc

-- What is known of a call before a step on it.
pub record Before (next : ℕ) (active : Option ℕ) (phases : ℕ → Phase) (live : ℕ → Bool)
    (calls : Indexed PendingOpenAiToolCall) (t i : ℕ) (started : Bool) : Type 0 where
  pub phase : phases i ≡ started_phase started
  pub inactive : active ≢ some i
  pub sole :
      (u : ℕ) (other : PendingOpenAiToolCall)
      → live u ≡ true
      → at u calls ≡ some other
      → other.anthropic_index ≡ some i
      → t ≡ u
  pub only :
      (j : ℕ) (call : PendingOpenAiToolCall)
      → at t calls ≡ some call
      → call.anthropic_index ≡ some j
      → i ≡ j

module _ {V : Type 0} {live : ℕ → Bool} {sent : List (Event V)} {next : ℕ}
    {calls : Indexed PendingOpenAiToolCall} {phases : ℕ → Phase} where
  -- A step on a live call of index `i` that leaves the phases of the other indexes alone.
  pub put-Inv :
      {active : Option ℕ} (t i after : ℕ) (left : PendingOpenAiToolCall) (sent' : List (Event V))
      (phases' : ℕ → Phase) (started : Bool)
      → live t ≡ true
      → Inv live sent next active calls phases
      → Before next active phases live calls t i started
      → Traced sent' phases'
      → ((j : ℕ) → i ≢ j → phases' j ≡ phases j)
      → phases' i ≡ started_phase left.started
      → left.anthropic_index ≡ some i
      → left.stopped ≡ false
      → next ≤ after
      → i < after
      → Inv live sent' after active (put t left calls) phases'
  put-Inv {active} t i after left sent' phases' started is_live inv before traced' agree phase own
        unstopped grows below =
      record {
        traced = traced';
        unused = λ j h. agree j (λ e. absurd (omega (arith, e))) ∙ inv.unused j (omega arith);
        active_open =
            λ j h. agree j (λ e. before.inactive (h ∙ ap some (sym e))) ∙ inv.active_open j h;
        held = λ u call h k. held u call h (at-put-cases t u left call calls k);
        apart = λ u v j call other a b h k m n.
            apart u v j call other a b (at-put-cases t u left call calls h)
              (at-put-cases t v left other calls k) m n;
        held_open = λ j h. still_open j h (Bool-cases (i == j));
      }
    where
      held :
          (u : ℕ) (call : PendingOpenAiToolCall)
          → live u ≡ true
          → ((t ≡ u) × (left ≡ call)) ⊎ ((t ≢ u) × (at u calls ≡ some call))
          → (j : ℕ) × Held after active phases' call j
      held u call h (inl (same, e)) =
          subst (λ c. (j : ℕ) × Held after active phases' c j) e
            (
              i,
              record {
                own = own;
                below = below;
                phase = phase;
                unstopped = unstopped;
                inactive = before.inactive;
              },
            )
      held u call h (inr (other, k)) =
          let (j, was) = inv.held u call h k in
          (
            j,
            Held-move was grows
                (agree j (λ e. other (before.sole u call h k (was.own ∙ ap some (sym e)))))
                was.inactive,
          )

      apart :
          (u v j : ℕ) (call other : PendingOpenAiToolCall)
          → live u ≡ true
          → live v ≡ true
          → ((t ≡ u) × (left ≡ call)) ⊎ ((t ≢ u) × (at u calls ≡ some call))
          → ((t ≡ v) × (left ≡ other)) ⊎ ((t ≢ v) × (at v calls ≡ some other))
          → call.anthropic_index ≡ some j
          → other.anthropic_index ≡ some j
          → u ≡ v
      apart u v j call other a b (inl (same, e)) (inl (same', e')) m n = sym same ∙ same'
      apart u v j call other a b (inl (same, e)) (inr (differ, k)) m n =
          absurd (
            differ
              (before.sole v other b k (n ∙ sym m ∙ sym (ap (λ c. c.anthropic_index) e) ∙ own)))
      apart u v j call other a b (inr (differ, k)) (inl (same, e)) m n =
          absurd (
            differ (before.sole u call a k (m ∙ sym n ∙ sym (ap (λ c. c.anthropic_index) e) ∙ own)))
      apart u v j call other a b (inr (differ, h)) (inr (differ', k)) m n =
          inv.apart u v j call other a b h k m n

      still_open :
          (j : ℕ)
          → phases' j ≡ opened
          → (i == j ≡ true) ⊎ (i == j ≡ false)
          → (active ≡ some j) ⊎ Owned live (put t left calls) j
      still_open j h (inl same) =
          inr (t, (left, is_live, at-put_same t left calls, own ∙ ap some ((==_iff i j).0 same)))
      still_open j h (inr other) = moved (inv.held_open j (sym (agree j differ) ∙ h))
        where
          differ : i ≢ j
          differ = ground (arith, other)

          moved :
              (active ≡ some j) ⊎ Owned live calls j
              → (active ≡ some j) ⊎ Owned live (put t left calls) j
          moved (inl e) = inl e
          moved (inr (u, (call, a, found, its))) = inr (
            u,
            (
              call,
              a,
              at-put_other t u left calls
                    (λ e. differ (before.only j call (ap (λ x. at x calls) e ∙ found) its))
                  ∙ found,
              its,
            ),
          )

  -- A call leaves the live ones: its block is stopped, or was never started.
  pub retire-Inv :
      {active : Option ℕ} (left_live : ℕ → Bool) (t i : ℕ) (left : PendingOpenAiToolCall)
      (sent' : List (Event V)) (phases' : ℕ → Phase) (started : Bool)
      → ((u : ℕ) → left_live u ≡ true → (live u ≡ true) × (t ≢ u))
      → ((u : ℕ) → live u ≡ true → t ≢ u → left_live u ≡ true)
      → Inv live sent next active calls phases
      → Before next active phases live calls t i started
      → i < next
      → Traced sent' phases'
      → ((j : ℕ) → i ≢ j → phases' j ≡ phases j)
      → phases' i ≢ opened
      → Inv left_live sent' next active (put t left calls) phases'
  retire-Inv {active} left_live t i left sent' phases' started fewer others inv before below traced'
        agree shut =
      record {
        traced = traced';
        unused = λ j h. agree j (λ e. absurd (omega (arith, e))) ∙ inv.unused j h;
        active_open =
            λ j h. agree j (λ e. before.inactive (h ∙ ap some (sym e))) ∙ inv.active_open j h;
        held = λ u call a k.
            let (j, was) = inv.held u call (fewer u a).0 (old u call a k) in
            (
              j,
              Held-move was (omega arith)
                  (agree j (λ e. (fewer u a).1 (
                    before.sole u call (fewer u a).0 (old u call a k) (was.own ∙ ap some (sym e)))))
                  was.inactive,
            );
        apart = λ u v j call other a b h k.
            inv.apart u v j call other (fewer u a).0 (fewer v b).0 (old u call a h)
              (old v other b k);
        held_open = λ j h. still_open j h (Bool-cases (i == j));
      }
    where
      old :
          (u : ℕ) (call : PendingOpenAiToolCall)
          → left_live u ≡ true
          → at u (put t left calls) ≡ some call
          → at u calls ≡ some call
      old u call a k = sym (at-put_other t u left calls (fewer u a).1) ∙ k

      still_open :
          (j : ℕ)
          → phases' j ≡ opened
          → (i == j ≡ true) ⊎ (i == j ≡ false)
          → (active ≡ some j) ⊎ Owned left_live (put t left calls) j
      still_open j h (inl same) = absurd (shut (ap phases' ((==_iff i j).0 same) ∙ h))
      still_open j h (inr other) = moved (inv.held_open j (sym (agree j differ) ∙ h))
        where
          differ : i ≢ j
          differ = ground (arith, other)

          moved :
              (active ≡ some j) ⊎ Owned live calls j
              → (active ≡ some j) ⊎ Owned left_live (put t left calls) j
          moved (inl e) = inl e
          moved (inr (u, (call, a, found, its))) =
              let apart : t ≢ u =
                λ e. differ (before.only j call (ap (λ x. at x calls) e ∙ found) its) in
              inr (u, (call, others u a apart, at-put_other t u left calls apart ∙ found, its))
