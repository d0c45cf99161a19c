-- ===== src/Protocol/AnthropicStream/Keeping.antt =====
-- What a delta, a start and a stop of the active block do to the invariant.
use unigateway.Prelude.{
  ℕ, ◌+◌, ◌≤◌, ◌≡◌, ◌≢◌, ◌⊎◌, refl, sym, subst, ap, ◌∙◌, inl, inr, Bool, false, Option, none, some,
  List, [], ◌∷◌, ◌++◌, ◌==◌, ==_iff, arith, Bool-cases,
}
use unigateway.Prelude.Indexed.{Indexed}
use unigateway.Core.ToolCalls.{PendingOpenAiToolCall}
use unigateway.Protocol.AnthropicStream.{
  ContentBlock, Delta, Event, content_block_start, content_block_delta, content_block_stop,
  BlockType, thinking_type, text_type, reused,
}
use unigateway.Protocol.AnthropicStream.Trace.{
  Phase, fresh, opened, closed, set_phase, start, delta, stop, Held, Owned, Inv,
}

pub set_phase_same :
    (phases : ℕ → Phase) (i : ℕ) (phase : Phase) → set_phase phases i phase i ≡ phase
set_phase_same phases i phase = ground arith

pub set_phase_other :
    (phases : ℕ → Phase) (i j : ℕ) (phase : Phase) → i ≢ j → set_phase phases i phase j ≡ phases j
set_phase_other phases i j phase other = ground arith

some-ne : {i j : ℕ} → some i ≢ some j → i ≢ j
some-ne differ same = differ (ap some same)

some_inj : {i j : ℕ} → some i ≡ some j → i ≡ j
some_inj same = cc

pub fresh-ne-opened : fresh ≢ opened
fresh-ne-opened = λ e. cc

pub closed-ne-opened : closed ≢ opened
closed-ne-opened = λ e. cc

-- The phase at an index after one at an index is set.
abbrev pub Set : (ℕ → Phase) → ℕ → ℕ → Phase → Type 0
Set phases i j phase =
    ((i ≡ j) × (set_phase phases i phase j ≡ phase))
    ⊎ ((i ≢ j) × (set_phase phases i phase j ≡ phases j))

pub set_phase-cases : (phases : ℕ → Phase) (i j : ℕ) (phase : Phase) → Set phases i j phase
set_phase-cases phases i j phase = elim (Bool-cases (i == j)) [
  | inl same ↦ inl ((==_iff i j).0 same, rw same refl)
  | inr other ↦ inr (λ e. differ other e, rw other refl)
]
  where
    differ : (i == j) ≡ false → i ≢ j
    differ other e = ground arith

-- A call that a step leaves alone.
pub Held-move :
    {next later : ℕ} {active active' : Option ℕ} {phases phases' : ℕ → Phase}
    {call : PendingOpenAiToolCall} {i : ℕ}
    → Held next active phases call i
    → next ≤ later
    → phases' i ≡ phases i
    → active' ≢ some i
    → Held later active' phases' call i
Held-move held grows same apart = record {
  own = held.own;
  below = omega (arith, held.below);
  phase = same ∙ held.phase;
  unstopped = held.unstopped;
  inactive = apart;
}

module _ {V : Type 0} {live : ℕ → Bool} {sent : List (Event V)} {next : ℕ}
    {calls : Indexed PendingOpenAiToolCall} {phases : ℕ → Phase} where
  -- A delta to an open block.
  pub delta-Inv :
      {active : Option ℕ} (index : ℕ) (part : Delta)
      → phases index ≡ opened
      → Inv live sent next active calls phases
      → Inv live (sent ++ (content_block_delta index part ∷ [])) next active calls phases
  delta-Inv index part is_open inv = record {
    traced = delta index part is_open inv.traced;
    unused = inv.unused;
    active_open = inv.active_open;
    held = inv.held;
    apart = inv.apart;
    held_open = inv.held_open;
  }

  -- The active block stops.
  pub stop-Inv :
      (index : ℕ)
      → Inv live sent next (some index) calls phases
      → Inv live
          (sent ++ (content_block_stop index ∷ []))
          next
          none
          calls
          (set_phase phases index closed)
  stop-Inv index inv = record {
    traced = stop index (inv.active_open index refl) inv.traced;
    unused = λ i h. unused i h (set_phase-cases phases index i closed);
    active_open = λ i h. cc;
    held = λ t call h k.
        let (i, held) = inv.held t call h k in
        (
          i,
          Held-move held (omega arith)
              (set_phase_other phases index i closed (some-ne held.inactive)) (λ e. cc),
        );
    apart = inv.apart;
    held_open = λ i h. still_open i h (set_phase-cases phases index i closed);
  }
    where
      unused :
          (i : ℕ) → next ≤ i → Set phases index i closed → set_phase phases index closed i ≡ fresh
      unused i h (inl (same, now)) =
          absurd (fresh-ne-opened (sym (inv.unused i h) ∙ inv.active_open i (ap some same)))
      unused i h (inr (other, now)) = now ∙ inv.unused i h

      still_open :
          (i : ℕ)
          → set_phase phases index closed i ≡ opened
          → Set phases index i closed
          → (none ≡ some i) ⊎ Owned live calls i
      still_open i h (inl (same, now)) = absurd (closed-ne-opened (sym now ∙ h))
      still_open i h (inr (other, now)) = elim (inv.held_open i (sym now ∙ h)) [
        | inl active ↦ absurd (other (some_inj active))
        | inr owned ↦ inr owned
      ]

  -- A block of the next index starts and is the active one.
  pub start-Inv :
      (block : ContentBlock)
      → Inv live sent next none calls phases
      → Inv live
          (sent ++ (content_block_start next block ∷ []))
          (next + 1)
          (some next)
          calls
          (set_phase phases next opened)
  start-Inv block inv = record {
    traced = start next block (inv.unused next (omega arith)) inv.traced;
    unused = λ i h.
        set_phase_other phases next i opened (λ e. absurd (omega (arith, e)))
        ∙ inv.unused i (omega arith);
    active_open = λ i h.
        subst (λ j. set_phase phases next opened j ≡ opened) (some_inj h)
          (set_phase_same phases next opened);
    held = λ t call h k.
        let (i, held) = inv.held t call h k in
        (
          i,
          Held-move held (omega arith)
              (set_phase_other phases next i opened (λ e. absurd (omega (arith, e, held.below))))
              (λ e. absurd (omega (arith, some_inj e, held.below))),
        );
    apart = inv.apart;
    held_open = λ i h. still_open i h (set_phase-cases phases next i opened);
  }
    where
      still_open :
          (i : ℕ)
          → set_phase phases next opened i ≡ opened
          → Set phases next i opened
          → (some next ≡ some i) ⊎ Owned live calls i
      still_open i h (inl (same, now)) = inl (ap some same)
      still_open i h (inr (other, now)) = elim (inv.held_open i (sym now ∙ h)) [
        | inl active ↦ cc
        | inr owned ↦ inr owned
      ]

pub reused-active :
    (active : Option ℕ) (current : Option BlockType) (block_type : BlockType) (i : ℕ)
    → reused active current block_type ≡ some i
    → active ≡ some i
reused-active none current block_type i h = cc
reused-active (some index) none block_type i h = cc
reused-active (some index) (some thinking_type) thinking_type i h = h
reused-active (some index) (some text_type) text_type i h = h
reused-active (some index) (some thinking_type) text_type i h = cc
reused-active (some index) (some text_type) thinking_type i h = cc
