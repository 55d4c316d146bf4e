-- ===== src/Escalation/Handed.antt =====
-- The engine's decisions in the hands of the transfer tool.
use uaagro_voice_agent.Prelude.{
  ℕ, ◌≡◌, ◌≢◌, refl, sym, ap, ◌∙◌, Bool, true, false, Option, none, some, ◌⊎◌, inl, inr, string_eq,
  arith, leb, if_by, Bool-cases, Option-cases, all,
}
use mathlib.Core.Path.{subst}
use uaagro_voice_agent.CallFlow.{Intent, intent_eq}
use uaagro_voice_agent.Escalation.Reasons.{
  TransferReason, explicit_request, reason_eq, TransferUrgency, critical,
}
use uaagro_voice_agent.Escalation.Engine.{
  conditional_decision, record_signals, Patterns, TurnSignals, EscalationEngine, EscalationDecision,
  evaluate, decide, immediate_decision, has_intent, hand_over, safety_incident,
}
use uaagro_voice_agent.Escalation.Covered.{conditional_decision-immediate}
use uaagro_voice_agent.Escalation.Transfer.{
  Centre, Desk, Why, daily_cap_reached, centre_closed, chain_exhausted, Transferred, TransferTarget,
  transfer, commit_callback, is_open, chain, first_free, ring, overrides, run_at, run,
}
use uaagro_voice_agent.Escalation.Reached.{
  guarded, is_busy, IsFirstFree, first_free-some, first_free-none,
}

abbrev pub reason_or : Option TransferReason → TransferReason
reason_or none = explicit_request
reason_or (some r) = r

-- The agent asks the transfer tool with the engine's decision (`_with_transfer` of
-- apps/voice-worker/src/voice_worker/flow/agent.py).
abbrev pub handed : Desk → EscalationDecision → ℕ → ℕ → Transferred
handed desk d weekday time = run desk (reason_or d.reason) (some d.urgency) weekday time

run-override :
    (desk : Desk) (centre : Centre) (reason : TransferReason) (u : TransferUrgency)
    (weekday time : ℕ)
    → desk.centre ≡ some centre
    → overrides reason u ≡ true
    → run desk reason (some u) weekday time
      ≡ ring reason u centre (first_free desk.busy (chain desk centre))
unfolding run run_at
run-override desk centre reason u weekday time known o =
    ap (run_at desk reason u weekday time) known
    ∙ guarded (leb 3 desk.used) (overrides reason u) (is_open centre weekday time) _ _ _
        (λ x. x ≡ ring reason u centre (first_free desk.busy (chain desk centre)))
        (λ plain _. absurd (ground (arith, sym plain ∙ o)))
        (λ plain _ _. absurd (ground (arith, sym plain ∙ o))) (λ _. refl)

-- A result that only commits to a callback, for the hours or the cap.
abbrev pub IsTurnedAway : Centre → Transferred → Type 0
IsTurnedAway centre result =
    (r : TransferReason) × (u : TransferUrgency) × (why : Why) × (result
      ≡ commit_callback r u why centre)
    × (why ≢ chain_exhausted)

run-closed :
    (desk : Desk) (centre : Centre) (reason : TransferReason) (u : TransferUrgency)
    (weekday time : ℕ)
    → desk.centre ≡ some centre
    → is_open centre weekday time ≡ false
    → overrides reason u ≡ false
    → IsTurnedAway centre (run desk reason (some u) weekday time)
unfolding run run_at
run-closed desk centre reason u weekday time known closed plain =
    subst (λ c. IsTurnedAway centre (run_at desk reason u weekday time c)) (sym known)
      (guarded (leb 3 desk.used) (overrides reason u) (is_open centre weekday time) _ _ _
        (IsTurnedAway centre) (λ _ _. (reason, u, daily_cap_reached, refl, λ e. cc))
        (λ _ _ _. (reason, u, centre_closed, refl, λ e. cc)) (λ allowed. absurd (ground arith)))

immediate_decision-overrides :
    (p : Patterns) (s : TurnSignals)
    → (let d = immediate_decision p s in overrides (reason_or d.reason) d.urgency)
      ≡ has_intent Intent.safety_emergency s
unfolding immediate_decision
immediate_decision-overrides p s = ground arith

-- What the engine decides at once overrides the hours and the cap exactly in an emergency.
decide-overrides :
    (p : Patterns) (s : TurnSignals) (repeated : Bool) (e : EscalationEngine)
    → (let d = decide p e s repeated in
        d.immediate ≡ true
        → overrides (reason_or d.reason) d.urgency ≡ has_intent Intent.safety_emergency s)
unfolding decide
decide-overrides p s repeated e =
    let first = immediate_decision p s in
    if_by
      (λ d.
        d.immediate ≡ true
        → overrides (reason_or d.reason) d.urgency ≡ has_intent Intent.safety_emergency s)
      first.escalate first (conditional_decision p e s repeated)
      (λ _ _. immediate_decision-overrides p s)
      (λ _ now. absurd (ground (arith, conditional_decision-immediate p e s repeated)))

emergency_overrides : overrides TransferReason.safety_emergency critical ≡ true
emergency_overrides = refl

-- An emergency is the engine's first rule.
decide-emergency :
    (p : Patterns) (s : TurnSignals) (repeated : Bool) (e : EscalationEngine)
    → has_intent Intent.safety_emergency s ≡ true
    → decide p e s repeated
      ≡ hand_over TransferReason.safety_emergency critical true (some safety_incident)
unfolding decide immediate_decision
decide-emergency p s repeated e h = rw (h, decide, immediate_decision) refl

-- An emergency that is connected to the first rung that is not busy, or, where all are busy, is
-- called back.
abbrev pub IsReached : Desk → Centre → Transferred → Type 0
IsReached desk centre result =
    ((target : TransferTarget) × (result ≡ transfer TransferReason.safety_emergency critical target)
      × IsFirstFree desk target (chain desk centre))
    ⊎ ((result ≡ commit_callback TransferReason.safety_emergency critical chain_exhausted centre)
        × (all (is_busy desk) (chain desk centre) ≡ true))

ring-IsReached :
    (desk : Desk) (centre : Centre)
    → IsReached desk centre (
        ring TransferReason.safety_emergency critical centre
          (first_free desk.busy (chain desk centre)))
unfolding ring
ring-IsReached desk centre = elim (Option-cases (first_free desk.busy (chain desk centre))) [
  | inl none_free ↦ inr (
    ap (ring TransferReason.safety_emergency critical centre) none_free,
    first_free-none desk (chain desk centre) none_free,
  )
  | inr (target, found) ↦ inl (
    target,
    ap (ring TransferReason.safety_emergency critical centre) found,
    first_free-some desk (chain desk centre) target found,
  )
]

-- An immediate transfer after hours: where the engine hands a turn over at once and the centre is
-- closed, an emergency is connected to the first rung of the chain that is not busy, whatever the
-- cap, and is called back only where every rung is busy; every other reason that is immediate, a
-- request for a person among them, is turned away with a callback for the hours or the cap.
pub handed-closed :
    (p : Patterns) (s : TurnSignals) (repeated : Bool) (e : EscalationEngine) (desk : Desk)
    (centre : Centre) (weekday time : ℕ)
    → (evaluate p s repeated e).0.immediate ≡ true
    → desk.centre ≡ some centre
    → is_open centre weekday time ≡ false
    → ((has_intent Intent.safety_emergency s ≡ true)
        × IsReached desk centre (handed desk (evaluate p s repeated e).0 weekday time))
      ⊎ ((has_intent Intent.safety_emergency s ≡ false)
          × IsTurnedAway centre (handed desk (evaluate p s repeated e).0 weekday time))
unfolding evaluate
handed-closed p s repeated e desk centre weekday time now known closed =
    let d = decide p (record_signals s e) s repeated in
    let o = decide-overrides p s repeated (record_signals s e) now in
    elim (Bool-cases (has_intent Intent.safety_emergency s)) [
      | inl emergency ↦ inl (
        emergency,
        subst (IsReached desk centre)
            (sym (
              ap (λ i. handed desk i weekday time)
                (decide-emergency p s repeated (record_signals s e) emergency)
              ∙ run-override desk centre TransferReason.safety_emergency critical weekday time known
                  emergency_overrides))
            (ring-IsReached desk centre),
      )
      | inr other ↦ inr (
        other,
        run-closed desk centre (reason_or d.reason) d.urgency weekday time known closed (o ∙ other),
      )
    ]
