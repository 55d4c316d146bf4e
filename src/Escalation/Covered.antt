-- ===== src/Escalation/Covered.antt =====
-- Which reasons the engine gives, and which of them at once.
use uaagro_voice_agent.Prelude.{
  ◌≡◌, refl, sym, ◌∙◌, Bool, true, false, ◌||◌, not, Option, none, some, arith, if_by, contains,
}
use uaagro_voice_agent.CallFlow.{Intent, intent_eq, talk_to_human}
use uaagro_voice_agent.Escalation.Reasons.{TransferReason, immediate_transfer_reasons, reason_eq}
use uaagro_voice_agent.Escalation.Engine.{
  Patterns, EscalationDecision, TurnSignals, EscalationEngine, record_signals, says, has_intent,
  immediate_decision, conditional_decision, decide, evaluate,
}

abbrev same : Bool → Bool → Bool
same true b = b
same false b = not b

-- A decision that escalates says why, and is immediate exactly for the reasons that
-- IMMEDIATE_TRANSFER_REASONS lists.
abbrev labelled : Bool → Bool → Option TransferReason → Bool
labelled escalate immediate none = not escalate
labelled escalate immediate (some r) = same immediate (contains r immediate_transfer_reasons)

abbrev pub IsLabelled : EscalationDecision → Type 0
IsLabelled d =
    d.escalate ≡ true
    → (r : TransferReason) × (d.reason ≡ some r)
      × (d.immediate ≡ contains r immediate_transfer_reasons)

labelled_reason :
    (escalates immediate : Bool) (reason : Option TransferReason)
    → labelled escalates immediate reason ≡ true
    → escalates ≡ true
    → (r : TransferReason) × (reason ≡ some r) × (immediate ≡ contains r immediate_transfer_reasons)
labelled_reason escalates immediate none h e = absurd (ground arith)
labelled_reason escalates true (some r) h e = (r, refl, sym h)
labelled_reason escalates false (some r) h e = (r, refl, ground arith)

immediate_decision-labelled :
    (p : Patterns) (s : TurnSignals)
    → (let d = immediate_decision p s in labelled d.escalate d.immediate d.reason) ≡ true
unfolding immediate_decision
immediate_decision-labelled p s = ground arith

conditional_decision-labelled :
    (p : Patterns) (e : EscalationEngine) (s : TurnSignals) (repeated : Bool)
    → (let d = conditional_decision p e s repeated in labelled d.escalate d.immediate d.reason)
      ≡ true
unfolding conditional_decision
conditional_decision-labelled p e s repeated = ground arith

-- The turns of which section 12.1 says that a person takes them at once.
abbrev pub calls_for_person : Patterns → TurnSignals → Bool
calls_for_person p s =
    has_intent Intent.safety_emergency s
    || has_intent talk_to_human s
    || says p.abuse s.text
    || says p.legal s.text

immediate_decision_lem :
    (p : Patterns) (s : TurnSignals)
    → ((immediate_decision p s).escalate ≡ calls_for_person p s)
      × ((immediate_decision p s).immediate ≡ calls_for_person p s)
unfolding immediate_decision
immediate_decision_lem p s = (ground arith, ground arith)

pub conditional_decision-immediate :
    (p : Patterns) (e : EscalationEngine) (s : TurnSignals) (repeated : Bool)
    → (conditional_decision p e s repeated).immediate ≡ false
unfolding conditional_decision
conditional_decision-immediate p e s repeated = ground arith

-- A turn is handed over at once exactly when it is an emergency, asks for a person, is abusive or is
-- about a legal claim, whatever the readings, the order, the tools' results and repetition say; and
-- a decision that escalates has a reason, immediate exactly if IMMEDIATE_TRANSFER_REASONS lists it.
pub evaluate-immediate :
    (p : Patterns) (s : TurnSignals) (repeated : Bool) (e : EscalationEngine)
    → ((evaluate p s repeated e).0.immediate ≡ calls_for_person p s)
      × IsLabelled (evaluate p s repeated e).0
unfolding evaluate decide
evaluate-immediate p s repeated e =
    let first = immediate_decision p s in
    let later = conditional_decision p (record_signals s e) s repeated in
    if_by (λ d. (d.immediate ≡ calls_for_person p s) × IsLabelled d) first.escalate first later
      (λ _. (
        (immediate_decision_lem p s).1,
        labelled_reason first.escalate first.immediate first.reason
            (immediate_decision-labelled p s),
      ))
      (λ nobody. (
        conditional_decision-immediate p (record_signals s e) s repeated
            ∙ (sym nobody ∙ (immediate_decision_lem p s).0),
        labelled_reason later.escalate later.immediate later.reason
            (conditional_decision-labelled p (record_signals s e) s repeated),
      ))
