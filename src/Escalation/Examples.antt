-- ===== src/Escalation/Examples.antt =====
-- The engine and the tool on turns of their own; a pattern finds a text that is its own word.
use uaagro_voice_agent.Prelude.{
  String, ◌≡◌, refl, Bool, true, false, none, some, ◌⊎◌, List, [], ◌∷◌, str_eq,
}
use uaagro_voice_agent.CallFlow.{Intent, intent_eq}
use uaagro_voice_agent.Escalation.Reasons.{TransferReason, explicit_request, TransferUrgency}
use uaagro_voice_agent.CallFlow.{unknown}
use uaagro_voice_agent.Escalation.Engine.{
  Patterns, TurnSignals, EscalationEngine, new_engine, evaluate, has_intent, decide,
  immediate_decision,
}
use uaagro_voice_agent.Escalation.Transfer.{
  Centre, Desk, transfer, run, run_at, is_open, chain, first_free, ring, overrides, urgency_of,
  default_urgency, centre_desk,
}
use uaagro_voice_agent.Escalation.Covered.{calls_for_person, IsLabelled, evaluate-immediate}
use uaagro_voice_agent.Escalation.Reached.{Explains, run-Explains}
use uaagro_voice_agent.Escalation.Handed.{handed, IsTurnedAway, IsReached, handed-closed}

-- A turn of which nothing is known but the text.
abbrev saying : String → TurnSignals
saying text = record {
  text = text;
  intent = unknown;
  asr_confidence = none;
  sentiment = none;
  is_restricted = false;
  no_data_available = false;
  order_value = none;
  order_units = none;
  asserts_scheme_eligibility = false;
}

abbrev silent : TurnSignals
silent = saying ""

abbrev words : Patterns
words = record {
  abuse = str_eq "chup kar";
  legal = str_eq "mukadma";
  disputes_answer = str_eq "galat hai";
}

-- Angry, on a bad line.
abbrev angry : TurnSignals
angry = record (saying "chup kar") { asr_confidence = some 300 }

abbrev bad_line : EscalationEngine
bad_line = record new_engine { confidences = 200 ∷ 250 ∷ 300 ∷ [] }

evaluate-angry : (evaluate words angry true bad_line).0.reason ≡ some TransferReason.abuse_or_anger
unfolding evaluate decide immediate_decision
evaluate-angry = refl

evaluate-immediate_example :
    ((evaluate words angry true bad_line).0.immediate ≡ calls_for_person words angry)
    × IsLabelled (evaluate words angry true bad_line).0
evaluate-immediate_example = evaluate-immediate words angry true bad_line

abbrev turns : List (TurnSignals × Bool)
turns =
    (record silent { asr_confidence = some 900 }, false)
    ∷ (record silent { asr_confidence = some 500 }, false)
    ∷ (silent, false)
    ∷ (record silent { asr_confidence = some 400; sentiment = some 900 }, false)
    ∷ (record silent { asr_confidence = some 600 }, false)
    ∷ []

-- A centre of Barabanki, open from Monday to Saturday.
abbrev barabanki : Centre
barabanki = record {
  centre_name = "Barabanki";
  transfer_number = some "9000000002";
  working_days = 0 ∷ 1 ∷ 2 ∷ 3 ∷ 4 ∷ 5 ∷ [];
  open_time = 540;
  close_time = 1_140;
  phone = some "9000000002";
}

-- The manager is on another call.
abbrev desk : Desk
desk = record {
  centre = some barabanki;
  manager = some ("Ramesh", some "9000000001");
  regional = none;
  helpline = some "9000000004";
  busy = "9000000001" ∷ [];
  used = 1;
}

run-desk :
    run desk explicit_request none 2 600
    ≡ transfer explicit_request TransferUrgency.normal
        (record { kind = centre_desk; name = some "Barabanki"; number = "9000000002"; rank = 2 })
unfolding run run_at is_open chain first_free ring default_urgency
run-desk = refl

run-Explains_example :
    Explains desk barabanki 2 600
      (overrides explicit_request (urgency_of explicit_request none))
      (run desk explicit_request none 2 600)
run-Explains_example = run-Explains desk barabanki explicit_request none 2 600 refl

-- On Sunday.
abbrev poisoned : TurnSignals
poisoned = record silent { intent = Intent.safety_emergency }

handed-closed_example :
    ((has_intent Intent.safety_emergency poisoned ≡ true)
      × IsReached desk barabanki (handed desk (evaluate words poisoned false new_engine).0 6 600))
    ⊎ ((has_intent Intent.safety_emergency poisoned ≡ false)
        × IsTurnedAway barabanki (handed desk (evaluate words poisoned false new_engine).0 6 600))
unfolding evaluate decide immediate_decision is_open
handed-closed_example =
    handed-closed words poisoned false new_engine desk barabanki 6 600 refl refl refl
