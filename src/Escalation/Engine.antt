-- ===== src/Escalation/Engine.antt =====
-- EscalationEngine of apps/voice-worker/src/voice_worker/flow/escalation.py. Confidences and
-- sentiments are thousandths, a sentiment counted from -1, amounts are paise; the rounding of the
-- mean in floating point is left out. The regular expressions are arguments.
use uaagro_voice_agent.Prelude.{
  ℕ, ◌+◌, ◌-◌, ◌*◌, ltb, leb, Bool, true, false, ◌&&◌, ◌||◌, not, Option, none, some, List, [], ◌∷◌,
  ◌++◌, String, str_eq, length, drop, all, if◌then◌else◌,
}
use uaagro_voice_agent.CallFlow.{Intent, intent_eq, talk_to_human, complaint}
use uaagro_voice_agent.Escalation.Reasons.{
  TransferReason, explicit_request, abuse_or_anger, legal_or_dispute, repeated_misunderstanding,
  low_recognition_confidence, negative_sentiment, complex_or_high_value_order, product_complaint,
  restricted_product, missing_data, scheme_eligibility, caller_disputes_answer, TransferUrgency,
  normal, high, critical,
}

abbrev pub low_confidence_mean : ℕ
low_confidence_mean = 550

abbrev pub confidence_window : ℕ
confidence_window = 3

abbrev pub sentiment_floor : ℕ
sentiment_floor = 700

abbrev pub sentiment_window : ℕ
sentiment_window = 3

abbrev pub default_high_value : ℕ
default_high_value = 2_500_000

abbrev pub default_bulk_units : ℕ
default_bulk_units = 20

-- What `_ABUSE`, `_LEGAL` and `_DISPUTES_ANSWER` find in a text.
pub record Patterns : Type 0 where
  pub abuse : String → Bool
  pub legal : String → Bool
  pub disputes_answer : String → Bool

pub data TicketType : Type 0 where
  safety_incident complaint_ticket dealership lead : TicketType

-- The detail, a text for the log, is left out.
pub record EscalationDecision : Type 0 where
  pub escalate : Bool
  pub reason : Option TransferReason
  pub urgency : TransferUrgency
  pub immediate : Bool
  pub ticket_type : Option TicketType

abbrev pub no_escalation : EscalationDecision
no_escalation = record {
  escalate = false;
  reason = none;
  urgency = normal;
  immediate = false;
  ticket_type = none;
}

abbrev pub hand_over :
    TransferReason → TransferUrgency → Bool → Option TicketType → EscalationDecision
hand_over reason urgency immediate ticket = record {
  escalate = true;
  reason = some reason;
  urgency = urgency;
  immediate = immediate;
  ticket_type = ticket;
}

pub record TurnSignals : Type 0 where
  pub text : String
  pub intent : Intent
  pub asr_confidence : Option ℕ
  pub sentiment : Option ℕ
  pub is_restricted : Bool
  pub no_data_available : Bool
  pub order_value : Option ℕ
  pub order_units : Option ℕ
  pub asserts_scheme_eligibility : Bool

pub record EscalationEngine : Type 0 where
  pub high_value : ℕ
  pub bulk_units : ℕ
  pub confidences : List ℕ
  pub sentiments : List ℕ

abbrev pub new_engine : EscalationEngine
new_engine = record {
  high_value = default_high_value;
  bulk_units = default_bulk_units;
  confidences = [];
  sentiments = [];
}

-- `xs.append(x); del xs[:-n]`
abbrev pub keep_last : {A : Type 0} → ℕ → List A → List A
keep_last n xs = drop (length xs - n) xs

abbrev pub noted : {A : Type 0} → ℕ → Option A → List A → List A
noted n none xs = xs
noted n (some x) xs = keep_last n (xs ++ (x ∷ []))

unfoldable pub record_signals : TurnSignals → EscalationEngine → EscalationEngine
record_signals s e = record e {
  confidences = noted confidence_window s.asr_confidence e.confidences;
  sentiments = noted sentiment_window s.sentiment e.sentiments;
}

unfoldable pub total : List ℕ → ℕ
total [] = 0
total (x ∷ xs) = x + total xs

unfoldable pub confidence_is_low : List ℕ → Bool
confidence_is_low readings =
    not (ltb (length readings) confidence_window)
    && ltb (total readings) (low_confidence_mean * length readings)

abbrev pub is_some_reading : List ℕ → Bool
is_some_reading [] = false
is_some_reading (c ∷ cs) = true

unfoldable pub audio_explains_it : List ℕ → Bool
audio_explains_it readings =
    is_some_reading readings && all (λ c. ltb c low_confidence_mean) readings

unfoldable pub falls_to_floor : List ℕ → Bool
falls_to_floor [] = false
falls_to_floor (x ∷ []) = ltb x sentiment_floor
falls_to_floor (x ∷ y ∷ rest) = ltb y x && falls_to_floor (y ∷ rest)

unfoldable pub sentiment_is_falling : List ℕ → Bool
sentiment_is_falling readings =
    not (ltb (length readings) sentiment_window) && falls_to_floor readings

abbrev pub reaches : ℕ → Option ℕ → Bool
reaches limit none = false
reaches limit (some n) = leb limit n

unfoldable pub is_high_value : EscalationEngine → TurnSignals → Bool
is_high_value e s = reaches e.high_value s.order_value || reaches e.bulk_units s.order_units

abbrev pub says : (String → Bool) → String → Bool
says pattern text = not (str_eq text "") && pattern text

abbrev pub has_intent : Intent → TurnSignals → Bool
has_intent intent s = intent_eq.beq s.intent intent

-- Section 12.1.
unfoldable pub immediate_decision : Patterns → TurnSignals → EscalationDecision
immediate_decision p s =
    if has_intent Intent.safety_emergency s
    then hand_over TransferReason.safety_emergency critical true (some safety_incident)
    else if has_intent talk_to_human s
    then hand_over explicit_request normal true none
    else if says p.abuse s.text
    then hand_over abuse_or_anger high true none
    else if says p.legal s.text
    then hand_over legal_or_dispute high true (some complaint_ticket)
    else no_escalation

-- Section 12.2.
unfoldable pub conditional_decision :
    Patterns → EscalationEngine → TurnSignals → Bool → EscalationDecision
conditional_decision p e s repeated =
    if has_intent Intent.dealership_enquiry s
    then hand_over TransferReason.dealership_enquiry high false (some dealership)
    else if has_intent complaint s
    then hand_over product_complaint high false (some complaint_ticket)
    else if s.is_restricted
    then hand_over restricted_product normal false none
    else if s.asserts_scheme_eligibility
    then hand_over scheme_eligibility normal false none
    else if says p.disputes_answer s.text
    then hand_over caller_disputes_answer normal false none
    else if is_high_value e s
    then hand_over complex_or_high_value_order normal false (some lead)
    else if confidence_is_low e.confidences
    then hand_over low_recognition_confidence normal false none
    else if repeated && not (audio_explains_it e.confidences)
    then hand_over repeated_misunderstanding normal false none
    else if sentiment_is_falling e.sentiments
    then hand_over negative_sentiment high false none
    else if s.no_data_available
    then hand_over missing_data normal false none
    else no_escalation

-- The decision on the readings that are kept.
unfoldable pub decide : Patterns → EscalationEngine → TurnSignals → Bool → EscalationDecision
decide p e s repeated =
    let first = immediate_decision p s in
    if first.escalate then first else conditional_decision p e s repeated

unfoldable pub evaluate :
    Patterns → TurnSignals → Bool → EscalationEngine → EscalationDecision × EscalationEngine
evaluate p s repeated e = let after = record_signals s e in (decide p after s repeated, after)
