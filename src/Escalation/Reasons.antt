-- ===== src/Escalation/Reasons.antt =====
-- TransferReason and TransferUrgency of packages/domain/src/uaagro_domain/enums.py.
use uaagro_voice_agent.Prelude.{
  ℕ, ◌≡◌, ◌==◌, refl, Bool, true, false, List, [], ◌∷◌, code_iff, get_or, Eq,
}

pub data TransferReason : Type 0 where
  safety_emergency explicit_request abuse_or_anger legal_or_dispute repeated_misunderstanding
        low_recognition_confidence negative_sentiment complex_or_high_value_order dealership_enquiry
        product_complaint restricted_product missing_data scheme_eligibility
        caller_disputes_answer :
      TransferReason

abbrev pub all_reasons : List TransferReason
all_reasons =
    safety_emergency ∷ explicit_request ∷ abuse_or_anger ∷ legal_or_dispute
    ∷ repeated_misunderstanding ∷ low_recognition_confidence ∷ negative_sentiment
    ∷ complex_or_high_value_order ∷ dealership_enquiry ∷ product_complaint ∷ restricted_product
    ∷ missing_data ∷ scheme_eligibility ∷ caller_disputes_answer ∷ []

abbrev pub reason_code : TransferReason → ℕ
reason_code safety_emergency = 0
reason_code explicit_request = 1
reason_code abuse_or_anger = 2
reason_code legal_or_dispute = 3
reason_code repeated_misunderstanding = 4
reason_code low_recognition_confidence = 5
reason_code negative_sentiment = 6
reason_code complex_or_high_value_order = 7
reason_code dealership_enquiry = 8
reason_code product_complaint = 9
reason_code restricted_product = 10
reason_code missing_data = 11
reason_code scheme_eligibility = 12
reason_code caller_disputes_answer = 13

pub reason_code-all_reasons :
    (r : TransferReason) → get_or all_reasons (reason_code r) safety_emergency ≡ r
reason_code-all_reasons safety_emergency = refl
reason_code-all_reasons explicit_request = refl
reason_code-all_reasons abuse_or_anger = refl
reason_code-all_reasons legal_or_dispute = refl
reason_code-all_reasons repeated_misunderstanding = refl
reason_code-all_reasons low_recognition_confidence = refl
reason_code-all_reasons negative_sentiment = refl
reason_code-all_reasons complex_or_high_value_order = refl
reason_code-all_reasons dealership_enquiry = refl
reason_code-all_reasons product_complaint = refl
reason_code-all_reasons restricted_product = refl
reason_code-all_reasons missing_data = refl
reason_code-all_reasons scheme_eligibility = refl
reason_code-all_reasons caller_disputes_answer = refl

instance abbrev pub reason_eq : Eq TransferReason
reason_eq = record {
  beq = λ a b. reason_code a == reason_code b;
  beq_iff =
      code_iff reason_code (λ n. get_or all_reasons n safety_emergency) reason_code-all_reasons;
}

abbrev pub immediate_transfer_reasons : List TransferReason
immediate_transfer_reasons =
    safety_emergency ∷ explicit_request ∷ abuse_or_anger ∷ legal_or_dispute ∷ []

pub data TransferUrgency : Type 0 where
  normal high critical : TransferUrgency

abbrev pub is_critical : TransferUrgency → Bool
is_critical normal = false
is_critical high = false
is_critical critical = true
