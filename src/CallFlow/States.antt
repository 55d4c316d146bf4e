-- ===== src/CallFlow/States.antt =====
-- The states of a call with the graph of its moves, and the intents.
use uaagro_voice_agent.Prelude.{ℕ, ◌≡◌, refl, List, [], ◌∷◌, get_or, Eq, code_iff, ◌==◌}

pub data CallState : Type 0 where
  init identify screen greet lang_lock discover resolve wrap end reject escalate transfer callback :
      CallState

abbrev pub all_states : List CallState
all_states =
    init ∷ identify ∷ screen ∷ greet ∷ lang_lock ∷ discover ∷ resolve ∷ wrap ∷ end ∷ reject
    ∷ escalate ∷ transfer ∷ callback ∷ []

abbrev pub code : CallState → ℕ
code init = 0
code identify = 1
code screen = 2
code greet = 3
code lang_lock = 4
code discover = 5
code resolve = 6
code wrap = 7
code end = 8
code reject = 9
code escalate = 10
code transfer = 11
code callback = 12

pub code-all_states : (s : CallState) → get_or all_states (code s) init ≡ s
code-all_states init = refl
code-all_states identify = refl
code-all_states screen = refl
code-all_states greet = refl
code-all_states lang_lock = refl
code-all_states discover = refl
code-all_states resolve = refl
code-all_states wrap = refl
code-all_states end = refl
code-all_states reject = refl
code-all_states escalate = refl
code-all_states transfer = refl
code-all_states callback = refl

instance abbrev pub state_eq : Eq CallState
state_eq = record {
  beq = λ a b. code a == code b;
  beq_iff = code_iff code (λ n. get_or all_states n init) code-all_states;
}

abbrev pub terminal : List CallState
terminal = end ∷ reject ∷ transfer ∷ callback ∷ []

unfoldable pub transitions : CallState → List CallState
transitions init = identify ∷ []
transitions identify = screen ∷ []
transitions screen = greet ∷ reject ∷ []
transitions greet = lang_lock ∷ []
transitions lang_lock = discover ∷ escalate ∷ []
transitions discover = resolve ∷ escalate ∷ wrap ∷ []
transitions resolve = discover ∷ escalate ∷ wrap ∷ []
transitions wrap = end ∷ discover ∷ []
transitions escalate = transfer ∷ callback ∷ []
transitions transfer = end ∷ []
transitions callback = end ∷ []
transitions reject = []
transitions end = []

-- The intents of packages/domain/src/uaagro_domain/enums.py.
pub data Intent : Type 0 where
  product_availability price_enquiry crop_recommendation problem_diagnosis dosage_query
        product_composition centre_location order_status service_request scheme_query complaint
        talk_to_human dealership_enquiry safety_emergency out_of_scope spam unknown :
      Intent

abbrev pub all_intents : List Intent
all_intents =
    product_availability ∷ price_enquiry ∷ crop_recommendation ∷ problem_diagnosis ∷ dosage_query
    ∷ product_composition ∷ centre_location ∷ order_status ∷ service_request ∷ scheme_query
    ∷ complaint ∷ talk_to_human ∷ dealership_enquiry ∷ safety_emergency ∷ out_of_scope ∷ spam
    ∷ unknown ∷ []

abbrev pub intent_code : Intent → ℕ
intent_code product_availability = 0
intent_code price_enquiry = 1
intent_code crop_recommendation = 2
intent_code problem_diagnosis = 3
intent_code dosage_query = 4
intent_code product_composition = 5
intent_code centre_location = 6
intent_code order_status = 7
intent_code service_request = 8
intent_code scheme_query = 9
intent_code complaint = 10
intent_code talk_to_human = 11
intent_code dealership_enquiry = 12
intent_code safety_emergency = 13
intent_code out_of_scope = 14
intent_code spam = 15
intent_code unknown = 16

pub intent_code-all_intents : (i : Intent) → get_or all_intents (intent_code i) unknown ≡ i
intent_code-all_intents product_availability = refl
intent_code-all_intents price_enquiry = refl
intent_code-all_intents crop_recommendation = refl
intent_code-all_intents problem_diagnosis = refl
intent_code-all_intents dosage_query = refl
intent_code-all_intents product_composition = refl
intent_code-all_intents centre_location = refl
intent_code-all_intents order_status = refl
intent_code-all_intents service_request = refl
intent_code-all_intents scheme_query = refl
intent_code-all_intents complaint = refl
intent_code-all_intents talk_to_human = refl
intent_code-all_intents dealership_enquiry = refl
intent_code-all_intents safety_emergency = refl
intent_code-all_intents out_of_scope = refl
intent_code-all_intents spam = refl
intent_code-all_intents unknown = refl

instance abbrev pub intent_eq : Eq Intent
intent_eq = record {
  beq = λ a b. intent_code a == intent_code b;
  beq_iff = code_iff intent_code (λ n. get_or all_intents n unknown) intent_code-all_intents;
}
