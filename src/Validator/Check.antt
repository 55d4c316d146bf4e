-- ===== src/Validator/Check.antt =====
-- OutputValidator and ValidatedGeneration of
-- apps/voice-worker/src/voice_worker/flow/validator.py. The regular expressions, `strip` and the
-- count of words are arguments; the detail of a violation is what it was found on.
use uaagro_voice_agent.Prelude.{
  ℕ, zero, suc, ◌==◌, nat_eq, ltb, Bool, true, false, ◌&&◌, ◌||◌, not, Option, none, some, List, [],
  ◌∷◌, ◌++◌, map, String, str_eq, codes, if◌then◌else◌,
}
use uaagro_voice_agent.Validator.Figures.{numbers, fold}
use uaagro_voice_agent.Validator.Results.{Entries, has_recommendation, numbers_in_results}

abbrev pub default_max_words : ℕ
default_max_words = 26

abbrev pub default_max_words_dosage : ℕ
default_max_words_dosage = 60

abbrev pub default_max_regenerations : ℕ
default_max_regenerations = 1

abbrev pub fallback_script_hi : String
fallback_script_hi =
    "जी, इसकी पक्की जानकारी मेरे पास नहीं है। मैं आपको सेंटर मैनेजर से जोड़ देता हूँ।"

pub record Language : Type 0 where
  pub strip : String → String
  pub word_count : String → ℕ
  pub tum : String → Bool
  pub guarantee : String → Bool
  pub yield_promise : String → Bool
  pub ai_filler : String → Bool
  pub apply_verb : String → Bool

pub data Violation : Type 0 where
  empty register : Violation
  too_long : ℕ → ℕ → Violation
  guaranteed filler advice : Violation
  ungrounded : List (List ℕ) → Violation

pub record OutputValidator : Type 0 where
  pub max_words : ℕ
  pub max_words_dosage : ℕ

abbrev pub codes_eq : List ℕ → List ℕ → Bool
codes_eq [] [] = true
codes_eq [] (c ∷ cs) = false
codes_eq (c ∷ cs) [] = false
codes_eq (c ∷ cs) (d ∷ ds) = (c == d) && codes_eq cs ds

abbrev pub is_among : List ℕ → List (List ℕ) → Bool
is_among n [] = false
is_among n (m ∷ ms) = codes_eq n m || is_among n ms

-- The numbers from 1 to 10.
abbrev pub always_allowed : List (List ℕ)
always_allowed = map codes ("1" ∷ "2" ∷ "3" ∷ "4" ∷ "5" ∷ "6" ∷ "7" ∷ "8" ∷ "9" ∷ "10" ∷ [])

-- A folded number that needs no support, or has it.
unfoldable pub is_supported : List (List ℕ) → List ℕ → Bool
is_supported grounded n = codes_eq n [] || is_among n always_allowed || is_among n grounded

unfoldable pub unsupported : List (List ℕ) → List (List ℕ) → List (List ℕ)
unsupported grounded [] = []
unsupported grounded (n ∷ spoken) =
    if is_supported grounded n then unsupported grounded spoken else n ∷ unsupported grounded spoken

-- A set in the source: here with repeats, in the order of the text.
unfoldable pub ungrounded_numbers : String → List Entries → List (List ℕ)
ungrounded_numbers text results =
    unsupported (map fold (numbers_in_results results)) (map fold (numbers (codes text)))

abbrev pub flagged : Bool → Violation → List Violation
flagged true v = v ∷ []
flagged false v = []

unfoldable pub flag_ungrounded : List (List ℕ) → List Violation
flag_ungrounded [] = []
flag_ungrounded (n ∷ ns) = ungrounded (n ∷ ns) ∷ []

abbrev pub is_ok : List Violation → Bool
is_ok [] = true
is_ok (x ∷ xs) = false

-- The text, its violations, and whether to escalate.
pub record Generated : Type 0 where
  pub text : String
  pub outcome : List Violation
  pub escalate : Bool

-- What the model answers at each attempt to the violations that it is told of.
abbrev pub Model : Type 0
Model = ℕ → Option (List Violation) → String

module _ (l : Language) where
  abbrev pub cap : OutputValidator → Bool → ℕ
  cap v is_dosage = if is_dosage then v.max_words_dosage else v.max_words

  -- The rules, on a text that is stripped and not empty.
  unfoldable pub violations : OutputValidator → String → List Entries → Bool → List Violation
  violations v text results is_dosage =
      flagged (l.tum text) register
      ++ (flagged (ltb (cap v is_dosage) (l.word_count text))
            (too_long (l.word_count text) (cap v is_dosage))
          ++ (flagged (l.guarantee text || l.yield_promise text) guaranteed
              ++ (flagged (l.ai_filler text) filler
                  ++ (flagged (l.apply_verb text && not (has_recommendation results)) advice
                      ++ flag_ungrounded (ungrounded_numbers text results)))))

  -- The outcome is its violations: it is ok without any.
  unfoldable pub validate : OutputValidator → String → List Entries → Bool → List Violation
  validate v text results is_dosage =
      if str_eq (l.strip text) "" then empty ∷ [] else violations v (l.strip text) results is_dosage

  unfoldable pub attempts :
      OutputValidator
      → List Entries
      → Bool
      → Model
      → ℕ
      → ℕ
      → Option (List Violation)
      → List Violation
      → Generated
  attempts v results is_dosage generate zero attempt feedback outcome = record {
    text = fallback_script_hi;
    outcome = outcome;
    escalate = true;
  }
  attempts v results is_dosage generate (suc left) attempt feedback outcome =
      let text = generate attempt feedback in
      let found = validate v text results is_dosage in
      let rest = attempts v results is_dosage generate left (suc attempt) (some found) found in
      if is_ok found then record { text = text; outcome = found; escalate = false } else rest

  unfoldable pub run : OutputValidator → List Entries → Bool → Model → ℕ → Generated
  run v results is_dosage generate max_regenerations =
      attempts v results is_dosage generate (suc max_regenerations) 0 none []
