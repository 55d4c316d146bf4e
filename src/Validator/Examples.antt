-- ===== src/Validator/Examples.antt =====
-- The validator on answers of its own; no pattern finds anything but a promise.
use uaagro_voice_agent.Prelude.{
  zero, suc, ◌≡◌, ◌↔◌, ◌⊎◌, refl, true, false, List, [], ◌∷◌, str_eq, codes,
}
use uaagro_voice_agent.Validator.Figures.{
  is_digit, is_in_number, numbers_from, to_ascii, without_commas, strip_left, strip_right,
  partition, drop_zeros, stripped, fold,
}
use uaagro_voice_agent.Validator.Results.{
  Value, no_entries, entry, ToolResult, to_dict, numbers_in, numbers_in_results, for_the_record,
}
use uaagro_voice_agent.Validator.Check.{
  Language, ungrounded, OutputValidator, validate, violations, is_ok, Model, run,
  ungrounded_numbers, unsupported, is_supported, flag_ungrounded,
}
use uaagro_voice_agent.Validator.Spelling.{
  latin, devanagari, Glyph, numeral, separator, fold-spelling,
}
use uaagro_voice_agent.Validator.Grounded.{IsSpeakable, validate_iff, ungrounded_numbers-latency}
use uaagro_voice_agent.Validator.Attempts.{IsFirst, IsFallback, run_ends}

abbrev hindi : Language
hindi = record {
  strip = λ s. s;
  word_count = λ s. 5;
  tum = λ s. false;
  guarantee = str_eq "double";
  yield_promise = λ s. false;
  ai_filler = λ s. false;
  apply_verb = λ s. false;
}

abbrev validator : OutputValidator
validator = record { max_words = 26; max_words_dosage = 60 }

-- A price of 1350.00 that took 45.0 milliseconds.
abbrev price : ToolResult
price = record {
  tool = "get_price";
  ok = true;
  content = entry "price" (Value.other "1350.00" true) no_entries;
  error = "";
  latency = "45.0";
  timed_out = false;
}

validate-price : validate hindi validator "DAP १,३५०" (to_dict price ∷ []) false ≡ []
unfolding validate violations ungrounded_numbers unsupported is_supported numbers_from is_digit
    is_in_number fold stripped drop_zeros partition strip_right strip_left without_commas to_ascii
    numbers_in numbers_in_results for_the_record flag_ungrounded to_dict
validate-price = refl

validate-wrong_price :
    validate hindi validator "DAP 1400" (to_dict price ∷ []) false
    ≡ ungrounded (codes "1400" ∷ []) ∷ []
unfolding validate violations ungrounded_numbers unsupported is_supported numbers_from is_digit
    is_in_number fold stripped drop_zeros partition strip_right strip_left without_commas to_ascii
    numbers_in numbers_in_results for_the_record flag_ungrounded to_dict
validate-wrong_price = refl

validate_iff_example :
    (is_ok (validate hindi validator "DAP १,३५०" (to_dict price ∷ []) false) ≡ true)
    ↔ IsSpeakable hindi validator (to_dict price ∷ []) false "DAP १,३५०"
validate_iff_example = validate_iff hindi validator (to_dict price ∷ []) false "DAP १,३५०"

-- 1,350 with its first and last digit in the one script, and the others in the other.
abbrev figure : List Glyph
figure =
    numeral latin 1 ∷ separator ∷ numeral devanagari 3 ∷ numeral devanagari 5 ∷ numeral latin 0 ∷ []

fold-spelling_example :
    (fold (codes "1,३५0") ≡ codes "1350") × (fold (codes "1,३५0.०0") ≡ codes "1350")
fold-spelling_example = fold-spelling figure (devanagari ∷ latin ∷ []) refl (λ e. cc)

-- The time that the tool took passes for a price.
ungrounded_numbers-latency_example : ungrounded_numbers "DAP 45" (to_dict price ∷ []) ≡ []
unfolding numbers_from is_digit is_in_number fold stripped drop_zeros partition strip_right
    strip_left without_commas to_ascii
ungrounded_numbers-latency_example = ungrounded_numbers-latency price [] "DAP 45" refl

-- A model that promises first.
abbrev promising : Model
promising zero feedback = "double"
promising (suc k) feedback = "ji"

run_ends_example :
    IsFirst hindi validator [] false promising 2 (run hindi validator [] false promising 1)
    ⊎ IsFallback hindi validator [] false promising 2 (run hindi validator [] false promising 1)
run_ends_example = run_ends hindi validator [] false promising 1
