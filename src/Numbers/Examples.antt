-- ===== src/Numbers/Examples.antt =====
-- Numbers that are said and understood, with whole numbers for the decimals.
use uaagro_voice_agent.Prelude.{
  ℕ, ◌+◌, ◌*◌, ◌≡◌, refl, Option, none, some, List, [], ◌∷◌, String, string_eq, arith, ◌==◌,
}
use uaagro_voice_agent.Numbers.Tables.{ones_word, word_value, scale_value}
use uaagro_voice_agent.Numbers.Defs.{
  Decimal, words, to_hindi_words, to_hindi_price_words, non_negative, fresh_group, add_token,
  add_tokens, total_of, accumulate, price_words,
}
use uaagro_voice_agent.Numbers.RoundTrip.{accumulate-to_hindi_words}

instance abbrev whole : Decimal ℕ
whole = record {
  of_nat = λ n. n;
  plus = ◌+◌;
  times = ◌*◌;
  is_zero = λ n. n == 0;
  precision = 10_000_000_000_000_000_000_000_000_000;
  plus_exact = λ a b fits. refl;
  times_exact = λ a b fits. refl;
  is_zero_iff = λ a. refl;
}

-- No text is a literal here.
abbrev no_literal : String → Option ℕ
no_literal token = none

twelve_fifty : to_hindi_price_words (non_negative 1250) ≡ "बारह" ∷ "सौ" ∷ "पचास" ∷ []
unfolding to_hindi_price_words price_words words ones_word
twelve_fifty = refl

mixed : accumulate no_literal ("do" ∷ "lakh" ∷ "पचास" ∷ "hazar" ∷ "five" ∷ []) ≡ some 250_005
unfolding accumulate add_tokens add_token word_value scale_value fresh_group total_of
mixed = refl

-- A zero before a scale word counts as one.
zero_thousand : accumulate no_literal ("शून्य" ∷ "हज़ार" ∷ []) ≡ some 1_000
unfolding accumulate add_tokens add_token word_value scale_value fresh_group total_of
zero_thousand = refl

accumulate-to_hindi_words_example :
    accumulate no_literal (to_hindi_words (non_negative 9_876_543_210)) ≡ some 9_876_543_210
accumulate-to_hindi_words_example =
    accumulate-to_hindi_words no_literal (omega arith) 9_876_543_210 (omega arith)

abbrev mobile : List ℕ
mobile = 9 ∷ 8 ∷ 7 ∷ 6 ∷ 5 ∷ 4 ∷ 3 ∷ 2 ∷ 1 ∷ 0 ∷ []
