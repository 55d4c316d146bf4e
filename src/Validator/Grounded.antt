-- ===== src/Validator/Grounded.antt =====
-- What a text that the validator lets through is sure of.
use uaagro_voice_agent.Prelude.{
  ℕ, ◌≤◌, ◌≡◌, ◌≢◌, ◌↔◌, ◌⊎◌, inl, inr, string_eq, Bool-cases, if◌then◌else◌, refl, sym, ◌∙◌, ltb,
  Bool, true, false, ◌&&◌, ◌||◌, not, List, [], ◌∷◌, ◌++◌, map, all, String, str_eq, codes, arith,
  and_parts, if_by,
}
use uaagro_voice_agent.Validator.Figures.{numbers, fold}
use uaagro_voice_agent.Validator.Results.{
  numbers_in, shown_boolean, Entries, has_recommendation, numbers_in_results, ToolResult, to_dict,
}
use uaagro_voice_agent.Validator.Check.{
  Language, Violation, OutputValidator, is_supported, unsupported, ungrounded_numbers, flagged,
  flag_ungrounded, cap, violations, validate, is_ok, codes_eq, is_among,
}
use uaagro_voice_agent.Validator.Readings.{Reads, numbers-Reads, Reads-numbers}
use uaagro_voice_agent.Validator.Grounds.{
  AnyOf, AllOf, IsAdvice, IsGrounded, all_supported_iff, has_recommendation_iff,
}
use mathlib.Core.Path.{subst}

is_ok-append : (xs ys : List Violation) → is_ok (xs ++ ys) ≡ (is_ok xs && is_ok ys)
is_ok-append [] ys = refl
is_ok-append (x ∷ xs) ys = refl

is_ok-flagged : (b : Bool) (v : Violation) → is_ok (flagged b v) ≡ not b
is_ok-flagged true v = refl
is_ok-flagged false v = refl

is_ok-unsupported :
    (grounded spoken : List (List ℕ))
    → is_ok (flag_ungrounded (unsupported grounded spoken)) ≡ all (is_supported grounded) spoken
unfolding flag_ungrounded unsupported
is_ok-unsupported grounded [] = refl
is_ok-unsupported grounded (n ∷ spoken) = ground (arith, is_ok-unsupported grounded spoken)

abbrev pub grounded_in : List Entries → List (List ℕ)
grounded_in results = map fold (numbers_in_results results)

module _ (l : Language) (v : OutputValidator) (results : List Entries) (is_dosage : Bool) where
  -- The rules of section 16, for a text that is stripped: it has words; none of them is familiar; it
  -- is not longer than the cap, which a dosage raises; it neither guarantees nor promises a yield; it
  -- has no filler; it tells of no application unless a recommendation tool's result advises one; and
  -- each of its numbers is small, or the same figure as a number of a result of this turn.
  abbrev pub IsSpeakable : String → Type 0
  IsSpeakable text =
      (text ≢ "")
      × (l.tum text ≡ false)
      × (l.word_count text ≤ (if is_dosage then v.max_words_dosage else v.max_words))
      × (l.guarantee text ≡ false)
      × (l.yield_promise text ≡ false)
      × (l.ai_filler text ≡ false)
      × ((l.apply_verb text ≡ false) ⊎ AnyOf IsAdvice results)
      × (spoken : List (List ℕ)) × Reads (codes text) spoken
      × AllOf (IsGrounded results) spoken

  violations_lem :
      (text : String)
      → is_ok (violations l v text results is_dosage) ≡ (
          not (l.tum text)
          && (not (ltb (cap l v is_dosage) (l.word_count text))
              && (not (l.guarantee text || l.yield_promise text)
                  && (not (l.ai_filler text)
                      && (not (l.apply_verb text && not (has_recommendation results))
                          && all
                              (is_supported (grounded_in results))
                              (map fold (numbers (codes text))))))))
  unfolding violations ungrounded_numbers
  violations_lem text = simp (is_ok-append, is_ok-flagged, is_ok-unsupported)

  violations-IsSpeakable :
      (text : String)
      → str_eq text "" ≡ false
      → is_ok (violations l v text results is_dosage) ≡ true
      → IsSpeakable text
  violations-IsSpeakable text words ok =
      let kept = sym (violations_lem text) ∙ ok in
      (
        λ e. ground (arith, words, (string_eq.beq_iff text "").1 e),
        ground (arith, kept),
        ground (arith, kept),
        ground (arith, kept),
        ground (arith, kept),
        ground (arith, kept),
        elim (Bool-cases (l.apply_verb text)) [
          | inl applies ↦ inr ((has_recommendation_iff results).0 (ground (arith, kept, applies)))
          | inr quiet ↦ inl quiet
        ],
        numbers (codes text),
        numbers-Reads (codes text),
        (all_supported_iff results (numbers-Reads (codes text))).0 (ground (arith, kept)),
      )

  IsSpeakable-violations :
      (text : String) → IsSpeakable text → is_ok (violations l v text results is_dosage) ≡ true
  IsSpeakable-violations text
        (words, tum, size, guarantee, promise, filler, apply, spoken, reads, supported) =
      let advised : (l.apply_verb text && not (has_recommendation results)) ≡ false = elim apply [
        | inl quiet ↦ ground (arith, quiet)
        | inr advice ↦ ground (arith, (has_recommendation_iff results).1 advice)
      ] in
      let numbers_ok : all (is_supported (grounded_in results)) (map fold (numbers (codes text)))
          ≡ true =
        subst (λ ns. all (is_supported (grounded_in results)) (map fold ns) ≡ true)
          (sym (Reads-numbers reads)) ((all_supported_iff results reads).1 supported) in
      violations_lem text
      ∙ ground (arith, tum, size, guarantee, promise, filler, advised, numbers_ok)

  -- A text may be spoken exactly when, once stripped, it has words, none of them familiar, no more
  -- than the cap for its kind, no guarantee, no promise of a yield and no filler, tells of no
  -- application without advice from a recommendation tool of this turn, and has no numbers but those
  -- from 1 to 10 and those of this turn's results, in any spelling. Which numbers the results have
  -- is what the code's walk over them finds.
  pub validate_iff :
      (text : String)
      → (is_ok (validate l v text results is_dosage) ≡ true) ↔ IsSpeakable (l.strip text)
  unfolding validate
  validate_iff text = (
    if_by (λ found. is_ok found ≡ true → IsSpeakable (l.strip text)) (str_eq (l.strip text) "") _ _
        (λ _ ok. absurd (ground arith))
        (λ words ok. violations-IsSpeakable (l.strip text) words ok),
    λ speakable.
        if_by (λ found. is_ok found ≡ true) (str_eq (l.strip text) "") _ _
          (λ none. absurd (speakable.0 ((string_eq.beq_iff (l.strip text) "").0 none)))
          (λ _. IsSpeakable-violations (l.strip text) speakable),
  )

among_middle :
    (n b m : List ℕ) (before after rest : List (List ℕ))
    → codes_eq n (fold m) ≡ true
    → is_among n (map fold ((before ++ (b ∷ m ∷ after)) ++ rest)) ≡ true
among_middle n b m [] after rest h = ground arith
among_middle n b m (x ∷ before) after rest h =
    ground (arith, among_middle n b m before after rest h)

module _ (r : ToolResult) (results : List Entries) where
  latency-is_among :
      (n : List ℕ)
      → codes_eq n (fold (fold (codes r.latency))) ≡ true
      → is_among n (grounded_in (to_dict r ∷ results)) ≡ true
  unfolding numbers_in_results numbers_in to_dict
  latency-is_among n h =
      among_middle n (fold (codes (shown_boolean r.ok))) (fold (codes r.latency))
        (numbers (codes r.tool)) _ (numbers_in_results results) h

  latency_first :
      (ns : List (List ℕ))
      → all (λ n. codes_eq n (fold (fold (codes r.latency)))) ns ≡ true
      → unsupported (grounded_in (to_dict r ∷ results)) ns ≡ []
  unfolding unsupported is_supported
  latency_first [] h = refl
  latency_first (n ∷ ns) h =
      let (here, there) = and_parts (codes_eq n (fold (fold (codes r.latency)))) _ h in
      ground (arith, latency-is_among n here, latency_first ns there)

  -- A figure is let through if it is the time that a tool took: the validator walks the whole record
  -- of a result, with its latency, so a text whose every number is that figure has no ungrounded
  -- number, whatever the tool returned.
  pub ungrounded_numbers-latency :
      (text : String)
      → all (λ n. codes_eq n (fold (fold (codes r.latency)))) (map fold (numbers (codes text)))
        ≡ true
      → ungrounded_numbers text (to_dict r ∷ results) ≡ []
  unfolding ungrounded_numbers
  ungrounded_numbers-latency text h = latency_first (map fold (numbers (codes text))) h
