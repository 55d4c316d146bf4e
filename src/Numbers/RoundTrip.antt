-- ===== src/Numbers/RoundTrip.antt =====
-- Parsing gives back what rendering said.
use uaagro_voice_agent.Prelude.{
  ℕ, zero, suc, ◌+◌, ◌*◌, ◌/◌, ◌%◌, ◌<◌, ◌≤◌, ◌≡◌, refl, Bool, true, false, ◌&&◌, Option, some,
  List, [], ◌∷◌, ◌++◌, String, string_eq, leb, ltb, le→leb, ltb→lt, lt→ltb, ◌⊎◌, arith, Bool-cases,
  inl, inr,
}
use uaagro_voice_agent.Numbers.Tables.{ones_word, hundred, thousand, lakh, crore, scale_value}
use uaagro_voice_agent.Numbers.Defs.{
  Decimal, divide_out, hundreds, rest_of_value, words, to_hindi_words, non_negative, price_words,
  to_hindi_price_words, Running, fresh_group, add_tokens, total_of, accumulate,
}
use uaagro_voice_agent.Numbers.Reading.{
  running, Ends, Reads, Reads-Ends, Reads-append, ones-Ends, rest-Reads, scale_word-Ends,
  hundred-Ends, hundreds-Reads,
}

words_long :
    (fuel v : ℕ)
    → 100 ≤ v
    → words (suc fuel) v
      ≡ rest_of_value (
          hundreds (
            divide_out 1_000 thousand (words fuel) (
              divide_out 100_000 lakh
                (words fuel)
                (divide_out 10_000_000 crore (words fuel) ([], v)))))
unfolding words
words_long fuel v ge = ground arith

words_short : (fuel v : ℕ) → v < 100 → words (suc fuel) v ≡ ones_word v ∷ []
unfolding words
words_short fuel v lt = rw (words, lt→ltb v 100 lt) refl

module _ (divisor : ℕ) (name : String) (speak : ℕ → List String) (parts : List String) (v : ℕ) where
  divide_below : v < divisor → divide_out divisor name speak (parts, v) ≡ (parts, v)
  unfolding divide_out
  divide_below lt = ground arith

  divide_above :
      divisor ≤ v
      → divide_out divisor name speak (parts, v)
        ≡ (parts ++ (speak (v / divisor) ++ name ∷ []), v % divisor)
  unfolding divide_out
  divide_above ge = ground arith

module _ {D : Type 0} ⦃dec : Decimal D⦄ (literal : String → Option D)
    (wide : 10_000_000_000 ≤ dec.precision) where
  -- Rendering a number below a thousand, read in the middle of a text.
  speak-Ends :
      (fuel v t : ℕ) (s : Bool)
      → v < 1_000
      → Ends literal (running literal t 0 s) (words (suc fuel) v) t v
  unfolding add_tokens
  speak-Ends fuel v t s lt = elim (Bool-cases (ltb v 100)) [
    | inl e ↦
        rw (words_short fuel v (ltb→lt v 100 e))
          (ones-Ends literal v t 0 v s (ltb→lt v 100 e) (omega arith) (omega (arith, wide)))
    | inr e ↦
        let speak = words fuel in
        rw
          (
            words_long fuel v (ground arith),
            divide_below 10_000_000 crore speak [] v (omega arith),
            divide_below 100_000 lakh speak [] v (omega arith),
            divide_below 1_000 thousand speak [] v (omega arith),
          )
          (Reads-Ends literal t (running literal t 0 s) (rest_of_value (hundreds ([], v))) t v
            (ground arith)
            (hundreds-Reads literal wide t (running literal t 0 s) [] v t lt
              (s, refl, inr (omega arith))))
  ]

  speak_scale-Ends :
      (divisor : ℕ) (name : String) (fuel c t : ℕ) (s : Bool)
      → scale_value name ≡ some divisor
      → 1_000 ≤ divisor
      → 0 < c
      → c < 1_000
      → t + c * divisor < dec.precision
      → Ends literal (running literal t 0 s) (words (suc fuel) c ++ name ∷ []) (t + c * divisor) 0
  speak_scale-Ends divisor name fuel c t s known big pos few fits =
      Reads-append literal 0 (running literal t 0 s) (words (suc fuel) c) (name ∷ []) t c
        (t + c * divisor) 0 (true, speak-Ends fuel c t s few, inl refl)
        (λ s'. scale_word-Ends literal name divisor t c s' known big pos fits)

  -- One turn of the loop: what it divides out is added to the sum.
  divide-Reads :
      (divisor : ℕ) (name : String) (fuel : ℕ) (b : ℕ) (r : Running literal) (parts : List String)
      (v t n : ℕ)
      → scale_value name ≡ some divisor
      → 1_000 ≤ divisor
      → ((divisor ≤ v) × (0 < v / divisor)) ⊎ (v < divisor)
      → v / divisor < 1_000
      → v ≡ v / divisor * divisor + v % divisor
      → v % divisor < divisor
      → t + v ≡ n
      → n < dec.precision
      → Reads literal b r parts t 0
      → let out = divide_out divisor name (words (suc fuel)) (parts, v) in
        (t' : ℕ) × Reads literal b r out.0 t' 0 × (t' + out.1 ≡ n) × (out.1 < divisor)
  divide-Reads divisor name fuel b r parts v t n known big (inl (ge, pos)) few split small sum fits
        h =
      rw (divide_above divisor name (words (suc fuel)) parts v ge) (
        t + v / divisor * divisor,
        (
          true,
          Reads-append literal b r parts (words (suc fuel) (v / divisor) ++ name ∷ []) t 0
              (t + v / divisor * divisor) 0 h
              (λ s.
                speak_scale-Ends divisor name fuel (v / divisor) t s known big pos few
                  (omega arith)),
          inl refl,
        ),
        omega arith,
        small,
      )
  divide-Reads divisor name fuel b r parts v t n known big (inr lt) few split small sum fits h =
      rw (divide_below divisor name (words (suc fuel)) parts v lt) (t, h, sum, lt)

  words-Reads :
      (fuel v : ℕ)
      → 100 ≤ v
      → v < 10_000_000_000
      → (t : ℕ) × (c : ℕ) × (t + c ≡ v)
        × Ends literal (fresh_group literal) (words (suc (suc fuel)) v) t c
  unfolding fresh_group add_tokens scale_value
  words-Reads fuel v ge lt =
      let start = fresh_group literal in
      let speak = words (suc fuel) in
      let (t1, h1, s1, m1) =
        divide-Reads 10_000_000 crore fuel 0 start [] v 0 v refl (omega arith) (ground arith)
          (omega arith) (omega arith) (omega arith) (omega arith) (omega (arith, wide))
          (false, refl, inr refl) in
      let step1 = divide_out 10_000_000 crore speak ([], v) in
      let (t2, h2, s2, m2) =
        divide-Reads 100_000 lakh fuel 0 start step1.0 step1.1 t1 v refl (omega arith)
          (ground arith) (omega arith) (omega arith) (omega arith) s1 (omega (arith, wide)) h1 in
      let step2 = divide_out 100_000 lakh speak step1 in
      let (t3, h3, s3, m3) =
        divide-Reads 1_000 thousand fuel 0 start step2.0 step2.1 t2 v refl (omega arith)
          (ground arith) (omega arith) (omega arith) (omega arith) s2 (omega (arith, wide)) h2 in
      let step3 = divide_out 1_000 thousand speak step2 in
      (
        t3,
        step3.1,
        s3,
        rw (words_long (suc fuel) v ge) (
            Reads-Ends literal 0 start (rest_of_value (hundreds step3)) t3 step3.1 (omega arith)
              (hundreds-Reads literal wide 0 start step3.0 step3.1 t3 m3 h3)),
      )

  accumulate-Ends :
      (parts : List String) (t c v : ℕ)
      → t + c ≡ v
      → v < dec.precision
      → Ends literal (fresh_group literal) parts t c
      → accumulate literal parts ≡ some (dec.of_nat v)
  unfolding accumulate total_of
  accumulate-Ends parts t c v sum fits h =
      rw (h, dec.plus_exact t c (rw sum fits), sum, accumulate) refl

  accumulate-words :
      (v : ℕ) → v < 10_000_000_000 → accumulate literal (words (suc v) v) ≡ some (dec.of_nat v)
  unfolding fresh_group
  accumulate-words zero lt =
      accumulate-Ends (words 1 0) 0 0 0 (omega arith) (omega (arith, wide))
        (speak-Ends 0 0 0 false (omega arith))
  accumulate-words (suc n) lt = elim (Bool-cases (ltb (suc n) 100)) [
    | inl e ↦
        accumulate-Ends (words (suc (suc n)) (suc n)) 0 (suc n) (suc n) (omega arith)
          (omega (arith, wide)) (speak-Ends (suc n) (suc n) 0 false (ground arith))
    | inr e ↦
        let (t, c, sum, h) = words-Reads n (suc n) (ground arith) lt in
        accumulate-Ends (words (suc (suc n)) (suc n)) t c (suc n) sum (omega (arith, wide)) h
  ]

  -- A number below a thousand crore is parsed as itself from the words that say it, where the
  -- precision of the decimals reaches as far.
  pub accumulate-to_hindi_words :
      (v : ℕ)
      → v < 10_000_000_000
      → accumulate literal (to_hindi_words (non_negative v)) ≡ some (dec.of_nat v)
  unfolding to_hindi_words
  accumulate-to_hindi_words v lt = accumulate-words v lt

  price_words-Ends :
      (v : ℕ) → 1_000 ≤ v → v < 10_000 → Ends literal (fresh_group literal) (price_words v) 0 v
  unfolding price_words fresh_group add_tokens rest_of_value
  price_words-Ends v ge lt =
      let few : v / 100 < 100 = omega arith in
      let start = fresh_group literal in
      let spoken = ones_word (v / 100) ∷ hundred ∷ [] in
      rw (words_short (v / 100) (v / 100) few, le→leb 1_000 v ge, lt→ltb v 10_000 lt, price_words)
        (Reads-Ends literal 0 start (rest_of_value (spoken, v % 100)) 0 v (omega arith) (
          rest-Reads literal 0 start spoken (v % 100) 0 (v / 100 * 100) v (omega arith)
            (omega arith) (omega (arith, wide))
            (true, hundred-Ends literal wide v 0 false (omega arith) lt, inl refl)))

  -- A price below a thousand crore is parsed as itself from the words that say it, also where it
  -- is said in hundreds, if the precision of the decimals reaches as far.
  accumulate-to_hindi_price_words :
      (v : ℕ)
      → v < 10_000_000_000
      → accumulate literal (to_hindi_price_words (non_negative v)) ≡ some (dec.of_nat v)
  unfolding to_hindi_price_words price_words
  accumulate-to_hindi_price_words v lt = elim (Bool-cases (leb 1_000 v && ltb v 10_000)) [
    | inl e ↦
        accumulate-Ends (price_words v) 0 v v (omega arith) (omega (arith, wide))
          (price_words-Ends v (ground arith) (ground arith))
    | inr e ↦ rw (e, price_words) (accumulate-words v lt)
  ]
