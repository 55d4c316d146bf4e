-- ===== src/Numbers/Reading.antt =====
-- What reading a part of a spoken number does to the running sums.
use uaagro_voice_agent.Prelude.{
  ℕ, ◌+◌, ◌*◌, ◌/◌, ◌%◌, ◌<◌, ◌≤◌, ◌≡◌, ◌∙◌, refl, Bool, true, Option, none, some, List, [], ◌∷◌,
  ◌++◌, String, string_eq, leb, le→leb, leb→le, ◌⊎◌, ◌==◌, arith, Bool-cases, Option-cases, inl,
  inr,
}
use mathlib.Core.Path.{subst}
use uaagro_voice_agent.Numbers.Tables.{ones_word, ones_word_lem, hundred, word_value, scale_value}
use uaagro_voice_agent.Numbers.Defs.{
  Decimal, hundreds, rest_of_value, Running, or_one, close_group, add_word, add_token, add_tokens,
}

module _ {D : Type 0} ⦃dec : Decimal D⦄ (literal : String → Option D) where
  -- The state of the fold where its sums are whole numbers.
  abbrev pub running : ℕ → ℕ → Bool → Running literal
  running t c s = record { total = dec.of_nat t; current = dec.of_nat c; seen_any = s }

  pub or_one_lem : (c : ℕ) → 0 < c → or_one literal (dec.of_nat c) ≡ dec.of_nat c
  unfolding or_one
  or_one_lem c pos = ground (arith, dec.is_zero_iff c)

  pub add_value :
      (token : String) (v t c w : ℕ) (s : Bool)
      → word_value token ≡ some v
      → scale_value token ≡ none
      → c + v ≡ w
      → w < dec.precision
      → add_token literal token (running t c s) ≡ some (running t w true)
  unfolding add_token add_word
  add_value token v t c w s value scale sum fits =
      rw (scale, value, dec.plus_exact c v (rw sum fits), sum, add_token) refl

  pub add_ones :
      (v t c w : ℕ) (s : Bool)
      → v < 100
      → c + v ≡ w
      → w < dec.precision
      → add_token literal (ones_word v) (running t c s) ≡ some (running t w true)
  add_ones v t c w s lt sum fits =
      let (value, scale) = ones_word_lem v lt in
      add_value (ones_word v) v t c w s value scale sum fits

  pub add_hundred :
      (t c : ℕ) (s : Bool)
      → 0 < c
      → c * 100 < dec.precision
      → add_token literal hundred (running t c s) ≡ some (running t (c * 100) true)
  unfolding add_token close_group scale_value
  add_hundred t c s pos fits = rw (or_one_lem c pos, dec.times_exact c 100 fits) refl

  pub close_lem :
      (scale t c : ℕ) (s : Bool)
      → 1_000 ≤ scale
      → 0 < c
      → t + c * scale < dec.precision
      → close_group literal scale (running t c s) ≡ running (t + c * scale) 0 true
  unfolding close_group
  close_lem scale t c s big pos fits =
      rw
        (
          le→leb 1_000 scale big,
          or_one_lem c pos,
          dec.times_exact c scale (omega arith),
          dec.plus_exact t (c * scale) fits,
          close_group,
        )
        refl

  pub add_tokens-append :
      (xs ys : List String) (r r' : Running literal)
      → add_tokens literal xs r ≡ some r'
      → add_tokens literal (xs ++ ys) r ≡ add_tokens literal ys r'
  unfolding add_tokens
  add_tokens-append [] ys r r' h = ground arith
  add_tokens-append (x ∷ xs) ys r r' h = elim (Option-cases (add_token literal x r)) [
    | inl e ↦ absurd (ground arith)
    | inr (r'', e) ↦ rw (e, add_tokens) (add_tokens-append xs ys r'' r' (ground arith))
  ]

  -- Reading a text that is not empty from the state `r` leads to the sums `t` and `c`.
  abbrev pub Ends : Running literal → List String → ℕ → ℕ → Type 0
  Ends r parts t c = add_tokens literal parts r ≡ some (running t c true)

  -- The same for a text that may be empty: a word is seen, or the sums are still `b`.
  abbrev pub Reads : ℕ → Running literal → List String → ℕ → ℕ → Type 0
  Reads b r parts t c =
      (s : Bool) × (add_tokens literal parts r ≡ some (running t c s)) × ((s ≡ true) ⊎ (t + c ≡ b))

  pub Reads-Ends :
      (b : ℕ) (r : Running literal) (parts : List String) (t c : ℕ)
      → b < t + c
      → Reads b r parts t c
      → Ends r parts t c
  Reads-Ends b r parts t c more (s, h, inl seen) = rw (← seen) h
  Reads-Ends b r parts t c more (s, h, inr same) = absurd (omega arith)

  pub Reads-append :
      (b : ℕ) (r : Running literal) (xs ys : List String) (t c t' c' : ℕ)
      → Reads b r xs t c
      → ((s : Bool) → Ends (running t c s) ys t' c')
      → Ends r (xs ++ ys) t' c'
  Reads-append b r xs ys t c t' c' (s, h, _) k = add_tokens-append xs ys r (running t c s) h ∙ k s

  pub ones-Ends :
      (v t c w : ℕ) (s : Bool)
      → v < 100
      → c + v ≡ w
      → w < dec.precision
      → Ends (running t c s) (ones_word v ∷ []) t w
  unfolding add_tokens
  ones-Ends v t c w s lt sum fits = rw (add_ones v t c w s lt sum fits, add_tokens) refl

  pub rest-Reads :
      (b : ℕ) (r : Running literal) (parts : List String) (v t c w : ℕ)
      → v < 100
      → c + v ≡ w
      → w < dec.precision
      → Reads b r parts t c
      → Reads b r (rest_of_value (parts, v)) t w
  unfolding rest_of_value
  rest-Reads b r parts v t c w lt sum fits h = elim (Bool-cases (v == 0)) [
    | inl e ↦ rw e (subst (Reads b r parts t) (ground arith) h)
    | inr e ↦ rw e (
      true,
      Reads-append b r parts (ones_word v ∷ []) t c t w h (λ s. ones-Ends v t c w s lt sum fits),
      inl refl,
    )
  ]

  pub hundred_word-Ends :
      (t c : ℕ) (s : Bool)
      → 0 < c
      → c * 100 < dec.precision
      → Ends (running t c s) (hundred ∷ []) t (c * 100)
  unfolding add_tokens
  hundred_word-Ends t c s pos fits = rw (add_hundred t c s pos fits, add_tokens) refl

  pub scale_word-Ends :
      (name : String) (scale t c : ℕ) (s : Bool)
      → scale_value name ≡ some scale
      → 1_000 ≤ scale
      → 0 < c
      → t + c * scale < dec.precision
      → Ends (running t c s) (name ∷ []) (t + c * scale) 0
  unfolding add_tokens add_token
  scale_word-Ends name scale t c s known big pos fits =
      rw (known, close_lem scale t c s big pos fits, add_tokens, add_token) refl

module _ {D : Type 0} ⦃dec : Decimal D⦄ (literal : String → Option D)
    (wide : 10_000_000_000 ≤ dec.precision) where
  pub hundred-Ends :
      (v t : ℕ) (s : Bool)
      → 100 ≤ v
      → v < 10_000
      → Ends literal (running literal t 0 s) (ones_word (v / 100) ∷ hundred ∷ []) t (v / 100 * 100)
  hundred-Ends v t s ge lt =
      Reads-append literal 0 (running literal t 0 s) (ones_word (v / 100) ∷ []) (hundred ∷ []) t
        (v / 100) t (v / 100 * 100)
        (
          true,
          ones-Ends literal (v / 100) t 0 (v / 100) s (omega arith) (omega arith)
              (omega (arith, wide)),
          inl refl,
        )
        (λ s'. hundred_word-Ends literal t (v / 100) s' (omega arith) (omega (arith, wide)))

  pub hundreds-Reads :
      (b : ℕ) (r : Running literal) (parts : List String) (v t : ℕ)
      → v < 1_000
      → Reads literal b r parts t 0
      → Reads literal b r (rest_of_value (hundreds (parts, v))) t v
  unfolding hundreds
  hundreds-Reads b r parts v t lt h = elim (Bool-cases (leb 100 v)) [
    | inl e ↦
        let ge : 100 ≤ v = leb→le 100 v e in
        rw (e, hundreds)
          (rest-Reads literal b r (parts ++ ones_word (v / 100) ∷ hundred ∷ []) (v % 100) t
            (v / 100 * 100) v (omega arith) (omega arith) (omega (arith, wide))
            (
              true,
              Reads-append literal b r parts (ones_word (v / 100) ∷ hundred ∷ []) t 0 t
                  (v / 100 * 100) h (λ s. hundred-Ends v t s ge (omega arith)),
              inl refl,
            ))
    | inr e ↦
        rw (e, hundreds)
          (rest-Reads literal b r parts v t 0 v (ground arith) (omega arith) (omega (arith, wide))
            h)
  ]
