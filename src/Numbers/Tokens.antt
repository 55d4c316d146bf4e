-- ===== src/Numbers/Tokens.antt =====
-- What the parser accepts, and the numbers of a sentence.
use uaagro_voice_agent.Prelude.{
  ℕ, ◌≡◌, ◌∙◌, sym, ap, refl, Bool, true, false, Option, none, some, List, [], ◌∷◌, ◌++◌, String,
  arith, all, Bool-cases, Option-cases, inl, inr, length, length-drop, le→leb, ◌<◌, All,
}
use mathlib.Core.List.{append_assoc, append-nil}
use uaagro_voice_agent.Numbers.Tables.{ones_word, ones_word_lem}
use uaagro_voice_agent.Numbers.Defs.{
  Decimal, Running, fresh_group, close_group, add_word, add_token, add_tokens, total_of, accumulate,
  is_number_token, flush, extract_tokens, extract_numbers, digits_to_words, spoken_digits,
  parse_phone_number, ten_digits,
}

abbrev pub is_given : {A : Type 0} → Option A → Bool
is_given none = false
is_given (some a) = true

module _ {D : Type 0} ⦃dec : Decimal D⦄ (literal : String → Option D) where
  add_token-known :
      (token : String) (r : Running literal)
      → is_given (add_token literal token r) ≡ is_number_token literal token
  unfolding add_token is_number_token
  add_token-known token r = ground arith

  add_token-seen :
      (token : String) (r r' : Running literal)
      → add_token literal token r ≡ some r'
      → r'.seen_any ≡ true
  unfolding add_token close_group add_word
  add_token-seen token r r' h = ground arith

  total-seen :
      (tokens : List String) (r : Running literal)
      → r.seen_any ≡ true
      → is_given (total_of literal (add_tokens literal tokens r))
        ≡ all (is_number_token literal) tokens
  unfolding add_tokens total_of
  total-seen [] r seen = ground arith
  total-seen (x ∷ xs) r seen = elim (Option-cases (add_token literal x r)) [
    | inl e ↦ ground (arith, e, add_token-known x r)
    | inr (r', e) ↦
        ground (arith, e, add_token-known x r, total-seen xs r' (add_token-seen x r r' e))
  ]

  -- A list of tokens is a number exactly when there is a token and each of them is a number
  -- word, a scale word or a literal: one word of prose makes it none.
  accumulate_total :
      (token : String) (tokens : List String)
      → (is_given (accumulate literal (token ∷ tokens))
          ≡ all (is_number_token literal) (token ∷ tokens))
        × (accumulate literal [] ≡ none)
  unfolding accumulate add_tokens total_of fresh_group
  accumulate_total token tokens =
      elim (Option-cases (add_token literal token (fresh_group literal))) [
        | inl e ↦ (ground (arith, e, add_token-known token (fresh_group literal)), refl)
        | inr (r', e) ↦ (
          ground (
            arith,
            e,
            add_token-known token (fresh_group literal),
            total-seen tokens r' (add_token-seen token (fresh_group literal) r' e),
          ),
          refl,
        )
      ]

  flush-append :
      (buffer : List String) (found : List D)
      → flush literal buffer found ≡ found ++ flush literal buffer []
  unfolding flush
  flush-append [] found = sym (append-nil found)
  flush-append (x ∷ xs) found = elim (Option-cases (accumulate literal (x ∷ xs))) [
    | inl e ↦ rw (e, flush) (sym (append-nil found))
    | inr (v, e) ↦ rw (e, flush) refl
  ]

  extract-append :
      (tokens buffer : List String) (found : List D)
      → extract_tokens literal tokens buffer found
        ≡ found ++ extract_tokens literal tokens buffer []
  unfolding extract_tokens
  extract-append [] buffer found = flush-append buffer found
  extract-append (x ∷ xs) buffer found = elim (Bool-cases (is_number_token literal x)) [
    | inl e ↦ rw (e, extract_tokens) (extract-append xs (buffer ++ x ∷ []) found)
    | inr e ↦
        rw (e, extract_tokens)
          (extract-append xs [] (flush literal buffer found)
            ∙ (ap (λ l. l ++ extract_tokens literal xs [] []) (flush-append buffer found)
                ∙ (append_assoc found (flush literal buffer []) (extract_tokens literal xs [] [])
                    ∙ ap (λ l. found ++ l) (sym (extract-append xs [] (flush literal buffer []))))))
  ]

  extract_prose :
      (ys buffer : List String) (w : String) (found : List D)
      → is_number_token literal w ≡ false
      → extract_tokens literal (w ∷ ys) buffer found
        ≡ extract_tokens literal ys [] (flush literal buffer found)
  unfolding extract_tokens
  extract_prose ys buffer w found prose = rw (prose, extract_tokens) refl

  extract-split :
      (xs ys buffer : List String) (w : String) (found : List D)
      → is_number_token literal w ≡ false
      → extract_tokens literal (xs ++ w ∷ ys) buffer found
        ≡ extract_tokens literal xs buffer found ++ extract_tokens literal ys [] []
  unfolding extract_tokens
  extract-split [] ys buffer w found prose =
      extract_prose ys buffer w found prose ∙ extract-append ys [] (flush literal buffer found)
  extract-split (x ∷ xs) ys buffer w found prose = elim (Bool-cases (is_number_token literal x)) [
    | inl e ↦ rw (e, extract_tokens) (extract-split xs ys (buffer ++ x ∷ []) w found prose)
    | inr e ↦ rw (e, extract_tokens) (extract-split xs ys [] w (flush literal buffer found) prose)
  ]

  -- A word of prose separates the numbers of a sentence: those before it and those after it are
  -- found on their own, in this order.
  extract_numbers-append :
      (xs ys : List String) (w : String)
      → is_number_token literal w ≡ false
      → extract_numbers literal (xs ++ w ∷ ys)
        ≡ extract_numbers literal xs ++ extract_numbers literal ys
  unfolding extract_numbers
  extract_numbers-append xs ys w prose = extract-split xs ys [] w [] prose

-- Digits read one at a time are understood as they were read.
spoken-digits :
    (digits_of : String → Option (List ℕ)) (ds : List ℕ)
    → ((d : ℕ) → d < 10 → digits_of (ones_word d) ≡ none)
    → All (λ d. d < 10) ds
    → spoken_digits digits_of (digits_to_words ds) ≡ some ds
unfolding digits_to_words spoken_digits
spoken-digits digits_of [] words_only small = refl
spoken-digits digits_of (d ∷ ds) words_only (lt, small) =
    let (value, _) = ones_word_lem d (omega arith) in
    rw
      (
        words_only d lt,
        value,
        spoken-digits digits_of ds words_only small,
        le→leb d 9 (omega arith),
        spoken_digits,
      )
      refl

ten_digits-length :
    (spoken : Option (List ℕ)) (phone : List ℕ) → ten_digits spoken ≡ some phone → length phone ≡ 10
ten_digits-length none phone h = absurd (cc)
ten_digits-length (some ds) phone h = ground arith

-- A number of ten digits that is read back one digit at a time, and repeated in the same words,
-- is understood as the number that was read, where the words for the digits are not themselves
-- texts of digits.
parse-digits_to_words :
    (digits_of : String → Option (List ℕ)) (ds : List ℕ)
    → ((d : ℕ) → d < 10 → digits_of (ones_word d) ≡ none)
    → All (λ d. d < 10) ds
    → length ds ≡ 10
    → parse_phone_number digits_of [] (digits_to_words ds) ≡ some ds
unfolding parse_phone_number
parse-digits_to_words digits_of ds words_only small ten =
    rw (spoken-digits digits_of ds words_only small) (ground (arith, ten))

-- Whatever is said, a phone number that comes out of it has ten digits.
parse_phone_number-length :
    (digits_of : String → Option (List ℕ)) (digits : List ℕ) (tokens : List String) (phone : List ℕ)
    → parse_phone_number digits_of digits tokens ≡ some phone
    → length phone ≡ 10
unfolding parse_phone_number
parse_phone_number-length digits_of digits tokens phone h = ground (
  arith,
  ten_digits-length (spoken_digits digits_of tokens) phone,
  length-drop 2 digits,
  length-drop 1 digits,
)
