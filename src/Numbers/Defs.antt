-- ===== src/Numbers/Defs.antt =====
-- Rendering and parsing. A spoken text is the list of its words: what `" ".join` puts together
-- and the token split takes apart. Decimal and the regular expressions are not the repository's:
-- a `Decimal` is what their clients rely on, and the texts that the expressions recognise are
-- arguments.
use uaagro_voice_agent.Prelude.{
  ℕ, zero, suc, ◌+◌, ◌*◌, ◌/◌, ◌%◌, ◌<◌, ◌≡◌, Bool, true, false, ◌&&◌, Option, none, some, List, [],
  ◌∷◌, ◌++◌, map, String, string_eq, leb, ltb, length, drop, if◌then◌else◌, ◌==◌,
}
use uaagro_voice_agent.Numbers.Tables.{
  ones_word, hundred, thousand, lakh, crore, word_value, scale_value,
}

-- Exact decimal arithmetic on the whole numbers that fit the context's precision.
pub record Decimal (D : Type 0) : Type 0 where
  pub of_nat : ℕ → D
  pub plus : D → D → D
  pub times : D → D → D
  pub is_zero : D → Bool
  pub precision : ℕ
  pub plus_exact : (a b : ℕ) → a + b < precision → plus (of_nat a) (of_nat b) ≡ of_nat (a + b)
  pub times_exact : (a b : ℕ) → a * b < precision → times (of_nat a) (of_nat b) ≡ of_nat (a * b)
  pub is_zero_iff : (a : ℕ) → is_zero (of_nat a) ≡ (a == 0)

-- One turn of the loop over the divisors: the words so far and what is left of the value.
unfoldable pub divide_out : ℕ → String → (ℕ → List String) → List String × ℕ → List String × ℕ
divide_out divisor name speak (parts, value) = elim (leb divisor value) [
  | true ↦ (parts ++ (speak (value / divisor) ++ name ∷ []), value % divisor)
  | false ↦ (parts, value)
]

unfoldable pub hundreds : List String × ℕ → List String × ℕ
unfolding ones_word
hundreds (parts, value) = elim (leb 100 value) [
  | true ↦ (parts ++ ones_word (value / 100) ∷ hundred ∷ [], value % 100)
  | false ↦ (parts, value)
]

unfoldable pub rest_of_value : List String × ℕ → List String
unfolding ones_word
rest_of_value (parts, value) = if value == 0 then parts else parts ++ ones_word value ∷ []

unfoldable pub words : ℕ → ℕ → List String
unfolding divide_out hundreds rest_of_value ones_word
words zero value = []
words (suc fuel) value = elim (ltb value 100) [
  | true ↦ ones_word value ∷ []
  | false ↦ rest_of_value (
      hundreds (
        divide_out 1_000 thousand (words fuel) (
          divide_out 100_000 lakh (words fuel)
            (divide_out 10_000_000 crore (words fuel) ([], value)))))
]

pub data Sign : Type 0 where
  non_negative negative : ℕ → Sign

-- A count is smaller than what it was divided from, so the value itself is fuel enough.
unfoldable pub to_hindi_words : Sign → List String
to_hindi_words (non_negative value) = words (suc value) value
to_hindi_words (negative value) = "ऋण" ∷ words (suc value) value

unfoldable pub price_words : ℕ → List String
unfolding ones_word
price_words value =
    if leb 1_000 value && ltb value 10_000
    then (let spoken = words (suc (value / 100)) (value / 100) ++ hundred ∷ [] in
        if value % 100 == 0 then spoken else spoken ++ ones_word (value % 100) ∷ [])
    else words (suc value) value

unfoldable pub to_hindi_price_words : Sign → List String
to_hindi_price_words (non_negative value) = price_words value
to_hindi_price_words (negative value) = "ऋण" ∷ price_words value

-- The default of `digits_to_words`: one digit at a time.
unfoldable pub digits_to_words : List ℕ → List String
unfolding ones_word
digits_to_words digits = map ones_word digits

module _ {D : Type 0} ⦃dec : Decimal D⦄ (literal : String → Option D) where
  pub record Running : Type 0 where
    pub total : D
    pub current : D
    pub seen_any : Bool

  unfoldable pub fresh_group : Running
  fresh_group = record { total = dec.of_nat 0; current = dec.of_nat 0; seen_any = false }

  unfoldable pub or_one : D → D
  or_one current = if dec.is_zero current then dec.of_nat 1 else current

  unfoldable pub close_group : ℕ → Running → Running
  unfolding or_one
  close_group scale r =
      if leb 1_000 scale
      then record {
        total = dec.plus r.total (dec.times (or_one r.current) (dec.of_nat scale));
        current = dec.of_nat 0;
        seen_any = true;
      }
      else record r { current = dec.times (or_one r.current) (dec.of_nat scale); seen_any = true }

  unfoldable pub add_word : D → Running → Running
  add_word value r = record r { current = dec.plus r.current value; seen_any = true }

  unfoldable pub add_token : String → Running → Option Running
  unfolding close_group add_word
  add_token token r = elim (scale_value token) [
    | some scale ↦ some (close_group scale r)
    | none ↦ elim (word_value token) [
      | some value ↦ some (add_word (dec.of_nat value) r)
      | none ↦ elim (literal token) [ some value ↦ some (add_word value r) | none ↦ none ]
    ]
  ]

  unfoldable pub add_tokens : List String → Running → Option Running
  unfolding add_token
  add_tokens [] r = some r
  add_tokens (token ∷ rest) r = elim (add_token token r) [
    | none ↦ none
    | some r' ↦ add_tokens rest r'
  ]

  unfoldable pub total_of : Option Running → Option D
  total_of none = none
  total_of (some r) = if r.seen_any then some (dec.plus r.total r.current) else none

  unfoldable pub accumulate : List String → Option D
  unfolding add_tokens total_of fresh_group
  accumulate tokens = total_of (add_tokens tokens fresh_group)

  unfoldable pub is_number_token : String → Bool
  is_number_token token = elim (word_value token) [
    | some _ ↦ true
    | none ↦ elim (scale_value token) [
      | some _ ↦ true
      | none ↦ elim (literal token) [ some _ ↦ true | none ↦ false ]
    ]
  ]

  -- `if buffer:` with `found.append` where the buffer is a number.
  unfoldable pub flush : List String → List D → List D
  unfolding accumulate
  flush [] found = found
  flush (token ∷ rest) found = elim (accumulate (token ∷ rest)) [
    | some value ↦ found ++ value ∷ []
    | none ↦ found
  ]

  unfoldable pub extract_tokens : List String → List String → List D → List D
  unfolding is_number_token flush
  extract_tokens [] buffer found = flush buffer found
  extract_tokens (token ∷ rest) buffer found = elim (is_number_token token) [
    | true ↦ extract_tokens rest (buffer ++ token ∷ []) found
    | false ↦ extract_tokens rest [] (flush buffer found)
  ]

  unfoldable pub extract_numbers : List String → List D
  unfolding extract_tokens
  extract_numbers tokens = extract_tokens tokens [] []

-- `token.isdigit()` with its digits is an argument.
unfoldable pub spoken_digits : (String → Option (List ℕ)) → List String → Option (List ℕ)
spoken_digits digits_of [] = some []
spoken_digits digits_of (token ∷ rest) =
    let later = spoken_digits digits_of rest in
    elim (digits_of token) [
      | some digits ↦ elim later [ none ↦ none | some ds ↦ some (digits ++ ds) ]
      | none ↦ elim (word_value token) [
        | none ↦ none
        | some value ↦
            if leb value 9 then elim later [ none ↦ none | some ds ↦ some (value ∷ ds) ] else none
      ]
    ]

abbrev pub ten_digits : Option (List ℕ) → Option (List ℕ)
ten_digits none = none
ten_digits (some ds) = if length ds == 10 then some ds else none

abbrev pub starts_with : List ℕ → List ℕ → Bool
starts_with [] ds = true
starts_with (p ∷ ps) [] = false
starts_with (p ∷ ps) (d ∷ ds) = (d == p) && starts_with ps ds

-- `digits` are the decimal digits of the whole text.
unfoldable pub parse_phone_number :
    (String → Option (List ℕ)) → List ℕ → List String → Option (List ℕ)
unfolding spoken_digits
parse_phone_number digits_of digits tokens =
    if length digits == 10
    then some digits
    else if length digits == 12 && starts_with (9 ∷ 1 ∷ []) digits
    then some (drop 2 digits)
    else if length digits == 11 && starts_with (0 ∷ []) digits
    then some (drop 1 digits)
    else ten_digits (spoken_digits digits_of tokens)
