-- ===== src/Tools/Accepted.antt =====
-- What arguments a schema accepts, apart from how it is checked, and the tests of the check.
use uaagro_voice_agent.Prelude.{
  ◌≡◌, refl, Bool, true, false, ◌&&◌, ◌||◌, not, Option, none, some, List, String, string_eq, codes,
  length, lookup, all, ℕ, leb, contains, arith,
}
use uaagro_voice_agent.Tools.Schema.{
  Numbers, Value, null, text, number, boolean, array, object, Kind, string_kind, number_kind,
  integer_kind, boolean_kind, array_kind, other_kind, Spec, Schema, is_unlisted, is_shorter,
  is_longer, is_smaller, is_greater, is_null, is_missing,
}

module _ (n : Numbers) where
  -- Whether a text is one of those listed, where some are, and within the lengths.
  abbrev pub is_listed : Option (List String) → String → Bool
  is_listed none s = true
  is_listed (some values) s = contains s values

  abbrev pub is_from : Option ℕ → ℕ → Bool
  is_from none size = true
  is_from (some least) size = leb least size

  abbrev pub is_up_to : Option ℕ → ℕ → Bool
  is_up_to none size = true
  is_up_to (some most) size = leb size most

  abbrev pub accepts_text : String → Spec n → Bool
  accepts_text s spec =
      is_listed spec.listed s
      && (is_from spec.min_length (length (codes s)) && is_up_to spec.max_length (length (codes s)))

  -- Whether a number is not less than the minimum, and the maximum not less than it.
  abbrev pub is_above : Option n.Number → n.Number → Bool
  is_above none v = true
  is_above (some least) v = not (n.is_less v least)

  abbrev pub is_below : Option n.Number → n.Number → Bool
  is_below none v = true
  is_below (some most) v = not (n.is_less most v)

  abbrev pub accepts_number : n.Number → Spec n → Bool
  accepts_number v spec = is_above spec.minimum v && is_below spec.maximum v

  -- Whether a value is of its property's kind and within its bounds.
  abbrev pub accepts : Value n → Kind → Spec n → Bool
  accepts (text s) string_kind spec = accepts_text s spec
  accepts (number v) number_kind spec = accepts_number v spec
  accepts (number v) integer_kind spec = n.is_whole v && accepts_number v spec
  accepts (boolean b) boolean_kind spec = true
  accepts array array_kind spec = true
  accepts _ other_kind spec = true
  accepts _ _ spec = false

  abbrev pub accepts_given : Value n → Option (Spec n) → Bool
  accepts_given null spec = true
  accepts_given value none = true
  accepts_given value (some spec) = accepts value spec.kind spec

  abbrev pub is_given : Option (Value n) → Bool
  is_given none = false
  is_given (some null) = false
  is_given (some (text s)) = true
  is_given (some (number v)) = true
  is_given (some (boolean b)) = true
  is_given (some array) = true
  is_given (some object) = true

  abbrev pub is_there : Option (Spec n) → Bool
  is_there none = false
  is_there (some spec) = true

  -- Every required argument is given, none is unknown to a closed schema, and each is accepted.
  abbrev pub is_valid : List (String × Value n) → Schema n → Bool
  is_valid args schema =
      all (λ name. is_given (lookup name args)) schema.required_names
      && ((not schema.is_closed || all (λ a. is_there (lookup a.0 schema.properties)) args)
          && all (λ a. accepts_given a.1 (lookup a.0 schema.properties)) args)

  pub listed_lem :
      (values : Option (List String)) (s : String) → not (is_unlisted values s) ≡ is_listed values s
  unfolding is_unlisted
  listed_lem none s = refl
  listed_lem (some values) s = ground arith

  pub from_lem : (least : Option ℕ) (size : ℕ) → not (is_shorter least size) ≡ is_from least size
  unfolding is_shorter
  from_lem none size = refl
  from_lem (some least) size = ground arith

  pub up_to_lem : (most : Option ℕ) (size : ℕ) → not (is_longer most size) ≡ is_up_to most size
  unfolding is_longer
  up_to_lem none size = refl
  up_to_lem (some most) size = ground arith

  pub above_lem :
      (least : Option n.Number) (v : n.Number) → not (is_smaller n least v) ≡ is_above least v
  unfolding is_smaller
  above_lem none v = refl
  above_lem (some least) v = refl

  pub below_lem :
      (most : Option n.Number) (v : n.Number) → not (is_greater n most v) ≡ is_below most v
  unfolding is_greater
  below_lem none v = refl
  below_lem (some most) v = refl

  pub given_lem : (value : Option (Value n)) → not (is_null n value) ≡ is_given value
  unfolding is_null
  given_lem none = refl
  given_lem (some null) = refl
  given_lem (some (text s)) = refl
  given_lem (some (number v)) = refl
  given_lem (some (boolean b)) = refl
  given_lem (some array) = refl
  given_lem (some object) = refl

  pub there_lem : (spec : Option (Spec n)) → not (is_missing n spec) ≡ is_there spec
  there_lem none = refl
  there_lem (some spec) = refl
