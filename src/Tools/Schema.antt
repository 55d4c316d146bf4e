-- ===== src/Tools/Schema.antt =====
-- Arguments checked against a schema: validate_against_schema and _check_value of
-- apps/voice-worker/src/voice_worker/tools/base.py. The numbers of JSON are a type of their own with
-- the two tests that the code makes of them; what stands in a list or an object is never looked at.
use uaagro_voice_agent.Prelude.{
  ℕ, Bool, true, false, ◌&&◌, not, Option, none, some, List, [], ◌∷◌, ◌++◌, String, string_eq,
  codes, length, lookup, contains, ltb, if◌then◌else◌,
}

pub record Numbers : Type 1 where
  pub Number : Type 0
  pub is_whole : Number → Bool
  pub is_less : Number → Number → Bool

module _ (n : Numbers) where
  pub data Value : Type 0 where
    null : Value
    text : String → Value
    number : n.Number → Value
    boolean : Bool → Value
    array object : Value

pub data Kind : Type 0 where
  string_kind number_kind integer_kind boolean_kind array_kind other_kind : Kind

pub data Problem : Type 0 where
  required unrecognised not_text not_listed too_short too_long not_number not_whole too_small
        too_large not_boolean not_list :
      String → Problem

module _ (n : Numbers) where
  -- The keys of a property's schema that the code reads; a key that is absent is none.
  pub record Spec : Type 0 where
    pub kind : Kind
    pub listed : Option (List String)
    pub min_length : Option ℕ
    pub max_length : Option ℕ
    pub minimum : Option n.Number
    pub maximum : Option n.Number

  pub record Schema : Type 0 where
    pub properties : List (String × Spec)
    pub required_names : List String
    pub is_closed : Bool

-- A problem, if the test says so.
abbrev pub flagged : Bool → Problem → List Problem
flagged true p = p ∷ []
flagged false p = []

unfoldable pub is_unlisted : Option (List String) → String → Bool
is_unlisted none value = false
is_unlisted (some values) value = not (contains value values)

unfoldable pub is_shorter : Option ℕ → ℕ → Bool
is_shorter none size = false
is_shorter (some least) size = ltb size least

unfoldable pub is_longer : Option ℕ → ℕ → Bool
is_longer none size = false
is_longer (some most) size = ltb most size

module _ (n : Numbers) where
  unfoldable pub is_smaller : Option n.Number → n.Number → Bool
  is_smaller none value = false
  is_smaller (some least) value = n.is_less value least

  unfoldable pub is_greater : Option n.Number → n.Number → Bool
  is_greater none value = false
  is_greater (some most) value = n.is_less most value

  unfoldable pub check_text : String → String → Spec n → List Problem
  check_text name value spec =
      flagged (is_unlisted spec.listed value) (not_listed name)
      ++ (flagged (is_shorter spec.min_length (length (codes value))) (too_short name)
          ++ flagged (is_longer spec.max_length (length (codes value))) (too_long name))

  unfoldable pub check_number : String → n.Number → Bool → Spec n → List Problem
  check_number name value whole spec =
      flagged (whole && not (n.is_whole value)) (not_whole name)
      ++ (flagged (is_smaller spec.minimum value) (too_small name)
          ++ flagged (is_greater spec.maximum value) (too_large name))

  unfoldable pub check_value : String → Value n → Kind → Spec n → List Problem
  check_value name (text s) string_kind spec = check_text name s spec
  check_value name _ string_kind spec = not_text name ∷ []
  check_value name (number v) number_kind spec = check_number name v false spec
  check_value name _ number_kind spec = not_number name ∷ []
  check_value name (number v) integer_kind spec = check_number name v true spec
  check_value name _ integer_kind spec = not_number name ∷ []
  check_value name (boolean b) boolean_kind spec = []
  check_value name _ boolean_kind spec = not_boolean name ∷ []
  check_value name array array_kind spec = []
  check_value name _ array_kind spec = not_list name ∷ []
  check_value name _ other_kind spec = []

  unfoldable pub is_null : Option (Value n) → Bool
  is_null none = true
  is_null (some null) = true
  is_null (some _) = false

  unfoldable pub check_required : List String → List (String × Value n) → List Problem
  check_required [] args = []
  check_required (name ∷ names) args =
      flagged (is_null (lookup name args)) (required name) ++ check_required names args

  abbrev pub is_missing : {A : Type 0} → Option A → Bool
  is_missing none = true
  is_missing (some a) = false

  unfoldable pub check_known : List (String × Spec n) → List (String × Value n) → List Problem
  check_known properties [] = []
  check_known properties ((name, value) ∷ args) =
      flagged (is_missing (lookup name properties)) (unrecognised name)
      ++ check_known properties args

  -- A value under no property, or null, is passed over.
  unfoldable pub check_given : String → Value n → Option (Spec n) → List Problem
  check_given name value none = []
  check_given name null (some spec) = []
  check_given name value (some spec) = check_value name value spec.kind spec

  unfoldable pub check_values : List (String × Spec n) → List (String × Value n) → List Problem
  check_values properties [] = []
  check_values properties ((name, value) ∷ args) =
      check_given name value (lookup name properties) ++ check_values properties args

  unfoldable pub validate_against_schema : List (String × Value n) → Schema n → List Problem
  validate_against_schema args schema =
      check_required schema.required_names args
      ++ ((if schema.is_closed then check_known schema.properties args else [])
          ++ check_values schema.properties args)
