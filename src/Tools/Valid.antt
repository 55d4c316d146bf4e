-- ===== src/Tools/Valid.antt =====
-- What the schema's check lets through.
use uaagro_voice_agent.Prelude.{
  sym, ap₂, ap, ◌∙◌, ◌≡◌, ◌↔◌, refl, Bool, true, false, ◌&&◌, ◌||◌, not, Option, none, some, List,
  [], ◌∷◌, ◌++◌, String, string_eq, codes, length, lookup, all, arith, if◌then◌else◌,
}
use uaagro_voice_agent.Tools.Schema.{
  unrecognised, required, Numbers, Value, null, text, number, boolean, array, object, Kind,
  string_kind, number_kind, integer_kind, boolean_kind, array_kind, other_kind, Problem, Spec,
  Schema, flagged, is_unlisted, is_shorter, is_longer, is_smaller, is_greater, check_text,
  check_number, check_value, is_null, is_missing, check_required, check_known, check_given,
  check_values, validate_against_schema,
}
use uaagro_voice_agent.Tools.Accepted.{
  accepts_text, accepts_number, accepts_given, accepts, is_given, is_there, is_valid, listed_lem,
  from_lem, up_to_lem, above_lem, below_lem, given_lem, there_lem,
}

abbrev is_none : List Problem → Bool
is_none [] = true
is_none (p ∷ ps) = false

is_none-append : (ps qs : List Problem) → is_none (ps ++ qs) ≡ (is_none ps && is_none qs)
is_none-append [] qs = refl
is_none-append (p ∷ ps) qs = refl

is_none-flagged : (b : Bool) (p : Problem) → is_none (flagged b p) ≡ not b
is_none-flagged true p = refl
is_none-flagged false p = refl

is_none-three :
    (a b c : Bool) (p q r : Problem)
    → is_none (flagged a p ++ (flagged b q ++ flagged c r)) ≡ (not a && (not b && not c))
is_none-three true b c p q r = refl
is_none-three false true c p q r = refl
is_none-three false false true p q r = refl
is_none-three false false false p q r = refl

not-not : (b : Bool) → not (true && not b) ≡ b
not-not b = ground arith

is_none_iff : (ps : List Problem) → ps ≡ [] ↔ is_none ps ≡ true
is_none_iff [] = (λ h. refl, λ h. refl)
is_none_iff (p ∷ ps) = (λ h. absurd (ground arith), λ h. absurd (ground arith))

module _ (n : Numbers) where
  is_none-check_text :
      (name s : String) (spec : Spec n) → is_none (check_text n name s spec) ≡ accepts_text n s spec
  unfolding check_text
  is_none-check_text name s spec =
      is_none-three (is_unlisted spec.listed s) (is_shorter spec.min_length (length (codes s)))
        (is_longer spec.max_length (length (codes s))) _ _ _
      ∙ ap₂ (◌&&◌) (listed_lem n spec.listed s) (
          ap₂ (◌&&◌) (from_lem n spec.min_length (length (codes s)))
            (up_to_lem n spec.max_length (length (codes s))))

  is_none-check_number :
      (name : String) (v : n.Number) (whole : Bool) (spec : Spec n)
      → is_none (check_number n name v whole spec)
        ≡ (not (whole && not (n.is_whole v)) && accepts_number n v spec)
  unfolding check_number
  is_none-check_number name v whole spec =
      is_none-three (whole && not (n.is_whole v)) (is_smaller n spec.minimum v)
        (is_greater n spec.maximum v) _ _ _
      ∙ ap (λ b. not (whole && not (n.is_whole v)) && b)
          (ap₂ (◌&&◌) (above_lem n spec.minimum v) (below_lem n spec.maximum v))

  -- Value by value and kind by kind, the check agrees with what is accepted.
  is_none-check_value :
      (name : String) (value : Value n) (kind : Kind) (spec : Spec n)
      → is_none (check_value n name value kind spec) ≡ accepts n value kind spec
  unfolding check_value
  is_none-check_value name null string_kind spec = refl
  is_none-check_value name null number_kind spec = refl
  is_none-check_value name null integer_kind spec = refl
  is_none-check_value name null boolean_kind spec = refl
  is_none-check_value name null array_kind spec = refl
  is_none-check_value name null other_kind spec = refl
  is_none-check_value name (text s) string_kind spec = is_none-check_text name s spec
  is_none-check_value name (text s) number_kind spec = refl
  is_none-check_value name (text s) integer_kind spec = refl
  is_none-check_value name (text s) boolean_kind spec = refl
  is_none-check_value name (text s) array_kind spec = refl
  is_none-check_value name (text s) other_kind spec = refl
  is_none-check_value name (number v) string_kind spec = refl
  is_none-check_value name (number v) number_kind spec = is_none-check_number name v false spec
  is_none-check_value name (number v) integer_kind spec =
      is_none-check_number name v true spec
      ∙ ap (λ w. w && accepts_number n v spec) (not-not (n.is_whole v))
  is_none-check_value name (number v) boolean_kind spec = refl
  is_none-check_value name (number v) array_kind spec = refl
  is_none-check_value name (number v) other_kind spec = refl
  is_none-check_value name (boolean b) string_kind spec = refl
  is_none-check_value name (boolean b) number_kind spec = refl
  is_none-check_value name (boolean b) integer_kind spec = refl
  is_none-check_value name (boolean b) boolean_kind spec = refl
  is_none-check_value name (boolean b) array_kind spec = refl
  is_none-check_value name (boolean b) other_kind spec = refl
  is_none-check_value name array string_kind spec = refl
  is_none-check_value name array number_kind spec = refl
  is_none-check_value name array integer_kind spec = refl
  is_none-check_value name array boolean_kind spec = refl
  is_none-check_value name array array_kind spec = refl
  is_none-check_value name array other_kind spec = refl
  is_none-check_value name object string_kind spec = refl
  is_none-check_value name object number_kind spec = refl
  is_none-check_value name object integer_kind spec = refl
  is_none-check_value name object boolean_kind spec = refl
  is_none-check_value name object array_kind spec = refl
  is_none-check_value name object other_kind spec = refl

  is_none-check_given :
      (name : String) (value : Value n) (spec : Option (Spec n))
      → is_none (check_given n name value spec) ≡ accepts_given n value spec
  unfolding check_given
  is_none-check_given name null none = refl
  is_none-check_given name (text s) none = refl
  is_none-check_given name (number v) none = refl
  is_none-check_given name (boolean b) none = refl
  is_none-check_given name array none = refl
  is_none-check_given name object none = refl
  is_none-check_given name null (some spec) = refl
  is_none-check_given name (text s) (some spec) = is_none-check_value name (text s) spec.kind spec
  is_none-check_given name (number v) (some spec) =
      is_none-check_value name (number v) spec.kind spec
  is_none-check_given name (boolean b) (some spec) =
      is_none-check_value name (boolean b) spec.kind spec
  is_none-check_given name array (some spec) = is_none-check_value name array spec.kind spec
  is_none-check_given name object (some spec) = is_none-check_value name object spec.kind spec

  is_none-check_required :
      (names : List String) (args : List (String × Value n))
      → is_none (check_required n names args) ≡ all (λ name. is_given n (lookup name args)) names
  unfolding check_required
  is_none-check_required [] args = refl
  is_none-check_required (name ∷ names) args =
      is_none-append (flagged (is_null n (lookup name args)) (required name)) _
      ∙ ap₂ (◌&&◌)
          (is_none-flagged (is_null n (lookup name args)) (required name)
            ∙ given_lem n (lookup name args))
          (is_none-check_required names args)

  is_none-check_known :
      (properties : List (String × Spec n)) (args : List (String × Value n))
      → is_none (check_known n properties args) ≡ all (λ a. is_there n (lookup a.0 properties)) args
  unfolding check_known
  is_none-check_known properties [] = refl
  is_none-check_known properties ((name, value) ∷ args) =
      is_none-append (flagged (is_missing n (lookup name properties)) (unrecognised name)) _
      ∙ ap₂ (◌&&◌)
          (is_none-flagged (is_missing n (lookup name properties)) (unrecognised name)
            ∙ there_lem n (lookup name properties))
          (is_none-check_known properties args)

  is_none-check_values :
      (properties : List (String × Spec n)) (args : List (String × Value n))
      → is_none (check_values n properties args)
        ≡ all (λ a. accepts_given n a.1 (lookup a.0 properties)) args
  unfolding check_values
  is_none-check_values properties [] = refl
  is_none-check_values properties ((name, value) ∷ args) =
      is_none-append (check_given n name value (lookup name properties)) _
      ∙ ap₂ (◌&&◌) (is_none-check_given name value (lookup name properties))
          (is_none-check_values properties args)

  is_none-closed :
      (b : Bool) (properties : List (String × Spec n)) (args : List (String × Value n))
      → is_none (if b then check_known n properties args else [])
        ≡ (not b || all (λ a. is_there n (lookup a.0 properties)) args)
  is_none-closed true properties args = is_none-check_known properties args
  is_none-closed false properties args = refl

  -- Arguments pass the schema's check, with no problem to report, exactly when every required
  -- argument is given and not null, none is unknown to a schema that allows no others, and each
  -- that is given under a property, null aside, is of its kind, is listed where values are, and is
  -- within the bounds of its length or its size.
  pub validate_against_schema_iff :
      (args : List (String × Value n)) (schema : Schema n)
      → validate_against_schema n args schema ≡ [] ↔ is_valid n args schema ≡ true
  unfolding validate_against_schema
  validate_against_schema_iff args schema =
      let known = if schema.is_closed then check_known n schema.properties args else [] in
      let agrees : is_none (validate_against_schema n args schema) ≡ is_valid n args schema =
        is_none-append (check_required n schema.required_names args) _
        ∙ ap₂ (◌&&◌) (is_none-check_required schema.required_names args) (
            is_none-append known _
            ∙ ap₂ (◌&&◌) (is_none-closed schema.is_closed schema.properties args)
                (is_none-check_values schema.properties args)) in
      let both = is_none_iff (validate_against_schema n args schema) in
      (λ h. sym agrees ∙ both.0 h, λ h. both.1 (agrees ∙ h))
