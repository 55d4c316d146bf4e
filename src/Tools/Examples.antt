-- ===== src/Tools/Examples.antt =====
-- A small registry, and the theorems at inputs that meet their hypotheses.
use uaagro_voice_agent.Prelude.{
  ◌∙◌, ap, str_eq, sym, ◌==◌, ◌%◌, ℕ, ◌≡◌, ◌↔◌, refl, Bool, true, false, none, some, List, [], ◌∷◌,
  String, string_eq, ltb, if◌then◌else◌, arith,
}
use uaagro_voice_agent.Tools.Schema.{
  is_null, check_number, is_greater, check_value, is_smaller, check_given, is_longer, check_values,
  is_shorter, check_known, is_unlisted, check_required, Numbers, text, number, string_kind,
  integer_kind, Spec, Schema, validate_against_schema, too_large, required,
}
use uaagro_voice_agent.Tools.Registry.{Run, returned, timed_out, Tool, Registry, Args, execute}
use uaagro_voice_agent.Tools.Accepted.{is_valid}
use uaagro_voice_agent.Tools.Valid.{validate_against_schema_iff}
use uaagro_voice_agent.Tools.Execution.{Stops, execute-Stops}
use uaagro_voice_agent.Tools.Allowed.{IsNamed}

-- Whole numbers of tenths.
abbrev tenths : Numbers
tenths = record { Number = ℕ; is_whole = λ v. v % 10 == 0; is_less = ltb }

abbrev any_text : Spec tenths
any_text = record {
  kind = string_kind;
  listed = none;
  min_length = some 1;
  max_length = some 40;
  minimum = none;
  maximum = none;
}

abbrev up_to_five : Spec tenths
up_to_five = record {
  kind = integer_kind;
  listed = none;
  min_length = none;
  max_length = none;
  minimum = some 10;
  maximum = some 50;
}

abbrev search_schema : Schema tenths
search_schema = record {
  properties = ("product", any_text) ∷ ("limit", up_to_five) ∷ [];
  required_names = "product" ∷ [];
  is_closed = true;
}

abbrev good_args : Args tenths
good_args = ("product", text "urea") ∷ ("limit", number 30) ∷ []

abbrev bad_args : Args tenths
bad_args = ("limit", number 60) ∷ []

validate-bad_args :
    validate_against_schema tenths bad_args search_schema
    ≡ required "product" ∷ too_large "limit" ∷ []
unfolding validate_against_schema check_required check_known check_values check_given check_value
    check_number is_smaller is_greater is_null
validate-bad_args = refl

abbrev search : Tool tenths
search = record { name = "search_products"; parameters = search_schema; read_only = true }

abbrev tools : Registry tenths
tools = ("search_products", search) ∷ []

-- The first run times out and the second returns.
abbrev slow : ℕ → Run String
slow k = if k == 0 then timed_out 400 else returned "two bags" 35

validate_against_schema_iff_example :
    validate_against_schema tenths good_args search_schema ≡ []
    ↔ is_valid tenths good_args search_schema ≡ true
validate_against_schema_iff_example = validate_against_schema_iff tenths good_args search_schema

execute-Stops_example :
    Stops "search_products" slow 0 1
      (execute tenths String tools "search_products" good_args slow 1)
unfolding is_unlisted is_shorter is_longer is_smaller is_greater is_null
execute-Stops_example = execute-Stops tenths String tools "search_products" good_args slow 1 refl

found_named :
    (b : Bool) (name : String) (tool : Tool tenths)
    → (b ≡ true → "search_products" ≡ name)
    → (if b then some search else none) ≡ some tool
    → tool.name ≡ name
found_named true name tool same h =
    let one : search ≡ tool = ground (arith, h) in
    sym (ap (λ (t : Tool tenths). t.name) one) ∙ same refl
found_named false name tool same h = absurd (ground arith)

tools-IsNamed : IsNamed tenths tools
tools-IsNamed name tool h =
    found_named (str_eq "search_products" name) name tool
      (string_eq.beq_iff "search_products" name).0 h

abbrev other_name : String
other_name = "raise_ticket"

abbrev wanted : List String
wanted = "search_products" ∷ []
