-- ===== src/Tools/Registry.antt =====
-- The registry of tools: ToolRegistry of apps/voice-worker/src/voice_worker/tools/base.py. What a
-- tool's runs come to, one after another, is given with the call; `execute` also answers how many
-- runs there were.
use uaagro_voice_agent.Prelude.{
  ℕ, zero, suc, Bool, true, false, not, Option, none, some, List, [], ◌∷◌, ◌++◌, String, string_eq,
  lookup, insert, take, leb, if◌then◌else◌,
}
use uaagro_voice_agent.Tools.Schema.{Numbers, Value, Problem, Schema, validate_against_schema}

abbrev pub max_calls_per_turn : ℕ
max_calls_per_turn = 2

abbrev pub default_retries : ℕ
default_retries = 1

abbrev pub p95_budget : ℕ
p95_budget = 150

-- What one run comes to, and its milliseconds: the payload, a timeout, an error of the domain with
-- its code and message, or any other exception.
pub data Run (D : Type 0) : Type 0 where
  returned : D → ℕ → Run D
  timed_out failed : ℕ → Run D
  domain_error : String → String → ℕ → Run D

-- Why a result is not an answer; the code of a domain's error stands in the result's data.
pub data Refusal : Type 0 where
  no_such_tool too_long_taken not_available : Refusal
  invalid : List Problem → Refusal
  domain : String → String → Refusal

pub record ToolResult (D : Type 0) : Type 0 where
  pub tool : String
  pub ok : Bool
  pub data_of : Option D
  pub error : Option Refusal
  pub latency : ℕ
  pub was_timed_out : Bool
  pub grounded : Bool

unfoldable pub within_budget : {D : Type 0} → ToolResult D → Bool
within_budget r = leb r.latency p95_budget

abbrev pub answered : {D : Type 0} → String → D → ℕ → ToolResult D
answered name payload ms = record {
  tool = name;
  ok = true;
  data_of = some payload;
  error = none;
  latency = ms;
  was_timed_out = false;
  grounded = true;
}

abbrev pub refused : {D : Type 0} → String → Refusal → ℕ → ToolResult D
refused name why ms = record {
  tool = name;
  ok = false;
  data_of = none;
  error = some why;
  latency = ms;
  was_timed_out = false;
  grounded = false;
}

abbrev pub same_bool : Bool → Bool → Bool
same_bool true b = b
same_bool false b = not b

module _ (n : Numbers) where
  pub record Tool : Type 0 where
    pub name : String
    pub parameters : Schema n
    pub read_only : Bool

  abbrev pub Registry : Type 0
  Registry = List (String × Tool)

  abbrev pub Args : Type 0
  Args = List (String × Value n)

  -- None where it raises ValueError.
  unfoldable pub register : Tool → Registry → Option Registry
  register tool registry = elim (lookup tool.name registry) [
    | none ↦ some (insert tool.name tool registry)
    | some other ↦ none
  ]

  abbrev pub listed : Option Tool → List Tool
  listed none = []
  listed (some tool) = tool ∷ []

  unfoldable pub allowed : List String → Registry → List Tool
  allowed [] registry = []
  allowed (name ∷ names) registry = listed (lookup name registry) ++ allowed names registry

  -- A dictionary of tools by their names; a later one of the same name replaces the earlier.
  unfoldable pub by_name : List Tool → Registry → Registry
  by_name [] registry = registry
  by_name (tool ∷ tools) registry = by_name tools (insert tool.name tool registry)

  unfoldable pub restricted : List String → Registry → Registry
  restricted [] registry = registry
  restricted (name ∷ names) registry = by_name (allowed (name ∷ names) registry) []

  unfoldable pub is_read_only : Registry → String → Bool
  is_read_only registry name = elim (lookup name registry) [
    | none ↦ true
    | some tool ↦ tool.read_only
  ]

module _ {D : Type 0} where
  -- What `execute` answers after a run that is not tried again.
  unfoldable pub settled : String → Run D → ToolResult D
  settled name (returned payload ms) = answered name payload ms
  settled name (timed_out ms) = record (refused name too_long_taken ms) { was_timed_out = true }
  settled name (domain_error code message ms) = refused name (domain code message) ms
  settled name (failed ms) = refused name not_available ms

  abbrev pub is_timeout : Run D → Bool
  is_timeout (timed_out ms) = true
  is_timeout _ = false

  -- The attempts from one on, with the retries that are left: only a timeout is tried again.
  unfoldable pub attempt : String → (ℕ → Run D) → ℕ → ℕ → ToolResult D × ℕ
  attempt name runs k zero = (settled name (runs k), suc k)
  attempt name runs k (suc left) = elim (is_timeout (runs k)) [
    | true ↦ attempt name runs (suc k) left
    | false ↦ (settled name (runs k), suc k)
  ]

module _ (n : Numbers) (D : Type 0) where
  -- `execute` once the tool is found and its arguments are checked.
  unfoldable pub run_checked : String → List Problem → (ℕ → Run D) → ℕ → ToolResult D × ℕ
  run_checked name [] runs retries = attempt name runs 0 retries
  run_checked name (p ∷ problems) runs retries = (refused name (invalid (p ∷ problems)) 0, 0)

  unfoldable pub run_found : String → Option (Tool n) → Args n → (ℕ → Run D) → ℕ → ToolResult D × ℕ
  run_found name none args runs retries = (refused name no_such_tool 0, 0)
  run_found name (some tool) args runs retries =
      run_checked name (validate_against_schema n args tool.parameters) runs retries

  unfoldable pub execute : Registry n → String → Args n → (ℕ → Run D) → ℕ → ToolResult D × ℕ
  execute registry name args runs retries = run_found name (lookup name registry) args runs retries

  -- A call of the model's, with what its runs come to.
  abbrev pub Call : Type 0
  Call = String × Args n × (ℕ → Run D)

  -- The calls that are read-only, or those that are not.
  unfoldable pub calls_that : Bool → Registry n → List Call → List Call
  calls_that reads registry [] = []
  calls_that reads registry (c ∷ calls) =
      let rest = calls_that reads registry calls in
      if same_bool reads (is_read_only n registry c.0) then c ∷ rest else rest

  unfoldable pub execute_all : Registry n → List Call → List (ToolResult D)
  execute_all registry [] = []
  execute_all registry (c ∷ calls) =
      (execute registry c.0 c.1 c.2 default_retries).0 ∷ execute_all registry calls

  unfoldable pub execute_many : Registry n → List Call → List (ToolResult D)
  execute_many registry calls =
      execute_all registry (calls_that true registry (take max_calls_per_turn calls))
      ++ execute_all registry (calls_that false registry (take max_calls_per_turn calls))
