-- ===== src/Validator/Results.antt =====
-- What tools return, as the validator walks it: has_recommendation and _numbers_in of
-- apps/voice-worker/src/voice_worker/flow/validator.py, and ToolResult.to_dict of tools/base.py.
use uaagro_voice_agent.Prelude.{
  ℕ, Bool, true, false, ◌&&◌, ◌||◌, not, List, [], ◌∷◌, ◌++◌, String, str_eq, string_eq, codes,
  contains, if◌then◌else◌,
}
use uaagro_voice_agent.Validator.Figures.{numbers, fold}

-- A number, and a value of another class such as Decimal, is what `str` makes of it and whether it
-- counts as true.
mutual
  pub data Value : Type 0 where
    nothing : Value
    text : String → Value
    boolean : Bool → Value
    number : String → Bool → Value
    other : String → Bool → Value
    sequence : Items → Value
    mapping : Entries → Value

  pub data Items : Type 0 where
    no_items : Items
    item : Value → Items → Items

  pub data Entries : Type 0 where
    no_entries : Entries
    entry : String → Value → Entries → Entries

unfoldable pub is_true : Value → Bool
is_true nothing = false
is_true (text s) = not (str_eq s "")
is_true (boolean b) = b
is_true (number shown b) = b
is_true (other shown b) = b
is_true (sequence no_items) = false
is_true (sequence (item x xs)) = true
is_true (mapping no_entries) = false
is_true (mapping (entry k v fields)) = true

-- `.get(key)`
unfoldable pub get : String → Entries → Value
get key no_entries = nothing
get key (entry k v fields) = if str_eq k key then v else get key fields

abbrev pub recommendation_tools : List String
recommendation_tools = "recommend_for_crop" ∷ "calculate_dose" ∷ []

unfoldable pub is_recommendation_tool : Value → Bool
is_recommendation_tool (text s) = contains s recommendation_tools
is_recommendation_tool _ = false

-- What is no mapping has no recommendations.
unfoldable pub recommends : Value → Bool
recommends (mapping fields) = is_true (get "recommendations" fields) || is_true (get "dose" fields)
recommends _ = false

unfoldable pub has_recommendation : List Entries → Bool
has_recommendation [] = false
has_recommendation (result ∷ results) =
    (is_recommendation_tool (get "tool" result)
      && is_true (get "ok" result)
      && recommends (get "data" result))
    || has_recommendation results

abbrev pub shown_boolean : Bool → String
shown_boolean true = "True"
shown_boolean false = "False"

unfoldable mutual
  pub numbers_in : Value → List (List ℕ)
  numbers_in nothing = []
  numbers_in (text s) = numbers (codes s)
  numbers_in (boolean b) = fold (codes (shown_boolean b)) ∷ []
  numbers_in (number shown b) = fold (codes shown) ∷ []
  numbers_in (other shown b) = numbers (codes shown)
  numbers_in (sequence items) = numbers_in_items items
  numbers_in (mapping fields) = numbers_in_fields fields

  pub numbers_in_items : Items → List (List ℕ)
  numbers_in_items no_items = []
  numbers_in_items (item v items) = numbers_in v ++ numbers_in_items items

  pub numbers_in_fields : Entries → List (List ℕ)
  numbers_in_fields no_entries = []
  numbers_in_fields (entry k v fields) = numbers_in v ++ numbers_in_fields fields

unfoldable pub numbers_in_results : List Entries → List (List ℕ)
numbers_in_results [] = []
numbers_in_results (result ∷ results) = numbers_in_fields result ++ numbers_in_results results

-- A result before it is trimmed: the latency is what `str(round(…, 1))` shows.
pub record ToolResult : Type 0 where
  pub tool : String
  pub ok : Bool
  pub content : Entries
  pub error : String
  pub latency : String
  pub timed_out : Bool

unfoldable pub for_the_record : Entries → Entries
for_the_record no_entries = no_entries
for_the_record (entry k v fields) =
    if str_eq k "target_number" then for_the_record fields else entry k v (for_the_record fields)

abbrev pub with_content : Entries → Entries → Entries
with_content no_entries rest = rest
with_content (entry k v fields) rest = entry "data" (mapping (entry k v fields)) rest

abbrev pub with_error : String → Entries → Entries
with_error error rest = if str_eq error "" then rest else entry "error" (text error) rest

abbrev pub with_timeout : Bool → Entries
with_timeout true = entry "timed_out" (boolean true) no_entries
with_timeout false = no_entries

unfoldable pub to_dict : ToolResult → Entries
to_dict r = entry "tool" (text r.tool) (
    entry "ok" (boolean r.ok) (
      entry "latency_ms" (number r.latency (not (str_eq r.latency "0.0")))
        (with_content (for_the_record r.content) (with_error r.error (with_timeout r.timed_out)))))
