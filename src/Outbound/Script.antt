-- ===== src/Outbound/Script.antt =====
-- The outbound script as the panel edits it: packages/domain/src/uaagro_domain/script.py.
use uaagro_voice_agent.Prelude.{
  ℕ, Option, none, some, List, [], ◌∷◌, ◌++◌, String, string_eq, lookup, ltb, if◌then◌else◌,
}
use uaagro_voice_agent.Outbound.Reply.{is_empty}

abbrev pub disclosure : String
disclosure =
    "नमस्ते! मैं यूए एग्रो के नवीन खुशहाली किसान सेवा केंद्र से बोल रहा हूँ। यह एक ऑटोमैटिक कॉल है।"

abbrev pub verify_person : String
verify_person = "क्या मैं {नाम} जी से बात कर रहा हूँ?"

abbrev pub verify_person_unknown : String
verify_person_unknown = "क्या मैं सही व्यक्ति से बात कर रहा हूँ?"

abbrev pub default_ask_time : String
default_ask_time = "आपका दो मिनट का समय ले सकता हूँ?"

abbrev pub default_message : String
default_message = ""

abbrev pub default_then_ask : String
default_then_ask =
    "अगर आप यह ऑफ़र लेना चाहते हैं, तो अपने फ़ोन पर एक दबाइए — या बस 'हाँ' बोल दीजिए। और जानकारी के लिए दो दबाइए।"

abbrev pub default_on_press_1 : String
default_on_press_1 = "जी बहुत अच्छा। केंद्र पर अपना नाम बताइएगा, आपको यह मिल जाएगा।"

abbrev pub opt_out_text : String
opt_out_text =
    "जी बिल्कुल, मैं आपका नंबर आज ही हटा देता हूँ। आगे से कॉल नहीं आएगी। असुविधा के लिए क्षमा कीजिए।"

abbrev pub default_closing : String
default_closing = "जी, आपका समय देने के लिए धन्यवाद। नमस्ते जी।"

-- What the standard library does to a text: strip, `" ".join(s.split())`, len(s.split()), replace,
-- and the concatenation of the parts of an f-string.
pub record TextOps : Type 0 where
  pub strip : String → String
  pub tidy : String → String
  pub count_words : String → ℕ
  pub replace : String → String → String → String
  pub concat : List String → String

abbrev pub max_message_words : ℕ
max_message_words = 110

-- A value of a JSON object: a text, or anything else.
pub data Value : Type 0 where
  text : String → Value
  other : Value

pub record OutboundScript : Type 0 where
  pub ask_time : String
  pub message : String
  pub then_ask : String
  pub on_press_1 : String
  pub closing : String

-- The line under a key, or the default where there is none or it is blank.
unfoldable pub kept_line : TextOps → String → Option Value → String
kept_line o default (some (text value)) = if is_empty (o.strip value) then default else o.tidy value
kept_line o default (some other) = default
kept_line o default none = default

unfoldable pub from_config : TextOps → List (String × Value) → OutboundScript
from_config o raw = record {
  ask_time = kept_line o default_ask_time (lookup "ask_time" raw);
  message = kept_line o default_message (lookup "message" raw);
  then_ask = kept_line o default_then_ask (lookup "then_ask" raw);
  on_press_1 = kept_line o default_on_press_1 (lookup "on_press_1" raw);
  closing = kept_line o default_closing (lookup "closing" raw);
}

unfoldable pub to_config : OutboundScript → List (String × Value)
to_config s =
    ("ask_time", text s.ask_time)
    ∷ ("message", text s.message)
    ∷ ("then_ask", text s.then_ask)
    ∷ ("on_press_1", text s.on_press_1)
    ∷ ("closing", text s.closing)
    ∷ []

unfoldable pub opening : TextOps → String
opening o = o.concat (disclosure ∷ " " ∷ verify_person ∷ [])

unfoldable pub to_panel : TextOps → OutboundScript → List (String × Value)
to_panel o s =
    ("opening", text (opening o))
    ∷ ("askTime", text s.ask_time)
    ∷ ("message", text s.message)
    ∷ ("thenAsk", text s.then_ask)
    ∷ ("onPress1", text s.on_press_1)
    ∷ ("onPress2", text "knowledge_base")
    ∷ ("optOut", text opt_out_text)
    ∷ ("closing", text s.closing)
    ∷ []

-- `raw.get(camel)`, with None as a value that is no text.
unfoldable pub panel_value : String → List (String × Value) → Value
panel_value camel raw = elim (lookup camel raw) [ some v ↦ v | none ↦ other ]

-- The editable keys of the panel under their stored names.
unfoldable pub stored_keys : List (String × Value) → List (String × Value)
stored_keys raw =
    ("ask_time", panel_value "askTime" raw)
    ∷ ("message", panel_value "message" raw)
    ∷ ("then_ask", panel_value "thenAsk" raw)
    ∷ ("on_press_1", panel_value "onPress1" raw)
    ∷ ("closing", panel_value "closing" raw)
    ∷ []

unfoldable pub from_panel : TextOps → List (String × Value) → OutboundScript
from_panel o raw = from_config o (stored_keys raw)

pub data Problem : Type 0 where
  empty_message : Problem
  long_message : ℕ → Problem

unfoldable pub problems : TextOps → OutboundScript → List Problem
problems o s =
    (if is_empty (o.strip s.message) then empty_message ∷ [] else [])
    ++ (if ltb max_message_words (o.count_words s.message)
        then long_message (o.count_words s.message) ∷ []
        else [])

-- `name or ""` and its like.
unfoldable pub given_or : Option String → String → String
given_or none default = default
given_or (some name) default = if is_empty name then default else name

unfoldable pub render : TextOps → Option String → Option String → String → String
render o name centre line =
    let who = given_or name "" in
    let place = given_or centre "हमारे केंद्र" in
    o.tidy (
      o.replace "{centre}" place
        (o.replace "{केंद्र}" place (o.replace "{name}" who (o.replace "{नाम}" who line))))

-- The identity check, with the farmer's name where it is known.
unfoldable pub verify_line : TextOps → Option String → String
verify_line o none = verify_person_unknown
verify_line o (some name) =
    if is_empty name then verify_person_unknown else o.replace "{नाम}" name verify_person

unfoldable pub rendered_opening : TextOps → Option String → String
rendered_opening o name = o.concat (disclosure ∷ " " ∷ verify_line o name ∷ [])
