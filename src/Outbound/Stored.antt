-- ===== src/Outbound/Stored.antt =====
-- The script through the panel and through storage.
use uaagro_voice_agent.Prelude.{
  ◌≡◌, refl, Bool, false, some, List, [], ◌∷◌, String, string_eq, str_eq, insert, lookup-insert,
  arith, contains, ◌||◌,
}
use uaagro_voice_agent.Outbound.Reply.{is_empty}
use uaagro_voice_agent.Outbound.Script.{
  TextOps, Value, text, OutboundScript, kept_line, from_config, to_config, to_panel, from_panel,
  stored_keys, panel_value, default_ask_time, default_message, default_then_ask, default_on_press_1,
  default_closing,
}

-- A line that storage keeps as it is: not blank, its white space already normal.
abbrev IsTidy : TextOps → String → Type 0
IsTidy o line = (is_empty (o.strip line) ≡ false) × (o.tidy line ≡ line)

abbrev pub IsTidyScript : TextOps → OutboundScript → Type 0
IsTidyScript o s =
    IsTidy o s.ask_time
    × IsTidy o s.message
    × IsTidy o s.then_ask
    × IsTidy o s.on_press_1
    × IsTidy o s.closing

kept_line-IsTidy :
    (o : TextOps) (default line : String)
    → IsTidy o line
    → kept_line o default (some (text line)) ≡ line
unfolding kept_line
kept_line-IsTidy o default line (e, t) = rw (e, t) refl

-- The script that is read from five tidy lines.
IsTidy-from_config :
    (o : TextOps) (s : OutboundScript) → IsTidyScript o s → from_config o (to_config s) ≡ s
unfolding from_config to_config
IsTidy-from_config o s h =
    rw
      (
        kept_line-IsTidy o default_ask_time s.ask_time h.0,
        kept_line-IsTidy o default_message s.message h.1,
        kept_line-IsTidy o default_then_ask s.then_ask h.2,
        kept_line-IsTidy o default_on_press_1 s.on_press_1 h.3,
        kept_line-IsTidy o default_closing s.closing h.4,
      )
      refl

-- A script whose lines are not blank and have no white space to tidy is the same after the panel
-- has shown it and sent it back, and after it was stored and read.
from_panel-to_panel :
    (o : TextOps) (s : OutboundScript)
    → IsTidyScript o s
    → (from_panel o (to_panel o s) ≡ s) × (from_config o (to_config s) ≡ s)
unfolding from_panel to_panel from_config to_config stored_keys panel_value
from_panel-to_panel o s h = (IsTidy-from_config o s h, IsTidy-from_config o s h)

five :
    (a b c d e : Bool)
    → (a || (b || (c || (d || (e || false))))) ≡ false
    → (a ≡ false) × (b ≡ false) × (c ≡ false) × (d ≡ false) × (e ≡ false)
five a b c d e h = ground arith

panel_value-insert :
    (key camel : String) (v : Value) (raw : List (String × Value))
    → str_eq key camel ≡ false
    → panel_value camel (insert key v raw) ≡ panel_value camel raw
unfolding panel_value
panel_value-insert key camel v raw h = rw (panel_value, lookup-insert key camel v raw, h) refl

-- What the panel sends under any key but the five editable ones, the two lines that the law
-- prescribes among them, changes nothing of the script.
from_panel-insert :
    (o : TextOps) (key : String) (v : Value) (raw : List (String × Value))
    → contains key ("askTime" ∷ "message" ∷ "thenAsk" ∷ "onPress1" ∷ "closing" ∷ []) ≡ false
    → from_panel o (insert key v raw) ≡ from_panel o raw
unfolding from_panel stored_keys
from_panel-insert o key v raw h =
    let (a, b, c, d, e) = five (str_eq key "askTime") _ _ _ _ h in
    rw
      (
        panel_value-insert key "askTime" v raw a,
        panel_value-insert key "message" v raw b,
        panel_value-insert key "thenAsk" v raw c,
        panel_value-insert key "onPress1" v raw d,
        panel_value-insert key "closing" v raw e,
      )
      refl
