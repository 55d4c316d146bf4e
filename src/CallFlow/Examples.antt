-- ===== src/CallFlow/Examples.antt =====
-- Runs of the call flow, and the theorems at inputs that meet their hypotheses.
use uaagro_voice_agent.Prelude.{
  ◌≡◌, ◌↔◌, refl, true, Option, none, some, List, [], ◌∷◌, String, contains,
}
use uaagro_voice_agent.CallFlow.States.{
  CallState, state_eq, init, identify, screen, greet, lang_lock, discover, end, escalate, transfer,
}
use uaagro_voice_agent.CallFlow.Defs.{new_call, to, reachable_from}
use uaagro_voice_agent.CallFlow.Graph.{Reach, reachable_from_iff}
use uaagro_voice_agent.CallFlow.Moves.{attempt_all}

-- A call that asks for a transfer too early, is refused, and gets there by way of ESCALATE.
abbrev moves : List (CallState × Option String)
moves =
    (identify, none)
    ∷ (screen, none)
    ∷ (greet, none)
    ∷ (transfer, none)
    ∷ (lang_lock, none)
    ∷ (escalate, some "asked_for_human")
    ∷ (discover, none)
    ∷ (transfer, none)
    ∷ []

attempt_all-moves : attempt_all moves new_call ≡ record new_call {
  state = transfer;
  history = init ∷ identify ∷ screen ∷ greet ∷ lang_lock ∷ escalate ∷ transfer ∷ [];
  escalation_reason = some "asked_for_human";
}
unfolding attempt_all to
attempt_all-moves = refl

reachable_from_iff_example :
    (found : List CallState) × (reachable_from screen ≡ some found)
    × ((contains end found ≡ true) ↔ Reach screen end)
reachable_from_iff_example = reachable_from_iff screen end
