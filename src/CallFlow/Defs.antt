-- ===== src/CallFlow/Defs.antt =====
-- `CallFlow` and its methods, the reachability search, and the dispositions.
use uaagro_voice_agent.Prelude.{
  ℕ, zero, suc, ◌+◌, Bool, true, false, not, Option, none, some, List, [], ◌∷◌, ◌++◌, leb,
  if◌then◌else◌, any, contains, lookup, insert, erase, String, ◌==◌, ◌&&◌, str_eq,
}
use uaagro_voice_agent.CallFlow.States.{
  CallState, code, state_eq, terminal, transitions, Intent, intent_eq, init, reject, escalate,
  transfer, callback,
}

abbrev pub low_confidence_limit : ℕ
low_confidence_limit = 3

abbrev pub repeated_intent_limit : ℕ
repeated_intent_limit = 2

pub record CallFlow : Type 0 where
  pub state : CallState
  pub history : List CallState
  pub low_confidence_streak : ℕ
  pub intent_attempts : List (Intent × ℕ)
  pub commitment_spoken : Bool
  pub escalation_reason : Option String

abbrev pub new_call : CallFlow
new_call = record {
  state = init;
  history = init ∷ [];
  low_confidence_streak = 0;
  intent_attempts = [];
  commitment_spoken = false;
  escalation_reason = none;
}

unfoldable pub can : CallFlow → CallState → Bool
unfolding transitions
can f target = contains target (transitions f.state)

-- `to` returns, or raises `InvalidTransition`.
pub data Move : Type 0 where
  moved : CallFlow → Move
  invalid_transition : CallState → CallState → Move

-- `reason` is true unless it is None or the empty text.
given : Option String → Bool
given none = false
given (some r) = not (str_eq r "")

unfoldable pub to : CallState → Option String → CallFlow → Move
unfolding can given
to target reason f =
    if can f target
    then moved (record f {
      state = target;
      history = f.history ++ target ∷ [];
      escalation_reason =
          if given reason && (code target == code escalate) then reason else f.escalation_reason;
    })
    else invalid_transition f.state target

abbrev pub attempts_of : Intent → CallFlow → ℕ
attempts_of i f = elim (lookup i f.intent_attempts) [ none ↦ 0 | some n ↦ n ]

-- The part of `record_turn` after its first return.
unfoldable pub count_attempt : Intent → Bool → CallFlow → Option String × CallFlow
count_attempt intent resolved f =
    if resolved then (none, record f { intent_attempts = erase intent f.intent_attempts }) else (
      if leb repeated_intent_limit (attempts_of intent f + 1)
          then some "repeated_misunderstanding"
          else none,
      record f { intent_attempts = insert intent (attempts_of intent f + 1) f.intent_attempts },
    )

unfoldable pub record_turn : Intent → Bool → Bool → CallFlow → Option String × CallFlow
unfolding count_attempt
record_turn intent confident resolved f =
    let streak : ℕ = if confident then 0 else f.low_confidence_streak + 1 in
    let counted = record f { low_confidence_streak = streak } in
    if leb low_confidence_limit streak
    then (some "low_recognition_confidence", counted)
    else count_attempt intent resolved counted

-- In milliseconds: 6 s, 15 s and 25 s.
unfoldable pub silence_action : ℕ → Option String
silence_action silent_for =
    if leb 25_000 silent_for
    then some "close"
    else if leb 15_000 silent_for
    then some "warn"
    else if leb 6_000 silent_for
    then some "prompt"
    else none

-- `_reachable_from`: the frontier's end is the head of the list. `none` means out of fuel.
unfoldable pub unseen : List CallState → List CallState → List CallState
unseen seen [] = []
unseen seen (s ∷ rest) = if contains s seen then unseen seen rest else s ∷ unseen seen rest

unfoldable pub explore : ℕ → List CallState → List CallState → Option (List CallState)
unfolding unseen transitions
explore fuel seen [] = some seen
explore zero seen (s ∷ frontier) = none
explore (suc fuel) seen (s ∷ frontier) = elim (contains s seen) [
  | true ↦ explore fuel seen frontier
  | false ↦ explore fuel (s ∷ seen) (unseen (s ∷ seen) (transitions s) ++ frontier)
]

abbrev pub exploration_fuel : ℕ
exploration_fuel = 64

unfoldable pub reachable_from : CallState → Option (List CallState)
unfolding explore
reachable_from start = explore exploration_fuel [] (start ∷ [])

unfoldable pub reaches_terminal : CallState → Bool
unfolding reachable_from
reaches_terminal s = elim (reachable_from s) [
  | none ↦ false
  | some found ↦ any (λ t. contains t terminal) found
]

unfoldable pub stuck_states : List CallState → List CallState
unfolding reaches_terminal
stuck_states [] = []
stuck_states (s ∷ rest) = if reaches_terminal s then stuck_states rest else s ∷ stuck_states rest

unfoldable pub unreachable_terminals : CallState → Option (List CallState)
unfolding stuck_states reachable_from
unreachable_terminals start = elim (reachable_from start) [
  | none ↦ none
  | some found ↦ some (stuck_states found)
]

pub data CallOutcome : Type 0 where
  resolved transferred ticket_created abandoned_silence caller_hung_up opted_out offer_accepted
        offer_declined not_reached system_failure rejected_spam :
      CallOutcome

unfoldable pub outcome_for : CallState → Bool → CallOutcome
outcome_for transfer done = transferred
outcome_for callback done = ticket_created
outcome_for reject done = rejected_spam
outcome_for _ done = if done then resolved else caller_hung_up
