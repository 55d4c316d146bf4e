-- ===== src/CallFlow/Counters.antt =====
-- The counters that a call is escalated on, and the silence ladder.
use uaagro_voice_agent.Prelude.{
  ℕ, ◌+◌, ◌≤◌, ◌≡◌, refl, ◌∙◌, Bool, true, false, Option, none, some, List, [], ◌∷◌, arith, String,
  leb, lookup-insert, lookup-erase, if◌then◌else◌, All,
}
use uaagro_voice_agent.CallFlow.States.{Intent, intent_eq}
use uaagro_voice_agent.CallFlow.Defs.{
  CallFlow, attempts_of, record_turn, repeated_intent_limit, silence_action,
}

record_turn_unsure :
    (k : Intent) (c : Bool) (f : CallFlow)
    → ((record_turn k false c f).1.low_confidence_streak ≡ f.low_confidence_streak + 1)
      × (2 ≤ f.low_confidence_streak
          → (record_turn k false c f).0 ≡ some "low_recognition_confidence")
unfolding record_turn
record_turn_unsure k c f = (ground arith, λ h. ground arith)

-- Three turns in a row below the confidence floor trip the low-confidence reason, whatever was
-- counted before, whatever the intents and whether they were resolved.
record_turn-three_unsure :
    (i j k : Intent) (a b c : Bool) (f : CallFlow)
    → (record_turn k false c (record_turn j false b (record_turn i false a f).1).1).0
      ≡ some "low_recognition_confidence"
record_turn-three_unsure i j k a b c f =
    let g = (record_turn i false a f).1 in
    let h = (record_turn j false b g).1 in
    (record_turn_unsure k c h).1
      (omega (arith, (record_turn_unsure i a f).0, (record_turn_unsure j b g).0))

-- A confident turn starts the count of unsure turns again, and counts the intent: a resolved one
-- is forgotten, an unresolved one has one attempt more, and every other intent keeps its count.
-- The repeated-misunderstanding reason comes back exactly when an unresolved turn brings its
-- intent to the limit.
record_turn_confident :
    (i j : Intent) (done : Bool) (f : CallFlow)
    → let (reason, f') = record_turn i true done f in
      (f'.low_confidence_streak ≡ 0)
      × (attempts_of j f' ≡ (
          if intent_eq.beq i j then if done then 0 else attempts_of i f + 1 else attempts_of j f))
      × (reason ≡ (
          if done
          then none
          else if leb repeated_intent_limit (attempts_of i f + 1)
          then some "repeated_misunderstanding"
          else none))
unfolding record_turn
record_turn_confident i j done f =
    let counts = f.intent_attempts in
    (
      ground arith,
      ground (arith, lookup-insert i j (attempts_of i f + 1) counts, lookup-erase i j counts),
      ground arith,
    )

-- The ladder as a number of rungs.
abbrev rung : Option String → ℕ
rung none = 0
rung (some s) =
    if uaagro_voice_agent.Prelude.str_eq s "prompt"
    then 1
    else if uaagro_voice_agent.Prelude.str_eq s "warn"
    then 2
    else 3

-- A longer silence is never answered by a lower rung of the ladder.
silence_action_mono : (a b : ℕ) → a ≤ b → rung (silence_action a) ≤ rung (silence_action b)
unfolding silence_action
silence_action_mono a b h = ground arith

-- Turns of other intents, all above the confidence floor.
abbrev pub IsAside : Intent → Intent × Bool → Type 0
IsAside i (j, _) = intent_eq.beq j i ≡ false

abbrev pub record_aside : List (Intent × Bool) → CallFlow → CallFlow
record_aside [] f = f
record_aside ((j, done) ∷ rest) f = record_aside rest (record_turn j true done f).1

attempts_of-record_aside :
    (i : Intent) (asides : List (Intent × Bool)) (f : CallFlow)
    → All (IsAside i) asides
    → attempts_of i (record_aside asides f) ≡ attempts_of i f
attempts_of-record_aside i [] f h = refl
attempts_of-record_aside i ((j, done) ∷ rest) f h =
    let f' = (record_turn j true done f).1 in
    attempts_of-record_aside i rest f' h.1 ∙ ((record_turn_confident j i done f).1 ∙ rw h.0)

-- Two unresolved attempts at one intent trip the repeated-misunderstanding reason, however many
-- turns about other things come between them.
record_turn-repeated :
    (i : Intent) (asides : List (Intent × Bool)) (f : CallFlow)
    → All (IsAside i) asides
    → (record_turn i true false (record_aside asides (record_turn i true false f).1)).0
      ≡ some "repeated_misunderstanding"
record_turn-repeated i asides f h =
    let f' = (record_turn i true false f).1 in
    let g = record_aside asides f' in
    ground (
      arith,
      (record_turn_confident i i false f).1,
      attempts_of-record_aside i asides f' h,
      (record_turn_confident i i false g).2,
      intent_eq.beq_iff i i,
    )
