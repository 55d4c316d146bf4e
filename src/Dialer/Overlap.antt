-- ===== src/Dialer/Overlap.antt =====
-- `Dialer.run` with its tasks: a contact that passes the checks becomes a task, which waits for the
-- semaphore, dials and appends its outcome when the provider answers, while the loop goes on. The
-- event loop may take the events in any order; an event that cannot happen gives none.
use uaagro_voice_agent.Prelude.{
  ℕ, Option, none, some, List, [], ◌∷◌, ◌++◌, String, length, ltb, if◌then◌else◌, take, drop,
}
use uaagro_voice_agent.Compliance.{Check, Contact}
use uaagro_voice_agent.Dialer.Defs.{
  DialerState, Command, command, Signal, apply_control, stop_reason, skipped_outcome, Dialled,
  dial_outcome, DialOutcome,
}

-- `active` are the tasks that hold the semaphore, `queued` those that wait for it, in their order.
pub record Pool : Type 0 where
  pub control : DialerState
  pub todo : List Contact
  pub stopped : Option String
  pub queued : List ℕ
  pub active : List ℕ
  pub outcomes : List DialOutcome

pub data Event : Type 0 where
  commanded : Command → Event
  next_contact : Signal → ℕ → Event
  acquire : Event
  answered : ℕ → Dialled → Event

unfoldable pub judged : Option Check → ℕ → Pool → Pool
unfolding skipped_outcome
judged none id p = record p { queued = p.queued ++ id ∷ [] }
judged (some failure) id p = record p { outcomes = p.outcomes ++ skipped_outcome id failure ∷ [] }

unfoldable pub guarded : Option String → Option Check → Contact → List Contact → Pool → Pool
unfolding judged
guarded (some reason) failure c rest p = record p { stopped = some reason }
guarded none failure c rest p = judged failure c.farmer_id (record p { todo = rest })

unfoldable pub acquired : ℕ → List ℕ → Pool → Option Pool
acquired limit [] p = none
acquired limit (id ∷ rest) p =
    if ltb (length p.active) limit
    then some (record p { queued = rest; active = id ∷ p.active })
    else none

-- The task at a place among the active ones gets its answer.
unfoldable pub finished : List ℕ → List ℕ → Dialled → Pool → Option Pool
unfolding dial_outcome
finished before [] d p = none
finished before (id ∷ after) d p =
    some (record p { active = before ++ after; outcomes = p.outcomes ++ dial_outcome id d ∷ [] })

module _ (ist : ℕ → ℕ) (recheck : Contact → ℕ → Option Check) (limit : ℕ) where
  unfoldable pub loop : Option String → List Contact → Signal → ℕ → Pool → Option Pool
  unfolding guarded
  loop (some reason) todo signal now p = none
  loop none [] signal now p = none
  loop none (c ∷ rest) signal now p =
      let heard : DialerState = apply_control signal p.control in
      some
        (guarded (stop_reason ist now heard) (recheck c now) c rest (record p { control = heard }))

  unfoldable pub step : Event → Pool → Option Pool
  unfolding loop acquired finished
  step (commanded c) p = some (record p { control = command c p.control })
  step (next_contact signal now) p = loop p.stopped p.todo signal now p
  step acquire p = acquired limit p.queued p
  step (answered k d) p = finished (take k p.active) (drop k p.active) d p

  unfoldable pub steps : List Event → Pool → Option Pool
  unfolding step
  steps [] p = some p
  steps (e ∷ rest) p = elim (step e p) [ none ↦ none | some p' ↦ steps rest p' ]
