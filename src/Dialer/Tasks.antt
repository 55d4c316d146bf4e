-- ===== src/Dialer/Tasks.antt =====
-- What holds of the tasks of a run in any order of events.
use uaagro_voice_agent.Prelude.{
  ℕ, ◌+◌, ◌≤◌, ◌≡◌, ◌∙◌, sym, ap, refl, Option, none, some, List, [], ◌∷◌, ◌++◌, String, length,
  length-append, ltb, if◌then◌else◌, ◌==◌, arith, Bool-cases, Option-cases, inl, inr, take, drop,
  take-append-drop,
}
use mathlib.Core.Path.{subst}
use uaagro_voice_agent.Compliance.{Check, Contact}
use uaagro_voice_agent.Dialer.Defs.{
  Signal, apply_control, stop_reason, skipped_outcome, Dialled, placed, failed, dial_outcome,
  DialOutcome,
}
use uaagro_voice_agent.Dialer.Stops.{outcome_ids}
use uaagro_voice_agent.Dialer.Overlap.{
  Pool, Event, commanded, next_contact, acquire, answered, judged, guarded, acquired, finished,
  loop, step, steps,
}

abbrev pub count : ℕ → List ℕ → ℕ
count id [] = 0
count id (x ∷ xs) = (if x == id then 1 else 0) + count id xs

abbrev pub contact_ids : List Contact → List ℕ
contact_ids [] = []
contact_ids (c ∷ rest) = c.farmer_id ∷ contact_ids rest

-- How often a contact stands in the pool: still to come, waiting, being dialled or done.
abbrev pub in_pool : ℕ → Pool → ℕ
in_pool id p =
    count id (contact_ids p.todo)
    + count id p.queued
    + count id p.active
    + count id (outcome_ids p.outcomes)

count-append : (id : ℕ) (xs ys : List ℕ) → count id (xs ++ ys) ≡ count id xs + count id ys
count-append id [] ys = omega arith
count-append id (x ∷ xs) ys = omega (arith, count-append id xs ys)

outcome_ids-append :
    (xs : List DialOutcome) (o : DialOutcome)
    → outcome_ids (xs ++ o ∷ []) ≡ outcome_ids xs ++ o.contact_id ∷ []
outcome_ids-append [] o = refl
outcome_ids-append (x ∷ xs) o = ap (◌∷◌ x.contact_id) (outcome_ids-append xs o)

count_outcome :
    (id : ℕ) (xs : List DialOutcome) (o : DialOutcome)
    → count id (outcome_ids (xs ++ o ∷ []))
      ≡ count id (outcome_ids xs) + (if o.contact_id == id then 1 else 0)
count_outcome id xs o =
    rw (outcome_ids-append xs o)
      (omega (arith, count-append id (outcome_ids xs) (o.contact_id ∷ [])))

dial_outcome_id : (id : ℕ) (d : Dialled) → (dial_outcome id d).contact_id ≡ id
unfolding dial_outcome
dial_outcome_id id (placed sid) = refl
dial_outcome_id id (failed name) = refl

-- The two facts that every event keeps: the places of each contact, and the semaphore's bound.
abbrev Keeps : ℕ → Pool → Option Pool → Type 0
Keeps limit p none = Unit
Keeps limit p (some p') = ((id : ℕ) → in_pool id p' ≡ in_pool id p) × (length p'.active ≤ limit)

Keeps-trans :
    (limit : ℕ) (p q : Pool) (o : Option Pool)
    → ((id : ℕ) → in_pool id q ≡ in_pool id p)
    → Keeps limit q o
    → Keeps limit p o
Keeps-trans limit p q none same k = tt
Keeps-trans limit p q (some r) same (k, bound) = (λ id. k id ∙ same id, bound)

acquired-Keeps :
    (limit : ℕ) (queued : List ℕ) (p : Pool)
    → p.queued ≡ queued
    → length p.active ≤ limit
    → Keeps limit p (acquired limit queued p)
unfolding acquired
acquired-Keeps limit [] p e le = tt
acquired-Keeps limit (id ∷ rest) p e le = elim (Bool-cases (ltb (length p.active) limit)) [
  | inl lt ↦ rw (lt, acquired) (λ k. omega (arith, ap (count k) e), ground arith)
  | inr full ↦ rw (full, acquired) tt
]

finished-Keeps :
    (limit : ℕ) (before after : List ℕ) (d : Dialled) (p : Pool)
    → p.active ≡ before ++ after
    → length p.active ≤ limit
    → Keeps limit p (finished before after d p)
unfolding finished
finished-Keeps limit before [] d p e le = tt
finished-Keeps limit before (id ∷ after) d p e le = (
  λ k. ground (
    arith,
    ap (count k) e,
    count-append k before (id ∷ after),
    count-append k before after,
    count_outcome k p.outcomes (dial_outcome id d),
    dial_outcome_id id d,
  ),
  omega (arith, ap length e, length-append before (id ∷ after), length-append before after),
)

judged-Keeps :
    (limit id : ℕ) (failure : Option Check) (p : Pool)
    → length p.active ≤ limit
    → ((k : ℕ) → in_pool k (judged failure id p) ≡ in_pool k p + (if id == k then 1 else 0))
      × (length (judged failure id p).active ≤ limit)
unfolding judged
judged-Keeps limit id none p le = (λ k. omega (arith, count-append k p.queued (id ∷ [])), le)
judged-Keeps limit id (some failure) p le =
    (λ k. omega (arith, count_outcome k p.outcomes (skipped_outcome id failure)), le)

guarded-Keeps :
    (limit : ℕ) (stop : Option String) (failure : Option Check) (c : Contact) (rest : List Contact)
    (p : Pool)
    → p.todo ≡ c ∷ rest
    → length p.active ≤ limit
    → Keeps limit p (some (guarded stop failure c rest p))
unfolding guarded
guarded-Keeps limit (some reason) failure c rest p e le = (λ k. refl, le)
guarded-Keeps limit none failure c rest p e le =
    let (same, bound) = judged-Keeps limit c.farmer_id failure (record p { todo = rest }) le in
    (λ k. omega (arith, same k, ap (λ l. count k (contact_ids l)) e), bound)

module _ (ist : ℕ → ℕ) (recheck : Contact → ℕ → Option Check) (limit : ℕ) where
  loop-Keeps :
      (stopped : Option String) (todo : List Contact) (signal : Signal) (now : ℕ) (p : Pool)
      → p.todo ≡ todo
      → length p.active ≤ limit
      → Keeps limit p (loop ist recheck limit stopped todo signal now p)
  unfolding loop
  loop-Keeps (some reason) todo signal now p e le = tt
  loop-Keeps none [] signal now p e le = tt
  loop-Keeps none (c ∷ rest) signal now p e le =
      let heard = apply_control signal p.control in
      guarded-Keeps limit (stop_reason ist now heard) (recheck c now) c rest
        (record p { control = heard }) e le

  step-Keeps :
      (e : Event) (p : Pool) → length p.active ≤ limit → Keeps limit p (step ist recheck limit e p)
  unfolding step
  step-Keeps (commanded c) p le = (λ k. refl, le)
  step-Keeps (next_contact signal now) p le = loop-Keeps p.stopped p.todo signal now p refl le
  step-Keeps acquire p le = acquired-Keeps limit p.queued p refl le
  step-Keeps (answered k d) p le =
      finished-Keeps limit (take k p.active) (drop k p.active) d p
        (sym (take-append-drop k p.active)) le

  steps-Keeps :
      (events : List Event) (p : Pool)
      → length p.active ≤ limit
      → Keeps limit p (steps ist recheck limit events p)
  unfolding steps
  steps-Keeps [] p le = (λ k. refl, le)
  steps-Keeps (e ∷ rest) p le = elim (Option-cases (step ist recheck limit e p)) [
    | inl stuck ↦ rw (stuck, steps) tt
    | inr (p1, went) ↦
        let (same, bound) = subst (Keeps limit p) went (step-Keeps e p le) in
        rw (went, steps)
          (Keeps-trans limit p p1 (steps ist recheck limit rest p1) same
            (steps-Keeps rest p1 bound))
  ]

  -- Whatever the order in which dials overlap, answers come in and commands are given: each
  -- contact stands as often among those to come, waiting, being dialled and done as at the start,
  -- so none is lost and none is dialled more often than it is listed; and no more dials than the
  -- limit are under way, if there were no more at the start.
  pub steps_kept :
      (events : List Event) (p p' : Pool)
      → length p.active ≤ limit
      → steps ist recheck limit events p ≡ some p'
      → ((id : ℕ) → in_pool id p' ≡ in_pool id p) × (length p'.active ≤ limit)
  steps_kept events p p' le h = subst (Keeps limit p) h (steps-Keeps events p le)
