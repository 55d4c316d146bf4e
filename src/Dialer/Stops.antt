-- ===== src/Dialer/Stops.antt =====
-- When a run stops, and what it has done by then.
use uaagro_voice_agent.Prelude.{
  ◌↔◌, ℕ, suc, ◌≤◌, ◌≡◌, ◌⊎◌, inl, inr, refl, ap, ap₂, Option, none, some, List, [], ◌∷◌, ◌++◌,
  arith, length, take, Option-cases, Bool-cases, String,
}
use uaagro_voice_agent.Compliance.{Check, Contact}
use uaagro_voice_agent.Dialer.Defs.{
  DialerState, command_all, heard, apply_control, Tick, state_at, stop_reason, Dialled, DialOutcome,
  visit, run,
}

abbrev pub ids_of : List (Contact × Tick) → List ℕ
ids_of [] = []
ids_of ((c, _) ∷ rest) = c.farmer_id ∷ ids_of rest

abbrev pub outcome_ids : List DialOutcome → List ℕ
outcome_ids [] = []
outcome_ids (o ∷ rest) = o.contact_id ∷ outcome_ids rest

module _ {W : Type 0} (ist : ℕ → ℕ) (recheck : Contact → ℕ → W → Option Check)
    (dial : Contact → Tick → W → Dialled × W) where
  halted :
      (t : Tick) (s : DialerState)
      → (t.signal ≡ heard (some "paused")) ⊎ (t.signal ≡ heard (some "cancelled"))
      → (reason : String) × (stop_reason ist t.now (state_at t s) ≡ some reason)
  unfolding state_at stop_reason
  halted t s h =
      let told = command_all t.commands s in
      elim (Bool-cases (apply_control t.signal told).cancelled) [
        | inl c ↦ ("cancelled", ground arith)
        | inr c ↦ ("paused", ground arith)
      ]

  visit_id :
      (c : Contact) (t : Tick) (w : W) → (visit ist recheck dial c t w).0.contact_id ≡ c.farmer_id
  unfolding visit
  visit_id c t w = ground arith

  pub run_go :
      (c : Contact) (t : Tick) (rest : List (Contact × Tick)) (s : DialerState) (w : W)
      → stop_reason ist t.now (state_at t s) ≡ none
      → let (o, w') = visit ist recheck dial c t w in
        let later = run ist recheck dial rest (state_at t s) w' in
        run ist recheck dial ((c, t) ∷ rest) s w ≡ record later { outcomes = o ∷ later.outcomes }
  unfolding run
  run_go c t rest s w go = rw (go, run)

  pub run_stop :
      (c : Contact) (t : Tick) (rest : List (Contact × Tick)) (s : DialerState) (w : W)
      {reason : String}
      → stop_reason ist t.now (state_at t s) ≡ some reason
      → run ist recheck dial ((c, t) ∷ rest) s w
        ≡ record { outcomes = []; stopped_reason = some reason; world = w }
  unfolding run
  run_stop c t rest s w stop = rw (stop, run)

  -- A run whose dials do not overlap goes through the contacts in their order, with exactly one
  -- outcome for each that it reaches; it reaches them all exactly when it has no reason to stop.
  run_order :
      (ticks : List (Contact × Tick)) (s : DialerState) (w : W)
      → let r = run ist recheck dial ticks s w in
        (outcome_ids r.outcomes ≡ take (length r.outcomes) (ids_of ticks))
        × ((r.stopped_reason ≡ none) ↔ (length r.outcomes ≡ length ticks))
  unfolding run
  run_order [] s w = (refl, (λ h. refl, λ h. refl))
  run_order ((c, t) ∷ rest) s w = elim (Option-cases (stop_reason ist t.now (state_at t s))) [
    | inl go ↦
        let (ids, (all, back)) = run_order rest (state_at t s) (visit ist recheck dial c t w).1 in
        rw (run_go c t rest s w go)
          (ap₂ ◌∷◌ (visit_id c t w) ids, (λ h. ap suc (all h), λ h. back (omega arith)))
    | inr (reason, stop) ↦
        rw (run_stop c t rest s w stop) (refl, (λ h. absurd (cc), λ h. absurd (omega arith)))
  ]

  -- In a run whose dials do not overlap, an instruction from the panel to pause or to stop takes
  -- effect before the next dial: none of the contacts from that one on gets an outcome, whatever
  -- was commanded before.
  run_halted :
      (before after : List (Contact × Tick)) (c : Contact) (t : Tick) (s : DialerState) (w : W)
      → (t.signal ≡ heard (some "paused")) ⊎ (t.signal ≡ heard (some "cancelled"))
      → length (run ist recheck dial (before ++ (c, t) ∷ after) s w).outcomes ≤ length before
  run_halted [] after c t s w h =
      let (reason, stop) = halted t s h in rw (run_stop c t after s w stop) (omega arith)
  run_halted ((d, u) ∷ before) after c t s w h =
      elim (Option-cases (stop_reason ist u.now (state_at u s))) [
        | inl go ↦ rw (run_go d u (before ++ (c, t) ∷ after) s w go) (
            omega (
              arith,
              run_halted before after c t (state_at u s) (visit ist recheck dial d u w).1 h,
            ))
        | inr (reason, stop) ↦ rw (run_stop d u (before ++ (c, t) ∷ after) s w stop) (omega arith)
      ]
