-- ===== src/Dialer/Lawful.antt =====
-- What holds of every dial of a run.
use uaagro_voice_agent.Prelude.{
  ℕ, ◌+◌, ◌≡◌, refl, sym, ap, ◌∙◌, true, Option, none, some, List, [], ◌∷◌, arith, length, lookup,
  nat_eq, Option-cases, inl, inr, if◌then◌else◌,
}
use uaagro_voice_agent.Compliance.{Check, Contact, CampaignSettings, within_calling_window}
use uaagro_voice_agent.Compliance.Contacts.{MayDial, first_failure_iff}
use uaagro_voice_agent.Dialer.Defs.{
  DialerState, Tick, state_at, stop_reason, Dialled, DialOutcome, dial_outcome, visit, visit_later,
  run, count_dialled, count_skipped, count_failed, is_some,
}
use uaagro_voice_agent.Dialer.Campaign.{Row, Rows, recheck, dial}
use uaagro_voice_agent.Dialer.Stops.{run_go, run_stop}

-- The contacts that have an outcome were reached while the window was open.
abbrev pub AllInWindow : (ℕ → ℕ) → List DialOutcome → List (Contact × Tick) → Type 0
AllInWindow ist [] ticks = Unit
AllInWindow ist (o ∷ os) [] = ⊥
AllInWindow ist (o ∷ os) ((c, t) ∷ rest) =
    (within_calling_window ist t.now ≡ true) × AllInWindow ist os rest

open_window :
    (ist : ℕ → ℕ) (now : ℕ) (s : DialerState)
    → stop_reason ist now s ≡ none
    → within_calling_window ist now ≡ true
unfolding stop_reason
open_window ist now s h = ground arith

module _ {W : Type 0} (ist : ℕ → ℕ) (recheck' : Contact → ℕ → W → Option Check)
    (dial' : Contact → Tick → W → Dialled × W) where
  -- In a run whose dials do not overlap, no contact is reached outside the calling window,
  -- however long the run lasts: the window is checked at the moment of each dial.
  run-AllInWindow :
      (ticks : List (Contact × Tick)) (s : DialerState) (w : W)
      → AllInWindow ist (run ist recheck' dial' ticks s w).outcomes ticks
  unfolding run
  run-AllInWindow [] s w = tt
  run-AllInWindow ((c, t) ∷ rest) s w = elim (Option-cases (stop_reason ist t.now (state_at t s))) [
    | inl go ↦ rw (run_go ist recheck' dial' c t rest s w go) (
      open_window ist t.now (state_at t s) go,
      run-AllInWindow rest (state_at t s) (visit ist recheck' dial' c t w).1,
    )
    | inr (reason, stop) ↦ rw (run_stop ist recheck' dial' c t rest s w stop) tt
  ]

  visit_counts :
      (c : Contact) (t : Tick) (w : W)
      → let o = (visit ist recheck' dial' c t w).0 in
        (if o.dialled then 1 else 0)
          + (if is_some o.skipped_by then 1 else 0)
          + (if is_some o.error then 1 else 0)
        ≡ 1
  unfolding visit is_some
  visit_counts c t w = ground arith

  -- The three counts of the report add up: each contact that a run reaches was dialled, skipped by
  -- a check or failed to dial, and no two of these.
  pub run_counts :
      (ticks : List (Contact × Tick)) (s : DialerState) (w : W)
      → let os = (run ist recheck' dial' ticks s w).outcomes in
        count_dialled os + count_skipped os + count_failed os ≡ length os
  unfolding run count_dialled count_skipped count_failed
  run_counts [] s w = refl
  run_counts ((c, t) ∷ rest) s w = elim (Option-cases (stop_reason ist t.now (state_at t s))) [
    | inl go ↦ rw (run_go ist recheck' dial' c t rest s w go) (
        omega (
          arith,
          visit_counts c t w,
          run_counts rest (state_at t s) (visit ist recheck' dial' c t w).1,
        ))
    | inr (reason, stop) ↦ rw (run_stop ist recheck' dial' c t rest s w stop) refl
  ]

pub recheck-MayDial :
    (campaign : CampaignSettings) (c : Contact) (now : ℕ) (rows : Rows)
    → recheck campaign c now rows ≡ none
    → (row : Row) × (lookup c.farmer_id rows ≡ some row) × MayDial row.contact campaign now
unfolding recheck
recheck-MayDial campaign c now rows h = elim (Option-cases (lookup c.farmer_id rows)) [
  | inl gone ↦ absurd (ground arith)
  | inr (row, e) ↦ (row, e, (first_failure_iff row.contact campaign now).0 (ground arith))
]

dial-listed :
    (c : Contact) (t : Tick) (rows : Rows)
    → (dial_outcome c.farmer_id (dial c t rows).0).dialled ≡ true
    → (row : Row) × (lookup c.farmer_id rows ≡ some row)
unfolding dial dial_outcome
dial-listed c t rows h = elim (Option-cases (lookup c.farmer_id rows)) [
  | inl gone ↦ absurd (ground arith)
  | inr listed ↦ listed
]

visit_later-clear :
    (ist : ℕ → ℕ) (campaign : CampaignSettings) (c : Contact) (t later : Tick) (rows rows' : Rows)
    → recheck campaign c t.now rows ≡ none
    → visit_later ist (recheck campaign) dial c t rows later rows'
      ≡ (dial_outcome c.farmer_id (dial c later rows').0, (dial c later rows').1)
unfolding visit_later
visit_later-clear ist campaign c t later rows rows' clear = rw (clear, visit_later) refl

-- What holds of a contact that is reported as dialled, however long its task waited for the
-- semaphore between the recheck and the dial and whatever was written meanwhile: when it was
-- rechecked it had a row, as other calls had left it by then, that met every rule of the gate about
-- a single contact; and when it was dialled it had a row still. The rules are not checked again
-- at the dial.
pub visit_later-MayDial :
    (ist : ℕ → ℕ) (campaign : CampaignSettings) (c : Contact) (t later : Tick) (rows rows' : Rows)
    → (visit_later ist (recheck campaign) dial c t rows later rows').0.dialled ≡ true
    → ((row : Row) × (lookup c.farmer_id rows ≡ some row) × MayDial row.contact campaign t.now)
      × ((row : Row) × (lookup c.farmer_id rows' ≡ some row))
unfolding visit_later
visit_later-MayDial ist campaign c t later rows rows' h =
    elim (Option-cases (recheck campaign c t.now rows)) [
      | inl clear ↦ (
        recheck-MayDial campaign c t.now rows clear,
        dial-listed c later rows' (
            sym (
              ap (λ (o : DialOutcome × Rows). o.0.dialled)
                (visit_later-clear ist campaign c t later rows rows' clear))
            ∙ h),
      )
      | inr (failure, e) ↦ absurd (ground arith)
    ]
