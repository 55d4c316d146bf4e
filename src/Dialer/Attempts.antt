-- ===== src/Dialer/Attempts.antt =====
-- The attempts that a campaign run records.
use uaagro_voice_agent.Prelude.{
  ℕ, ◌+◌, ◌≤◌, ◌≡◌, refl, ap, Bool, Option, none, some, List, [], ◌∷◌, arith, lookup, lookup-insert,
  nat_eq, String, Option-cases, inl, inr, if◌then◌else◌, ◌==◌, length,
}
use uaagro_voice_agent.Compliance.{Check, Contact, CampaignSettings, evaluate}
use uaagro_voice_agent.Dialer.Lawful.{recheck-MayDial, run_counts}
use uaagro_voice_agent.Dialer.Defs.{
  DialerState, Tick, state_at, stop_reason, Dialled, placed, failed, visit, run, is_some,
  CampaignRun, count_dialled, count_skipped, count_failed,
}
use uaagro_voice_agent.Dialer.Campaign.{
  Row, Rows, recheck, dial, record_attempt, attempted, after_originate, contact_failed,
  run_campaign, ran, paused, completed, CampaignRunReport, contacts_of, gated, launched, report_of,
  final_status,
}
use uaagro_voice_agent.Dialer.Stops.{run_go, run_stop}

abbrev pub attempts_of_row : Option Row → ℕ
attempts_of_row none = 0
attempts_of_row (some row) = row.contact.attempts_this_campaign

abbrev pub attempts_at : ℕ → Rows → ℕ
attempts_at id rows = attempts_of_row (lookup id rows)

after_originate_attempts :
    (k : ℕ) (d : Dialled) (rows : Rows) (id : ℕ)
    → attempts_at id (after_originate k d rows).1 ≡ attempts_at id rows
unfolding after_originate
after_originate_attempts k (placed sid) rows id = refl
after_originate_attempts k (failed name) rows id = elim (Option-cases (lookup k rows)) [
  | inl gone ↦ ground arith
  | inr (row, e) ↦ ground (
    arith,
    e,
    lookup-insert k id (record row { status = contact_failed; outcome = some "failed" }) rows,
  )
]

-- The dial of a contact that has a row records one attempt on it, also where the provider refuses
-- the call, and changes the attempts of nobody else.
dial_attempts :
    (c : Contact) (t : Tick) (rows : Rows) (row : Row) (id : ℕ)
    → lookup c.farmer_id rows ≡ some row
    → attempts_at id (dial c t rows).1
      ≡ (if c.farmer_id == id then row.contact.attempts_this_campaign + 1 else attempts_at id rows)
unfolding dial
dial_attempts c t rows row id e =
    let k = c.farmer_id in
    ground (
      arith,
      e,
      after_originate_attempts k t.originate (record_attempt t.now k row rows) id,
      lookup-insert k id (attempted t.now row) rows,
    )

-- No contact of the campaign has had more than three attempts.
abbrev pub IsCapped : Rows → Type 0
IsCapped rows = (id : ℕ) → attempts_at id rows ≤ 3

visit-IsCapped :
    (ist : ℕ → ℕ) (campaign : CampaignSettings) (c : Contact) (t : Tick) (rows : Rows)
    → IsCapped rows
    → IsCapped (visit ist (recheck campaign) dial c t rows).1
unfolding visit
visit-IsCapped ist campaign c t rows h id = elim (Option-cases (recheck campaign c t.now rows)) [
  | inl clear ↦
      let (row, e, may) = recheck-MayDial campaign c t.now rows clear in
      ground (arith, clear, may.attempts_left, dial_attempts c t rows row id e, h id)
  | inr (failure, e) ↦ ground (arith, e, h id)
]

-- Where no contact has had more than three attempts, none has after a run whose dials do not
-- overlap, however long the run lasts and however often a contact stands on its list.
pub run-IsCapped :
    (ist : ℕ → ℕ) (campaign : CampaignSettings) (ticks : List (Contact × Tick)) (s : DialerState)
    (rows : Rows)
    → IsCapped rows
    → IsCapped (run ist (recheck campaign) dial ticks s rows).world
unfolding run
run-IsCapped ist campaign [] s rows h = h
run-IsCapped ist campaign ((c, t) ∷ rest) s rows h =
    elim (Option-cases (stop_reason ist t.now (state_at t s))) [
      | inl go ↦ rw (run_go ist (recheck campaign) dial c t rest s rows go) (
          run-IsCapped ist campaign rest (state_at t s)
            (visit ist (recheck campaign) dial c t rows).1 (visit-IsCapped ist campaign c t rows h))
      | inr (reason, stop) ↦ rw (run_stop ist (recheck campaign) dial c t rest s rows stop) h
    ]

final_status_lem :
    (reason : Option String) → final_status reason ≡ (if is_some reason then paused else completed)
unfolding final_status is_some
final_status_lem none = refl
final_status_lem (some reason) = refl

gated-launched :
    (checks : List Check) (rows : Rows) (r : CampaignRun Rows)
    → checks ≡ []
    → count_dialled r.outcomes + count_skipped r.outcomes + count_failed r.outcomes
      ≡ length r.outcomes
    → (report : CampaignRunReport) × (gated checks rows (launched r)
        ≡ ran report (if is_some r.stopped_reason then paused else completed) r)
      × (report.dialled_count + report.skipped_count + report.failed_count ≡ length r.outcomes)
unfolding gated launched report_of
gated-launched [] rows r h counts = (
  report_of r,
  ap (λ status. ran (report_of r) status r) (final_status_lem r.stopped_reason),
  counts,
)
gated-launched (check ∷ rest) rows r h counts = absurd (cc)

-- A campaign that no check blocks is marked complete exactly when nothing stopped it, and paused
-- otherwise; the counts of its report add up to the contacts that it reached.
run_campaign_status :
    (is_digit : ℕ → Bool) (ist : ℕ → ℕ) (campaign : CampaignSettings) (now : ℕ)
    (ticks : List (Contact × Tick)) (s : DialerState) (rows : Rows)
    → (evaluate is_digit ist (contacts_of ticks) campaign now).blocked_by ≡ []
    → let r = run ist (recheck campaign) dial ticks s rows in
      (report : CampaignRunReport) × (run_campaign is_digit ist campaign now ticks s rows
        ≡ ran report (if is_some r.stopped_reason then paused else completed) r)
      × (report.dialled_count + report.skipped_count + report.failed_count ≡ length r.outcomes)
unfolding run_campaign
run_campaign_status is_digit ist campaign now ticks s rows h =
    gated-launched (evaluate is_digit ist (contacts_of ticks) campaign now).blocked_by rows
      (run ist (recheck campaign) dial ticks s rows) h
      (run_counts ist (recheck campaign) dial ticks s rows)
