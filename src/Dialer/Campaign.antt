-- ===== src/Dialer/Campaign.antt =====
-- `run_campaign` over the campaign's rows. The rows are the database's, one for each contact of
-- the campaign; `load_contacts` (packages/db/src/uaagro_db/campaigns.py) reads the gate's input
-- from them. Decryption, the audit row and the live feed are left out.
use uaagro_voice_agent.Prelude.{
  ℕ, ◌+◌, Bool, Option, none, some, List, [], ◌∷◌, String, lookup, insert, nat_eq, min, max,
  if◌then◌else◌, ◌==◌,
}
use uaagro_voice_agent.Compliance.{
  Check, internal_dnc, Contact, CampaignSettings, first_failure, evaluate,
}
use uaagro_voice_agent.Dialer.Defs.{
  Dialled, placed, failed, Tick, DialerState, CampaignRun, run, count_dialled, count_skipped,
  count_failed,
}

pub data ContactStatus : Type 0 where
  pending dialing contact_failed : ContactStatus

-- A row of `campaign_contacts`, with what the other tables say of its farmer.
pub record Row : Type 0 where
  pub contact : Contact
  pub status : ContactStatus
  pub outcome : Option String

abbrev pub Rows : Type 0
Rows = List (ℕ × Row)

unfoldable pub reload_contact : ℕ → Rows → Option Contact
reload_contact id rows = elim (lookup id rows) [ none ↦ none | some row ↦ some row.contact ]

-- A contact that has vanished counts as opted out.
unfoldable pub recheck_loaded : Option Contact → CampaignSettings → ℕ → Option Check
recheck_loaded none campaign now = some internal_dnc
recheck_loaded (some c) campaign now = first_failure c campaign now

unfoldable pub recheck : CampaignSettings → Contact → ℕ → Rows → Option Check
unfolding reload_contact recheck_loaded
recheck campaign c now rows = recheck_loaded (reload_contact c.farmer_id rows) campaign now

unfoldable pub attempted : ℕ → Row → Row
attempted now row = record row {
  contact = record (row.contact) {
    attempts_this_campaign = row.contact.attempts_this_campaign + 1;
    last_attempt_at = some now;
  };
  status = dialing;
  outcome = none;
}

unfoldable pub record_attempt : ℕ → ℕ → Row → Rows → Rows
unfolding attempted
record_attempt now id row rows = insert id (attempted now row) rows

unfoldable pub attempt_failed : ℕ → Rows → Rows
attempt_failed id rows = elim (lookup id rows) [
  | none ↦ rows
  | some row ↦ insert id (record row { status = contact_failed; outcome = some "failed" }) rows
]

unfoldable pub after_originate : ℕ → Dialled → Rows → Dialled × Rows
unfolding attempt_failed
after_originate id (placed sid) rows = (placed sid, rows)
after_originate id (failed name) rows = (failed name, attempt_failed id rows)

-- The attempt is recorded before the provider is asked; a farmer off the list is never dialled.
unfoldable pub dial : Contact → Tick → Rows → Dialled × Rows
unfolding record_attempt after_originate
dial c t rows = elim (lookup c.farmer_id rows) [
  | none ↦ (failed "PermissionError", rows)
  | some row ↦ after_originate c.farmer_id t.originate (record_attempt t.now c.farmer_id row rows)
]

pub data CampaignStatus : Type 0 where
  running paused completed : CampaignStatus

pub record CampaignRunReport : Type 0 where
  pub dialled_count : ℕ
  pub skipped_count : ℕ
  pub failed_count : ℕ
  pub stopped_reason : Option String

-- `campaign.max_concurrent_calls or max_concurrent`: None and 0 are both the deployment's ceiling.
unfoldable pub chosen : Option ℕ → ℕ → ℕ
chosen none ceiling = ceiling
chosen (some n) ceiling = if n == 0 then ceiling else n

unfoldable pub concurrency : ℕ → Option ℕ → ℕ
unfolding chosen
concurrency max_concurrent asked = max 1 (min max_concurrent (chosen asked max_concurrent))

-- `CampaignBlocked` with the checks that block, or the report; and the final status and rows.
pub data Launch : Type 0 where
  blocked : List Check → CampaignStatus → Rows → Launch
  ran : CampaignRunReport → CampaignStatus → CampaignRun Rows → Launch

unfoldable pub final_status : Option String → CampaignStatus
final_status none = completed
final_status (some _) = paused

unfoldable pub report_of : CampaignRun Rows → CampaignRunReport
unfolding count_dialled count_skipped count_failed
report_of r = record {
  dialled_count = count_dialled r.outcomes;
  skipped_count = count_skipped r.outcomes;
  failed_count = count_failed r.outcomes;
  stopped_reason = r.stopped_reason;
}

unfoldable pub launched : CampaignRun Rows → Launch
unfolding final_status
launched r = ran (report_of r) (final_status r.stopped_reason) r

unfoldable pub contacts_of : List (Contact × Tick) → List Contact
contacts_of [] = []
contacts_of ((c, _) ∷ rest) = c ∷ contacts_of rest

unfoldable pub gated : List Check → Rows → Launch → Launch
gated [] rows go = go
gated (check ∷ rest) rows go = blocked (check ∷ rest) paused rows

unfoldable pub run_campaign :
    (ℕ → Bool)
    → (ℕ → ℕ)
    → CampaignSettings
    → ℕ
    → List (Contact × Tick)
    → DialerState
    → Rows
    → Launch
unfolding gated launched contacts_of
run_campaign is_digit ist campaign now ticks s rows =
    gated (evaluate is_digit ist (contacts_of ticks) campaign now).blocked_by rows
      (launched (run ist (recheck campaign) dial ticks s rows))
