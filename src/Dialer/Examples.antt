-- ===== src/Dialer/Examples.antt =====
-- A campaign of three contacts, and the theorems at inputs that meet their hypotheses.
use uaagro_voice_agent.Prelude.{
  ℕ, ◌+◌, ◌*◌, ◌%◌, ◌≤◌, ◌≡◌, refl, Bool, true, false, ◌&&◌, Option, none, some, List, [], ◌∷◌,
  arith, leb, length, lookup, nat_eq, codes,
}
use uaagro_voice_agent.Compliance.{
  promotional_voice, Check, check_eq, hour, Contact, CampaignSettings, first_failure,
}
use uaagro_voice_agent.Compliance.Contacts.{MayDial}
use uaagro_voice_agent.Dialer.Defs.{
  DialerState, apply_control, resume, pause, heard, no_control, unreachable, Tick, state_at,
  stop_reason, placed, failed, visit, visit_later, run, count_dialled, count_skipped, count_failed,
}
use uaagro_voice_agent.Dialer.Campaign.{Row, Rows, pending, recheck, dial}
use uaagro_voice_agent.Dialer.Lawful.{visit_later-MayDial}
use uaagro_voice_agent.Dialer.Overlap.{
  Pool, Event, next_contact, acquire, commanded, answered, steps,
}
use uaagro_voice_agent.Dialer.Tasks.{in_pool, steps_kept}
use uaagro_voice_agent.Dialer.Attempts.{attempts_at, IsCapped, run-IsCapped}

abbrev ascii_digit : ℕ → Bool
ascii_digit c = leb 48 c && leb c 57

-- UTC+5:30.
abbrev in_india : ℕ → ℕ
in_india t = (t + 19_800_000) % 86_400_000

-- 04:30 UTC, ten o'clock in India, on the hundredth day.
abbrev ten : ℕ
ten = 100 * 24 * hour + 16_200_000

abbrev willing : Contact
willing = record {
  farmer_id = 1;
  phone_hash = 11;
  consent_type = some promotional_voice;
  consent_expires_at = some (200 * 24 * hour);
  consent_revoked = false;
  is_dnd = false;
  on_internal_dnc = false;
  attempts_this_campaign = 1;
  last_attempt_at = some (99 * 24 * hour);
  contacts_this_week = 1;
  in_another_live_campaign = false;
}

abbrev registered : Contact
registered = record willing { farmer_id = 2; is_dnd = true }

abbrev other : Contact
other = record willing { farmer_id = 3 }

abbrev offer : CampaignSettings
offer = record {
  is_promotional = true;
  caller_id = codes "+91 140 2233445";
  dlt_entity_id = some "1101";
  dlt_template_id = some "2202";
  dial_at = none;
}

abbrev table : Rows
table =
    (1, record { contact = willing; status = pending; outcome = none })
    ∷ (2, record { contact = registered; status = pending; outcome = none })
    ∷ (3, record { contact = other; status = pending; outcome = none })
    ∷ []

abbrev tick : Tick
tick = record { commands = []; signal = no_control; now = ten; originate = placed "sid-1" }

abbrev refused : Tick
refused = record {
  commands = [];
  signal = unreachable;
  now = ten;
  originate = failed "TimeoutError";
}

abbrev pausing : Tick
pausing = record {
  commands = resume ∷ [];
  signal = heard (some "paused");
  now = ten;
  originate = placed "sid-2";
}

abbrev fresh : DialerState
fresh = record { paused = false; cancelled = false }

abbrev people : List (Contact × Tick)
people = (willing, tick) ∷ (registered, tick) ∷ (other, refused) ∷ []

abbrev interrupted : List (Contact × Tick)
interrupted = (willing, tick) ∷ (registered, pausing) ∷ (other, tick) ∷ []

run-people :
    let r = run in_india (recheck offer) dial people fresh table in
    (r.stopped_reason ≡ none)
    × (count_dialled r.outcomes ≡ 1)
    × (count_skipped r.outcomes ≡ 1)
    × (count_failed r.outcomes ≡ 1)
    × (attempts_at 3 r.world ≡ 2)
unfolding run recheck dial count_dialled count_skipped count_failed stop_reason state_at visit
    first_failure
run-people = (refl, refl, refl, refl, refl)

-- The task waits for three minutes.
abbrev after_waiting : Tick
after_waiting = record tick { now = ten + 180_000 }

visit_later-MayDial_example :
    ((row : Row) × (lookup 1 table ≡ some row) × MayDial row.contact offer ten)
    × ((row : Row) × (lookup 1 table ≡ some row))
unfolding visit_later recheck dial first_failure
visit_later-MayDial_example =
    visit_later-MayDial in_india offer willing tick after_waiting table table refl

table-IsCapped : IsCapped table
table-IsCapped id = ground arith

run-IsCapped_example : IsCapped (run in_india (recheck offer) dial people fresh table).world
run-IsCapped_example = run-IsCapped in_india offer people fresh table table-IsCapped

-- One dial at a time: the second contact waits while the first is dialled.
abbrev waiting : Pool
waiting = record {
  control = fresh;
  todo = willing ∷ other ∷ [];
  stopped = none;
  queued = [];
  active = [];
  outcomes = [];
}

abbrev overlapping : List Event
overlapping =
    next_contact no_control ten
    ∷ acquire
    ∷ next_contact no_control ten
    ∷ commanded pause
    ∷ answered 0 (placed "sid-1")
    ∷ acquire
    ∷ []

abbrev nobody_fails : Contact → ℕ → Option Check
nobody_fails c now = none

abbrev afterwards : Pool
afterwards = record {
  control = record { paused = true; cancelled = false };
  todo = [];
  stopped = none;
  queued = [];
  active = 3 ∷ [];
  outcomes =
      record {
        contact_id = 1;
        dialled = true;
        skipped_by = none;
        call_sid = some "sid-1";
        error = none;
      }
      ∷ [];
}

steps_kept_example :
    ((id : ℕ) → in_pool id afterwards ≡ in_pool id waiting) × (length afterwards.active ≤ 1)
unfolding steps stop_reason apply_control
steps_kept_example =
    steps_kept in_india nobody_fails 1 overlapping waiting afterwards (omega arith) refl

abbrev held : Pool
held = record waiting { control = record { paused = true; cancelled = false }; queued = 3 ∷ [] }
