-- ===== src/Compliance/Retry.antt =====
-- The retry table against the gate's own limits.
use uaagro_voice_agent.Prelude.{ℕ, ◌+◌, ◌*◌, ◌≤◌, ◌<◌, ◌≡◌, some, [], arith, String}
use uaagro_voice_agent.Compliance.Defs.{Contact, check_eq, hour, frequency_failures, next_retry}

-- A retry is never set so early that the gate would refuse it for the gap: the moment that the
-- table gives is four hours after the last attempt at least, so a contact with attempts left and
-- its weekly cap not reached has no frequency failure then.
frequency_failures-next_retry :
    (outcome : String) (last when : ℕ) (c : Contact)
    → c.last_attempt_at ≡ some last
    → c.attempts_this_campaign < 3
    → c.contacts_this_week < 2
    → next_retry outcome last c.attempts_this_campaign ≡ some when
    → (last + 4 * hour ≤ when) × (frequency_failures c when ≡ [])
unfolding next_retry
frequency_failures-next_retry outcome last when c e a w r =
    let later : last + 4 * hour ≤ when = ground arith in (later, ground arith)
