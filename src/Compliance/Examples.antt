-- ===== src/Compliance/Examples.antt =====
-- A campaign of three contacts, and the theorems at inputs that meet their hypotheses.
use uaagro_voice_agent.Prelude.{
  ℕ, ◌+◌, ◌*◌, ◌%◌, ◌≡◌, ◌↔◌, refl, Bool, true, false, ◌&&◌, none, some, List, [], ◌∷◌, leb, lookup,
  codes,
}
use uaagro_voice_agent.Compliance.Defs.{
  promotional_voice, dnd, frequency_cap, check_eq, hour, Contact, CampaignSettings,
  contact_failures, first_failure,
}
use uaagro_voice_agent.Compliance.Gate.{passed, evaluate, campaign_blocks}
use uaagro_voice_agent.Compliance.Contacts.{MayDial, first_failure_iff}
use uaagro_voice_agent.Compliance.Report.{cleared, removed_by, evaluate_report}

abbrev ascii_digit : ℕ → Bool
ascii_digit c = leb 48 c && leb c 57

-- UTC+5:30.
abbrev in_india : ℕ → ℕ
in_india t = (t + 19_800_000) % 86_400_000

-- 04:30 UTC, ten o'clock in India, on the hundredth day.
abbrev ten : ℕ
ten = 100 * 24 * hour + 16_200_000

abbrev willing : Contact
willing = record {
  farmer_id = 1;
  phone_hash = 11;
  consent_type = some promotional_voice;
  consent_expires_at = some (200 * 24 * hour);
  consent_revoked = false;
  is_dnd = false;
  on_internal_dnc = false;
  attempts_this_campaign = 1;
  last_attempt_at = some (99 * 24 * hour);
  contacts_this_week = 1;
  in_another_live_campaign = false;
}

abbrev registered : Contact
registered = record willing { farmer_id = 2; is_dnd = true }

abbrev tired : Contact
tired = record willing { farmer_id = 3; is_dnd = true; attempts_this_campaign = 3 }

abbrev offer : CampaignSettings
offer = record {
  is_promotional = true;
  caller_id = codes "+91 140 2233445";
  dlt_entity_id = some "1101";
  dlt_template_id = some "2202";
  dial_at = none;
}

abbrev people : List Contact
people = willing ∷ registered ∷ tired ∷ []

people_failures :
    (contact_failures willing offer ten ≡ [])
    × (contact_failures tired offer ten ≡ dnd ∷ frequency_cap ∷ [])
    × (passed (evaluate ascii_digit in_india people offer ten) ≡ true)
unfolding contact_failures evaluate passed
people_failures = (refl, refl, refl)

first_failure_iff_example : (first_failure willing offer ten ≡ none) ↔ MayDial willing offer ten
first_failure_iff_example = first_failure_iff willing offer ten

evaluate_report_example :
    let r = evaluate ascii_digit in_india people offer ten in
    (lookup dnd r.removed ≡ some (removed_by dnd offer ten people))
    × (r.eligible ≡ cleared offer ten people)
    × (r.blocked_by ≡ campaign_blocks ascii_digit in_india offer ten)
    × (r.total ≡ 3)
evaluate_report_example = evaluate_report ascii_digit in_india dnd people offer ten
