-- ===== src/Compliance/Defs.antt =====
-- The checks, what they judge, and the checks of one contact.
use uaagro_voice_agent.Prelude.{
  ℕ, ◌+◌, ◌*◌, ◌≡◌, refl, Bool, true, false, ◌&&◌, not, Option, none, some, List, [], ◌∷◌, ◌++◌,
  ltb, leb, ◌==◌, if◌then◌else◌, get_or, Eq, code_iff, String, str_eq,
}

pub data ConsentType : Type 0 where
  promotional_voice promotional_whatsapp transactional recording : ConsentType

pub data Check : Type 0 where
  consent dnd internal_dnc caller_id_series dlt_registration calling_window frequency_cap
        duplicate_suppression :
      Check

abbrev pub all_checks : List Check
all_checks =
    consent ∷ dnd ∷ internal_dnc ∷ caller_id_series ∷ dlt_registration ∷ calling_window
    ∷ frequency_cap ∷ duplicate_suppression ∷ []

abbrev pub check_code : Check → ℕ
check_code consent = 0
check_code dnd = 1
check_code internal_dnc = 2
check_code caller_id_series = 3
check_code dlt_registration = 4
check_code calling_window = 5
check_code frequency_cap = 6
check_code duplicate_suppression = 7

pub check_code-all_checks : (c : Check) → get_or all_checks (check_code c) consent ≡ c
check_code-all_checks consent = refl
check_code-all_checks dnd = refl
check_code-all_checks internal_dnc = refl
check_code-all_checks caller_id_series = refl
check_code-all_checks dlt_registration = refl
check_code-all_checks calling_window = refl
check_code-all_checks frequency_cap = refl
check_code-all_checks duplicate_suppression = refl

instance abbrev pub check_eq : Eq Check
check_eq = record {
  beq = λ a b. check_code a == check_code b;
  beq_iff = code_iff check_code (λ n. get_or all_checks n consent) check_code-all_checks;
}

abbrev pub hour : ℕ
hour = 3_600_000

abbrev pub window_open : ℕ
window_open = 9 * hour

abbrev pub window_close : ℕ
window_close = 21 * hour

abbrev pub max_attempts_per_contact : ℕ
max_attempts_per_contact = 3

abbrev pub min_hours_between_attempts : ℕ
min_hours_between_attempts = 4

abbrev pub max_contacts_per_farmer_per_week : ℕ
max_contacts_per_farmer_per_week = 2

pub record Contact : Type 0 where
  pub farmer_id : ℕ
  pub phone_hash : ℕ
  pub consent_type : Option ConsentType
  pub consent_expires_at : Option ℕ
  pub consent_revoked : Bool
  pub is_dnd : Bool
  pub on_internal_dnc : Bool
  pub attempts_this_campaign : ℕ
  pub last_attempt_at : Option ℕ
  pub contacts_this_week : ℕ
  pub in_another_live_campaign : Bool

pub record CampaignSettings : Type 0 where
  pub is_promotional : Bool
  pub caller_id : List ℕ
  pub dlt_entity_id : Option String
  pub dlt_template_id : Option String
  pub dial_at : Option ℕ

abbrev pub is_voice_consent : Option ConsentType → Bool
is_voice_consent (some promotional_voice) = true
is_voice_consent _ = false

abbrev pub expires_after : ℕ → Option ℕ → Bool
expires_after now none = false
expires_after now (some t) = ltb now t

abbrev pub has_valid_consent : ℕ → Contact → Bool
has_valid_consent now c =
    is_voice_consent c.consent_type
    && not c.consent_revoked
    && expires_after now c.consent_expires_at

-- `last is not None and now - last < 4 h`; the difference of two moments is signed.
abbrev pub too_soon : ℕ → Option ℕ → Bool
too_soon now none = false
too_soon now (some last) = ltb now (last + min_hours_between_attempts * hour)

abbrev pub fails : Bool → Check → List Check
fails true c = c ∷ []
fails false c = []

abbrev pub promotional_failures : Contact → ℕ → List Check
promotional_failures c now = fails (not (has_valid_consent now c)) consent ++ fails c.is_dnd dnd

abbrev pub frequency_failures : Contact → ℕ → List Check
frequency_failures c now =
    if leb max_attempts_per_contact c.attempts_this_campaign
    then frequency_cap ∷ []
    else if too_soon now c.last_attempt_at
    then frequency_cap ∷ []
    else if leb max_contacts_per_farmer_per_week c.contacts_this_week
    then frequency_cap ∷ []
    else []

unfoldable pub contact_failures : Contact → CampaignSettings → ℕ → List Check
contact_failures c campaign now =
    (if campaign.is_promotional then promotional_failures c now else [])
    ++ (fails c.on_internal_dnc internal_dnc
        ++ (frequency_failures c now ++ fails c.in_another_live_campaign duplicate_suppression))

abbrev first : List Check → Option Check
first [] = none
first (c ∷ rest) = some c

unfoldable pub first_failure : Contact → CampaignSettings → ℕ → Option Check
unfolding contact_failures
first_failure c campaign now = first (contact_failures c campaign now)

-- The retry table, by the outcome's text. `none` means never again.
unfoldable pub next_retry : String → ℕ → ℕ → Option ℕ
next_retry outcome last_attempt attempts =
    if str_eq outcome "no_answer"
    then (if leb max_attempts_per_contact attempts
        then none
        else some (last_attempt + (24 + attempts * 3) * hour))
    else if str_eq outcome "busy"
    then some (last_attempt + 4 * hour)
    else if str_eq outcome "answering_machine"
    then (if leb 1 attempts then none else some (last_attempt + 24 * hour))
    else none
