-- ===== src/Compliance/Contacts.antt =====
-- Which contacts may be dialled at a moment.
use uaagro_voice_agent.Prelude.{
  ℕ, ◌+◌, ◌*◌, ◌≤◌, ◌<◌, ◌≡◌, ◌↔◌, refl, true, false, Option, none, some, arith, Bool-cases, inl,
  inr,
}
use uaagro_voice_agent.Compliance.Defs.{
  promotional_voice, check_eq, hour, Contact, CampaignSettings, first_failure, too_soon,
  expires_after, has_valid_consent,
}

-- An expiry is on record and lies ahead.
abbrev pub RunsUntil : Option ℕ → ℕ → Type 0
RunsUntil none now = ⊥
RunsUntil (some t) now = now < t

-- Consent to promotional calls that has neither been revoked nor run out.
abbrev pub HasConsent : Contact → ℕ → Type 0
HasConsent c now =
    (c.consent_type ≡ some promotional_voice)
    × (c.consent_revoked ≡ false)
    × RunsUntil c.consent_expires_at now

-- The last attempt, if there was one, lies four hours back at least.
abbrev pub IsRested : Option ℕ → ℕ → Type 0
IsRested none now = Unit
IsRested (some last) now = last + 4 * hour ≤ now

-- What §13.1 asks of one contact.
pub record MayDial (c : Contact) (campaign : CampaignSettings) (now : ℕ) : Type 0 where
  pub consented : campaign.is_promotional ≡ true → HasConsent c now × (c.is_dnd ≡ false)
  pub not_opted_out : c.on_internal_dnc ≡ false
  pub attempts_left : c.attempts_this_campaign < 3
  pub rested : IsRested c.last_attempt_at now
  pub this_week : c.contacts_this_week < 2
  pub not_elsewhere : c.in_another_live_campaign ≡ false

expires_after_iff : (now : ℕ) (t : Option ℕ) → (expires_after now t ≡ true) ↔ RunsUntil t now
expires_after_iff now none = (λ h. ground arith, λ h. absurd h)
expires_after_iff now (some t) = (λ h. ground arith, λ h. ground arith)

has_valid_consent-HasConsent :
    (c : Contact) (now : ℕ) → (has_valid_consent now c ≡ true) ↔ HasConsent c now
has_valid_consent-HasConsent c now = (
  λ h. (ground arith, ground arith, (expires_after_iff now c.consent_expires_at).0 (ground arith)),
  λ h. ground (arith, (expires_after_iff now c.consent_expires_at).1 h.2),
)

too_soon_iff : (now : ℕ) (last : Option ℕ) → (too_soon now last ≡ false) ↔ IsRested last now
too_soon_iff now none = (λ h. tt, λ h. refl)
too_soon_iff now (some last) = (λ h. ground arith, λ h. ground arith)

module _ (c : Contact) (campaign : CampaignSettings) (now : ℕ) where
  first_failure-MayDial : first_failure c campaign now ≡ none → MayDial c campaign now
  unfolding first_failure
  first_failure-MayDial h = record {
    consented = λ p. ((has_valid_consent-HasConsent c now).0 (ground arith), ground arith);
    not_opted_out = ground arith;
    attempts_left = ground arith;
    rested = (too_soon_iff now c.last_attempt_at).0 (ground arith);
    this_week = ground arith;
    not_elsewhere = ground arith;
  }

  -- With `valid` and `soon` for the two computed tests.
  MayDial-first_failure : MayDial c campaign now → first_failure c campaign now ≡ none
  unfolding first_failure
  MayDial-first_failure m =
      let soon = (too_soon_iff now c.last_attempt_at).1 m.rested in
      elim (Bool-cases campaign.is_promotional) [
        | inl p ↦
            let valid = (has_valid_consent-HasConsent c now).1 (m.consented p).0 in
            let listed = (m.consented p).1 in ground arith
        | inr p ↦ ground arith
      ]

  -- The dial-time check lets a contact through exactly when the rules allow the call: valid
  -- consent and no DND registration for promotional calls, no opt-out, attempts left, four hours
  -- since the last one, the weekly cap not reached, and no other live campaign.
  pub first_failure_iff : (first_failure c campaign now ≡ none) ↔ MayDial c campaign now
  first_failure_iff = (first_failure-MayDial, MayDial-first_failure)
