-- ===== src/Compliance/Report.antt =====
-- What the report says: who is eligible, what each check removed, and when the gate passes.
use uaagro_voice_agent.Prelude.{
  ℕ, ◌+◌, ◌≡◌, refl, sym, ap, ◌∙◌, Bool, true, ◌&&◌, not, none, some, List, [], ◌∷◌, ◌++◌, arith,
  contains, Bool-cases, length, lookup, insert, lookup-insert, if◌then◌else◌, inl, inr, leb, ◌||◌,
}
use mathlib.Core.Logic.{◌≢◌}
use mathlib.Core.List.{append_assoc, append-nil}
use uaagro_voice_agent.Compliance.Defs.{
  Check, check_eq, consent, dnd, internal_dnc, frequency_cap, duplicate_suppression, Contact,
  CampaignSettings, contact_failures, all_checks, fails, has_valid_consent, too_soon,
}
use uaagro_voice_agent.Compliance.Gate.{
  GateReport, count_reasons, judge, judge_all, evaluate, is_empty, passed, zero_counts,
  campaign_blocks, within_calling_window, is_valid_promotional_cli, is_given,
}

-- The contacts that no check removes, in their order.
unfoldable pub cleared : CampaignSettings → ℕ → List Contact → List Contact
cleared campaign now [] = []
cleared campaign now (c ∷ rest) =
    if is_empty (contact_failures c campaign now)
    then c ∷ cleared campaign now rest
    else cleared campaign now rest

-- How many contacts a check is a reason to remove.
unfoldable pub removed_by : Check → CampaignSettings → ℕ → List Contact → ℕ
removed_by k campaign now [] = 0
removed_by k campaign now (c ∷ rest) =
    (if contains k (contact_failures c campaign now) then 1 else 0) + removed_by k campaign now rest

occurrences : Check → List Check → ℕ
occurrences k [] = 0
occurrences k (c ∷ rest) = (if check_eq.beq c k then 1 else 0) + occurrences k rest

lookup-count_reasons :
    (k : Check) (reasons : List Check) (removed : List (Check × ℕ)) (n : ℕ)
    → lookup k removed ≡ some n
    → lookup k (count_reasons reasons removed) ≡ some (occurrences k reasons + n)
unfolding count_reasons occurrences
lookup-count_reasons k [] removed n h = ground arith
lookup-count_reasons k (c ∷ rest) removed n h =
    let m : ℕ = elim (lookup c removed) [ none ↦ 1 | some n ↦ n + 1 ] in
    let after = insert c m removed in
    let found = lookup-insert c k m removed in
    elim (Bool-cases (check_eq.beq c k)) [
      | inl same ↦
          let e : m ≡ n + 1 = ground (arith, check_eq.beq_iff c k) in
          rw same (lookup-count_reasons k rest after (n + 1) (ground arith) ∙ ap some (omega arith))
      | inr other ↦
          rw other (lookup-count_reasons k rest after n (ground arith) ∙ ap some (omega arith))
    ]

abbrev listed : Bool → Bool → Bool → Bool → Bool → List Check
listed a b c d e =
    fails a consent
    ++ (fails b dnd
        ++ (fails c internal_dnc ++ (fails d frequency_cap ++ fails e duplicate_suppression)))

occurrences-listed :
    (k : Check) (a b c d e : Bool)
    → occurrences k (listed a b c d e) ≡ (if contains k (listed a b c d e) then 1 else 0)
unfolding occurrences
occurrences-listed k a b c d e = ground arith

contact_failures-listed :
    (c : Contact) (campaign : CampaignSettings) (now : ℕ)
    → contact_failures c campaign now
      ≡ listed
          (campaign.is_promotional && not (has_valid_consent now c))
          (campaign.is_promotional && c.is_dnd)
          c.on_internal_dnc
          (leb 3 c.attempts_this_campaign
            || too_soon now c.last_attempt_at
            || leb 2 c.contacts_this_week)
          c.in_another_live_campaign
unfolding contact_failures
contact_failures-listed c campaign now = ground arith

-- No check is named twice for one contact.
occurrences-contact_failures :
    (k : Check) (c : Contact) (campaign : CampaignSettings) (now : ℕ)
    → occurrences k (contact_failures c campaign now)
      ≡ (if contains k (contact_failures c campaign now) then 1 else 0)
occurrences-contact_failures k c campaign now =
    rw (contact_failures-listed c campaign now) (occurrences-listed k _ _ _ _ _)

-- One contact's part of the report.
judge_lem :
    (k : Check) (reasons : List Check) (c : Contact) (r : GateReport) (n : ℕ)
    → lookup k r.removed ≡ some n
    → (lookup k (judge reasons c r).removed ≡ some (occurrences k reasons + n))
      × ((judge reasons c r).eligible ≡ r.eligible ++ (if is_empty reasons then c ∷ [] else []))
      × ((judge reasons c r).blocked_by ≡ r.blocked_by)
      × ((judge reasons c r).total ≡ r.total)
unfolding judge is_empty occurrences
judge_lem k [] c r n h = (h ∙ ap some (omega arith), refl, refl, refl)
judge_lem k (x ∷ xs) c r n h =
    (lookup-count_reasons k (x ∷ xs) r.removed n h, sym (append-nil r.eligible), refl, refl)

cleared-cons :
    (campaign : CampaignSettings) (now : ℕ) (c : Contact) (rest : List Contact)
    → cleared campaign now (c ∷ rest)
      ≡ (if is_empty (contact_failures c campaign now) then c ∷ [] else [])
        ++ cleared campaign now rest
unfolding cleared
cleared-cons campaign now c rest = ground arith

judge_all_lem :
    (k : Check) (campaign : CampaignSettings) (now : ℕ) (contacts : List Contact) (r : GateReport)
    (n : ℕ)
    → lookup k r.removed ≡ some n
    → (lookup k (judge_all campaign now contacts r).removed
        ≡ some (removed_by k campaign now contacts + n))
      × ((judge_all campaign now contacts r).eligible ≡ r.eligible ++ cleared campaign now contacts)
      × ((judge_all campaign now contacts r).blocked_by ≡ r.blocked_by)
      × ((judge_all campaign now contacts r).total ≡ r.total)
unfolding judge_all removed_by cleared
judge_all_lem k campaign now [] r n h =
    (h ∙ ap some (omega arith), sym (append-nil r.eligible), refl, refl)
judge_all_lem k campaign now (c ∷ rest) r n h =
    let reasons = contact_failures c campaign now in
    let here : List Contact = if is_empty reasons then c ∷ [] else [] in
    let m : ℕ = occurrences k reasons + n in
    let (found, e, b, t) = judge_lem k reasons c r n h in
    let (found', e', b', t') = judge_all_lem k campaign now rest (judge reasons c r) m found in
    (
      found' ∙ ap some (omega (arith, occurrences-contact_failures k c campaign now)),
      e'
          ∙ (ap (λ l. l ++ cleared campaign now rest) e
              ∙ (append_assoc r.eligible here (cleared campaign now rest)
                  ∙ ap (λ l. r.eligible ++ l) (sym (cleared-cons campaign now c rest)))),
      b' ∙ b,
      t' ∙ t,
    )

module _ (is_digit : ℕ → Bool) (ist : ℕ → ℕ) where
  -- The report of the gate, in full. For every check, the number beside it is the number of
  -- contacts that it is a reason to remove, zero included; the eligible contacts are those that no
  -- check removes, in their order, whether or not the campaign is blocked; the total is the number
  -- of contacts; and the campaign-level checks are judged apart from the contacts.
  pub evaluate_report :
      (k : Check) (contacts : List Contact) (campaign : CampaignSettings) (now : ℕ)
      → let r = evaluate is_digit ist contacts campaign now in
        (lookup k r.removed ≡ some (removed_by k campaign now contacts))
        × (r.eligible ≡ cleared campaign now contacts)
        × (r.blocked_by ≡ campaign_blocks is_digit ist campaign now)
        × (r.total ≡ length contacts)
  unfolding evaluate
  evaluate_report k contacts campaign now =
      let start : GateReport = record {
        removed = zero_counts all_checks;
        blocked_by = campaign_blocks is_digit ist campaign now;
        eligible = [];
        total = length contacts;
      } in
      let (found, e, b, t) = judge_all_lem k campaign now contacts start 0 (ground arith) in
      (found ∙ ap some (omega arith), e, b, t)

  -- A campaign passes the gate only if it may run: a promotional one has a caller id of the 140
  -- series and both registration ids, any is dialled inside the calling window, at its scheduled
  -- moment or now, and at least one contact is eligible.
  passed_campaign :
      (contacts : List Contact) (campaign : CampaignSettings) (now : ℕ)
      → passed (evaluate is_digit ist contacts campaign now) ≡ true
      → ((not campaign.is_promotional
            || (is_valid_promotional_cli is_digit campaign.caller_id
                && is_given campaign.dlt_entity_id
                && is_given campaign.dlt_template_id))
          ≡ true)
        × (within_calling_window ist (elim campaign.dial_at [ none ↦ now | some t ↦ t ]) ≡ true)
        × (cleared campaign now contacts ≢ [])
  unfolding passed campaign_blocks is_empty
  passed_campaign contacts campaign now h =
      let (_, e, b, _) = evaluate_report consent contacts campaign now in
      (ground (arith, e, b), ground (arith, e, b), λ none_left. ground (arith, e, b))
