-- ===== src/Compliance/Gate.antt =====
-- The gate over a whole campaign.
use uaagro_voice_agent.Prelude.{
  ℕ, ◌+◌, Bool, true, false, ◌&&◌, not, Option, none, some, List, [], ◌∷◌, ◌++◌, ltb, leb, String,
  if◌then◌else◌, length, drop, lookup, insert, codes, ◌==◌, str_eq,
}
use uaagro_voice_agent.Compliance.Defs.{
  Check, caller_id_series, dlt_registration, calling_window, check_eq, all_checks, Contact,
  CampaignSettings, window_open, window_close, contact_failures, fails,
}

pub record GateReport : Type 0 where
  pub removed : List (Check × ℕ)
  pub blocked_by : List Check
  pub eligible : List Contact
  pub total : ℕ

unfoldable pub is_empty {ℓ} : {A : Type ℓ} → List A → Bool
is_empty [] = true
is_empty (x ∷ xs) = false

unfoldable pub passed : GateReport → Bool
unfolding is_empty
passed r = is_empty r.blocked_by && not (is_empty r.eligible)

abbrev pub removed_count : Check → GateReport → ℕ
removed_count c r = elim (lookup c r.removed) [ none ↦ 0 | some n ↦ n ]

-- `s.startswith(prefix)`, on code points.
unfoldable pub starts_with : List ℕ → List ℕ → Bool
starts_with s [] = true
starts_with [] (p ∷ ps) = false
starts_with (c ∷ cs) (p ∷ ps) = if c == p then starts_with cs ps else false

unfoldable pub keep_digits : (ℕ → Bool) → List ℕ → List ℕ
keep_digits is_digit [] = []
keep_digits is_digit (c ∷ cs) =
    if is_digit c then c ∷ keep_digits is_digit cs else keep_digits is_digit cs

-- `is_digit` is Python's `str.isdigit` of one character.
unfoldable pub is_valid_promotional_cli : (ℕ → Bool) → List ℕ → Bool
unfolding starts_with keep_digits
is_valid_promotional_cli is_digit caller_id =
    let digits = keep_digits is_digit caller_id in
    let bare : List ℕ =
      if starts_with digits (codes "91") && ltb 10 (length digits) then drop 2 digits else digits in
    starts_with bare (codes "140")

-- `removed[reason] += 1` for each reason.
unfoldable pub count_reasons : List Check → List (Check × ℕ) → List (Check × ℕ)
count_reasons [] removed = removed
count_reasons (c ∷ rest) removed =
    count_reasons rest (insert c (elim (lookup c removed) [ none ↦ 1 | some n ↦ n + 1 ]) removed)

unfoldable pub zero_counts : List Check → List (Check × ℕ)
zero_counts [] = []
zero_counts (c ∷ rest) = (c, 0) ∷ zero_counts rest

unfoldable pub judge : List Check → Contact → GateReport → GateReport
unfolding count_reasons
judge [] c r = record r { eligible = r.eligible ++ c ∷ [] }
judge (reason ∷ rest) c r = record r { removed = count_reasons (reason ∷ rest) r.removed }

unfoldable pub judge_all : CampaignSettings → ℕ → List Contact → GateReport → GateReport
unfolding judge contact_failures
judge_all campaign moment [] r = r
judge_all campaign moment (c ∷ rest) r =
    judge_all campaign moment rest (judge (contact_failures c campaign moment) c r)

-- A text that is neither None nor empty.
unfoldable pub is_given : Option String → Bool
is_given none = false
is_given (some s) = not (str_eq s "")

-- Both ends belong to the window.
unfoldable pub within_calling_window : (ℕ → ℕ) → ℕ → Bool
within_calling_window ist moment = leb window_open (ist moment) && leb (ist moment) window_close

module _ (is_digit : ℕ → Bool) (ist : ℕ → ℕ) where
  unfoldable pub campaign_blocks : CampaignSettings → ℕ → List Check
  unfolding is_given within_calling_window is_valid_promotional_cli
  campaign_blocks campaign moment =
      fails (campaign.is_promotional && not (is_valid_promotional_cli is_digit campaign.caller_id))
        caller_id_series
      ++ (fails
            (campaign.is_promotional
              && not (is_given campaign.dlt_entity_id && is_given campaign.dlt_template_id))
            dlt_registration
          ++ fails
              (not
                (within_calling_window ist (elim campaign.dial_at [ none ↦ moment | some t ↦ t ])))
              calling_window)

  unfoldable pub evaluate : List Contact → CampaignSettings → ℕ → GateReport
  unfolding zero_counts campaign_blocks judge_all
  evaluate contacts campaign moment = judge_all campaign moment contacts (record {
    removed = zero_counts all_checks;
    blocked_by = campaign_blocks campaign moment;
    eligible = [];
    total = length contacts;
  })
