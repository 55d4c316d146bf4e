-- ===== src/Validator/Attempts.antt =====
-- Generation ends with the first attempt that may be spoken, or with the fallback.
use uaagro_voice_agent.Prelude.{
  ℕ, zero, suc, ◌+◌, ◌<◌, ◌≡◌, refl, Bool, true, false, ◌⊎◌, inl, inr, Option, none, some, List, [],
  String, arith, if_by,
}
use native.Mathlib.Decide.{dec_lt}
use mathlib.Core.Path.{subst}
use uaagro_voice_agent.Validator.Results.{Entries}
use uaagro_voice_agent.Validator.Check.{
  Language, Violation, OutputValidator, validate, is_ok, Generated, Model, attempts, run,
  fallback_script_hi,
}

module _ (l : Language) (v : OutputValidator) (results : List Entries) (is_dosage : Bool)
    (generate : Model) where
  -- What the model is told before an attempt.
  unfoldable pub told : ℕ → Option (List Violation)
  told zero = none
  told (suc k) = some (validate l v (generate k (told k)) results is_dosage)

  -- What it says then, and the rules that this breaks.
  abbrev pub said : ℕ → String
  said k = generate k (told k)

  abbrev pub broken : ℕ → List Violation
  broken k = validate l v (said k) results is_dosage

  abbrev pub last_broken : ℕ → List Violation
  last_broken zero = []
  last_broken (suc k) = broken k

  -- All attempts below a bound were refused.
  abbrev pub AllRefused : ℕ → Type 0
  AllRefused n = (j : ℕ) → j < n → is_ok (broken j) ≡ false

  abbrev pub IsFirst : ℕ → Generated → Type 0
  IsFirst n result =
      (k : ℕ) × (k < n)
      × AllRefused k
      × (is_ok (broken k) ≡ true)
      × (result ≡ record { text = said k; outcome = broken k; escalate = false })

  abbrev pub IsFallback : ℕ → Generated → Type 0
  IsFallback n result =
      AllRefused n
      × (result ≡ record { text = fallback_script_hi; outcome = last_broken n; escalate = true })

  one_more : (k : ℕ) → AllRefused k → is_ok (broken k) ≡ false → AllRefused (suc k)
  one_more k refused now j lt = elim (dec_lt j k) [
    | yes earlier ↦ refused j earlier
    | no later ↦ subst (λ i. is_ok (broken i) ≡ false) (omega arith) now
  ]

  attempts_from :
      (left k n : ℕ)
      → k + left ≡ n
      → AllRefused k
      → IsFirst n (attempts l v results is_dosage generate left k (told k) (last_broken k))
        ⊎ IsFallback n (attempts l v results is_dosage generate left k (told k) (last_broken k))
  unfolding attempts told
  attempts_from zero k n e refused = inr (
      subst
        (λ i.
          IsFallback i
            (record { text = fallback_script_hi; outcome = last_broken k; escalate = true }))
        (omega (arith, e)) (refused, refl))
  attempts_from (suc left) k n e refused =
      if_by (λ r. IsFirst n r ⊎ IsFallback n r) (is_ok (broken k)) _ _
        (λ fine. inl (k, omega (arith, e), refused, fine, refl))
        (λ not_fine. attempts_from left (suc k) n (omega (arith, e)) (one_more k refused not_fine))

  -- Whatever the model answers, generation ends after at most one attempt more than the
  -- regenerations that are allowed: with the first attempt that the validator lets through, which is
  -- spoken as it is, or, where every attempt is refused, with the fixed script and an escalation.
  -- Each attempt is told the rules that the one before it broke.
  pub run_ends :
      (regenerations : ℕ)
      → IsFirst (suc regenerations) (run l v results is_dosage generate regenerations)
        ⊎ IsFallback (suc regenerations) (run l v results is_dosage generate regenerations)
  unfolding run told
  run_ends regenerations =
      attempts_from (suc regenerations) 0 (suc regenerations) (omega arith)
        (λ j lt. absurd (omega arith))
