-- ===== src/Phone/Canonical.antt =====
-- The canonical form of a number.
use uaagro_voice_agent.Prelude.{
  all-drop, length-drop, sym, ◌-◌, ◌≢◌, drop, and_both, ℕ, ◌≡◌, refl, ap, ◌∙◌, Bool, true, false,
  ◌&&◌, [], ◌∷◌, ◌++◌, length, all, codes, arith, and_parts, some,
}
use uaagro_voice_agent.Phone.Defs.{
  Text, keep_digits, strip_access, strip_country, is_mobile, msisdn, normalise_digits,
  normalise_msisdn, e164, is_service_number,
}
use uaagro_voice_agent.Phone.Direction.{national}
use uaagro_voice_agent.Phone.Digits.{
  IsCanonical, IsAscii, keep_digits-all, keep_digits-digits, normalise_digits-prefixed, stripped,
  stripped-IsDrop, no_service_head, not_blank_digits, normalise_digits-stripped, national-last,
}

module _ (is_digit is_space : ℕ → Bool) (ascii : IsAscii is_digit is_space) where
  not_blank : (c : ℕ) (raw : Text) → is_digit c ≡ true → all is_space (c ∷ raw) ≡ false
  not_blank c raw d = rw (ascii.digit_no_space c d) refl

  -- A text of digits alone is normalised as they are.
  normalise_msisdn-digits :
      (c : ℕ) (raw : Text)
      → is_digit c ≡ true
      → all is_digit raw ≡ true
      → normalise_msisdn is_digit is_space (c ∷ raw) ≡ normalise_digits (c ∷ raw)
  unfolding normalise_msisdn
  normalise_msisdn-digits c raw d ds =
      rw (not_blank c raw d, keep_digits-digits is_digit (c ∷ raw) (and_both _ _ d ds)) refl

  normalise_msisdn-stripped :
      (raw n : Text)
      → normalise_msisdn is_digit is_space raw ≡ msisdn n
      → (raw ≢ [])
        × (stripped (keep_digits is_digit raw) ≡ n)
        × (length n ≡ 10)
        × (is_mobile n ≡ true)
  unfolding normalise_msisdn
  normalise_msisdn-stripped raw n h =
      let (filled, d) = not_blank_digits (all is_space raw) (keep_digits is_digit raw) n h in
      let (e, l, m) = normalise_digits-stripped (keep_digits is_digit raw) n d in
      let blank : raw ≡ [] → all is_space raw ≡ true = ap (all is_space) in
      (λ g. absurd (ground (arith, filled, blank g)), e, l, m)

  blank_later : (a b : Bool) → b ≡ false → (a && b) ≡ false
  blank_later a b h = ground arith

  -- The plus sign is passed over.
  normalise_msisdn-dialled :
      (n : Text)
      → all is_digit n ≡ true
      → normalise_msisdn is_digit is_space (43 ∷ 57 ∷ 49 ∷ n) ≡ normalise_digits (57 ∷ 49 ∷ n)
  unfolding normalise_msisdn keep_digits
  normalise_msisdn-dialled n d =
      rw
        (
          blank_later (is_space 43) _ (not_blank 57 (49 ∷ n) ascii.nine_digit),
          ascii.plus_no_digit,
          ascii.nine_digit,
          ascii.one_digit,
          keep_digits-digits is_digit n d,
        )
        refl

  -- One number, however it is written: bare, with the trunk zero, with the country code, with the
  -- access prefix as well, or as it is dialled, a canonical number is normalised to itself.
  pub normalise_msisdn-forms :
      (n : Text)
      → IsCanonical is_digit n
      → (normalise_msisdn is_digit is_space n ≡ msisdn n)
        × (normalise_msisdn is_digit is_space (codes "0" ++ n) ≡ msisdn n)
        × (normalise_msisdn is_digit is_space (codes "91" ++ n) ≡ msisdn n)
        × (normalise_msisdn is_digit is_space (codes "0091" ++ n) ≡ msisdn n)
        × (normalise_msisdn is_digit is_space (e164 n) ≡ msisdn n)
  unfolding e164
  normalise_msisdn-forms [] (l, m, d) = absurd (ground arith)
  normalise_msisdn-forms (c ∷ n) (l, m, d) =
      let (bare, trunk, country, access) = normalise_digits-prefixed c n m (omega (arith, l)) in
      let (dc, dn) = and_parts (is_digit c) _ d in
      (
        normalise_msisdn-digits c n dc dn ∙ bare,
        normalise_msisdn-digits 48 (c ∷ n) ascii.zero_digit d ∙ trunk,
        normalise_msisdn-digits 57 (49 ∷ c ∷ n) ascii.nine_digit (and_both _ _ ascii.one_digit d)
            ∙ country,
        normalise_msisdn-digits 48 (48 ∷ 57 ∷ 49 ∷ c ∷ n) ascii.zero_digit (
              and_both _ _ ascii.zero_digit
                (and_both _ _ ascii.nine_digit (and_both _ _ ascii.one_digit d)))
            ∙ access,
        normalise_msisdn-dialled (c ∷ n) d ∙ country,
      )

  -- What is accepted is canonical, and is what the direction of a call is judged by: the last ten
  -- digits of the number as it was given.
  normalise_msisdn-national :
      (raw n : Text)
      → normalise_msisdn is_digit is_space raw ≡ msisdn n
      → IsCanonical is_digit n × (national is_digit (some raw) ≡ some n)
  normalise_msisdn-national raw n h =
      let (given, e, l, m) = normalise_msisdn-stripped raw n h in
      let ds = keep_digits is_digit raw in
      let (k, d) = stripped-IsDrop ds in
      let same : n ≡ drop k ds = sym e ∙ d in
      let size : length ds - k ≡ 10 = sym (length-drop k ds) ∙ (sym (ap length same) ∙ l) in
      let count : k ≡ length ds - 10 = omega (arith, size) in
      (
        (l, m, rw same (all-drop is_digit k ds (keep_digits-all is_digit raw))),
        national-last is_digit raw n given (omega (arith, size))
            (sym (same ∙ ap (λ i. drop i ds) count)),
      )

  -- No number that is accepted as a farmer's is one of the service series.
  normalise_msisdn-service :
      (raw n : Text)
      → normalise_msisdn is_digit is_space raw ≡ msisdn n
      → is_service_number is_digit raw ≡ false
  unfolding is_service_number
  normalise_msisdn-service raw n h =
      let (given, e, l, m) = normalise_msisdn-stripped raw n h in
      let d = strip_country (strip_access (keep_digits is_digit raw)) in
      let head = no_service_head d (rw e m) in
      rw (head (codes "800"), head (codes "600"), head (codes "40")) refl
