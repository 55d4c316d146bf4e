-- ===== src/Phone/Examples.antt =====
-- Numbers that are normalised, and the theorems at inputs that meet their hypotheses.
use uaagro_voice_agent.Prelude.{ℕ, ◌≡◌, refl, Bool, ◌&&◌, ◌++◌, codes, leb, ◌==◌, arith}
use uaagro_voice_agent.Phone.Defs.{
  strip_access, strip_country, strip_trunk, checked, keep_digits, normalise_digits, is_mobile, Text,
  msisdn, normalise_msisdn, e164,
}
use uaagro_voice_agent.Phone.Digits.{IsCanonical, IsAscii}
use uaagro_voice_agent.Phone.Canonical.{normalise_msisdn-forms}

abbrev ascii_digit : ℕ → Bool
ascii_digit c = leb 48 c && leb c 57

abbrev blank : ℕ → Bool
blank c = c == 32

ascii : IsAscii ascii_digit blank
ascii = record {
  zero_digit = refl;
  one_digit = refl;
  nine_digit = refl;
  plus_no_digit = refl;
  digit_no_space = λ c h. ground arith;
}

abbrev farmer : Text
farmer = codes "9876543210"

abbrev written : Text
written = codes "+91 98765 43210"

farmer-IsCanonical : IsCanonical ascii_digit farmer
unfolding is_mobile
farmer-IsCanonical = (refl, refl, refl)

normalise_msisdn-forms_example :
    (normalise_msisdn ascii_digit blank farmer ≡ msisdn farmer)
    × (normalise_msisdn ascii_digit blank (codes "0" ++ farmer) ≡ msisdn farmer)
    × (normalise_msisdn ascii_digit blank (codes "91" ++ farmer) ≡ msisdn farmer)
    × (normalise_msisdn ascii_digit blank (codes "0091" ++ farmer) ≡ msisdn farmer)
    × (normalise_msisdn ascii_digit blank (e164 farmer) ≡ msisdn farmer)
normalise_msisdn-forms_example =
    normalise_msisdn-forms ascii_digit blank ascii farmer farmer-IsCanonical

normalise_msisdn-written : normalise_msisdn ascii_digit blank written ≡ msisdn farmer
unfolding normalise_msisdn normalise_digits keep_digits checked strip_trunk strip_country
    strip_access is_mobile
normalise_msisdn-written = refl
