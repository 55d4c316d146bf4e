-- ===== src/Phone/Defs.antt =====
-- Normalisation of Indian numbers: packages/domain/src/uaagro_domain/phone.py. A text is the list
-- of its code points. What `\d` and `str.strip` take for a digit and for white space are parameters.
use uaagro_voice_agent.Prelude.{
  ℕ, ◌-◌, Bool, true, false, ◌&&◌, not, Option, none, some, List, [], ◌∷◌, ◌++◌, length, drop,
  replicate, all, any, codes, ltb, leb, ◌==◌, if◌then◌else◌,
}

abbrev pub Text : Type 0
Text = List ℕ

-- `re.sub` of everything that is no digit by nothing.
unfoldable pub keep_digits : (ℕ → Bool) → Text → Text
keep_digits is_digit [] = []
keep_digits is_digit (c ∷ text) =
    let rest = keep_digits is_digit text in if is_digit c then c ∷ rest else rest

abbrev pub starts_with : Text → Text → Bool
starts_with [] text = true
starts_with (c ∷ prefix) [] = false
starts_with (c ∷ prefix) (d ∷ text) = c == d && starts_with prefix text

abbrev pub country_code : Text
country_code = codes "91"

-- The three prefixes, in the order in which the code takes them off.
unfoldable pub strip_access : Text → Text
strip_access digits = if starts_with (codes "00") digits then drop 2 digits else digits

unfoldable pub strip_country : Text → Text
strip_country digits =
    if ltb 10 (length digits) && starts_with country_code digits then drop 2 digits else digits

unfoldable pub strip_trunk : Text → Text
strip_trunk digits =
    if length digits == 11 && starts_with (codes "0") digits then drop 1 digits else digits

-- `^[6-9]\d{9}$` on ten digits.
unfoldable pub is_mobile : Text → Bool
is_mobile [] = false
is_mobile (c ∷ digits) = leb 54 c && leb c 57

pub data InvalidReason : Type 0 where
  empty no_digits bad_series : InvalidReason
  bad_length : ℕ → InvalidReason

pub data Normalised : Type 0 where
  invalid : InvalidReason → Normalised
  msisdn : Text → Normalised

-- The checks on the digits once the prefixes are off.
unfoldable pub checked : Text → Normalised
checked digits =
    if not (length digits == 10)
    then invalid (bad_length (length digits))
    else if is_mobile digits
    then msisdn digits
    else invalid bad_series

unfoldable pub normalise_digits : Text → Normalised
normalise_digits [] = invalid no_digits
normalise_digits (c ∷ digits) = checked (strip_trunk (strip_country (strip_access (c ∷ digits))))

unfoldable pub normalise_msisdn : (ℕ → Bool) → (ℕ → Bool) → Text → Normalised
normalise_msisdn is_digit is_space raw =
    if all is_space raw then invalid empty else normalise_digits (keep_digits is_digit raw)

unfoldable pub try_normalise_msisdn : (ℕ → Bool) → (ℕ → Bool) → Text → Option Text
try_normalise_msisdn is_digit is_space raw = elim (normalise_msisdn is_digit is_space raw) [
  | invalid reason ↦ none
  | msisdn national ↦ some national
]

unfoldable pub e164 : Text → Text
e164 national = codes "+" ++ (country_code ++ national)

unfoldable pub last4 : Text → Text
last4 national = drop (length national - 4) national

abbrev pub service_prefixes : List Text
service_prefixes = codes "1800" ∷ codes "1600" ∷ codes "140" ∷ []

unfoldable pub is_service_number : (ℕ → Bool) → Text → Bool
is_service_number is_digit raw =
    any (λ p. starts_with p (strip_country (strip_access (keep_digits is_digit raw))))
      service_prefixes

unfoldable pub is_promotional_series : (ℕ → Bool) → Text → Text → Bool
is_promotional_series is_digit series raw =
    starts_with series (strip_country (strip_access (keep_digits is_digit raw)))

unfoldable pub redact_digits : Text → Text
redact_digits digits =
    if ltb (length digits) 4
    then replicate (length digits) 42
    else replicate (length digits - 4) 42 ++ drop (length digits - 4) digits

unfoldable pub redact : (ℕ → Bool) → Option Text → Text
redact is_digit none = redact_digits []
redact is_digit (some raw) = redact_digits (keep_digits is_digit raw)
