-- ===== src/Phone/Direction.antt =====
-- Which way a call goes: apps/voice-worker/src/voice_worker/runtime/direction.py. The references
-- that the provider echoes are found by regular expressions in the start frame; they are given as
-- the identifiers found.
use uaagro_voice_agent.Prelude.{
  ℕ, ◌-◌, Bool, true, false, ◌&&◌, ◌||◌, not, Option, none, some, List, [], ◌∷◌, ◌++◌, length, drop,
  ltb, any, if◌then◌else◌, ◌==◌,
}
use uaagro_voice_agent.Phone.Defs.{Text, keep_digits}

-- An empty text is no number.
unfoldable pub national : (ℕ → Bool) → Option Text → Option Text
national is_digit none = none
national is_digit (some []) = none
national is_digit (some (c ∷ number)) =
    let digits = keep_digits is_digit (c ∷ number) in
    if ltb (length digits) 10 then none else some (drop (length digits - 10) digits)

abbrev pub same_text : Text → Text → Bool
same_text [] [] = true
same_text (c ∷ xs) (d ∷ ys) = c == d && same_text xs ys
same_text _ _ = false

pub record OurNumbers : Type 0 where
  pub inbound : List Text
  pub outbound : List Text

abbrev listed : Option Text → List Text
listed none = []
listed (some n) = n ∷ []

-- The three numbers of the settings, as far as they are numbers.
unfoldable pub from_settings : (ℕ → Bool) → Text → Text → Text → OurNumbers
from_settings is_digit inbound_did promotional transactional = record {
  inbound = listed (national is_digit (some inbound_did));
  outbound =
      listed (national is_digit (some promotional))
      ++ listed (national is_digit (some transactional));
}

unfoldable pub all_numbers : OurNumbers → List Text
all_numbers ours = ours.inbound ++ ours.outbound

unfoldable pub is_in : Option Text → List Text → Bool
is_in none numbers = false
is_in (some n) numbers = any (same_text n) numbers

pub data CallDirection : Type 0 where
  inbound_call outbound_call : CallDirection

pub record Metadata : Type 0 where
  pub from_number : Option Text
  pub to_number : Option Text
  pub contact_id : Option ℕ
  pub config_id : Option ℕ

pub record Direction : Type 0 where
  pub direction : CallDirection
  pub farmer_number : Option Text
  pub contact : Option ℕ
  pub config : Option ℕ

unfoldable pub is_given : Option ℕ → Bool
is_given none = false
is_given (some id) = true

abbrev pub no_numbers : OurNumbers
no_numbers = record { inbound = []; outbound = [] }

abbrev pub known : Option OurNumbers → OurNumbers
known none = no_numbers
known (some ours) = ours

unfoldable pub placed_by_us : (ℕ → Bool) → Metadata → OurNumbers → Bool
placed_by_us is_digit m ours =
    is_given m.contact_id
    || (is_given m.config_id
        || (is_in (national is_digit m.from_number) ours.outbound
            || is_in (national is_digit m.to_number) ours.outbound))

unfoldable pub farmer_of : (ℕ → Bool) → Metadata → OurNumbers → Option Text
farmer_of is_digit m ours =
    let from_is_ours = is_in (national is_digit m.from_number) (all_numbers ours) in
    let to_is_ours = is_in (national is_digit m.to_number) (all_numbers ours) in
    if from_is_ours && not to_is_ours then m.to_number else m.from_number

unfoldable pub classify_direction : (ℕ → Bool) → Metadata → Option OurNumbers → Direction
classify_direction is_digit m ours = record {
  direction = if placed_by_us is_digit m (known ours) then outbound_call else inbound_call;
  farmer_number = farmer_of is_digit m (known ours);
  contact = m.contact_id;
  config = m.config_id;
}
