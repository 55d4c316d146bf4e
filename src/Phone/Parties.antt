-- ===== src/Phone/Parties.antt =====
-- Who is the farmer of a call, however the provider reports the two numbers.
use uaagro_voice_agent.Prelude.{
  ℕ, ◌≡◌, refl, Bool, false, ◌||◌, not, Option, none, some, List, [], ◌∷◌, ◌++◌, arith, any,
  if◌then◌else◌, Bool-cases, inl, inr,
}
use uaagro_voice_agent.Phone.Defs.{Text}
use uaagro_voice_agent.Phone.Direction.{
  same_text, national, OurNumbers, all_numbers, is_in, Metadata, placed_by_us, farmer_of,
  classify_direction, is_given,
}

any-append : (p : Text → Bool) (xs ys : List Text) → any p (xs ++ ys) ≡ (any p xs || any p ys)
any-append p [] ys = refl
any-append p (x ∷ xs) ys = ground (arith, any-append p xs ys)

is_in-all :
    (n : Option Text) (ours : OurNumbers)
    → is_in n (all_numbers ours) ≡ (is_in n ours.inbound || is_in n ours.outbound)
unfolding is_in all_numbers
is_in-all none ours = refl
is_in-all (some n) ours = any-append (same_text n) ours.inbound ours.outbound

abbrev pub swapped : Metadata → Metadata
swapped m = record m { from_number = m.to_number; to_number = m.from_number }

or_swapped : (a b x y : Bool) → (a || (b || (y || x))) ≡ (a || (b || (x || y)))
or_swapped a b x y = ground arith

placed_by_us-swapped :
    (is_digit : ℕ → Bool) (m : Metadata) (ours : OurNumbers)
    → placed_by_us is_digit (swapped m) ours ≡ placed_by_us is_digit m ours
unfolding placed_by_us
placed_by_us-swapped is_digit m ours =
    or_swapped (is_given m.contact_id) (is_given m.config_id)
      (is_in (national is_digit m.from_number) ours.outbound)
      (is_in (national is_digit m.to_number) ours.outbound)

-- The farmer's number by which of the two is ours.
farmer_of-one :
    (is_digit : ℕ → Bool) (m : Metadata) (ours : OurNumbers)
    → is_in (national is_digit m.from_number) (all_numbers ours)
      ≡ not (is_in (national is_digit m.to_number) (all_numbers ours))
    → farmer_of is_digit m ours ≡ (
        if is_in (national is_digit m.to_number) (all_numbers ours)
        then m.from_number
        else m.to_number)
unfolding farmer_of
farmer_of-one is_digit m ours one =
    elim (Bool-cases (is_in (national is_digit m.to_number) (all_numbers ours))) [
      | inl e ↦ rw (one, e) refl
      | inr e ↦ rw (one, e) refl
    ]

-- Where exactly one of the two numbers is one of ours, the farmer's is the other, whichever way
-- round the provider reports them: the decision is the same with the two numbers exchanged, and the
-- farmer's number is none of ours.
classify_direction-swapped :
    (is_digit : ℕ → Bool) (m : Metadata) (ours : OurNumbers)
    → is_in (national is_digit m.from_number) (all_numbers ours)
      ≡ not (is_in (national is_digit m.to_number) (all_numbers ours))
    → (classify_direction is_digit (swapped m) (some ours)
        ≡ classify_direction is_digit m (some ours))
      × (is_in
            (national is_digit (classify_direction is_digit m (some ours)).farmer_number)
            (all_numbers ours)
          ≡ false)
unfolding classify_direction
classify_direction-swapped is_digit m ours one =
    let mine = farmer_of-one is_digit m ours one in
    let other = farmer_of-one is_digit (swapped m) ours (ground (arith, one)) in
    rw (mine, other, placed_by_us-swapped is_digit m ours)
      (elim (Bool-cases (is_in (national is_digit m.to_number) (all_numbers ours))) [
        | inl e ↦ rw (one, e, one, e) (refl, refl)
        | inr e ↦ rw (one, e) (refl, e)
      ])
