-- ===== src/Validator/Kept.antt =====
-- A number that is read in a text does not fold to nothing.
use uaagro_voice_agent.Prelude.{
  ℕ, ◌≡◌, ◌≢◌, ◌==◌, if_by, Option, none, some, sym, ap, ◌∙◌, refl, true, false, List, [], ◌∷◌, map,
  string_eq, arith,
}
use mathlib.Core.Path.{subst}
use uaagro_voice_agent.Validator.Figures.{
  fold, stripped, to_ascii, without_commas, strip_left, strip_right, unless_dot, partition,
  is_zeros, drop_zeros,
}
use uaagro_voice_agent.Validator.Readings.{starts}

-- What a digit begins folds to some sign at least.
IsKept : List ℕ → Type 0
IsKept cs = (c : ℕ) × (rest : List ℕ) × (cs ≡ c ∷ rest)

unless_dot-digit : (c : ℕ) (cs : List ℕ) → (c == 46) ≡ false → unless_dot c cs ≡ c ∷ cs
unless_dot-digit c [] h = ground (arith, h)
unless_dot-digit c (d ∷ cs) h = refl

to_ascii-digit :
    (c : ℕ) → starts c ≡ true → ((to_ascii c == 44) ≡ false) × ((to_ascii c == 46) ≡ false)
unfolding to_ascii
to_ascii-digit c h = (ground (arith, h), ground (arith, h))

without_commas-cons :
    (d : ℕ) (cs : List ℕ) → (d == 44) ≡ false → without_commas (d ∷ cs) ≡ d ∷ without_commas cs
unfolding without_commas
without_commas-cons d cs h = ground (arith, h)

strip_left-cons : (d : ℕ) (cs : List ℕ) → (d == 46) ≡ false → strip_left (d ∷ cs) ≡ d ∷ cs
unfolding strip_left
strip_left-cons d cs h = ground (arith, h)

partition-cons :
    (d : ℕ) (cs : List ℕ) → (d == 46) ≡ false → (partition (d ∷ cs)).0 ≡ d ∷ (partition cs).0
unfolding partition
partition-cons d cs h = ground (arith, h)

stripped-digit :
    (c : ℕ) (run : List ℕ)
    → starts c ≡ true
    → (rest : List ℕ) × (stripped (c ∷ run) ≡ to_ascii c ∷ rest) × ((to_ascii c == 46) ≡ false)
unfolding stripped strip_right
stripped-digit c run h =
    let (no_comma, no_dot) = to_ascii-digit c h in
    let cs = without_commas (map to_ascii run) in
    (
      strip_right cs,
      ap (λ l. strip_right (strip_left l))
            (without_commas-cons (to_ascii c) (map to_ascii run) no_comma)
          ∙ (ap strip_right (strip_left-cons (to_ascii c) cs no_dot)
              ∙ unless_dot-digit (to_ascii c) (strip_right cs) no_dot),
      no_dot,
    )

drop_zeros-IsKept :
    (c : ℕ) (rest : List ℕ) (parts : List ℕ × Option (List ℕ))
    → IsKept parts.0
    → IsKept (drop_zeros (c ∷ rest) parts)
unfolding drop_zeros IsKept
drop_zeros-IsKept c rest (whole, none) kept = (c, rest, refl)
drop_zeros-IsKept c rest (whole, some frac) kept =
    if_by IsKept (is_zeros frac) whole (c ∷ rest) (λ _. kept) (λ _. (c, rest, refl))

pub fold-digit : (c : ℕ) (run : List ℕ) → starts c ≡ true → fold (c ∷ run) ≢ []
unfolding fold IsKept
fold-digit c run h =
    let (rest, e, no_dot) = stripped-digit c run h in
    let (d, more, kept) =
      subst (λ l. IsKept (drop_zeros l (partition l))) (sym e)
        (drop_zeros-IsKept (to_ascii c) rest (partition (to_ascii c ∷ rest))
          (to_ascii c, (partition rest).0, partition-cons (to_ascii c) rest no_dot)) in
    λ none_left. absurd (ground (arith, sym kept ∙ none_left))
