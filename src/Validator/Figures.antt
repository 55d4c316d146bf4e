-- ===== src/Validator/Figures.antt =====
-- The numbers of a text: `_NUMBER` and `_fold` of
-- apps/voice-worker/src/voice_worker/flow/validator.py, on code points.
use uaagro_voice_agent.Prelude.{
  ℕ, ◌-◌, ◌==◌, leb, Bool, true, false, ◌&&◌, ◌||◌, Option, none, some, List, [], ◌∷◌, ◌++◌, map,
  all, if◌then◌else◌,
}

abbrev pub dot : ℕ
dot = 46

abbrev pub comma : ℕ
comma = 44

abbrev pub is_ascii_digit : ℕ → Bool
is_ascii_digit c = leb 48 c && leb c 57

-- From ० to ९.
abbrev pub is_devanagari_digit : ℕ → Bool
is_devanagari_digit c = leb 2_406 c && leb c 2_415

unfoldable pub is_digit : ℕ → Bool
is_digit c = is_ascii_digit c || is_devanagari_digit c

unfoldable pub is_in_number : ℕ → Bool
is_in_number c = is_digit c || (c == comma) || (c == dot)

-- `_NUMBER.finditer`: the matches, given the one that is being read.
unfoldable pub numbers_from : Option (List ℕ) → List ℕ → List (List ℕ)
numbers_from none [] = []
numbers_from none (c ∷ cs) = elim (is_digit c) [
  | true ↦ numbers_from (some (c ∷ [])) cs
  | false ↦ numbers_from none cs
]
numbers_from (some read) [] = read ∷ []
numbers_from (some read) (c ∷ cs) = elim (is_in_number c) [
  | true ↦ numbers_from (some (read ++ (c ∷ []))) cs
  | false ↦ read ∷ numbers_from none cs
]

abbrev pub numbers : List ℕ → List (List ℕ)
numbers cs = numbers_from none cs

-- `translate`
unfoldable pub to_ascii : ℕ → ℕ
to_ascii c = if is_devanagari_digit c then c - 2_358 else c

-- `.replace(",", "")`
unfoldable pub without_commas : List ℕ → List ℕ
without_commas [] = []
without_commas (c ∷ cs) = if c == comma then without_commas cs else c ∷ without_commas cs

-- `.strip(".")`, at the left and at the right.
unfoldable pub strip_left : List ℕ → List ℕ
strip_left [] = []
strip_left (c ∷ cs) = if c == dot then strip_left cs else c ∷ cs

abbrev pub unless_dot : ℕ → List ℕ → List ℕ
unless_dot c [] = if c == dot then [] else c ∷ []
unless_dot c (d ∷ cs) = c ∷ d ∷ cs

unfoldable pub strip_right : List ℕ → List ℕ
strip_right [] = []
strip_right (c ∷ cs) = unless_dot c (strip_right cs)

-- `.partition(".")`: what stands before the first dot, and after it, where there is one.
unfoldable pub partition : List ℕ → List ℕ × Option (List ℕ)
partition [] = ([], none)
partition (c ∷ cs) =
    let rest = partition cs in if c == dot then ([], some cs) else (c ∷ rest.0, rest.1)

-- `frac.strip("0") == ""`
abbrev pub is_zeros : List ℕ → Bool
is_zeros cs = all (λ c. c == 48) cs

unfoldable pub drop_zeros : List ℕ → List ℕ × Option (List ℕ) → List ℕ
drop_zeros plain (whole, none) = plain
drop_zeros plain (whole, some frac) = if is_zeros frac then whole else plain

unfoldable pub stripped : List ℕ → List ℕ
stripped number = strip_right (strip_left (without_commas (map to_ascii number)))

unfoldable pub fold : List ℕ → List ℕ
fold number = drop_zeros (stripped number) (partition (stripped number))
