-- ===== src/Validator/Spelling.antt =====
-- A figure in either script, with commas and with a fraction of zeros, is one figure.
use uaagro_voice_agent.Prelude.{
  ℕ, ◌+◌, ltb, ◌==◌, ◌≡◌, ◌≢◌, refl, sym, ap, ◌∙◌, Bool, true, ◌||◌, List, [], ◌∷◌, ◌++◌, map, all,
  arith, and_parts, if◌then◌else◌,
}
use mathlib.Core.List.{append-nil}
use uaagro_voice_agent.Validator.Figures.{
  dot, comma, is_ascii_digit, is_digit, to_ascii, without_commas, strip_left, unless_dot,
  strip_right, partition, is_zeros, drop_zeros, stripped, fold,
}

-- A figure as it is written: digits of either script, and commas.
abbrev is_written : ℕ → Bool
is_written c = is_digit c || (c == comma)

-- A zero of either script.
abbrev is_zero : ℕ → Bool
is_zero c = (c == 48) || (c == 2_406)

-- Its digits in ASCII.
abbrev plain : List ℕ → List ℕ
plain cs = without_commas (map to_ascii cs)

-- The signs of a figure: a digit from 0 to 9 in a script, or a comma.
pub data Script : Type 0 where
  latin devanagari : Script

pub data Glyph : Type 0 where
  numeral : Script → ℕ → Glyph
  separator : Glyph

abbrev pub is_glyph : Glyph → Bool
is_glyph (numeral s d) = ltb d 10
is_glyph separator = true

-- Their code points: U+0030, U+0966 and what follows them, and U+002C.
abbrev pub code_of : Glyph → ℕ
code_of (numeral latin d) = 48 + d
code_of (numeral devanagari d) = 2_406 + d
code_of separator = 44

abbrev pub digits_of : List Glyph → List ℕ
digits_of [] = []
digits_of (numeral s d ∷ figure) = (48 + d) ∷ digits_of figure
digits_of (separator ∷ figure) = digits_of figure

plain-append : (xs ys : List ℕ) → plain (xs ++ ys) ≡ plain xs ++ plain ys
unfolding without_commas
plain-append [] ys = refl
plain-append (x ∷ xs) ys = ground (arith, plain-append xs ys)

plain-digits : (cs : List ℕ) → all is_written cs ≡ true → all is_ascii_digit (plain cs) ≡ true
unfolding without_commas to_ascii is_digit
plain-digits [] h = refl
plain-digits (c ∷ cs) h = ground (arith, plain-digits cs)

plain-zeros : (cs : List ℕ) → all is_zero cs ≡ true → is_zeros (plain cs) ≡ true
unfolding without_commas to_ascii
plain-zeros [] h = refl
plain-zeros (c ∷ cs) h = ground (arith, plain-zeros cs)

unless_dot-digit : (c : ℕ) (cs : List ℕ) → is_ascii_digit c ≡ true → unless_dot c cs ≡ c ∷ cs
unless_dot-digit c [] h = ground arith
unless_dot-digit c (d ∷ cs) h = refl

strip_right-append :
    (ds rest : List ℕ)
    → all is_ascii_digit ds ≡ true
    → strip_right (ds ++ rest) ≡ ds ++ strip_right rest
unfolding strip_right
strip_right-append [] rest h = refl
strip_right-append (d ∷ ds) rest h =
    let (digit, digits) = and_parts (is_ascii_digit d) (all is_ascii_digit ds) h in
    ap (unless_dot d) (strip_right-append ds rest digits)
    ∙ unless_dot-digit d (ds ++ strip_right rest) digit

partition-append :
    (ds rest : List ℕ)
    → all is_ascii_digit ds ≡ true
    → partition (ds ++ rest) ≡ (ds ++ (partition rest).0, (partition rest).1)
unfolding partition
partition-append [] rest h = refl
partition-append (d ∷ ds) rest h = ground (arith, partition-append ds rest)

zeros-digits : (zs : List ℕ) → is_zeros zs ≡ true → all is_ascii_digit zs ≡ true
zeros-digits [] h = refl
zeros-digits (z ∷ zs) h = ground (arith, zeros-digits zs)

strip_left-digits :
    (ds rest : List ℕ)
    → ds ≢ []
    → all is_ascii_digit ds ≡ true
    → strip_left (ds ++ rest) ≡ ds ++ rest
unfolding strip_left
strip_left-digits [] rest some_digit h = absurd (some_digit refl)
strip_left-digits (d ∷ ds) rest some_digit h = ground arith

fold-plain :
    (number ds rest : List ℕ)
    → plain number ≡ ds ++ rest
    → ds ≢ []
    → all is_ascii_digit ds ≡ true
    → fold number
      ≡ drop_zeros
          (ds ++ strip_right rest)
          (ds ++ (partition (strip_right rest)).0, (partition (strip_right rest)).1)
unfolding fold stripped
fold-plain number ds rest e some_digit h =
    let inner =
      ap strip_right (ap strip_left e ∙ strip_left-digits ds rest some_digit h)
      ∙ strip_right-append ds rest h in
    ap (λ s. drop_zeros s (partition s)) inner
    ∙ ap (drop_zeros (ds ++ strip_right rest)) (partition-append ds (strip_right rest) h)

zeros_kept : (zs : List ℕ) → is_zeros zs ≡ true → strip_right zs ≡ zs
unfolding strip_right
zeros_kept zs h =
    ap strip_right (sym (append-nil zs))
    ∙ (strip_right-append zs [] (zeros-digits zs h) ∙ append-nil zs)

fraction :
    (ds zs : List ℕ)
    → is_zeros zs ≡ true
    → drop_zeros
        (ds ++ strip_right (dot ∷ zs))
        (ds ++ (partition (strip_right (dot ∷ zs))).0, (partition (strip_right (dot ∷ zs))).1)
      ≡ ds
unfolding drop_zeros strip_right partition
fraction ds [] h = append-nil ds
fraction ds (z ∷ zs) h =
    ap (λ s. drop_zeros (ds ++ s) (ds ++ (partition s).0, (partition s).1))
      (ap (unless_dot dot) (zeros_kept (z ∷ zs) h))
    ∙ (ap (λ b. if b then ds ++ [] else ds ++ (dot ∷ z ∷ zs)) h ∙ append-nil ds)

folded :
    (written zeros : List ℕ)
    → all is_written written ≡ true
    → plain written ≢ []
    → all is_zero zeros ≡ true
    → (fold written ≡ plain written) × (fold (written ++ (dot ∷ zeros)) ≡ plain written)
unfolding strip_right partition drop_zeros without_commas to_ascii
folded written zeros w some_digit z =
    let digits = plain-digits written w in
    (
      fold-plain written (plain written) [] (sym (append-nil (plain written))) some_digit digits
          ∙ append-nil (plain written),
      fold-plain (written ++ (dot ∷ zeros)) (plain written) (dot ∷ plain zeros)
            (plain-append written (dot ∷ zeros)) some_digit digits
          ∙ fraction (plain written) (plain zeros) (plain-zeros zeros z),
    )

written-plain :
    (figure : List Glyph)
    → all is_glyph figure ≡ true
    → (all is_written (map code_of figure) ≡ true) × (plain (map code_of figure) ≡ digits_of figure)
unfolding without_commas to_ascii is_digit
written-plain [] h = (refl, refl)
written-plain (numeral latin d ∷ figure) h = ground (arith, h, written-plain figure)
written-plain (numeral devanagari d ∷ figure) h = ground (arith, h, written-plain figure)
written-plain (separator ∷ figure) h = written-plain figure h

zeros_written : (zeros : List Script) → all is_zero (map (λ s. code_of (numeral s 0)) zeros) ≡ true
zeros_written [] = refl
zeros_written (latin ∷ zeros) = zeros_written zeros
zeros_written (devanagari ∷ zeros) = zeros_written zeros

-- A figure is the same however it is spelled: each of its digits written in either script, with
-- commas wherever they stand, and whether a dot and any zeros of either script follow or not, it
-- folds to its digits in ASCII, 48 for the digit 0. It has a digit.
pub fold-spelling :
    (figure : List Glyph) (zeros : List Script)
    → all is_glyph figure ≡ true
    → digits_of figure ≢ []
    → (fold (map code_of figure) ≡ digits_of figure)
      × (fold (map code_of figure ++ (dot ∷ map (λ s. code_of (numeral s 0)) zeros))
          ≡ digits_of figure)
unfolding strip_right partition drop_zeros without_commas to_ascii
fold-spelling figure zeros w some_digit =
    let (written, same) = written-plain figure w in
    let (one, other) =
      folded (map code_of figure) (map (λ s. code_of (numeral s 0)) zeros) written
        (λ none. some_digit (sym same ∙ none)) (zeros_written zeros) in
    (one ∙ same, other ∙ same)
