-- ===== src/Validator/Readings.antt =====
-- What the numbers of a text are, apart from how `_NUMBER` is matched.
use uaagro_voice_agent.Prelude.{
  ℕ, ◌≡◌, refl, sym, ap, ◌∙◌, ◌==◌, leb, Bool, true, false, ◌&&◌, ◌||◌, some, List, [], ◌∷◌, ◌++◌,
  all, arith, and_parts, and_both, Bool-cases, inl, inr,
}
use mathlib.Core.Path.{subst}
use mathlib.Core.List.{append_assoc, append-nil}
use uaagro_voice_agent.Validator.Figures.{is_digit, is_in_number, numbers_from, numbers}

-- A digit in ASCII or in Devanagari; and what may follow it, a comma and a dot included.
abbrev pub starts : ℕ → Bool
starts c = (leb 48 c && leb c 57) || (leb 2_406 c && leb c 2_415)

abbrev pub goes_on : ℕ → Bool
goes_on c = starts c || ((c == 44) || (c == 46))

-- A text that does not go on a number.
abbrev pub Stops : List ℕ → Type 0
Stops [] = Unit
Stops (c ∷ cs) = goes_on c ≡ false

-- The numbers of a text, from its left: each begins with a digit and goes on as long as it can.
pub data Reads : List ℕ → List (List ℕ) → Type 0 where
  over : Reads [] []
  skip :
      {cs : List ℕ} {ns : List (List ℕ)} (c : ℕ)
      → starts c ≡ false
      → Reads cs ns
      → Reads (c ∷ cs) ns
  figure :
      {ns : List (List ℕ)} (c : ℕ) (run rest : List ℕ)
      → starts c ≡ true
      → all goes_on run ≡ true
      → Stops rest
      → Reads rest ns
      → Reads (c ∷ (run ++ rest)) ((c ∷ run) ∷ ns)

starts_lem : (c : ℕ) → is_digit c ≡ starts c
unfolding is_digit
starts_lem c = refl

goes_on_lem : (c : ℕ) → is_in_number c ≡ goes_on c
unfolding is_in_number is_digit
goes_on_lem c = ground arith

-- A step of the search, outside of a number and within one.
numbers-digit :
    (c : ℕ) (cs : List ℕ) → starts c ≡ true → numbers (c ∷ cs) ≡ numbers_from (some (c ∷ [])) cs
unfolding numbers_from
numbers-digit c cs h =
    ap
      (λ (b : Bool). elim b as (λ x. List (List ℕ)) [
        | true ↦ numbers_from (some (c ∷ [])) cs
        | false ↦ numbers cs
      ])
      (starts_lem c ∙ h)

numbers-other : (c : ℕ) (cs : List ℕ) → starts c ≡ false → numbers (c ∷ cs) ≡ numbers cs
unfolding numbers_from
numbers-other c cs h =
    ap
      (λ (b : Bool). elim b as (λ x. List (List ℕ)) [
        | true ↦ numbers_from (some (c ∷ [])) cs
        | false ↦ numbers cs
      ])
      (starts_lem c ∙ h)

numbers_from-more :
    (read : List ℕ) (c : ℕ) (cs : List ℕ)
    → goes_on c ≡ true
    → numbers_from (some read) (c ∷ cs) ≡ numbers_from (some (read ++ (c ∷ []))) cs
unfolding numbers_from
numbers_from-more read c cs h =
    ap
      (λ (b : Bool). elim b as (λ x. List (List ℕ)) [
        | true ↦ numbers_from (some (read ++ (c ∷ []))) cs
        | false ↦ read ∷ numbers cs
      ])
      (goes_on_lem c ∙ h)

numbers_from-end :
    (read : List ℕ) (c : ℕ) (cs : List ℕ)
    → goes_on c ≡ false
    → numbers_from (some read) (c ∷ cs) ≡ read ∷ numbers cs
unfolding numbers_from
numbers_from-end read c cs h =
    ap
      (λ (b : Bool). elim b as (λ x. List (List ℕ)) [
        | true ↦ numbers_from (some (read ++ (c ∷ []))) cs
        | false ↦ read ∷ numbers cs
      ])
      (goes_on_lem c ∙ h)

numbers_from-Stops :
    (read rest : List ℕ) → Stops rest → numbers_from (some read) rest ≡ read ∷ numbers rest
unfolding numbers_from
numbers_from-Stops read [] h = refl
numbers_from-Stops read (c ∷ rest) h =
    numbers_from-end read c rest h
    ∙ ap (λ l. read ∷ l) (sym (numbers-other c rest (ground (arith, h))))

numbers_from-run :
    (read run rest : List ℕ)
    → all goes_on run ≡ true
    → Stops rest
    → numbers_from (some read) (run ++ rest) ≡ (read ++ run) ∷ numbers rest
numbers_from-run read [] rest h stop =
    numbers_from-Stops read rest stop ∙ ap (λ l. l ∷ numbers rest) (sym (append-nil read))
numbers_from-run read (c ∷ run) rest h stop =
    let (one, more) = and_parts (goes_on c) (all goes_on run) h in
    numbers_from-more read c (run ++ rest) one
    ∙ (numbers_from-run (read ++ (c ∷ [])) run rest more stop
        ∙ ap (λ l. l ∷ numbers rest) (append_assoc read (c ∷ []) run))

-- The code finds the numbers of a text.
pub Reads-numbers : {cs : List ℕ} {ns : List (List ℕ)} → Reads cs ns → numbers cs ≡ ns
unfolding numbers_from
Reads-numbers over = refl
Reads-numbers (skip {cs} c h more) = numbers-other c cs h ∙ Reads-numbers more
Reads-numbers (figure c run rest h hs stop more) =
    numbers-digit c (run ++ rest) h
    ∙ (numbers_from-run (c ∷ []) run rest hs stop ∙ ap (λ l. (c ∷ run) ∷ l) (Reads-numbers more))

abbrev Begun : List ℕ → Type 0
Begun cs =
    (run rest : List ℕ) × (ns : List (List ℕ)) × (cs ≡ run ++ rest)
    × (all goes_on run ≡ true)
    × Stops rest
    × Reads rest ns

-- Every text has numbers, from its beginning and from within a number.
reads_both : (cs : List ℕ) → ((ns : List (List ℕ)) × Reads cs ns) × Begun cs
reads_both [] = (([], over), ([], [], [], refl, refl, tt, over))
reads_both (c ∷ cs) =
    let ((ns, more), (run, rest, ms, e, hs, stop, later)) = reads_both cs in
    let here : (ns : List (List ℕ)) × Reads (c ∷ cs) ns = elim (Bool-cases (starts c)) [
      | inl h ↦ (
        (c ∷ run) ∷ ms,
        subst (λ l. Reads (c ∷ l) ((c ∷ run) ∷ ms)) (sym e) (figure c run rest h hs stop later),
      )
      | inr h ↦ (ns, skip c h more)
    ] in
    (
      here,
      elim (Bool-cases (goes_on c)) [
        | inl h ↦ (c ∷ run, rest, ms, ap (λ l. c ∷ l) e, and_both (goes_on c) _ h hs, stop, later)
        | inr h ↦ ([], c ∷ cs, here.0, refl, refl, h, here.1)
      ],
    )

pub numbers-Reads : (cs : List ℕ) → Reads cs (numbers cs)
numbers-Reads cs =
    let (ns, reads) = (reads_both cs).0 in subst (Reads cs) (sym (Reads-numbers reads)) reads
