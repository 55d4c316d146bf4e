-- ===== src/Wer/Optimal.antt =====
-- `align` reports the edits of a script that has as few as any.
use uaagro_voice_agent.Prelude.{
  ℕ, suc, ◌+◌, ◌≤◌, ◌≡◌, refl, Bool, List, [], ◌∷◌, ◌++◌, String, str_eq, string_eq, min, length,
  if◌then◌else◌, arith,
}
use uaagro_voice_agent.Wer.Defs.{
  Cell, cheapest, next_cell, deletions_only, insertions_only, errors, align, scored,
}
use uaagro_voice_agent.Wer.Cells.{cell, row_cell, rev_onto, align-cell}
use uaagro_voice_agent.Wer.Scripts.{
  Script, done, keep, substitute, delete, insert_word, rev, cell-Counts, align-Script,
}

next_cell_cost :
    (same : Bool) (a b c : Cell)
    → (next_cell same a b c).cost ≡ (if same then a.cost else suc (min (min a.cost b.cost) c.cost))
unfolding next_cell cheapest
next_cell_cost same a b c = ground arith

abbrev cost_of : List String → List String → ℕ
cost_of xs ys = (cell xs ys).cost

cost_left : (xs : List String) → cost_of xs [] ≡ length xs
unfolding cell row_cell deletions_only insertions_only
cost_left [] = refl
cost_left (x ∷ xs) = refl

cost_right : (ys : List String) → cost_of [] ys ≡ length ys
unfolding cell insertions_only
cost_right ys = refl

cost_step :
    (x y : String) (xs ys : List String)
    → cost_of (x ∷ xs) (y ∷ ys) ≡ (
        if str_eq x y
        then cost_of xs ys
        else suc (min (min (cost_of xs ys) (cost_of xs (y ∷ ys))) (cost_of (x ∷ xs) ys)))
unfolding cell row_cell
cost_step x y xs ys = next_cell_cost (str_eq x y) (cell xs ys) (cell xs (y ∷ ys)) (cell (x ∷ xs) ys)

-- A word more or less costs at most one edit.
more_left_from :
    (x : String) (xs ys : List String)
    → ((y : String) (zs : List String) → cost_of xs zs ≤ suc (cost_of xs (y ∷ zs)))
    → cost_of (x ∷ xs) ys ≤ suc (cost_of xs ys)
more_left_from x xs [] h = omega (arith, cost_left (x ∷ xs), cost_left xs)
more_left_from x xs (y ∷ ys) h = ground (arith, cost_step x y xs ys, h y ys)

fewer_right :
    (xs : List String) (y : String) (ys : List String) → cost_of xs ys ≤ suc (cost_of xs (y ∷ ys))
fewer_right [] y ys = omega (arith, cost_right ys, cost_right (y ∷ ys))
fewer_right (x ∷ xs) y ys =
    ground
      (arith, cost_step x y xs ys, more_left_from x xs ys (fewer_right xs), fewer_right xs y ys)

more_left : (x : String) (xs ys : List String) → cost_of (x ∷ xs) ys ≤ suc (cost_of xs ys)
more_left x xs ys = more_left_from x xs ys (fewer_right xs)

more_right_from :
    (y : String) (xs ys : List String)
    → ((x : String) (zs : List String) → cost_of zs ys ≤ suc (cost_of (x ∷ zs) ys))
    → cost_of xs (y ∷ ys) ≤ suc (cost_of xs ys)
more_right_from y [] ys h = omega (arith, cost_right ys, cost_right (y ∷ ys))
more_right_from y (x ∷ xs) ys h = ground (arith, cost_step x y xs ys, h x xs)

fewer_left :
    (ys : List String) (x : String) (xs : List String) → cost_of xs ys ≤ suc (cost_of (x ∷ xs) ys)
fewer_left [] x xs = omega (arith, cost_left (x ∷ xs), cost_left xs)
fewer_left (y ∷ ys) x xs =
    ground (arith, cost_step x y xs ys, more_right_from y xs ys (fewer_left ys), fewer_left ys x xs)

more_right : (y : String) (xs ys : List String) → cost_of xs (y ∷ ys) ≤ suc (cost_of xs ys)
more_right y xs ys = more_right_from y xs ys (fewer_left ys)

rev_onto-append :
    (xs acc : List String) (w : String) → rev_onto (xs ++ w ∷ []) acc ≡ w ∷ rev_onto xs acc
rev_onto-append [] acc w = refl
rev_onto-append (x ∷ xs) acc w = rev_onto-append xs (x ∷ acc) w

Script_cost :
    {xs ys : List String} {s d i : ℕ} (e : Script xs ys s d i)
    → cost_of (rev xs) (rev ys) ≤ s + d + i
Script_cost done = omega (arith, cost_left [])
Script_cost (keep {xs} {ys} w e) =
    rw (rev_onto-append xs [] w, rev_onto-append ys [] w)
      (ground
        (arith, cost_step w w (rev xs) (rev ys), (string_eq.beq_iff w w).1 refl, Script_cost e))
Script_cost (substitute {xs} {ys} v w e) =
    rw (rev_onto-append xs [] v, rev_onto-append ys [] w)
      (ground (arith, cost_step v w (rev xs) (rev ys), Script_cost e))
Script_cost (delete {xs} {ys} v e) =
    rw (rev_onto-append xs [] v) (omega (arith, more_left v (rev xs) (rev ys), Script_cost e))
Script_cost (insert_word {xs} {ys} w e) =
    rw (rev_onto-append ys [] w) (omega (arith, more_right w (rev xs) (rev ys), Script_cost e))

-- What `align` reports is an optimal alignment: its substitutions, deletions and insertions are
-- those of an edit script from the reference to the hypothesis, the errors are their sum, and no
-- other script has fewer edits.
pub errors-align :
    (ref hyp : List String) (s d i : ℕ)
    → Script ref hyp s d i
    → (let a = align ref hyp in
        Script ref hyp a.substitutions a.deletions a.insertions
        × (errors a ≡ a.substitutions + a.deletions + a.insertions))
      × (errors (align ref hyp) ≤ s + d + i)
unfolding errors scored
errors-align ref hyp s d i e = (
  (align-Script ref hyp, refl),
  rw (align-cell ref hyp) (omega (arith, (cell-Counts (rev ref) (rev hyp)).1, Script_cost e)),
)
