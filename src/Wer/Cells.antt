-- ===== src/Wer/Cells.antt =====
-- The cells of the table, by recursion on the words read so far, the latest first; and that the
-- rows hold them.
use uaagro_voice_agent.Prelude.{
  ℕ, suc, ◌≡◌, ◌∙◌, ap, refl, some, List, [], ◌∷◌, String, str_eq, length, last?,
}
use uaagro_voice_agent.Wer.Defs.{
  Cell, next_cell, fill_cells, deletions_only, insertions_only, next_row, fill_rows, first_row,
  align, scored,
}

-- One row of the table below `above`, whose first cell is after `n` words of the reference.
unfoldable pub row_cell : String → (List String → Cell) → ℕ → List String → Cell
row_cell x above n [] = deletions_only n
row_cell x above n (y ∷ ys) =
    next_cell (str_eq x y) (above ys) (above (y ∷ ys)) (row_cell x above n ys)

unfoldable pub cell : List String → List String → Cell
cell [] ys = insertions_only (length ys)
cell (x ∷ xs) ys = row_cell x (cell xs) (suc (length xs)) ys

abbrev row_of : (List String → Cell) → List String → List String → List Cell
row_of f read [] = f read ∷ []
row_of f read (h ∷ hyp) = f read ∷ row_of f (h ∷ read) hyp

abbrev pub rev_onto : List String → List String → List String
rev_onto [] acc = acc
rev_onto (x ∷ xs) acc = rev_onto xs (x ∷ acc)

fill_cells-row_of :
    (word : String) (f : List String → Cell) (n : ℕ) (hyp read : List String)
    → row_cell word f n read ∷ fill_cells word hyp (row_of f read hyp) (row_cell word f n read)
      ≡ row_of (row_cell word f n) read hyp
unfolding fill_cells row_cell
fill_cells-row_of word f n [] read = refl
fill_cells-row_of word f n (h ∷ []) read = refl
fill_cells-row_of word f n (h ∷ k ∷ hyp) read =
    ap (◌∷◌ (row_cell word f n read)) (fill_cells-row_of word f n (k ∷ hyp) (h ∷ read))

fill_rows-row_of :
    (ref hyp read : List String)
    → fill_rows (suc (length read)) ref hyp (row_of (cell read) [] hyp)
      ≡ row_of (cell (rev_onto ref read)) [] hyp
unfolding fill_rows next_row cell row_cell
fill_rows-row_of [] hyp read = refl
fill_rows-row_of (word ∷ ref) hyp read =
    ap (fill_rows (suc (suc (length read))) ref hyp)
      (fill_cells-row_of word (cell read) (suc (length read)) hyp [])
    ∙ fill_rows-row_of ref hyp (word ∷ read)

first_row-row_of :
    (hyp read : List String) → first_row (length read) hyp ≡ row_of (cell []) read hyp
unfolding first_row cell
first_row-row_of [] read = refl
first_row-row_of (h ∷ hyp) read =
    ap (◌∷◌ (insertions_only (length read))) (first_row-row_of hyp (h ∷ read))

last-row_of :
    (f : List String → Cell) (hyp read : List String)
    → last? (row_of f read hyp) ≡ some (f (rev_onto hyp read))
last-row_of f [] read = refl
last-row_of f (h ∷ []) read = refl
last-row_of f (h ∷ k ∷ hyp) read = last-row_of f (k ∷ hyp) (h ∷ read)

-- What `align` reports is the last cell of the table.
pub align-cell :
    (ref hyp : List String)
    → align ref hyp ≡ scored (length ref) (some (cell (rev_onto ref []) (rev_onto hyp [])))
unfolding align
align-cell ref hyp = ap (scored (length ref)) (
    ap (λ row. last? (fill_rows 1 ref hyp row)) (first_row-row_of hyp [])
    ∙ (ap last? (fill_rows-row_of ref hyp []) ∙ last-row_of (cell (rev_onto ref [])) hyp []))
