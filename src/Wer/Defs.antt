-- ===== src/Wer/Defs.antt =====
-- `align` on the words that `tokenise` gives, row by row as it goes, and the totals by condition.
-- The Unicode normalisation before it is not the repository's.
use uaagro_voice_agent.Prelude.{
  ℕ, suc, ◌+◌, Bool, Option, none, some, List, [], ◌∷◌, String, str_eq, min, length, last?,
  if◌then◌else◌, ◌==◌, string_eq,
}

pub record Alignment : Type 0 where
  pub substitutions : ℕ
  pub deletions : ℕ
  pub insertions : ℕ
  pub reference_length : ℕ

unfoldable pub errors : Alignment → ℕ
errors a = a.substitutions + a.deletions + a.insertions

-- (cost, substitutions, deletions, insertions)
pub record Cell : Type 0 where
  pub cost : ℕ
  pub subs : ℕ
  pub dels : ℕ
  pub ins : ℕ

-- The three ways into a cell where the words differ; the first that costs least is taken.
unfoldable pub cheapest : Cell → Cell → Cell → Cell
cheapest sub del ins =
    let best = min (min sub.cost del.cost) ins.cost in
    if best == sub.cost
    then record sub { cost = suc best; subs = suc sub.subs }
    else if best == del.cost
    then record del { cost = suc best; dels = suc del.dels }
    else record ins { cost = suc best; ins = suc ins.ins }

unfoldable pub next_cell : Bool → Cell → Cell → Cell → Cell
unfolding cheapest
next_cell same diagonal above left = if same then diagonal else cheapest diagonal above left

-- The loop over the hypothesis: `previous[j - 1]` and `previous[j]` head the rest of the row
-- above. A row is one cell longer than the hypothesis.
unfoldable pub fill_cells : String → List String → List Cell → Cell → List Cell
unfolding next_cell
fill_cells word [] above left = []
fill_cells word (h ∷ hyp) [] left = []
fill_cells word (h ∷ hyp) (diagonal ∷ []) left = []
fill_cells word (h ∷ hyp) (diagonal ∷ above ∷ rest) left =
    let cell = next_cell (str_eq word h) diagonal above left in
    cell ∷ fill_cells word hyp (above ∷ rest) cell

unfoldable pub deletions_only : ℕ → Cell
deletions_only i = record { cost = i; subs = 0; dels = i; ins = 0 }

unfoldable pub insertions_only : ℕ → Cell
insertions_only j = record { cost = j; subs = 0; dels = 0; ins = j }

unfoldable pub next_row : ℕ → String → List String → List Cell → List Cell
unfolding fill_cells deletions_only
next_row i word hyp previous = deletions_only i ∷ fill_cells word hyp previous (deletions_only i)

unfoldable pub fill_rows : ℕ → List String → List String → List Cell → List Cell
unfolding next_row
fill_rows i [] hyp previous = previous
fill_rows i (word ∷ ref) hyp previous = fill_rows (suc i) ref hyp (next_row i word hyp previous)

unfoldable pub first_row : ℕ → List String → List Cell
unfolding insertions_only
first_row j [] = insertions_only j ∷ []
first_row j (h ∷ hyp) = insertions_only j ∷ first_row (suc j) hyp

unfoldable pub scored : ℕ → Option Cell → Alignment
scored n none = record { substitutions = 0; deletions = 0; insertions = 0; reference_length = n }
scored n (some c) = record {
  substitutions = c.subs;
  deletions = c.dels;
  insertions = c.ins;
  reference_length = n;
}

unfoldable pub align : List String → List String → Alignment
unfolding fill_rows first_row scored
align ref hyp = scored (length ref) (last? (fill_rows 1 ref hyp (first_row 0 hyp)))
