-- ===== src/Wer/Scripts.antt =====
-- What `align` reports are the edits of a script.
use uaagro_voice_agent.Prelude.{
  ℕ, suc, ◌+◌, ◌≡◌, ◌∙◌, sym, ap, refl, List, [], ◌∷◌, ◌++◌, String, str_eq, string_eq, min, length,
  ◌==◌, arith, Bool-cases, inl, inr,
}
use mathlib.Core.Path.{subst}
use mathlib.Core.List.{append_assoc, append-nil}
use uaagro_voice_agent.Wer.Defs.{
  Cell, cheapest, next_cell, deletions_only, insertions_only, align, scored,
}
use uaagro_voice_agent.Wer.Cells.{cell, row_cell, rev_onto, align-cell}

-- A way to edit a reference into a hypothesis word by word, with its substitutions, deletions
-- and insertions.
pub data Script : List String → List String → ℕ → ℕ → ℕ → Type 0 where
  done : Script [] [] 0 0 0
  keep :
      {xs ys : List String} {s d i : ℕ} (w : String)
      → Script xs ys s d i
      → Script (xs ++ w ∷ []) (ys ++ w ∷ []) s d i
  substitute :
      {xs ys : List String} {s d i : ℕ} (v w : String)
      → Script xs ys s d i
      → Script (xs ++ v ∷ []) (ys ++ w ∷ []) (suc s) d i
  delete :
      {xs ys : List String} {s d i : ℕ} (v : String)
      → Script xs ys s d i
      → Script (xs ++ v ∷ []) ys s (suc d) i
  insert_word :
      {xs ys : List String} {s d i : ℕ} (w : String)
      → Script xs ys s d i
      → Script xs (ys ++ w ∷ []) s d (suc i)

abbrev pub rev : List String → List String
rev xs = rev_onto xs []

rev-cons : (x : String) (xs : List String) → rev (x ∷ xs) ≡ rev xs ++ x ∷ []
rev-cons x xs = onto xs (x ∷ [])
  where
    onto : (xs acc : List String) → rev_onto xs acc ≡ rev xs ++ acc
    onto [] acc = refl
    onto (x ∷ xs) acc =
        onto xs (x ∷ acc)
        ∙ (sym (append_assoc (rev xs) (x ∷ []) acc) ∙ ap (λ l. l ++ acc) (sym (onto xs (x ∷ []))))

rev-rev : (xs acc b : List String) → rev_onto (rev_onto xs acc) b ≡ rev_onto acc (xs ++ b)
rev-rev [] acc b = refl
rev-rev (x ∷ xs) acc b = rev-rev xs (x ∷ acc) b

-- A cell that counts the edits of a script.
abbrev pub Counts : List String → List String → Cell → Type 0
Counts xs ys c = Script xs ys c.subs c.dels c.ins × (c.cost ≡ c.subs + c.dels + c.ins)

cheapest-Counts :
    {xs ys : List String} (v w : String) (a b c : Cell)
    → Counts xs ys a
    → Counts xs (ys ++ w ∷ []) b
    → Counts (xs ++ v ∷ []) ys c
    → Counts (xs ++ v ∷ []) (ys ++ w ∷ []) (cheapest a b c)
unfolding cheapest
cheapest-Counts v w a b c (ea, na) (eb, nb) (ec, nc) =
    let best = min (min a.cost b.cost) c.cost in
    elim (Bool-cases (best == a.cost)) [
      | inl e ↦ rw (e, cheapest) (substitute v w ea, ground arith)
      | inr e ↦ elim (Bool-cases (best == b.cost)) [
        | inl e' ↦ rw (e, e', cheapest) (delete v eb, ground arith)
        | inr e' ↦ rw (e, e', cheapest) (insert_word w ec, ground arith)
      ]
    ]

next-Counts :
    {xs ys : List String} (v w : String) (a b c : Cell)
    → Counts xs ys a
    → Counts xs (ys ++ w ∷ []) b
    → Counts (xs ++ v ∷ []) ys c
    → Counts (xs ++ v ∷ []) (ys ++ w ∷ []) (next_cell (str_eq v w) a b c)
unfolding next_cell
next-Counts {xs} {ys} v w a b c ha hb hc = elim (Bool-cases (str_eq v w)) [
  | inl e ↦
      rw (e, next_cell)
        (
          subst (λ z. Script (xs ++ v ∷ []) (ys ++ z ∷ []) a.subs a.dels a.ins)
              ((string_eq.beq_iff v w).0 e) (keep v ha.0),
          ha.1,
        )
  | inr e ↦ rw (e, next_cell) (cheapest-Counts v w a b c ha hb hc)
]

deletions-Counts : (xs : List String) → Counts (rev xs) [] (deletions_only (length xs))
unfolding deletions_only
deletions-Counts [] = (done, refl)
deletions-Counts (x ∷ xs) =
    let (e, n) = deletions-Counts xs in rw (rev-cons x xs) (delete x e, omega arith)

insertions-Counts : (ys : List String) → Counts [] (rev ys) (insertions_only (length ys))
unfolding insertions_only
insertions-Counts [] = (done, refl)
insertions-Counts (y ∷ ys) =
    let (e, n) = insertions-Counts ys in rw (rev-cons y ys) (insert_word y e, omega arith)

row-Counts :
    (x : String) (xs ys : List String)
    → ((zs : List String) → Counts (rev xs) (rev zs) (cell xs zs))
    → Counts (rev (x ∷ xs)) (rev ys) (cell (x ∷ xs) ys)
unfolding cell row_cell
row-Counts x xs [] h = deletions-Counts (x ∷ xs)
row-Counts x xs (y ∷ ys) h =
    rw (rev-cons x xs, rev-cons y ys)
      (next-Counts x y (cell xs ys) (cell xs (y ∷ ys)) (cell (x ∷ xs) ys) (h ys)
        (rw (← rev-cons y ys) (h (y ∷ ys))) (rw (← rev-cons x xs) (row-Counts x xs ys h)))

pub cell-Counts : (xs ys : List String) → Counts (rev xs) (rev ys) (cell xs ys)
unfolding cell
cell-Counts [] ys = insertions-Counts ys
cell-Counts (x ∷ xs) ys = row-Counts x xs ys (cell-Counts xs)

rev_involutive : (xs : List String) → rev (rev xs) ≡ xs
rev_involutive xs = rev-rev xs [] [] ∙ append-nil xs

-- The substitutions, deletions and insertions that `align` reports are those of an edit script
-- from the reference to the hypothesis.
pub align-Script :
    (ref hyp : List String)
    → let a = align ref hyp in Script ref hyp a.substitutions a.deletions a.insertions
unfolding scored
align-Script ref hyp =
    let c = cell (rev ref) (rev hyp) in
    rw (align-cell ref hyp) (
      subst (λ l. Script l hyp c.subs c.dels c.ins) (rev_involutive ref)
        (subst (λ l. Script (rev (rev ref)) l c.subs c.dels c.ins) (rev_involutive hyp)
          (cell-Counts (rev ref) (rev hyp)).0))
