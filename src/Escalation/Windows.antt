-- ===== src/Escalation/Windows.antt =====
-- The rolling readings of the engine.
use uaagro_voice_agent.Prelude.{
  ℕ, ◌-◌, ◌≡◌, refl, sym, ap, ◌∙◌, Bool, Option, none, some, List, [], ◌∷◌, ◌++◌, arith, length,
  drop, length-append, length-drop, drop-append, drop-drop,
}
use mathlib.Core.Path.{subst}
use mathlib.Core.List.{append-nil, append_assoc}
use uaagro_voice_agent.Escalation.Engine.{
  Patterns, EscalationDecision, TurnSignals, EscalationEngine, record_signals, keep_last, noted,
  new_engine, evaluate, confidence_window, sentiment_window,
}

-- The decisions of a call's turns, in order, and the engine after them.
unfoldable pub evaluate_all :
    Patterns
    → List (TurnSignals × Bool)
    → EscalationEngine
    → List EscalationDecision × EscalationEngine
evaluate_all p [] e = ([], e)
evaluate_all p ((s, repeated) ∷ turns) e =
    let now = evaluate p s repeated e in
    let rest = evaluate_all p turns now.1 in (now.0 ∷ rest.0, rest.1)

abbrev pub with_reading : Option ℕ → List ℕ → List ℕ
with_reading none cs = cs
with_reading (some c) cs = c ∷ cs

-- The readings that the turns gave.
abbrev pub readings : (TurnSignals → Option ℕ) → List (TurnSignals × Bool) → List ℕ
readings of [] = []
readings of ((s, repeated) ∷ turns) = with_reading (of s) (readings of turns)

module _ {A : Type 0} where
  -- Cutting twice is cutting once.
  keep_last-append :
      (n : ℕ) (xs ys : List A) → keep_last n (keep_last n xs ++ ys) ≡ keep_last n (xs ++ ys)
  keep_last-append n xs ys =
      let m = length xs - n in
      ap (keep_last n) (sym (drop-append m xs ys (omega arith)))
      ∙ drop-drop m (length (drop m (xs ++ ys)) - n) (length (xs ++ ys) - n) (xs ++ ys)
          (omega (arith, length-drop m (xs ++ ys), length-append xs ys))

  -- A reading that comes before others.
  noted-append :
      (n : ℕ) (x : A) (xs ys : List A)
      → keep_last n (noted n (some x) xs ++ ys) ≡ keep_last n (xs ++ (x ∷ ys))
  noted-append n x xs ys =
      keep_last-append n (xs ++ (x ∷ [])) ys ∙ ap (keep_last n) (append_assoc xs (x ∷ []) ys)

  IsCut : ℕ → List A → Type 0
  IsCut n xs = keep_last n xs ≡ xs

  noted-IsCut : (n : ℕ) (x : Option A) (xs : List A) → IsCut n xs → IsCut n (noted n x xs)
  unfolding IsCut
  noted-IsCut n none xs h = h
  noted-IsCut n (some x) xs h =
      ap (keep_last n) (sym (append-nil (keep_last n (xs ++ (x ∷ [])))))
      ∙ (keep_last-append n (xs ++ (x ∷ [])) [] ∙ ap (keep_last n) (append-nil (xs ++ (x ∷ []))))

joined :
    (n : ℕ) (r : Option ℕ) (xs ys : List ℕ)
    → keep_last n (noted n r xs ++ ys) ≡ keep_last n (xs ++ with_reading r ys)
joined n none xs ys = refl
joined n (some c) xs ys = noted-append n c xs ys

evaluate_all-readings :
    (n : ℕ) (p : Patterns) (kept : EscalationEngine → List ℕ) (of : TurnSignals → Option ℕ)
    → ((s : TurnSignals) (e : EscalationEngine)
        → kept (record_signals s e) ≡ noted n (of s) (kept e))
    → (turns : List (TurnSignals × Bool)) (e : EscalationEngine) → IsCut n (kept e)
    → kept (evaluate_all p turns e).1 ≡ keep_last n (kept e ++ readings of turns)
unfolding evaluate_all evaluate IsCut
evaluate_all-readings n p kept of note [] e cut = sym (ap (keep_last n) (append-nil (kept e)) ∙ cut)
evaluate_all-readings n p kept of note ((s, repeated) ∷ turns) e cut =
    evaluate_all-readings n p kept of note turns (record_signals s e)
      (subst (IsCut n) (sym (note s e)) (noted-IsCut n (of s) (kept e) cut))
    ∙ (ap (λ xs. keep_last n (xs ++ readings of turns)) (note s e)
        ∙ joined n (of s) (kept e) (readings of turns))

-- After any turns of a call the engine averages over the last three confidences that were given, and
-- looks for a fall in the last three sentiments, however many turns gave none in between.
evaluate_all-windows :
    (p : Patterns) (turns : List (TurnSignals × Bool))
    → ((evaluate_all p turns new_engine).1.confidences
        ≡ keep_last 3 (readings (λ s. s.asr_confidence) turns))
      × ((evaluate_all p turns new_engine).1.sentiments
          ≡ keep_last 3 (readings (λ s. s.sentiment) turns))
unfolding record_signals IsCut
evaluate_all-windows p turns = (
  evaluate_all-readings confidence_window p (λ e. e.confidences) (λ s. s.asr_confidence)
      (λ s e. refl) turns new_engine refl,
  evaluate_all-readings sentiment_window p (λ e. e.sentiments) (λ s. s.sentiment) (λ s e. refl)
      turns new_engine refl,
)
