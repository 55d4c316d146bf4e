-- ===== src/CallFlow/Moves.antt =====
-- What the history of a call can be, whatever moves are asked of it.
use mathlib.Core.Path.{subst}
use uaagro_voice_agent.Prelude.{
  ◌≡◌, ◌↔◌, refl, ◌⊎◌, inl, inr, Bool, true, false, Option, List, [], ◌∷◌, ◌++◌, arith, contains,
  String, Bool-cases,
}
use uaagro_voice_agent.CallFlow.States.{
  CallState, state_eq, init, escalate, transfer, callback, transitions, reject,
}
use uaagro_voice_agent.CallFlow.Defs.{
  CallFlow, Move, moved, invalid_transition, can, to, outcome_for, transferred, resolved, new_call,
}

-- The states after `s` are a path of the graph that ends at `t`.
abbrev pub IsPath : CallState → List CallState → CallState → Type 0
IsPath s [] t = s ≡ t
IsPath s (u ∷ rest) t = (contains u (transitions s) ≡ true) × IsPath u rest t

IsPath-snoc :
    (s : CallState) (rest : List CallState) (t u : CallState)
    → IsPath s rest t
    → contains u (transitions t) ≡ true
    → IsPath s (rest ++ u ∷ []) u
IsPath-snoc s [] t u p e = (rw p e, refl)
IsPath-snoc s (x ∷ rest) t u p e = (p.0, IsPath-snoc x rest t u p.1 e)

-- The history begins at INIT and is a path to the state that the call is in.
abbrev IsTraced : CallFlow → Type 0
IsTraced f = (rest : List CallState) × (f.history ≡ init ∷ rest) × IsPath init rest f.state

-- The flow after the move, or as it was when the move raised.
abbrev pub flow_after : CallFlow → Move → CallFlow
flow_after f (moved f') = f'
flow_after f (invalid_transition _ _) = f

unfoldable pub attempt_all : List (CallState × Option String) → CallFlow → CallFlow
attempt_all [] f = f
attempt_all ((target, reason) ∷ rest) f = attempt_all rest (flow_after f (to target reason f))

to-IsTraced :
    (target : CallState) (reason : Option String) (f : CallFlow)
    → IsTraced f
    → IsTraced (flow_after f (to target reason f))
unfolding to can
to-IsTraced target reason f (rest, e, p) =
    elim (Bool-cases (contains target (transitions f.state))) [
      | inl ok ↦ rw ok (rest ++ target ∷ [], rw e, IsPath-snoc init rest f.state target p ok)
      | inr bad ↦ rw bad (rest, e, p)
    ]

-- Whatever moves are asked for, allowed or not, a recorded history that is a path of the graph
-- from INIT to the state that the call is in remains one: a refused move leaves no trace.
attempt_all-IsTraced :
    (attempts : List (CallState × Option String)) (f : CallFlow)
    → IsTraced f
    → IsTraced (attempt_all attempts f)
unfolding attempt_all
attempt_all-IsTraced [] f h = h
attempt_all-IsTraced ((target, reason) ∷ rest) f h =
    attempt_all-IsTraced rest (flow_after f (to target reason f)) (to-IsTraced target reason f h)

-- The only edge into TRANSFER comes from ESCALATE.
into_transfer : (s : CallState) → contains transfer (transitions s) ≡ true → s ≡ escalate
unfolding transitions
into_transfer s h = ground arith

IsPath-transfer :
    (s : CallState) (rest : List CallState)
    → IsPath s rest transfer
    → (s ≡ transfer) ⊎ (contains escalate (s ∷ rest) ≡ true)
IsPath-transfer s [] p = inl p
IsPath-transfer s (u ∷ rest) p = elim (IsPath-transfer u rest p.1) [
  | inl e ↦ inr (rw (into_transfer s (subst (λ x. contains x (transitions s) ≡ true) e p.0)))
  | inr c ↦ inr (ground arith)
]

-- No call is transferred without having been escalated: of a new call, whatever moves are asked
-- for, if it ends in TRANSFER then ESCALATE stands in its history.
attempt_all-transfer :
    (attempts : List (CallState × Option String))
    → (attempt_all attempts new_call).state ≡ transfer
    → contains escalate (attempt_all attempts new_call).history ≡ true
attempt_all-transfer attempts e =
    let (rest, h, p) = attempt_all-IsTraced attempts new_call ([], refl, refl) in
    elim (IsPath-transfer init rest (subst (IsPath init rest) e p)) [
      | inl same ↦ absurd (ground arith)
      | inr c ↦ rw h c
    ]

-- The disposition agrees with the state: a call is recorded as transferred exactly when it is in
-- TRANSFER, and as resolved exactly when it was resolved and was neither transferred, left to a
-- callback nor rejected.
outcome_for-agrees :
    (s : CallState) (done : Bool)
    → ((outcome_for s done ≡ transferred) ↔ (s ≡ transfer))
      × ((outcome_for s done ≡ resolved)
          ↔ ((done ≡ true) × (contains s (transfer ∷ callback ∷ reject ∷ []) ≡ false)))
unfolding outcome_for
outcome_for-agrees s done =
    ((λ h. ground arith, λ h. ground arith), (λ h. ground arith, λ h. ground arith))
