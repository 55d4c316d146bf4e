-- ===== src/CallFlow/Graph.antt =====
-- The reachability search against the paths of the graph, and that no state is a dead end.
use uaagro_voice_agent.Prelude.{
  ℕ, zero, suc, ◌≡◌, refl, ◌↔◌, inl, inr, Bool, true, none, some, List, [], ◌∷◌, ◌++◌, sym, arith,
  ◌&&◌, all, All, All-append, contains, Bool-cases,
}
use mathlib.Core.Path.{subst}
use mathlib.Core.Bool.{false≢true}
use uaagro_voice_agent.CallFlow.States.{
  CallState, init, identify, screen, greet, lang_lock, discover, resolve, wrap, end, reject,
  escalate, transfer, callback, state_eq, terminal, transitions,
}
use uaagro_voice_agent.CallFlow.Defs.{
  explore, unseen, exploration_fuel, reachable_from, unreachable_terminals,
}

-- The paths of the graph.
pub data Reach (s : CallState) : CallState → Type 0 where
  here : Reach s s
  next : {t u : CallState} → Reach s t → contains u (transitions t) ≡ true → Reach s u

Reach-trans : {s t u : CallState} → Reach s t → Reach t u → Reach s u
Reach-trans p here = p
Reach-trans p (next q e) = next (Reach-trans p q) e

All-contains :
    (P : CallState → Type 0) (xs : List CallState) (x : CallState)
    → All P xs
    → contains x xs ≡ true
    → P x
All-contains P [] x h c = absurd (false≢true c)
All-contains P (y ∷ xs) x h c = elim (Bool-cases (state_eq.beq x y)) [
  | inl e ↦ subst P (sym ((state_eq.beq_iff x y).0 e)) h.0
  | inr e ↦ All-contains P xs x h.1 (rw e at c)
]

-- Every successor of a state is among its transitions.
All-transitions : (s : CallState) → All (λ u. contains u (transitions s) ≡ true) (transitions s)
unfolding transitions
All-transitions init = (refl, tt)
All-transitions identify = (refl, tt)
All-transitions screen = (refl, (refl, tt))
All-transitions greet = (refl, tt)
All-transitions lang_lock = (refl, (refl, tt))
All-transitions discover = (refl, (refl, (refl, tt)))
All-transitions resolve = (refl, (refl, (refl, tt)))
All-transitions wrap = (refl, (refl, tt))
All-transitions end = tt
All-transitions reject = tt
All-transitions escalate = (refl, (refl, tt))
All-transitions transfer = (refl, tt)
All-transitions callback = (refl, tt)

unseen-All : (P : CallState → Type 0) (seen xs : List CallState) → All P xs → All P (unseen seen xs)
unfolding unseen
unseen-All P seen [] h = tt
unseen-All P seen (x ∷ xs) h = elim (Bool-cases (contains x seen)) [
  | inl e ↦ rw e (unseen-All P seen xs h.1)
  | inr e ↦ rw e (h.0, unseen-All P seen xs h.1)
]

Reach-successors :
    (s t : CallState) (us : List CallState)
    → Reach s t
    → All (λ u. contains u (transitions t) ≡ true) us
    → All (Reach s) us
Reach-successors s t [] r h = tt
Reach-successors s t (u ∷ us) r h = (next r h.0, Reach-successors s t us r h.1)

of_some : (a b : List CallState) → some a ≡ some b → a ≡ b
of_some a b e = cc

explore_sound :
    (s : CallState) (fuel : ℕ) (seen frontier : List CallState) {found : List CallState}
    → All (Reach s) seen
    → All (Reach s) frontier
    → explore fuel seen frontier ≡ some found
    → All (Reach s) found
unfolding explore
explore_sound s zero seen [] {found} a b e = subst (All (Reach s)) (of_some seen found e) a
explore_sound s (suc fuel) seen [] {found} a b e = subst (All (Reach s)) (of_some seen found e) a
explore_sound s zero seen (t ∷ frontier) a b e = cc
explore_sound s (suc fuel) seen (t ∷ frontier) a b e = elim (Bool-cases (contains t seen)) [
  | inl old ↦ explore_sound s fuel seen frontier a b.1 (rw (old, explore) at e)
  | inr new ↦
      explore_sound s fuel (t ∷ seen) (unseen (t ∷ seen) (transitions t) ++ frontier) (b.0, a)
        (All-append (Reach s) (unseen (t ∷ seen) (transitions t)) frontier
          (unseen-All (Reach s) (t ∷ seen) (transitions t)
            (Reach-successors s t (transitions t) b.0 (All-transitions t)))
          b.1)
        (rw (new, explore) at e)
]

-- A set of states that holds the start and every successor of its members.
abbrev is_closed : CallState → List CallState → Bool
unfolding transitions
is_closed s found = contains s found && all (λ t. all (λ u. contains u found) (transitions t)) found

all-contains :
    (p : CallState → Bool) (xs : List CallState) (x : CallState)
    → all p xs ≡ true
    → contains x xs ≡ true
    → p x ≡ true
all-contains p [] x h c = cc
all-contains p (y ∷ xs) x h c = ground (arith, state_eq.beq_iff x y, all-contains p xs x)

Reach-closed :
    {s t : CallState} (found : List CallState)
    → contains s found ≡ true
    → all (λ t. all (λ u. contains u found) (transitions t)) found ≡ true
    → Reach s t
    → contains t found ≡ true
Reach-closed found c h here = c
Reach-closed found c h (next {t = t} {u = u} r e) =
    all-contains (λ u. contains u found) (transitions t) u
      (all-contains (λ t. all (λ u. contains u found) (transitions t)) found t h
        (Reach-closed found c h r))
      e

found_from : CallState → List CallState
unfolding reachable_from
found_from s = elim (reachable_from s) [ none ↦ [] | some found ↦ found ]

-- The fuel is enough from every state, and what is found is closed.
reachable_from-closed :
    (s : CallState)
    → (reachable_from s ≡ some (found_from s))
      × (contains s (found_from s) ≡ true)
      × (all (λ t. all (λ u. contains u (found_from s)) (transitions t)) (found_from s) ≡ true)
unfolding found_from transitions
reachable_from-closed init = (refl, refl, refl)
reachable_from-closed identify = (refl, refl, refl)
reachable_from-closed screen = (refl, refl, refl)
reachable_from-closed greet = (refl, refl, refl)
reachable_from-closed lang_lock = (refl, refl, refl)
reachable_from-closed discover = (refl, refl, refl)
reachable_from-closed resolve = (refl, refl, refl)
reachable_from-closed wrap = (refl, refl, refl)
reachable_from-closed end = (refl, refl, refl)
reachable_from-closed reject = (refl, refl, refl)
reachable_from-closed escalate = (refl, refl, refl)
reachable_from-closed transfer = (refl, refl, refl)
reachable_from-closed callback = (refl, refl, refl)

-- `_reachable_from` ends, and it finds exactly the states that a path of the graph leads to.
pub reachable_from_iff :
    (s t : CallState)
    → (found : List CallState) × (reachable_from s ≡ some found)
      × ((contains t found ≡ true) ↔ Reach s t)
unfolding reachable_from
reachable_from_iff s t =
    let (e, c, h) = reachable_from-closed s in
    (
      found_from s,
      e,
      (
        All-contains (Reach s) (found_from s) t
            (explore_sound s exploration_fuel [] (s ∷ []) tt (here, tt) e),
        Reach-closed (found_from s) c h,
      ),
    )

-- A way out of each state.
way_out : (s : CallState) → (u : CallState) × (contains u terminal ≡ true) × Reach s u
unfolding transitions
way_out end = (end, refl, here)
way_out reject = (reject, refl, here)
way_out transfer = (transfer, refl, here)
way_out callback = (callback, refl, here)
way_out wrap = (end, refl, next here refl)
way_out escalate = (callback, refl, next here refl)
way_out resolve = (end, refl, next {t = wrap} (next here refl) refl)
way_out discover = (end, refl, next {t = wrap} (next here refl) refl)
way_out lang_lock = (callback, refl, next {t = escalate} (next here refl) refl)
way_out greet =
    (callback, refl, next {t = escalate} (next {t = lang_lock} (next here refl) refl) refl)
way_out screen = (reject, refl, next here refl)
way_out identify = (reject, refl, next {t = screen} (next here refl) refl)
way_out init = (reject, refl, next {t = screen} (next {t = identify} (next here refl) refl) refl)

no_stuck_states : (start : CallState) → unreachable_terminals start ≡ some []
unfolding unreachable_terminals
no_stuck_states init = refl
no_stuck_states identify = refl
no_stuck_states screen = refl
no_stuck_states greet = refl
no_stuck_states lang_lock = refl
no_stuck_states discover = refl
no_stuck_states resolve = refl
no_stuck_states wrap = refl
no_stuck_states end = refl
no_stuck_states reject = refl
no_stuck_states escalate = refl
no_stuck_states transfer = refl
no_stuck_states callback = refl

-- Nothing dead-ends: from wherever a call can be, a path leads to a state where it may finish,
-- and `unreachable_terminals` says so, from every start.
no_dead_ends :
    (start t : CallState)
    → Reach start t
    → (unreachable_terminals start ≡ some [])
      × ((u : CallState) × (contains u terminal ≡ true) × Reach start u)
no_dead_ends start t r =
    let (u, last, out) = way_out t in (no_stuck_states start, (u, last, Reach-trans r out))

-- Where a call can be once it has been escalated.
abbrev pub handed_over : List CallState
handed_over = escalate ∷ transfer ∷ callback ∷ end ∷ []

-- An escalated call never returns to the conversation.
Reach-escalate : {t : CallState} → Reach escalate t → contains t handed_over ≡ true
unfolding transitions
Reach-escalate = Reach-closed handed_over refl refl
