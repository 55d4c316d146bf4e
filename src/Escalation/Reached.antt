-- ===== src/Escalation/Reached.antt =====
-- Whom the transfer tool reaches.
use uaagro_voice_agent.Prelude.{
  ℕ, ◌≡◌, refl, sym, ap, ◌∙◌, Bool, true, false, ◌&&◌, not, Option, none, some, ◌⊎◌, inl, inr, List,
  [], ◌∷◌, ◌++◌, string_eq, arith, leb, if◌then◌else◌, contains, Bool-cases, all, and_both,
}
use mathlib.Core.Path.{subst}
use uaagro_voice_agent.CallFlow.{intent_eq}
use uaagro_voice_agent.Escalation.Reasons.{TransferReason, reason_eq, TransferUrgency}
use uaagro_voice_agent.Escalation.Transfer.{
  TransferTarget, Centre, Desk, daily_cap_reached, centre_closed, chain_exhausted, Transferred,
  transfer, commit_callback, not_found, is_open, chain, first_free, ring, overrides, run_at, run,
  urgency_of,
}

-- A target is free if its number is on no transferred call.
abbrev pub is_busy : Desk → TransferTarget → Bool
is_busy desk target = contains target.number desk.busy

-- A target of the chain that is free, while those before it are busy.
abbrev pub IsFirstFree : Desk → TransferTarget → List TransferTarget → Type 0
IsFirstFree desk target targets =
    (before after : List TransferTarget) × (targets ≡ before ++ (target ∷ after))
    × (all (is_busy desk) before ≡ true)
    × (is_busy desk target ≡ false)

pub first_free-some :
    (desk : Desk) (targets : List TransferTarget) (t : TransferTarget)
    → first_free desk.busy targets ≡ some t
    → IsFirstFree desk t targets
unfolding first_free
first_free-some desk [] t e = absurd (ground arith)
first_free-some desk (u ∷ targets) t e = elim (Bool-cases (is_busy desk u)) [
  | inl busy ↦
      let (before, after, split, all_busy, free) =
        first_free-some desk targets t
          (sym (ap (λ b. if b then first_free desk.busy targets else some u) busy) ∙ e) in
      (u ∷ before, after, ap (λ l. u ∷ l) split, and_both _ _ busy all_busy, free)
  | inr free ↦
      let found = sym (ap (λ b. if b then first_free desk.busy targets else some u) free) ∙ e in
      ([], targets, ground (arith, found), refl, ground (arith, found))
]

pub first_free-none :
    (desk : Desk) (targets : List TransferTarget)
    → first_free desk.busy targets ≡ none
    → all (is_busy desk) targets ≡ true
unfolding first_free
first_free-none desk [] e = refl
first_free-none desk (u ∷ targets) e = elim (Bool-cases (is_busy desk u)) [
  | inl busy ↦ and_both (is_busy desk u) (all (is_busy desk) targets) busy (
      first_free-none desk targets
        (sym (ap (λ b. if b then first_free desk.busy targets else some u) busy) ∙ e))
  | inr free ↦
      absurd (
        ground (arith, sym (ap (λ b. if b then first_free desk.busy targets else some u) free) ∙ e))
]

-- What each result says of the centre, the day and the chain.
abbrev pub Explains : Desk → Centre → ℕ → ℕ → Bool → Transferred → Type 0
Explains desk centre weekday time override (transfer reason urgency target) =
    ((override ≡ true) ⊎ ((leb 3 desk.used ≡ false) × (is_open centre weekday time ≡ true)))
    × IsFirstFree desk target (chain desk centre)
Explains desk centre weekday time override (commit_callback reason urgency daily_cap_reached c) =
    (override ≡ false) × (leb 3 desk.used ≡ true)
Explains desk centre weekday time override (commit_callback reason urgency centre_closed c) =
    (override ≡ false) × (leb 3 desk.used ≡ false) × (is_open centre weekday time ≡ false)
Explains desk centre weekday time override (commit_callback reason urgency chain_exhausted c) =
    ((override ≡ true) ⊎ ((leb 3 desk.used ≡ false) × (is_open centre weekday time ≡ true)))
    × (all (is_busy desk) (chain desk centre) ≡ true)
Explains desk centre weekday time override not_found = true ≡ false

ring-Explains :
    (desk : Desk) (centre : Centre) (weekday time : ℕ) (override : Bool) (reason : TransferReason)
    (urgency : TransferUrgency) (found : Option TransferTarget)
    → first_free desk.busy (chain desk centre) ≡ found
    → (override ≡ true) ⊎ ((leb 3 desk.used ≡ false) × (is_open centre weekday time ≡ true))
    → Explains desk centre weekday time override (ring reason urgency centre found)
unfolding ring
ring-Explains desk centre weekday time override reason urgency none e allowed =
    (allowed, first_free-none desk (chain desk centre) e)
ring-Explains desk centre weekday time override reason urgency (some t) e allowed =
    (allowed, first_free-some desk (chain desk centre) t e)

pub guarded :
    (cap override open_now : Bool) (x y z : Transferred) (P : Transferred → Type 0)
    → (override ≡ false → cap ≡ true → P x)
    → (override ≡ false → cap ≡ false → open_now ≡ false → P y)
    → ((override ≡ true) ⊎ ((cap ≡ false) × (open_now ≡ true)) → P z)
    → P (if cap && not override then x else if not open_now && not override then y else z)
guarded true true false x y z P f g h = h (inl refl)
guarded true true true x y z P f g h = h (inl refl)
guarded true false open_now x y z P f g h = f refl refl
guarded false true false x y z P f g h = h (inl refl)
guarded false true true x y z P f g h = h (inl refl)
guarded false false false x y z P f g h = g refl refl refl
guarded false false true x y z P f g h = h (inr (refl, refl))

-- Where the centre of a call is known, the transfer tool's result tells why: a caller is connected
-- to the first rung of the chain that is not busy, within the daily cap and the centre's hours or
-- for a reason or an urgency that overrides both; otherwise the callback names the cap, the hours,
-- or a chain whose every rung is busy, and that is what held it up. What overrides the cap and the
-- hours does not override a busy rung.
pub run-Explains :
    (desk : Desk) (centre : Centre) (reason : TransferReason) (urgency : Option TransferUrgency)
    (weekday time : ℕ)
    → desk.centre ≡ some centre
    → Explains desk centre weekday time
        (overrides reason (urgency_of reason urgency))
        (run desk reason urgency weekday time)
unfolding run run_at
run-Explains desk centre reason urgency weekday time known =
    let u = urgency_of reason urgency in
    subst
      (λ c.
        Explains desk centre weekday time (overrides reason u)
          (run_at desk reason u weekday time c))
      (sym known)
      (guarded (leb 3 desk.used) (overrides reason u) (is_open centre weekday time) _ _ _
        (Explains desk centre weekday time (overrides reason u)) (λ o cap. (o, cap))
        (λ o cap closed. (o, cap, closed))
        (λ allowed.
          ring-Explains desk centre weekday time (overrides reason u) reason u
            (first_free desk.busy (chain desk centre)) refl allowed))
