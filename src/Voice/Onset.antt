-- ===== src/Voice/Onset.antt =====
-- What an onset and a release need.
use uaagro_voice_agent.Prelude.{
  inr, inl, and_parts, leb→le, ◌&&◌, ◌↔◌, ltb, leb, ℕ, zero, suc, ◌+◌, ◌≤◌, ◌<◌, ◌≡◌, refl, Bool,
  true, false, Option, none, some, List, [], ◌∷◌, arith, Bool-cases, if_by, if◌then◌else◌, take,
  length, max,
}
use uaagro_voice_agent.Voice.Gate.{
  onset_moves, noted, VoiceEvent, speech_end, VoiceGate, change, note, observe, push, voiced_levels,
  track_floor, floor_min,
}

-- A frame as the gate takes it: the time, the verdict and the level.
abbrev pub Heard : Type 0
Heard = ℕ × Bool × ℕ

-- The gate's events over frames whose verdicts are given.
abbrev pub observe_all : List Heard → VoiceGate → List VoiceEvent × VoiceGate
observe_all [] g = ([], g)
observe_all ((now, voiced, level) ∷ frames) g =
    let one = observe now voiced level g in
    let rest = observe_all frames one.1 in (noted one.0 rest.0, rest.1)

abbrev pub one_if : Bool → ℕ
one_if true = 1
one_if false = 0

-- How many of the frames are voiced.
abbrev pub count_voiced : List Heard → ℕ
count_voiced [] = 0
count_voiced ((now, voiced, level) ∷ frames) = one_if voiced + count_voiced frames

voiced_levels-take :
    (n : ℕ) (recent : List (Bool × ℕ))
    → length (voiced_levels (take n recent)) ≤ length (voiced_levels recent)
unfolding voiced_levels
voiced_levels-take zero recent = omega arith
voiced_levels-take (suc n) [] = omega arith
voiced_levels-take (suc n) ((true, level) ∷ recent) = omega (arith, voiced_levels-take n recent)
voiced_levels-take (suc n) ((false, level) ∷ recent) = voiced_levels-take n recent

voiced_levels-push :
    (n : ℕ) (voiced : Bool) (level : ℕ) (recent : List (Bool × ℕ))
    → length (voiced_levels (push n (voiced, level) recent))
      ≤ one_if voiced + length (voiced_levels recent)
unfolding push voiced_levels
voiced_levels-push n true level recent =
    omega (arith, voiced_levels-take n ((true, level) ∷ recent))
voiced_levels-push n false level recent =
    omega (arith, voiced_levels-take n ((false, level) ∷ recent))

no_onset :
    (s : Bool) (g : VoiceGate)
    → s ≡ false
    → length (voiced_levels g.recent) < g.required
    → change s g ≡ (none, record g { speaking = false })
unfolding change
no_onset true g e few = absurd (ground arith)
no_onset false g e few =
    if_by (λ x. x ≡ (none, record g { speaking = false }))
      (leb g.required (length (voiced_levels g.recent)) && onset_moves g.recent) _ _
      (λ h. absurd (omega (arith, few, leb→le g.required _ (and_parts (leb g.required _) _ h).0)))
      (λ _. refl)

-- A sound of fewer voiced frames than an onset requires is no speech: of a gate that is not
-- speaking, if the voiced frames that it remembers and those that come are fewer than required
-- together, then no event is given, whatever lies between them.
observe_all-short :
    (frames : List Heard) (g : VoiceGate)
    → g.speaking ≡ false
    → length (voiced_levels g.recent) + count_voiced frames < g.required
    → (observe_all frames g).0 ≡ []
unfolding observe note noted
observe_all-short [] g s few = refl
observe_all-short ((now, voiced, level) ∷ frames) g s few =
    let pushed = voiced_levels-push g.window voiced level g.recent in
    rw (no_onset g.speaking (note now voiced level g) s (omega (arith, few, pushed))) (
      observe_all-short frames (record (note now voiced level g) { speaking = false }) refl
        (omega (arith, few, pushed)))

-- No run of quiet frames, counted on from those before, is as long as the release.
abbrev pub pauses_are_short : ℕ → ℕ → List Heard → Bool
pauses_are_short run release [] = true
pauses_are_short run release ((now, voiced, level) ∷ frames) =
    let next = if voiced then 0 else suc run in
    ltb next release && pauses_are_short next release frames

going_on :
    (s : Bool) (g : VoiceGate)
    → s ≡ true
    → ltb g.quiet_run g.release ≡ true
    → change s g ≡ (none, record g { speaking = true })
unfolding change
going_on false g e run = absurd (ground arith)
going_on true g e run =
    if_by (λ x. x ≡ (none, record g { speaking = true })) (leb g.release g.quiet_run) _ _
      (λ h. absurd (ground arith)) (λ _. refl)

released :
    (s : Bool) (g : VoiceGate)
    → s ≡ true
    → ltb g.quiet_run g.release ≡ false
    → (change s g).0 ≡ some speech_end
unfolding change
released false g e run = absurd (ground arith)
released true g e run =
    if_by (λ (x : Option VoiceEvent × VoiceGate). x.0 ≡ some speech_end) (leb g.release g.quiet_run)
      _ _ (λ _. refl) (λ h. absurd (ground arith))

-- Speech goes on through every pause that is shorter than the release, and ends with the first that
-- is not: of a gate that is speaking, frames give no event exactly if no run of quiet frames, counted
-- on from the gate's own, is as long as the release.
observe_all-pauses :
    (frames : List Heard) (g : VoiceGate)
    → g.speaking ≡ true
    → (observe_all frames g).0 ≡ [] ↔ pauses_are_short g.quiet_run g.release frames ≡ true
unfolding observe note noted
observe_all-pauses [] g s = (λ _. refl, λ _. refl)
observe_all-pauses ((now, voiced, level) ∷ frames) g s =
    let g1 : VoiceGate = note now voiced level g in
    elim (Bool-cases (ltb (if voiced then 0 else suc g.quiet_run) g.release)) [
      | inl e ↦
          rw (going_on g.speaking g1 s e, e)
            (observe_all-pauses frames (record g1 { speaking = true }) refl)
      | inr e ↦
          rw (released g.speaking g1 s e, e)
            (λ h. absurd (ground arith), λ h. absurd (ground arith))
    ]

-- The floor of a room, once it is not below its least, stays so, whatever frame is heard; it is
-- never above the frame's level, unless that is below the least, and it climbs by at most fifteen
-- hundredths of a decibel with a frame.
track_floor_bounds :
    (level floor : ℕ) (voiced : Bool)
    → floor_min ≤ floor
    → (floor_min ≤ track_floor level voiced floor)
      × (track_floor level voiced floor ≤ max level floor_min)
      × (track_floor level voiced floor ≤ floor + 15)
unfolding track_floor
track_floor_bounds level floor voiced low = (ground arith, ground arith, ground arith)
