-- ===== src/Voice/Events.antt =====
-- The events of the gate take turns.
use uaagro_voice_agent.Prelude.{
  ◌&&◌, length, leb, ℕ, zero, suc, ◌≡◌, refl, Bool, true, false, Option, List, [], ◌∷◌, if_by, take,
  drop,
}
use uaagro_voice_agent.Voice.Gate.{
  hear, onset_moves, voiced_levels, VoiceEvent, speech_start, speech_end, VoiceGate, change,
  observe, noted, judge_frame, judge_frames, frame_bytes,
}

-- Starts and ends in turn from a flag, to the flag after them.
abbrev pub takes_turns : Bool → List VoiceEvent → Bool → Bool
takes_turns true [] true = true
takes_turns false [] false = true
takes_turns false (speech_start ∷ events) last = takes_turns true events last
takes_turns true (speech_end ∷ events) last = takes_turns false events last
takes_turns _ _ _ = false

abbrev TakesTurns : Bool → List VoiceEvent → Bool → Option VoiceEvent × VoiceGate → Type 0
TakesTurns s events last step =
    takes_turns step.1.speaking events last ≡ true → takes_turns s (noted step.0 events) last ≡ true

change-TakesTurns :
    (s : Bool) (g : VoiceGate) (events : List VoiceEvent) (last : Bool)
    → TakesTurns s events last (change s g)
unfolding change noted
change-TakesTurns false g events last =
    if_by (TakesTurns false events last)
      (leb g.required (length (voiced_levels g.recent)) && onset_moves g.recent) _ _ (λ _ h. h)
      (λ _ h. h)
change-TakesTurns true g events last =
    if_by (TakesTurns true events last) (leb g.release g.quiet_run) _ _ (λ _ h. h) (λ _ h. h)

takes_no_turn : (s : Bool) → takes_turns s [] s ≡ true
takes_no_turn true = refl
takes_no_turn false = refl

module _ (level_of : List ℕ → ℕ) (judge : List ℕ → ℕ → ℕ → Bool) (clock : ℕ → ℕ) where
  -- Whatever is heard: the events of any number of frames are starts and ends of speech in turn, the
  -- first a start unless the gate was speaking, and the gate speaks afterwards exactly if the last of
  -- them was a start, or if there was none and it spoke before.
  judge_frames-takes_turns :
      (n : ℕ) (buffer : List ℕ) (g : VoiceGate)
      → takes_turns g.speaking
          (judge_frames level_of judge clock n buffer g).0
          (judge_frames level_of judge clock n buffer g).1.speaking
        ≡ true
  unfolding judge_frames judge_frame observe change hear
  judge_frames-takes_turns zero buffer g = takes_no_turn g.speaking
  judge_frames-takes_turns (suc n) buffer g =
      let one = judge_frame level_of judge clock (take frame_bytes buffer) g in
      let rest = judge_frames level_of judge clock n (drop frame_bytes buffer) one.1 in
      change-TakesTurns g.speaking _ rest.0 rest.1.speaking
        (judge_frames-takes_turns n (drop frame_bytes buffer) one.1)
