-- ===== src/Voice/Examples.antt =====
-- A gate and a detector at work, and the theorems at inputs that meet their hypotheses.
use uaagro_voice_agent.Prelude.{
  ℕ, ◌*◌, ◌≡◌, refl, Bool, true, false, List, [], ◌∷◌, ◌++◌, String, replicate,
}
use uaagro_voice_agent.Voice.Gate.{VoiceGate, new_gate, feed, is_voice}
use uaagro_voice_agent.Voice.Onset.{Heard}
use uaagro_voice_agent.Voice.Feeding.{feed-append}
use uaagro_voice_agent.Voice.Turn.{
  slowed, after_particle, last_word, TurnState, default_detector, ends_mid_sentence, evaluate, end,
}

-- A frame is as loud as its first byte says, and pitched if it is not silent.
abbrev level_of : List ℕ → ℕ
level_of [] = 0
level_of (b ∷ frame) = b

abbrev judge : List ℕ → ℕ → ℕ → Bool
judge = is_voice (λ samples. true)

abbrev clock : ℕ → ℕ
clock n = 20 * n

abbrev audio : List ℕ
audio = replicate {A = ℕ} 700 15000

feed-append_example : feed level_of judge clock (audio ++ audio) [] new_gate ≡ (
    let first = feed level_of judge clock audio [] new_gate in
    let second = feed level_of judge clock audio first.residue first.gate in
    record second { events = first.events ++ second.events })
feed-append_example = feed-append level_of judge clock audio audio [] new_gate

-- Six voiced frames of a cough, and then nothing.
abbrev cough : List Heard
cough =
    (0, true, 15000)
    ∷ (20, true, 16000)
    ∷ (40, true, 15000)
    ∷ (60, true, 16000)
    ∷ (80, true, 15000)
    ∷ (100, true, 16000)
    ∷ (120, false, 12000)
    ∷ []

abbrev talking : VoiceGate
talking = record new_gate { speaking = true }

abbrev one_word : String → List String
one_word s = s ∷ []

abbrev trailing : TurnState
trailing = record {
  silence = 1300;
  transcript = "और";
  slow_speaker = false;
  recogniser_endpointed = false;
}

trailing-end : (evaluate one_word default_detector trailing).decision ≡ end
unfolding evaluate ends_mid_sentence last_word after_particle slowed
trailing-end = refl
