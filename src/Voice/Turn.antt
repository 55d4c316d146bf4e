-- ===== src/Voice/Turn.antt =====
-- The silence detector of apps/voice-worker/src/voice_worker/turn/base.py. Silences are whole
-- milliseconds; the factors are tenths (14 for 1.4 and 8 for 0.8), so that a threshold is compared
-- in hundredths of a millisecond, exactly, where the code uses floats. `words`, a regular
-- expression's matches, is a parameter.
use uaagro_voice_agent.Prelude.{
  ℕ, ◌+◌, ◌*◌, Bool, true, false, List, [], ◌∷◌, String, string_eq, contains, last?, none, some,
  leb, if◌then◌else◌,
}

pub data TurnDecision : Type 0 where
  continue eager_end end : TurnDecision

pub record TurnState : Type 0 where
  pub silence : ℕ
  pub transcript : String
  pub slow_speaker : Bool
  pub recogniser_endpointed : Bool

pub record TurnResult : Type 0 where
  pub decision : TurnDecision
  pub reason : String

pub record Detector : Type 0 where
  pub stop : ℕ
  pub grace : ℕ
  pub slow_tenths : ℕ
  pub max_silence : ℕ

abbrev pub default_detector : Detector
default_detector = record { stop = 850; grace = 400; slow_tenths = 14; max_silence = 8000 }

abbrev pub trailing_particles : List String
trailing_particles =
    "और" ∷ "या" ∷ "तो" ∷ "लेकिन" ∷ "पर" ∷ "मगर" ∷ "क्योंकि" ∷ "अगर" ∷ "जब" ∷ "फिर" ∷ "इसलिए"
    ∷ "ताकि" ∷ "कि" ∷ "का" ∷ "की" ∷ "के" ∷ "को" ∷ "में" ∷ "से" ∷ "पे" ∷ "तक" ∷ "पास" ∷ "लिए"
    ∷ "वाला" ∷ "मतलब" ∷ "यानी" ∷ "जैसे" ∷ "वो" ∷ "वह" ∷ "ये" ∷ "यह" ∷ []

abbrev pub terminal_words : List String
terminal_words =
    "है" ∷ "हैं" ∷ "था" ∷ "थे" ∷ "थी" ∷ "चाहिए" ∷ "नहीं" ∷ "हाँ" ∷ "ठीक" ∷ "बस" ∷ "धन्यवाद" ∷ "जी"
    ∷ []

unfoldable pub last_word : (String → List String) → String → String
last_word words transcript = elim (last? (words transcript)) [ none ↦ "" | some w ↦ w ]

unfoldable pub ends_mid_sentence : (String → List String) → String → Bool
ends_mid_sentence words transcript = contains (last_word words transcript) trailing_particles

unfoldable pub ends_on_a_terminal_word : (String → List String) → String → Bool
ends_on_a_terminal_word words transcript = contains (last_word words transcript) terminal_words

-- A threshold in hundredths, by who speaks.
unfoldable pub slowed : Detector → Bool → ℕ → ℕ
slowed d slow threshold = if slow then threshold * d.slow_tenths * 10 else threshold * 100

-- The branch of a trailing particle.
unfoldable pub after_particle : Detector → TurnState → TurnResult
after_particle d s =
    if leb (slowed d s.slow_speaker (d.stop + d.grace)) (s.silence * 100)
    then record { decision = end; reason = "silence, extended for a trailing particle" }
    else record { decision = continue; reason = "trailing particle; still waiting" }

-- The branch in which silence alone decides, by whether the last word ends sentences.
unfoldable pub after_silence : Detector → Bool → TurnState → TurnResult
after_silence d true s =
    if leb (slowed d s.slow_speaker d.stop * 8) (s.silence * 1000)
    then record { decision = end; reason = "silence after a sentence-final word" }
    else record { decision = continue; reason = "still within the silence window" }
after_silence d false s =
    if leb (slowed d s.slow_speaker d.stop) (s.silence * 100)
    then record { decision = end; reason = "silence" }
    else record { decision = continue; reason = "still within the silence window" }

unfoldable pub evaluate : (String → List String) → Detector → TurnState → TurnResult
evaluate words d s =
    if leb d.max_silence s.silence
    then record { decision = end; reason = "backstop: maximum silence reached" }
    else if ends_mid_sentence words s.transcript
    then after_particle d s
    else if s.recogniser_endpointed
    then record { decision = end; reason = "recogniser endpointed the utterance" }
    else after_silence d (ends_on_a_terminal_word words s.transcript) s

-- DelegatedTurnDetector.evaluate
unfoldable pub evaluate_delegated : TurnState → TurnResult
evaluate_delegated s = record {
  decision = continue;
  reason = "recogniser emits its own end-of-turn events";
}
