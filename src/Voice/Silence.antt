-- ===== src/Voice/Silence.antt =====
-- When silence ends a turn.
use uaagro_voice_agent.Prelude.{
  ℕ, ◌+◌, ◌*◌, ◌≤◌, min, ◌≡◌, ◌↔◌, Bool, true, List, String, arith, if◌then◌else◌,
}
use uaagro_voice_agent.Voice.Turn.{
  end, TurnState, Detector, default_detector, ends_mid_sentence, ends_on_a_terminal_word, slowed,
  after_particle, after_silence, evaluate,
}

-- The silence that a turn needs to be over, in thousandths of a millisecond: that of its case, and
-- never more than the backstop.
abbrev pub needed : (String → List String) → Detector → TurnState → ℕ
needed words d s = min (d.max_silence * 1000) (
    if ends_mid_sentence words s.transcript
    then slowed d s.slow_speaker (d.stop + d.grace) * 10
    else if s.recogniser_endpointed
    then 0
    else slowed d s.slow_speaker d.stop
      * (if ends_on_a_terminal_word words s.transcript then 8 else 10))

-- A turn is over exactly when its silence has reached what its last word, its speaker and its
-- recogniser call for, or the backstop if that comes first; so a longer silence never undoes an
-- end, and none outlasts the backstop.
evaluate_iff :
    (words : String → List String) (d : Detector) (s : TurnState)
    → (evaluate words d s).decision ≡ end ↔ needed words d s ≤ s.silence * 1000
unfolding evaluate after_particle after_silence
evaluate_iff words d s = (λ h. ground arith, λ h. ground arith)

-- Of the thresholds of the code: words that trail off on a particle never end a turn sooner. If a
-- transcript that does ends the turn after some silence, then so does any other transcript after
-- the same silence, from the same speaker.
evaluate-particle :
    (words : String → List String) (s : TurnState) (other : String) (endpointed : Bool)
    → ends_mid_sentence words s.transcript ≡ true
    → (evaluate words default_detector s).decision ≡ end
    → (evaluate words default_detector
        (record s { transcript = other; recogniser_endpointed = endpointed })).decision
      ≡ end
unfolding slowed
evaluate-particle words s other endpointed p h =
    let o : TurnState = record s { transcript = other; recogniser_endpointed = endpointed } in
    let waited = (evaluate_iff words default_detector s).0 h in
    (evaluate_iff words default_detector o).1 (ground arith)
