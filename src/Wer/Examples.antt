-- ===== src/Wer/Examples.antt =====
-- An utterance that was misheard.
use uaagro_voice_agent.Prelude.{◌+◌, ◌≤◌, ◌≡◌, refl, List, [], ◌∷◌, String}
use uaagro_voice_agent.Wer.Defs.{align, errors}
use uaagro_voice_agent.Wer.Scripts.{Script, done, keep, substitute, delete}
use uaagro_voice_agent.Wer.Optimal.{errors-align}

abbrev said : List String
said = "पाँच" ∷ "बोरी" ∷ "यूरिया" ∷ "चाहिए" ∷ []

abbrev understood : List String
understood = "पाँच" ∷ "बोरी" ∷ "डीएपी" ∷ []

misheard :
    align said understood
    ≡ record { substitutions = 1; deletions = 1; insertions = 0; reference_length = 4 }
unfolding align
misheard = refl

-- Replacing the last two words by one, and inserting and dropping one besides.
abbrev clumsy : Script said understood 2 1 0
clumsy = delete "चाहिए" (substitute "यूरिया" "डीएपी" (keep "बोरी" (substitute "पाँच" "पाँच" done)))

errors-align_example :
    (Script said understood 1 1 0 × (errors (align said understood) ≡ 1 + 1 + 0))
    × (errors (align said understood) ≤ 2 + 1 + 0)
unfolding align
errors-align_example = errors-align said understood 2 1 0 clumsy
