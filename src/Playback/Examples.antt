-- ===== src/Playback/Examples.antt =====
-- Short utterances, and the theorems at inputs that meet their hypotheses.
use uaagro_voice_agent.Prelude.{
  ℕ, ◌+◌, ◌≡◌, refl, false, some, List, [], ◌∷◌, ◌++◌, String, replicate,
}
use uaagro_voice_agent.Playback.Tracker.{Bytes, iter_frames, spoken_text, full_text}
use uaagro_voice_agent.Playback.Defs.{
  PacedSender, flush, Sending, playing, playing_chunk, flushing, send_all, BargeInPolicy,
  may_interrupt, cut, handle_barge_in,
}
use uaagro_voice_agent.Playback.Framing.{concat}
use uaagro_voice_agent.Playback.Streaming.{play_chunks, play_chunks-flush}
use uaagro_voice_agent.Playback.Heard.{handle_barge_in_lem}

-- Two sentences of 200 ms, of which 260 ms have been sent.
abbrev speaking : PacedSender
speaking = record {
  tracker = record {
    segments =
        record { text = "नमस्ते" ∷ "किसान" ∷ []; audio_bytes = 3_200; end_offset = 3_200 }
        ∷ record {
          text = "यूरिया" ∷ "का" ∷ "दाम" ∷ "सुनिए" ∷ [];
          audio_bytes = 3_200;
          end_offset = 6_400;
        }
        ∷ [];
    bytes_sent = 5_760;
  };
  cancelled = false;
  residue = [];
  sent = [];
}

-- 1600 of the second sentence's 3200 bytes were heard: two of its four words.
heard : spoken_text 60 speaking.tracker ≡ "नमस्ते" ∷ "किसान" ∷ "यूरिया" ∷ "का" ∷ []
unfolding spoken_text
heard = refl

abbrev idle : BargeInPolicy
idle = record { suppression_ms = 600; protecting_disclosure = false; protected_since = some 0 }

abbrev tone : ℕ → ℕ → Bytes
tone n sample = replicate n sample

play_chunks-flush_example :
    let chunks = tone 100 1 ∷ tone 300 2 ∷ tone 7 3 ∷ [] in
    let s' = (flush [] (play_chunks chunks speaking)).1 in
    (s'.sent ≡ iter_frames (concat chunks)) × (s'.residue ≡ [])
play_chunks-flush_example =
    play_chunks-flush (tone 100 1 ∷ tone 300 2 ∷ tone 7 3 ∷ []) speaking refl refl

-- The synthesiser goes on with a chunk, and another answer is played.
abbrev chunk : Sending
chunk = playing_chunk (tone 320 4) []

abbrev answer : Sending
answer = playing ("जी" ∷ []) (tone 320 5) []

handle_barge_in_lem_example :
    let (result, s', w') =
      handle_barge_in (λ w. w + 1) (λ w. w + 10) (chunk ∷ []) 2_000 idle speaking 0 in
    ((spoken : List String) × (result ≡ cut spoken)
      × (rest : List String) × (full_text s'.tracker.segments ≡ spoken ++ rest))
    × (w' ≡ 11)
    × (s'.sent ≡ [])
    × ((send_all (flushing [] ∷ answer ∷ chunk ∷ []) s').sent ≡ [])
unfolding may_interrupt
handle_barge_in_lem_example =
    handle_barge_in_lem (λ w. w + 1) (λ w. w + 10) (chunk ∷ []) (flushing [] ∷ answer ∷ chunk ∷ [])
      2_000 idle speaking 0 refl
