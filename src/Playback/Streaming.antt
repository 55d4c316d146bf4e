-- ===== src/Playback/Streaming.antt =====
-- What a stream of chunks sends.
use uaagro_voice_agent.Prelude.{
  ℕ, ◌+◌, ◌*◌, ◌/◌, ◌≡◌, ◌∙◌, sym, ap, refl, false, List, [], ◌∷◌, ◌++◌, leb, length, take, drop,
  length-take, length-append, take-append-drop, arith, Bool-cases, inl, inr,
}
use mathlib.Core.List.{append_assoc, append-nil}
use uaagro_voice_agent.Playback.Tracker.{Bytes, iter_frames, grow, frames_from}
use uaagro_voice_agent.Playback.Defs.{
  PacedSender, send_frame, send_paced, interrupted, flush, flush_rest, play_chunk, send_whole,
  whole_bytes,
}
use uaagro_voice_agent.Playback.Framing.{concat, iter_frames-append}

-- A stream that nobody cancels.
unfoldable pub play_chunks : List Bytes → PacedSender → PacedSender
play_chunks [] s = s
play_chunks (chunk ∷ rest) s = play_chunks rest (play_chunk chunk [] s).1

-- What matters of a sender for the frames.
abbrev Sends : PacedSender → List Bytes → Bytes → Type 0
Sends s frames residue = (s.cancelled ≡ false) × (s.sent ≡ frames) × (s.residue ≡ residue)

send_paced-Sends :
    (frames out : List Bytes) (residue : Bytes) (s : PacedSender)
    → Sends s out residue
    → Sends (send_paced frames [] s).1 (out ++ frames) residue
unfolding send_paced interrupted send_frame
send_paced-Sends [] out residue s (go, sent, kept) = (go, sent ∙ sym (append-nil out), kept)
send_paced-Sends (frame ∷ rest) out residue s (go, sent, kept) =
    rw (go, send_paced)
      (let (go', sent', kept') =
          send_paced-Sends rest (out ++ frame ∷ []) residue (send_frame frame s)
            (go, ap (λ l. l ++ frame ∷ []) sent, kept) in
        (go', sent' ∙ append_assoc out (frame ∷ []) rest, kept'))

-- Of the audio that has arrived, the whole frames are sent and the rest is the residue.
abbrev Streams : PacedSender → List Bytes → Bytes → Type 0
Streams s before audio =
    (whole : Bytes) × (k : ℕ) × (audio ≡ whole ++ s.residue)
    × (length whole ≡ k * 320)
    × (s.cancelled ≡ false)
    × (s.sent ≡ before ++ iter_frames whole)

sent_more :
    (before : List Bytes) (k : ℕ) (whole more : Bytes)
    → length whole ≡ k * 320
    → before ++ iter_frames whole ++ iter_frames more ≡ before ++ iter_frames (whole ++ more)
sent_more before k whole more len =
    append_assoc before (iter_frames whole) (iter_frames more)
    ∙ ap (λ l. before ++ l) (sym (iter_frames-append k whole more len))

split_residue :
    (whole : Bytes) (n : ℕ) (residue : Bytes)
    → whole ++ residue ≡ whole ++ take n residue ++ drop n residue
split_residue whole n residue = sym (
    append_assoc whole (take n residue) (drop n residue)
    ∙ ap (λ l. whole ++ l) (take-append-drop n residue))

send_whole-Streams :
    (residue whole : Bytes) (k : ℕ) (before : List Bytes) (s : PacedSender)
    → length whole ≡ k * 320
    → s.cancelled ≡ false
    → s.sent ≡ before ++ iter_frames whole
    → Streams (send_whole residue [] s).1 before (whole ++ residue)
unfolding send_whole whole_bytes
send_whole-Streams residue whole k before s len go sent =
    let n = length residue / 320 * 320 in
    elim (Bool-cases (leb n 0)) [
      | inl e ↦ rw (e, send_whole) (whole, k, refl, len, go, sent)
      | inr e ↦
          let (go', sent', kept) =
            send_paced-Sends (iter_frames (take n residue)) (before ++ iter_frames whole)
              (drop n residue) (record s { residue = drop n residue }) (go, sent, refl) in
          rw (e, send_whole)
            (
              whole ++ take n residue,
              k + length residue / 320,
              rw kept (split_residue whole n residue),
              omega (arith, length-append whole (take n residue), length-take n residue),
              go',
              sent' ∙ sent_more before k whole (take n residue) len,
            )
    ]

play_chunk-Streams :
    (chunk audio : Bytes) (before : List Bytes) (s : PacedSender)
    → Streams s before audio
    → Streams (play_chunk chunk [] s).1 before (audio ++ chunk)
unfolding play_chunk
play_chunk-Streams [] audio before s (whole, k, split, len, go, sent) =
    (whole, k, append-nil audio ∙ split, len, go, sent)
play_chunk-Streams (b ∷ chunk) audio before s (whole, k, split, len, go, sent) =
    rw (split, append_assoc whole s.residue (b ∷ chunk))
      (send_whole-Streams (s.residue ++ b ∷ chunk) whole k before
        (record s { tracker = grow (length (b ∷ chunk)) s.tracker }) len go sent)

play_chunks-Streams :
    (chunks : List Bytes) (audio : Bytes) (before : List Bytes) (s : PacedSender)
    → Streams s before audio
    → Streams (play_chunks chunks s) before (audio ++ concat chunks)
unfolding play_chunks
play_chunks-Streams [] audio before s h = rw (append-nil audio) h
play_chunks-Streams (chunk ∷ rest) audio before s h =
    rw (← append_assoc audio chunk (concat rest)) (
      play_chunks-Streams rest (audio ++ chunk) before (play_chunk chunk [] s).1
        (play_chunk-Streams chunk audio before s h))

flush_rest-Sends :
    (residue : Bytes) (out : List Bytes) (s : PacedSender)
    → Sends s out residue
    → Sends (flush_rest residue [] s).1 (out ++ iter_frames residue) []
unfolding flush_rest iter_frames frames_from
flush_rest-Sends [] out s (go, sent, kept) = (go, sent ∙ sym (append-nil out), kept)
flush_rest-Sends (b ∷ rest) out s (go, sent, kept) =
    send_paced-Sends (iter_frames (b ∷ rest)) out [] (record s { residue = [] }) (go, sent, refl)

flush-Sends :
    (audio : Bytes) (before : List Bytes) (s : PacedSender)
    → Streams s before audio
    → Sends (flush [] s).1 (before ++ iter_frames audio) []
unfolding flush
flush-Sends audio before s (whole, k, split, len, go, sent) =
    rw (split, ← sent_more before k whole s.residue len)
      (flush_rest-Sends s.residue (before ++ iter_frames whole) s (go, sent, refl))

-- On a sender that is not cancelled and holds nothing back, the frames of a sentence that arrives
-- in chunks, and is flushed at its end, are those of the whole audio: it does not matter where
-- the vendor cuts it, no silence is spliced in between and nothing is held back.
pub play_chunks-flush :
    (chunks : List Bytes) (s : PacedSender)
    → s.cancelled ≡ false
    → s.residue ≡ []
    → let s' = (flush [] (play_chunks chunks s)).1 in
      (s'.sent ≡ s.sent ++ iter_frames (concat chunks)) × (s'.residue ≡ [])
unfolding iter_frames frames_from
play_chunks-flush chunks s go empty =
    let (_, sent, residue) = flush-Sends (concat chunks) s.sent (play_chunks chunks s) (
      play_chunks-Streams chunks [] s.sent s
        ([], 0, sym empty, refl, go, sym (append-nil s.sent))) in
    (sent, residue)
