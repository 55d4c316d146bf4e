-- ===== src/Playback/Heard.antt =====
-- What the caller heard, and what a barge-in does.
use uaagro_voice_agent.Prelude.{
  String, ℕ, ◌+◌, ◌-◌, ◌*◌, ◌/◌, ◌≤◌, ◌≡◌, ◌⊎◌, ◌∙◌, sym, ap, refl, Bool, true, false, List, [],
  ◌∷◌, ◌++◌, min, leb, length, take, drop, take-append-drop, arith, Bool-cases, inl, inr,
}
use mathlib.Core.List.{append_assoc}
use uaagro_voice_agent.Playback.Tracker.{
  Bytes, iter_frames, frame_count, Segment, PlaybackTracker, full_text, truncate_to_words,
  spoken_from, spoken_text, heard_bytes, assumed_jitter_ms, register, grow,
}
use uaagro_voice_agent.Playback.Defs.{
  whole_bytes, PacedSender, cancel, send_paced, interrupted, flush, flush_rest, play, play_whole,
  play_chunk, send_whole, Sending, playing, playing_chunk, flushing, send, send_all, BargeInPolicy,
  may_interrupt, cut, handle_barge_in,
}

abbrev IsPrefix : List String → List String → Type 0
IsPrefix xs ys = (rest : List String) × (ys ≡ xs ++ rest)

spoken_from-prefix :
    (heard : ℕ) (segments : List Segment)
    → IsPrefix (spoken_from heard segments) (full_text segments)
unfolding spoken_from full_text truncate_to_words
spoken_from-prefix heard [] = ([], refl)
spoken_from-prefix heard (segment ∷ rest) =
    let (more, e) = spoken_from-prefix heard rest in
    let start = segment.end_offset - segment.audio_bytes in
    elim (Bool-cases (leb segment.end_offset heard)) [
      | inl whole ↦
          rw (whole, spoken_from)
            (
              more,
              ap (λ l. segment.text ++ l) e
                  ∙ sym (append_assoc segment.text (spoken_from heard rest) more),
            )
      | inr cut_off ↦ elim (Bool-cases (leb heard start)) [
        | inl unheard ↦ rw (cut_off, unheard, spoken_from) (full_text (segment ∷ rest), refl)
        | inr part ↦
            rw (cut_off, part, spoken_from)
              (truncated segment.text (heard - start) segment.audio_bytes (full_text rest))
      ]
    ]
  where
    truncated :
        (text : List String) (part whole : ℕ) (later : List String)
        → IsPrefix (truncate_to_words text part whole) (text ++ later)
    truncated text part whole later =
        let n = length text * min part whole / whole in
        (
          drop n text ++ later,
          ap (λ l. l ++ later) (sym (take-append-drop n text))
              ∙ append_assoc (take n text) (drop n text) later,
        )

spoken_text-prefix :
    (jitter_ms : ℕ) (t : PlaybackTracker)
    → IsPrefix (spoken_text jitter_ms t) (full_text t.segments)
unfolding spoken_text
spoken_text-prefix jitter_ms t = elim (Bool-cases (leb (heard_bytes jitter_ms t) 0)) [
  | inl e ↦ rw (e, spoken_text) (full_text t.segments, refl)
  | inr e ↦ rw (e, spoken_text) (spoken_from-prefix (heard_bytes jitter_ms t) t.segments)
]

heard_bytes_bounds :
    (jitter_ms : ℕ) (t : PlaybackTracker)
    → (heard_bytes jitter_ms t + 16 * jitter_ms ≤ t.bytes_sent) ⊎ (heard_bytes jitter_ms t ≡ 0)
unfolding heard_bytes
heard_bytes_bounds jitter_ms t = ground arith

-- A sender that is cancelled, and what it had sent.
abbrev IsStopped : List Bytes → PacedSender → Type 0
IsStopped sent s = (s.sent ≡ sent) × (s.cancelled ≡ true)

send_paced-IsStopped :
    (frames : List Bytes) (cancels : List Bool) (s : PacedSender)
    → s.cancelled ≡ true
    → IsStopped s.sent (send_paced frames cancels s).1
unfolding send_paced interrupted cancel
send_paced-IsStopped [] cancels s stop = (refl, stop)
send_paced-IsStopped (frame ∷ rest) [] s stop = rw (stop, send_paced) (refl, stop)
send_paced-IsStopped (frame ∷ rest) (true ∷ cancels) s stop = (refl, refl)
send_paced-IsStopped (frame ∷ rest) (false ∷ cancels) s stop = rw (stop, send_paced) (refl, stop)

flush_rest-IsStopped :
    (residue : Bytes) (cancels : List Bool) (s : PacedSender)
    → s.cancelled ≡ true
    → IsStopped s.sent (flush_rest residue cancels s).1
unfolding flush_rest
flush_rest-IsStopped [] cancels s stop = (refl, stop)
flush_rest-IsStopped (b ∷ rest) cancels s stop =
    send_paced-IsStopped (iter_frames (b ∷ rest)) cancels (record s { residue = [] }) stop

flush-IsStopped :
    (cancels : List Bool) (s : PacedSender)
    → s.cancelled ≡ true
    → IsStopped s.sent (flush cancels s).1
unfolding flush
flush-IsStopped cancels s stop = flush_rest-IsStopped s.residue cancels s stop

play_whole-IsStopped :
    (cancels : List Bool) (played : Bool × PacedSender)
    → played.1.cancelled ≡ true
    → IsStopped played.1.sent (play_whole cancels played).1
unfolding play_whole flush
play_whole-IsStopped cancels (true, s) stop = flush_rest-IsStopped s.residue cancels s stop
play_whole-IsStopped cancels (false, s) stop = (refl, stop)

play-IsStopped :
    (text : List String) (audio : Bytes) (cancels : List Bool) (s : PacedSender)
    → s.cancelled ≡ true
    → IsStopped s.sent (play text audio cancels s).1
unfolding play
play-IsStopped text [] cancels s stop = (refl, stop)
play-IsStopped text (b ∷ audio) cancels s stop =
    let registered : PacedSender = record s { tracker = register text (b ∷ audio) s.tracker } in
    let (sent, stopped) = send_paced-IsStopped (iter_frames (b ∷ audio)) cancels registered stop in
    let (same, still) =
      play_whole-IsStopped (drop (frame_count (b ∷ audio)) cancels)
        (send_paced (iter_frames (b ∷ audio)) cancels registered) stopped in
    (same ∙ sent, still)

send_whole-IsStopped :
    (residue : Bytes) (cancels : List Bool) (s : PacedSender)
    → s.cancelled ≡ true
    → IsStopped s.sent (send_whole residue cancels s).1
unfolding send_whole
send_whole-IsStopped residue cancels s stop =
    let whole = whole_bytes residue in
    elim (Bool-cases (leb whole 0)) [
      | inl e ↦ rw (e, send_whole) (refl, stop)
      | inr e ↦
          rw (e, send_whole)
            (send_paced-IsStopped (iter_frames (take whole residue)) cancels
              (record s { residue = drop whole residue }) stop)
    ]

play_chunk-IsStopped :
    (audio : Bytes) (cancels : List Bool) (s : PacedSender)
    → s.cancelled ≡ true
    → IsStopped s.sent (play_chunk audio cancels s).1
unfolding play_chunk
play_chunk-IsStopped [] cancels s stop = (refl, stop)
play_chunk-IsStopped (b ∷ audio) cancels s stop =
    send_whole-IsStopped (s.residue ++ b ∷ audio) cancels
      (record s { tracker = grow (length (b ∷ audio)) s.tracker }) stop

send-IsStopped : (x : Sending) (s : PacedSender) → s.cancelled ≡ true → IsStopped s.sent (send x s)
unfolding send
send-IsStopped (playing text audio cancels) s stop = play-IsStopped text audio cancels s stop
send-IsStopped (playing_chunk audio cancels) s stop = play_chunk-IsStopped audio cancels s stop
send-IsStopped (flushing cancels) s stop = flush-IsStopped cancels s stop

send_all-IsStopped :
    (xs : List Sending) (s : PacedSender) → s.cancelled ≡ true → IsStopped s.sent (send_all xs s)
unfolding send_all
send_all-IsStopped [] s stop = (refl, stop)
send_all-IsStopped (x ∷ xs) s stop =
    let (same, still) = send-IsStopped x s stop in
    let (later, stopped) = send_all-IsStopped xs (send x s) still in (later ∙ same, stopped)

-- A barge-in that is allowed cancels the synthesis and then clears the provider's buffer; it
-- reports a prefix of what the agent was to say; and from the cancel on no frame goes out, whatever
-- is played, in whole or in chunks, or flushed, one after the other, while it awaits the two and
-- after it, as long as the sender is not resumed.
pub handle_barge_in_lem :
    {W : Type 0} (clear_playback cancel_synthesis : W → W) (meanwhile later : List Sending)
    (now : ℕ) (p : BargeInPolicy) (s : PacedSender) (w : W)
    → may_interrupt now p ≡ true
    → let (result, s', w') = handle_barge_in clear_playback cancel_synthesis meanwhile now p s w in
      ((spoken : List String) × (result ≡ cut spoken)
        × (rest : List String) × (full_text s'.tracker.segments ≡ spoken ++ rest))
      × (w' ≡ clear_playback (cancel_synthesis w))
      × (s'.sent ≡ s.sent)
      × ((send_all later s').sent ≡ s.sent)
unfolding handle_barge_in cancel
handle_barge_in_lem clear_playback cancel_synthesis meanwhile later now p s w e =
    let s' = send_all meanwhile (cancel s) in
    let (rest, prefix) = spoken_text-prefix assumed_jitter_ms s'.tracker in
    let (silent, stopped) = send_all-IsStopped meanwhile (cancel s) refl in
    rw (e, handle_barge_in)
      (
        (spoken_text assumed_jitter_ms s'.tracker, refl, rest, prefix),
        refl,
        silent,
        (send_all-IsStopped later s' stopped).0 ∙ silent,
      )
