-- ===== src/Playback/Tracker.antt =====
-- Framing, and the tracker that maps audio back to words. Audio is a list of bytes and a text the
-- list of its words. A proportion is the exact quotient, not a float.
use uaagro_voice_agent.Prelude.{
  ℕ, zero, suc, ◌+◌, ◌-◌, ◌*◌, ◌/◌, none, some, List, [], ◌∷◌, ◌++◌, String, min, leb, length, take,
  drop, replicate, last?, if◌then◌else◌,
}

abbrev pub Bytes : Type 0
Bytes = List ℕ

-- 160 samples of two bytes: 20 ms at 8 kHz.
abbrev pub frame_bytes : ℕ
frame_bytes = 320

unfoldable pub pad_frame : Bytes → Bytes
pad_frame frame = frame ++ replicate (frame_bytes - length frame) 0

-- `iter_frames` from an offset on, with the bytes that are left as fuel.
unfoldable pub frames_from : ℕ → Bytes → List Bytes
unfolding pad_frame
frames_from zero pcm = []
frames_from (suc fuel) [] = []
frames_from (suc fuel) (b ∷ pcm) =
    pad_frame (take frame_bytes (b ∷ pcm)) ∷ frames_from fuel (drop frame_bytes (b ∷ pcm))

unfoldable pub iter_frames : Bytes → List Bytes
iter_frames pcm = frames_from (length pcm) pcm

unfoldable pub frame_count : Bytes → ℕ
frame_count pcm = (length pcm + frame_bytes - 1) / frame_bytes

pub record Segment : Type 0 where
  pub text : List String
  pub audio_bytes : ℕ
  pub end_offset : ℕ

pub record PlaybackTracker : Type 0 where
  pub segments : List Segment
  pub bytes_sent : ℕ

unfoldable pub total_bytes : List Segment → ℕ
total_bytes segments = elim (last? segments) [ none ↦ 0 | some segment ↦ segment.end_offset ]

unfoldable pub register : List String → Bytes → PlaybackTracker → PlaybackTracker
unfolding total_bytes
register text [] t = t
register text (b ∷ audio) t =
    let n = length (b ∷ audio) in
    let segment : Segment = record {
      text = text;
      audio_bytes = n;
      end_offset = total_bytes t.segments + n;
    } in
    record t { segments = t.segments ++ segment ∷ [] }

unfoldable pub open_segment : List String → PlaybackTracker → PlaybackTracker
unfolding total_bytes
open_segment text t =
    let segment : Segment = record {
      text = text;
      audio_bytes = 0;
      end_offset = total_bytes t.segments;
    } in
    record t { segments = t.segments ++ segment ∷ [] }

unfoldable pub grown : ℕ → Segment → Segment
grown n segment = record segment {
  audio_bytes = segment.audio_bytes + n;
  end_offset = segment.end_offset + n;
}

unfoldable pub grow_last : ℕ → List Segment → List Segment
unfolding grown
grow_last n [] = []
grow_last n (segment ∷ []) = grown n segment ∷ []
grow_last n (segment ∷ next ∷ rest) = segment ∷ grow_last n (next ∷ rest)

unfoldable pub grow : ℕ → PlaybackTracker → PlaybackTracker
unfolding grow_last
grow n t = record t { segments = grow_last n t.segments }

unfoldable pub mark_sent : ℕ → PlaybackTracker → PlaybackTracker
mark_sent n t = record t { bytes_sent = t.bytes_sent + n }

unfoldable pub full_text : List Segment → List String
full_text [] = []
full_text (segment ∷ rest) = segment.text ++ full_text rest

-- 60 ms of jitter buffer at 16 bytes for each millisecond.
abbrev pub assumed_jitter_ms : ℕ
assumed_jitter_ms = 60

unfoldable pub heard_bytes : ℕ → PlaybackTracker → ℕ
unfolding total_bytes
heard_bytes jitter_ms t = min t.bytes_sent (total_bytes t.segments) - 8000 * 2 * jitter_ms / 1000

-- `_truncate_to_words` where `part` of `whole` bytes were heard.
unfoldable pub truncate_to_words : List String → ℕ → ℕ → List String
truncate_to_words text part whole = take (length text * min part whole / whole) text

unfoldable pub spoken_from : ℕ → List Segment → List String
unfolding truncate_to_words
spoken_from heard [] = []
spoken_from heard (segment ∷ rest) =
    let later = spoken_from heard rest in
    let start = segment.end_offset - segment.audio_bytes in
    if leb segment.end_offset heard
    then segment.text ++ later
    else if leb heard start
    then []
    else truncate_to_words segment.text (heard - start) segment.audio_bytes

unfoldable pub spoken_text : ℕ → PlaybackTracker → List String
unfolding spoken_from heard_bytes
spoken_text jitter_ms t =
    let heard = heard_bytes jitter_ms t in if leb heard 0 then [] else spoken_from heard t.segments

unfoldable pub reset : PlaybackTracker → PlaybackTracker
reset t = record { segments = []; bytes_sent = 0 }
