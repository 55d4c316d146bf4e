-- ===== src/Voice/Gate.antt =====
-- VoiceGate of apps/voice-worker/src/voice_worker/runtime/vad.py. A level is a number of hundredths
-- of a decibel above -180 dB, the least that the code computes. The numpy analysis of a frame is a
-- parameter: its level, and whether it is flat and pitched as speech is. The deques are lists with
-- the newest first.
use uaagro_voice_agent.Prelude.{
  replicate, ℕ, zero, suc, ◌+◌, ◌-◌, ◌*◌, ◌/◌, min, max, Bool, true, false, ◌&&◌, ◌||◌, not, Option,
  none, some, List, [], ◌∷◌, ◌++◌, length, take, drop, ltb, leb, ◌==◌, if◌then◌else◌,
}

abbrev pub frame_bytes : ℕ
frame_bytes = 320

abbrev pub snr : ℕ
snr = 600

abbrev pub min_level : ℕ
min_level = 13000

abbrev pub onset_window : ℕ
onset_window = 10

abbrev pub onset_required : ℕ
onset_required = 7

abbrev pub release_frames : ℕ
release_frames = 15

abbrev pub stationary_window : ℕ
stationary_window = 25

abbrev pub stationary_range : ℕ
stationary_range = 400

abbrev pub onset_range : ℕ
onset_range = 600

abbrev pub floor_min : ℕ
floor_min = 11000

abbrev pub full_scale : ℕ
full_scale = 18000

abbrev pub floor_rise : ℕ
floor_rise = 15

abbrev pub floor_rise_while_voiced : ℕ
floor_rise_while_voiced = 1

pub data VoiceEvent : Type 0 where
  speech_start speech_end : VoiceEvent

-- The gate but for the bytes that wait for a whole frame. The deques of verdicts and of levels of
-- the onset window, appended to and cleared together, are one list of pairs.
pub record VoiceGate : Type 0 where
  pub window : ℕ
  pub required : ℕ
  pub release : ℕ
  pub speaking : Bool
  pub last_voice_at : Option ℕ
  pub frames : ℕ
  pub floor : ℕ
  pub recent : List (Bool × ℕ)
  pub levels : List ℕ
  pub quiet_run : ℕ
  pub previous : List ℕ

-- `deque.append` under a maximal length.
unfoldable pub push : {A : Type 0} → ℕ → A → List A → List A
push n x xs = take n (x ∷ xs)

unfoldable pub largest : List ℕ → ℕ
largest [] = 0
largest (x ∷ xs) = max x (largest xs)

unfoldable pub smallest : ℕ → List ℕ → ℕ
smallest bound [] = bound
smallest bound (x ∷ xs) = min x (smallest bound xs)

-- `max(levels) - min(levels)`, of levels that are not above the largest.
unfoldable pub spread : List ℕ → ℕ
spread levels = largest levels - smallest (largest levels) levels

unfoldable pub voiced_levels : List (Bool × ℕ) → List ℕ
voiced_levels [] = []
voiced_levels ((voiced, level) ∷ recent) =
    let rest = voiced_levels recent in if voiced then level ∷ rest else rest

unfoldable pub onset_moves : List (Bool × ℕ) → Bool
onset_moves recent =
    not (ltb (length (voiced_levels recent)) 2) && leb onset_range (spread (voiced_levels recent))

unfoldable pub track_floor : ℕ → Bool → ℕ → ℕ
track_floor level voiced floor =
    let heard = max level floor_min in
    if ltb heard floor
    then heard
    else min (floor + (if voiced then floor_rise_while_voiced else floor_rise)) heard

-- `steady`, once the level has been appended.
unfoldable pub is_steady : List ℕ → Bool
is_steady levels = length levels == stationary_window && ltb (spread levels) stationary_range

-- The end of `_judge`, once the frame's run and its window are up to date: an onset if the gate was
-- not speaking, a release if it was. The flag is the gate's own.
unfoldable pub change : Bool → VoiceGate → Option VoiceEvent × VoiceGate
change false g =
    if leb g.required (length (voiced_levels g.recent)) && onset_moves g.recent
    then (some speech_start, record g { speaking = true; quiet_run = 0 })
    else (none, record g { speaking = false })
change true g =
    if leb g.release g.quiet_run
    then (some speech_end, record g { speaking = false; recent = [] })
    else (none, record g { speaking = true })

-- What `_judge` notes of a frame that is or is not voice.
unfoldable pub note : ℕ → Bool → ℕ → VoiceGate → VoiceGate
note now voiced level g = record g {
  last_voice_at = if voiced then some now else g.last_voice_at;
  floor = track_floor level voiced g.floor;
  quiet_run = if voiced then 0 else suc g.quiet_run;
  recent = push g.window (voiced, level) g.recent;
}

unfoldable pub observe : ℕ → Bool → ℕ → VoiceGate → Option VoiceEvent × VoiceGate
observe now voiced level g = change g.speaking (note now voiced level g)

-- SpectralJudge.is_voice, with the two spectral measures as one test.
unfoldable pub is_voice : (List ℕ → Bool) → List ℕ → ℕ → ℕ → Bool
is_voice is_pitched samples level floor =
    if ltb level min_level || ltb level (floor + snr) then false else is_pitched samples

-- An event, if there is one, before those that follow.
unfoldable pub noted : Option VoiceEvent → List VoiceEvent → List VoiceEvent
noted none events = events
noted (some event) events = event ∷ events

-- What `feed` returns and leaves: the events, the bytes that wait, and the gate.
pub record Fed : Type 0 where
  pub events : List VoiceEvent
  pub residue : List ℕ
  pub gate : VoiceGate

-- The analysis of a frame, the judge that answers for a pair of frames, and the clock at each
-- frame.
module _ (level_of : List ℕ → ℕ) (judge : List ℕ → ℕ → ℕ → Bool) (clock : ℕ → ℕ) where
  -- The part of `_judge` before the verdict; feed hands it whole frames only.
  unfoldable pub hear : List ℕ → VoiceGate → VoiceGate
  hear frame g = record g {
    frames = suc g.frames;
    levels = push stationary_window (level_of frame) g.levels;
    previous = frame;
  }

  unfoldable pub is_voiced : List ℕ → VoiceGate → Bool
  is_voiced frame g =
      not (is_steady (push stationary_window (level_of frame) g.levels))
      && judge (g.previous ++ frame) (level_of frame) g.floor

  unfoldable pub judge_frame : List ℕ → VoiceGate → Option VoiceEvent × VoiceGate
  judge_frame frame g =
      observe (clock (suc g.frames)) (is_voiced frame g) (level_of frame) (hear frame g)

  -- The events of that many frames of the buffer.
  unfoldable pub judge_frames : ℕ → List ℕ → VoiceGate → List VoiceEvent × VoiceGate
  judge_frames zero buffer g = ([], g)
  judge_frames (suc n) buffer g =
      let one = judge_frame (take frame_bytes buffer) g in
      let rest = judge_frames n (drop frame_bytes buffer) one.1 in (noted one.0 rest.0, rest.1)

  -- From the bytes that wait and the gate; no bytes, no frame.
  unfoldable pub feed : List ℕ → List ℕ → VoiceGate → Fed
  feed [] residue g = record { events = []; residue = residue; gate = g }
  feed (b ∷ pcm) residue g =
      let buffer = residue ++ b ∷ pcm in
      let n = length buffer / frame_bytes in
      let judged = judge_frames n buffer g in
      record { events = judged.0; residue = drop (n * frame_bytes) buffer; gate = judged.1 }

unfoldable pub heard_voice_within : ℕ → ℕ → VoiceGate → Bool
heard_voice_within now span g =
    if g.speaking
    then true
    else elim g.last_voice_at [ none ↦ false | some at ↦ leb (now - at) span ]

-- The gate after `reset`, which also drops the residue.
unfoldable pub reset : VoiceGate → VoiceGate
reset g = record g { speaking = false; recent = []; quiet_run = 0 }

abbrev pub new_gate : VoiceGate
new_gate = record {
  window = onset_window;
  required = onset_required;
  release = release_frames;
  speaking = false;
  last_voice_at = none;
  frames = 0;
  floor = full_scale;
  recent = [];
  levels = [];
  quiet_run = 0;
  previous = replicate {A = ℕ} frame_bytes 0;
}
