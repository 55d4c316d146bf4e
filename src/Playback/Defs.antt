-- ===== src/Playback/Defs.antt =====
-- The paced sender and the barge-in. The clock only sets the pace of the frames and is left out;
-- what happens between two frames is handed in, one flag for each frame: whether `cancel` was
-- called before it.
use uaagro_voice_agent.Prelude.{
  ℕ, ◌-◌, ◌*◌, ◌/◌, Bool, true, false, not, Option, none, some, List, [], ◌∷◌, ◌++◌, String, leb,
  length, take, drop, if◌then◌else◌,
}
use uaagro_voice_agent.Playback.Tracker.{
  Bytes, frame_bytes, iter_frames, frame_count, PlaybackTracker, register, grow, mark_sent,
  assumed_jitter_ms, spoken_text,
}

-- `sent` is what `send_frame` was called with, the latest frame last.
pub record PacedSender : Type 0 where
  pub tracker : PlaybackTracker
  pub cancelled : Bool
  pub residue : Bytes
  pub sent : List Bytes

unfoldable pub cancel : PacedSender → PacedSender
cancel s = record s { cancelled = true }

unfoldable pub resume : PacedSender → PacedSender
resume s = record s { cancelled = false; residue = [] }

unfoldable pub send_frame : Bytes → PacedSender → PacedSender
unfolding mark_sent
send_frame frame s = record s {
  tracker = mark_sent (length frame) s.tracker;
  sent = s.sent ++ frame ∷ [];
}

unfoldable pub interrupted : Bool → PacedSender → PacedSender
unfolding cancel
interrupted true s = cancel s
interrupted false s = s

-- Whether `cancel` is called before the frame that comes next.
abbrev pub head_flag : List Bool → Bool
head_flag [] = false
head_flag (b ∷ bs) = b

unfoldable pub send_paced : List Bytes → List Bool → PacedSender → Bool × PacedSender
unfolding interrupted send_frame
send_paced [] cancels s = (true, s)
send_paced (frame ∷ rest) cancels s =
    let s' = interrupted (head_flag cancels) s in
    elim s'.cancelled [
      | true ↦ (false, s')
      | false ↦ send_paced rest (drop 1 cancels) (send_frame frame s')
    ]

unfoldable pub flush_rest : Bytes → List Bool → PacedSender → Bool × PacedSender
flush_rest [] cancels s = (true, s)
flush_rest (b ∷ rest) cancels s =
    send_paced (iter_frames (b ∷ rest)) cancels (record s { residue = [] })

unfoldable pub flush : List Bool → PacedSender → Bool × PacedSender
unfolding flush_rest
flush cancels s = flush_rest s.residue cancels s

unfoldable pub play_whole : List Bool → Bool × PacedSender → Bool × PacedSender
play_whole cancels (true, s) = (true, (flush cancels s).1)
play_whole cancels (false, s) = (false, s)

unfoldable pub play : List String → Bytes → List Bool → PacedSender → Bool × PacedSender
unfolding register
play text [] cancels s = (true, s)
play text (b ∷ audio) cancels s = play_whole (drop (frame_count (b ∷ audio)) cancels) (
    send_paced (iter_frames (b ∷ audio)) cancels
      (record s { tracker = register text (b ∷ audio) s.tracker }))

unfoldable pub whole_bytes : Bytes → ℕ
whole_bytes residue = length residue / frame_bytes * frame_bytes

unfoldable pub send_whole : Bytes → List Bool → PacedSender → Bool × PacedSender
unfolding whole_bytes
send_whole residue cancels s =
    let whole = whole_bytes residue in
    elim (leb whole 0) [
      | true ↦ (not s.cancelled, record s { residue = residue })
      | false ↦
          send_paced (iter_frames (take whole residue)) cancels
            (record s { residue = drop whole residue })
    ]

unfoldable pub play_chunk : Bytes → List Bool → PacedSender → Bool × PacedSender
unfolding grow
play_chunk [] cancels s = (true, s)
play_chunk (b ∷ audio) cancels s =
    send_whole (s.residue ++ b ∷ audio) cancels
      (record s { tracker = grow (length (b ∷ audio)) s.tracker })

pub record BargeInPolicy : Type 0 where
  pub suppression_ms : ℕ
  pub protecting_disclosure : Bool
  pub protected_since : Option ℕ

unfoldable pub begin_disclosure : ℕ → BargeInPolicy → BargeInPolicy
begin_disclosure now p = record p { protecting_disclosure = true; protected_since = some now }

unfoldable pub end_disclosure : BargeInPolicy → BargeInPolicy
end_disclosure p = record p { protecting_disclosure = false; protected_since = none }

unfoldable pub may_interrupt : ℕ → BargeInPolicy → Bool
may_interrupt now p = elim p.protected_since [
  | none ↦ true
  | some since ↦ if not p.protecting_disclosure then true else leb p.suppression_ms (now - since)
]

pub data BargeInResult : Type 0 where
  protected : BargeInResult
  cut : List String → BargeInResult

-- What a task may do with the sender while another one awaits.
pub data Sending : Type 0 where
  playing : List String → Bytes → List Bool → Sending
  playing_chunk : Bytes → List Bool → Sending
  flushing : List Bool → Sending

unfoldable pub send : Sending → PacedSender → PacedSender
unfolding play play_chunk flush
send (playing text audio cancels) s = (play text audio cancels s).1
send (playing_chunk audio cancels) s = (play_chunk audio cancels s).1
send (flushing cancels) s = (flush cancels s).1

unfoldable pub send_all : List Sending → PacedSender → PacedSender
unfolding send
send_all [] s = s
send_all (x ∷ rest) s = send_all rest (send x s)

-- `clear_playback` and `cancel_synthesis` act on the transport and the vendor, which are a
-- parameter; `meanwhile` is what other tasks do with the sender while the two are awaited. What was
-- spoken is read after them.
unfoldable pub handle_barge_in :
    {W : Type 0}
    → (W → W)
    → (W → W)
    → List Sending
    → ℕ
    → BargeInPolicy
    → PacedSender
    → W
    → BargeInResult × PacedSender × W
unfolding cancel spoken_text send_all
handle_barge_in clear_playback cancel_synthesis meanwhile now p s w =
    let s' = send_all meanwhile (cancel s) in
    if not (may_interrupt now p)
    then (protected, s, w)
    else (cut (spoken_text assumed_jitter_ms s'.tracker), s', clear_playback (cancel_synthesis w))
