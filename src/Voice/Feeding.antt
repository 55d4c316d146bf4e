-- ===== src/Voice/Feeding.antt =====
-- How the audio is cut up on its way to the gate makes no difference.
use mathlib.Core.List.{append_assoc, append-nil}
use uaagro_voice_agent.Prelude.{
  drop-append, drop-drop, take-append, none, some, ap₂, some, Bool, Option, ap, ℕ, zero, suc, ◌+◌,
  ◌*◌, ◌/◌, ◌≤◌, ◌≡◌, refl, sym, ◌∙◌, List, [], ◌∷◌, ◌++◌, arith, take, drop, length, length-append,
  length-drop,
}
use uaagro_voice_agent.Voice.Gate.{
  Fed, VoiceEvent, VoiceGate, noted, judge_frame, judge_frames, feed, frame_bytes,
}

noted-append :
    (e : Option VoiceEvent) (xs ys : List VoiceEvent) → noted e xs ++ ys ≡ noted e (xs ++ ys)
unfolding noted
noted-append none xs ys = refl
noted-append (some e) xs ys = refl

abbrev assembled : List VoiceEvent × VoiceGate → List ℕ → Fed
assembled judged left = record { events = judged.0; residue = left; gate = judged.1 }

module _ (level_of : List ℕ → ℕ) (judge : List ℕ → ℕ → ℕ → Bool) (clock : ℕ → ℕ) where
  abbrev run : ℕ → List ℕ → VoiceGate → List VoiceEvent × VoiceGate
  run = judge_frames level_of judge clock

  -- Frames of which more bytes follow are judged as they are.
  judge_frames-append :
      (n : ℕ) (xs ys : List ℕ) (g : VoiceGate)
      → n * frame_bytes ≤ length xs
      → run n (xs ++ ys) g ≡ run n xs g
  unfolding judge_frames
  judge_frames-append zero xs ys g h = refl
  judge_frames-append (suc n) xs ys g h =
      let g1 = (judge_frame level_of judge clock (take frame_bytes xs) g).1 in
      let rest =
        judge_frames-append n (drop frame_bytes xs) ys g1
          (omega (arith, h, length-drop frame_bytes xs)) in
      rw
        (
          take-append frame_bytes xs ys (omega (arith, h)),
          drop-append frame_bytes xs ys (omega (arith, h)),
          rest,
        )
        refl

  judge_frames-plus :
      (n m k : ℕ) (xs : List ℕ) (g : VoiceGate)
      → n + m ≡ k
      → run k xs g ≡ (
        (run n xs g).0 ++ (run m (drop (n * frame_bytes) xs) (run n xs g).1).0,
        (run m (drop (n * frame_bytes) xs) (run n xs g).1).1,
      )
  unfolding judge_frames
  judge_frames-plus zero m k xs g e = let same : k ≡ m = omega (arith, e) in rw same refl
  judge_frames-plus (suc n) m zero xs g e = absurd (omega (arith, e))
  judge_frames-plus (suc n) m (suc k) xs g e =
      let one = judge_frame level_of judge clock (take frame_bytes xs) g in
      let rest = judge_frames-plus n m k (drop frame_bytes xs) one.1 (omega (arith, e)) in
      rw⁻¹ (drop-drop frame_bytes (n * frame_bytes) (suc n * frame_bytes) xs (omega arith))
        (rw (rest, noted-append one.0 _ _) refl)

  judge_frames_parts :
      (n m k : ℕ) (xs : List ℕ) (g : VoiceGate) (left : List ℕ) (one : List VoiceEvent × VoiceGate)
      → n + m ≡ k
      → drop (n * frame_bytes) xs ≡ left
      → run n xs g ≡ one
      → run k xs g ≡ (one.0 ++ (run m left one.1).0, (run m left one.1).1)
  judge_frames_parts n m k xs g left one e c f = rw⁻¹ (c, f) (judge_frames-plus n m k xs g e)

  -- What `feed` does with the bytes once they are put together.
  abbrev fed : List ℕ → VoiceGate → Fed
  fed buffer g =
      let n = length buffer / frame_bytes in
      let judged = run n buffer g in
      record { events = judged.0; residue = drop (n * frame_bytes) buffer; gate = judged.1 }

  fed-append :
      (xs ys : List ℕ) (g : VoiceGate)
      → fed (xs ++ ys) g ≡ (
          let second = fed ((fed xs g).residue ++ ys) (fed xs g).gate in
          record second { events = (fed xs g).events ++ second.events })
  fed-append xs ys g =
      let n = length xs / frame_bytes in
      let left = drop (n * frame_bytes) xs in
      let m = length (left ++ ys) / frame_bytes in
      let k = length (xs ++ ys) / frame_bytes in
      let fits : n * frame_bytes ≤ length xs = omega arith in
      let sum : n + m ≡ k =
        omega
          (arith, length-append xs ys, length-append left ys, length-drop (n * frame_bytes) xs) in
      let first = judge_frames-append n xs ys g fits in
      let cut = drop-append (n * frame_bytes) xs ys fits in
      let judged = judge_frames_parts n m k (xs ++ ys) g (left ++ ys) (run n xs g) sum cut first in
      let rest =
        drop-drop (n * frame_bytes) (m * frame_bytes) (k * frame_bytes) (xs ++ ys)
          (omega (arith, sum)) in
      ap₂ assembled judged (sym rest ∙ ap (drop (m * frame_bytes)) cut)

  -- The bytes in two parts or in one: feeding one piece of audio and then another gives the same
  -- events, in the same order, and leaves the same bytes waiting and the same gate as feeding
  -- both at once.
  pub feed-append :
      (xs ys : List ℕ) (waiting : List ℕ) (g : VoiceGate)
      → feed level_of judge clock (xs ++ ys) waiting g ≡ (
          let first = feed level_of judge clock xs waiting g in
          let second = feed level_of judge clock ys first.residue first.gate in
          record second { events = first.events ++ second.events })
  unfolding feed
  feed-append [] ys waiting g = refl
  feed-append (x ∷ xs) [] waiting g =
      rw (append-nil xs, append-nil (fed (waiting ++ x ∷ xs) g).events) refl
  feed-append (x ∷ xs) (y ∷ ys) waiting g =
      rw⁻¹ (append_assoc waiting (x ∷ xs) (y ∷ ys)) (fed-append (waiting ++ x ∷ xs) (y ∷ ys) g)
