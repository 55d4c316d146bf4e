-- ===== src/Playback/Framing.antt =====
-- The frames of an audio, and that it does not matter in which chunks the audio arrives.
use uaagro_voice_agent.Prelude.{
  ℕ, zero, suc, ◌+◌, ◌-◌, ◌*◌, ◌/◌, ◌≤◌, ◌<◌, ◌≡◌, ◌∙◌, sym, ap, ap₂, refl, false, List, [], ◌∷◌,
  ◌++◌, leb, leb→le, length, take, drop, replicate, length-append, length-take, length-drop,
  length-replicate, take-append-drop, All, arith, Bool-cases, inl, inr,
}
use mathlib.Core.List.{append_assoc, append-nil}
use uaagro_voice_agent.Playback.Tracker.{
  Bytes, frame_bytes, pad_frame, frames_from, iter_frames, frame_count,
}

abbrev pub concat {ℓ} : {A : Type ℓ} → List (List A) → List A
concat [] = []
concat (xs ∷ xss) = xs ++ concat xss

frames_step :
    (f : ℕ) (pcm : Bytes)
    → 0 < length pcm
    → frames_from (suc f) pcm
      ≡ pad_frame (take frame_bytes pcm) ∷ frames_from f (drop frame_bytes pcm)
unfolding frames_from
frames_step f [] pos = absurd (omega arith)
frames_step f (b ∷ pcm) pos = refl

pad_frame-length : (frame : Bytes) → length frame ≤ 320 → length (pad_frame frame) ≡ 320
unfolding pad_frame
pad_frame-length frame le = omega (
  arith,
  length-append frame (replicate (320 - length frame) 0),
  length-replicate {A = ℕ} (320 - length frame) 0,
)

pad_frame-full : (frame : Bytes) → length frame ≡ 320 → pad_frame frame ≡ frame
unfolding pad_frame
pad_frame-full frame full = rw full (append-nil frame)

take-all : {A : Type 0} (n : ℕ) (xs : List A) → length xs ≤ n → take n xs ≡ xs
take-all zero [] le = refl
take-all zero (x ∷ xs) le = absurd (omega arith)
take-all (suc n) [] le = refl
take-all (suc n) (x ∷ xs) le = ap (◌∷◌ x) (take-all n xs (omega arith))

drop-all : {A : Type 0} (n : ℕ) (xs : List A) → length xs ≤ n → drop n xs ≡ []
drop-all zero [] le = refl
drop-all zero (x ∷ xs) le = absurd (omega arith)
drop-all (suc n) [] le = refl
drop-all (suc n) (x ∷ xs) le = drop-all n xs (omega arith)

frames_nil : (f : ℕ) → frames_from f [] ≡ []
unfolding frames_from
frames_nil zero = refl
frames_nil (suc f) = refl

leb→gt : (a b : ℕ) → leb a b ≡ false → b < a
leb→gt a b h = ground arith

short_joined :
    (f : ℕ) (pcm : Bytes)
    → length pcm < 320
    → pad_frame (take 320 pcm) ++ concat (frames_from f (drop 320 pcm))
      ≡ pcm ++ replicate (320 - length pcm) 0
unfolding pad_frame
short_joined f pcm lt =
    rw (take-all 320 pcm (omega arith), drop-all 320 pcm (omega arith), frames_nil f)
      (append-nil (pad_frame pcm))

frames_facts :
    (f : ℕ) (pcm : Bytes)
    → length pcm ≤ f
    → All (λ frame. length frame ≡ 320) (frames_from f pcm)
      × (length (frames_from f pcm) ≡ (length pcm + 319) / 320)
      × ((n : ℕ) × (concat (frames_from f pcm) ≡ pcm ++ replicate n 0) × (n < 320))
unfolding frames_from
frames_facts zero [] le = (tt, omega arith, (0, refl, omega arith))
frames_facts zero (b ∷ pcm) le = absurd (omega arith)
frames_facts (suc f) [] le = (tt, omega arith, (0, refl, omega arith))
frames_facts (suc f) (b ∷ pcm) le =
    let p = b ∷ pcm in
    let len = length-drop 320 p in
    let (all, count, (n, joined, small)) = frames_facts f (drop 320 p) (omega (arith, len)) in
    (
      (pad_frame-length (take 320 p) (omega (arith, length-take 320 p)), all),
      omega (arith, count, len),
      elim (Bool-cases (leb 320 (length p))) [
        | inl e ↦ (
          n,
          ap₂ ◌++◌
                (pad_frame-full (take 320 p)
                  (omega (arith, length-take 320 p, leb→le 320 (length p) e)))
                joined
              ∙ (sym (append_assoc (take 320 p) (drop 320 p) (replicate n 0))
                  ∙ ap (λ l. l ++ replicate n 0) (take-append-drop 320 p)),
          small,
        )
        | inr e ↦
            let lt = leb→gt 320 (length p) e in (320 - length p, short_joined f p lt, omega arith)
      ],
    )

-- An audio is cut into whole frames of 320 bytes, as many as `frame_count` says, which put
-- together are the audio and fewer zeros than a frame has.
iter_frames_facts :
    (pcm : Bytes)
    → All (λ frame. length frame ≡ 320) (iter_frames pcm)
      × (length (iter_frames pcm) ≡ frame_count pcm)
      × ((n : ℕ) × (concat (iter_frames pcm) ≡ pcm ++ replicate n 0) × (n < 320))
unfolding iter_frames frame_count
iter_frames_facts pcm =
    let (all, count, joined) = frames_facts (length pcm) pcm (omega arith) in
    (all, omega (arith, count), joined)

frames_fuel :
    (f g : ℕ) (pcm : Bytes)
    → length pcm ≤ f
    → length pcm ≤ g
    → frames_from f pcm ≡ frames_from g pcm
frames_fuel f g [] lef leg = frames_nil f ∙ sym (frames_nil g)
frames_fuel zero g (b ∷ pcm) lef leg = absurd (omega arith)
frames_fuel (suc f) zero (b ∷ pcm) lef leg = absurd (omega arith)
frames_fuel (suc f) (suc g) (b ∷ pcm) lef leg =
    let p = b ∷ pcm in
    let len = length-drop 320 p in
    frames_step f p (omega arith)
    ∙ (ap (◌∷◌ (pad_frame (take 320 p)))
          (frames_fuel f g (drop 320 p) (omega (arith, len)) (omega (arith, len)))
        ∙ sym (frames_step g p (omega arith)))

take-append : {A : Type 0} (n : ℕ) (xs ys : List A) → n ≤ length xs → take n (xs ++ ys) ≡ take n xs
take-append zero xs ys le = refl
take-append (suc n) [] ys le = absurd (omega arith)
take-append (suc n) (x ∷ xs) ys le = ap (◌∷◌ x) (take-append n xs ys (omega arith))

drop-append :
    {A : Type 0} (n : ℕ) (xs ys : List A) → n ≤ length xs → drop n (xs ++ ys) ≡ drop n xs ++ ys
drop-append zero xs ys le = refl
drop-append (suc n) [] ys le = absurd (omega arith)
drop-append (suc n) (x ∷ xs) ys le = drop-append n xs ys (omega arith)

iter_frames_step :
    (pcm : Bytes)
    → 0 < length pcm
    → iter_frames pcm ≡ pad_frame (take 320 pcm) ∷ iter_frames (drop 320 pcm)
unfolding iter_frames
iter_frames_step [] pos = absurd (omega arith)
iter_frames_step (b ∷ pcm) pos =
    let p = b ∷ pcm in
    frames_step (length pcm) p pos
    ∙ ap (◌∷◌ (pad_frame (take 320 p))) (
        frames_fuel (length pcm) (length (drop 320 p)) (drop 320 p)
          (omega (arith, length-drop 320 p)) (omega arith))

-- Whole frames in front are cut off as they are.
pub iter_frames-append :
    (k : ℕ) (xs ys : Bytes)
    → length xs ≡ k * 320
    → iter_frames (xs ++ ys) ≡ iter_frames xs ++ iter_frames ys
unfolding iter_frames frames_from
iter_frames-append zero [] ys whole = refl
iter_frames-append zero (x ∷ xs) ys whole = absurd (omega arith)
iter_frames-append (suc k) xs ys whole =
    rw
      (
        iter_frames_step (xs ++ ys) (omega (arith, length-append xs ys)),
        iter_frames_step xs (omega arith),
        take-append 320 xs ys (omega arith),
        drop-append 320 xs ys (omega arith),
      )
      (ap (◌∷◌ (pad_frame (take 320 xs)))
        (iter_frames-append k (drop 320 xs) ys (omega (arith, length-drop 320 xs))))
