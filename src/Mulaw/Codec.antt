-- ===== src/Mulaw/Codec.antt =====
-- What the two directions of the codec are to each other.
use uaagro_voice_agent.Prelude.{
  ltb→lt, leb→le, and_parts, ◌⊎◌, all_below_lem, inr, ==_iff, inl, length, ◌≤◌, Bool-cases, all,
  ◌<◌, ◌^◌, min, all_below, ℕ, ◌+◌, ◌-◌, ◌*◌, ◌/◌, ◌%◌, ◌≡◌, refl, Bool, true, false, ◌&&◌, ◌||◌,
  ◌∙◌, not, List, [], ◌∷◌, arith, ltb, leb, ◌==◌, if◌then◌else◌,
}
use uaagro_voice_agent.Mulaw.Defs.{
  decoded_size, is_negative, packed, bias, magnitude, clip, segment_from, segment, encode_sample,
  decode_sample, pcm_to_mulaw, mulaw_to_pcm,
}

-- A byte that the encoder gives back for what the decoder made of it; of the two bytes for silence
-- it gives back the one with the sign of a positive sample.
abbrev comes_back : ℕ → Bool
comes_back b = encode_sample (decode_sample b) == (if b == 127 then 255 else b)

bytes_checked : all_below 256 comes_back ≡ true
unfolding encode_sample decode_sample segment segment_from magnitude is_negative decoded_size packed
bytes_checked = refl

-- Every byte but one is what the encoder makes of the sample that it decodes to: all but 127, the
-- second of the two bytes for silence, which comes back as 255.
encode_sample-decode_sample :
    (b : ℕ) → b < 256 → encode_sample (decode_sample b) ≡ (if b == 127 then 255 else b)
encode_sample-decode_sample b lt =
    (==_iff (encode_sample (decode_sample b)) _).0 (all_below_lem 256 comes_back b bytes_checked lt)

-- The size of the sample that a word stands for.
abbrev pub size : ℕ → ℕ
size word = if leb 32768 word then 65536 - word else word

-- The seven bits that the encoder makes of a size, and the size that seven bits decode to.
unfoldable code : ℕ → ℕ
code v = let value = min v clip + bias / 4 in packed value (segment value)

unfoldable heard : ℕ → ℕ
heard c = (c % 16 * 8 + bias) * 2 ^ (c / 16 % 8) - bias

abbrev decodes_both : ℕ → Bool
decodes_both c =
    (size (decode_sample (255 - c)) == heard c)
    && ((size (decode_sample (127 - c)) == heard c)
        && (not (leb 32768 (decode_sample (255 - c)))
            && ((heard c == 0) || leb 32768 (decode_sample (127 - c)))))

codes_checked : all_below 128 decodes_both ≡ true
unfolding decode_sample is_negative decoded_size heard
codes_checked = refl

abbrev is_near : ℕ → Bool
is_near v =
    ltb (code v) 128
    && (leb (32 * (heard (code v) - 4 * v)) (4 * v + 132)
        && (leb (32 * (4 * v + 3 - heard (code v))) (4 * v + 132)
            && leb (32 * (heard (code v) - (4 * v - 3))) (4 * v + 228)))

sizes_checked : all_below 8160 is_near ≡ true
unfolding segment segment_from packed code heard
sizes_checked = refl

near :
    (v : ℕ)
    → v < 8160
    → (code v < 128)
      × (32 * (heard (code v) - 4 * v) ≤ 4 * v + 132)
      × (32 * (4 * v + 3 - heard (code v)) ≤ 4 * v + 132)
      × (32 * (heard (code v) - (4 * v - 3)) ≤ 4 * v + 228)
near v lt =
    let h = all_below_lem 8160 is_near v sizes_checked lt in
    (ground arith, ground arith, ground arith, ground arith)

-- What a byte of either half is heard as: the size of its code, with its own sign.
abbrev IsHeard : ℕ → Bool → ℕ → Type 0
IsHeard word negative h = (size word ≡ h) × ((h ≡ 0) ⊎ (leb 32768 word ≡ negative))

decode_sample-IsHeard :
    (c : ℕ)
    → c < 128
    → IsHeard (decode_sample (255 - c)) false (heard c)
      × IsHeard (decode_sample (127 - c)) true (heard c)
decode_sample-IsHeard c lt =
    let h = all_below_lem 128 decodes_both c codes_checked lt in
    (
      (ground arith, inr (ground arith)),
      (
        ground arith,
        elim (Bool-cases (heard c == 0)) [
          | inl none ↦ inl (ground (arith, none))
          | inr some ↦ inr (ground (arith, some, h))
        ],
      ),
    )

-- The coded sample is heard with the size that its code decodes to, and its sign.
encoded-IsHeard :
    (word : ℕ)
    → magnitude word < 8160
    → IsHeard (decode_sample (encode_sample word)) (leb 32768 word) (heard (code (magnitude word)))
unfolding encode_sample code is_negative
encoded-IsHeard word lt =
    let both = decode_sample-IsHeard (code (magnitude word)) (near (magnitude word) lt).0 in
    elim (Bool-cases (leb 32768 word)) [ inl e ↦ rw e both.1 | inr e ↦ rw e both.0 ]

-- A size is that of its sample shifted by two, rounded down for a sample that is not negative and
-- up for one that is.
size-magnitude :
    (word : ℕ)
    → word < 65536
    → ((size word ≤ 4 * magnitude word + 3) × (4 * magnitude word ≤ size word))
      ⊎ ((size word ≤ 4 * magnitude word) × (4 * magnitude word ≤ size word + 3))
unfolding magnitude is_negative
size-magnitude word lt = elim (Bool-cases (leb 32768 word)) [
  | inl e ↦
      let le = leb→le 32768 word e in rw e (inr (omega (arith, lt, le), omega (arith, lt, le)))
  | inr e ↦ rw e (inl (omega arith, omega arith))
]

-- A sample that is not clipped, so at most 32,635 in size, is heard with its sign and at nearly
-- its size: 32 times the error is at most the size and 231 more, in the units of a 16-bit sample.
-- What is heard with size 0 has no sign.
pub decode_sample-encode_sample :
    (word : ℕ)
    → word < 65536
    → size word < 32636
    → ((size (decode_sample (encode_sample word)) ≡ 0)
        ⊎ (leb 32768 (decode_sample (encode_sample word)) ≡ leb 32768 word))
      × (32 * (size (decode_sample (encode_sample word)) - size word) ≤ size word + 231)
      × (32 * (size word - size (decode_sample (encode_sample word))) ≤ size word + 231)
decode_sample-encode_sample word lt small =
    let rounds = size-magnitude word lt in
    let few : magnitude word < 8160 = elim rounds [
      | inl r ↦ omega (arith, r.1, small)
      | inr r ↦ omega (arith, r.1, small)
    ] in
    let (_, over, under, over_negative) = near (magnitude word) few in
    let (sized, signed) = encoded-IsHeard word few in
    (
      elim signed [ inl silent ↦ inl (sized ∙ silent) | inr same ↦ inr same ],
      rw sized (elim rounds [
        | inl r ↦ omega (arith, r.0, r.1, over)
        | inr r ↦ omega (arith, r.0, r.1, over_negative)
      ]),
      rw sized (elim rounds [
        | inl r ↦ omega (arith, r.0, r.1, under)
        | inr r ↦ omega (arith, r.0, r.1, under)
      ]),
    )

words_checked : all_below 256 (λ b. ltb (decode_sample b) 65536) ≡ true
unfolding decode_sample decoded_size
words_checked = refl

-- A word is put together again from its two bytes.
two_bytes : (word : ℕ) → word < 65536 → word % 256 + word / 256 % 256 * 256 ≡ word
two_bytes word lt = omega arith

-- A stream of bytes through the decoder and back is the same stream, if it has no byte 127, and
-- twice as long in between.
pcm_to_mulaw-mulaw_to_pcm :
    (bytes : List ℕ)
    → all (λ b. ltb b 256 && not (b == 127)) bytes ≡ true
    → (pcm_to_mulaw (mulaw_to_pcm bytes) ≡ bytes) × (length (mulaw_to_pcm bytes) ≡ 2 * length bytes)
unfolding pcm_to_mulaw mulaw_to_pcm
pcm_to_mulaw-mulaw_to_pcm [] h = (refl, omega arith)
pcm_to_mulaw-mulaw_to_pcm (b ∷ bytes) h =
    let (ok, rest) = and_parts (ltb b 256 && not (b == 127)) _ h in
    let lt : b < 256 = ground arith in
    let word = all_below_lem 256 (λ x. ltb (decode_sample x) 65536) b words_checked lt in
    let back = encode_sample-decode_sample b lt in
    let one : b == 127 ≡ false = ground arith in
    let (same, twice) = pcm_to_mulaw-mulaw_to_pcm bytes rest in
    (rw (two_bytes (decode_sample b) (ltb→lt _ _ word), back, one, same) refl, omega (arith, twice))
