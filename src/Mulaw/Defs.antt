-- ===== src/Mulaw/Defs.antt =====
-- The G.711 codec: apps/voice-worker/src/voice_worker/adapters/telephony/mulaw.py. A sample is the
-- word that the two bytes make, below 2 ^ 16, with the sign of a two's complement; a byte is a
-- number below 256. `x ^ 0xFF` is 255 - x on a byte and `x ^ 0x7F` is 127 - x below 128; a shift is
-- a product or a quotient by a power of two.
use uaagro_voice_agent.Prelude.{
  Bool, ℕ, suc, ◌+◌, ◌-◌, ◌*◌, ◌/◌, ◌%◌, ◌^◌, min, List, [], ◌∷◌, ltb, leb, if◌then◌else◌,
}

abbrev pub clip : ℕ
clip = 8159

abbrev pub bias : ℕ
bias = 132

abbrev pub segment_end : List ℕ
segment_end = 63 ∷ 127 ∷ 255 ∷ 511 ∷ 1023 ∷ 2047 ∷ 4095 ∷ 8191 ∷ []

-- The index of the first boundary that the value does not pass; 8 when it passes all.
unfoldable pub segment_from : ℕ → List ℕ → ℕ → ℕ
segment_from index [] value = 8
segment_from index (boundary ∷ rest) value =
    if leb value boundary then index else segment_from (suc index) rest value

unfoldable pub segment : ℕ → ℕ
segment value = segment_from 0 segment_end value

-- The sign of a word, and the size of its sample shifted right by two, which rounds down.
unfoldable pub is_negative : ℕ → Bool
is_negative word = leb 32768 word

unfoldable pub magnitude : ℕ → ℕ
magnitude word = if is_negative word then 16384 - word / 4 else word / 4

abbrev pub mask : ℕ → ℕ
mask word = if is_negative word then 127 else 255

-- The seven bits of a biased value: its segment and the four bits below the leading one. A value
-- beyond the last boundary gives all ones.
unfoldable pub packed : ℕ → ℕ → ℕ
packed value seg = if leb 8 seg then 127 else seg * 16 + value / 2 ^ suc seg % 16

unfoldable pub encode_sample : ℕ → ℕ
encode_sample word =
    let value = min (magnitude word) clip + bias / 4 in mask word - packed value (segment value)

-- The size of the decoded sample, and the word of the sample with its sign.
unfoldable pub decoded_size : ℕ → ℕ
decoded_size byte = let value = 255 - byte in (value % 16 * 8 + bias) * 2 ^ (value / 16 % 8) - bias

unfoldable pub decode_sample : ℕ → ℕ
decode_sample byte = if ltb byte 128 then (65536 - decoded_size byte) % 65536 else decoded_size byte

-- An odd byte at the end is dropped.
unfoldable pub pcm_to_mulaw : List ℕ → List ℕ
pcm_to_mulaw [] = []
pcm_to_mulaw (low ∷ []) = []
pcm_to_mulaw (low ∷ high ∷ pcm) = encode_sample (low + high * 256) ∷ pcm_to_mulaw pcm

unfoldable pub mulaw_to_pcm : List ℕ → List ℕ
mulaw_to_pcm [] = []
mulaw_to_pcm (byte ∷ mulaw) =
    decode_sample byte % 256 ∷ decode_sample byte / 256 % 256 ∷ mulaw_to_pcm mulaw
