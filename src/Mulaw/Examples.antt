-- ===== src/Mulaw/Examples.antt =====
-- Bytes through the codec.
use uaagro_voice_agent.Prelude.{◌≤◌, ◌≡◌, ◌⊎◌, true, leb, ◌-◌, ◌*◌, arith}
use uaagro_voice_agent.Mulaw.Defs.{encode_sample, decode_sample}
use uaagro_voice_agent.Mulaw.Codec.{size, decode_sample-encode_sample}

-- The word of -1000.
decode_sample-encode_sample_example :
    ((size (decode_sample (encode_sample 64536)) ≡ 0)
      ⊎ (leb 32768 (decode_sample (encode_sample 64536)) ≡ true))
    × (32 * (size (decode_sample (encode_sample 64536)) - 1000) ≤ 1231)
    × (32 * (1000 - size (decode_sample (encode_sample 64536))) ≤ 1231)
decode_sample-encode_sample_example = decode_sample-encode_sample 64536 (omega arith) (omega arith)
