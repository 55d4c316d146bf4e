-- ===== src/Outbound/Reply.antt =====
-- What a farmer's turn meant: classify_reply of
-- apps/voice-worker/src/voice_worker/outbound/conversation.py and dtmf_of of responder.py.
use uaagro_voice_agent.Prelude.{Bool, ◌||◌, Option, none, some, String, str_eq, if◌then◌else◌}

-- `str.strip`, what DTMF_MARKER captures, and what the four recognisers find in a text.
pub record Recognisers : Type 0 where
  pub strip : String → String
  pub marker : String → Option String
  pub is_opt_out : String → Bool
  pub is_third_party : String → Bool
  pub is_negative : String → Bool
  pub is_affirmative : String → Bool

pub data Reply : Type 0 where
  affirmative negative opt_out third_party unclear : Reply

-- `not text`
unfoldable pub is_empty : String → Bool
is_empty t = str_eq t ""

-- The keys that mean something, whatever was said.
unfoldable pub key_reply : String → Option Reply
key_reply k =
    if str_eq k "1"
    then some affirmative
    else if str_eq k "2"
    then some negative
    else if str_eq k "9"
    then some opt_out
    else none

unfoldable pub speech_reply : Recognisers → String → Reply
speech_reply r text =
    if is_empty text || is_empty (r.strip text)
    then unclear
    else if r.is_opt_out text
    then opt_out
    else if r.is_third_party text
    then third_party
    else if r.is_negative text
    then negative
    else if r.is_affirmative text
    then affirmative
    else unclear

unfoldable pub classify_reply : Recognisers → String → Option String → Reply
classify_reply r text none = speech_reply r text
classify_reply r text (some key) = elim (key_reply (r.strip key)) [
  | some reply ↦ reply
  | none ↦ speech_reply r text
]

unfoldable pub dtmf_of : Recognisers → String → Option String
dtmf_of r transcript = r.marker (r.strip transcript)

-- `"" if dtmf else transcript`: the digit is tested for being non-empty.
unfoldable pub spoken_part : Option String → String → String
spoken_part none transcript = transcript
spoken_part (some key) transcript = if is_empty key then transcript else ""
