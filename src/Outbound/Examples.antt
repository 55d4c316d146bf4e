-- ===== src/Outbound/Examples.antt =====
-- Outbound calls that are run, and the theorems at inputs that meet their hypotheses.
use uaagro_voice_agent.Prelude.{
  ◌≡◌, refl, true, false, ◌||◌, none, some, List, [], ◌∷◌, arith, String, str_eq, string_eq,
  contains, if◌then◌else◌,
}
use uaagro_voice_agent.Outbound.Reply.{
  key_reply, spoken_part, speech_reply, dtmf_of, is_empty, classify_reply, Recognisers,
}
use uaagro_voice_agent.Outbound.Responder.{
  sent, unheard, say_chunks, remove, raise_ticket, finish, final_outcome, declined_or_unheard,
  count_question, confirm, mark_details, answer_lines, answer, answer_or_decline, asked_something,
  wants_details, at_pitched, at_permission, note_key, at_verify, by_stage, take_turn, said,
  Responder, Turn, verify, pitched, respond, respond_all, closing, ask_time, message, then_ask,
  on_press_1, whatsapp_failed_line, ticketed, reprompt_line, chunk,
}
use uaagro_voice_agent.Outbound.Deeds.{honest}
use uaagro_voice_agent.Outbound.Honest.{respond_all-honest}
use uaagro_voice_agent.Outbound.Verdict.{is_open, is_undecided, is_settled_at, IsSettled}
use uaagro_voice_agent.Outbound.Outcome.{respond_all-IsSettled}
use uaagro_voice_agent.Outbound.Questions.{respond-last_question}
use uaagro_voice_agent.Outbound.Flow.{
  OutboundState, outbound_state_eq, OutboundFlow, new_flow, transitions, handle_opt_out,
  removed_line, opt_out,
}
use uaagro_voice_agent.Outbound.Handlers.{handle_opt_out_lem}
use uaagro_voice_agent.Outbound.Script.{TextOps, OutboundScript}

-- Recognisers that know one English word each, and markers of one key.
abbrev words : Recognisers
words = record {
  strip = λ s. s;
  marker = λ s. if str_eq s "[dtmf 2]" then some "2" else none;
  is_opt_out = λ s. str_eq s "do not call";
  is_third_party = λ s. str_eq s "wrong number";
  is_negative = λ s. str_eq s "no";
  is_affirmative = λ s. str_eq s "yes";
}

abbrev new_call : Responder
new_call = record {
  has_questions = true;
  has_suppress = true;
  has_whatsapp = true;
  has_ticket = true;
  max_questions = 3;
  stage = verify;
  result = record {
    outcome = none;
    dtmf = none;
    interest = none;
    call_outcome = none;
    whatsapp_sent = false;
  };
  call_over = false;
  questions_asked = 0;
  unclear_turns = 0;
}

abbrev says : String → Turn
says s = record {
  transcript = s;
  suppress_returns = true;
  send_returns = some false;
  ticket_returns = true;
  chunks = "on Monday" ∷ [];
  answer_returns = true;
}

-- A yes to who and when, a question, and a yes whose message is refused.
abbrev accepting : List Turn
accepting = says "yes" ∷ says "yes" ∷ says "when?" ∷ says "yes" ∷ []

respond_all-accepting :
    (respond_all words accepting new_call).0
    ≡ said ask_time
      ∷ said message
      ∷ said then_ask
      ∷ said (chunk "on Monday")
      ∷ said reprompt_line
      ∷ said on_press_1
      ∷ said whatsapp_failed_line
      ∷ said message
      ∷ ticketed
      ∷ said closing
      ∷ []
unfolding respond_all respond take_turn by_stage at_verify classify_reply dtmf_of speech_reply
    is_empty spoken_part note_key at_permission at_pitched answer_or_decline wants_details
    asked_something answer answer_lines mark_details key_reply confirm count_question
    declined_or_unheard final_outcome finish raise_ticket remove say_chunks sent unheard
respond_all-accepting = refl

-- Someone else at the farmer's phone hears the message, if they say so one question too late.
abbrev late : List Turn
late = says "yes" ∷ says "wrong number" ∷ []

respond_all-late :
    (respond_all words late new_call).0 ≡ said ask_time ∷ said message ∷ said then_ask ∷ []
unfolding respond_all respond take_turn by_stage at_verify classify_reply dtmf_of speech_reply
    is_empty spoken_part note_key at_permission
respond_all-late = refl

respond_all-honest_example :
    honest false false (respond_all words (says "do not call" ∷ []) new_call).0 ≡ true
respond_all-honest_example = respond_all-honest words (says "do not call" ∷ []) new_call refl

respond_all-IsSettled_example : IsSettled (respond_all words accepting new_call).1
unfolding is_settled_at is_undecided is_open
respond_all-IsSettled_example = respond_all-IsSettled words accepting new_call refl

abbrev asked : List Turn
asked = says "when?" ∷ says "where?" ∷ says "how?" ∷ says "why?" ∷ []

abbrev told : Responder
told = record new_call { stage = pitched; questions_asked = 2 }

respond-last_question_example :
    (respond words (says "no") (respond words (says "when?") told).next).next.call_over ≡ true
unfolding classify_reply dtmf_of speech_reply is_empty wants_details asked_something spoken_part
respond-last_question_example =
    respond-last_question words (says "when?") (says "no") told (refl, refl, refl) (refl, refl)
      (omega arith) refl refl

-- An opt-out at PERMISSION.
abbrev asking : OutboundFlow
asking = record new_flow { state = OutboundState.permission }

handle_opt_out_lem_example :
    ((handle_opt_out (some true) asking).wrote ≡ contains opt_out (transitions asking.state))
    × ((handle_opt_out (some true) asking).line
        ≡ (if (handle_opt_out (some true) asking).wrote then some removed_line else none))
    × ((handle_opt_out (some true) asking).flow.opted_out
        ≡ ((handle_opt_out (some true) asking).wrote || false))
handle_opt_out_lem_example = handle_opt_out_lem true asking

abbrev plain : TextOps
plain = record {
  strip = λ s. s;
  tidy = λ s. s;
  count_words = λ s. 1;
  replace = λ from to s. s;
  concat = λ parts. "";
}

abbrev meeting : OutboundScript
meeting = record {
  ask_time = "Two minutes?";
  message = "A meeting on Monday.";
  then_ask = "Will you come?";
  on_press_1 = "Very good.";
  closing = "Thank you.";
}
