-- ===== src/Outbound/Responder.antt =====
-- The outbound script driven one turn at a time: OutboundResponder of
-- apps/voice-worker/src/voice_worker/outbound/responder.py. What a turn says and does is a list
-- of deeds in order; a turn's generator runs to its end.
use uaagro_voice_agent.Prelude.{
  ℕ, suc, Bool, true, false, ◌&&◌, ◌||◌, not, Option, none, some, List, [], ◌∷◌, ◌++◌, String,
  str_eq, leb, if◌then◌else◌,
}
use uaagro_voice_agent.CallFlow.{CallOutcome}
use uaagro_voice_agent.Outbound.Reply.{
  Recognisers, Reply, affirmative, negative, opt_out, third_party, unclear, is_empty,
  classify_reply, dtmf_of, spoken_part,
}

pub data Stage : Type 0 where
  verify permission pitched closed : Stage

-- The panel's vocabulary.
pub data ContactOutcome : Type 0 where
  pressed_1 pressed_2 talked opted_out wrong_person : ContactOutcome

pub data InterestLevel : Type 0 where
  interested not_interested callback_requested wrong_person_level no_response : InterestLevel

pub data ContactStatus : Type 0 where
  completed status_opted_out : ContactStatus

pub record ContactResult : Type 0 where
  pub outcome : Option ContactOutcome
  pub dtmf : Option String
  pub interest : Option InterestLevel
  pub call_outcome : Option CallOutcome
  pub whatsapp_sent : Bool

unfoldable pub status : ContactResult → ContactStatus
status r = elim r.outcome [ some opted_out ↦ status_opted_out | _ ↦ completed ]

-- The lines of the script and the constants; a chunk is the knowledge agent's.
pub data Line : Type 0 where
  ask_time message then_ask on_press_1 closing opt_out_line : Line
  wrong_person_line no_time_line declined_line reprompt_line : Line
  questions_unavailable_line whatsapp_failed_line whatsapp_sent_line : Line
  chunk : String → Line

-- A line yielded, and the callbacks that returned: the suppression, a message accepted for
-- delivery, a ticket raised.
pub data Deed : Type 0 where
  said : Line → Deed
  suppressed delivered ticketed : Deed

-- The constructor's arguments, as whether they are given, and the state of the call.
pub record Responder : Type 0 where
  pub has_questions : Bool
  pub has_suppress : Bool
  pub has_whatsapp : Bool
  pub has_ticket : Bool
  pub max_questions : ℕ
  pub stage : Stage
  pub result : ContactResult
  pub call_over : Bool
  pub questions_asked : ℕ
  pub unclear_turns : ℕ

-- A farmer's turn, with what the callbacks that it may reach come to: whether each returns or
-- raises, what send_whatsapp returns, and the chunks of the knowledge agent before it ends.
pub record Turn : Type 0 where
  pub transcript : String
  pub suppress_returns : Bool
  pub send_returns : Option Bool
  pub ticket_returns : Bool
  pub chunks : List String
  pub answer_returns : Bool

pub record Step : Type 0 where
  pub deeds : List Deed
  pub next : Responder
  pub raised : Bool

abbrev pub yields : List Deed → Responder → Step
yields d r = record { deeds = d; next = r; raised = false }

-- A yes keeps nothing of a press-two; a no does.
unfoldable pub final_outcome : ContactOutcome → Option ContactOutcome → ContactOutcome
final_outcome talked (some pressed_2) = pressed_2
final_outcome outcome _ = outcome

unfoldable pub finish : ContactOutcome → InterestLevel → CallOutcome → Responder → Responder
finish outcome level call r = record r {
  result = record r.result {
    outcome = some (final_outcome outcome r.result.outcome);
    interest = some level;
    call_outcome = some call;
  };
  stage = closed;
  call_over = true;
}

-- The tail of `_opt_out`, once the suppression has returned.
abbrev pub confirm_removal : List Deed → Responder → Step
confirm_removal written r =
    yields (written ++ said opt_out_line ∷ said closing ∷ [])
      (finish opted_out not_interested CallOutcome.opted_out r)

unfoldable pub remove : Turn → Responder → Step
remove t r =
    if r.has_suppress
    then if t.suppress_returns
      then confirm_removal (suppressed ∷ []) r
      else record { deeds = []; next = r; raised = true }
    else confirm_removal [] r

unfoldable pub raise_ticket : Turn → Responder → List Deed
raise_ticket t r = if r.has_ticket && t.ticket_returns then ticketed ∷ [] else []

-- `sent`, which stays false when the callback raises.
unfoldable pub sent : Turn → Bool
sent t = elim t.send_returns [ some true ↦ true | _ ↦ false ]

unfoldable pub confirm : Turn → Responder → Step
confirm t r =
    let r1 : Responder = finish pressed_1 interested CallOutcome.offer_accepted r in
    let r2 : Responder = record r1 { result = record r1.result { whatsapp_sent = sent t } } in
    if r.has_whatsapp
    then if sent t
      then yields (said on_press_1 ∷ delivered ∷ said whatsapp_sent_line ∷ said closing ∷ []) r2
      else yields
          (said on_press_1
            ∷ said whatsapp_failed_line
            ∷ said message
            ∷ (raise_ticket t r ++ said closing ∷ []))
          r2
    else yields (said on_press_1 ∷ said closing ∷ []) r1

unfoldable pub say_chunks : List String → List Deed
say_chunks [] = []
say_chunks (c ∷ cs) = said (chunk c) ∷ say_chunks cs

-- What is said to a question before the interest question is asked again.
unfoldable pub answer_lines : Recognisers → String → Turn → Responder → List Deed
answer_lines re text t r =
    if not r.has_questions
    then said questions_unavailable_line ∷ []
    else if is_empty (re.strip text)
    then said message ∷ []
    else if t.answer_returns
    then say_chunks t.chunks
    else say_chunks t.chunks ++ said questions_unavailable_line ∷ []

unfoldable pub count_question : Responder → Responder
count_question r = record r {
  questions_asked = suc r.questions_asked;
  unclear_turns = if leb r.max_questions (suc r.questions_asked) then 1 else r.unclear_turns;
}

unfoldable pub answer : Recognisers → String → Turn → Responder → Step
answer re text t r = yields (answer_lines re text t r ++ said reprompt_line ∷ []) (count_question r)

unfoldable pub at_verify : Turn → Reply → Responder → Step
at_verify t opt_out r = remove t r
at_verify t third_party r =
    yields (said wrong_person_line ∷ [])
      (finish wrong_person wrong_person_level CallOutcome.not_reached r)
at_verify t negative r =
    yields (said wrong_person_line ∷ [])
      (finish wrong_person wrong_person_level CallOutcome.not_reached r)
at_verify t _ r = yields (said ask_time ∷ []) (record r { stage = permission })

unfoldable pub at_permission : Turn → Reply → Responder → Step
at_permission t opt_out r = remove t r
at_permission t negative r =
    yields (said no_time_line ∷ said closing ∷ [])
      (finish talked not_interested CallOutcome.offer_declined r)
at_permission t _ r = yields (said message ∷ said then_ask ∷ []) (record r { stage = pitched })

unfoldable pub wants_details : Option String → Bool
wants_details none = false
wants_details (some key) = str_eq key "2"

unfoldable pub asked_something : Recognisers → String → Option String → Reply → Bool
asked_something re text none unclear = not (is_empty (re.strip text))
asked_something re text _ _ = false

unfoldable pub mark_details : Option String → Responder → Responder
mark_details dtmf r =
    if wants_details dtmf
    then record r { result = record r.result { outcome = some pressed_2 } }
    else r

-- Silence or noise: one more chance, then the closing.
unfoldable pub unheard : Responder → Step
unheard r =
    let r1 : Responder = record r { unclear_turns = suc r.unclear_turns } in
    if leb r1.unclear_turns 1
    then yields (said reprompt_line ∷ []) r1
    else yields (said closing ∷ []) (finish talked no_response CallOutcome.offer_declined r1)

-- `_pitched` after its questions: a no is accepted, anything else was not understood.
unfoldable pub declined_or_unheard : Reply → Responder → Step
declined_or_unheard negative r =
    yields (said declined_line ∷ said closing ∷ [])
      (finish talked not_interested CallOutcome.offer_declined r)
declined_or_unheard _ r = unheard r

-- `_pitched` once the reply is neither an opt-out nor a yes.
unfoldable pub answer_or_decline :
    Recognisers → String → Option String → Turn → Reply → Responder → Step
answer_or_decline re text dtmf t reply r =
    if wants_details dtmf || asked_something re text dtmf reply
    then answer re text t (mark_details dtmf r)
    else declined_or_unheard reply r

unfoldable pub at_pitched : Recognisers → String → Option String → Turn → Reply → Responder → Step
at_pitched re text dtmf t opt_out r = remove t r
at_pitched re text dtmf t affirmative r = confirm t r
at_pitched re text dtmf t reply r = answer_or_decline re text dtmf t reply r

unfoldable pub note_key : Option String → Responder → Responder
note_key none r = r
note_key (some key) r = record r { result = record r.result { dtmf = some key } }

-- `respond` once the turn has been read.
unfoldable pub by_stage :
    Recognisers → String → Option String → Turn → Reply → Stage → Responder → Step
by_stage re text dtmf t reply verify r = at_verify t reply r
by_stage re text dtmf t reply permission r = at_permission t reply r
by_stage re text dtmf t reply pitched r = at_pitched re text dtmf t reply r
by_stage re text dtmf t reply closed r = yields [] r

unfoldable pub take_turn : Recognisers → Turn → Responder → Step
take_turn re t r =
    let dtmf = dtmf_of re t.transcript in
    let text = spoken_part dtmf t.transcript in
    by_stage re text dtmf t (classify_reply re text dtmf) r.stage (note_key dtmf r)

unfoldable pub respond : Recognisers → Turn → Responder → Step
respond re t r = if r.call_over then yields [] r else take_turn re t r

-- A call: the farmer's turns one after another. A turn that raises leaves its responder to the
-- next one.
unfoldable pub respond_all : Recognisers → List Turn → Responder → List Deed × Responder
respond_all re [] r = ([], r)
respond_all re (t ∷ turns) r =
    let s : Step = respond re t r in
    let rest = respond_all re turns s.next in (s.deeds ++ rest.0, rest.1)
