-- ===== src/Outbound/Outcome.antt =====
-- A call is over exactly when it has a verdict on its contact.
use mathlib.Core.Path.{subst}
use uaagro_voice_agent.Prelude.{
  ◌≡◌, refl, Bool, true, false, ◌&&◌, ◌||◌, not, Option, none, some, List, [], ◌∷◌, arith, String,
  if_by,
}
use uaagro_voice_agent.Outbound.Reply.{
  Recognisers, Reply, affirmative, negative, opt_out, third_party, unclear, dtmf_of, spoken_part,
  classify_reply,
}
use uaagro_voice_agent.Outbound.Responder.{
  ContactResult, talked, wrong_person, not_interested, wrong_person_level, take_turn,
  answer_or_decline, yields, Responder, Turn, respond, respond_all, by_stage, at_verify,
  at_permission, at_pitched, answer, mark_details, note_key, count_question, verify, permission,
  pitched, closed, Stage, asked_something, wants_details, answer_or_decline,
}
use uaagro_voice_agent.CallFlow.{CallOutcome}
use uaagro_voice_agent.Outbound.Verdict.{
  IsSettled, is_settled_at, is_undecided, is_open, EndsSettled, CanEnd-declined,
  CanEnd-wrong_person, finish-IsSettled, remove-IsSettled, confirm-IsSettled,
  declined_or_unheard-IsSettled,
}

-- A responder at the message, nothing decided.
abbrev IsPitched : Responder → Type 0
IsPitched r = (r.stage ≡ pitched) × (r.call_over ≡ false) × (is_undecided r.result ≡ true)

IsPitched-IsSettled : (r : Responder) → IsPitched r → IsSettled r
unfolding is_settled_at
IsPitched-IsSettled r (s, c, u) = rw (s, c) u

mark_details-IsPitched :
    (dtmf : Option String) (r : Responder) → IsPitched r → IsPitched (mark_details dtmf r)
unfolding mark_details is_undecided is_open
mark_details-IsPitched dtmf r h =
    if_by IsPitched (wants_details dtmf) _ _ (λ e. (h.0, h.1, ground arith)) (λ e. h)

answer_or_decline-IsSettled :
    (re : Recognisers) (text : String) (dtmf : Option String) (t : Turn) (reply : Reply)
    → (r : Responder) → IsPitched r
    → IsSettled (answer_or_decline re text dtmf t reply r).next
unfolding answer_or_decline answer count_question
answer_or_decline-IsSettled re text dtmf t reply r p =
    if_by EndsSettled (wants_details dtmf || asked_something re text dtmf reply) _ _
      (λ e. IsPitched-IsSettled (mark_details dtmf r) (mark_details-IsPitched dtmf r p))
      (λ e. declined_or_unheard-IsSettled reply r (IsPitched-IsSettled r p) p.2)

at_pitched-IsSettled :
    (re : Recognisers) (text : String) (dtmf : Option String) (t : Turn) (reply : Reply)
    → (r : Responder) → IsPitched r
    → IsSettled (at_pitched re text dtmf t reply r).next
unfolding at_pitched
at_pitched-IsSettled re text dtmf t opt_out r p = remove-IsSettled t r (IsPitched-IsSettled r p) p.2
at_pitched-IsSettled re text dtmf t affirmative r p = confirm-IsSettled t r p.2
at_pitched-IsSettled re text dtmf t negative r p =
    answer_or_decline-IsSettled re text dtmf t negative r p
at_pitched-IsSettled re text dtmf t third_party r p =
    answer_or_decline-IsSettled re text dtmf t third_party r p
at_pitched-IsSettled re text dtmf t unclear r p =
    answer_or_decline-IsSettled re text dtmf t unclear r p

at_verify-IsSettled :
    (t : Turn) (reply : Reply) (r : Responder)
    → IsSettled r
    → is_undecided r.result ≡ true
    → r.call_over ≡ false
    → IsSettled (at_verify t reply r).next
unfolding at_verify is_settled_at
at_verify-IsSettled t opt_out r h u c = remove-IsSettled t r h u
at_verify-IsSettled t affirmative r h u c = rw c u
at_verify-IsSettled t unclear r h u c = rw c u
at_verify-IsSettled t negative r h u c =
    finish-IsSettled wrong_person wrong_person_level CallOutcome.not_reached r CanEnd-wrong_person u
at_verify-IsSettled t third_party r h u c =
    finish-IsSettled wrong_person wrong_person_level CallOutcome.not_reached r CanEnd-wrong_person u

at_permission-IsSettled :
    (t : Turn) (reply : Reply) (r : Responder)
    → IsSettled r
    → is_undecided r.result ≡ true
    → r.call_over ≡ false
    → IsSettled (at_permission t reply r).next
unfolding at_permission is_settled_at
at_permission-IsSettled t opt_out r h u c = remove-IsSettled t r h u
at_permission-IsSettled t affirmative r h u c = rw c u
at_permission-IsSettled t unclear r h u c = rw c u
at_permission-IsSettled t third_party r h u c = rw c u
at_permission-IsSettled t negative r h u c =
    finish-IsSettled talked not_interested CallOutcome.offer_declined r CanEnd-declined u

open_parts :
    (over : Bool) (res : ContactResult)
    → (not over && is_undecided res) ≡ true
    → (over ≡ false) × (is_undecided res ≡ true)
open_parts over res h = ground arith

move_stage :
    (s : Stage) (r : Responder)
    → r.stage ≡ s
    → IsSettled r
    → is_settled_at s r.call_over r.result ≡ true
move_stage s r e h = subst (λ x. is_settled_at x r.call_over r.result ≡ true) e h

by_stage-IsSettled :
    (re : Recognisers) (text : String) (dtmf : Option String) (t : Turn) (reply : Reply)
    → (s : Stage) (r : Responder) → r.stage ≡ s
    → IsSettled r
    → IsSettled (by_stage re text dtmf t reply s r).next
unfolding by_stage is_settled_at
by_stage-IsSettled re text dtmf t reply verify r e h =
    let (c, u) = open_parts r.call_over r.result (move_stage verify r e h) in
    at_verify-IsSettled t reply r h u c
by_stage-IsSettled re text dtmf t reply permission r e h =
    let (c, u) = open_parts r.call_over r.result (move_stage permission r e h) in
    at_permission-IsSettled t reply r h u c
by_stage-IsSettled re text dtmf t reply pitched r e h =
    let (c, u) = open_parts r.call_over r.result (move_stage pitched r e h) in
    at_pitched-IsSettled re text dtmf t reply r (e, c, u)
by_stage-IsSettled re text dtmf t reply closed r e h = h

keyed_settled_at :
    (key : String) (s : Stage) (over : Bool) (res : ContactResult)
    → is_settled_at s over res ≡ true
    → is_settled_at s over (record res { dtmf = some key }) ≡ true
unfolding is_settled_at is_undecided
keyed_settled_at key verify over res k = k
keyed_settled_at key permission over res k = k
keyed_settled_at key pitched over res k = k
keyed_settled_at key closed over res k = k

note_key-IsSettled :
    (dtmf : Option String) (r : Responder) → IsSettled r → IsSettled (note_key dtmf r)
unfolding note_key
note_key-IsSettled none r h = h
note_key-IsSettled (some key) r h = keyed_settled_at key r.stage r.call_over r.result h

note_key-stage : (dtmf : Option String) (r : Responder) → (note_key dtmf r).stage ≡ r.stage
unfolding note_key
note_key-stage none r = refl
note_key-stage (some key) r = refl

respond-IsSettled :
    (re : Recognisers) (t : Turn) (r : Responder) → IsSettled r → IsSettled (respond re t r).next
unfolding respond take_turn
respond-IsSettled re t r h =
    let dtmf = dtmf_of re t.transcript in
    let text = spoken_part dtmf t.transcript in
    if_by EndsSettled r.call_over (yields [] r) _ (λ e. h)
      (λ e.
        by_stage-IsSettled re text dtmf t (classify_reply re text dtmf) r.stage (note_key dtmf r)
          (note_key-stage dtmf r) (note_key-IsSettled dtmf r h))

-- Whatever the farmer says in whatever number of turns: a call that is settled stays settled. It
-- is over exactly when its stage is CLOSED; then its outcome, interest and disposition are one of
-- the seven combinations of a verdict, and a message counts as sent only with a yes; until then
-- nothing is decided but that details were asked for.
pub respond_all-IsSettled :
    (re : Recognisers) (turns : List Turn) (r : Responder)
    → IsSettled r
    → IsSettled (respond_all re turns r).1
unfolding respond_all
respond_all-IsSettled re [] r h = h
respond_all-IsSettled re (t ∷ turns) r h =
    respond_all-IsSettled re turns (respond re t r).next (respond-IsSettled re t r h)
