-- ===== src/Outbound/Honest.antt =====
-- The agent never says that a number was removed or that a message was sent before it was.
use uaagro_voice_agent.Prelude.{
  ◌≡◌, refl, inl, inr, true, false, ◌&&◌, ◌||◌, not, Option, none, some, List, [], ◌∷◌, String,
  Bool-cases, if_by, leb, suc, ◌∙◌,
}
use uaagro_voice_agent.Outbound.Reply.{
  Recognisers, Reply, affirmative, negative, opt_out, third_party, unclear, dtmf_of, spoken_part,
  classify_reply, is_empty,
}
use uaagro_voice_agent.Outbound.Responder.{
  said, reprompt_line, questions_unavailable_line, Responder, Turn, Step, respond, respond_all,
  take_turn, yields, by_stage, at_verify, at_permission, at_pitched, remove, confirm, answer,
  answer_lines, say_chunks, raise_ticket, sent, declined_or_unheard, unheard, mark_details,
  note_key, finish, count_question, verify, permission, pitched, closed, Stage, asked_something,
  wants_details, answer_or_decline,
}
use uaagro_voice_agent.Outbound.Deeds.{honest, honest-append, honest-say_chunks}

-- A step that is honest, and keeps whether there is a suppression to call.
abbrev pub IsSound : Responder → Step → Type 0
IsSound r step = (honest false false step.deeds ≡ true) × (step.next.has_suppress ≡ r.has_suppress)

remove-IsSound : (t : Turn) (r : Responder) → r.has_suppress ≡ true → IsSound r (remove t r)
unfolding remove finish
remove-IsSound t r h = elim (Bool-cases t.suppress_returns) [
  | inl e ↦ rw (h, e) (refl, refl)
  | inr e ↦ rw (h, e) (refl, refl)
]

confirm-IsSound : (t : Turn) (r : Responder) → IsSound r (confirm t r)
unfolding confirm finish raise_ticket
confirm-IsSound t r = elim (Bool-cases r.has_whatsapp) [
  | inr e ↦ rw e (refl, refl)
  | inl e ↦ elim (Bool-cases (sent t)) [
    | inl f ↦ rw (e, f) (refl, refl)
    | inr f ↦ elim (Bool-cases (r.has_ticket && t.ticket_returns)) [
      | inl g ↦ rw (e, f, g) (refl, refl)
      | inr g ↦ rw (e, f, g) (refl, refl)
    ]
  ]
]

honest-answer_lines :
    (re : Recognisers) (text : String) (t : Turn) (r : Responder)
    → honest false false (answer_lines re text t r) ≡ true
unfolding answer_lines
honest-answer_lines re text t r = elim (Bool-cases (not r.has_questions)) [
  | inl e ↦ rw e refl
  | inr e ↦ elim (Bool-cases (is_empty (re.strip text))) [
    | inl f ↦ rw (e, f) refl
    | inr f ↦ elim (Bool-cases t.answer_returns) [
      | inl g ↦ rw (e, f, g) (honest-say_chunks false false t.chunks)
      | inr g ↦
          rw (e, f, g)
            (honest-append false false (say_chunks t.chunks) (said questions_unavailable_line ∷ [])
              (honest-say_chunks false false t.chunks) refl)
    ]
  ]
]

answer-IsSound :
    (re : Recognisers) (text : String) (t : Turn) (r : Responder) → IsSound r (answer re text t r)
unfolding answer count_question
answer-IsSound re text t r = (
  honest-append false false (answer_lines re text t r) (said reprompt_line ∷ [])
      (honest-answer_lines re text t r) refl,
  refl,
)

unheard-IsSound : (r : Responder) → IsSound r (unheard r)
unfolding unheard finish
unheard-IsSound r = elim (Bool-cases (leb (suc r.unclear_turns) 1)) [
  | inl e ↦ rw e (refl, refl)
  | inr e ↦ rw e (refl, refl)
]

declined_or_unheard-IsSound :
    (reply : Reply) (r : Responder) → IsSound r (declined_or_unheard reply r)
unfolding declined_or_unheard finish
declined_or_unheard-IsSound negative r = (refl, refl)
declined_or_unheard-IsSound affirmative r = unheard-IsSound r
declined_or_unheard-IsSound opt_out r = unheard-IsSound r
declined_or_unheard-IsSound third_party r = unheard-IsSound r
declined_or_unheard-IsSound unclear r = unheard-IsSound r

mark_details-has_suppress :
    (dtmf : Option String) (r : Responder) → (mark_details dtmf r).has_suppress ≡ r.has_suppress
unfolding mark_details
mark_details-has_suppress dtmf r = elim (Bool-cases (wants_details dtmf)) [
  | inl e ↦ rw e refl
  | inr e ↦ rw e refl
]

answer_or_decline-IsSound :
    (re : Recognisers) (text : String) (dtmf : Option String) (t : Turn) (reply : Reply)
    → (r : Responder) → IsSound r (answer_or_decline re text dtmf t reply r)
unfolding answer_or_decline
answer_or_decline-IsSound re text dtmf t reply r =
    elim (Bool-cases (wants_details dtmf || asked_something re text dtmf reply)) [
      | inl e ↦
          let s = answer-IsSound re text t (mark_details dtmf r) in
          rw e (s.0, s.1 ∙ mark_details-has_suppress dtmf r)
      | inr e ↦ rw e (declined_or_unheard-IsSound reply r)
    ]

at_pitched-IsSound :
    (re : Recognisers) (text : String) (dtmf : Option String) (t : Turn) (reply : Reply)
    → (r : Responder) → r.has_suppress ≡ true
    → IsSound r (at_pitched re text dtmf t reply r)
unfolding at_pitched
at_pitched-IsSound re text dtmf t opt_out r h = remove-IsSound t r h
at_pitched-IsSound re text dtmf t affirmative r h = confirm-IsSound t r
at_pitched-IsSound re text dtmf t negative r h = answer_or_decline-IsSound re text dtmf t negative r
at_pitched-IsSound re text dtmf t third_party r h =
    answer_or_decline-IsSound re text dtmf t third_party r
at_pitched-IsSound re text dtmf t unclear r h = answer_or_decline-IsSound re text dtmf t unclear r

at_verify-IsSound :
    (t : Turn) (reply : Reply) (r : Responder)
    → r.has_suppress ≡ true
    → IsSound r (at_verify t reply r)
unfolding at_verify finish
at_verify-IsSound t opt_out r h = remove-IsSound t r h
at_verify-IsSound t affirmative r h = (refl, refl)
at_verify-IsSound t negative r h = (refl, refl)
at_verify-IsSound t third_party r h = (refl, refl)
at_verify-IsSound t unclear r h = (refl, refl)

at_permission-IsSound :
    (t : Turn) (reply : Reply) (r : Responder)
    → r.has_suppress ≡ true
    → IsSound r (at_permission t reply r)
unfolding at_permission finish
at_permission-IsSound t opt_out r h = remove-IsSound t r h
at_permission-IsSound t affirmative r h = (refl, refl)
at_permission-IsSound t negative r h = (refl, refl)
at_permission-IsSound t third_party r h = (refl, refl)
at_permission-IsSound t unclear r h = (refl, refl)

by_stage-IsSound :
    (re : Recognisers) (text : String) (dtmf : Option String) (t : Turn) (reply : Reply)
    → (s : Stage) (r : Responder) → r.has_suppress ≡ true
    → IsSound r (by_stage re text dtmf t reply s r)
unfolding by_stage
by_stage-IsSound re text dtmf t reply verify r h = at_verify-IsSound t reply r h
by_stage-IsSound re text dtmf t reply permission r h = at_permission-IsSound t reply r h
by_stage-IsSound re text dtmf t reply pitched r h = at_pitched-IsSound re text dtmf t reply r h
by_stage-IsSound re text dtmf t reply closed r h = (refl, refl)

note_key-has_suppress :
    (dtmf : Option String) (r : Responder) → (note_key dtmf r).has_suppress ≡ r.has_suppress
unfolding note_key
note_key-has_suppress none r = refl
note_key-has_suppress (some key) r = refl

take_turn-IsSound :
    (re : Recognisers) (t : Turn) (r : Responder)
    → r.has_suppress ≡ true
    → IsSound r (take_turn re t r)
unfolding take_turn
take_turn-IsSound re t r h =
    let dtmf = dtmf_of re t.transcript in
    let text = spoken_part dtmf t.transcript in
    let k = note_key-has_suppress dtmf r in
    let s =
      by_stage-IsSound re text dtmf t (classify_reply re text dtmf) r.stage (note_key dtmf r)
        (k ∙ h) in
    (s.0, s.1 ∙ k)

respond-IsSound :
    (re : Recognisers) (t : Turn) (r : Responder)
    → r.has_suppress ≡ true
    → IsSound r (respond re t r)
unfolding respond
respond-IsSound re t r h =
    if_by (IsSound r) r.call_over (yields [] r) (take_turn re t r) (λ e. (refl, refl))
      (λ e. take_turn-IsSound re t r h)

-- Of a responder that has the suppression callback, whatever the farmer says in whatever number
-- of turns and whatever the callbacks come to: over the whole call, the line that confirms a
-- removal is spoken only after the suppression was written, and the line that says a message was
-- sent only after one was accepted for delivery.
pub respond_all-honest :
    (re : Recognisers) (turns : List Turn) (r : Responder)
    → r.has_suppress ≡ true
    → honest false false (respond_all re turns r).0 ≡ true
unfolding respond_all
respond_all-honest re [] r h = refl
respond_all-honest re (t ∷ turns) r h =
    let s = respond-IsSound re t r h in
    honest-append false false (respond re t r).deeds _ s.0
      (respond_all-honest re turns (respond re t r).next (s.1 ∙ h))
