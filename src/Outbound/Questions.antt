-- ===== src/Outbound/Questions.antt =====
-- How long questions can keep a call going.
use uaagro_voice_agent.Prelude.{
  ◌≡◌, refl, true, false, ◌||◌, Option, none, some, List, [], ◌∷◌, arith, String, if_by, leb, All,
  length, ◌≤◌, leb→le, ◌+◌, ap, suc,
}
use uaagro_voice_agent.Outbound.Reply.{
  Recognisers, Reply, affirmative, negative, opt_out, third_party, unclear, dtmf_of, spoken_part,
  classify_reply, is_empty,
}
use uaagro_voice_agent.Outbound.Responder.{
  answer_or_decline, Responder, Turn, Step, respond, respond_all, by_stage, at_pitched, remove,
  confirm, answer, sent, declined_or_unheard, unheard, mark_details, note_key, finish,
  count_question, pitched, asked_something, wants_details, answer_or_decline,
}
use uaagro_voice_agent.Outbound.Turns.{reply_of, asks, respond_by}

-- A turn in speech that the recognisers take for nothing else than a question.
abbrev pub IsQuestion : Recognisers → Turn → Type 0
IsQuestion re t =
    (dtmf_of re t.transcript ≡ none)
    × (classify_reply re t.transcript none ≡ unclear)
    × (is_empty (re.strip t.transcript) ≡ false)

-- The responder has spoken the message and the call goes on.
abbrev pub IsOnLine : Responder → Type 0
IsOnLine r = (r.stage ≡ pitched) × (r.call_over ≡ false)

pitched_question :
    (re : Recognisers) (text : String) (t : Turn) (r : Responder)
    → is_empty (re.strip text) ≡ false
    → (by_stage re text none t unclear pitched r).next ≡ count_question r
unfolding by_stage at_pitched answer_or_decline wants_details asked_something answer mark_details
pitched_question re text t r x = rw x refl

respond-question :
    (re : Recognisers) (t : Turn) (r : Responder)
    → IsQuestion re t
    → IsOnLine r
    → (respond re t r).next ≡ count_question r
unfolding spoken_part note_key
respond-question re t r (d, c, x) (s, o) =
    rw (respond_by re t r none unclear pitched o d c s) (pitched_question re t.transcript t r x)

-- However many questions are allowed: a farmer who only asks questions, spoken and understood as
-- such, keeps the call going as long as they like; after any number of them the call is not over,
-- it still stands at the message, and each of the questions was counted.
respond_all-questions :
    (re : Recognisers) (turns : List Turn) (r : Responder)
    → All (IsQuestion re) turns
    → IsOnLine r
    → IsOnLine (respond_all re turns r).1
      × ((respond_all re turns r).1.questions_asked ≡ length turns + r.questions_asked)
unfolding respond_all count_question
respond_all-questions re [] r h p = (p, omega arith)
respond_all-questions re (t ∷ turns) r h p =
    let n = respond-question re t r h.0 p in
    let on : IsOnLine (respond re t r).next = rw n p in
    let (line, asked) = respond_all-questions re turns (respond re t r).next h.1 on in
    let one = ap (λ (x : Responder). x.questions_asked) n in (line, omega (arith, asked, one))

abbrev EndsOver : Step → Type 0
EndsOver s = s.next.call_over ≡ true

remove-over : (t : Turn) (r : Responder) → t.suppress_returns ≡ true → EndsOver (remove t r)
unfolding remove finish
remove-over t r w =
    if_by EndsOver r.has_suppress _ _
      (λ _. if_by EndsOver t.suppress_returns _ _ (λ _. refl) (λ e. absurd (ground arith)))
      (λ _. refl)

confirm-over : (t : Turn) (r : Responder) → EndsOver (confirm t r)
unfolding confirm finish
confirm-over t r =
    if_by EndsOver r.has_whatsapp _ _ (λ _. if_by EndsOver (sent t) _ _ (λ _. refl) (λ _. refl))
      (λ _. refl)

unheard-over : (r : Responder) → 1 ≤ r.unclear_turns → EndsOver (unheard r)
unfolding unheard finish
unheard-over r k =
    if_by EndsOver (leb (suc r.unclear_turns) 1) _ _
      (λ e. absurd (omega (arith, leb→le (suc r.unclear_turns) 1 e, k))) (λ _. refl)

declined_or_unheard-over :
    (reply : Reply) (r : Responder) → 1 ≤ r.unclear_turns → EndsOver (declined_or_unheard reply r)
unfolding declined_or_unheard finish
declined_or_unheard-over negative r k = refl
declined_or_unheard-over affirmative r k = unheard-over r k
declined_or_unheard-over opt_out r k = unheard-over r k
declined_or_unheard-over third_party r k = unheard-over r k
declined_or_unheard-over unclear r k = unheard-over r k

answer_or_decline-over :
    (re : Recognisers) (text : String) (dtmf : Option String) (t : Turn) (reply : Reply)
    → (r : Responder) → (wants_details dtmf || asked_something re text dtmf reply) ≡ false
    → 1 ≤ r.unclear_turns
    → EndsOver (answer_or_decline re text dtmf t reply r)
unfolding answer_or_decline
answer_or_decline-over re text dtmf t reply r n k =
    if_by EndsOver (wants_details dtmf || asked_something re text dtmf reply) _ _
      (λ e. absurd (ground arith)) (λ _. declined_or_unheard-over reply r k)

-- A turn without a question ends a call whose next silence would.
by_stage-over :
    (re : Recognisers) (text : String) (dtmf : Option String) (t : Turn) (reply : Reply)
    → (r : Responder) → (wants_details dtmf || asked_something re text dtmf reply) ≡ false
    → 1 ≤ r.unclear_turns
    → t.suppress_returns ≡ true
    → EndsOver (by_stage re text dtmf t reply pitched r)
unfolding by_stage at_pitched
by_stage-over re text dtmf t opt_out r n k w = remove-over t r w
by_stage-over re text dtmf t affirmative r n k w = confirm-over t r
by_stage-over re text dtmf t negative r n k w = answer_or_decline-over re text dtmf t negative r n k
by_stage-over re text dtmf t third_party r n k w =
    answer_or_decline-over re text dtmf t third_party r n k
by_stage-over re text dtmf t unclear r n k w = answer_or_decline-over re text dtmf t unclear r n k

count_question-last :
    (dtmf : Option String) (r : Responder)
    → r.max_questions ≤ suc r.questions_asked
    → 1 ≤ (note_key dtmf (count_question r)).unclear_turns
unfolding note_key count_question
count_question-last none r m = ground arith
count_question-last (some key) r m = ground arith

-- Once as many questions as are allowed have been asked, the next turn that is none ends the call:
-- of a call at the message, a question that reaches the limit and then a turn in which nothing is
-- asked, neither in speech nor by the key two, leave the call over, if a suppression that this
-- turn may call for returns.
pub respond-last_question :
    (re : Recognisers) (t u : Turn) (r : Responder)
    → IsQuestion re t
    → IsOnLine r
    → r.max_questions ≤ suc r.questions_asked
    → asks re u ≡ false
    → u.suppress_returns ≡ true
    → (respond re u (respond re t r).next).next.call_over ≡ true
unfolding count_question
respond-last_question re t u r q p m n w =
    let dtmf = dtmf_of re u.transcript in
    let over =
      by_stage-over re (spoken_part dtmf u.transcript) dtmf u (reply_of re u)
        (note_key dtmf (count_question r)) n (count_question-last dtmf r m) w in
    rw (respond-question re t r q p)
      (rw (respond_by re u (count_question r) dtmf (reply_of re u) pitched p.1 refl refl p.0) over)
