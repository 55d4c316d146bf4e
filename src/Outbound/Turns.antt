-- ===== src/Outbound/Turns.antt =====
-- What one turn comes to, and a call that ends with the first.
use uaagro_voice_agent.Prelude.{
  ◌≡◌, refl, Bool, true, false, ◌||◌, Option, List, [], ◌∷◌, arith, String, if_by,
}
use uaagro_voice_agent.Outbound.Reply.{
  Recognisers, Reply, affirmative, negative, opt_out, third_party, unclear, dtmf_of, spoken_part,
  classify_reply,
}
use uaagro_voice_agent.Outbound.Responder.{
  wrong_person_line, take_turn, yields, said, Responder, Turn, respond, respond_all, by_stage,
  at_verify, note_key, finish, verify, Stage, asked_something, wants_details,
}

-- What a turn is taken for, and whether a responder at the message takes it for a question.
abbrev pub reply_of : Recognisers → Turn → Reply
reply_of re t =
    classify_reply re (spoken_part (dtmf_of re t.transcript) t.transcript) (dtmf_of re t.transcript)

abbrev pub asks : Recognisers → Turn → Bool
asks re t =
    wants_details (dtmf_of re t.transcript)
    || asked_something re (spoken_part (dtmf_of re t.transcript) t.transcript)
        (dtmf_of re t.transcript) (reply_of re t)

abbrev pub is_not_farmer : Reply → Bool
is_not_farmer third_party = true
is_not_farmer negative = true
is_not_farmer _ = false

-- A turn of a call that goes on, by what its key and its words are taken for and by the stage.
pub respond_by :
    (re : Recognisers) (t : Turn) (r : Responder) (dtmf : Option String) (reply : Reply) (s : Stage)
    → r.call_over ≡ false
    → dtmf_of re t.transcript ≡ dtmf
    → classify_reply re (spoken_part dtmf t.transcript) dtmf ≡ reply
    → r.stage ≡ s
    → respond re t r ≡ by_stage re (spoken_part dtmf t.transcript) dtmf t reply s (note_key dtmf r)
unfolding respond take_turn
respond_by re t r dtmf reply s o d c e =
    if_by (λ x. x ≡ by_stage re (spoken_part dtmf t.transcript) dtmf t reply s (note_key dtmf r))
      r.call_over _ _ (λ over. absurd (ground arith)) (λ _. cc)

respond_over :
    (re : Recognisers) (t : Turn) (r : Responder)
    → r.call_over ≡ true
    → respond re t r ≡ yields [] r
unfolding respond
respond_over re t r h =
    if_by (λ x. x ≡ yields [] r) r.call_over _ _ (λ e. refl) (λ e. absurd (ground arith))

-- Once the call is over, nothing more is said or done.
respond_all_over :
    (re : Recognisers) (turns : List Turn) (r : Responder)
    → r.call_over ≡ true
    → respond_all re turns r ≡ ([], r)
unfolding respond_all
respond_all_over re [] r h = refl
respond_all_over re (t ∷ turns) r h = rw (respond_over re t r h) (respond_all_over re turns r h)

verify_wrong_person :
    (t : Turn) (reply : Reply) (r : Responder)
    → is_not_farmer reply ≡ true
    → ((at_verify t reply r).deeds ≡ said wrong_person_line ∷ [])
      × ((at_verify t reply r).next.call_over ≡ true)
unfolding at_verify finish
verify_wrong_person t third_party r h = (refl, refl)
verify_wrong_person t negative r h = (refl, refl)
verify_wrong_person t affirmative r h = absurd (ground arith)
verify_wrong_person t opt_out r h = absurd (ground arith)
verify_wrong_person t unclear r h = absurd (ground arith)

-- A call whose first turn says that the farmer is not there, or says no, tells nobody of the
-- offer: whatever is said afterwards, all that is ever spoken is the line for a wrong person, and
-- no callback is made.
respond_all-wrong_person :
    (re : Recognisers) (t : Turn) (turns : List Turn) (r : Responder)
    → r.stage ≡ verify
    → r.call_over ≡ false
    → is_not_farmer (reply_of re t) ≡ true
    → (respond_all re (t ∷ turns) r).0 ≡ said wrong_person_line ∷ []
unfolding respond_all by_stage
respond_all-wrong_person re t turns r s o h =
    let e = respond_by re t r (dtmf_of re t.transcript) (reply_of re t) verify o refl refl s in
    let k = verify_wrong_person t (reply_of re t) (note_key (dtmf_of re t.transcript) r) h in
    let silent = respond_all_over re turns (respond re t r).next (rw e k.1) in
    rw (silent, e, k.0) refl
