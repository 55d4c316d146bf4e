-- ===== src/Outbound/Handlers.antt =====
-- The bound on objections, and what the two handlers of the planned flow do in every state.
use uaagro_voice_agent.Prelude.{
  ℕ, ◌+◌, ◌≤◌, ◌≡◌, ◌≢◌, ◌↔◌, refl, Bool, true, false, ◌&&◌, ◌||◌, Option, none, some, List, [],
  ◌∷◌, arith, contains, Bool-cases, inl, inr, if_by, if◌then◌else◌, ltb,
}
use uaagro_voice_agent.Outbound.Reply.{Reply}
use uaagro_voice_agent.Outbound.Flow.{
  OutboundState, outbound_state_eq, interest_check, objection, whatsapp, opt_out, transitions,
  OutboundFlow, can, to, after_refusal, next_after_interest, max_objection_loops, removed_line,
  sent_line, Handled, confirm_removal, handle_opt_out, Sending, is_accepted, read_aloud,
  handle_confirmation, removal_from, confirmation_from, move_to,
}

-- The answers of next_after_interest to the replies in turn.
abbrev pub answers : List Reply → OutboundFlow → List OutboundState
answers [] f = []
answers (reply ∷ replies) f =
    (next_after_interest reply f).0 ∷ answers replies (next_after_interest reply f).1

abbrev pub is_objection : OutboundState → ℕ
is_objection objection = 1
is_objection _ = 0

abbrev pub count_objections : List OutboundState → ℕ
count_objections [] = 0
count_objections (s ∷ rest) = is_objection s + count_objections rest

after_refusal-loops :
    (f : OutboundFlow)
    → is_objection (after_refusal f).0 + f.objection_loops ≡ (after_refusal f).1.objection_loops
unfolding after_refusal
after_refusal-loops f = elim (Bool-cases (ltb f.objection_loops max_objection_loops)) [
  | inl e ↦ rw e (omega arith)
  | inr e ↦ rw e (omega arith)
]

after_refusal-capped :
    (f : OutboundFlow)
    → f.objection_loops ≤ max_objection_loops
    → (after_refusal f).1.objection_loops ≤ max_objection_loops
unfolding after_refusal
after_refusal-capped f h =
    if_by (λ (x : OutboundState × OutboundFlow). x.1.objection_loops ≤ max_objection_loops)
      (ltb f.objection_loops max_objection_loops) _ _ (λ e. ground arith) (λ e. h)

-- The counter counts the objections, and stays within its cap.
next_after_interest-loops :
    (reply : Reply) (f : OutboundFlow)
    → f.objection_loops ≤ max_objection_loops
    → (is_objection (next_after_interest reply f).0 + f.objection_loops
        ≡ (next_after_interest reply f).1.objection_loops)
      × ((next_after_interest reply f).1.objection_loops ≤ max_objection_loops)
unfolding next_after_interest
next_after_interest-loops Reply.opt_out f h = (omega arith, h)
next_after_interest-loops Reply.affirmative f h = (omega arith, h)
next_after_interest-loops Reply.third_party f h = (omega arith, h)
next_after_interest-loops Reply.negative f h = (after_refusal-loops f, after_refusal-capped f h)
next_after_interest-loops Reply.unclear f h = (after_refusal-loops f, after_refusal-capped f h)

-- Whatever the farmer replies, and however often: the answers to the interest question count at
-- most two objections together with those that came before, if those were no more than two.
answers-count_objections :
    (replies : List Reply) (f : OutboundFlow)
    → f.objection_loops ≤ max_objection_loops
    → count_objections (answers replies f) + f.objection_loops ≤ max_objection_loops
answers-count_objections [] f h = omega (arith, h)
answers-count_objections (reply ∷ replies) f h =
    let (one, capped) = next_after_interest-loops reply f h in
    let rest = answers-count_objections replies (next_after_interest reply f).1 capped in
    omega (arith, one, rest)

after_refusal-transitions :
    (f : OutboundFlow) → contains (after_refusal f).0 (transitions interest_check) ≡ true
unfolding after_refusal transitions
after_refusal-transitions f =
    if_by (λ (x : OutboundState × OutboundFlow). contains x.0 (transitions interest_check) ≡ true)
      (ltb f.objection_loops max_objection_loops) _ _ (λ _. refl) (λ _. refl)

-- Every answer to the interest question is an edge of the graph from INTEREST_CHECK.
next_after_interest-transitions :
    (reply : Reply) (f : OutboundFlow)
    → contains (next_after_interest reply f).0 (transitions interest_check) ≡ true
unfolding next_after_interest after_refusal transitions
next_after_interest-transitions Reply.opt_out f = refl
next_after_interest-transitions Reply.affirmative f = refl
next_after_interest-transitions Reply.third_party f = refl
next_after_interest-transitions Reply.negative f = after_refusal-transitions f
next_after_interest-transitions Reply.unclear f = after_refusal-transitions f

-- What handle_opt_out comes to, by whether the move was allowed.
removal_from-by :
    (b returns : Bool) (f : OutboundFlow) (h : Handled)
    → h ≡ removal_from (some returns) f (if b then some (move_to opt_out f) else none)
    → (h.wrote ≡ (returns && b))
      × (h.line ≡ (if h.wrote then some removed_line else none))
      × (h.flow.opted_out ≡ (h.wrote || f.opted_out))
unfolding removal_from confirm_removal to can transitions
removal_from-by true true f h e = rw e (refl, refl, refl)
removal_from-by true false f h e = rw e (refl, refl, refl)
removal_from-by false true f h e = rw e (refl, refl, refl)
removal_from-by false false f h e = rw e (refl, refl, refl)

-- Of an agent that has the suppression callback, in every state: the suppression is written
-- exactly when the state has an edge to OPT_OUT and the callback returns; the line that confirms
-- the removal is returned exactly when it was written; and an opt-out is recorded just then,
-- unless one was before.
pub handle_opt_out_lem :
    (returns : Bool) (f : OutboundFlow)
    → ((handle_opt_out (some returns) f).wrote
        ≡ (returns && contains opt_out (transitions f.state)))
      × ((handle_opt_out (some returns) f).line
          ≡ (if (handle_opt_out (some returns) f).wrote then some removed_line else none))
      × ((handle_opt_out (some returns) f).flow.opted_out
          ≡ ((handle_opt_out (some returns) f).wrote || f.opted_out))
unfolding handle_opt_out to can
handle_opt_out_lem returns f =
    removal_from-by (contains opt_out (transitions f.state)) returns f
      (handle_opt_out (some returns) f) refl

read_aloud-quiet :
    (ticket : Option Bool) (f : OutboundFlow)
    → ((read_aloud ticket f).line ≢ some sent_line)
      × ((read_aloud ticket f).flow.whatsapp_sent ≡ f.whatsapp_sent)
unfolding read_aloud
read_aloud-quiet none f = (λ h. ground arith, refl)
read_aloud-quiet (some true) f = (λ h. ground arith, refl)
read_aloud-quiet (some false) f = (λ h. ground arith, refl)

-- What handle_confirmation comes to, by whether the move was allowed.
confirmation_from-by :
    (b : Bool) (sending : Sending) (ticket : Option Bool) (f : OutboundFlow) (h : Handled)
    → h ≡ confirmation_from sending ticket f (if b then some (move_to whatsapp f) else none)
    → (h.line ≡ some sent_line ↔ (b && is_accepted sending) ≡ true)
      × (h.flow.whatsapp_sent ≡ ((b && is_accepted sending) || f.whatsapp_sent))
unfolding confirmation_from
confirmation_from-by false sending ticket f h e =
    rw e ((λ x. ground arith, λ x. ground arith), refl)
confirmation_from-by true sending ticket f h e = elim (Bool-cases (is_accepted sending)) [
  | inl s ↦ rw (e, s) ((λ x. refl, λ x. refl), refl)
  | inr s ↦
      let quiet = read_aloud-quiet ticket (move_to whatsapp f) in
      rw (e, s) ((λ x. absurd (quiet.0 x), λ x. ground arith), quiet.1)
]

-- In every state, with or without a sender or a ticket: the line that says a message was sent is
-- returned exactly when the state has an edge to WHATSAPP and the sender returned true, and just
-- then, unless it was before, the flow records a message as sent.
handle_confirmation_lem :
    (sending : Sending) (ticket : Option Bool) (f : OutboundFlow)
    → ((handle_confirmation sending ticket f).line ≡ some sent_line
        ↔ (contains whatsapp (transitions f.state) && is_accepted sending) ≡ true)
      × ((handle_confirmation sending ticket f).flow.whatsapp_sent
          ≡ ((contains whatsapp (transitions f.state) && is_accepted sending) || f.whatsapp_sent))
unfolding handle_confirmation to can
handle_confirmation_lem sending ticket f =
    confirmation_from-by (contains whatsapp (transitions f.state)) sending ticket
      (record f { confirmed = true }) (handle_confirmation sending ticket f) refl
