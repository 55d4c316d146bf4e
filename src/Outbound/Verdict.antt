-- ===== src/Outbound/Verdict.antt =====
-- What a finished call leaves of its contact, and that each ending of the script leaves it.
use uaagro_voice_agent.Prelude.{
  ◌≡◌, refl, Bool, true, false, ◌&&◌, ◌||◌, not, Option, none, some, arith, if_by, leb, suc,
}
use uaagro_voice_agent.Outbound.Reply.{Reply, affirmative, negative, opt_out, third_party, unclear}
use uaagro_voice_agent.Outbound.Responder.{
  ContactOutcome, InterestLevel, ContactResult, pressed_1, pressed_2, talked, opted_out,
  wrong_person, interested, not_interested, wrong_person_level, no_response, Responder, Turn, Step,
  remove, confirm, sent, declined_or_unheard, unheard, finish, final_outcome, closed, Stage,
}
use uaagro_voice_agent.CallFlow.{CallOutcome}

-- The combinations of outcome, interest and disposition that a finished call can leave.
unfoldable pub is_verdict : Option ContactOutcome → Option InterestLevel → Option CallOutcome → Bool
is_verdict (some opted_out) (some not_interested) (some CallOutcome.opted_out) = true
is_verdict (some wrong_person) (some wrong_person_level) (some CallOutcome.not_reached) = true
is_verdict (some pressed_1) (some interested) (some CallOutcome.offer_accepted) = true
is_verdict (some talked) (some not_interested) (some CallOutcome.offer_declined) = true
is_verdict (some talked) (some no_response) (some CallOutcome.offer_declined) = true
is_verdict (some pressed_2) (some not_interested) (some CallOutcome.offer_declined) = true
is_verdict (some pressed_2) (some no_response) (some CallOutcome.offer_declined) = true
is_verdict _ _ _ = false

-- Nothing is decided but that details were asked for.
unfoldable pub is_open : Option ContactOutcome → Option InterestLevel → Option CallOutcome → Bool
is_open none none none = true
is_open (some pressed_2) none none = true
is_open _ _ _ = false

unfoldable pub is_yes : Option ContactOutcome → Bool
is_yes (some pressed_1) = true
is_yes _ = false

-- Nothing is decided yet.
unfoldable pub is_undecided : ContactResult → Bool
is_undecided res = is_open res.outcome res.interest res.call_outcome && not res.whatsapp_sent

-- A closed call is over with a verdict, and a message was sent only after a yes; any other call
-- is not over and undecided.
unfoldable pub is_settled_at : Stage → Bool → ContactResult → Bool
is_settled_at closed over res =
    over
    && is_verdict res.outcome res.interest res.call_outcome
    && (not res.whatsapp_sent || is_yes res.outcome)
is_settled_at _ over res = not over && is_undecided res

abbrev pub IsSettled : Responder → Type 0
IsSettled r = is_settled_at r.stage r.call_over r.result ≡ true

-- A verdict whatever was asked for before.
abbrev pub CanEnd : ContactOutcome → InterestLevel → CallOutcome → Type 0
CanEnd outcome level call =
    (o : Option ContactOutcome)
    → is_open o none none ≡ true
    → is_verdict (some (final_outcome outcome o)) (some level) (some call) ≡ true

CanEnd-opted_out : CanEnd opted_out not_interested CallOutcome.opted_out
unfolding is_open is_verdict final_outcome
CanEnd-opted_out o h = ground arith

pub CanEnd-wrong_person : CanEnd wrong_person wrong_person_level CallOutcome.not_reached
unfolding is_open is_verdict final_outcome
CanEnd-wrong_person o h = ground arith

pub CanEnd-declined : CanEnd talked not_interested CallOutcome.offer_declined
unfolding is_open is_verdict final_outcome
CanEnd-declined o h = ground arith

CanEnd-unheard : CanEnd talked no_response CallOutcome.offer_declined
unfolding is_open is_verdict final_outcome
CanEnd-unheard o h = ground arith

is_undecided_parts :
    (res : ContactResult)
    → is_undecided res ≡ true
    → (is_open res.outcome none none ≡ true) × (res.whatsapp_sent ≡ false)
unfolding is_undecided is_open
is_undecided_parts res h = ground arith

abbrev pub EndsSettled : Step → Type 0
EndsSettled s = IsSettled s.next

pub finish-IsSettled :
    (outcome : ContactOutcome) (level : InterestLevel) (call : CallOutcome) (r : Responder)
    → CanEnd outcome level call
    → is_undecided r.result ≡ true
    → IsSettled (finish outcome level call r)
unfolding finish is_settled_at
finish-IsSettled outcome level call r can u =
    let (o, w) = is_undecided_parts r.result u in rw (can r.result.outcome o, w) refl

pub remove-IsSettled :
    (t : Turn) (r : Responder)
    → IsSettled r
    → is_undecided r.result ≡ true
    → IsSettled (remove t r).next
unfolding remove
remove-IsSettled t r h u =
    let done =
      finish-IsSettled opted_out not_interested CallOutcome.opted_out r CanEnd-opted_out u in
    if_by EndsSettled r.has_suppress _ _
      (λ e. if_by EndsSettled t.suppress_returns _ _ (λ f. done) (λ f. h)) (λ e. done)

pub confirm-IsSettled :
    (t : Turn) (r : Responder) → is_undecided r.result ≡ true → IsSettled (confirm t r).next
unfolding confirm finish is_settled_at final_outcome is_verdict is_yes
confirm-IsSettled t r u =
    let (o, w) = is_undecided_parts r.result u in
    if_by EndsSettled r.has_whatsapp _ _
      (λ e. if_by EndsSettled (sent t) _ _ (λ f. rw f refl) (λ f. rw f refl)) (λ e. rw w refl)

unheard-IsSettled :
    (r : Responder) → IsSettled r → is_undecided r.result ≡ true → IsSettled (unheard r).next
unfolding unheard
unheard-IsSettled r h u =
    let done =
      finish-IsSettled talked no_response CallOutcome.offer_declined
        (record r { unclear_turns = suc r.unclear_turns }) CanEnd-unheard u in
    if_by EndsSettled (leb (suc r.unclear_turns) 1) _ _ (λ e. h) (λ e. done)

pub declined_or_unheard-IsSettled :
    (reply : Reply) (r : Responder)
    → IsSettled r
    → is_undecided r.result ≡ true
    → IsSettled (declined_or_unheard reply r).next
unfolding declined_or_unheard
declined_or_unheard-IsSettled negative r h u =
    finish-IsSettled talked not_interested CallOutcome.offer_declined r CanEnd-declined u
declined_or_unheard-IsSettled affirmative r h u = unheard-IsSettled r h u
declined_or_unheard-IsSettled opt_out r h u = unheard-IsSettled r h u
declined_or_unheard-IsSettled third_party r h u = unheard-IsSettled r h u
declined_or_unheard-IsSettled unclear r h u = unheard-IsSettled r h u
