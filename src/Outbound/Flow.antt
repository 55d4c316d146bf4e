-- ===== src/Outbound/Flow.antt =====
-- The planned flow of an outbound call: OutboundState, TRANSITIONS, OutboundFlow and the two
-- handlers of OutboundAgent in apps/voice-worker/src/voice_worker/outbound/conversation.py.
use uaagro_voice_agent.Prelude.{
  ℕ, suc, ◌≡◌, refl, Bool, true, false, Option, none, some, List, [], ◌∷◌, ◌++◌, ◌==◌, Eq, code_iff,
  contains, get_or, ltb, if◌then◌else◌,
}
use uaagro_voice_agent.Outbound.Reply.{Reply}

pub data OutboundState : Type 0 where
  connect identify_self verify_person permission pitch interest_check objection confirm whatsapp
        opt_out suppress transfer close :
      OutboundState

abbrev pub all_states : List OutboundState
all_states =
    connect ∷ identify_self ∷ verify_person ∷ permission ∷ pitch ∷ interest_check ∷ objection
    ∷ confirm ∷ whatsapp ∷ opt_out ∷ suppress ∷ transfer ∷ close ∷ []

abbrev pub code : OutboundState → ℕ
code connect = 0
code identify_self = 1
code verify_person = 2
code permission = 3
code pitch = 4
code interest_check = 5
code objection = 6
code confirm = 7
code whatsapp = 8
code opt_out = 9
code suppress = 10
code transfer = 11
code close = 12

pub code-all_states : (s : OutboundState) → get_or all_states (code s) connect ≡ s
code-all_states connect = refl
code-all_states identify_self = refl
code-all_states verify_person = refl
code-all_states permission = refl
code-all_states pitch = refl
code-all_states interest_check = refl
code-all_states objection = refl
code-all_states confirm = refl
code-all_states whatsapp = refl
code-all_states opt_out = refl
code-all_states suppress = refl
code-all_states transfer = refl
code-all_states close = refl

instance abbrev pub outbound_state_eq : Eq OutboundState
outbound_state_eq = record {
  beq = λ a b. code a == code b;
  beq_iff = code_iff code (λ n. get_or all_states n connect) code-all_states;
}

unfoldable pub transitions : OutboundState → List OutboundState
transitions connect = identify_self ∷ []
transitions identify_self = verify_person ∷ opt_out ∷ close ∷ []
transitions verify_person = permission ∷ opt_out ∷ close ∷ []
transitions permission = pitch ∷ opt_out ∷ close ∷ []
transitions pitch = interest_check ∷ opt_out ∷ transfer ∷ []
transitions interest_check = confirm ∷ objection ∷ opt_out ∷ transfer ∷ close ∷ []
transitions objection = interest_check ∷ opt_out ∷ close ∷ []
transitions confirm = whatsapp ∷ close ∷ []
transitions whatsapp = close ∷ []
transitions opt_out = suppress ∷ []
transitions suppress = close ∷ []
transitions transfer = close ∷ []
transitions close = []

abbrev pub max_objection_loops : ℕ
max_objection_loops = 2

pub record OutboundFlow : Type 0 where
  pub state : OutboundState
  pub history : List OutboundState
  pub objection_loops : ℕ
  pub confirmed : Bool
  pub opted_out : Bool
  pub whatsapp_sent : Bool
  pub spoke_offer_aloud : Bool

abbrev pub new_flow : OutboundFlow
new_flow = record {
  state = connect;
  history = connect ∷ [];
  objection_loops = 0;
  confirmed = false;
  opted_out = false;
  whatsapp_sent = false;
  spoke_offer_aloud = false;
}

unfoldable pub can : OutboundFlow → OutboundState → Bool
can f target = contains target (transitions f.state)

-- `to` once the edge is there.
abbrev pub move_to : OutboundState → OutboundFlow → OutboundFlow
move_to target f = record f { state = target; history = f.history ++ target ∷ [] }

-- `to`: none where it raises ValueError, and the flow is as it was.
unfoldable pub to : OutboundState → OutboundFlow → Option OutboundFlow
to target f = if can f target then some (move_to target f) else none

unfoldable pub after_refusal : OutboundFlow → OutboundState × OutboundFlow
after_refusal f =
    if ltb f.objection_loops max_objection_loops
    then (objection, record f { objection_loops = suc f.objection_loops })
    else (close, f)

unfoldable pub next_after_interest : Reply → OutboundFlow → OutboundState × OutboundFlow
next_after_interest Reply.opt_out f = (opt_out, f)
next_after_interest Reply.affirmative f = (confirm, f)
next_after_interest Reply.negative f = after_refusal f
next_after_interest Reply.unclear f = after_refusal f
next_after_interest Reply.third_party f = (close, f)

pub data AgentLine : Type 0 where
  removed_line sent_line offer_aloud_line : AgentLine

-- What a handler came to: the line that it returns or the exception that leaves it, the flow, and
-- which callbacks returned.
pub record Handled : Type 0 where
  pub line : Option AgentLine
  pub flow : OutboundFlow
  pub wrote : Bool
  pub accepted : Bool
  pub ticketed : Bool

abbrev pub nothing_done : OutboundFlow → Handled
nothing_done f = record { line = none; flow = f; wrote = false; accepted = false; ticketed = false }

-- The rest of handle_opt_out, once the suppression is done or there is none.
unfoldable pub confirm_removal : Bool → OutboundFlow → Handled
confirm_removal wrote f =
    let f1 : OutboundFlow = record f { opted_out = true } in
    elim (to suppress f1) [
      | none ↦ record (nothing_done f1) { wrote = wrote }
      | some f2 ↦ record (nothing_done f2) { line = some removed_line; wrote = wrote }
    ]

-- handle_opt_out after its first move, if that was allowed.
unfoldable pub removal_from : Option Bool → OutboundFlow → Option OutboundFlow → Handled
removal_from callback f none = nothing_done f
removal_from none f (some f1) = confirm_removal false f1
removal_from (some true) f (some f1) = confirm_removal true f1
removal_from (some false) f (some f1) = nothing_done f1

-- The callback is none where there is none; otherwise it returns or raises.
unfoldable pub handle_opt_out : Option Bool → OutboundFlow → Handled
handle_opt_out callback f = removal_from callback f (to opt_out f)

-- What send_whatsapp comes to: there is none, it returns, or it raises.
pub data Sending : Type 0 where
  no_sender raises : Sending
  returns : Bool → Sending

unfoldable pub is_accepted : Sending → Bool
is_accepted (returns accepted) = accepted
is_accepted _ = false

-- The branch of handle_confirmation that reads the offer aloud; the ticket callback may raise.
unfoldable pub read_aloud : Option Bool → OutboundFlow → Handled
read_aloud ticket f =
    let f1 : OutboundFlow = record f { spoke_offer_aloud = true } in
    elim ticket [
      | none ↦ record (nothing_done f1) { line = some offer_aloud_line }
      | some true ↦ record (nothing_done f1) { line = some offer_aloud_line; ticketed = true }
      | some false ↦ nothing_done f1
    ]

-- handle_confirmation after its move, if that was allowed.
unfoldable pub confirmation_from :
    Sending → Option Bool → OutboundFlow → Option OutboundFlow → Handled
confirmation_from sending ticket f none = nothing_done f
confirmation_from sending ticket f (some f1) =
    if is_accepted sending
    then record (nothing_done (record f1 { whatsapp_sent = true })) {
      line = some sent_line;
      accepted = true;
    }
    else read_aloud ticket f1

unfoldable pub handle_confirmation : Sending → Option Bool → OutboundFlow → Handled
handle_confirmation sending ticket f =
    let f0 : OutboundFlow = record f { confirmed = true } in
    confirmation_from sending ticket f0 (to whatsapp f0)
