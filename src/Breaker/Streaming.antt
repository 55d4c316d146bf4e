-- ===== src/Breaker/Streaming.antt =====
-- The recogniser's connection, which uses the breaker as an admission check
-- (apps/voice-worker/src/voice_worker/adapters/stt/soniox.py, `start`).
use uaagro_voice_agent.Prelude.{
  ℕ, zero, suc, max, ◌+◌, ◌≤◌, ◌<◌, ◌≡◌, refl, sym, none, List, [], ◌∷◌, arith,
}
use mathlib.Core.Path.{subst}
use uaagro_voice_agent.Breaker.Defs.{
  CircuitBreaker, vendor_timeout, vendor_unavailable, returns, CallResult, returned, raised,
  rejected, call, record_failure, record_success, succeeded,
}

-- How `websockets.connect` and the first `send` end.
pub data Connection : Type 0 where
  connected : Connection
  connect_timeout connect_error : ℕ → Connection
  send_error : Connection

connect : Connection → CircuitBreaker → CallResult (Unit {0}) × CircuitBreaker
connect connected b = (returned tt, record_success b)
connect (connect_timeout now) b = (raised vendor_timeout, record_failure now vendor_timeout b)
connect (connect_error now) b = (raised vendor_unavailable, record_failure now vendor_unavailable b)
connect send_error b = (raised vendor_unavailable, b)

connect_after :
    CallResult (Unit {0}) × CircuitBreaker → Connection → CallResult (Unit {0}) × CircuitBreaker
connect_after (returned _, b) c = connect c b
connect_after (raised exc, b) c = (raised exc, b)
connect_after (rejected left, b) c = (rejected left, b)

-- `await breaker.call(_noop)`, then the connection, then its report.
unfoldable pub start : ℕ → Connection → CircuitBreaker → CallResult (Unit {0}) × CircuitBreaker
unfolding connect connect_after call record_failure record_success
start now c b = connect_after (call now (returns tt) b) c

-- The breaker is shared by every call's recogniser. An attempt begins with the admission check and
-- ends with what its connection comes to, or is cancelled in between; other attempts begin and end
-- meanwhile.
pub data Moment : Type 0 where
  begins : ℕ → Moment
  ends : Connection → Moment
  abandoned : Moment

-- An attempt that is let in is under way; one can end only where one is.
begun : ℕ → CallResult (Unit {0}) → ℕ
begun p (returned _) = suc p
begun p (raised exc) = p
begun p (rejected left) = p

-- The moments of attempts on one breaker, of which a number are under way.
unfoldable pub start_all : List Moment → ℕ → CircuitBreaker → CircuitBreaker
unfolding begun connect call
start_all [] p b = b
start_all (begins now ∷ rest) p b =
    let out = call now (returns tt) b in start_all rest (begun p out.0) out.1
start_all (ends c ∷ rest) zero b = start_all rest zero b
start_all (ends c ∷ rest) (suc p) b = start_all rest p (connect c b).1
start_all (abandoned ∷ rest) zero b = start_all rest zero b
start_all (abandoned ∷ rest) (suc p) b = start_all rest p b

start_all-ends :
    (c : Connection) (out : CallResult (Unit {0}) × CircuitBreaker)
    → start_all (ends c ∷ []) (begun 0 out.0) out.1 ≡ (connect_after out c).1
unfolding start_all begun connect_after
start_all-ends c (returned _, b) = refl
start_all-ends c (raised exc, b) = refl
start_all-ends c (rejected left, b) = refl

-- An attempt that no other overlaps is `start`.
start_lem :
    (now : ℕ) (c : Connection) (b : CircuitBreaker)
    → start_all (begins now ∷ ends c ∷ []) 0 b ≡ (start now c b).1
unfolding start start_all
start_lem now c b = start_all-ends c (call now (returns tt) b)

-- The most attempts that are under way at once.
abbrev pub most_at_once : List Moment → ℕ → ℕ
most_at_once [] p = p
most_at_once (begins now ∷ rest) p = max (suc p) (most_at_once rest (suc p))
most_at_once (ends c ∷ rest) zero = most_at_once rest zero
most_at_once (ends c ∷ rest) (suc p) = most_at_once rest p
most_at_once (abandoned ∷ rest) zero = most_at_once rest zero
most_at_once (abandoned ∷ rest) (suc p) = most_at_once rest p

let_in :
    (now : ℕ) (b : CircuitBreaker)
    → b.opened_at ≡ none
    → call now (returns tt) b ≡ (returned tt, succeeded b)
unfolding call succeeded
let_in now b o = ground arith

connect-counts :
    (c : Connection) (b : CircuitBreaker)
    → b.failures + 1 < b.failure_threshold
    → b.opened_at ≡ none
    → ((connect c b).1.opened_at ≡ none)
      × ((connect c b).1.failures ≤ b.failures + 1)
      × ((connect c b).1.failure_threshold ≡ b.failure_threshold)
unfolding connect record_success record_failure
connect-counts connected b th o = (refl, omega arith, refl)
connect-counts (connect_timeout now) b th o = ground arith
connect-counts (connect_error now) b th o = ground arith
connect-counts send_error b th o = (o, omega arith, refl)

stays_closed :
    (moments : List Moment) (p m : ℕ) (b : CircuitBreaker)
    → m < b.failure_threshold
    → b.opened_at ≡ none
    → b.failures + p ≤ m
    → most_at_once moments p ≤ m
    → ((start_all moments p b).opened_at ≡ none) × ((start_all moments p b).failures ≤ m)
unfolding start_all begun succeeded
stays_closed [] p m b th o f few = (o, omega (arith, f))
stays_closed (begins now ∷ rest) p m b th o f few =
    subst
      (λ out.
        ((start_all rest (begun p out.0) out.1).opened_at ≡ none)
        × ((start_all rest (begun p out.0) out.1).failures ≤ m))
      (sym (let_in now b o))
      (stays_closed rest (suc p) m (succeeded b) th refl (omega (arith, few)) (omega (arith, few)))
stays_closed (ends c ∷ rest) zero m b th o f few =
    stays_closed rest zero m b th o f (omega (arith, few))
stays_closed (ends c ∷ rest) (suc p) m b th o f few =
    let (o', f', th') = connect-counts c b (omega (arith, th, f)) o in
    stays_closed rest p m (connect c b).1 (omega (arith, th, th')) o' (omega (arith, f, f'))
      (omega (arith, few))
stays_closed (abandoned ∷ rest) zero m b th o f few =
    stays_closed rest zero m b th o f (omega (arith, few))
stays_closed (abandoned ∷ rest) (suc p) m b th o f few =
    stays_closed rest p m b th o (omega (arith, f)) (omega (arith, few))

-- The admission check undoes the count: `call` of an operation that does nothing succeeds, and a
-- success sets the count to zero. So as long as fewer attempts are under way at once than the
-- threshold says, no run of failed connections, however long and however they overlap, opens a
-- closed breaker whose count is at most the most attempts that are under way at once, and the count
-- never passes that number. Only failures of attempts that overlap add up.
pub start_all-closed :
    (moments : List Moment) (b : CircuitBreaker)
    → most_at_once moments 0 < b.failure_threshold
    → b.opened_at ≡ none
    → b.failures ≤ most_at_once moments 0
    → ((start_all moments 0 b).opened_at ≡ none)
      × ((start_all moments 0 b).failures ≤ most_at_once moments 0)
start_all-closed moments b few o f =
    stays_closed moments 0 (most_at_once moments 0) b few o (omega (arith, f)) (omega arith)
