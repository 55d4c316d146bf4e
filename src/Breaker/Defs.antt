-- ===== src/Breaker/Defs.antt =====
-- `CircuitBreaker`, its guard and its bookkeeping, and the registry of breakers.
use uaagro_voice_agent.Prelude.{
  ℕ, ◌+◌, ◌-◌, Bool, true, false, Option, none, some, List, [], ◌∷◌, String, ltb, leb,
  if◌then◌else◌, str_eq,
}

pub data BreakerState : Type 0 where
  closed open_circuit half_open : BreakerState

-- The exceptions that `_is_vendor_fault` tells apart. `domain_error` is any other `UAAgroError`;
-- `unrecognised` is anything else, `asyncio.CancelledError` included.
pub data Exc : Type 0 where
  timeout vendor_timeout circuit_open vendor_unavailable domain_error unrecognised : Exc

pub record CircuitBreaker : Type 0 where
  pub failure_threshold : ℕ
  pub recovery_timeout : ℕ
  pub failures : ℕ
  pub opened_at : Option ℕ
  pub probing : Bool

abbrev pub default_failure_threshold : ℕ
default_failure_threshold = 3

abbrev pub default_recovery_timeout : ℕ
default_recovery_timeout = 20_000

-- `now - opened_at >= recovery_timeout`, with no subtraction.
state_since : ℕ → ℕ → Option ℕ → BreakerState
state_since now recovery none = closed
state_since now recovery (some t) = if leb (t + recovery) now then half_open else open_circuit

unfoldable pub state : ℕ → CircuitBreaker → BreakerState
unfolding state_since
state now b = state_since now b.recovery_timeout b.opened_at

retry_since : ℕ → ℕ → Option ℕ → ℕ
retry_since now recovery none = 0
retry_since now recovery (some t) = recovery - (now - t)

unfoldable pub retry_in : ℕ → CircuitBreaker → ℕ
unfolding retry_since
retry_in now b = retry_since now b.recovery_timeout b.opened_at

-- How `_admit` ends: it returns, or raises `CircuitOpen` with the time left.
pub data Admission : Type 0 where
  admitted : Admission
  refused : ℕ → Admission

admit_in : BreakerState → ℕ → CircuitBreaker → Admission × CircuitBreaker
admit_in closed left b = (admitted, b)
admit_in open_circuit left b = (refused left, b)
admit_in half_open left b =
    if b.probing then (refused 0, b) else (admitted, record b { probing = true })

unfoldable pub admit : ℕ → CircuitBreaker → Admission × CircuitBreaker
unfolding admit_in state retry_in
admit now b = admit_in (state now b) (retry_in now b) b

unfoldable pub succeeded : CircuitBreaker → CircuitBreaker
succeeded b = record b { failures = 0; opened_at = none; probing = false }

unfoldable pub is_vendor_fault : Exc → Bool
is_vendor_fault timeout = true
is_vendor_fault vendor_timeout = true
is_vendor_fault circuit_open = false
is_vendor_fault vendor_unavailable = true
is_vendor_fault domain_error = false
is_vendor_fault unrecognised = true

is_circuit_open : Exc → Bool
is_circuit_open circuit_open = true
is_circuit_open _ = false

-- The counting half of `_record`, past both early returns.
count_failure : ℕ → CircuitBreaker → CircuitBreaker
count_failure now b =
    let counted = record b { failures = b.failures + 1 } in
    if ltb counted.failures b.failure_threshold
    then counted
    else record counted { opened_at = some now }

unfoldable pub record_exc : ℕ → Exc → CircuitBreaker → CircuitBreaker
unfolding is_circuit_open is_vendor_fault count_failure
record_exc now exc b =
    let cleared = record b { probing = false } in
    if is_circuit_open exc
    then cleared
    else if is_vendor_fault exc
    then count_failure now cleared
    else cleared

unfoldable pub record_failure : ℕ → Exc → CircuitBreaker → CircuitBreaker
unfolding record_exc
record_failure = record_exc

unfoldable pub record_success : CircuitBreaker → CircuitBreaker
unfolding succeeded
record_success = succeeded

unfoldable pub reset : CircuitBreaker → CircuitBreaker
reset b = record b { failures = 0; opened_at = none; probing = false }

-- What the awaited operation does, and when it ends.
pub data Operation (T : Type 0) : Type 0 where
  returns : T → Operation T
  raises : ℕ → Exc → Operation T

pub data CallResult (T : Type 0) : Type 0 where
  returned : T → CallResult T
  raised : Exc → CallResult T
  rejected : ℕ → CallResult T

module _ {T : Type 0} where
  finish : CircuitBreaker → Operation T → CallResult T × CircuitBreaker
  finish b (returns x) = (returned x, succeeded b)
  finish b (raises ended exc) = (raised exc, record_exc ended exc b)

  call_after : Admission × CircuitBreaker → Operation T → CallResult T × CircuitBreaker
  call_after (admitted, b) op = finish b op
  call_after (refused left, b) op = (rejected left, b)

  -- One call that no other call overlaps; `Probe` has the overlapping ones.
  unfoldable pub call : ℕ → Operation T → CircuitBreaker → CallResult T × CircuitBreaker
  unfolding finish call_after admit succeeded record_exc
  call now op b = call_after (admit now b) op

unfoldable pub fresh : CircuitBreaker
fresh = record {
  failure_threshold = default_failure_threshold;
  recovery_timeout = default_recovery_timeout;
  failures = 0;
  opened_at = none;
  probing = false;
}

-- `_BREAKERS`, by the key `vendor:service`.
abbrev pub Registry : Type 0
Registry = List (String × CircuitBreaker)

unfoldable pub find_breaker : String → Registry → Option CircuitBreaker
find_breaker key [] = none
find_breaker key ((k, b) ∷ rest) = if str_eq k key then some b else find_breaker key rest

unfoldable pub store_breaker : String → CircuitBreaker → Registry → Registry
store_breaker key b [] = (key, b) ∷ []
store_breaker key b ((k, c) ∷ rest) =
    if str_eq k key then (k, b) ∷ rest else (k, c) ∷ store_breaker key b rest

unfoldable pub breaker_for : String → Registry → CircuitBreaker × Registry
unfolding find_breaker store_breaker fresh
breaker_for key breakers = elim (find_breaker key breakers) [
  | none ↦ (fresh, store_breaker key fresh breakers)
  | some b ↦ (b, breakers)
]
