-- ===== src/Breaker/Trips.antt =====
-- When the breaker opens, and what an open breaker lets through.
use uaagro_voice_agent.Prelude.{
  ℕ, ◌+◌, ◌-◌, ◌≤◌, ◌<◌, ◌≡◌, ◌∙◌, true, false, Option, none, some, List, [], ◌∷◌, arith, length,
  All,
}
use uaagro_voice_agent.Breaker.Defs.{
  CircuitBreaker, Exc, admit, succeeded, is_vendor_fault, record_exc, Operation, call, rejected,
  returns, raises,
}

-- Open exactly when the count has reached the threshold.
abbrev pub Agrees : Option ℕ → ℕ → ℕ → Type 0
Agrees none failures threshold = failures < threshold
Agrees (some _) failures threshold = threshold ≤ failures

abbrev pub IsConsistent : CircuitBreaker → Type 0
IsConsistent b = Agrees b.opened_at b.failures b.failure_threshold

record_exc-IsConsistent :
    (now : ℕ) (exc : Exc) (b : CircuitBreaker)
    → IsConsistent b
    → IsConsistent (record_exc now exc b)
unfolding record_exc
record_exc-IsConsistent now exc b h = ground arith

admit-IsConsistent : (now : ℕ) (b : CircuitBreaker) → IsConsistent b → IsConsistent (admit now b).1
unfolding admit
admit-IsConsistent now b h = ground arith

-- Every call keeps a breaker consistent whose threshold is positive: whether the operation is
-- refused, returns or raises, the breaker is open afterwards exactly when its failure count is at
-- the threshold or above.
call-IsConsistent :
    {T : Type 0} (now : ℕ) (op : Operation T) (b : CircuitBreaker)
    → 0 < b.failure_threshold
    → IsConsistent b
    → IsConsistent (call now op b).1
unfolding call
call-IsConsistent now (returns x) b pos h = ground (arith, admit-IsConsistent now b h)
call-IsConsistent now (raises ended exc) b pos h =
    ground (arith, admit-IsConsistent now b h, record_exc-IsConsistent ended exc (admit now b).1)

-- A call that finds the circuit open does not reach the vendor: for the whole recovery time after
-- the breaker opened the operation is rejected with the time that is left, and the breaker stays
-- as it was.
call_while_open :
    {T : Type 0} (now t : ℕ) (op : Operation T) (b : CircuitBreaker)
    → b.opened_at ≡ some t
    → t ≤ now
    → now < t + b.recovery_timeout
    → call now op b ≡ (rejected (t + b.recovery_timeout - now), b)
unfolding call
call_while_open now t op b o le lt = ground arith

-- Everything that an exception does to a breaker: a vendor fault is counted, and opens the
-- breaker at that moment once the count is at the threshold; any other changes neither.
pub record_exc_fault :
    (now : ℕ) (exc : Exc) (b : CircuitBreaker)
    → is_vendor_fault exc ≡ true
    → ((record_exc now exc b).failures ≡ b.failures + 1)
      × ((record_exc now exc b).failure_threshold ≡ b.failure_threshold)
      × ((record_exc now exc b).recovery_timeout ≡ b.recovery_timeout)
      × (b.failures + 1 < b.failure_threshold → (record_exc now exc b).opened_at ≡ b.opened_at)
      × (b.failure_threshold ≤ b.failures + 1 → (record_exc now exc b).opened_at ≡ some now)
unfolding record_exc
record_exc_fault now exc b h = ground arith

pub record_exc_other :
    (now : ℕ) (exc : Exc) (b : CircuitBreaker)
    → is_vendor_fault exc ≡ false
    → record_exc now exc b ≡ record b { probing = false }
unfolding record_exc
record_exc_other now exc b h = ground arith

-- The exceptions of a run of calls, each with the moment at which it is recorded.
unfoldable pub record_all : List (ℕ × Exc) → CircuitBreaker → CircuitBreaker
record_all [] b = b
record_all ((now, exc) ∷ rest) b = record_all rest (record_exc now exc b)

abbrev pub last_time : ℕ → List (ℕ × Exc) → ℕ
last_time t [] = t
last_time t ((now, _) ∷ rest) = last_time now rest

abbrev pub IsFault : ℕ × Exc → Type 0
IsFault (_, exc) = is_vendor_fault exc ≡ true

record_all_reaches :
    (t : ℕ) (faults : List (ℕ × Exc)) (b : CircuitBreaker)
    → All IsFault faults
    → 0 < length faults
    → b.failures + length faults ≡ b.failure_threshold
    → ((record_all faults b).opened_at ≡ some (last_time t faults))
      × ((record_all faults b).recovery_timeout ≡ b.recovery_timeout)
      × ((record_all faults b).failures ≡ b.failure_threshold)
unfolding record_all
record_all_reaches t [] b fs nz e = absurd (omega arith)
record_all_reaches t ((now, exc) ∷ []) b fs nz e = ground (arith, record_exc_fault now exc b)
record_all_reaches t ((now, exc) ∷ next ∷ rest) b fs nz e =
    let (f, th, r, keep, _) = record_exc_fault now exc b fs.0 in
    let (o, r', f') =
      record_all_reaches now (next ∷ rest) (record_exc now exc b) fs.1 (omega arith)
        (omega arith) in
    (o, r' ∙ r, f' ∙ th)

-- A vendor that fails as many times in a row as the threshold says, since the last success, is
-- taken out of service: from the last of these failures on, and for the whole recovery time, any
-- call is rejected with the time left and changes nothing.
pub call-record_all :
    {T : Type 0} (faults : List (ℕ × Exc)) (op : Operation T) (b : CircuitBreaker) (now : ℕ)
    → All IsFault faults
    → 0 < length faults
    → length faults ≡ b.failure_threshold
    → last_time 0 faults ≤ now
    → now < last_time 0 faults + b.recovery_timeout
    → call now op (record_all faults (succeeded b))
      ≡ (rejected (last_time 0 faults + b.recovery_timeout - now), record_all faults (succeeded b))
unfolding succeeded
call-record_all faults op b now fs nz e le lt =
    let s = record_all faults (succeeded b) in
    let (o, r, _) = record_all_reaches 0 faults (succeeded b) fs nz (omega arith) in
    ground (arith, r, call_while_open now (last_time 0 faults) op s o le (omega (arith, r)))
