-- ===== src/Breaker/Examples.antt =====
-- Runs of the breaker, and the theorems at inputs that meet their hypotheses.
use uaagro_voice_agent.Prelude.{
  ℕ, ◌+◌, ◌-◌, ◌≤◌, ◌≡◌, refl, true, false, none, some, List, [], ◌∷◌, arith,
}
use uaagro_voice_agent.Breaker.Defs.{
  CircuitBreaker, Exc, timeout, vendor_unavailable, domain_error, unrecognised, is_vendor_fault,
  fresh, call, rejected, returns, succeeded, record_exc, record_failure, breaker_for,
}
use uaagro_voice_agent.Breaker.Trips.{record_all, call-record_all}
use uaagro_voice_agent.Breaker.Probe.{
  admit_all, admit_all_once, Calls, enter, raise, without, enter-raise,
}
use uaagro_voice_agent.Breaker.Streaming.{
  connect_timeout, Moment, begins, ends, abandoned, start_all, start_all-closed,
}

abbrev three : List (ℕ × Exc)
three = (100, timeout) ∷ (200, vendor_unavailable) ∷ (300, unrecognised) ∷ []

-- Opened at 300 after three failures.
abbrev down : CircuitBreaker
down = record {
  failure_threshold = 3;
  recovery_timeout = 20_000;
  failures = 3;
  opened_at = some 300;
  probing = false;
}

record_all-three : record_all three fresh ≡ down
unfolding record_all record_exc fresh
record_all-three = refl

-- A breaker is made once for each key.
breaker_for_twice :
    let (b, breakers) = breaker_for "sarvam:tts" [] in
    breaker_for "sarvam:tts" breakers ≡ (b, breakers)
unfolding breaker_for
breaker_for_twice = refl

call-record_all_example :
    call {T = ℕ} 1_000 (returns 7) (record_all three (succeeded down))
    ≡ (rejected (300 + 20_000 - 1_000), record_all three (succeeded down))
unfolding is_vendor_fault
call-record_all_example =
    call-record_all {T = ℕ} three (returns 7) down 1_000 (refl, (refl, (refl, tt))) (omega arith)
      refl (omega arith) (omega arith)

admit_all_once_example :
    admit_all (20_300 ∷ 20_301 ∷ 20_302 ∷ []) down ≡ (1, record down { probing = true })
admit_all_once_example =
    admit_all_once 300 20_300 (20_301 ∷ 20_302 ∷ []) down refl refl (omega arith)

-- Call 1 was let in before the circuit opened.
abbrev late_call : Calls
late_call = record { breaker = down; inside = 1 ∷ [] }

enter-raise_example :
    ((enter 2 20_400 late_call).inside ≡ 2 ∷ 1 ∷ [])
    × ((enter 3 20_500 (enter 2 20_400 late_call)).inside ≡ 2 ∷ 1 ∷ [])
    × ((enter 3 20_500 (raise 1 20_450 domain_error (enter 2 20_400 late_call))).inside
        ≡ 3 ∷ 2 ∷ [])
unfolding is_vendor_fault without
enter-raise_example =
    enter-raise 1 2 3 20_400 20_450 20_500 300 domain_error late_call refl (λ e. cc) refl refl
      (omega arith) (omega arith) refl

-- Two calls at a time run into the outage, over and over.
abbrev outage : List Moment
outage =
    begins 0
    ∷ begins 100
    ∷ ends (connect_timeout 5_000)
    ∷ ends (connect_timeout 5_100)
    ∷ begins 6_000
    ∷ ends (connect_timeout 11_000)
    ∷ begins 12_000
    ∷ begins 12_500
    ∷ abandoned
    ∷ ends (connect_timeout 17_500)
    ∷ []

start_all-closed_example :
    ((start_all outage 0 fresh).opened_at ≡ none) × ((start_all outage 0 fresh).failures ≤ 2)
unfolding fresh
start_all-closed_example = start_all-closed outage fresh (omega arith) refl (omega arith)

-- Three at once open it.
abbrev burst : List Moment
burst =
    begins 0
    ∷ begins 100
    ∷ begins 200
    ∷ ends (connect_timeout 5_000)
    ∷ ends (connect_timeout 5_100)
    ∷ ends (connect_timeout 5_200)
    ∷ []

start_all-burst : (start_all burst 0 fresh).opened_at ≡ some 5_200
unfolding start_all record_failure fresh
start_all-burst = refl
