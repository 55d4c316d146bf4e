-- ===== src/Breaker/Probe.antt =====
-- The half-open breaker: one probe at a time, what its result does, and where that fails.
use uaagro_voice_agent.Prelude.{
  ℕ, ◌+◌, ◌≤◌, ◌≡◌, refl, ap, ◌∙◌, if◌then◌else◌, true, false, none, some, List, [], ◌∷◌, arith,
  All, contains, nat_eq, ◌==◌, ◌≢◌,
}
use uaagro_voice_agent.Breaker.Defs.{
  CircuitBreaker, Exc, Admission, admitted, refused, admit, is_vendor_fault, record_exc, call,
  returns, raises, returned, raised,
}
use uaagro_voice_agent.Breaker.Trips.{IsConsistent, record_exc_other}

abbrev pub let_in : Admission → ℕ
let_in admitted = 1
let_in (refused _) = 0

-- Callers that arrive one after the other while no operation ends; counts those let in.
unfoldable pub admit_all : List ℕ → CircuitBreaker → ℕ × CircuitBreaker
admit_all [] b = (0, b)
admit_all (now ∷ rest) b =
    let (a, b') = admit now b in let (n, b'') = admit_all rest b' in (let_in a + n, b'')

module _ (t : ℕ) where
  abbrev pub IsAfter : CircuitBreaker → ℕ → Type 0
  IsAfter b now = t + b.recovery_timeout ≤ now

  admit_all_probing :
      (arrivals : List ℕ) (b : CircuitBreaker)
      → b.opened_at ≡ some t
      → b.probing ≡ true
      → All (IsAfter b) arrivals
      → admit_all arrivals b ≡ (0, b)
  unfolding admit_all admit
  admit_all_probing [] b o p late = refl
  admit_all_probing (now ∷ rest) b o p late = ground (arith, admit_all_probing rest b o p late.1)

  -- However many calls arrive at an open breaker after its recovery time, with no probe out,
  -- exactly the first is let through as the probe; the rest are refused while it is out.
  pub admit_all_once :
      (now : ℕ) (arrivals : List ℕ) (b : CircuitBreaker)
      → b.opened_at ≡ some t
      → b.probing ≡ false
      → All (IsAfter b) (now ∷ arrivals)
      → admit_all (now ∷ arrivals) b ≡ (1, record b { probing = true })
  unfolding admit_all admit
  admit_all_once now arrivals b o p late =
      ground (arith, admit_all_probing arrivals (record b { probing = true }) o refl late.1)

module _ {T : Type 0} where
  -- What the probe decides, on a consistent breaker past its recovery time with no other probe
  -- out. If the operation returns, the circuit closes with the count at zero. If it raises a
  -- vendor fault, the cooldown starts again at that moment. On any other exception the breaker is
  -- half-open as before, free for the next probe.
  call_probe :
      (now t ended : ℕ) (x : T) (exc : Exc) (b : CircuitBreaker)
      → IsConsistent b
      → b.opened_at ≡ some t
      → b.probing ≡ false
      → t + b.recovery_timeout ≤ now
      → (call now (returns x) b ≡ (returned x, record b { failures = 0; opened_at = none }))
        × (call {T = T} now (raises ended exc) b ≡ (
          raised exc,
          if is_vendor_fault exc
              then record b { failures = b.failures + 1; opened_at = some ended }
              else b,
        ))
  unfolding call
  call_probe now t ended x exc b c o p late = (ground arith, ground arith)

-- Calls on one breaker, by their numbers: those that were let in and have not ended.
pub record Calls : Type 0 where
  pub breaker : CircuitBreaker
  pub inside : List ℕ

abbrev pub entered : ℕ → List ℕ → Admission × CircuitBreaker → Calls
entered id inside (admitted, b) = record { breaker = b; inside = id ∷ inside }
entered id inside (refused left, b) = record { breaker = b; inside = inside }

unfoldable pub enter : ℕ → ℕ → Calls → Calls
enter id now c = entered id c.inside (admit now c.breaker)

unfoldable pub without : ℕ → List ℕ → List ℕ
without id [] = []
without id (x ∷ xs) = if x == id then without id xs else x ∷ without id xs

-- A call that is inside raises.
unfoldable pub raise : ℕ → ℕ → Exc → Calls → Calls
raise id now exc c =
    if contains id c.inside
    then record { breaker = record_exc now exc c.breaker; inside = without id c.inside }
    else c

-- An open breaker past its recovery time, with the mark of its probe.
admit-free :
    (now t : ℕ) (b : CircuitBreaker)
    → b.opened_at ≡ some t
    → b.probing ≡ false
    → t + b.recovery_timeout ≤ now
    → admit now b ≡ (admitted, record b { probing = true })
unfolding admit
admit-free now t b o p past = ground arith

admit-taken :
    (now t : ℕ) (b : CircuitBreaker)
    → b.opened_at ≡ some t
    → t + b.recovery_timeout ≤ now
    → admit now (record b { probing = true }) ≡ (refused 0, record b { probing = true })
unfolding admit
admit-taken now t b o past = ground arith

raise-late :
    (late probe ended : ℕ) (exc : Exc) (b : CircuitBreaker) (inside : List ℕ)
    → contains late inside ≡ true
    → probe ≢ late
    → is_vendor_fault exc ≡ false
    → raise late ended exc
        (record { breaker = record b { probing = true }; inside = probe ∷ inside })
      ≡ record { breaker = record b { probing = false }; inside = probe ∷ without late inside }
unfolding raise without
raise-late late probe ended exc b inside there other h =
    ground (arith, there, record_exc_other ended exc (record b { probing = true }) h)

-- The one-probe rule does not survive a late failure. The circuit is open, past its recovery time,
-- with no probe out, and a call is still inside that was let in before it opened. Another call is
-- let in as the probe, and as long as it is out a third is kept out; but if the first call then ends
-- with an exception that is no vendor fault, the third is let in beside the probe.
pub enter-raise :
    (late probe third now ended again t : ℕ) (exc : Exc) (c : Calls)
    → contains late c.inside ≡ true
    → probe ≢ late
    → c.breaker.opened_at ≡ some t
    → c.breaker.probing ≡ false
    → t + c.breaker.recovery_timeout ≤ now
    → now ≤ again
    → is_vendor_fault exc ≡ false
    → ((enter probe now c).inside ≡ probe ∷ c.inside)
      × ((enter third again (enter probe now c)).inside ≡ probe ∷ c.inside)
      × ((enter third again (raise late ended exc (enter probe now c))).inside
          ≡ third ∷ probe ∷ without late c.inside)
unfolding enter
enter-raise late probe third now ended again t exc c there other o p past later h =
    let b = c.breaker in
    let out : enter probe now c
        ≡ record { breaker = record b { probing = true }; inside = probe ∷ c.inside } =
      ap (entered probe c.inside) (admit-free now t b o p past) in
    let free =
      ap (raise late ended exc) out ∙ raise-late late probe ended exc b c.inside there other h in
    (
      ap (λ i. i.inside) out,
      ap (λ i. (enter third again i).inside) out
          ∙ ap (λ a. (entered third (probe ∷ c.inside) a).inside)
              (admit-taken again t b o (omega (arith, past, later))),
      ap (λ i. (enter third again i).inside) free
          ∙ ap (λ a. (entered third (probe ∷ without late c.inside) a).inside)
              (admit-free again t (record b { probing = false }) o refl
                (omega (arith, past, later))),
    )
