-- ===== src/Tools/Execution.antt =====
-- How often a tool is run, and what is answered.
use uaagro_voice_agent.Prelude.{
  lt→ltb, length-take, length-append, ap, ◌≢◌, ℕ, zero, suc, ◌+◌, ◌≤◌, min, ◌≡◌, ◌↔◌, refl, Bool,
  true, false, ◌&&◌, Option, none, some, List, [], ◌∷◌, String, string_eq, lookup, ltb, length,
  take, arith, Bool-cases, inl, inr,
}
use uaagro_voice_agent.Tools.Schema.{Numbers, Problem}
use uaagro_voice_agent.Tools.Registry.{
  Run, ToolResult, settled, is_timeout, attempt, Tool, Registry, Args, run_checked, run_found,
  execute, Call, calls_that, execute_all, execute_many, is_read_only, max_calls_per_turn,
}
use uaagro_voice_agent.Tools.Accepted.{is_valid}
use uaagro_voice_agent.Tools.Valid.{validate_against_schema_iff}

-- Whether the tool is there and its arguments are as its schema asks.
abbrev pub is_admitted : (n : Numbers) → Option (Tool n) → Args n → Bool
is_admitted n none args = false
is_admitted n (some tool) args = is_valid n args tool.parameters

cons_empty : (p : Problem) (ps : List Problem) → p ∷ ps ≢ []
cons_empty p ps h = ground arith

positive : (i : ℕ) → ltb 0 (suc i) ≡ true
positive i = lt→ltb 0 (suc i) (omega arith)

never_below : (b : Bool) → (b && ltb 0 0) ≡ false
never_below b = ground arith

module _ {D : Type 0} where
  -- So many runs from one on timed out.
  abbrev pub timeouts : (ℕ → Run D) → ℕ → ℕ → Bool
  timeouts runs k zero = true
  timeouts runs k (suc j) = is_timeout (runs k) && timeouts runs (suc k) j

  -- The attempts stop with the first that did not time out, or with the last that is allowed, and
  -- that one is answered.
  abbrev pub Stops : String → (ℕ → Run D) → ℕ → ℕ → ToolResult D × ℕ → Type 0
  Stops name runs k retries answer =
      (j i : ℕ) × (i ≡ j + k)
      × (j ≤ retries)
      × (answer ≡ (settled name (runs i), suc i))
      × (timeouts runs k j ≡ true)
      × ((is_timeout (runs i) && ltb j retries) ≡ false)

  attempt-Stops :
      (name : String) (runs : ℕ → Run D) (k retries : ℕ)
      → Stops name runs k retries (attempt name runs k retries)
  unfolding attempt
  attempt-Stops name runs k zero =
      (0, k, omega arith, omega arith, refl, refl, never_below (is_timeout (runs k)))
  attempt-Stops name runs k (suc left) = elim (Bool-cases (is_timeout (runs k))) [
    | inr e ↦ (0, k, omega arith, omega arith, rw (e, attempt) refl, refl, rw e refl)
    | inl e ↦
        let (j, i, at, few, same, before, last) = attempt-Stops name runs (suc k) left in
        (
          suc j,
          i,
          omega (arith, at),
          omega (arith, few),
          rw (e, attempt) same,
          rw e before,
          ground (arith, last),
        )
  ]

module _ (n : Numbers) (D : Type 0) where
  run_checked_runs :
      (b : Bool) (name : String) (ps : List Problem) (runs : ℕ → Run D) (retries : ℕ)
      → (ps ≡ [] ↔ b ≡ true)
      → ltb 0 (run_checked n D name ps runs retries).1 ≡ b
  unfolding run_checked
  run_checked_runs b name [] runs retries h =
      let (j, i, at, few, same, before, last) = attempt-Stops name runs 0 retries in
      rw (h.0 refl, same) (positive i)
  run_checked_runs false name (p ∷ ps) runs retries h = refl
  run_checked_runs true name (p ∷ ps) runs retries h = absurd (cons_empty p ps (h.1 refl))

  run_found_runs :
      (tool : Option (Tool n)) (name : String) (args : Args n) (runs : ℕ → Run D) (retries : ℕ)
      → ltb 0 (run_found n D name tool args runs retries).1 ≡ is_admitted n tool args
  unfolding run_found
  run_found_runs none name args runs retries = refl
  run_found_runs (some tool) name args runs retries =
      run_checked_runs (is_valid n args tool.parameters) name _ runs retries
        (validate_against_schema_iff n args tool.parameters)

  -- A tool is run only with arguments that its schema accepts, and is run at least once with those:
  -- there is a run exactly if there is such a tool and the arguments are as its schema asks.
  execute_runs :
      (registry : Registry n) (name : String) (args : Args n) (runs : ℕ → Run D) (retries : ℕ)
      → ltb 0 (execute n D registry name args runs retries).1
        ≡ is_admitted n (lookup name registry) args
  unfolding execute
  execute_runs registry name args runs retries =
      run_found_runs (lookup name registry) name args runs retries

  run_found-Stops :
      (tool : Option (Tool n)) (name : String) (args : Args n) (runs : ℕ → Run D) (retries : ℕ)
      → is_admitted n tool args ≡ true
      → Stops name runs 0 retries (run_found n D name tool args runs retries)
  unfolding run_found run_checked
  run_found-Stops none name args runs retries h = absurd (ground arith)
  run_found-Stops (some tool) name args runs retries h =
      rw ((validate_against_schema_iff n args tool.parameters).1 h)
        (attempt-Stops name runs 0 retries)

  -- A call that is admitted comes to its first run that does not time out, and is answered by it:
  -- there is a run, at most the allowed number of retries after the first, that is the last one
  -- made and is what is answered; all before it timed out, and it did not itself unless it was
  -- the last that is allowed.
  pub execute-Stops :
      (registry : Registry n) (name : String) (args : Args n) (runs : ℕ → Run D) (retries : ℕ)
      → is_admitted n (lookup name registry) args ≡ true
      → Stops name runs 0 retries (execute n D registry name args runs retries)
  unfolding execute
  execute-Stops registry name args runs retries h =
      run_found-Stops (lookup name registry) name args runs retries h

  length-execute_all :
      (registry : Registry n) (calls : List (Call n D))
      → length (execute_all n D registry calls) ≡ length calls
  unfolding execute_all
  length-execute_all registry [] = refl
  length-execute_all registry (c ∷ calls) = ap suc (length-execute_all registry calls)

  length-calls_that :
      (registry : Registry n) (calls : List (Call n D))
      → length (calls_that n D true registry calls) + length (calls_that n D false registry calls)
        ≡ length calls
  unfolding calls_that
  length-calls_that registry [] = omega arith
  length-calls_that registry (c ∷ calls) =
      let rest = length-calls_that registry calls in
      elim (Bool-cases (is_read_only n registry c.0)) [
        | inl e ↦ rw e (omega (arith, rest))
        | inr e ↦ rw e (omega (arith, rest))
      ]

  -- Each of the first two calls of a turn is answered once, whatever they are, and no other is: the
  -- results are as many as the calls, and at most two.
  length-execute_many :
      (registry : Registry n) (calls : List (Call n D))
      → length (execute_many n D registry calls) ≡ min max_calls_per_turn (length calls)
  unfolding execute_many
  length-execute_many registry calls =
      let two = take max_calls_per_turn calls in
      let reads = calls_that n D true registry two in
      let writes = calls_that n D false registry two in
      omega (
        arith,
        length-append (execute_all n D registry reads) (execute_all n D registry writes),
        length-execute_all registry reads,
        length-execute_all registry writes,
        length-calls_that registry two,
        length-take max_calls_per_turn calls,
      )
