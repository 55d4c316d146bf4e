-- ===== src/Auth/Guesses.antt =====
-- How many passwords are tried on an account: the failures of `login` are counted in rows that are
-- rolled back, so this rests on the rate limits.
use uaagro_voice_agent.Prelude.{
  String, ℕ, suc, ◌≤◌, ◌<◌, ◌≡◌, Bool, true, false, ◌&&◌, ◌⊎◌, List, [], ◌∷◌, if◌then◌else◌,
  string_eq,
}
use uaagro_voice_agent.Limits.{Key, same_key, Redis, AtLeast}
use uaagro_voice_agent.Auth.Store.{
  Outside, Db, Outcome, returned, raised, authentication, rate_limited,
}
use uaagro_voice_agent.Auth.Signin.{Answer}
use uaagro_voice_agent.Auth.Guarded.{Tried}

-- The handler went past the limits.
abbrev pub went_on : Outcome Answer → Bool
went_on (returned answer) = true
went_on (raised authentication) = true
went_on (raised rate_limited) = false

-- An attempt on the account, past the limits, on an answer of Redis.
abbrev pub is_guess : Key → Tried → Bool
is_guess k t = same_key t.key k && (t.answered && went_on t.outcome)

unfoldable pub count_guesses : Key → List Tried → ℕ
count_guesses k [] = 0
count_guesses k (t ∷ tried) =
    if is_guess k t then suc (count_guesses k tried) else count_guesses k tried

abbrev pub account : String → ℕ → Key
account email bucket = record {
  scope = "login-account";
  requests = 5;
  window = 900;
  identity = email;
  bucket = bucket;
}

-- The state after an attempt.
module _ (r : Redis) (o : Outside) (k : Key) (positive : 0 < k.window) where
  abbrev Counts : ℕ → ℕ → Tried × (r.Store × Db) → Type 0
  Counts n later out =
      ((is_guess k out.0 ≡ false) × AtLeast r k n later out.1.0)
      ⊎ ((suc n ≤ k.requests) × AtLeast r k (suc n) later out.1.0)
