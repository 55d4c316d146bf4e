-- ===== src/Limits/Defs.antt =====
-- The fixed-window limiter: apps/api/src/api/security/ratelimit.py. Times are whole seconds, on one
-- clock with Redis. A key is what its text is written from; no scope has a colon, so the text is read
-- back in one way.
use uaagro_voice_agent.Prelude.{
  ℕ, suc, ◌+◌, ◌-◌, ◌/◌, ◌%◌, ◌≤◌, ◌<◌, max, ◌≡◌, ◌≢◌, ◌==◌, ltb, Bool, true, false, ◌&&◌, Option,
  none, some, List, [], ◌∷◌, String, str_eq, if◌then◌else◌,
}

pub record Limit : Type 0 where
  pub requests : ℕ
  pub window_seconds : ℕ

abbrev pub login_limit : Limit
login_limit = record { requests = 8; window_seconds = 300 }

abbrev pub login_per_account_limit : Limit
login_per_account_limit = record { requests = 5; window_seconds = 900 }

abbrev pub refresh_limit : Limit
refresh_limit = record { requests = 60; window_seconds = 300 }

pub record Key : Type 0 where
  pub scope : String
  pub requests : ℕ
  pub window : ℕ
  pub identity : String
  pub bucket : ℕ

abbrev pub key_of : String → String → Limit → ℕ → Key
key_of scope identity limit now = record {
  scope = scope;
  requests = limit.requests;
  window = limit.window_seconds;
  identity = identity;
  bucket = now / limit.window_seconds;
}

abbrev pub same_key : Key → Key → Bool
same_key j k =
    str_eq j.scope k.scope
    && ((j.requests == k.requests)
        && ((j.window == k.window) && (str_eq j.identity k.identity && (j.bucket == k.bucket))))

-- Redis as the pipeline of INCR and EXPIRE sees it: given the key, the time to live and the time, it
-- answers the new count, or none where it raises. `count_at` is the count that a store would give at
-- a time, 0 for a key that is missing or has expired.
pub record Redis : Type 1 where
  pub Store : Type 0
  pub incr_expire : Key → ℕ → ℕ → Store → Option ℕ × Store
  pub count_at : Key → ℕ → Store → ℕ
  -- INCR adds one, and EXPIRE keeps the key until the time to live has passed.
  pub incr_answers :
      (k : Key) (ttl now n : ℕ) (s : Store)
      → (incr_expire k ttl now s).0 ≡ some n
      → n ≡ suc (count_at k now s)
  pub incr_lasts :
      (k : Key) (ttl now n later : ℕ) (s : Store)
      → (incr_expire k ttl now s).0 ≡ some n
      → now ≤ later
      → later < now + ttl
      → count_at k later (incr_expire k ttl now s).1 ≡ n
  -- A pipeline that raises may have been run or not.
  pub incr_keeps :
      (k : Key) (ttl now later : ℕ) (s : Store)
      → (incr_expire k ttl now s).0 ≡ none
      → now ≤ later
      → later < now + ttl
      → count_at k later s ≤ count_at k later (incr_expire k ttl now s).1
  pub incr_others :
      (j k : Key) (ttl now later : ℕ) (s : Store)
      → j ≢ k
      → count_at j later (incr_expire k ttl now s).1 ≡ count_at j later s

-- A check returns where the count is within the limit and where Redis fails, and raises
-- RateLimitedError with the delay otherwise.
pub data Checked : Type 0 where
  passed unavailable : Checked
  limited : ℕ → Checked

abbrev pub is_passed : Checked → Bool
is_passed passed = true
is_passed unavailable = false
is_passed (limited delay) = false

abbrev pub is_unavailable : Checked → Bool
is_unavailable passed = false
is_unavailable unavailable = true
is_unavailable (limited delay) = false

abbrev pub retry_after : Limit → ℕ → ℕ
retry_after limit now = max 1 (limit.window_seconds - now % limit.window_seconds)

-- The clock is read again for the delay.
unfoldable pub judge_count : Limit → ℕ → Option ℕ → Checked
judge_count limit again none = unavailable
judge_count limit again (some count) =
    if ltb limit.requests count then limited (retry_after limit again) else passed

-- A check, with the seconds since the one before it and the time of the second reading.
pub record Visit : Type 0 where
  pub scope : String
  pub identity : String
  pub limit : Limit
  pub waited : ℕ
  pub again : ℕ

module _ (r : Redis) where
  unfoldable pub check : String → String → Limit → ℕ → ℕ → r.Store → Checked × r.Store
  check scope identity limit now again s =
      let answer =
        r.incr_expire (key_of scope identity limit now) (suc limit.window_seconds) now s in
      (judge_count limit again answer.0, answer.1)

  -- Each check with its key.
  unfoldable pub check_all : List Visit → ℕ → r.Store → List (Key × Checked)
  check_all [] now s = []
  check_all (v ∷ visits) before s =
      let now = before + v.waited in
      let (result, after) = check v.scope v.identity v.limit now v.again s in
      (key_of v.scope v.identity v.limit now, result) ∷ check_all visits now after

-- The checks of a key that passed, and all of them.
unfoldable pub count_passed : Key → List (Key × Checked) → ℕ
count_passed k [] = 0
count_passed k ((j, c) ∷ results) =
    if same_key j k && is_passed c then suc (count_passed k results) else count_passed k results

unfoldable pub count_checks : Key → List (Key × Checked) → ℕ
count_checks k [] = 0
count_checks k ((j, c) ∷ results) =
    if same_key j k then suc (count_checks k results) else count_checks k results
