-- ===== src/Limits/Examples.antt =====
-- Checks of two accounts.
use uaagro_voice_agent.Prelude.{
  ℕ, suc, ◌+◌, ◌≤◌, ◌/◌, ◌%◌, min, ◌≡◌, refl, true, false, not, List, [], ◌∷◌, String, arith, all,
}
use uaagro_voice_agent.Limits.Defs.{
  Limit, Key, key_of, limited, is_unavailable, judge_count, Visit, check, check_all, count_passed,
  count_checks,
}
use uaagro_voice_agent.Limits.Ceiling.{check_all-ceiling, check_all-exact}
use uaagro_voice_agent.Limits.Retry.{check-limited}
use uaagro_voice_agent.Limits.Memory.{failing_redis, nothing, written}

abbrev limit : Limit
limit = record { requests = 2; window_seconds = 60 }

abbrev asks : String → ℕ → Visit
asks who waited = record {
  scope = "login-account";
  identity = who;
  limit = limit;
  waited = waited;
  again = 110;
}

abbrev visits : List Visit
visits = asks "a" 1 ∷ asks "b" 2 ∷ asks "a" 3 ∷ asks "a" 1 ∷ asks "a" 1 ∷ []

abbrev key : Key
key = key_of "login-account" "a" limit 100

-- The first check meets a Redis that is down.
abbrev down_first : failing_redis.Store
down_first = (false ∷ [], nothing)

check_all-visits : count_passed key (check_all failing_redis visits 100 down_first) ≡ 2
unfolding check_all check judge_count count_passed
check_all-visits = refl

check_all-ceiling_example : count_passed key (check_all failing_redis visits 100 down_first) ≤ 2
check_all-ceiling_example = check_all-ceiling failing_redis key visits 100 down_first (omega arith)

all_answered :
    all (λ result. not (is_unavailable result.1)) (check_all failing_redis visits 100 ([], nothing))
    ≡ true
unfolding check_all check judge_count
all_answered = refl

check_all-exact_example :
    count_passed key (check_all failing_redis visits 100 ([], nothing))
    ≡ min 2 (count_checks key (check_all failing_redis visits 100 ([], nothing)))
check_all-exact_example =
    check_all-exact failing_redis key visits 100 ([], nothing) (omega arith) all_answered
      (λ later there. ground arith)

-- Two checks have passed in the window.
abbrev full : failing_redis.Store
full = ([], written key (2, 180) nothing)

refused : (check failing_redis "login-account" "a" limit 105 110 full).0 ≡ limited 10
unfolding check judge_count
refused = refl

check-limited_example :
    (1 ≤ 10) × (10 ≤ 60) × ((110 + 10) / 60 ≡ suc (110 / 60)) × ((110 + 10) % 60 ≡ 0)
check-limited_example =
    check-limited failing_redis "login-account" "a" limit 105 110 10 full (omega arith) refused
