-- ===== src/Limits/Retry.antt =====
-- The delay that a refused client is told.
use uaagro_voice_agent.Prelude.{
  ℕ, suc, ◌+◌, ◌*◌, ◌/◌, ◌%◌, ◌≤◌, ◌<◌, ◌≡◌, sym, ap, ◌∙◌, Option, none, some, String, arith,
}
use native.Mathlib.Nat.{div-add-mod', mod-lt, mul-div_cancel, mul-mod_left}
use uaagro_voice_agent.Limits.Defs.{Limit, key_of, Redis, limited, retry_after, judge_count, check}

-- The next window begins after it.
retry_after_lem :
    (limit : Limit) (now : ℕ)
    → 0 < limit.window_seconds
    → now + retry_after limit now ≡ suc (now / limit.window_seconds) * limit.window_seconds
retry_after_lem limit now positive =
    let w = limit.window_seconds in grind (arith, div-add-mod' now w, mod-lt now positive)

retry_after_le :
    (limit : Limit) (now : ℕ)
    → 0 < limit.window_seconds
    → retry_after limit now ≤ limit.window_seconds
retry_after_le limit now positive = omega arith

judge_count-limited :
    (limit : Limit) (again delay : ℕ) (o : Option ℕ)
    → judge_count limit again o ≡ limited delay
    → retry_after limit again ≡ delay
unfolding judge_count
judge_count-limited limit again delay none e = absurd (ground arith)
judge_count-limited limit again delay (some count) e = ground (arith, e)

-- A client that is refused is told a delay between one second and the length of the window, and the
-- next window begins exactly when that delay has passed since the clock was read for it. The window
-- is not of length zero.
pub check-limited :
    (r : Redis) (scope identity : String) (limit : Limit) (now again delay : ℕ) (s : r.Store)
    → 0 < limit.window_seconds
    → (check r scope identity limit now again s).0 ≡ limited delay
    → (1 ≤ delay)
      × (delay ≤ limit.window_seconds)
      × ((again + delay) / limit.window_seconds ≡ suc (again / limit.window_seconds))
      × ((again + delay) % limit.window_seconds ≡ 0)
unfolding check
check-limited r scope identity limit now again delay s positive e =
    let w = limit.window_seconds in
    let same =
      judge_count-limited limit again delay
        (r.incr_expire (key_of scope identity limit now) (suc w) now s).0 e in
    let turn = ap (λ d. again + d) (sym same) ∙ retry_after_lem limit again positive in
    (
      omega (arith, same),
      omega (arith, same, retry_after_le limit again positive),
      ap (λ i. i / w) turn ∙ mul-div_cancel (suc (again / w)) positive,
      ap (λ i. i % w) turn ∙ mul-mod_left (suc (again / w)) w,
    )
