-- ===== src/Limits/Ceiling.antt =====
-- What the limiter lets through in a window, over any sequence of checks.
use uaagro_voice_agent.Prelude.{
  String, ℕ, suc, ◌+◌, ◌-◌, ◌/◌, ◌≤◌, ◌<◌, min, ◌≡◌, sym, ap, ◌∙◌, true, false, ◌&&◌, leb, List, [],
  ◌∷◌, arith, ◌⊎◌, inl, inr, Bool-cases, string_eq, all, not, and_parts,
}
use mathlib.Core.Path.{subst}
use uaagro_voice_agent.Limits.Defs.{
  Limit, Key, key_of, same_key, Redis, is_passed, is_unavailable, judge_count, Visit, check,
  check_all, count_passed, count_checks,
}
use uaagro_voice_agent.Limits.Counts.{
  same_key_iff, AtLeast, Exactly, asked, check-AtLeast, check-Exactly,
}

module _ (r : Redis) where
  check_key :
      (k : Key) (scope identity : String) (limit : Limit) (now again : ℕ) (s : r.Store)
      → key_of scope identity limit now ≡ k
      → check r scope identity limit now again s
        ≡ (judge_count limit again (asked r k now s).0, (asked r k now s).1)
  unfolding check
  check_key k scope identity limit now again s e =
      ap
        (λ j. (
          judge_count limit again (r.incr_expire j (suc j.window) now s).0,
          (r.incr_expire j (suc j.window) now s).1,
        ))
        e

  -- A check of another key leaves the count.
  check-others :
      (k : Key) (scope identity : String) (limit : Limit) (now again later : ℕ) (s : r.Store)
      → same_key (key_of scope identity limit now) k ≡ false
      → r.count_at k later (check r scope identity limit now again s).1 ≡ r.count_at k later s
  unfolding check
  check-others k scope identity limit now again later s other =
      r.incr_others k (key_of scope identity limit now) (suc limit.window_seconds) now later s
        (λ e. ground (arith, other, same_key_iff (key_of scope identity limit now) k, sym e))

  in_window :
      (k : Key) (scope identity : String) (limit : Limit) (now : ℕ)
      → key_of scope identity limit now ≡ k
      → now / k.window ≡ k.bucket
  in_window k scope identity limit now e = ap (λ j. now / j.window) (sym e) ∙ ap (λ j. j.bucket) e

  -- A check, of the key or of another, passes for the key only by raising its count.
  pub visit-AtLeast :
      (k : Key) (scope identity : String) (limit : Limit) (now again n : ℕ) (s : r.Store)
      → 0 < k.window
      → AtLeast r k n now s
      → (((same_key (key_of scope identity limit now) k
              && is_passed (check r scope identity limit now again s).0)
            ≡ false)
          × AtLeast r k n now (check r scope identity limit now again s).1)
        ⊎ ((suc n ≤ k.requests)
            × AtLeast r k (suc n) now (check r scope identity limit now again s).1)
  visit-AtLeast k scope identity limit now again n s positive held =
      let j = key_of scope identity limit now in
      elim (Bool-cases (same_key j k)) [
        | inl same ↦
            (let e = (same_key_iff j k).0 same in
              subst
                (λ o.
                  (((same_key j k && is_passed o.0) ≡ false) × AtLeast r k n now o.1)
                  ⊎ ((suc n ≤ k.requests) × AtLeast r k (suc n) now o.1))
                (sym (check_key k scope identity limit now again s e))
                (elim (check-AtLeast r k limit now again n s (ap (λ i. i.requests) e) positive
                  (in_window k scope identity limit now e) held) [
                    | inl (refused, still) ↦ inl (ground (arith, refused), still)
                    | inr more ↦ inr more
                  ]))
        | inr other ↦ inl (
          ground (arith, other),
          λ later le there. omega (
            arith,
            held later le there,
            check-others k scope identity limit now again later s other,
          ),
        )
      ]

  count_passed-AtLeast :
      (k : Key) (visits : List Visit) (before n : ℕ) (s : r.Store)
      → 0 < k.window
      → AtLeast r k n before s
      → count_passed k (check_all r visits before s) ≤ k.requests - n
  unfolding count_passed check_all
  count_passed-AtLeast k [] before n s positive held = omega arith
  count_passed-AtLeast k (v ∷ visits) before n s positive held =
      let now = before + v.waited in
      let out = check r v.scope v.identity v.limit now v.again s in
      elim (visit-AtLeast k v.scope v.identity v.limit now v.again n s positive
        (λ later le there. held later (omega arith) there)) [
          | inl (refused, still) ↦
              ground (arith, refused, count_passed-AtLeast k visits now n out.1 positive still)
          | inr (fits, one_more) ↦
              ground
                (arith, fits, count_passed-AtLeast k visits now (suc n) out.1 positive one_more)
        ]

  count_passed-Exactly :
      (k : Key) (visits : List Visit) (before n : ℕ) (s : r.Store)
      → 0 < k.window
      → all (λ result. not (is_unavailable result.1)) (check_all r visits before s) ≡ true
      → Exactly r k n before s
      → count_passed k (check_all r visits before s)
        ≡ min (k.requests - n) (count_checks k (check_all r visits before s))
  unfolding count_passed count_checks check_all
  count_passed-Exactly k [] before n s positive up held = grind arith
  count_passed-Exactly k (v ∷ visits) before n s positive up held =
      let now = before + v.waited in
      let j = key_of v.scope v.identity v.limit now in
      let out = check r v.scope v.identity v.limit now v.again s in
      let still : Exactly r k n now s = λ later le there. held later (omega arith) there in
      let (answered, up_on) = and_parts (not (is_unavailable out.0)) _ up in
      elim (Bool-cases (same_key j k)) [
        | inl same ↦
            (let e = (same_key_iff j k).0 same in
              let looked = check_key k v.scope v.identity v.limit now v.again s e in
              let (fits, one_more) =
                subst
                  (λ o.
                    is_unavailable o.0 ≡ false
                    → (is_passed o.0 ≡ leb (suc n) k.requests) × Exactly r k (suc n) now o.1)
                  (sym looked)
                  (check-Exactly r k v.limit now v.again n s (ap (λ i. i.requests) e) positive
                    (in_window k v.scope v.identity v.limit now e) still)
                  (ground (arith, answered)) in
              let rest = count_passed-Exactly k visits now (suc n) out.1 positive up_on one_more in
              ground (arith, same, fits, rest))
        | inr other ↦
            (let rest = count_passed-Exactly k visits now n out.1 positive up_on (λ later le there.
                check-others k v.scope v.identity v.limit now v.again later s other
                ∙ still later le there) in
              ground (arith, other, rest))
      ]

-- Whatever checks are made of whatever keys, and however often Redis fails in between, at most as
-- many checks of a key pass as its limit has requests; a key is of one window, which is not of
-- length zero. A check that Redis does not answer is let in and is not among them.
pub check_all-ceiling :
    (r : Redis) (k : Key) (visits : List Visit) (now : ℕ) (s : r.Store)
    → 0 < k.window
    → count_passed k (check_all r visits now s) ≤ k.requests
check_all-ceiling r k visits now s positive =
    omega (arith, count_passed-AtLeast r k visits now 0 s positive (λ later le there. omega arith))

-- While Redis answers nobody is held up early: of the checks of a key that the store does not hold
-- yet, the first ones pass up to the limit's requests, whatever is checked of other keys in between.
pub check_all-exact :
    (r : Redis) (k : Key) (visits : List Visit) (now : ℕ) (s : r.Store)
    → 0 < k.window
    → all (λ result. not (is_unavailable result.1)) (check_all r visits now s) ≡ true
    → ((later : ℕ) → later / k.window ≡ k.bucket → r.count_at k later s ≡ 0)
    → count_passed k (check_all r visits now s)
      ≡ min k.requests (count_checks k (check_all r visits now s))
check_all-exact r k visits now s positive up fresh =
    let found =
      count_passed-Exactly r k visits now 0 s positive up (λ later le there. fresh later there) in
    omega (arith, found)
