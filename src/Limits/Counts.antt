-- ===== src/Limits/Counts.antt =====
-- The count of a key while its window lasts, and what one check makes of it.
use uaagro_voice_agent.Prelude.{
  ℕ, suc, ◌+◌, ◌/◌, ◌≤◌, ◌<◌, ◌≡◌, refl, sym, ap, ap₂, ◌∙◌, ◌↔◌, true, false, leb, Option, none,
  some, arith, ◌⊎◌, inl, inr, Bool-cases, string_eq, Option-cases,
}
use native.Mathlib.Nat.{div-mul-le_self, lt-div-mul-add}
use uaagro_voice_agent.Limits.Defs.{
  Limit, Key, same_key, Redis, is_passed, is_unavailable, judge_count,
}

pub same_key_iff : (j k : Key) → (same_key j k ≡ true) ↔ (j ≡ k)
same_key_iff j k =
    ground (arith, string_eq.beq_iff j.scope k.scope, string_eq.beq_iff j.identity k.identity)

-- Two times of one window are less than the window apart.
within : (w now later : ℕ) → 0 < w → now / w ≡ later / w → later < now + suc w
within w now later positive same =
    grind (arith, div-mul-le_self now w, lt-div-mul-add {a = later} {b = w} positive)

judge_count-answered :
    (limit : Limit) (again m : ℕ) (o : Option ℕ)
    → o ≡ some m
    → is_passed (judge_count limit again o) ≡ leb m limit.requests
unfolding judge_count
judge_count-answered limit again m none e = absurd (ground arith)
judge_count-answered limit again m (some c) e = ground arith

judge_count-unanswered :
    (limit : Limit) (again : ℕ) (o : Option ℕ)
    → o ≡ none
    → (is_passed (judge_count limit again o) ≡ false)
      × (is_unavailable (judge_count limit again o) ≡ true)
unfolding judge_count
judge_count-unanswered limit again none e = (refl, refl)
judge_count-unanswered limit again (some c) e = absurd (ground arith)

-- A count that the key has, or has at least, as long as its window lasts.
module _ (r : Redis) (k : Key) where
  abbrev pub AtLeast : ℕ → ℕ → r.Store → Type 0
  AtLeast n now s =
      (later : ℕ) → now ≤ later → later / k.window ≡ k.bucket → n ≤ r.count_at k later s

  abbrev pub Exactly : ℕ → ℕ → r.Store → Type 0
  Exactly n now s =
      (later : ℕ) → now ≤ later → later / k.window ≡ k.bucket → r.count_at k later s ≡ n

module _ (r : Redis) where
  abbrev pub asked : Key → ℕ → r.Store → Option ℕ × r.Store
  asked k now s = r.incr_expire k (suc k.window) now s

  -- A pipeline on the key at a time of its window.
  AtLeast-unanswered :
      (k : Key) (now n : ℕ) (s : r.Store)
      → 0 < k.window
      → now / k.window ≡ k.bucket
      → (asked k now s).0 ≡ none
      → AtLeast r k n now s
      → AtLeast r k n now (asked k now s).1
  AtLeast-unanswered k now n s positive here e held later le there =
      let kept =
        r.incr_keeps k (suc k.window) now later s e le
          (within k.window now later positive (here ∙ sym there)) in
      omega (arith, kept, held later le there)

  Exactly-answered :
      (k : Key) (now m : ℕ) (s : r.Store)
      → 0 < k.window
      → now / k.window ≡ k.bucket
      → (asked k now s).0 ≡ some m
      → Exactly r k m now (asked k now s).1
  Exactly-answered k now m s positive here e later le there =
      r.incr_lasts k (suc k.window) now m later s e le
        (within k.window now later positive (here ∙ sym there))

  counted :
      (k : Key) (now m : ℕ) (s : r.Store)
      → (asked k now s).0 ≡ some m
      → m ≡ suc (r.count_at k now s)
  counted k now m s e = r.incr_answers k (suc k.window) now m s e

  -- A check of the key, on what it is judged to be.
  pub check-AtLeast :
      (k : Key) (limit : Limit) (now again n : ℕ) (s : r.Store)
      → limit.requests ≡ k.requests
      → 0 < k.window
      → now / k.window ≡ k.bucket
      → AtLeast r k n now s
      → ((is_passed (judge_count limit again (asked k now s).0) ≡ false)
          × AtLeast r k n now (asked k now s).1)
        ⊎ ((suc n ≤ k.requests) × AtLeast r k (suc n) now (asked k now s).1)
  check-AtLeast k limit now again n s ceiling positive here held =
      elim (Option-cases (asked k now s).0) [
        | inl e ↦ inl (
          (judge_count-unanswered limit again _ e).0,
          AtLeast-unanswered k now n s positive here e held,
        )
        | inr (m, e) ↦
            (let passes = judge_count-answered limit again m (asked k now s).0 e in
              let exact = Exactly-answered k now m s positive here e in
              let more = counted k now m s e in
              let had = held now (omega arith) here in
              elim (Bool-cases (leb m limit.requests)) [
                | inl fits ↦
                    inr
                      (ground (arith, fits), λ later le there. omega (arith, exact later le there))
                | inr over ↦
                    inl (passes ∙ over, λ later le there. omega (arith, exact later le there))
              ])
      ]

  pub check-Exactly :
      (k : Key) (limit : Limit) (now again n : ℕ) (s : r.Store)
      → limit.requests ≡ k.requests
      → 0 < k.window
      → now / k.window ≡ k.bucket
      → Exactly r k n now s
      → is_unavailable (judge_count limit again (asked k now s).0) ≡ false
      → (is_passed (judge_count limit again (asked k now s).0) ≡ leb (suc n) k.requests)
        × Exactly r k (suc n) now (asked k now s).1
  check-Exactly k limit now again n s ceiling positive here held up =
      elim (Option-cases (asked k now s).0) [
        | inl e ↦ absurd (ground (arith, judge_count-unanswered limit again (asked k now s).0 e))
        | inr (m, e) ↦
            (let exact = Exactly-answered k now m s positive here e in
              let more : m ≡ suc n =
                counted k now m s e ∙ ap (λ i. suc i) (held now (omega arith) here) in
              (
                judge_count-answered limit again m (asked k now s).0 e ∙ ap₂ leb more ceiling,
                λ later le there. exact later le there ∙ more,
              ))
      ]
