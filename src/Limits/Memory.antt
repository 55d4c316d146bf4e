-- ===== src/Limits/Memory.antt =====
-- A Redis whose pipelines fail as a list says, each true for one that is answered, and that answers
-- from the end of the list on.
use uaagro_voice_agent.Prelude.{
  ℕ, suc, ◌+◌, ◌≤◌, ◌<◌, ◌≡◌, refl, ◌∙◌, ◌≢◌, inl, inr, Bool, true, false, Option, none, some, List,
  [], ◌∷◌, arith, ltb, if◌then◌else◌, Bool-cases,
}
use uaagro_voice_agent.Limits.Defs.{Key, same_key, Redis}
use uaagro_voice_agent.Limits.Counts.{same_key_iff}

-- Each key with its count and when it expires.
abbrev pub Counters : Type 0
Counters = Key → ℕ × ℕ

abbrev pub live : ℕ → ℕ × ℕ → ℕ
live now (count, expires) = if ltb now expires then count else 0

abbrev pub written : Key → ℕ × ℕ → Counters → Counters
written k entry counters j = if same_key j k then entry else counters j

abbrev pub piped : Key → ℕ → ℕ → List Bool × Counters → Option ℕ × (List Bool × Counters)
piped k ttl now ([], counters) =
    let n = suc (live now (counters k)) in (some n, ([], written k (n, now + ttl) counters))
piped k ttl now (true ∷ plan, counters) =
    let n = suc (live now (counters k)) in (some n, (plan, written k (n, now + ttl) counters))
piped k ttl now (false ∷ plan, counters) = (none, (plan, counters))

same_key_self : (k : Key) → same_key k k ≡ true
same_key_self k = (same_key_iff k k).1 refl

written_there :
    (k : Key) (n expires later : ℕ) (counters : Counters)
    → later < expires
    → live later (written k (n, expires) counters k) ≡ n
written_there k n expires later counters lt = ground (arith, same_key_self k)

written_elsewhere :
    (j k : Key) (entry : ℕ × ℕ) (later : ℕ) (counters : Counters)
    → j ≢ k
    → live later (written k entry counters j) ≡ live later (counters j)
written_elsewhere j k entry later counters ne = elim (Bool-cases (same_key j k)) [
  | inl same ↦ absurd (ne ((same_key_iff j k).0 same))
  | inr other ↦ ground (arith, other)
]

pub piped_answers :
    (k : Key) (ttl now n : ℕ) (s : List Bool × Counters)
    → (piped k ttl now s).0 ≡ some n
    → n ≡ suc (live now (s.1 k))
piped_answers k ttl now n ([], counters) e = ground (arith, e)
piped_answers k ttl now n (true ∷ plan, counters) e = ground (arith, e)
piped_answers k ttl now n (false ∷ plan, counters) e = absurd (ground (arith, e))

pub piped_lasts :
    (k : Key) (ttl now n later : ℕ) (s : List Bool × Counters)
    → (piped k ttl now s).0 ≡ some n
    → now ≤ later
    → later < now + ttl
    → live later ((piped k ttl now s).1.1 k) ≡ n
piped_lasts k ttl now n later ([], counters) e le lt =
    written_there k (suc (live now (counters k))) (now + ttl) later counters lt ∙ ground (arith, e)
piped_lasts k ttl now n later (true ∷ plan, counters) e le lt =
    written_there k (suc (live now (counters k))) (now + ttl) later counters lt ∙ ground (arith, e)
piped_lasts k ttl now n later (false ∷ plan, counters) e le lt = absurd (ground (arith, e))

pub piped_keeps :
    (k : Key) (ttl now later : ℕ) (s : List Bool × Counters)
    → (piped k ttl now s).0 ≡ none
    → now ≤ later
    → later < now + ttl
    → live later (s.1 k) ≤ live later ((piped k ttl now s).1.1 k)
piped_keeps k ttl now later ([], counters) e le lt = absurd (ground (arith, e))
piped_keeps k ttl now later (true ∷ plan, counters) e le lt = absurd (ground (arith, e))
piped_keeps k ttl now later (false ∷ plan, counters) e le lt = omega arith

pub piped_others :
    (j k : Key) (ttl now later : ℕ) (s : List Bool × Counters)
    → j ≢ k
    → live later ((piped k ttl now s).1.1 j) ≡ live later (s.1 j)
piped_others j k ttl now later ([], counters) ne = written_elsewhere j k _ later counters ne
piped_others j k ttl now later (true ∷ plan, counters) ne =
    written_elsewhere j k _ later counters ne
piped_others j k ttl now later (false ∷ plan, counters) ne = refl

abbrev pub failing_redis : Redis
failing_redis = record {
  Store = List Bool × Counters;
  incr_expire = piped;
  count_at = λ k now s. live now (s.1 k);
  incr_answers = piped_answers;
  incr_lasts = piped_lasts;
  incr_keeps = piped_keeps;
  incr_others = piped_others;
}

abbrev pub nothing : Counters
nothing k = (0, 0)
