-- ===== src/Auth/Once.antt =====
-- What a refresh token is good for: one exchange, and none after logout.
use uaagro_voice_agent.Prelude.{
  ℕ, ◌≡◌, ◌≢◌, ◌==◌, ==_iff, inl, inr, refl, sym, ◌∙◌, Bool, true, false, Option, none, some, List,
  [], ◌∷◌, map, String, str_eq, string_eq, arith, Bool-cases, if_by, All, leb,
}
use mathlib.Core.Path.{subst}
use uaagro_voice_agent.Auth.Store.{
  Outside, User, RefreshToken, Db, Outcome, returned, raised, authentication, find_by_id,
  find_token,
}
use uaagro_voice_agent.Auth.Tokens.{
  Rotated, is_gone, is_spent, use_row, revoke_row, revoke_family, mark_used, rotate_for,
  rotate_found, rotate_refresh_token,
}
use uaagro_voice_agent.Auth.Signin.{Answer, Drawn, refresh, as_session, logout}
use uaagro_voice_agent.Auth.Requests.{
  Request, refreshing, logging_out, handle, settled, serve, serve_all,
}
use uaagro_voice_agent.Auth.Spent.{IsDead, IsFresh, AllDead, find_token-AllDead, issue-AllDead}
use uaagro_voice_agent.Auth.Kept.{serve_all-AllDead}

abbrev by_digest : String → String → ℕ → Bool
by_digest d digest family = str_eq digest d

abbrev by_family : ℕ → String → ℕ → Bool
by_family f digest family = family == f

str_eq_of_ne : (a b : String) → a ≢ b → str_eq a b ≡ false
str_eq_of_ne a b ne = elim (Bool-cases (str_eq a b)) [
  | inl same ↦ absurd (ne ((string_eq.beq_iff a b).0 same))
  | inr other ↦ other
]

All-weaken :
    {A : Type 0} (P Q : A → Type 0) (xs : List A) → ((a : A) → P a → Q a) → All P xs → All Q xs
All-weaken P Q [] f h = tt
All-weaken P Q (x ∷ xs) f h = (f x h.0, All-weaken P Q xs f h.1)

used_all :
    (d : String) (now : ℕ) (tokens : List RefreshToken)
    → AllDead (by_digest d) (map (use_row d now) tokens)
unfolding use_row
used_all d now [] = tt
used_all d now (t ∷ tokens) = (
  if_by (IsDead (by_digest d)) (str_eq t.token_hash d) _ t (λ _ picked. refl)
      (λ other picked. absurd (ground (arith, sym other ∙ picked))),
  used_all d now tokens,
)

revoked_all :
    (f : ℕ) (reason : String) (now : ℕ) (tokens : List RefreshToken)
    → AllDead (by_family f) (map (revoke_row f reason now) tokens)
unfolding revoke_row
revoked_all f reason now [] = tt
revoked_all f reason now (t ∷ tokens) = ((λ picked. ground arith), revoked_all f reason now tokens)

none_picked : (tokens : List RefreshToken) → AllDead (λ _ _. false) tokens
none_picked [] = tt
none_picked (t ∷ tokens) = ((λ e. absurd (ground arith)), none_picked tokens)

module _ (o : Outside) where
  -- A spent row, or none, is refused.
  rotate_found-spent :
      (stored : Option RefreshToken) (drawn : Drawn) (db : Db)
      → ((t : RefreshToken) → stored ≡ some t → is_spent t ≡ true)
      → (settled db (as_session (rotate_found o stored drawn.raw drawn.now db))).0
        ≡ raised authentication
  unfolding settled rotate_found
  rotate_found-spent none drawn db spent = refl
  rotate_found-spent (some t) drawn db spent =
      if_by (λ (x : Outcome Rotated × Db). (settled db (as_session x)).0 ≡ raised authentication)
        (is_spent t) _ _ (λ _. refl)
        (λ unspent. absurd (ground (arith, sym unspent ∙ spent t refl)))

  -- A success leaves every row of the digest used.
  abbrev Uses : String → Db → Answer → Outcome Rotated × Db → Type 0
  Uses d db answer result =
      (settled db (as_session result)).0 ≡ returned answer
      → AllDead (by_digest d) (settled db (as_session result)).1.tokens

  rotate_for-Uses :
      (t : RefreshToken) (user : Option User) (drawn : Drawn) (db : Db) (answer : Answer)
      → o.hash_refresh_token drawn.raw ≢ t.token_hash
      → Uses t.token_hash db answer (rotate_for o t user drawn.raw drawn.now db)
  unfolding settled rotate_for
  rotate_for-Uses t none drawn db answer new = λ e. absurd (ground arith)
  rotate_for-Uses t (some user) drawn db answer new =
      if_by (Uses t.token_hash db answer) (is_gone user) _ _ (λ _ e. absurd (ground arith))
        (λ _ e.
          issue-AllDead (by_digest t.token_hash) o user.id t.family_id drawn.raw drawn.now
            (mark_used t.token_hash drawn.now db)
            (str_eq_of_ne (o.hash_refresh_token drawn.raw) t.token_hash new)
            (used_all t.token_hash drawn.now db.tokens))

  rotate_found-Uses :
      (d : String) (stored : Option RefreshToken) (drawn : Drawn) (db : Db) (answer : Answer)
      → ((t : RefreshToken) → stored ≡ some t → t.token_hash ≡ d)
      → o.hash_refresh_token drawn.raw ≢ d
      → Uses d db answer (rotate_found o stored drawn.raw drawn.now db)
  unfolding settled rotate_found
  rotate_found-Uses d none drawn db answer same new = λ e. absurd (ground arith)
  rotate_found-Uses d (some t) drawn db answer same new =
      if_by (Uses d db answer) (is_spent t) _ _ (λ _ e. absurd (ground arith))
        (λ _.
          if_by (Uses d db answer) (leb t.expires_at drawn.now) _ _ (λ _ e. absurd (ground arith))
            (λ _.
              subst
                (λ k.
                  Uses k db answer
                    (rotate_for o t (find_by_id t.user_id db.users) drawn.raw drawn.now db))
                (same t refl)
                (rotate_for-Uses t (find_by_id t.user_id db.users) drawn db answer
                  (λ e. new (e ∙ same t refl)))))

  found_digest :
      (d : String) (tokens : List RefreshToken) (t : RefreshToken)
      → find_token d tokens ≡ some t
      → t.token_hash ≡ d
  found_digest d tokens t e =
      (find_token-AllDead (λ _ _. false) d tokens t e (none_picked tokens)).1

  -- Once every row of a digest is spent, its token is refused.
  pub refresh-refused :
      (presented : String) (drawn : Drawn) (db : Db)
      → ((t : RefreshToken)
          → find_token (o.hash_refresh_token presented) db.tokens ≡ some t
          → is_spent t ≡ true)
      → (serve o (refreshing true (some presented)) drawn db).0 ≡ raised authentication
  unfolding serve handle refresh rotate_refresh_token
  refresh-refused presented drawn db spent =
      rotate_found-spent (find_token (o.hash_refresh_token presented) db.tokens) drawn db spent

  refresh-Uses :
      (presented : String) (drawn : Drawn) (db : Db) (answer : Answer)
      → o.hash_refresh_token drawn.raw ≢ o.hash_refresh_token presented
      → (serve o (refreshing true (some presented)) drawn db).0 ≡ returned answer
      → AllDead
          (by_digest (o.hash_refresh_token presented))
          (serve o (refreshing true (some presented)) drawn db).1.tokens
  unfolding serve handle refresh rotate_refresh_token
  refresh-Uses presented drawn db answer new =
      let d = o.hash_refresh_token presented in
      rotate_found-Uses d (find_token d db.tokens) drawn db answer (found_digest d db.tokens) new

  -- A refresh token is exchanged once: after an exchange that succeeded, and whatever requests of
  -- any kind are served then, in whatever order, presenting it again is refused. The tokens that are
  -- drawn on the way have other digests.
  pub refresh_once :
      (presented : String) (first again : Drawn) (db : Db) (answer : Answer)
      (requests : List (Request × Drawn))
      → (serve o (refreshing true (some presented)) first db).0 ≡ returned answer
      → o.hash_refresh_token first.raw ≢ o.hash_refresh_token presented
      → All (λ r. o.hash_refresh_token r.1.raw ≢ o.hash_refresh_token presented) requests
      → (serve o
          (refreshing true (some presented))
          again
          (serve_all o requests (serve o (refreshing true (some presented)) first db).1)).0
        ≡ raised authentication
  refresh_once presented first again db answer requests e new others =
      let d = o.hash_refresh_token presented in
      let later = serve_all o requests (serve o (refreshing true (some presented)) first db).1 in
      let dead =
        serve_all-AllDead (by_digest d) o requests _
          (All-weaken (λ r. o.hash_refresh_token r.1.raw ≢ d) (λ r. IsFresh (by_digest d) o r.1)
            requests (λ r ne. (str_eq_of_ne _ d ne, λ _ _ _. str_eq_of_ne _ d ne)) others)
          (refresh-Uses presented first db answer new e) in
      refresh-refused presented again later (λ t found.
        (find_token-AllDead (by_digest d) d later.tokens t found dead).0
          ((string_eq.beq_iff t.token_hash d).1 (found_digest d later.tokens t found)))

  -- Logging out ends a session for good: whatever requests are served after it, a token of the
  -- session's family that the store holds is refused. The families that are drawn on the way are
  -- others.
  pub refresh-logout :
      (user family : ℕ) (out again : Drawn) (db : Db) (requests : List (Request × Drawn))
      (presented : String) (t : RefreshToken)
      → All (λ r. r.1.family ≢ family) requests
      → find_token
          (o.hash_refresh_token presented)
          (serve_all o requests (serve o (logging_out user family) out db).1).tokens
        ≡ some t
      → t.family_id ≡ family
      → (serve o
          (refreshing true (some presented))
          again
          (serve_all o requests (serve o (logging_out user family) out db).1)).0
        ≡ raised authentication
  unfolding serve handle logout settled revoke_family
  refresh-logout user family out again db requests presented t others found same =
      let d = o.hash_refresh_token presented in
      let later = serve_all o requests (serve o (logging_out user family) out db).1 in
      let dead =
        serve_all-AllDead (by_family family) o requests (serve o (logging_out user family) out db).1
          (All-weaken (λ r. r.1.family ≢ family) (λ r. IsFresh (by_family family) o r.1) requests
            (λ r ne. (ground arith, λ _ _ k. k)) others)
          (revoked_all family "logout" out.now db.tokens) in
      refresh-refused presented again later (λ s found_s.
        (find_token-AllDead (by_family family) d later.tokens s found_s dead).0
          ((==_iff s.family_id family).1 (ground (arith, sym found_s ∙ found))))
