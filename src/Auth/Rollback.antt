-- ===== src/Auth/Rollback.antt =====
-- What the transaction around a handler undoes.
use uaagro_voice_agent.Prelude.{
  ◌≡◌, refl, sym, ap, ◌∙◌, true, false, ◌||◌, not, some, List, [], ◌∷◌, map, String, arith, if_by,
  All, leb,
}
use mathlib.Core.Path.{subst}
use uaagro_voice_agent.Auth.Store.{
  Outside, User, RefreshToken, Db, Outcome, returned, raised, Error, authentication, find_by_email,
  find_by_id, find_token,
}
use uaagro_voice_agent.Auth.Tokens.{
  Rotated, is_gone, is_spent, rotate_for, rotate_found, rotate_refresh_token,
}
use uaagro_voice_agent.Auth.Signin.{
  Answer, session, Drawn, is_locked, login, login_as, refresh, as_session,
}
use uaagro_voice_agent.Auth.Requests.{
  Request, logging_in, refreshing, handle, settled, serve, serve_all,
}
use uaagro_voice_agent.Auth.Once.{refresh-refused}

abbrev pub attempt : String → String × Drawn → Request × Drawn
attempt email (password, drawn) = (logging_in true true email password, drawn)

module _ (o : Outside) where
  settled-raised :
      (db : Db) (result : Outcome Answer × Db) (e : Error)
      → (settled db result).0 ≡ raised e
      → (settled db result).1 ≡ db
  unfolding settled
  settled-raised db (returned answer, after) e h = absurd (ground arith)
  settled-raised db (raised _, after) e h = refl

  serve-raised :
      (r : Request) (drawn : Drawn) (db : Db) (e : Error)
      → (serve o r drawn db).0 ≡ raised e
      → (serve o r drawn db).1 ≡ db
  unfolding serve
  serve-raised r drawn db = settled-raised db (handle o r drawn db)

  wrong_password :
      (password : String) (drawn : Drawn) (user : User) (db : Db)
      → o.verify_password password user.password_hash ≡ false
      → (settled db (login_as o password drawn (some user) db)).0 ≡ raised authentication
  unfolding login_as settled
  wrong_password password drawn user db wrong =
      if_by (λ x. (settled db x).0 ≡ raised authentication) (is_locked user.locked_until drawn.now)
        _ _ (λ _. refl)
        (λ _.
          if_by (λ x. (settled db x).0 ≡ raised authentication)
            (not user.is_active || not (o.verify_password password user.password_hash)) _ _
            (λ _. refl) (λ right. absurd (ground arith)))

  login-wrong_password :
      (email password : String) (drawn : Drawn) (user : User) (db : Db)
      → find_by_email o (o.lower email) db.users ≡ some user
      → o.verify_password password user.password_hash ≡ false
      → (serve o (logging_in true true email password) drawn db).1 ≡ db
  unfolding serve handle login
  login-wrong_password email password drawn user db found wrong =
      settled-raised db (login_as o password drawn (find_by_email o (o.lower email) db.users) db)
        authentication
        (subst (λ u. (settled db (login_as o password drawn u db)).0 ≡ raised authentication)
          (sym found) (wrong_password password drawn user db wrong))

  -- Wrong passwords are never counted: however many logins with a wrong password are made for an
  -- account that exists, the store is afterwards what it was before the first, so the account is
  -- never locked and no failure is audited.
  pub serve_all-wrong_passwords :
      (email : String) (attempts : List (String × Drawn)) (user : User) (db : Db)
      → find_by_email o (o.lower email) db.users ≡ some user
      → All (λ a. o.verify_password a.0 user.password_hash ≡ false) attempts
      → serve_all o (map (attempt email) attempts) db ≡ db
  unfolding serve_all
  serve_all-wrong_passwords email [] user db found wrong = refl
  serve_all-wrong_passwords email ((password, drawn) ∷ attempts) user db found wrong =
      ap (serve_all o (map (attempt email) attempts))
        (login-wrong_password email password drawn user db found wrong.0)
      ∙ serve_all-wrong_passwords email attempts user db found wrong.1

  rotate_found-live :
      (s : RefreshToken) (user : User) (drawn : Drawn) (db : Db)
      → is_spent s ≡ false
      → leb s.expires_at drawn.now ≡ false
      → find_by_id s.user_id db.users ≡ some user
      → is_gone user ≡ false
      → (settled db (as_session (rotate_found o (some s) drawn.raw drawn.now db))).0
        ≡ returned (session user.id s.family_id drawn.raw)
  unfolding rotate_found rotate_for settled
  rotate_found-live s user drawn db unspent live owner here =
      let exchanged = λ (x : Outcome Rotated × Db).
        (settled db (as_session x)).0 ≡ returned (session user.id s.family_id drawn.raw) in
      if_by exchanged (is_spent s) _ _ (λ spent. absurd (ground (arith, sym spent ∙ unspent)))
        (λ _.
          if_by exchanged (leb s.expires_at drawn.now) _ _
            (λ late. absurd (ground (arith, sym late ∙ live)))
            (λ _.
              subst (λ u. exchanged (rotate_for o s u drawn.raw drawn.now db)) (sym owner)
                (if_by exchanged (is_gone user) _ _
                  (λ gone. absurd (ground (arith, sym gone ∙ here))) (λ _. refl))))

  refresh-live :
      (successor : String) (s : RefreshToken) (user : User) (drawn : Drawn) (db : Db)
      → find_token (o.hash_refresh_token successor) db.tokens ≡ some s
      → is_spent s ≡ false
      → leb s.expires_at drawn.now ≡ false
      → find_by_id s.user_id db.users ≡ some user
      → is_gone user ≡ false
      → (serve o (refreshing true (some successor)) drawn db).0
        ≡ returned (session user.id s.family_id drawn.raw)
  unfolding serve handle refresh rotate_refresh_token
  refresh-live successor s user drawn db found unspent live owner here =
      subst
        (λ stored.
          (settled db (as_session (rotate_found o stored drawn.raw drawn.now db))).0
          ≡ returned (session user.id s.family_id drawn.raw))
        (sym found) (rotate_found-live s user drawn db unspent live owner here)

  -- The replay of a spent refresh token has no effect: it is refused, and a token of the same family
  -- that is neither used, revoked nor expired is exchanged after it as before, so the family is not
  -- revoked.
  pub refresh-replay :
      (replayed successor : String) (t s : RefreshToken) (user : User) (first second : Drawn)
      (db : Db)
      → find_token (o.hash_refresh_token replayed) db.tokens ≡ some t
      → is_spent t ≡ true
      → find_token (o.hash_refresh_token successor) db.tokens ≡ some s
      → s.family_id ≡ t.family_id
      → is_spent s ≡ false
      → leb s.expires_at second.now ≡ false
      → find_by_id s.user_id db.users ≡ some user
      → is_gone user ≡ false
      → ((serve o (refreshing true (some replayed)) first db).0 ≡ raised authentication)
        × ((serve o
              (refreshing true (some successor))
              second
              (serve o (refreshing true (some replayed)) first db).1).0
            ≡ returned (session user.id t.family_id second.raw))
  refresh-replay replayed successor t s user first second db found spent next same unspent live
        owner here =
      let refused =
        refresh-refused o replayed first db (λ r found_r. ground (arith, sym found_r ∙ found)) in
      (
        refused,
        subst
            (λ after.
              (serve o (refreshing true (some successor)) second after).0
              ≡ returned (session user.id t.family_id second.raw))
            (sym (serve-raised (refreshing true (some replayed)) first db authentication refused))
            (refresh-live successor s user second db next unspent live owner here
              ∙ ap (λ f. returned (session user.id f second.raw)) same),
      )
