-- ===== src/Auth/Kept.antt =====
-- Spent refresh tokens stay spent through every request.
use uaagro_voice_agent.Prelude.{
  ℕ, ◌≡◌, refl, sym, Bool, ◌||◌, not, Option, none, some, List, [], ◌∷◌, String, string_eq, if_by,
  All,
}
use mathlib.Core.Path.{subst}
use uaagro_voice_agent.Auth.Store.{
  Outside, User, Db, Outcome, returned, raised, is_set, find_by_email, find_token, write_user,
}
use uaagro_voice_agent.Auth.Tokens.{rotate_refresh_token, Rotated}
use uaagro_voice_agent.Auth.Signin.{
  Answer, Drawn, login, login_as, verify_mfa, verify_as, verify_secret, enrol_mfa, enrol_as, named,
  is_locked, enrolled, refresh, as_session, logout,
}
use uaagro_voice_agent.Auth.Requests.{
  Request, logging_in, verifying, enrolling, refreshing, logging_out, handle, settled, serve,
  serve_all,
}
use uaagro_voice_agent.Auth.Spent.{
  IsFresh, AllDead, find_token-AllDead, revoke_family-AllDead, rotate_found-AllDead,
  complete_signin-AllDead,
}

module _ (q : String → ℕ → Bool) (o : Outside) where
  -- Of either branch, by its own handler.
  abbrev KeepsDead : Db → Outcome Answer × Db → Type 0
  KeepsDead db result = AllDead q db.tokens → AllDead q result.1.tokens

  verify_secret-AllDead :
      (code : String) (user : User) (secret : Option String) (drawn : Drawn) (db : Db)
      → IsFresh q o drawn
      → KeepsDead db (verify_secret o code user secret drawn db)
  unfolding verify_secret write_user
  verify_secret-AllDead code user none drawn db fresh h = h
  verify_secret-AllDead code user (some secret) drawn db fresh h =
      if_by (λ (x : Outcome Answer × Db). AllDead q x.1.tokens) (not user.is_active) _ _ (λ _. h)
        (λ _.
          if_by (λ (x : Outcome Answer × Db). AllDead q x.1.tokens)
            (not (o.verify_code (o.decrypt_secret secret) code)) _ _ (λ _. h)
            (λ _. complete_signin-AllDead q o user drawn db fresh h))

  verify_as-AllDead :
      (code : String) (user : Option User) (drawn : Drawn) (db : Db)
      → IsFresh q o drawn
      → KeepsDead db (verify_as o code user drawn db)
  unfolding verify_as
  verify_as-AllDead code none drawn db fresh h = h
  verify_as-AllDead code (some user) drawn db fresh h =
      verify_secret-AllDead code user user.mfa_secret_enc drawn db fresh h

  enrol_as-AllDead :
      (secret code : String) (user : Option User) (drawn : Drawn) (db : Db)
      → IsFresh q o drawn
      → KeepsDead db (enrol_as o secret code user drawn db)
  unfolding enrol_as write_user
  enrol_as-AllDead secret code none drawn db fresh h = h
  enrol_as-AllDead secret code (some user) drawn db fresh h =
      if_by (λ (x : Outcome Answer × Db). AllDead q x.1.tokens)
        (not user.is_active || is_set user.mfa_secret_enc) _ _ (λ _. h)
        (λ _.
          if_by (λ (x : Outcome Answer × Db). AllDead q x.1.tokens)
            (not (o.base32_is_valid secret) || not (o.verify_code secret code)) _ _ (λ _. h)
            (λ _. complete_signin-AllDead q o (enrolled o secret drawn.now user) drawn _ fresh h))

  login_as-tokens :
      (password : String) (drawn : Drawn) (user : Option User) (db : Db)
      → (login_as o password drawn user db).1.tokens ≡ db.tokens
  unfolding login_as write_user
  login_as-tokens password drawn none db = refl
  login_as-tokens password drawn (some user) db =
      if_by (λ (x : Outcome Answer × Db). x.1.tokens ≡ db.tokens)
        (is_locked user.locked_until drawn.now) _ _ (λ _. refl)
        (λ _.
          if_by (λ (x : Outcome Answer × Db). x.1.tokens ≡ db.tokens)
            (not user.is_active || not (o.verify_password password user.password_hash)) _ _
            (λ _. refl) (λ _. refl))

  login-tokens :
      (ip_ok account_ok : Bool) (email password : String) (drawn : Drawn) (db : Db)
      → (login o ip_ok account_ok email password drawn db).1.tokens ≡ db.tokens
  unfolding login
  login-tokens ip_ok account_ok email password drawn db =
      if_by (λ (x : Outcome Answer × Db). x.1.tokens ≡ db.tokens) (not ip_ok || not account_ok) _ _
        (λ _. refl)
        (λ _. login_as-tokens password drawn (find_by_email o (o.lower email) db.users) db)

  as_session-AllDead :
      (result : Outcome Rotated × Db)
      → AllDead q result.1.tokens
      → AllDead q (as_session result).1.tokens
  as_session-AllDead (returned (user, family, raw), db) h = h
  as_session-AllDead (raised e, db) h = h

  handle-AllDead :
      (r : Request) (drawn : Drawn) (db : Db)
      → IsFresh q o drawn
      → KeepsDead db (handle o r drawn db)
  unfolding handle verify_mfa enrol_mfa refresh logout rotate_refresh_token
  handle-AllDead (logging_in ip_ok account_ok email password) drawn db fresh h =
      subst (AllDead q) (sym (login-tokens ip_ok account_ok email password drawn db)) h
  handle-AllDead (verifying ip_ok token code) drawn db fresh h =
      if_by (λ (x : Outcome Answer × Db). AllDead q x.1.tokens) (not ip_ok) _ _ (λ _. h)
        (λ _. verify_as-AllDead code (named o token drawn.now db) drawn db fresh h)
  handle-AllDead (enrolling token secret code) drawn db fresh h =
      enrol_as-AllDead secret code (named o token drawn.now db) drawn db fresh h
  handle-AllDead (refreshing ip_ok none) drawn db fresh h =
      if_by (λ (x : Outcome Answer × Db). AllDead q x.1.tokens) ip_ok _ _ (λ _. h) (λ _. h)
  handle-AllDead (refreshing ip_ok (some presented)) drawn db fresh h =
      if_by (λ (x : Outcome Answer × Db). AllDead q x.1.tokens) ip_ok _ _
        (λ _. as_session-AllDead (rotate_refresh_token o presented drawn.raw drawn.now db) (
          rotate_found-AllDead q o (find_token (o.hash_refresh_token presented) db.tokens) drawn db
            (λ t e. (find_token-AllDead q (o.hash_refresh_token presented) db.tokens t e h).0) fresh
            h))
        (λ _. h)
  handle-AllDead (logging_out user family) drawn db fresh h =
      revoke_family-AllDead q family "logout" drawn.now db h

  settled-AllDead :
      (db : Db) (result : Outcome Answer × Db)
      → AllDead q db.tokens
      → AllDead q result.1.tokens
      → AllDead q (settled db result).1.tokens
  unfolding settled
  settled-AllDead db (returned answer, after) h k = k
  settled-AllDead db (raised e, after) h k = h

  pub serve_all-AllDead :
      (requests : List (Request × Drawn)) (db : Db)
      → All (λ r. IsFresh q o r.1) requests
      → AllDead q db.tokens
      → AllDead q (serve_all o requests db).tokens
  unfolding serve_all serve
  serve_all-AllDead [] db fresh h = h
  serve_all-AllDead ((r, drawn) ∷ requests) db fresh h =
      serve_all-AllDead requests (serve o r drawn db).1 fresh.1
        (settled-AllDead db (handle o r drawn db) h (handle-AllDead r drawn db fresh.0 h))
