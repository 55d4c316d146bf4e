-- ===== src/Auth/Guarded.antt =====
-- The first step of signing in behind its two rate limits: the calls of ratelimit.check with which
-- `login` of apps/api/src/api/routers/auth.py begins.
use uaagro_voice_agent.Prelude.{
  ℕ, ◌+◌, Bool, true, false, not, List, [], ◌∷◌, String, if◌then◌else◌,
}
use uaagro_voice_agent.Limits.{
  login_limit, login_per_account_limit, Key, key_of, Redis, Checked, passed, unavailable, limited,
  is_unavailable, check,
}
use uaagro_voice_agent.Auth.Store.{Outside, Db, Outcome}
use uaagro_voice_agent.Auth.Signin.{Answer, Drawn}
use uaagro_voice_agent.Auth.Requests.{logging_in, serve}

-- An attempt, with the seconds since the one before it and between its two checks.
pub record Attempt : Type 0 where
  pub address : String
  pub email : String
  pub password : String
  pub waited : ℕ
  pub between : ℕ
  pub again : ℕ
  pub drawn : Drawn

abbrev pub lets_in : Checked → Bool
lets_in passed = true
lets_in unavailable = true
lets_in (limited delay) = false

-- What an attempt comes to, with the key of its account and whether Redis answered for it.
pub record Tried : Type 0 where
  pub key : Key
  pub answered : Bool
  pub outcome : Outcome Answer

abbrev pub account_key : Outside → Attempt → ℕ → Key
account_key o a now =
    key_of "login-account" (o.lower a.email) login_per_account_limit (now + a.between)

module _ (r : Redis) (o : Outside) where
  -- The check of the account, and the handler.
  unfoldable pub try_account : Attempt → ℕ → r.Store → Db → Tried × (r.Store × Db)
  try_account a now s db =
      let checked =
        check r "login-account" (o.lower a.email) login_per_account_limit (now + a.between) a.again
          s in
      let out = serve o (logging_in true (lets_in checked.0) a.email a.password) a.drawn db in
      (
        record {
          key = account_key o a now;
          answered = not (is_unavailable checked.0);
          outcome = out.0;
        },
        (checked.1, out.1),
      )

  -- The check of the address comes first: where it raises, the account is not counted.
  unfoldable pub try_login : Attempt → ℕ → r.Store → Db → Tried × (r.Store × Db)
  try_login a now s db =
      let checked = check r "login-ip" a.address login_limit now a.again s in
      let out = serve o (logging_in false true a.email a.password) a.drawn db in
      if lets_in checked.0 then try_account a now checked.1 db else (
        record { key = account_key o a now; answered = true; outcome = out.0 },
        (checked.1, out.1),
      )

  unfoldable pub try_all : List Attempt → ℕ → r.Store → Db → List Tried
  try_all [] now s db = []
  try_all (a ∷ attempts) before s db =
      let now = before + a.waited in
      let out = try_login a now s db in out.0 ∷ try_all attempts (now + a.between) out.1.0 out.1.1
