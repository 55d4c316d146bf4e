-- ===== src/Auth/Signin.antt =====
-- The two steps of signing in, refresh and logout: apps/api/src/api/routers/auth.py. A handler is
-- given the time, what its rate limits come to and the random values that it draws; the access
-- token is the user and the family that it names.
use uaagro_voice_agent.Prelude.{
  ℕ, suc, ◌+◌, ltb, leb, Bool, false, ◌||◌, not, Option, none, some, String, if◌then◌else◌,
}
use uaagro_voice_agent.Auth.Store.{
  Outside, User, Db, Outcome, returned, raised, authentication, rate_limited, login_failure,
  login_success, logged_out, mfa_enrolled, is_set, find_by_email, find_by_id, write_user,
  append_audit,
}
use uaagro_voice_agent.Auth.Tokens.{
  Rotated, issue_refresh_token, rotate_refresh_token, revoke_family,
}

abbrev pub max_failed_logins : ℕ
max_failed_logins = 8

abbrev pub lockout_duration : ℕ
lockout_duration = 900_000

-- What a client is answered: the second step with its token, an enrolment with its seed, a session
-- as user, family and refresh token, or nothing.
pub data Answer : Type 0 where
  mfa_challenge : String → Answer
  enrolment_required : String → String → Answer
  session : ℕ → ℕ → String → Answer
  no_content : Answer

-- The values that a handler draws.
pub record Drawn : Type 0 where
  pub now : ℕ
  pub family : ℕ
  pub raw : String
  pub secret : String

abbrev pub record_failure : Option ℕ → Db → Db
record_failure user db = append_audit login_failure user db

abbrev pub is_locked : Option ℕ → ℕ → Bool
is_locked none now = false
is_locked (some until) now = ltb now until

abbrev pub count_failed : ℕ → User → User
count_failed now user = record user {
  failed_login_count = suc user.failed_login_count;
  locked_until =
      if leb max_failed_logins (suc user.failed_login_count)
      then some (now + lockout_duration)
      else user.locked_until;
}

abbrev pub admitted : Outside → String → User → User
admitted o password user = record user {
  failed_login_count = 0;
  locked_until = none;
  password_hash =
      if o.needs_rehash user.password_hash then o.hash_password password else user.password_hash;
}

abbrev pub second_step : Outside → User → Drawn → Answer
second_step o user drawn =
    let token = o.issue_mfa_token user.id drawn.now in
    if is_set user.mfa_secret_enc
    then mfa_challenge token
    else enrolment_required token drawn.secret

unfoldable pub login_as : Outside → String → Drawn → Option User → Db → Outcome Answer × Db
login_as o password drawn none db = (raised authentication, record_failure none db)
login_as o password drawn (some user) db =
    if is_locked user.locked_until drawn.now
    then (raised authentication, record_failure (some user.id) db)
    else if not user.is_active || not (o.verify_password password user.password_hash)
    then (
      raised authentication,
      record_failure (some user.id) (write_user (count_failed drawn.now user) db),
    )
    else (returned (second_step o user drawn), write_user (admitted o password user) db)

-- The limits by address and by account.
unfoldable pub login : Outside → Bool → Bool → String → String → Drawn → Db → Outcome Answer × Db
login o ip_ok account_ok email password drawn db =
    if not ip_ok || not account_ok
    then (raised rate_limited, db)
    else login_as o password drawn (find_by_email o (o.lower email) db.users) db

unfoldable pub complete_signin : Outside → User → Drawn → Db → Outcome Answer × Db
complete_signin o user drawn db = (
  returned (session user.id drawn.family drawn.raw),
  append_audit login_success (some user.id) (
      write_user (record user { last_login_at = some drawn.now; failed_login_count = 0 })
        (issue_refresh_token o user.id drawn.family drawn.raw drawn.now db)),
)

unfoldable pub verify_secret :
    Outside → String → User → Option String → Drawn → Db → Outcome Answer × Db
verify_secret o code user none drawn db = (raised authentication, db)
verify_secret o code user (some secret) drawn db =
    if not user.is_active
    then (raised authentication, db)
    else if not (o.verify_code (o.decrypt_secret secret) code)
    then (
      raised authentication,
      write_user (record user { failed_login_count = suc user.failed_login_count }) db,
    )
    else complete_signin o user drawn db

unfoldable pub verify_as : Outside → String → Option User → Drawn → Db → Outcome Answer × Db
verify_as o code none drawn db = (raised authentication, db)
verify_as o code (some user) drawn db = verify_secret o code user user.mfa_secret_enc drawn db

-- The user that the token of the first step names.
abbrev pub named : Outside → String → ℕ → Db → Option User
named o token now db = elim (o.read_mfa_token token now) [
  | none ↦ none
  | some id ↦ find_by_id id db.users
]

unfoldable pub verify_mfa : Outside → Bool → String → String → Drawn → Db → Outcome Answer × Db
verify_mfa o ip_ok token code drawn db =
    if not ip_ok
    then (raised rate_limited, db)
    else verify_as o code (named o token drawn.now db) drawn db

abbrev pub enrolled : Outside → String → ℕ → User → User
enrolled o secret now user = record user {
  mfa_secret_enc = some (o.encrypt_secret secret);
  mfa_enrolled_at = some now;
}

unfoldable pub enrol_as : Outside → String → String → Option User → Drawn → Db → Outcome Answer × Db
enrol_as o secret code none drawn db = (raised authentication, db)
enrol_as o secret code (some user) drawn db =
    if not user.is_active || is_set user.mfa_secret_enc
    then (raised authentication, db)
    else if not (o.base32_is_valid secret) || not (o.verify_code secret code)
    then (raised authentication, db)
    else (let new_user = enrolled o secret drawn.now user in
        complete_signin o new_user drawn
          (append_audit mfa_enrolled (some user.id) (write_user new_user db)))

unfoldable pub enrol_mfa : Outside → String → String → String → Drawn → Db → Outcome Answer × Db
enrol_mfa o token secret code drawn db =
    enrol_as o secret code (named o token drawn.now db) drawn db

abbrev pub as_session : Outcome Rotated × Db → Outcome Answer × Db
as_session (returned (user, family, raw), db) = (returned (session user family raw), db)
as_session (raised e, db) = (raised e, db)

-- The cookie may be missing; an empty one counts as missing.
unfoldable pub refresh : Outside → Bool → Option String → Drawn → Db → Outcome Answer × Db
refresh o ip_ok none drawn db =
    if ip_ok then (raised authentication, db) else (raised rate_limited, db)
refresh o ip_ok (some presented) drawn db =
    if ip_ok
    then as_session (rotate_refresh_token o presented drawn.raw drawn.now db)
    else (raised rate_limited, db)

-- By the user and the family of the access token.
unfoldable pub logout : ℕ → ℕ → Drawn → Db → Outcome Answer × Db
logout user family drawn db = (
  returned no_content,
  append_audit logged_out (some user) (revoke_family family "logout" drawn.now db),
)
