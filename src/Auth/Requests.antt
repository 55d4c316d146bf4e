-- ===== src/Auth/Requests.antt =====
-- Requests, each in the transaction that unscoped_db and scoped_db of
-- apps/api/src/api/security/deps.py put around a handler: committed where it returns, rolled back
-- where it raises, since FastAPI throws the handler's exception into the dependency.
use uaagro_voice_agent.Prelude.{ℕ, Bool, Option, List, [], ◌∷◌, String}
use uaagro_voice_agent.Auth.Store.{Outside, Db, Outcome, returned, raised}
use uaagro_voice_agent.Auth.Signin.{Answer, Drawn, login, verify_mfa, enrol_mfa, refresh, logout}

pub data Request : Type 0 where
  logging_in : Bool → Bool → String → String → Request
  verifying : Bool → String → String → Request
  enrolling : String → String → String → Request
  refreshing : Bool → Option String → Request
  logging_out : ℕ → ℕ → Request

unfoldable pub handle : Outside → Request → Drawn → Db → Outcome Answer × Db
handle o (logging_in ip_ok account_ok email password) = login o ip_ok account_ok email password
handle o (verifying ip_ok token code) = verify_mfa o ip_ok token code
handle o (enrolling token secret code) = enrol_mfa o token secret code
handle o (refreshing ip_ok cookie) = refresh o ip_ok cookie
handle o (logging_out user family) = logout user family

unfoldable pub settled : Db → Outcome Answer × Db → Outcome Answer × Db
settled db (returned answer, after) = (returned answer, after)
settled db (raised e, after) = (raised e, db)

unfoldable pub serve : Outside → Request → Drawn → Db → Outcome Answer × Db
serve o r drawn db = settled db (handle o r drawn db)

unfoldable pub serve_all : Outside → List (Request × Drawn) → Db → Db
serve_all o [] db = db
serve_all o ((r, drawn) ∷ requests) db = serve_all o requests (serve o r drawn db).1
