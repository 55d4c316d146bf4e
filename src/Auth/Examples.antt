-- ===== src/Auth/Examples.antt =====
-- Sessions on requests of their own, with texts that stand for their own digests.
use uaagro_voice_agent.Prelude.{
  ℕ, ◌≡◌, ◌≢◌, refl, true, false, none, some, List, [], ◌∷◌, map, String, str_eq, string_eq,
}
use uaagro_voice_agent.Auth.Store.{
  Outside, User, RefreshToken, Db, returned, raised, authentication, find_by_email, find_by_id,
  find_token, write_user,
}
use uaagro_voice_agent.Auth.Tokens.{
  rotate_for, rotate_found, rotate_refresh_token, issue_refresh_token, revoke_family, revoke_row,
}
use uaagro_voice_agent.Auth.Signin.{
  login, login_as, session, Drawn, verify_mfa, verify_as, verify_secret, complete_signin, refresh,
  logout,
}
use uaagro_voice_agent.Auth.Requests.{
  Request, verifying, refreshing, logging_out, handle, settled, serve, serve_all,
}
use uaagro_voice_agent.Auth.Once.{refresh_once, refresh-logout}
use uaagro_voice_agent.Limits.{judge_count, check}
use uaagro_voice_agent.Limits.Memory.{failing_redis, nothing}
use uaagro_voice_agent.Auth.Guarded.{Attempt, try_account, try_login, try_all}
use uaagro_voice_agent.Auth.Guesses.{account, count_guesses}
use uaagro_voice_agent.Auth.Rollback.{attempt, serve_all-wrong_passwords, refresh-replay}

-- A second step's token is good for the user 7 for five minutes.
abbrev plain : Outside
plain = record {
  lower = λ s. s;
  verify_password = str_eq;
  needs_rehash = λ h. false;
  hash_password = λ s. s;
  issue_mfa_token = λ id now. "mfa";
  read_mfa_token = λ token now. some 7;
  base32_is_valid = λ s. true;
  encrypt_secret = λ s. s;
  decrypt_secret = λ s. s;
  verify_code = str_eq;
  hash_refresh_token = λ s. s;
}

abbrev manager : User
manager = record {
  id = 7;
  email = "manager@uaagro.in";
  password_hash = "kharif";
  is_active = true;
  deleted_at = none;
  failed_login_count = 7;
  locked_until = none;
  mfa_secret_enc = some "123456";
  mfa_enrolled_at = some 0;
  last_login_at = none;
}

abbrev old_token : RefreshToken
old_token = record {
  user_id = 7;
  family_id = 40;
  token_hash = "first";
  expires_at = 9_000;
  used_at = some 100;
  revoked_at = none;
  revoked_reason = none;
}

abbrev live_token : RefreshToken
live_token = record old_token { token_hash = "second"; used_at = none }

abbrev store : Db
store = record { users = manager ∷ []; tokens = old_token ∷ live_token ∷ []; audit = [] }

abbrev drawn_at : ℕ → ℕ → String → Drawn
drawn_at now family raw = record { now = now; family = family; raw = raw; secret = "seed" }

-- Other requests of the day: a sign-in that succeeds and a refresh with a cookie that is unknown.
abbrev others : List (Request × Drawn)
others =
    (verifying true "mfa" "123456", drawn_at 300 41 "fourth")
    ∷ (refreshing true (some "guess"), drawn_at 400 42 "fifth")
    ∷ []

differ : (a b : String) → str_eq a b ≡ false → a ≢ b
differ a b other e = cc (other, (string_eq.beq_iff a b).1 e)

verify_mfa-session :
    (serve plain (verifying true "mfa" "123456") (drawn_at 300 41 "fourth") store).0
    ≡ returned (session 7 41 "fourth")
unfolding serve handle verify_mfa verify_as verify_secret complete_signin settled find_by_id
    write_user issue_refresh_token
verify_mfa-session = refl

refresh_once_example :
    (serve plain (refreshing true (some "second")) (drawn_at 500 43 "sixth") (
      serve_all plain others
        (serve plain (refreshing true (some "second")) (drawn_at 200 44 "third") store).1)).0
    ≡ raised authentication
unfolding serve handle refresh rotate_refresh_token rotate_found rotate_for find_token find_by_id
    settled
refresh_once_example =
    refresh_once plain "second" (drawn_at 200 44 "third") (drawn_at 500 43 "sixth") store
      (session 7 40 "third") others refl (differ "third" "second" refl)
      (differ "fourth" "second" refl, (differ "fifth" "second" refl, tt))

refresh-logout_example :
    (serve plain
      (refreshing true (some "second"))
      (drawn_at 500 43 "sixth")
      (serve_all plain [] (serve plain (logging_out 7 40) (drawn_at 200 44 "third") store).1)).0
    ≡ raised authentication
unfolding serve handle logout revoke_family revoke_row find_token settled serve_all
refresh-logout_example =
    refresh-logout plain 7 40 (drawn_at 200 44 "third") (drawn_at 500 43 "sixth") store [] "second"
      (record live_token { revoked_at = some 200; revoked_reason = some "logout" }) tt refl refl

serve_all-wrong_passwords_example :
    serve_all plain
      (map
        (attempt "manager@uaagro.in")
        (("rabi", drawn_at 200 44 "third") ∷ ("zaid", drawn_at 300 45 "fourth") ∷ []))
      store
    ≡ store
unfolding find_by_email
serve_all-wrong_passwords_example =
    serve_all-wrong_passwords plain "manager@uaagro.in"
      (("rabi", drawn_at 200 44 "third") ∷ ("zaid", drawn_at 300 45 "fourth") ∷ []) manager store
      refl (refl, (refl, tt))

refresh-replay_example :
    ((serve plain (refreshing true (some "first")) (drawn_at 200 44 "third") store).0
      ≡ raised authentication)
    × ((serve plain
          (refreshing true (some "second"))
          (drawn_at 300 45 "fourth")
          (serve plain (refreshing true (some "first")) (drawn_at 200 44 "third") store).1).0
        ≡ returned (session 7 40 "fourth"))
unfolding find_token find_by_id
refresh-replay_example =
    refresh-replay plain "first" "second" old_token live_token manager (drawn_at 200 44 "third")
      (drawn_at 300 45 "fourth") store refl refl refl refl refl refl refl refl

-- Seven guesses, a second apart and each from an address of its own.
abbrev guess : String → Attempt
guess address = record {
  address = address;
  email = "manager@uaagro.in";
  password = "guess";
  waited = 1;
  between = 0;
  again = 9_010;
  drawn = drawn_at 9_000 50 "sixth";
}

abbrev guesses : List Attempt
guesses =
    map guess (
      "10.0.0.1" ∷ "10.0.0.2" ∷ "10.0.0.3" ∷ "10.0.0.4" ∷ "10.0.0.5" ∷ "10.0.0.6" ∷ "10.0.0.7" ∷ [])

count_guesses-guesses :
    count_guesses
      (account "manager@uaagro.in" 10)
      (try_all failing_redis plain guesses 9_000 ([], nothing) store)
    ≡ 5
unfolding count_guesses try_all try_login try_account check judge_count serve settled handle login
    login_as write_user find_by_email
count_guesses-guesses = refl
