-- ===== src/Auth/Store.antt =====
-- What staff sessions are kept in: users, refresh tokens and the audit rows of
-- packages/db/src/uaagro_db/models/org.py, with the columns that signing in reads or writes. What
-- hashes, encrypts and signs is not the repository's.
use uaagro_voice_agent.Prelude.{
  ℕ, ◌==◌, Bool, true, false, ◌&&◌, not, Option, none, some, List, [], ◌∷◌, ◌++◌, map, String,
  str_eq, if◌then◌else◌,
}

-- An address or password as the code's libraries see it. A token of the first step is read by what
-- it is signed for and by the time.
pub record Outside : Type 0 where
  pub lower : String → String
  pub verify_password : String → String → Bool
  pub needs_rehash : String → Bool
  pub hash_password : String → String
  pub issue_mfa_token : ℕ → ℕ → String
  pub read_mfa_token : String → ℕ → Option ℕ
  pub base32_is_valid : String → Bool
  pub encrypt_secret : String → String
  pub decrypt_secret : String → String
  pub verify_code : String → String → Bool
  pub hash_refresh_token : String → String

pub record User : Type 0 where
  pub id : ℕ
  pub email : String
  pub password_hash : String
  pub is_active : Bool
  pub deleted_at : Option ℕ
  pub failed_login_count : ℕ
  pub locked_until : Option ℕ
  pub mfa_secret_enc : Option String
  pub mfa_enrolled_at : Option ℕ
  pub last_login_at : Option ℕ

pub record RefreshToken : Type 0 where
  pub user_id : ℕ
  pub family_id : ℕ
  pub token_hash : String
  pub expires_at : ℕ
  pub used_at : Option ℕ
  pub revoked_at : Option ℕ
  pub revoked_reason : Option String

pub data AuditAction : Type 0 where
  login_failure login_success logged_out mfa_enrolled : AuditAction

pub record Db : Type 0 where
  pub users : List User
  pub tokens : List RefreshToken
  pub audit : List (AuditAction × Option ℕ)

pub data Error : Type 0 where
  authentication rate_limited : Error

pub data Outcome (A : Type 0) : Type 0 where
  returned : A → Outcome A
  raised : Error → Outcome A

abbrev pub is_set {ℓ} : {A : Type ℓ} → Option A → Bool
is_set none = false
is_set (some a) = true

unfoldable pub find_by_email : Outside → String → List User → Option User
find_by_email o email [] = none
find_by_email o email (u ∷ users) =
    if str_eq (o.lower u.email) email && not (is_set u.deleted_at)
    then some u
    else find_by_email o email users

unfoldable pub find_by_id : ℕ → List User → Option User
find_by_id id [] = none
find_by_id id (u ∷ users) = if u.id == id then some u else find_by_id id users

-- The row of a user whose fields were assigned to.
unfoldable pub write_user : User → Db → Db
write_user user db = record db { users = map (λ u. if u.id == user.id then user else u) db.users }

unfoldable pub find_token : String → List RefreshToken → Option RefreshToken
find_token digest [] = none
find_token digest (t ∷ tokens) =
    if str_eq t.token_hash digest then some t else find_token digest tokens

abbrev pub append_audit : AuditAction → Option ℕ → Db → Db
append_audit action user db = record db { audit = db.audit ++ ((action, user) ∷ []) }
