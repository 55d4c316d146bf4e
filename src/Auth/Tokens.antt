-- ===== src/Auth/Tokens.antt =====
-- Refresh tokens: apps/api/src/api/security/tokens.py. Times are milliseconds; the raw token that a
-- rotation makes is given with it.
use uaagro_voice_agent.Prelude.{
  ℕ, ◌+◌, ◌==◌, leb, Bool, ◌&&◌, ◌||◌, not, Option, none, some, [], ◌∷◌, ◌++◌, map, String, str_eq,
  if◌then◌else◌,
}
use uaagro_voice_agent.Auth.Store.{
  Outside, User, RefreshToken, Db, Outcome, returned, raised, authentication, is_set, find_by_id,
  find_token,
}

abbrev pub refresh_token_ttl : ℕ
refresh_token_ttl = 604_800_000

unfoldable pub revoke_row : ℕ → String → ℕ → RefreshToken → RefreshToken
revoke_row family reason now t =
    if (t.family_id == family) && not (is_set t.revoked_at)
    then record t { revoked_at = some now; revoked_reason = some reason }
    else t

unfoldable pub revoke_family : ℕ → String → ℕ → Db → Db
revoke_family family reason now db = record db {
  tokens = map (revoke_row family reason now) db.tokens;
}

abbrev pub new_row : Outside → ℕ → ℕ → String → ℕ → RefreshToken
new_row o user family raw now = record {
  user_id = user;
  family_id = family;
  token_hash = o.hash_refresh_token raw;
  expires_at = now + refresh_token_ttl;
  used_at = none;
  revoked_at = none;
  revoked_reason = none;
}

unfoldable pub issue_refresh_token : Outside → ℕ → ℕ → String → ℕ → Db → Db
issue_refresh_token o user family raw now db = record db {
  tokens = db.tokens ++ (new_row o user family raw now ∷ []);
}

abbrev pub is_spent : RefreshToken → Bool
is_spent t = is_set t.used_at || is_set t.revoked_at

unfoldable pub use_row : String → ℕ → RefreshToken → RefreshToken
use_row digest now t = if str_eq t.token_hash digest then record t { used_at = some now } else t

abbrev pub mark_used : String → ℕ → Db → Db
mark_used digest now db = record db { tokens = map (use_row digest now) db.tokens }

-- Whom a rotation is for, the family and the new raw token.
abbrev pub Rotated : Type 0
Rotated = ℕ × ℕ × String

abbrev pub is_gone : User → Bool
is_gone user = not user.is_active || is_set user.deleted_at

unfoldable pub rotate_for :
    Outside → RefreshToken → Option User → String → ℕ → Db → Outcome Rotated × Db
rotate_for o stored none raw now db =
    (raised authentication, revoke_family stored.family_id "user_inactive" now db)
rotate_for o stored (some user) raw now db =
    if is_gone user
    then (raised authentication, revoke_family stored.family_id "user_inactive" now db)
    else (
      returned (user.id, stored.family_id, raw),
      issue_refresh_token o user.id stored.family_id raw now (mark_used stored.token_hash now db),
    )

unfoldable pub rotate_found : Outside → Option RefreshToken → String → ℕ → Db → Outcome Rotated × Db
rotate_found o none raw now db = (raised authentication, db)
rotate_found o (some stored) raw now db =
    if is_spent stored
    then (raised authentication, revoke_family stored.family_id "reuse_detected" now db)
    else if leb stored.expires_at now
    then (raised authentication, db)
    else rotate_for o stored (find_by_id stored.user_id db.users) raw now db

unfoldable pub rotate_refresh_token : Outside → String → String → ℕ → Db → Outcome Rotated × Db
rotate_refresh_token o presented raw now db =
    rotate_found o (find_token (o.hash_refresh_token presented) db.tokens) raw now db
