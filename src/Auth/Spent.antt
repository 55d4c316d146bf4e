-- ===== src/Auth/Spent.antt =====
-- Refresh tokens that stay spent: what no later request can bring back.
use uaagro_voice_agent.Prelude.{
  ℕ, ◌≡◌, ◌==◌, inl, inr, refl, sym, ap, ◌∙◌, Bool, true, false, ◌&&◌, not, Option, none, some,
  List, [], ◌∷◌, map, String, str_eq, string_eq, arith, Bool-cases, if_by, if◌then◌else◌, All,
  All-append, leb,
}
use mathlib.Core.Path.{subst}
use uaagro_voice_agent.Auth.Store.{
  Outside, User, RefreshToken, Db, Outcome, is_set, find_by_id, find_token, write_user,
}
use uaagro_voice_agent.Auth.Tokens.{
  revoke_row, revoke_family, issue_refresh_token, is_spent, use_row, rotate_for, rotate_found,
  is_gone, Rotated, mark_used,
}
use uaagro_voice_agent.Auth.Signin.{Drawn, complete_signin}

-- Of the rows that a test on the digest and the family picks, each is used or revoked.
abbrev pub IsDead : (String → ℕ → Bool) → RefreshToken → Type 0
IsDead q t = q t.token_hash t.family_id ≡ true → is_spent t ≡ true

abbrev pub AllDead : (String → ℕ → Bool) → List RefreshToken → Type 0
AllDead q tokens = All (IsDead q) tokens

abbrev value_or : {A : Type 0} → A → Option A → A
value_or a none = a
value_or a (some b) = b

-- What a request draws is not among the picked rows: neither the digest and family of a sign-in,
-- nor the digest of a rotation in a family that has a row which is not picked.
abbrev pub IsFresh : (String → ℕ → Bool) → Outside → Drawn → Type 0
IsFresh q o drawn =
    (q (o.hash_refresh_token drawn.raw) drawn.family ≡ false)
    × ((digest : String) (family : ℕ)
        → q digest family ≡ false
        → q (o.hash_refresh_token drawn.raw) family ≡ false)

module _ (q : String → ℕ → Bool) where
  pub map-AllDead :
      (f : RefreshToken → RefreshToken)
      → ((t : RefreshToken) → IsDead q t → IsDead q (f t))
      → (tokens : List RefreshToken) → AllDead q tokens
      → AllDead q (map f tokens)
  map-AllDead f keeps [] h = tt
  map-AllDead f keeps (t ∷ tokens) h = (keeps t h.0, map-AllDead f keeps tokens h.1)

  revoke_row-IsDead :
      (family : ℕ) (reason : String) (now : ℕ) (t : RefreshToken)
      → IsDead q t
      → IsDead q (revoke_row family reason now t)
  unfolding revoke_row
  revoke_row-IsDead family reason now t h =
      if_by (IsDead q) ((t.family_id == family) && not (is_set t.revoked_at)) _ t
        (λ _ picked. ground arith) (λ _. h)

  use_row-IsDead :
      (digest : String) (now : ℕ) (t : RefreshToken) → IsDead q t → IsDead q (use_row digest now t)
  unfolding use_row
  use_row-IsDead digest now t h =
      if_by (IsDead q) (str_eq t.token_hash digest) _ t (λ _ picked. refl) (λ _. h)

  pub find_token-AllDead :
      (digest : String) (tokens : List RefreshToken) (t : RefreshToken)
      → find_token digest tokens ≡ some t
      → AllDead q tokens
      → IsDead q t × (t.token_hash ≡ digest)
  unfolding find_token
  find_token-AllDead digest [] t e h = absurd (ground arith)
  find_token-AllDead digest (s ∷ tokens) t e h = elim (Bool-cases (str_eq s.token_hash digest)) [
    | inl same ↦
        subst (λ x. IsDead q x × (x.token_hash ≡ digest))
          (ap (value_or s)
            (sym (ap (λ b. if b then some s else find_token digest tokens) same) ∙ e))
          (h.0, (string_eq.beq_iff s.token_hash digest).0 same)
    | inr other ↦
        find_token-AllDead digest tokens t
          (sym (ap (λ b. if b then some s else find_token digest tokens) other) ∙ e) h.1
  ]

  pub issue-AllDead :
      (o : Outside) (user family : ℕ) (raw : String) (now : ℕ) (db : Db)
      → q (o.hash_refresh_token raw) family ≡ false
      → AllDead q db.tokens
      → AllDead q (issue_refresh_token o user family raw now db).tokens
  unfolding issue_refresh_token
  issue-AllDead o user family raw now db fresh h =
      All-append (IsDead q) db.tokens _ h ((λ picked. absurd (ground arith)), tt)

  pub revoke_family-AllDead :
      (family : ℕ) (reason : String) (now : ℕ) (db : Db)
      → AllDead q db.tokens
      → AllDead q (revoke_family family reason now db).tokens
  unfolding revoke_family
  revoke_family-AllDead family reason now db h =
      map-AllDead (revoke_row family reason now) (revoke_row-IsDead family reason now) db.tokens h

  pub mark_used-AllDead :
      (digest : String) (now : ℕ) (db : Db)
      → AllDead q db.tokens
      → AllDead q (mark_used digest now db).tokens
  mark_used-AllDead digest now db h =
      map-AllDead (use_row digest now) (use_row-IsDead digest now) db.tokens h

  not_picked :
      (t : RefreshToken) → IsDead q t → is_spent t ≡ false → q t.token_hash t.family_id ≡ false
  not_picked t dead unspent = elim (Bool-cases (q t.token_hash t.family_id)) [
    | inl picked ↦ absurd (ground (arith, dead picked))
    | inr other ↦ other
  ]

module _ (q : String → ℕ → Bool) (o : Outside) where
  rotate_for-AllDead :
      (stored : RefreshToken) (user : Option User) (raw : String) (now : ℕ) (db : Db)
      → q (o.hash_refresh_token raw) stored.family_id ≡ false
      → AllDead q db.tokens
      → AllDead q (rotate_for o stored user raw now db).1.tokens
  unfolding rotate_for
  rotate_for-AllDead stored none raw now db fresh h =
      revoke_family-AllDead q stored.family_id "user_inactive" now db h
  rotate_for-AllDead stored (some user) raw now db fresh h =
      if_by (λ (x : Outcome Rotated × Db). AllDead q x.1.tokens) (is_gone user) _ _
        (λ _. revoke_family-AllDead q stored.family_id "user_inactive" now db h)
        (λ _.
          issue-AllDead q o user.id stored.family_id raw now (mark_used stored.token_hash now db)
            fresh (mark_used-AllDead q stored.token_hash now db h))

  pub rotate_found-AllDead :
      (stored : Option RefreshToken) (drawn : Drawn) (db : Db)
      → ((t : RefreshToken) → stored ≡ some t → IsDead q t)
      → IsFresh q o drawn
      → AllDead q db.tokens
      → AllDead q (rotate_found o stored drawn.raw drawn.now db).1.tokens
  unfolding rotate_found
  rotate_found-AllDead none drawn db dead fresh h = h
  rotate_found-AllDead (some stored) drawn db dead fresh h =
      if_by (λ (x : Outcome Rotated × Db). AllDead q x.1.tokens) (is_spent stored) _ _
        (λ _. revoke_family-AllDead q stored.family_id "reuse_detected" drawn.now db h)
        (λ unspent.
          if_by (λ (x : Outcome Rotated × Db). AllDead q x.1.tokens)
            (leb stored.expires_at drawn.now) _ _ (λ _. h)
            (λ _.
              rotate_for-AllDead stored (find_by_id stored.user_id db.users) drawn.raw drawn.now db
                (fresh.1 stored.token_hash stored.family_id
                  (not_picked q stored (dead stored refl) unspent))
                h))

  pub complete_signin-AllDead :
      (user : User) (drawn : Drawn) (db : Db)
      → IsFresh q o drawn
      → AllDead q db.tokens
      → AllDead q (complete_signin o user drawn db).1.tokens
  unfolding complete_signin write_user
  complete_signin-AllDead user drawn db fresh h =
      issue-AllDead q o user.id drawn.family drawn.raw drawn.now db fresh.0 h
