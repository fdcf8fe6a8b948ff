-- ===== src/Auth.antt =====
-- Refresh tokens: `refresh` and `logout` of backend/app/services/auth_service.py, with `decode_token`
-- and the revocation list of core/security.py. The JWT library is the parameter `jwt`: what it makes
-- of a token at a time in seconds. The new tokens of `refresh` are in Auth.Tokens.
pub mod Rotation
pub mod Tokens
pub mod Accounts
pub mod Separation
pub mod Entering
pub mod Admitted
use livequiz_platform.Prelude.{
  ℕ, ◌+◌, ◌-◌, max, String, Bool, true, false, not, ◌&&◌, Option, none, some, find, ltb, str_eq,
  ◌==◌, if◌then◌else◌,
}
use livequiz_platform.Errors.{
  Result, ok, err, auth_error, ◌>>=◌, ◌>>◌, require, or_raise, auth_required, forbidden,
}
use livequiz_platform.Store.{User, UserRole, Db}
use livequiz_platform.Live.{update_text}

-- The claims of a token. `sub` and `participant_id` are none when they are missing or not numbers;
-- they are texts of numbers in a token. `role` is of access tokens, and a participant's token has
-- the last three. The time of issue, `iat`, is left out.
pub record Claims : Type 0 where
  pub token_type : String
  pub sub : Option ℕ
  pub jti : String
  pub exp : ℕ
  pub role : Option UserRole
  pub room_code : Option String
  pub participant_id : Option ℕ
  pub nickname : Option String

pub data Decoded : Type 0 where
  expired invalid : Decoded
  decoded : (claims : Claims) → Decoded

-- The tables, and the keys `auth:revoked:{jti}` with the second at which each expires.
pub record AuthWorld : Type 0 where
  pub db : Db
  pub revoked : String → Option ℕ

abbrev pub participant_type : String
participant_type = "participant"

abbrev pub access_type : String
access_type = "access"

abbrev pub refresh_type : String
refresh_type = "refresh"

abbrev pub is_live : ℕ → Option ℕ → Bool
is_live now none = false
is_live now (some expiry) = ltb now expiry

abbrev pub is_jti_revoked : (now : ℕ) → String → AuthWorld → Bool
is_jti_revoked now jti w = is_live now (w.revoked jti)

abbrev pub revoke_jti : (now : ℕ) → String → (ttl_seconds : ℕ) → AuthWorld → AuthWorld
revoke_jti now jti ttl_seconds w = record w {
  revoked = update_text w.revoked jti (some (now + max 1 ttl_seconds));
}

abbrev pub active_user : ℕ → Db → Option User
active_user id db = elim (find (λ (u : User). u.id == id) db.users) [
  | none ↦ none
  | some u ↦ if u.is_active then some u else none
]

abbrev pub ttl_remaining : (now : ℕ) → Claims → ℕ
ttl_remaining now claims = max 1 (claims.exp - now)

abbrev pub claims_or_raise : Decoded → Result Claims
claims_or_raise expired = err (auth_error auth_required 401)
claims_or_raise invalid = err (auth_error auth_required 401)
claims_or_raise (decoded claims) = ok claims

abbrev pub revoke_if_ok : (now : ℕ) → AuthWorld → Result Claims → AuthWorld
revoke_if_ok now w (err e) = w
revoke_if_ok now w (ok claims) = revoke_jti now claims.jti (ttl_remaining now claims) w

module _ {Token : Type 0} (jwt : Token → ℕ → Decoded) where
  abbrev pub decode_token : Token → (now : ℕ) → (expected_type : String) → Result Claims
  decode_token token now expected_type = do
    claims ← claims_or_raise (jwt token now)
    require (str_eq claims.token_type expected_type) forbidden 403
    ok claims

  unfoldable pub refresh : Token → (now : ℕ) → AuthWorld → Result (User × AuthWorld)
  refresh token now w = do
    claims ← decode_token token now refresh_type
    require (not (is_jti_revoked now claims.jti w)) auth_required 401
    id ← or_raise claims.sub auth_required 401
    user ← or_raise (active_user id w.db) auth_required 401
    ok (user, revoke_jti now claims.jti (ttl_remaining now claims) w)

  -- `logout`: a token that is refused is ignored.
  unfoldable pub logout : Token → (now : ℕ) → AuthWorld → AuthWorld
  logout token now w = revoke_if_ok now w (decode_token token now refresh_type)
