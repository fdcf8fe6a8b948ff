-- ===== src/Auth/Tokens.antt =====
-- The tokens that the server signs and who it takes their bearer for: core/security.py, `_build_pair`
-- and `refresh` of services/auth_service.py, and the dependencies of api/deps.py. The JWT library and
-- Python's `str` of an int are parameters.
use livequiz_platform.Prelude.{
  ℕ, ◌+◌, ◌*◌, ◌<◌, ◌≡◌, ◌≢◌, String, Bool, true, false, not, Option, none, some, List, any,
}
use livequiz_platform.Errors.{
  Result, ok, err, ◌>>=◌, ◌>>◌, require, or_raise, auth_required, forbidden, internal_error,
}
use livequiz_platform.Store.{User, UserRole, player_role, host_role, moderator_role, admin_role}
use livequiz_platform.Auth.{
  Claims, Decoded, decoded, AuthWorld, access_type, refresh_type, participant_type, is_jti_revoked,
  active_user, decode_token, refresh,
}

-- `jwt.encode` and `jwt.decode`, by the secret. A token reads back before it expires, and no other
-- secret reads it.
pub record JwtLibrary : Type 1 where
  pub Token : Type 0
  pub encode : (secret : String) → Claims → Token
  pub decode : (secret : String) → Token → (now : ℕ) → Decoded
  pub decode-encode :
      (secret : String) (claims : Claims) (now : ℕ)
      → now < claims.exp
      → decode secret (encode secret claims) now ≡ decoded claims
  pub decode_valid :
      (secret : String) (claims read : Claims) (now : ℕ)
      → decode secret (encode secret claims) now ≡ decoded read
      → read ≡ claims
  pub decode_forged :
      (secret other : String) (claims read : Claims) (now : ℕ)
      → secret ≢ other
      → decode secret (encode other claims) now ≢ decoded read

pub record Settings : Type 0 where
  pub jwt_secret : String
  pub jwt_refresh_secret : String
  pub jwt_access_ttl_min : ℕ
  pub jwt_refresh_ttl_days : ℕ

pub record TokenPair (Token : Type 0) : Type 0 where
  pub access_token : Token
  pub refresh_token : Token
  pub expires_in : ℕ

abbrev pub participant_ttl_sec : ℕ
participant_ttl_sec = 14400

abbrev pub same_role : UserRole → UserRole → Bool
same_role player_role player_role = true
same_role host_role host_role = true
same_role moderator_role moderator_role = true
same_role admin_role admin_role = true
same_role _ _ = false

module _ (str_int : ℕ → String) (settings : Settings) where
  abbrev pub access_claims : (sub : ℕ) → UserRole → (jti now : ℕ) → Claims
  access_claims sub role jti now = record {
    token_type = access_type;
    sub = some sub;
    jti = str_int jti;
    exp = now + settings.jwt_access_ttl_min * 60;
    role = some role;
    room_code = none;
    participant_id = none;
    nickname = none;
  }

  abbrev pub refresh_claims : (sub jti now : ℕ) → Claims
  refresh_claims sub jti now = record {
    token_type = refresh_type;
    sub = some sub;
    jti = str_int jti;
    exp = now + settings.jwt_refresh_ttl_days * 86400;
    role = none;
    room_code = none;
    participant_id = none;
    nickname = none;
  }

-- It has no id of its own and no subject.
abbrev pub participant_claims : String → ℕ → String → (now : ℕ) → Claims
participant_claims room_code participant_id nickname now = record {
  token_type = participant_type;
  sub = none;
  jti = "";
  exp = now + participant_ttl_sec;
  role = none;
  room_code = some room_code;
  participant_id = some participant_id;
  nickname = some nickname;
}

pub record ParticipantContext : Type 0 where
  pub room_code : String
  pub participant_id : ℕ
  pub nickname : String

module _ (jwt : JwtLibrary) (str_int : ℕ → String) (settings : Settings) where
  abbrev pub create_access_token : (sub : ℕ) → UserRole → (jti now : ℕ) → jwt.Token
  create_access_token sub role jti now =
      jwt.encode settings.jwt_secret (access_claims str_int settings sub role jti now)

  abbrev pub create_refresh_token : (sub jti now : ℕ) → jwt.Token
  create_refresh_token sub jti now =
      jwt.encode settings.jwt_refresh_secret (refresh_claims str_int settings sub jti now)

  -- `_build_pair`, with the two ids that the generator gives.
  abbrev pub build_pair : User → (access_jti refresh_jti now : ℕ) → TokenPair jwt.Token
  build_pair user access_jti refresh_jti now = record {
    access_token = create_access_token user.id user.role access_jti now;
    refresh_token = create_refresh_token user.id refresh_jti now;
    expires_in = settings.jwt_access_ttl_min * 60;
  }

  -- `refresh` as a whole: the user and a new pair.
  unfoldable pub refresh_pair :
      (refresh_token : jwt.Token)
      → (access_jti refresh_jti now : ℕ) → AuthWorld
      → Result ((User × TokenPair jwt.Token) × AuthWorld)
  refresh_pair refresh_token access_jti refresh_jti now w = do
    (user, after) ← refresh (jwt.decode settings.jwt_refresh_secret) refresh_token now w
    ok ((user, build_pair user access_jti refresh_jti now), after)

module _ (jwt : JwtLibrary) (settings : Settings) where
  abbrev pub create_participant_token : String → ℕ → String → (now : ℕ) → jwt.Token
  create_participant_token room_code participant_id nickname now =
      jwt.encode settings.jwt_secret (participant_claims room_code participant_id nickname now)

  abbrev pub bearer : Option jwt.Token → Result jwt.Token
  bearer creds = or_raise creds auth_required 401

  -- `creds` is none when the header is missing or blank.
  unfoldable pub current_user : (creds : Option jwt.Token) → (now : ℕ) → AuthWorld → Result User
  current_user creds now w = do
    token ← bearer creds
    claims ← decode_token (jwt.decode settings.jwt_secret) token now access_type
    require (not (is_jti_revoked now claims.jti w)) auth_required 401
    user_id ← or_raise claims.sub auth_required 401
    or_raise (active_user user_id w.db) auth_required 401

  abbrev pub user_or_none : Result User → Option User
  user_or_none (err e) = none
  user_or_none (ok user) = some user

  abbrev pub optional_current_user :
      (creds : Option jwt.Token) → (now : ℕ) → AuthWorld → Option User
  optional_current_user none now w = none
  optional_current_user (some token) now w = user_or_none (current_user (some token) now w)

  unfoldable pub require_role :
      List UserRole → (creds : Option jwt.Token) → (now : ℕ) → AuthWorld → Result User
  require_role allowed creds now w = do
    user ← current_user creds now w
    require (any (same_role user.role) allowed) forbidden 403
    ok user

  -- A claim that is missing is a KeyError, which nothing catches.
  unfoldable pub current_participant : (token : jwt.Token) → (now : ℕ) → Result ParticipantContext
  current_participant token now = do
    claims ← decode_token (jwt.decode settings.jwt_secret) token now participant_type
    participant_id ← or_raise claims.participant_id auth_required 401
    room_code ← or_raise claims.room_code internal_error 500
    nickname ← or_raise claims.nickname internal_error 500
    ok (record { room_code = room_code; participant_id = participant_id; nickname = nickname })

  abbrev pub current_participant_from_header :
      (creds : Option jwt.Token) → (now : ℕ) → Result ParticipantContext
  current_participant_from_header creds now = do token ← bearer creds; current_participant token now
