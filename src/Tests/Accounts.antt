-- ===== src/Tests/Accounts.antt =====
-- The theorems on accounts and tokens at a concrete library, hasher and user.
use livequiz_platform.Prelude.{
  ℕ, ◌<◌, ◌≡◌, ◌≢◌, refl, String, true, ◌&&◌, some, none, [], ◌∷◌, ltb, str_eq, eq_iff,
  if◌then◌else◌, arith,
}
use livequiz_platform.Errors.{ok}
use livequiz_platform.Store.{
  User, ModerationReport, action_taken, pending, no_details, player_role, Db,
}
use livequiz_platform.Auth.{Claims, Decoded, invalid, decoded, AuthWorld}
use livequiz_platform.Auth.Tokens.{
  JwtLibrary, Settings, TokenPair, build_pair, create_access_token, create_refresh_token,
  create_participant_token, refresh_pair, current_user, current_participant, ParticipantContext,
}
use livequiz_platform.Auth.Accounts.{
  Hasher, RegisterRequest, register_user, LoginRequest, LoginBuckets, login,
}
use livequiz_platform.RateLimit.{acquire}
use livequiz_platform.Auth.Separation.{tokens_apart}
use livequiz_platform.Auth.Entering.{with_user, register_user-login}
use livequiz_platform.Moderation.Decide.{decision_of, decide, reviewed}
use livequiz_platform.Moderation.Banned.{after_ban, decide-bans}
use livequiz_platform.Tests.Data.{lobby_db}
use livequiz_platform.Tests.Moderating.{to}
use livequiz_platform.Tests.Numbers.{Rational, rationals}

-- A library whose tokens show their secret.
abbrev read_token : String → String × Claims → ℕ → Decoded
read_token secret (signed_with, claims) now =
    if str_eq secret signed_with && ltb now claims.exp then decoded claims else invalid

read_back :
    (secret : String) (claims : Claims) (now : ℕ)
    → now < claims.exp
    → read_token secret (secret, claims) now ≡ decoded claims
read_back secret claims now h = ground (arith, eq_iff secret secret)

read_valid :
    (secret : String) (claims read : Claims) (now : ℕ)
    → read_token secret (secret, claims) now ≡ decoded read
    → read ≡ claims
read_valid secret claims read now h = ground arith

forged :
    (secret other : String) (claims read : Claims) (now : ℕ)
    → secret ≢ other
    → read_token secret (other, claims) now ≢ decoded read
forged secret other claims read now ne h = ground (arith, eq_iff secret other)

abbrev library : JwtLibrary
library = record {
  Token = String × Claims;
  encode = λ secret claims. (secret, claims);
  decode = read_token;
  decode-encode = read_back;
  decode_valid = read_valid;
  decode_forged = forged;
}

abbrev settings : Settings
settings = record {
  jwt_secret = "s1";
  jwt_refresh_secret = "s2";
  jwt_access_ttl_min = 15;
  jwt_refresh_ttl_days = 7;
}

abbrev same_text : String → String
same_text s = s

abbrev jti_of : ℕ → String
jti_of n = "j"

same_verify : (plain : String) → str_eq plain plain ≡ true
same_verify plain = ground (arith, eq_iff plain plain)

abbrev plain_hasher : Hasher
plain_hasher = record { hash = same_text; verify = str_eq; verify-hash = same_verify }

abbrev eve : User
eve = record {
  id = 9;
  email = "eve@quiz";
  password_hash = "pw";
  display_name = "eve";
  role = player_role;
  is_active = true;
}

abbrev nothing_revoked : Db → AuthWorld
nothing_revoked db = record { db = db; revoked = λ _. none }

abbrev eve_pair : TokenPair (String × Claims)
eve_pair = build_pair library jti_of settings eve 1 2 50

abbrev eve_context : ParticipantContext
eve_context = record { room_code = "ROOM"; participant_id = 40; nickname = "eve" }

tokens_apart_example :
    (¬ (
      current_user library settings
        (some (create_participant_token library settings "ROOM" 40 "eve" 50))
        60
        (nothing_revoked lobby_db)
      ≡ ok eve))
    × (¬ (
        current_user library settings
          (some (create_refresh_token library jti_of settings 9 3 50))
          60
          (nothing_revoked lobby_db)
        ≡ ok eve))
    × (¬ (
        current_participant library settings
          (create_access_token library jti_of settings 9 player_role 3 50)
          60
        ≡ ok eve_context))
    × (¬ (
        current_participant library settings
          (create_refresh_token library jti_of settings 9 3 50)
          60
        ≡ ok eve_context))
    × (¬ (
        refresh_pair library jti_of settings
          (create_access_token library jti_of settings 9 player_role 3 50)
          4
          5
          60
          (nothing_revoked lobby_db)
        ≡ ok ((eve, eve_pair), nothing_revoked lobby_db)))
    × (¬ (
        refresh_pair library jti_of settings
          (create_participant_token library settings "ROOM" 40 "eve" 50)
          4
          5
          60
          (nothing_revoked lobby_db)
        ≡ ok ((eve, eve_pair), nothing_revoked lobby_db)))
tokens_apart_example =
    tokens_apart library settings jti_of eve "ROOM" "eve" 40 3 50 60 4 5 (nothing_revoked lobby_db)
      eve eve_context ((eve, eve_pair), nothing_revoked lobby_db)

abbrev registration : RegisterRequest
registration = record {
  email = "eve@quiz";
  password = "pw";
  display_name = "eve";
  user_id = 9;
  audit_id = 90;
}

abbrev entering : LoginRequest
entering = record {
  email = "eve@quiz";
  password = "pw";
  ip = "::1";
  access_jti = 1;
  refresh_jti = 2;
  now = 50;
  now_ms = 50000;
}

abbrev eve_db : Db
eve_db = with_user plain_hasher registration lobby_db

abbrev no_buckets : LoginBuckets Rational
no_buckets ip hash = none

register_user-login_example :
    (pair : TokenPair (String × Claims)) × (after : AuthWorld) × ((login rationals same_text
        same_text same_text plain_hasher library jti_of settings entering eve_db no_buckets).0
      ≡ ok (eve, pair))
    × (current_user library settings (some pair.access_token) 60 (nothing_revoked eve_db) ≡ ok eve)
    × (refresh_pair library jti_of settings pair.refresh_token 4 5 60 (nothing_revoked eve_db)
        ≡ ok ((eve, build_pair library jti_of settings eve 4 5 60), after))
unfolding register_user acquire
register_user-login_example =
    register_user-login rationals same_text same_text same_text plain_hasher library jti_of settings
      registration lobby_db eve eve_db entering no_buckets 60 4 5 (λ _. none) refl refl refl refl
      refl (omega arith) (omega arith) refl refl

abbrev against_eve : ModerationReport
against_eve = record {
  id = 80;
  reporter_user_id = none;
  room_id = none;
  target_user_id = some 9;
  target_quiz_set_id = none;
  reason = "rude";
  details = no_details;
  status = pending;
  reviewed_by = none;
  reviewed_at = none;
}

abbrev reported_eve : Db
reported_eve = record lobby_db { reports = against_eve ∷ []; users = eve ∷ [] }

abbrev banned_eve : Db
banned_eve = after_ban (to "ban") against_eve 9 9 reported_eve

decide-bans_example :
    (decide (to "ban") reported_eve
      ≡ ok (reviewed (to "ban") action_taken against_eve, [], banned_eve))
    × (¬ (
        current_user library settings (some eve_pair.access_token) 60 (nothing_revoked banned_eve)
        ≡ ok eve))
    × (¬ (
        refresh_pair library jti_of settings eve_pair.refresh_token 4 5 60
          (nothing_revoked banned_eve)
        ≡ ok ((eve, eve_pair), nothing_revoked banned_eve)))
    × (¬ (
        (login rationals same_text same_text same_text plain_hasher library jti_of settings entering
          banned_eve no_buckets).0
        ≡ ok (eve, eve_pair)))
unfolding decision_of
decide-bans_example =
    decide-bans (to "ban") against_eve 9 eve reported_eve same_text same_text same_text plain_hasher
      rationals library jti_of settings (some eve_pair.access_token) eve_pair.refresh_token 60 4 5
      (λ _. none) (nothing_revoked banned_eve) entering no_buckets eve eve_pair refl refl refl refl
      refl refl
