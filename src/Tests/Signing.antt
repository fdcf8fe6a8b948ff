-- ===== src/Tests/Signing.antt =====
-- The theorem on refresh tokens at a concrete token and clock.
use livequiz_platform.Prelude.{
  ℕ, String, true, ◌≡◌, ◌<◌, refl, some, none, [], ◌∷◌, ltb, if◌then◌else◌, arith,
}
use livequiz_platform.Errors.{ok}
use livequiz_platform.Store.{User, player_role}
use livequiz_platform.Auth.{Claims, Decoded, expired, decoded, AuthWorld, refresh, revoke_jti}
use livequiz_platform.Auth.Rotation.{refresh_again}
use livequiz_platform.Tests.Data.{lobby_db}

abbrev ann : User
ann = record {
  id = 9;
  email = "ann@quiz";
  password_hash = "hash";
  display_name = "ann";
  role = player_role;
  is_active = true;
}

abbrev ann_claims : Claims
ann_claims = record {
  token_type = "refresh";
  sub = some 9;
  jti = "j1";
  exp = 100;
  role = none;
  room_code = none;
  participant_id = none;
  nickname = none;
}

-- A library that reads every token as ann's, until second 100.
abbrev read : String → ℕ → Decoded
read token now = if ltb now 100 then decoded ann_claims else expired

read_same :
    (token : String) (a b : ℕ) (c d : Claims)
    → read token a ≡ decoded c
    → read token b ≡ decoded d
    → c ≡ d
read_same token a b c d h k = ground arith

read_in_time : (token : String) (now : ℕ) (c : Claims) → read token now ≡ decoded c → now < c.exp
read_in_time token now c h = ground arith

abbrev signed_in : AuthWorld
signed_in = record { db = record lobby_db { users = ann ∷ [] }; revoked = λ _. none }

abbrev rotated : AuthWorld
rotated = revoke_jti 40 "j1" 60 signed_in

refresh_again_example : ¬ (refresh read "token" 41 rotated ≡ ok (ann, rotated))
unfolding refresh
refresh_again_example =
    refresh_again read read_same read_in_time "token" 40 41 signed_in ann rotated (ann, rotated)
      refl
