-- ===== src/Auth/Separation.antt =====
-- A token is good for one purpose only.
use mathlib.Core.Path.{subst}
use livequiz_platform.Prelude.{ℕ, ◌≡◌, String, true, some, str_eq, eq_iff, Bool-cases, inl, inr}
use livequiz_platform.Errors.{ok, bind-ok}
use livequiz_platform.Store.{User}
use livequiz_platform.Auth.{
  Claims, decoded, AuthWorld, decode_token, participant_type, access_type, refresh_type, refresh,
}
use livequiz_platform.Auth.Rotation.{decode_token-ok}
use livequiz_platform.Auth.Tokens.{
  JwtLibrary, Settings, TokenPair, ParticipantContext, access_claims, refresh_claims,
  participant_claims, create_access_token, create_refresh_token, create_participant_token,
  refresh_pair, current_user, current_participant,
}

-- Whatever the secrets: a token that the server signed is taken for its own type alone.
signed-typed :
    (jwt : JwtLibrary) (secret other : String) (claims : Claims) (now : ℕ) (expected : String)
    {read : Claims}
    → decode_token (jwt.decode other) (jwt.encode secret claims) now expected ≡ ok read
    → str_eq claims.token_type expected ≡ true
signed-typed jwt secret other claims now expected {read} h =
    let (valid, same) =
      decode_token-ok (jwt.decode other) (jwt.encode secret claims) now expected h in
    elim (Bool-cases (str_eq other secret)) [
      | inl one ↦
          (let its : jwt.decode secret (jwt.encode secret claims) now ≡ decoded read =
              subst (λ (s : String). jwt.decode s (jwt.encode secret claims) now ≡ decoded read)
                ((eq_iff other secret).0 one) valid in
            subst (λ (c : Claims). str_eq c.token_type expected ≡ true)
              (jwt.decode_valid secret claims read now its) same)
      | inr two ↦ absurd (
          jwt.decode_forged other secret claims read now (λ e. cc (two, (eq_iff other secret).1 e))
            valid)
    ]

module _ (jwt : JwtLibrary) (settings : Settings) where
  current_user-typed :
      (secret : String) (claims : Claims) (now : ℕ) (w : AuthWorld) {user : User}
      → current_user jwt settings (some (jwt.encode secret claims)) now w ≡ ok user
      → str_eq claims.token_type access_type ≡ true
  unfolding current_user
  current_user-typed secret claims now w h =
      let (read, h1, decode) =
        bind-ok
          (decode_token (jwt.decode settings.jwt_secret) (jwt.encode secret claims) now access_type)
          _ h in
      signed-typed jwt secret settings.jwt_secret claims now access_type decode

  current_participant-typed :
      (secret : String) (claims : Claims) (now : ℕ) {context : ParticipantContext}
      → current_participant jwt settings (jwt.encode secret claims) now ≡ ok context
      → str_eq claims.token_type participant_type ≡ true
  unfolding current_participant
  current_participant-typed secret claims now h =
      let (read, h1, decode) =
        bind-ok
          (decode_token (jwt.decode settings.jwt_secret) (jwt.encode secret claims) now
            participant_type)
          _ h in
      signed-typed jwt secret settings.jwt_secret claims now participant_type decode

  refresh_pair-typed :
      (str_int : ℕ → String) (secret : String) (claims : Claims) (access_jti refresh_jti now : ℕ)
      (w : AuthWorld) {r : (User × TokenPair jwt.Token) × AuthWorld}
      → refresh_pair jwt str_int settings (jwt.encode secret claims) access_jti refresh_jti now w
        ≡ ok r
      → str_eq claims.token_type refresh_type ≡ true
  unfolding refresh_pair refresh
  refresh_pair-typed str_int secret claims access_jti refresh_jti now w h =
      let (done, h1, rotated) =
        bind-ok (refresh (jwt.decode settings.jwt_refresh_secret) (jwt.encode secret claims) now w)
          _ h in
      let (read, h2, decode) =
        bind-ok
          (decode_token (jwt.decode settings.jwt_refresh_secret) (jwt.encode secret claims) now
            refresh_type)
          _ rotated in
      signed-typed jwt secret settings.jwt_refresh_secret claims now refresh_type decode

  -- Whatever the settings, equal secrets included, and at any time: neither a participant's token nor
  -- a refresh token makes anybody the current user, neither an access token nor a refresh token makes
  -- anybody a participant, and neither an access token nor a participant's token is refreshed.
  pub tokens_apart :
      (str_int : ℕ → String) (user : User) (room_code nickname : String)
      (id jti issued now access_jti refresh_jti : ℕ) (w : AuthWorld) (u : User)
      (context : ParticipantContext) (r : (User × TokenPair jwt.Token) × AuthWorld)
      → (¬ (
          current_user jwt settings
            (some (create_participant_token jwt settings room_code id nickname issued))
            now
            w
          ≡ ok u))
        × (¬ (
            current_user jwt settings
              (some (create_refresh_token jwt str_int settings user.id jti issued))
              now
              w
            ≡ ok u))
        × (¬ (
            current_participant jwt settings
              (create_access_token jwt str_int settings user.id user.role jti issued)
              now
            ≡ ok context))
        × (¬ (
            current_participant jwt settings
              (create_refresh_token jwt str_int settings user.id jti issued)
              now
            ≡ ok context))
        × (¬ (
            refresh_pair jwt str_int settings
              (create_access_token jwt str_int settings user.id user.role jti issued)
              access_jti
              refresh_jti
              now
              w
            ≡ ok r))
        × (¬ (
            refresh_pair jwt str_int settings
              (create_participant_token jwt settings room_code id nickname issued)
              access_jti
              refresh_jti
              now
              w
            ≡ ok r))
  tokens_apart str_int user room_code nickname id jti issued now access_jti refresh_jti w u context
        r =
      (
        λ h. cc (current_user-typed _ (participant_claims room_code id nickname issued) now w h),
        λ h. cc (current_user-typed _ (refresh_claims str_int settings user.id jti issued) now w h),
        λ h. cc (
            current_participant-typed _
              (access_claims str_int settings user.id user.role jti issued) now h),
        λ h. cc (
            current_participant-typed _ (refresh_claims str_int settings user.id jti issued) now h),
        λ h. cc (
            refresh_pair-typed str_int _
              (access_claims str_int settings user.id user.role jti issued) access_jti refresh_jti
              now w h),
        λ h. cc (
            refresh_pair-typed str_int _ (participant_claims room_code id nickname issued)
              access_jti refresh_jti now w h),
      )
