-- ===== src/Auth/Entering.antt =====
-- From a registration to a request with a token.
use mathlib.Core.Path.{subst}
use livequiz_platform.Prelude.{
  ℕ, ◌+◌, ◌*◌, ◌<◌, ◌≡◌, refl, ap, String, true, false, not, Option, some, ◌∷◌, any, is_none,
  ==_refl, arith,
}
use livequiz_platform.Errors.{Result, ok, err, require-ok, validation_error, internal_error}
use livequiz_platform.Store.{User, Db}
use livequiz_platform.Rooms.Capacity.{text_refl}
use livequiz_platform.RateLimit.{LuaNumbers}
use livequiz_platform.Auth.{
  AuthWorld, is_jti_revoked, revoke_jti, ttl_remaining, active_user, refresh,
}
use livequiz_platform.Auth.Tokens.{
  JwtLibrary, Settings, TokenPair, access_claims, refresh_claims, build_pair, refresh_pair,
  current_user,
}
use livequiz_platform.Auth.Accounts.{
  Hasher, RegisterRequest, get_by_email, user_collides, new_user, registration_log, register_user,
  LoginRequest, LoginBuckets, login_check, check_credentials, login,
}

-- The tables after a registration.
abbrev pub with_user : Hasher → RegisterRequest → Db → Db
with_user h q db = record db {
  users = new_user h q ∷ db.users;
  audit_logs = registration_log q ∷ db.audit_logs;
}

abbrev user_of : Result (User × Db) → User → User
user_of (ok (u, db)) v = u
user_of (err e) v = v

abbrev db_of : Result (User × Db) → Db → Db
db_of (ok (u, db)) d = db
db_of (err e) d = d

module _ (pg_lower py_lower : String → String) (h : Hasher) where
  register_user-with_user :
      (q : RegisterRequest) (db : Db) {u : User} {db' : Db}
      → register_user pg_lower py_lower h q db ≡ ok (u, db')
      → (new_user h q ≡ u) × (with_user h q db ≡ db')
  unfolding register_user
  register_user-with_user q db {u} {db'} e =
      let (fresh, e1) =
        require-ok (is_none (get_by_email pg_lower py_lower q.email db)) validation_error 422 _ e in
      let (free, e2) =
        require-ok (not (any (user_collides pg_lower py_lower (new_user h q)) db.users))
          internal_error 500 _ e1 in
      (ap (λ r. user_of r u) e2, ap (λ r. db_of r db') e2)

  check_credentials-new_user :
      (jwt : JwtLibrary) (str_int : ℕ → String) (settings : Settings) (q : RegisterRequest)
      (db : Db) (l : LoginRequest)
      → pg_lower q.email ≡ py_lower q.email
      → l.email ≡ q.email
      → l.password ≡ q.password
      → check_credentials pg_lower py_lower h jwt str_int settings l (with_user h q db)
        ≡ ok (
          new_user h q,
          build_pair jwt str_int settings (new_user h q) l.access_jti l.refresh_jti l.now,
        )
  check_credentials-new_user jwt str_int settings q db l agree mail pass =
      rw (mail, agree, text_refl (py_lower q.email), pass, h.verify-hash q.password) refl

active_user-new_user :
    (h : Hasher) (q : RegisterRequest) (db : Db)
    → active_user q.user_id (with_user h q db) ≡ some (new_user h q)
active_user-new_user h q db = ground (arith, ==_refl q.user_id)

module _ (jwt : JwtLibrary) (str_int : ℕ → String) (settings : Settings) (user : User)
    (w : AuthWorld) (found : active_user user.id w.db ≡ some user) where
  current_user-access :
      (jti issued now : ℕ)
      → now < issued + settings.jwt_access_ttl_min * 60
      → is_jti_revoked now (str_int jti) w ≡ false
      → current_user jwt settings
          (some (
            jwt.encode settings.jwt_secret
              (access_claims str_int settings user.id user.role jti issued)))
          now
          w
        ≡ ok user
  unfolding current_user
  current_user-access jti issued now live free =
      rw
        (
          jwt.decode-encode settings.jwt_secret
              (access_claims str_int settings user.id user.role jti issued) now live,
          free,
          found,
        )
        refl

  refresh_pair-refresh :
      (jti issued now access_jti refresh_jti : ℕ)
      → now < issued + settings.jwt_refresh_ttl_days * 86400
      → is_jti_revoked now (str_int jti) w ≡ false
      → refresh_pair jwt str_int settings
          (jwt.encode settings.jwt_refresh_secret
            (refresh_claims str_int settings user.id jti issued))
          access_jti
          refresh_jti
          now
          w
        ≡ ok (
          (user, build_pair jwt str_int settings user access_jti refresh_jti now),
          revoke_jti now
              (str_int jti)
              (ttl_remaining now (refresh_claims str_int settings user.id jti issued))
              w,
        )
  unfolding refresh_pair refresh
  refresh_pair-refresh jti issued now access_jti refresh_jti live free =
      rw
        (
          jwt.decode-encode settings.jwt_refresh_secret
              (refresh_claims str_int settings user.id jti issued) now live,
          free,
          found,
        )
        refl

module _ (n : LuaNumbers) (pg_lower py_lower email_hash : String → String) (h : Hasher)
    (jwt : JwtLibrary) (str_int : ℕ → String) (settings : Settings) where
  open n use {Number}

  -- Who registered logs in with the same email and password, where PostgreSQL and Python agree on the
  -- lower case of the email and the bucket lets the attempt through. The access token of the login
  -- then makes the same user the current one, and its refresh token gets a new pair, each before it
  -- expires and while it is not revoked.
  pub register_user-login :
      (q : RegisterRequest) (db : Db) (u : User) (db' : Db) (l : LoginRequest)
      (buckets : LoginBuckets Number) (later access_jti refresh_jti : ℕ)
      (revoked : String → Option ℕ)
      → register_user pg_lower py_lower h q db ≡ ok (u, db')
      → pg_lower q.email ≡ py_lower q.email
      → l.email ≡ q.email
      → l.password ≡ q.password
      → (login_check n py_lower email_hash l buckets).0.allowed ≡ true
      → later < l.now + settings.jwt_access_ttl_min * 60
      → later < l.now + settings.jwt_refresh_ttl_days * 86400
      → is_jti_revoked later (str_int l.access_jti) (record { db = db'; revoked = revoked }) ≡ false
      → is_jti_revoked later (str_int l.refresh_jti) (record { db = db'; revoked = revoked })
        ≡ false
      → (pair : TokenPair jwt.Token) × (after : AuthWorld) × ((login n pg_lower py_lower email_hash
            h jwt str_int settings l db' buckets).0
          ≡ ok (u, pair))
        × (current_user jwt settings
              (some pair.access_token)
              later
              (record { db = db'; revoked = revoked })
            ≡ ok u)
        × (refresh_pair jwt str_int settings pair.refresh_token access_jti refresh_jti later
              (record { db = db'; revoked = revoked })
            ≡ ok ((u, build_pair jwt str_int settings u access_jti refresh_jti later), after))
  unfolding login
  register_user-login q db u db' l buckets later access_jti refresh_jti revoked e agree mail pass
        allowed access refreshed a r =
      let (who, tables) = register_user-with_user pg_lower py_lower h q db e in
      let found : active_user u.id db' ≡ some u =
        subst (λ (d : Db). active_user u.id d ≡ some u) tables
          (subst (λ (v : User). active_user v.id (with_user h q db) ≡ some v) who
            (active_user-new_user h q db)) in
      let checked : check_credentials pg_lower py_lower h jwt str_int settings l db'
          ≡ ok (u, build_pair jwt str_int settings u l.access_jti l.refresh_jti l.now) =
        subst
          (λ (d : Db).
            check_credentials pg_lower py_lower h jwt str_int settings l d
            ≡ ok (u, build_pair jwt str_int settings u l.access_jti l.refresh_jti l.now))
          tables
          (subst
            (λ (v : User).
              check_credentials pg_lower py_lower h jwt str_int settings l (with_user h q db)
              ≡ ok (v, build_pair jwt str_int settings v l.access_jti l.refresh_jti l.now))
            who
            (check_credentials-new_user pg_lower py_lower h jwt str_int settings q db l agree mail
              pass)) in
      let w : AuthWorld = record { db = db'; revoked = revoked } in
      let pair : TokenPair jwt.Token =
        build_pair jwt str_int settings u l.access_jti l.refresh_jti l.now in
      (
        pair,
        revoke_jti later (str_int l.refresh_jti)
            (ttl_remaining later (refresh_claims str_int settings u.id l.refresh_jti l.now)) w,
        rw allowed checked,
        current_user-access jwt str_int settings u w found l.access_jti l.now later access a,
        refresh_pair-refresh jwt str_int settings u w found l.refresh_jti l.now later access_jti
            refresh_jti refreshed r,
      )
