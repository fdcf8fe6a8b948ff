-- ===== src/Auth/Admitted.antt =====
-- Whom the server takes somebody for: an active user of the tables, or nobody.
use mathlib.Core.Path.{subst}
use livequiz_platform.Prelude.{
  ℕ, ◌≡◌, ap, ◌∙◌, String, Bool, true, not, Option, some, none, find, ◌==◌, if◌then◌else◌, arith,
  Bool-cases, inl, inr,
}
use livequiz_platform.Errors.{
  Result, ok, err, bind-ok, require-ok, or_raise-ok, or_raise-some, auth_required,
}
use livequiz_platform.Store.{User, Db}
use livequiz_platform.RateLimit.{LuaNumbers}
use livequiz_platform.Auth.{
  AuthWorld, is_jti_revoked, active_user, decode_token, refresh, access_type, refresh_type,
}
use livequiz_platform.Auth.Tokens.{
  JwtLibrary, Settings, TokenPair, bearer, refresh_pair, current_user,
}
use livequiz_platform.Auth.Accounts.{
  Hasher, has_email, get_by_email, LoginRequest, LoginBuckets, login_check, check_credentials,
  login,
}

-- A row of the tables, found by some test, that is active.
abbrev pub IsActiveRow : Db → User → Type 0
IsActiveRow db u = (t : User → Bool) × (find t db.users ≡ some u) × (u.is_active ≡ true)

active_or_none :
    (o : Option User) {u : User}
    → (elim o [ none ↦ none | some v ↦ if v.is_active then some v else none ]) ≡ some u
    → (o ≡ some u) × (u.is_active ≡ true)
active_or_none none h = cc
active_or_none (some v) {u} h = ground arith

active_user-IsActiveRow :
    (id : ℕ) (db : Db) {u : User} → active_user id db ≡ some u → IsActiveRow db u
active_user-IsActiveRow id db h =
    let (found, active) = active_or_none (find (λ (u : User). u.id == id) db.users) h in
    (λ u. u.id == id, found, active)

-- The user of a result, or another one.
abbrev of_user : {A : Type 0} → (A → User) → User → Result A → User
of_user f v (ok a) = f a
of_user f v (err e) = v

module _ (pg_lower py_lower : String → String) (h : Hasher) (jwt : JwtLibrary)
    (str_int : ℕ → String) (settings : Settings) where
  -- The row that let a login through: the one of the email, active, and with the password.
  check_credentials-ok :
      (q : LoginRequest) (db : Db) (u : User) (pair : TokenPair jwt.Token)
      → check_credentials pg_lower py_lower h jwt str_int settings q db ≡ ok (u, pair)
      → (get_by_email pg_lower py_lower q.email db ≡ some u)
        × (u.is_active ≡ true)
        × (h.verify q.password u.password_hash ≡ true)
  check_credentials-ok q db u pair e =
      let (v, found, e1) =
        or_raise-ok (get_by_email pg_lower py_lower q.email db) auth_required 401 _ e in
      let (active, e2) = require-ok v.is_active auth_required 401 _ e1 in
      let (verified, e3) =
        require-ok (h.verify q.password v.password_hash) auth_required 401 _ e2 in
      let who : v ≡ u = ap (of_user (λ (x : User × TokenPair jwt.Token). x.0) u) e3 in
      subst
        (λ (x : User).
          (get_by_email pg_lower py_lower q.email db ≡ some x)
          × (x.is_active ≡ true)
          × (h.verify q.password x.password_hash ≡ true))
        who (found, active, verified)

  -- A login returns an active user of the tables.
  pub login-IsActiveRow :
      (n : LuaNumbers) (email_hash : String → String) (q : LoginRequest) (db : Db)
      (buckets : LoginBuckets n.Number) (u : User) (pair : TokenPair jwt.Token)
      → (login n pg_lower py_lower email_hash h jwt str_int settings q db buckets).0 ≡ ok (u, pair)
      → IsActiveRow db u
  unfolding login
  login-IsActiveRow n email_hash q db buckets u pair e =
      elim (Bool-cases (login_check n py_lower email_hash q buckets).0.allowed) [
        | inl allowed ↦
            (let (found, active, verified) = check_credentials-ok q db u pair (rw allowed at e) in
              (has_email pg_lower py_lower q.email, found, active))
        | inr limited ↦ cc (rw limited at e)
      ]

module _ (jwt : JwtLibrary) (settings : Settings) where
  -- The current user is an active user of the tables.
  pub current_user-IsActiveRow :
      (creds : Option jwt.Token) (now : ℕ) (w : AuthWorld) (u : User)
      → current_user jwt settings creds now w ≡ ok u
      → IsActiveRow w.db u
  unfolding current_user
  current_user-IsActiveRow creds now w u e =
      let (token, h0, given) = bind-ok (bearer jwt settings creds) _ e in
      let (claims, h1, read) =
        bind-ok (decode_token (jwt.decode settings.jwt_secret) token now access_type) _ h0 in
      let (fresh, h2) = require-ok (not (is_jti_revoked now claims.jti w)) auth_required 401 _ h1 in
      let (id, has_sub, h3) = or_raise-ok claims.sub auth_required 401 _ h2 in
      active_user-IsActiveRow id w.db (or_raise-some (active_user id w.db) auth_required 401 h3)

  -- A refresh returns an active user of the tables.
  pub refresh_pair-IsActiveRow :
      (str_int : ℕ → String) (token : jwt.Token) (access_jti refresh_jti now : ℕ)
      (w after : AuthWorld) (u : User) (pair : TokenPair jwt.Token)
      → refresh_pair jwt str_int settings token access_jti refresh_jti now w ≡ ok ((u, pair), after)
      → IsActiveRow w.db u
  unfolding refresh_pair refresh
  refresh_pair-IsActiveRow str_int token access_jti refresh_jti now w after u pair e =
      let ((v, w'), e1, rotated) =
        bind-ok (refresh (jwt.decode settings.jwt_refresh_secret) token now w) _ e in
      let (claims, h1, read) =
        bind-ok (decode_token (jwt.decode settings.jwt_refresh_secret) token now refresh_type) _
          rotated in
      let (fresh, h2) = require-ok (not (is_jti_revoked now claims.jti w)) auth_required 401 _ h1 in
      let (id, has_sub, h3) = or_raise-ok claims.sub auth_required 401 _ h2 in
      let (x, found, h4) = or_raise-ok (active_user id w.db) auth_required 401 _ h3 in
      let first : x ≡ v = ap (of_user (λ (r : User × AuthWorld). r.0) v) h4 in
      let second : v ≡ u =
        ap (of_user (λ (r : (User × TokenPair jwt.Token) × AuthWorld). r.0.0) u) e1 in
      subst (IsActiveRow w.db) (first ∙ second) (active_user-IsActiveRow id w.db found)
