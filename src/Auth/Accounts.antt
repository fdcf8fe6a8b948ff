-- ===== src/Auth/Accounts.antt =====
-- `register_user` and `login` of backend/app/services/auth_service.py with repositories/user_repo.py.
-- The lower case of PostgreSQL and of Python, the password hasher, SHA-1 and the address of a client
-- are parameters.
use livequiz_platform.Prelude.{
  ℕ, ◌≡◌, String, Bool, true, not, ◌&&◌, ◌||◌, Option, none, some, ◌∷◌, find, any, is_none, str_eq,
  ◌==◌, if◌then◌else◌,
}
use livequiz_platform.Errors.{
  Result, ok, err, auth_error, ◌>>=◌, ◌>>◌, require, or_raise, validation_error, auth_required,
  rate_limited, internal_error,
}
use livequiz_platform.Store.{User, player_role, AuditLog, registered, Db}
use livequiz_platform.RateLimit.{LuaNumbers, Bucket, Acquired, acquire}
use livequiz_platform.Auth.Tokens.{JwtLibrary, Settings, TokenPair, build_pair}

-- What the service takes from libraries.
pub record Hasher : Type 0 where
  pub hash : String → String
  pub verify : (plain hashed : String) → Bool
  pub verify-hash : (plain : String) → verify plain (hash plain) ≡ true

pub record RegisterRequest : Type 0 where
  pub email : String
  pub password : String
  pub display_name : String
  pub user_id : ℕ
  pub audit_id : ℕ

abbrev pub new_user : Hasher → RegisterRequest → User
new_user h q = record {
  id = q.user_id;
  email = q.email;
  password_hash = h.hash q.password;
  display_name = q.display_name;
  role = player_role;
  is_active = true;
}

abbrev pub registration_log : RegisterRequest → AuditLog
registration_log q = record {
  id = q.audit_id;
  actor_user_id = some q.user_id;
  action = "user.registered";
  entity_type = "user";
  entity_id = some q.user_id;
  reason = none;
  affected = registered q.email;
}

module _ (pg_lower py_lower : String → String) where
  abbrev pub has_email : String → User → Bool
  has_email email u = str_eq (pg_lower u.email) (py_lower email)

  abbrev pub get_by_email : String → Db → Option User
  get_by_email email db = find (has_email email) db.users

  -- The primary key and the unique indexes on the email and on its lower case.
  abbrev pub user_collides : User → User → Bool
  user_collides u v =
      v.id == u.id || (str_eq v.email u.email || str_eq (pg_lower v.email) (pg_lower u.email))

  -- A row that collides is an IntegrityError, which nothing catches.
  unfoldable pub register_user : Hasher → RegisterRequest → Db → Result (User × Db)
  register_user h q db = do
    require (is_none (get_by_email q.email db)) validation_error 422
    require (not (any (user_collides (new_user h q)) db.users)) internal_error 500
    ok (
      new_user h q,
      record db {
        users = new_user h q ∷ db.users;
        audit_logs = registration_log q ∷ db.audit_logs;
      },
    )

abbrev pub login_capacity : ℕ
login_capacity = 10

-- What comes with a login: the ids for its tokens and the times, in seconds and milliseconds.
pub record LoginRequest : Type 0 where
  pub email : String
  pub password : String
  pub ip : String
  pub access_jti : ℕ
  pub refresh_jti : ℕ
  pub now : ℕ
  pub now_ms : ℕ

-- The buckets `rate:login:{ip}:{hash of the email}`.
abbrev pub LoginBuckets : Type 0 → Type 0
LoginBuckets Number = String → String → Option (Bucket Number)

abbrev pub set_bucket :
    {Number : Type 0} → String → String → Bucket Number → LoginBuckets Number → LoginBuckets Number
set_bucket ip hash bucket buckets i h =
    if str_eq ip i && str_eq hash h then some bucket else buckets i h

module _ (n : LuaNumbers) (py_lower email_hash : String → String) where
  open n use {Number, of_int, div}

  -- `_login_key` with the bucket: the answer and the buckets after it.
  abbrev pub login_check : LoginRequest → LoginBuckets Number → Acquired × LoginBuckets Number
  login_check q buckets =
      let hash = email_hash (py_lower q.email) in
      let (answer, bucket) =
        acquire n login_capacity (div (of_int 10) (of_int 60)) 1 q.now_ms q.now_ms
          (buckets q.ip hash) in
      (answer, set_bucket q.ip hash bucket buckets)

module _ (pg_lower py_lower : String → String) (h : Hasher) (jwt : JwtLibrary)
    (str_int : ℕ → String) (settings : Settings) where
  -- `login` after the bucket allows it.
  abbrev pub check_credentials : LoginRequest → Db → Result (User × TokenPair jwt.Token)
  check_credentials q db = do
    user ← or_raise (get_by_email pg_lower py_lower q.email db) auth_required 401
    require user.is_active auth_required 401
    require (h.verify q.password user.password_hash) auth_required 401
    ok (user, build_pair jwt str_int settings user q.access_jti q.refresh_jti q.now)

module _ (n : LuaNumbers) (pg_lower py_lower email_hash : String → String) (h : Hasher)
    (jwt : JwtLibrary) (str_int : ℕ → String) (settings : Settings) where
  open n use {Number}

  -- The buckets are counted also where a login is refused.
  unfoldable pub login :
      LoginRequest
      → Db
      → LoginBuckets Number
      → Result (User × TokenPair jwt.Token) × LoginBuckets Number
  login q db buckets =
      let (answer, counted) = login_check n py_lower email_hash q buckets in
      (
        if answer.allowed
            then check_credentials pg_lower py_lower h jwt str_int settings q db
            else err (auth_error rate_limited 429),
        counted,
      )
