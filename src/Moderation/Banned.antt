-- ===== src/Moderation/Banned.antt =====
-- What banning means: the user neither logs in nor goes on with the tokens of before.
use livequiz_platform.Prelude.{
  ℕ, ◌≡◌, refl, String, true, false, Option, some, List, [], ◌∷◌, All, All-find, find, update_where,
  arith,
}
use livequiz_platform.Errors.{ok}
use livequiz_platform.Store.{ModerationReport, is_pending, action_taken, banned, User, Db}
use livequiz_platform.RateLimit.{LuaNumbers}
use livequiz_platform.Auth.{AuthWorld}
use livequiz_platform.Auth.Tokens.{JwtLibrary, Settings, TokenPair, refresh_pair, current_user}
use livequiz_platform.Auth.Accounts.{Hasher, LoginRequest, LoginBuckets, login}
use livequiz_platform.Auth.Admitted.{
  IsActiveRow, login-IsActiveRow, current_user-IsActiveRow, refresh_pair-IsActiveRow,
}
use livequiz_platform.Moderation.Decide.{
  is_user, deactivate, ban, DecisionRequest, decision_of, decide, reviewed, record_decision,
  is_report, apply_ban,
}

-- A row that is not of the user, or is not active.
abbrev Locked : ℕ → User → Type 0
Locked id u = u.id ≡ id → u.is_active ≡ false

update_where-Locked :
    (id : ℕ) (users : List User) → All (Locked id) (update_where (is_user id) deactivate users)
update_where-Locked id [] = tt
update_where-Locked id (u ∷ users) = ((λ own. ground arith), update_where-Locked id users)

-- The tables after the decision.
abbrev pub after_ban : DecisionRequest → ModerationReport → (id user_id : ℕ) → Db → Db
after_ban q report id user_id db =
    record_decision q ban report (banned user_id)
      (record db { users = update_where (is_user id) deactivate db.users })

locked :
    (q : DecisionRequest) (report : ModerationReport) (id user_id : ℕ) (db : Db) (u : User)
    → u.id ≡ id
    → ¬ (IsActiveRow (after_ban q report id user_id db) u)
locked q report id user_id db u own (t, found, active) =
    let shut = All-find (Locked id) t _ (update_where-Locked id db.users) found in
    let off = shut own in cc

module _ (q : DecisionRequest) (report : ModerationReport) (id : ℕ) (target : User) (db : Db)
    (pg_lower py_lower email_hash : String → String) (h : Hasher) (n : LuaNumbers)
    (jwt : JwtLibrary) (str_int : ℕ → String) (settings : Settings) where
  -- A pending report on a user of the tables can be decided by banning. With the tables after it,
  -- whatever the tokens, the passwords and the times, that user is neither the current user of a
  -- request nor returned by a refresh or a login.
  pub decide-bans :
      (creds : Option jwt.Token) (token : jwt.Token) (now access_jti refresh_jti : ℕ)
      (revoked : String → Option ℕ) (after : AuthWorld) (l : LoginRequest)
      (buckets : LoginBuckets n.Number) (u : User) (pair : TokenPair jwt.Token)
      → find (is_report q.report_id) db.reports ≡ some report
      → is_pending report.status ≡ true
      → decision_of q.decision ≡ some ban
      → report.target_user_id ≡ some id
      → find (is_user id) db.users ≡ some target
      → u.id ≡ id
      → (decide q db ≡ ok (reviewed q action_taken report, [], after_ban q report id target.id db))
        × (¬ (
            current_user jwt settings creds now
              (record { db = after_ban q report id target.id db; revoked = revoked })
            ≡ ok u))
        × (¬ (
            refresh_pair jwt str_int settings token access_jti refresh_jti now
              (record { db = after_ban q report id target.id db; revoked = revoked })
            ≡ ok ((u, pair), after)))
        × (¬ (
            (login n pg_lower py_lower email_hash h jwt str_int settings l
              (after_ban q report id target.id db)
              buckets).0
            ≡ ok (u, pair)))
  unfolding decide apply_ban
  decide-bans creds token now access_jti refresh_jti revoked after l buckets u pair found pending
        chosen named there own =
      let shut : ¬ (IsActiveRow (after_ban q report id target.id db) u) =
        locked q report id target.id db u own in
      let w : AuthWorld = record { db = after_ban q report id target.id db; revoked = revoked } in
      (
        rw (chosen, found, pending, named, there) refl,
        λ e. shut (current_user-IsActiveRow jwt settings creds now w u e),
        λ e. shut (
            refresh_pair-IsActiveRow jwt settings str_int token access_jti refresh_jti now w after u
              pair e),
        λ e. shut (
            login-IsActiveRow pg_lower py_lower h jwt str_int settings n email_hash l w.db buckets u
              pair e),
      )
