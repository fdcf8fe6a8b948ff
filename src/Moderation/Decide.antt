-- ===== src/Moderation/Decide.antt =====
-- A moderator's decision on a report: `decide` with `_apply_hide`, `_apply_mute` and `_apply_ban`.
use livequiz_platform.Prelude.{
  ℕ, ◌+◌, String, Bool, true, false, not, ◌&&◌, ◌||◌, Option, none, some, List, [], ◌∷◌, is_none,
  is_some, find, update_where, str_eq, ◌==◌, if◌then◌else◌,
}
use livequiz_platform.Errors.{Result, ok, ◌>>=◌, ◌>>◌, require, or_raise, validation_error}
use livequiz_platform.Store.{
  ModerationReport, ModerationStatus, dismissed, action_taken, is_pending, QuizSet, private_quiz,
  RoomParticipant, Room, User, AuditLog, Affected, nothing, hidden, muted, banned, Payload, Db,
}
use livequiz_platform.Match.Queries.{register_event, room_by_id}

-- `_DECISIONS`
pub data Decision : Type 0 where
  dismiss hide mute ban : Decision

unfoldable pub decision_of : String → Option Decision
decision_of s =
    if str_eq s "dismiss"
    then some dismiss
    else (if str_eq s "hide"
        then some hide
        else (if str_eq s "mute" then some mute else (if str_eq s "ban" then some ban else none)))

abbrev pub name_of : Decision → String
name_of dismiss = "dismiss"
name_of hide = "hide"
name_of mute = "mute"
name_of ban = "ban"

abbrev pub action_of : Decision → String
action_of dismiss = "moderation.decide.dismiss"
action_of hide = "moderation.decide.hide"
action_of mute = "moderation.decide.mute"
action_of ban = "moderation.decide.ban"

abbrev pub status_of : Decision → ModerationStatus
status_of dismiss = dismissed
status_of _ = action_taken

abbrev pub is_report : ℕ → ModerationReport → Bool
is_report id r = r.id == id

abbrev pub is_quiz : ℕ → QuizSet → Bool
is_quiz id s = s.id == id

-- `(quiz.version or 1) + 1`
abbrev pub bumped : ℕ → ℕ
bumped version = if version == 0 then 2 else version + 1

abbrev pub hide_quiz : QuizSet → QuizSet
hide_quiz quiz = record quiz {
  visibility = private_quiz;
  is_published = false;
  version = bumped quiz.version;
}

-- `_apply_hide`
unfoldable pub apply_hide : ModerationReport → Db → Result (Affected × Db)
apply_hide report db = do
  id ← or_raise report.target_quiz_set_id validation_error 422
  quiz ← or_raise (find (is_quiz id) db.quiz_sets) validation_error 404
  ok (
    hidden quiz.id (bumped quiz.version),
    record db { quiz_sets = update_where (is_quiz id) hide_quiz db.quiz_sets },
  )

-- An optional filter of a query, on a column that may be null.
abbrev pub matches_id : Option ℕ → Option ℕ → Bool
matches_id none column = true
matches_id (some id) none = false
matches_id (some id) (some c) = c == id

-- The join of `_apply_mute`: an active participant of a room, in the room and of the user that
-- the report names, when it names them.
abbrev pub is_muted_by : ModerationReport → Db → RoomParticipant → Bool
is_muted_by report db p =
    is_none p.left_at
    && (not p.is_kicked
        && (matches_id report.room_id (some p.room_id)
            && (matches_id report.target_user_id p.user_id && is_some (room_by_id p.room_id db))))

abbrev pub code_of : Option Room → String
code_of none = ""
code_of (some room) = room.code

abbrev pub mute_targets : ModerationReport → Db → List RoomParticipant → List (String × ℕ)
mute_targets report db [] = []
mute_targets report db (p ∷ participants) =
    let rest = mute_targets report db participants in
    if is_muted_by report db p then (code_of (room_by_id p.room_id db), p.id) ∷ rest else rest

abbrev pub kick : RoomParticipant → RoomParticipant
kick p = record p { is_kicked = true }

-- `_apply_mute`
unfoldable pub apply_mute : ModerationReport → Db → Result (Affected × Db)
apply_mute report db = do
  require (is_some report.room_id || is_some report.target_user_id) validation_error 422
  ok (
    muted (mute_targets report db db.participants),
    record db { participants = update_where (is_muted_by report db) kick db.participants },
  )

abbrev pub is_user : ℕ → User → Bool
is_user id u = u.id == id

abbrev pub deactivate : User → User
deactivate u = record u { is_active = false }

-- `_apply_ban`
unfoldable pub apply_ban : ModerationReport → Db → Result (Affected × Db)
apply_ban report db = do
  id ← or_raise report.target_user_id validation_error 422
  user ← or_raise (find (is_user id) db.users) validation_error 404
  ok (banned user.id, record db { users = update_where (is_user id) deactivate db.users })

abbrev pub apply_decision : Decision → ModerationReport → Db → Result (Affected × Db)
apply_decision dismiss report db = ok (nothing, db)
apply_decision hide report db = apply_hide report db
apply_decision mute report db = apply_mute report db
apply_decision ban report db = apply_ban report db

pub record DecisionRequest : Type 0 where
  pub moderator_id : ℕ
  pub report_id : ℕ
  pub decision : String
  pub reason : Option String
  pub now : ℕ
  pub audit_id : ℕ
  pub event_id : ℕ

-- `update_status`
abbrev pub reviewed : DecisionRequest → ModerationStatus → ModerationReport → ModerationReport
reviewed q status r = record r {
  status = status;
  reviewed_by = some q.moderator_id;
  reviewed_at = some q.now;
}

abbrev pub audit_of : DecisionRequest → Decision → ModerationReport → Affected → AuditLog
audit_of q d report affected = record {
  id = q.audit_id;
  actor_user_id = some q.moderator_id;
  action = action_of d;
  entity_type = "moderation_report";
  entity_id = some report.id;
  reason = q.reason;
  affected = affected;
}

-- The report's new status, the audit row and the event.
abbrev pub record_decision : DecisionRequest → Decision → ModerationReport → Affected → Db → Db
record_decision q d report affected db =
    register_event q.event_id "ModerationDecisionMade" "moderation" report.id
      (Payload.moderation_decision_made report.id (name_of d) q.reason q.moderator_id (status_of d)
        affected)
      q.now
      (record db {
        reports = update_where (is_report report.id) (reviewed q (status_of d)) db.reports;
        audit_logs = audit_of q d report affected ∷ db.audit_logs;
      })

-- The `participant.kicked` messages after the commit, by room code and participant.
abbrev pub kicks_of : Affected → List (String × ℕ)
kicks_of (muted participants) = participants
kicks_of _ = []

-- `decide`: the report, what is broadcast, and the tables.
unfoldable pub decide : DecisionRequest → Db → Result (ModerationReport × List (String × ℕ) × Db)
unfolding decision_of apply_hide apply_mute apply_ban
decide q db = do
  d ← or_raise (decision_of q.decision) validation_error 422
  report ← or_raise (find (is_report q.report_id) db.reports) validation_error 404
  require (is_pending report.status) validation_error 409
  (affected, applied) ← apply_decision d report db
  ok (
    reviewed q (status_of d) report,
    kicks_of affected,
    record_decision q d report affected applied,
  )
