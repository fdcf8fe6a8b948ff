-- ===== src/Match/Control.antt =====
-- `pause_match` and `resume_match`: the host stops and restarts the timer of the open question.
pub mod Deadline
use livequiz_platform.Prelude.{
  ℕ, ◌+◌, ◌*◌, String, Bool, ◌&&◌, Option, none, some, update_where, is_none, ltb, ◌==◌,
  if◌then◌else◌,
}
use livequiz_platform.Floats.{Floats}
use livequiz_platform.Errors.{
  Result, ok, ◌>>=◌, ◌>>◌, require, or_raise, room_not_found, room_not_joinable, forbidden,
}
use livequiz_platform.Store.{
  Room, RoomStatus, Match, MatchQuestion, Db, running, paused, is_running, is_paused,
}
use livequiz_platform.Live.{Redis, World, PauseState, update}
use livequiz_platform.Live.Scheduler.{MatchScheduler, Timer, set_active, cancel, spawn}
use livequiz_platform.Match.Queries.{
  us_per_ms, room_by_code, match_by_room_id, active_question, next_unstarted, is_at, elapsed_ms,
}

abbrev pub set_status : RoomStatus → Room → Match → Db → Db
set_status status room match db = record db {
  matches =
      update_where (λ (m : Match). m.id == match.id) (λ m. record m { status = status }) db.matches;
  rooms = update_where (λ (r : Room). r.id == room.id) (λ r. record r { status = status }) db.rooms;
}

-- The milliseconds left until a deadline, if there is one.
abbrev pub left_until : Floats → ℕ → Option ℕ → ℕ
left_until fl now none = 0
left_until fl now (some deadline) = elapsed_ms fl now deadline

abbrev pub pause_state : Floats → ℕ → Option MatchQuestion → PauseState
pause_state fl now none = record { position = none; remaining_ms = 0 }
pause_state fl now (some mq) = record {
  position = some mq.position;
  remaining_ms = left_until fl now mq.deadline_at;
}

-- The transaction of `pause_match`.
unfoldable pub pause_tx : Floats → ℕ → ℕ → String → Db → Result ((Match × PauseState) × Db)
pause_tx fl now host_id room_code db = do
  room ← or_raise (room_by_code room_code db) room_not_found 404
  require (room.host_id == host_id) forbidden 403
  match ← or_raise (match_by_room_id room.id db) room_not_joinable 409
  require (is_running match.status) room_not_joinable 409
  let state = pause_state fl now (active_question match.id db)
  ok ((match, state), set_status paused room match db)

-- `pause_match` as a whole: after the commit the timer is cancelled and the rest of it stored.
unfoldable pub pause_match : Floats → ℕ → ℕ → String → World → Result (Match × World)
unfolding pause_tx cancel
pause_match fl now host_id room_code w = do
  ((match, state), db) ← pause_tx fl now host_id room_code w.db
  ok (
    match,
    record w {
      db = db;
      redis = record w.redis { pause = update w.redis.pause match.id (some state) };
      scheduler = (cancel match.id w.scheduler).0;
    },
  )

-- `json.loads(raw) if raw else {...}`
abbrev pub pause_or_none : Option PauseState → PauseState
pause_or_none none = record { position = none; remaining_ms = 0 }
pause_or_none (some state) = state

-- The open question at the stored position gets a new deadline.
abbrev pub is_open_at : ℕ → ℕ → MatchQuestion → Bool
is_open_at match_id position q = is_at match_id position q && is_none q.closed_at

abbrev pub extend_deadline : ℕ → ℕ → Option ℕ → ℕ → Db → Db
extend_deadline now match_id none remaining_ms db = db
extend_deadline now match_id (some position) remaining_ms db = record db {
  match_questions =
      update_where (is_open_at match_id position)
        (λ q. record q { deadline_at = some (now + remaining_ms * us_per_ms) }) db.match_questions;
}

-- The transaction of `resume_match`. The pause state is read between the checks and the writes.
unfoldable pub resume_tx : ℕ → ℕ → String → Redis → Db → Result ((Match × PauseState) × Db)
resume_tx now host_id room_code redis db = do
  room ← or_raise (room_by_code room_code db) room_not_found 404
  require (room.host_id == host_id) forbidden 403
  match ← or_raise (match_by_room_id room.id db) room_not_joinable 409
  require (is_paused match.status) room_not_joinable 409
  let state = pause_or_none (redis.pause match.id)
  let extended = extend_deadline now match.id state.position state.remaining_ms db
  ok ((match, state), set_status running room match extended)

-- The `else` of the re-arm: the first question that was not started is armed at once, if any.
abbrev pub arm_next : ℕ → ℕ → Option MatchQuestion → MatchScheduler → MatchScheduler
arm_next task_id match_id none s = s
arm_next task_id match_id (some nxt) s =
    spawn
      (record { task_id = task_id; timer = Timer.arm_question match_id nxt.position; delay_us = 0 })
      s

-- The re-arm: the timer of the same question goes on, if there is time left.
abbrev pub rearm : ℕ → ℕ → Option ℕ → ℕ → Db → MatchScheduler → MatchScheduler
rearm task_id match_id none remaining_ms db s =
    arm_next task_id match_id (next_unstarted match_id db) s
rearm task_id match_id (some position) remaining_ms db s =
    if ltb 0 remaining_ms
    then set_active match_id
        (record {
          task_id = task_id;
          timer = Timer.close_question match_id position;
          delay_us = remaining_ms * us_per_ms;
        })
        s
    else arm_next task_id match_id (next_unstarted match_id db) s

-- `resume_match` as a whole.
unfoldable pub resume_match : ℕ → ℕ → ℕ → String → World → Result (Match × World)
unfolding resume_tx set_active
resume_match now task_id host_id room_code w = do
  ((match, state), db) ← resume_tx now host_id room_code w.redis w.db
  ok (
    match,
    record w {
      db = db;
      scheduler = rearm task_id match.id state.position state.remaining_ms db w.scheduler;
    },
  )
