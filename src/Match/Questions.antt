-- ===== src/Match/Questions.antt =====
-- `arm_question`, `close_question` and the tasks that call them.
use livequiz_platform.Prelude.{
  ℕ, suc, ◌+◌, ◌-◌, ◌*◌, String, Bool, ◌&&◌, Option, none, some, List, map, length, select,
  update_where, leb, is_none, ◌==◌, if◌then◌else◌,
}
use livequiz_platform.Prelude.Optional.{◌>>=◌, ◌>>◌, unless_return}
use livequiz_platform.Store.{
  MatchQuestion, AnswerOption, Question, AnswerSubmission, Db, Payload, is_running,
}
use livequiz_platform.Live.{World, QuestionPayload, Message, broadcast, update}
use livequiz_platform.Live.Scheduler.{Task, Timer, set_active}
use livequiz_platform.Live.Leaderboard.{answered_count}
use livequiz_platform.Match.Queries.{
  us_per_second, match_by_id, room_by_id, match_question_at, question_by_id, options_by_position,
  register_event,
}
use livequiz_platform.Match.Finish.{end_match}

-- Rewrites one row of `match_questions`.
abbrev pub set_question : ℕ → (MatchQuestion → MatchQuestion) → Db → Db
set_question mq_id f db = record db {
  match_questions = update_where (λ (q : MatchQuestion). q.id == mq_id) f db.match_questions;
}

abbrev pub stamp_armed : ℕ → ℕ → MatchQuestion → MatchQuestion
stamp_armed started deadline q = record q { started_at = some started; deadline_at = some deadline }

abbrev pub stamp_closed : ℕ → MatchQuestion → MatchQuestion
stamp_closed now q = record q { closed_at = some now }

abbrev pub option_pair : AnswerOption → ℕ × String
option_pair o = (o.id, o.body)

abbrev pub question_payload : MatchQuestion → Question → ℕ → ℕ → QuestionPayload
question_payload mq question started deadline = record {
  match_question_id = mq.id;
  position = mq.position;
  body = question.body;
  question_type = question.question_type;
  options = map option_pair (options_by_position (some question));
  started_at = started;
  deadline_at = deadline;
}

-- What the transaction of `arm_question` hands to the steps after it.
pub record Armed : Type 0 where
  pub payload : QuestionPayload
  pub room_code : String
  pub db : Db

-- The transaction of `arm_question`: `none` is an early return, with nothing written.
unfoldable pub arm_tx : ℕ → ℕ → ℕ → ℕ → Db → Option Armed
arm_tx now event_id match_id position db = do
  mq ← match_question_at match_id position db
  unless_return (is_none mq.closed_at)
  match ← match_by_id match_id db
  unless_return (is_running match.status)
  question ← question_by_id mq.question_id db
  room ← room_by_id match.room_id db
  let deadline = now + question.time_limit_seconds * us_per_second
  let armed = set_question mq.id (stamp_armed now deadline) db
  some (record {
    payload = question_payload mq question now deadline;
    room_code = room.code;
    db =
        register_event event_id "QuestionStarted" "match" match_id
          (Payload.question_started match_id mq.id question.id position question.time_limit_seconds
            now deadline)
          now armed;
  })

-- After the commit: the payload for reconnects, the broadcast, and the task that closes the
-- question at its deadline. `later` is the clock when the task is created.
abbrev pub after_arm : ℕ → ℕ → ℕ → ℕ → World → Option Armed → World
after_arm later task_id match_id position w none = w
after_arm later task_id match_id position w (some a) =
    let stored = record w.redis {
      current_question = update w.redis.current_question match_id (some a.payload);
    } in
    let told =
      broadcast a.room_code (Message.question_started a.payload)
        (record w { db = a.db; redis = stored }) in
    let close : Task = record {
      task_id = task_id;
      timer = Timer.close_question match_id position;
      delay_us = a.payload.deadline_at - later;
    } in
    record told { scheduler = set_active match_id close told.scheduler }

unfoldable pub arm_question : ℕ → ℕ → ℕ → ℕ → ℕ → ℕ → World → World
unfolding arm_tx set_active
arm_question now later event_id task_id match_id position w =
    after_arm later task_id match_id position w (arm_tx now event_id match_id position w.db)

abbrev pub option_id : AnswerOption → ℕ
option_id o = o.id

-- The ids of the correct options, by position.
abbrev pub correct_ids : Option Question → List ℕ
correct_ids question =
    map option_id (select (λ (o : AnswerOption). o.is_correct) (options_by_position question))

abbrev pub explanation_of : Option Question → Option String
explanation_of none = none
explanation_of (some q) = q.explanation

-- What the transaction of `close_question` hands to the steps after it.
pub record Closed : Type 0 where
  pub mq : MatchQuestion
  pub room_code : String
  pub correct : List ℕ
  pub explanation : Option String
  pub last_question : Bool
  pub db : Db

abbrev pub in_match : ℕ → MatchQuestion → Bool
in_match match_id q = q.match_id == match_id

-- The transaction of `close_question`: `none` is an early return, with nothing written.
unfoldable pub close_tx : ℕ → ℕ → ℕ → ℕ → Db → Option Closed
close_tx now event_id match_id position db = do
  mq ← match_question_at match_id position db
  unless_return (is_none mq.closed_at)
  match ← match_by_id match_id db
  unless_return (is_running match.status)
  room ← room_by_id match.room_id db
  let question = question_by_id mq.question_id db
  let total = length (select (in_match match_id) db.match_questions)
  some (record {
    mq = mq;
    room_code = room.code;
    correct = correct_ids question;
    explanation = explanation_of question;
    last_question = leb total position;
    db =
        register_event event_id "QuestionClosed" "match" match_id
          (Payload.question_closed match_id mq.id mq.question_id position now
            (correct_ids question))
          now (set_question mq.id (stamp_closed now) db);
  })

abbrev pub correct_for : ℕ → AnswerSubmission → Bool
correct_for mq_id s = s.match_question_id == mq_id && s.is_correct

-- `question.closed` carries the accuracy as its two counts: those who answered, from Redis, and the
-- correct submissions. The percentage that clients see is rounded from them.
abbrev pub announce_closed : ℕ → Closed → World → World
announce_closed match_id c w =
    broadcast c.room_code
      (Message.question_closed c.mq.id c.correct c.explanation
        (answered_count match_id c.mq.question_id w.redis)
        (length (select (correct_for c.mq.id) w.db.submissions)))
      w

-- After the commit: the broadcast, then the end of the match or the task that arms the next
-- question after the gap.
abbrev pub after_close : Option ℕ → ℕ → ℕ → ℕ → ℕ → ℕ → ℕ → World → Option Closed → World
after_close current now event_id task_id gap_seconds match_id position w none = w
after_close current now event_id task_id gap_seconds match_id position w (some c) =
    let told = announce_closed match_id c (record w { db = c.db }) in
    let gap : Task = record {
      task_id = task_id;
      timer = Timer.arm_question match_id (position + 1);
      delay_us = gap_seconds * us_per_second;
    } in
    if c.last_question
    then (end_match current now (suc event_id) none match_id told).1
    else record told { scheduler = set_active match_id gap told.scheduler }

-- `close_question`, run by the task `current`. The events take the ids from `event_id` on.
unfoldable pub close_question : Option ℕ → ℕ → ℕ → ℕ → ℕ → ℕ → ℕ → World → World
unfolding close_tx set_active end_match answered_count
close_question current now event_id task_id gap_seconds match_id position w =
    after_close current now event_id task_id gap_seconds match_id position w
      (close_tx now event_id match_id position w.db)
