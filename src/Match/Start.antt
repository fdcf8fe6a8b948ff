-- ===== src/Match/Start.antt =====
-- `start_match`: a lobby becomes a running match over a snapshot of the quiz.
use livequiz_platform.Prelude.{
  ℕ, suc, String, Bool, true, false, not, none, some, List, [], ◌∷◌, ◌++◌, map, length, find,
  select, update_where, leb, is_none, is_some, ◌&&◌, ◌==◌, if◌then◌else◌,
}
use livequiz_platform.Prelude.Sort.{sort}
use livequiz_platform.Errors.{
  Result, ok, ◌>>=◌, ◌>>◌, require, or_raise, validation_error, room_not_found, room_not_joinable,
  forbidden,
}
use livequiz_platform.Store.{
  Room, RoomStatus, Match, MatchQuestion, Question, QuizSet, RoomParticipant, Db, Payload, running,
  is_lobby,
}
use livequiz_platform.Live.{Redis, World, Message, broadcast, update_text}
use livequiz_platform.Live.Scheduler.{Task, arm_question, spawn}
use livequiz_platform.Live.Leaderboard.{set_nicknames, reset}
use livequiz_platform.Match.Queries.{room_by_code, register_event}

-- The rows of `match_questions`: the questions in order, numbered from `idx`. `next_id k` is the
-- id that the generator gives to the k-th call of the operation.
unfoldable pub snapshot_questions : (ℕ → ℕ) → ℕ → ℕ → List Question → List MatchQuestion
snapshot_questions next_id match_id idx [] = []
snapshot_questions next_id match_id idx (q ∷ qs) =
    record {
      id = next_id idx;
      match_id = match_id;
      question_id = q.id;
      position = idx;
      started_at = none;
      deadline_at = none;
      closed_at = none;
    }
    ∷ snapshot_questions next_id match_id (suc idx) qs

abbrev pub questions_of : ℕ → Db → List Question
questions_of quiz_set_id db = select (λ (q : Question). q.quiz_set_id == quiz_set_id) db.questions

abbrev pub is_empty {ℓ} : {A : Type ℓ} → List A → Bool
is_empty [] = true
is_empty (x ∷ xs) = false

abbrev pub mark_running : ℕ → Room → Room
mark_running now r = record r { status = running; started_at = some now }

-- Steps 3 to 5: the match, its questions, the room's status and the event.
unfoldable pub create_match : ℕ → (ℕ → ℕ) → Room → QuizSet → Db → Match × Db
unfolding snapshot_questions
create_match now next_id room quiz db =
    let match : Match = record {
      id = next_id 0;
      room_id = room.id;
      quiz_set_version = quiz.version;
      status = running;
      started_at = now;
      ended_at = none;
    } in
    let sorted = sort (λ (a b : Question). leb a.position b.position) (questions_of quiz.id db) in
    let rows = snapshot_questions next_id match.id 1 sorted in
    (
      match,
      register_event (next_id (suc (length rows))) "MatchStarted" "match" match.id
          (Payload.match_started match.id room.id quiz.id quiz.version (length rows) now room.code)
          now
          (record db {
            rooms = update_where (λ (r : Room). r.id == room.id) (mark_running now) db.rooms;
            matches = match ∷ db.matches;
            match_questions = rows ++ db.match_questions;
          }),
    )

-- The transaction of `start_match`, up to its commit.
unfoldable pub start_match : ℕ → (ℕ → ℕ) → ℕ → String → Db → Result (Match × Db)
start_match now next_id host_id room_code db = do
  room ← or_raise (room_by_code room_code db) room_not_found 404
  require (room.host_id == host_id) forbidden 403
  require (is_lobby room.status) room_not_joinable 409
  quiz ←
      or_raise (find (λ (q : QuizSet). q.id == room.quiz_set_id) db.quiz_sets) validation_error 422
  require (not (is_empty (questions_of quiz.id db))) validation_error 422
  ok (create_match now next_id room quiz db)

abbrev pub is_active_in : ℕ → RoomParticipant → Bool
is_active_in room_id p = p.room_id == room_id && (is_none p.left_at && not p.is_kicked)

abbrev pub nickname_pair : RoomParticipant → ℕ × String
nickname_pair p = (p.id, p.nickname)

-- The snapshot of a room is rewritten if it is cached.
abbrev pub write_status : String → RoomStatus → Redis → Redis
write_status code status r =
    if is_some (r.room_status code)
    then record r { room_status = update_text r.room_status code (some status) }
    else r

-- The Redis part of step 6: the nicknames, then the reset, then the snapshot.
unfoldable pub seed_live_state : Match → String → Db → Redis → Redis
unfolding set_nicknames reset
seed_live_state match room_code db r =
    let parts = select (is_active_in match.room_id) db.participants in
    let named = if is_empty parts then r else set_nicknames match.id (map nickname_pair parts) r in
    write_status room_code running (reset match.id named)

-- `start_match` as a whole: the transaction, and after its commit the Redis part, the broadcast and
-- the task that arms the first question.
unfoldable pub start : ℕ → (ℕ → ℕ) → ℕ → ℕ → String → World → Result (Match × World)
unfolding start_match seed_live_state
start now next_id task_id host_id room_code w = do
  (match, db) ← start_match now next_id host_id room_code w.db
  let questions = length (select (λ (q : MatchQuestion). q.match_id == match.id) db.match_questions)
  let seeded = record w { db = db; redis = seed_live_state match room_code db w.redis }
  let announced = broadcast room_code (Message.match_started match.id questions) seeded
  let arm : Task = record { task_id = task_id; timer = arm_question match.id 1; delay_us = 0 }
  ok (match, record announced { scheduler = spawn arm announced.scheduler })
