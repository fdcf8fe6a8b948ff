-- ===== src/Tests/Data.antt =====
-- A room with a running match of two questions: the second one is open, one player has answered.
use livequiz_platform.Prelude.{ℕ, String, true, false, Option, none, some, List, [], ◌∷◌}
use livequiz_platform.Store.{
  Room, Match, MatchQuestion, Question, QuizSet, RoomParticipant, AnswerSubmission, Db, RoomStatus,
  running, lobby, single_choice, public_quiz,
}
use livequiz_platform.Live.{World, Redis}
use livequiz_platform.Live.Scheduler.{MatchScheduler, Task, Timer}
use livequiz_platform.Match.Admission.{Request}

abbrev pub room_in : RoomStatus → Room
room_in status = record {
  id = 1;
  code = "ROOM";
  host_id = 7;
  quiz_set_id = 3;
  status = status;
  max_players = 50;
  settings = [];
  started_at = none;
  ended_at = none;
}

abbrev pub match_in : RoomStatus → Match
match_in status = record {
  id = 10;
  room_id = 1;
  quiz_set_version = 1;
  status = status;
  started_at = 1000000;
  ended_at = none;
}

abbrev pub first_question : MatchQuestion
first_question = record {
  id = 20;
  match_id = 10;
  question_id = 30;
  position = 1;
  started_at = some 1000000;
  deadline_at = some 11000000;
  closed_at = some 11000000;
}

abbrev pub open_question : MatchQuestion
open_question = record {
  id = 21;
  match_id = 10;
  question_id = 31;
  position = 2;
  started_at = some 14000000;
  deadline_at = some 24000000;
  closed_at = none;
}

abbrev pub question : ℕ → ℕ → Question
question id position = record {
  id = id;
  quiz_set_id = 3;
  position = position;
  body = "?";
  question_type = single_choice;
  time_limit_seconds = 10;
  points = 1000;
  explanation = none;
  options =
      record { id = 60; position = 1; body = "yes"; is_correct = true }
      ∷ record { id = 61; position = 2; body = "no"; is_correct = false }
      ∷ [];
}

abbrev pub quiz : QuizSet
quiz = record {
  id = 3;
  owner_id = 7;
  title = "quiz";
  description = none;
  visibility = public_quiz;
  is_published = true;
  version = 1;
}

abbrev pub player : ℕ → String → RoomParticipant
player id nickname = record {
  id = id;
  room_id = 1;
  user_id = none;
  nickname = nickname;
  left_at = none;
  is_kicked = false;
}

abbrev pub earlier : AnswerSubmission
earlier = record {
  id = 50;
  match_id = 10;
  match_question_id = 21;
  participant_id = 41;
  selected_option_ids = 60 ∷ [];
  is_correct = true;
  score_awarded = 900;
  response_time_ms = 2000;
  request_id = "earlier";
}

abbrev pub db_in : RoomStatus → List AnswerSubmission → Db
db_in status submissions = record {
  rooms = room_in status ∷ [];
  matches = match_in status ∷ [];
  match_questions = first_question ∷ open_question ∷ [];
  quiz_sets = quiz ∷ [];
  questions = question 30 1 ∷ question 31 2 ∷ [];
  participants = player 40 "ann" ∷ player 41 "bob" ∷ [];
  submissions = submissions;
  final_scores = [];
  outbox = [];
  quiz_tags = [];
  quiz_set_tags = [];
  users = [];
  reports = [];
  audit_logs = [];
}

abbrev pub live_db : Db
live_db = db_in running (earlier ∷ [])

abbrev pub lobby_db : Db
lobby_db = record {
  rooms = room_in lobby ∷ [];
  matches = [];
  match_questions = [];
  quiz_sets = quiz ∷ [];
  questions = question 30 1 ∷ question 31 2 ∷ [];
  participants = player 40 "ann" ∷ player 41 "bob" ∷ [];
  submissions = [];
  final_scores = [];
  outbox = [];
  quiz_tags = [];
  quiz_set_tags = [];
  users = [];
  reports = [];
  audit_logs = [];
}

abbrev pub empty_redis : Redis
empty_redis = record {
  leaderboard = λ _ _. none;
  nicknames = λ _ _. none;
  answered = λ _ _. [];
  lb_version = λ _. 0;
  current_question = λ _. none;
  pause = λ _. none;
  idem = λ _. none;
  room_status = λ _. none;
}

abbrev pub close_timer : Task
close_timer = record { task_id = 5; timer = Timer.close_question 10 2; delay_us = 10000000 }

abbrev pub timed : MatchScheduler
timed = record {
  active = λ _. some close_timer;
  created = λ _. none;
  done = λ _. false;
  cancelled = λ _. false;
}

abbrev pub world_of : Db → World
world_of db = record { db = db; redis = empty_redis; scheduler = timed; sent = [] }

abbrev pub live_world : World
live_world = world_of live_db

abbrev pub fresh_world : World
fresh_world = world_of (db_in running [])

-- ann answers the open question five seconds after its start.
abbrev pub answer : Request
answer = record {
  match_id = 10;
  participant_id = 40;
  match_question_id = 21;
  selected_option_ids = 60 ∷ [];
  request_id = "answer";
  now = 19000000;
  submission_id = 51;
  event_id = 70;
}

-- bob repeats his answer.
abbrev pub repeated : Request
repeated = record {
  match_id = 10;
  participant_id = 41;
  match_question_id = 21;
  selected_option_ids = 60 ∷ [];
  request_id = "earlier";
  now = 19000000;
  submission_id = 52;
  event_id = 71;
}

-- A sorted set with no members that are listed.
abbrev pub no_entries : (ℕ → Option ℕ) → ℕ → List (ℕ × ℕ)
no_entries scores last = []
