-- ===== src/Match/Admission.antt =====
-- The request of `submit_answer` and its checks, steps 2 to 4.
pub mod Sound
use livequiz_platform.Prelude.{
  ℕ, ◌+◌, ◌*◌, String, not, ◌&&◌, Option, none, some, List, find, is_none, leb, ◌==◌,
}
use livequiz_platform.Errors.{
  Result, ok, ◌>>=◌, ◌>>◌, require, or_raise, validation_error, room_not_found, forbidden,
  question_closed,
}
use livequiz_platform.Store.{Match, MatchQuestion, RoomParticipant, Db, is_running}
use livequiz_platform.Match.Queries.{
  deadline_grace_ms, us_per_ms, match_by_id, match_question_by_id,
}

-- What the caller sends, with the ids that the generator gives and the time of the server.
pub record Request : Type 0 where
  pub match_id : ℕ
  pub participant_id : ℕ
  pub match_question_id : ℕ
  pub selected_option_ids : List ℕ
  pub request_id : String
  pub now : ℕ
  pub submission_id : ℕ
  pub event_id : ℕ

-- `mq.deadline_at is None or mq.started_at is None`, and else the two times.
abbrev pub armed_times : MatchQuestion → Option (ℕ × ℕ)
armed_times mq = elim mq.started_at [
  | none ↦ none
  | some started ↦ elim mq.deadline_at [ none ↦ none | some deadline ↦ some (started, deadline) ]
]

-- What the checks of steps 2 to 4 find.
pub record Admitted : Type 0 where
  pub mq : MatchQuestion
  pub match : Match
  pub participant : RoomParticipant
  pub started : ℕ
  pub deadline : ℕ

abbrev pub find_participant : ℕ → ℕ → Db → Option RoomParticipant
find_participant participant_id room_id db =
    find (λ (p : RoomParticipant). p.id == participant_id && p.room_id == room_id) db.participants

-- Steps 2 to 4: the question of this match, the status, the deadline with its grace, and the
-- participant.
unfoldable pub admit : Request → Db → Result Admitted
admit q db = do
  mq ← or_raise (match_question_by_id q.match_question_id db) validation_error 422
  require (mq.match_id == q.match_id) validation_error 422
  match ← or_raise (match_by_id q.match_id db) room_not_found 404
  require (is_running match.status) question_closed 409
  require (is_none mq.closed_at) question_closed 409
  (started, deadline) ← or_raise (armed_times mq) question_closed 409
  require (leb q.now (deadline + deadline_grace_ms * us_per_ms)) question_closed 409
  participant ← or_raise (find_participant q.participant_id match.room_id db) forbidden 403
  require (not participant.is_kicked) forbidden 403
  ok (record {
    mq = mq;
    match = match;
    participant = participant;
    started = started;
    deadline = deadline;
  })
