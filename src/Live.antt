-- ===== src/Live.antt =====
-- The state outside the tables: what the code keeps in Redis (backend/app/cache), the timers of
-- `MatchScheduler`, and the messages that it has broadcast. A key that is not set is `none`; the
-- JSON of a value is the value. A command of Redis is one atomic step.
pub mod Scheduler
pub mod Leaderboard
pub mod Idempotency
use livequiz_platform.Prelude.{
  ℕ, String, Bool, Option, List, [], ◌∷◌, ◌++◌, str_eq, ◌==◌, if◌then◌else◌,
}
use livequiz_platform.Store.{RoomStatus, QuestionType, Db}
use Scheduler.{MatchScheduler}

-- The dictionary that `submit_answer` returns and stores under the request id.
pub record Response : Type 0 where
  pub submission_id : ℕ
  pub accepted : Bool
  pub is_correct : Bool
  pub score_awarded : ℕ
  pub response_time_ms : ℕ
  pub leaderboard_rank : Option ℕ

-- `match:{id}:pause`
pub record PauseState : Type 0 where
  pub position : Option ℕ
  pub remaining_ms : ℕ

-- The row of the live leaderboard that clients see.
pub record Entry : Type 0 where
  pub rank : ℕ
  pub participant_id : ℕ
  pub nickname : String
  pub score : ℕ

-- `match:{id}:current_question`: options without their `is_correct`.
pub record QuestionPayload : Type 0 where
  pub match_question_id : ℕ
  pub position : ℕ
  pub body : String
  pub question_type : QuestionType
  pub options : List (ℕ × String)
  pub started_at : ℕ
  pub deadline_at : ℕ

pub data Message : Type 0 where
  match_started : (match_id question_count : ℕ) → Message
  question_started : QuestionPayload → Message
  question_closed :
      (match_question_id : ℕ) → List ℕ → Option String → (answered correct : ℕ) → Message
  leaderboard_updated : (version : ℕ) → List Entry → Message
  match_finished : ℕ → Message

-- Sorted sets, sets, hashes and strings, by the numbers and texts in their keys.
pub record Redis : Type 0 where
  pub leaderboard : ℕ → ℕ → Option ℕ
  pub nicknames : ℕ → ℕ → Option String
  pub answered : ℕ → ℕ → List ℕ
  pub lb_version : ℕ → ℕ
  pub current_question : ℕ → Option QuestionPayload
  pub pause : ℕ → Option PauseState
  pub idem : String → Option Response
  pub room_status : String → Option RoomStatus

pub record World : Type 0 where
  pub db : Db
  pub redis : Redis
  pub scheduler : MatchScheduler
  pub sent : List (String × Message)

abbrev pub update {ℓ} : {A : Type ℓ} → (ℕ → A) → ℕ → A → ℕ → A
update f k a j = if k == j then a else f j

abbrev pub update_text {ℓ} : {A : Type ℓ} → (String → A) → String → A → String → A
update_text f k a j = if str_eq k j then a else f j

-- `_broadcast`: best effort, so that it never fails for its caller.
abbrev pub broadcast : String → Message → World → World
broadcast room_code message w = record w { sent = w.sent ++ (room_code, message) ∷ [] }
