-- ===== src/Store.antt =====
-- The rows of the relational store (backend/app/db/models) and the tables of one database. Ids and
-- positions are numbers, times are microseconds since the Unix epoch, texts are texts. A question
-- holds its answer options; the questions of a quiz set are the rows that name it.

use livequiz_platform.Prelude.{ℕ, String, Bool, true, false, Option, List}

pub data RoomStatus : Type 0 where
  lobby running paused completed cancelled : RoomStatus

abbrev pub is_lobby : RoomStatus → Bool
is_lobby lobby = true
is_lobby _ = false

abbrev pub is_running : RoomStatus → Bool
is_running running = true
is_running _ = false

abbrev pub is_paused : RoomStatus → Bool
is_paused paused = true
is_paused _ = false

abbrev pub is_completed : RoomStatus → Bool
is_completed completed = true
is_completed _ = false

pub data QuestionType : Type 0 where
  single_choice multiple_choice true_false : QuestionType

pub data QuizVisibility : Type 0 where
  private_quiz unlisted public_quiz : QuizVisibility

-- `settings` is the JSON object of the column, of which the code reads text values.
pub record Room : Type 0 where
  pub id : ℕ
  pub code : String
  pub host_id : ℕ
  pub quiz_set_id : ℕ
  pub status : RoomStatus
  pub max_players : ℕ
  pub settings : List (String × String)
  pub started_at : Option ℕ
  pub ended_at : Option ℕ

pub record Match : Type 0 where
  pub id : ℕ
  pub room_id : ℕ
  pub quiz_set_version : ℕ
  pub status : RoomStatus
  pub started_at : ℕ
  pub ended_at : Option ℕ

pub record MatchQuestion : Type 0 where
  pub id : ℕ
  pub match_id : ℕ
  pub question_id : ℕ
  pub position : ℕ
  pub started_at : Option ℕ
  pub deadline_at : Option ℕ
  pub closed_at : Option ℕ

pub record AnswerOption : Type 0 where
  pub id : ℕ
  pub position : ℕ
  pub body : String
  pub is_correct : Bool

pub record Question : Type 0 where
  pub id : ℕ
  pub quiz_set_id : ℕ
  pub position : ℕ
  pub body : String
  pub question_type : QuestionType
  pub time_limit_seconds : ℕ
  pub points : ℕ
  pub explanation : Option String
  pub options : List AnswerOption

pub record QuizSet : Type 0 where
  pub id : ℕ
  pub owner_id : ℕ
  pub title : String
  pub description : Option String
  pub visibility : QuizVisibility
  pub is_published : Bool
  pub version : ℕ

pub record RoomParticipant : Type 0 where
  pub id : ℕ
  pub room_id : ℕ
  pub user_id : Option ℕ
  pub nickname : String
  pub left_at : Option ℕ
  pub is_kicked : Bool

pub record AnswerSubmission : Type 0 where
  pub id : ℕ
  pub match_id : ℕ
  pub match_question_id : ℕ
  pub participant_id : ℕ
  pub selected_option_ids : List ℕ
  pub is_correct : Bool
  pub score_awarded : ℕ
  pub response_time_ms : ℕ
  pub request_id : String

pub record FinalScore : Type 0 where
  pub match_id : ℕ
  pub participant_id : ℕ
  pub total_score : ℕ
  pub correct_count : ℕ
  pub average_response_ms : Option ℕ
  pub rank : ℕ

pub record QuizTag : Type 0 where
  pub id : ℕ
  pub name : String

pub data UserRole : Type 0 where
  player_role host_role moderator_role admin_role : UserRole

pub record User : Type 0 where
  pub id : ℕ
  pub email : String
  pub password_hash : String
  pub display_name : String
  pub role : UserRole
  pub is_active : Bool

pub data ModerationStatus : Type 0 where
  pending dismissed action_taken : ModerationStatus

abbrev pub is_pending : ModerationStatus → Bool
is_pending pending = true
is_pending _ = false

-- The field that a flag was raised on: the labels `quiz.title`, `question.{p}.body` and so on.
pub data Context : Type 0 where
  nickname_field quiz_title quiz_description : Context
  question_body : (position : ℕ) → Context
  option_body : (question_position position : ℕ) → Context

-- The text of a report's details: what a reporter wrote, or the JSON of an automatic flag.
pub data ReportDetails : Type 0 where
  no_details : ReportDetails
  written : (text : String) → ReportDetails
  flagged : Context → (matched source : String) → (details : List (String × String)) → ReportDetails

pub record ModerationReport : Type 0 where
  pub id : ℕ
  pub reporter_user_id : Option ℕ
  pub room_id : Option ℕ
  pub target_user_id : Option ℕ
  pub target_quiz_set_id : Option ℕ
  pub reason : String
  pub details : ReportDetails
  pub status : ModerationStatus
  pub reviewed_by : Option ℕ
  pub reviewed_at : Option ℕ

-- What an audited action changed: of a decision the `affected` dictionary, without the decision and
-- its reason, and of a registration the email.
pub data Affected : Type 0 where
  nothing : Affected
  hidden : (quiz_set_id version : ℕ) → Affected
  muted : (participants : List (String × ℕ)) → Affected
  banned : (user_id : ℕ) → Affected
  registered : (email : String) → Affected

pub record AuditLog : Type 0 where
  pub id : ℕ
  pub actor_user_id : Option ℕ
  pub action : String
  pub entity_type : String
  pub entity_id : Option ℕ
  pub reason : Option String
  pub affected : Affected

-- The payloads of the domain events, by event type.
pub data Payload : Type 0 where
  match_started :
      (match_id room_id quiz_set_id quiz_set_version question_count started_at : ℕ)
      → (code : String) → Payload
  question_started :
      (match_id match_question_id question_id position time_limit_seconds started_at
        deadline_at : ℕ)
      → Payload
  question_closed :
      (match_id match_question_id question_id position closed_at : ℕ) → List ℕ → Payload
  match_finished : (match_id room_id ended_at : ℕ) → List FinalScore → Payload
  answer_submitted : (room_id question_id submitted_at : ℕ) → AnswerSubmission → Payload
  player_joined : (room_id participant_id : ℕ) → String → Option ℕ → Payload
  room_created :
      (room_id host_id quiz_set_id max_players : ℕ)
      → (code : String) → (settings : List (String × String)) → Payload
  quiz_published : (quiz_set_id version owner_id : ℕ) → (title : String) → Payload
  content_flagged :
      (report_id : ℕ)
      → (reason : String) → Context
      → (matched source : String) → (target_user_id target_quiz_set_id room_id : Option ℕ) → Payload
  content_reported :
      (report_id : ℕ)
      → (reporter_user_id room_id target_user_id target_quiz_set_id : Option ℕ) → (reason : String)
      → Payload
  moderation_decision_made :
      (report_id : ℕ)
      → (decision : String) → (reason : Option String) → (moderator_user_id : ℕ) → ModerationStatus
      → Affected
      → Payload

pub record OutboxEvent : Type 0 where
  pub id : ℕ
  pub aggregate_type : String
  pub aggregate_id : ℕ
  pub event_type : String
  pub payload : Payload
  pub occurred_at : ℕ
  pub published_at : Option ℕ
  pub publish_attempts : ℕ

pub record Db : Type 0 where
  pub rooms : List Room
  pub matches : List Match
  pub match_questions : List MatchQuestion
  pub quiz_sets : List QuizSet
  pub questions : List Question
  pub participants : List RoomParticipant
  pub submissions : List AnswerSubmission
  pub final_scores : List FinalScore
  pub outbox : List OutboxEvent
  pub quiz_tags : List QuizTag
  pub quiz_set_tags : List (ℕ × ℕ)
  pub users : List User
  pub reports : List ModerationReport
  pub audit_logs : List AuditLog
