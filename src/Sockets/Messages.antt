-- ===== src/Sockets/Messages.antt =====
-- What a client and the server send each other on a socket: backend/app/ws/messages.py.
use livequiz_platform.Prelude.{ℕ, String, Bool, Option, List}
use livequiz_platform.Errors.{ErrorCode}

-- The payload of `answer.submit`. Its ids are texts.
pub record AnswerSubmitPayload : Type 0 where
  pub match_id : String
  pub match_question_id : String
  pub selected_option_ids : List String
  pub client_sent_at : Option String

pub data ClientMessage : Type 0 where
  heartbeat : (message_id last_seen_event_id : Option String) → ClientMessage
  answer_submit : (message_id : String) → AnswerSubmitPayload → ClientMessage
  host_question_next :
      (message_id : Option String) → (expected_current_position : ℕ) → ClientMessage
  host_match_pause : (message_id reason : Option String) → ClientMessage

-- What the adapter makes of a raw text: the two errors that the receive loop catches, or a message.
pub data Validated : Type 0 where
  validation_failed malformed : Validated
  valid : ClientMessage → Validated

-- The payload of `error`; its text for the reader is left out.
pub record ErrorPayload : Type 0 where
  pub code : ErrorCode
  pub retry_after_ms : Option ℕ

pub record AnswerAcceptedPayload : Type 0 where
  pub submission_id : ℕ
  pub accepted : Bool
  pub score_awarded : ℕ
  pub response_time_ms : ℕ

-- What the server answers on the socket of the client alone. `server_now` is the time.
pub data ServerMessage : Type 0 where
  heartbeat_ack :
      (message_id : Option String)
      → (server_now : ℕ) → (last_seen_event_id : Option String) → ServerMessage
  answer_accepted : (message_id : Option String) → AnswerAcceptedPayload → ServerMessage
  error : (message_id : Option String) → ErrorPayload → ServerMessage
