-- ===== src/Sockets/Dispatch.antt =====
-- What a message on a socket does: `_dispatch`, `_answer_rate_check`, `_host_rate_check` and
-- `_ws_submit_answer` of backend/app/ws/router.py. Times are microseconds, and the clocks of Redis
-- and of the server agree. Python's `int` of a text is the parameter `int_of`, none where it raises;
-- the texts of negative numbers, which no id has, are left out.
use livequiz_platform.Prelude.{
  ℕ, ◌+◌, ◌*◌, ◌/◌, String, Bool, ◌&&◌, Option, none, some, List, [], ◌∷◌, ltb, leb, str_eq, ◌==◌,
  if◌then◌else◌,
}
use livequiz_platform.Prelude.Optional
use livequiz_platform.Floats.{Floats}
use livequiz_platform.Errors.{
  Result, ok, err, ErrorCode, validation_error, forbidden, rate_limited, internal_error,
  not_implemented,
}
use livequiz_platform.Live.{World, Response, update}
use livequiz_platform.Match.Admission.{Request}
use livequiz_platform.Match.Submit.{submit_answer}
use livequiz_platform.RateLimit.{LuaNumbers, Bucket, Acquired, acquire}
use livequiz_platform.Sockets.{WebSocketConnection}
use livequiz_platform.Sockets.Messages.{
  ClientMessage, heartbeat, answer_submit, host_question_next, host_match_pause,
  AnswerSubmitPayload, ServerMessage, heartbeat_ack, answer_accepted, error,
}

abbrev pub answer_rate_limit : ℕ
answer_rate_limit = 5

abbrev pub answer_rate_ttl_s : ℕ
answer_rate_ttl_s = 600

abbrev pub host_rate_capacity : ℕ
host_rate_capacity = 60

abbrev pub host_rate_refill : ℕ
host_rate_refill = 1

abbrev pub us_per_s : ℕ
us_per_s = 1000000

-- A key of INCR and EXPIRE: its value, and when it expires.
pub record Counter : Type 0 where
  pub value : ℕ
  pub expires : ℕ

-- The state of a replica and of Redis that the messages on a socket change: the tables and the live
-- state, the keys `rate:ws:answer:{participant}:{question}`, `rate:host:{participant}` and
-- `rate:ws:{conn}`. `match_runtime` tells whether the server has set it up.
pub record SocketWorld (Number : Type 0) : Type 0 where
  pub world : World
  pub match_runtime : Bool
  pub attempts : ℕ → String → Option Counter
  pub host_buckets : ℕ → Option (Bucket Number)
  pub conn_buckets : String → Option (Bucket Number)

-- When a message arrives, and the ids that its submission would get.
pub record Arrival : Type 0 where
  pub now : ℕ
  pub submission_id : ℕ
  pub event_id : ℕ

-- `INCR`, and `EXPIRE` of a key that it made.
abbrev pub incr_expire : (now : ℕ) → Option Counter → Counter
incr_expire now none = record { value = 1; expires = now + answer_rate_ttl_s * us_per_s }
incr_expire now (some c) =
    if ltb now c.expires
    then record c { value = c.value + 1 }
    else record { value = 1; expires = now + answer_rate_ttl_s * us_per_s }

abbrev pub update_attempts :
    (ℕ → String → Option Counter) → ℕ → String → Counter → ℕ → String → Option Counter
update_attempts f participant_id question counter p t =
    if participant_id == p && str_eq question t then some counter else f p t

-- `_answer_rate_check`
abbrev pub answer_rate_check :
    {Number : Type 0}
    → (now participant_id : ℕ) → (match_question_id : String) → SocketWorld Number
    → Bool × SocketWorld Number
answer_rate_check now participant_id match_question_id w =
    let counter = incr_expire now (w.attempts participant_id match_question_id) in
    (
      leb counter.value answer_rate_limit,
      record w { attempts = update_attempts w.attempts participant_id match_question_id counter },
    )

abbrev pub error_of : Option String → ErrorCode → List ServerMessage
error_of message_id code = error message_id (record { code = code; retry_after_ms = none }) ∷ []

-- The refusal of a token bucket.
abbrev pub limited : Acquired → List ServerMessage
limited answer =
    error none (record { code = rate_limited; retry_after_ms = some answer.retry_after_ms }) ∷ []

-- The comprehension `[int(x) for x in texts]`.
abbrev pub ints : (String → Option ℕ) → List String → Option (List ℕ)
ints int_of [] = some []
ints int_of (text ∷ texts) = elim (int_of text) [
  | none ↦ none
  | some x ↦ elim (ints int_of texts) [ none ↦ none | some xs ↦ some (x ∷ xs) ]
]

-- The request of an answer on the socket of a participant, if its ids are numbers.
abbrev pub request_of :
    (String → Option ℕ)
    → Arrival
    → (participant_id : ℕ) → (message_id : String) → AnswerSubmitPayload
    → Option Request
request_of int_of at participant_id message_id payload =
    Optional.◌>>=◌ (int_of payload.match_id) λ match_id.
      Optional.◌>>=◌ (int_of payload.match_question_id) λ match_question_id.
        Optional.◌>>=◌ (ints int_of payload.selected_option_ids) λ selected_ids. some (record {
          match_id = match_id;
          participant_id = participant_id;
          match_question_id = match_question_id;
          selected_option_ids = selected_ids;
          request_id = message_id;
          now = at.now;
          submission_id = at.submission_id;
          event_id = at.event_id;
        })

abbrev pub reply_to_submission :
    {Number : Type 0}
    → String
    → SocketWorld Number
    → Result (Response × World)
    → List ServerMessage × SocketWorld Number
reply_to_submission message_id w (err e) = (error_of (some message_id) e.code, w)
reply_to_submission message_id w (ok (response, after)) = (
  answer_accepted (some message_id) (record {
    submission_id = response.submission_id;
    accepted = response.accepted;
    score_awarded = response.score_awarded;
    response_time_ms = response.response_time_ms;
  })
      ∷ [],
  record w { world = after },
)

module _ (n : LuaNumbers) (fl : Floats) (zrevrange : (ℕ → Option ℕ) → ℕ → List (ℕ × ℕ))
    (int_of : String → Option ℕ) where
  open n use {Number, of_int}

  abbrev pub submit_request :
      (message_id : String)
      → SocketWorld Number
      → Option Request
      → List ServerMessage × SocketWorld Number
  submit_request message_id w none = (error_of (some message_id) validation_error, w)
  submit_request message_id w (some request) =
      reply_to_submission message_id w (submit_answer zrevrange fl request w.world)

  unfoldable pub ws_submit_answer :
      Arrival
      → (participant_id : ℕ) → (message_id : String) → AnswerSubmitPayload
      → SocketWorld Number
      → List ServerMessage × SocketWorld Number
  ws_submit_answer at participant_id message_id payload w =
      if w.match_runtime
      then submit_request message_id w (request_of int_of at participant_id message_id payload)
      else (error_of (some message_id) internal_error, w)

  -- `_host_rate_check`
  abbrev pub host_rate_check :
      (now participant_id : ℕ) → SocketWorld Number → Acquired × SocketWorld Number
  host_rate_check now participant_id w =
      let (answer, bucket) =
        acquire n host_rate_capacity (of_int host_rate_refill) 1 (now / 1000) (now / 1000)
          (w.host_buckets participant_id) in
      (answer, record w { host_buckets = update w.host_buckets participant_id (some bucket) })

  -- A message of the host's: a hint that the server does not act on.
  unfoldable pub dispatch_host :
      Arrival → WebSocketConnection → SocketWorld Number → List ServerMessage × SocketWorld Number
  dispatch_host at conn w =
      let (answer, counted) = host_rate_check at.now conn.participant_id w in
      if conn.is_host
      then (if answer.allowed then error_of none not_implemented else limited answer, counted)
      else (error_of none forbidden, w)

  unfoldable pub dispatch :
      Arrival
      → WebSocketConnection
      → ClientMessage
      → SocketWorld Number
      → List ServerMessage × SocketWorld Number
  unfolding ws_submit_answer dispatch_host
  dispatch at conn (heartbeat message_id last_seen_event_id) w =
      (heartbeat_ack message_id at.now last_seen_event_id ∷ [], w)
  dispatch at conn (answer_submit message_id payload) w =
      let (passed, counted) =
        answer_rate_check at.now conn.participant_id payload.match_question_id w in
      if passed
      then ws_submit_answer at conn.participant_id message_id payload counted
      else (error_of none rate_limited, counted)
  dispatch at conn (host_question_next message_id position) w = dispatch_host at conn w
  dispatch at conn (host_match_pause message_id reason) w = dispatch_host at conn w
