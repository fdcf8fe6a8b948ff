-- ===== src/Sockets/Attempts.antt =====
-- How often an answer for a question gets past the sockets.
use mathlib.Core.Path.{subst}
use livequiz_platform.Prelude.{
  ℕ, ◌+◌, ◌*◌, ◌≤◌, ◌<◌, ◌≡◌, refl, String, Bool, false, ◌&&◌, Option, none, some, List, [], ◌∷◌,
  All, ltb, leb, str_eq, eq_iff, ◌==◌, if◌then◌else◌, arith, Bool-cases, inl, inr,
}
use livequiz_platform.Floats.{Floats}
use livequiz_platform.Errors.{Result, ok, err, rate_limited}
use livequiz_platform.Live.{World, Response}
use livequiz_platform.Match.Admission.{Request}
use livequiz_platform.Match.Submit.{submit_answer}
use livequiz_platform.RateLimit.{LuaNumbers}
use livequiz_platform.Sockets.{WebSocketConnection}
use livequiz_platform.Sockets.Messages.{
  ClientMessage, heartbeat, answer_submit, host_question_next, host_match_pause,
  AnswerSubmitPayload, ServerMessage,
}
use livequiz_platform.Sockets.Dispatch.{
  answer_rate_limit, answer_rate_ttl_s, us_per_s, Counter, SocketWorld, Arrival, incr_expire,
  answer_rate_check, error_of, request_of, reply_to_submission, submit_request, ws_submit_answer,
  dispatch_host, dispatch,
}

-- A message that arrives on a connection.
pub record Sent : Type 0 where
  pub at : Arrival
  pub conn : WebSocketConnection
  pub message : ClientMessage

-- Whether a message is an answer of a participant for a question, by the text of its id.
abbrev pub is_answer_for : ℕ → String → WebSocketConnection → ClientMessage → Bool
is_answer_for participant_id question conn (answer_submit message_id payload) =
    conn.participant_id == participant_id && str_eq payload.match_question_id question
is_answer_for participant_id question conn (heartbeat message_id event_id) = false
is_answer_for participant_id question conn (host_question_next message_id position) = false
is_answer_for participant_id question conn (host_match_pause message_id reason) = false

abbrev pub answers_for : ℕ → String → List Sent → ℕ
answers_for participant_id question [] = 0
answers_for participant_id question (s ∷ sent) =
    (if is_answer_for participant_id question s.conn s.message then 1 else 0)
    + answers_for participant_id question sent

-- Within the ten minutes from a time on.
abbrev pub Within : (start now : ℕ) → Type 0
Within start now = (start ≤ now) × (now < start + answer_rate_ttl_s * us_per_s)

-- A key that was counted up since a time.
abbrev Tally : (start : ℕ) → ℕ → Option Counter → Type 0
Tally start count none = count ≡ 0
Tally start count (some c) = (c.value ≡ count) × (start + answer_rate_ttl_s * us_per_s ≤ c.expires)

incr_expire-Tally :
    (start now count : ℕ) (o : Option Counter)
    → Within start now
    → Tally start count o
    → Tally start (count + 1) (some (incr_expire now o))
incr_expire-Tally start now count none w t = ground arith
incr_expire-Tally start now count (some c) w t = ground arith

Tally-zero :
    (start count : ℕ) (o : Option Counter) → Tally start count o → Tally start (count + 0) o
Tally-zero start count none t = omega arith
Tally-zero start count (some c) t = omega arith

passes :
    (before value : ℕ)
    → value ≡ before + 0 + 1
    → leb value answer_rate_limit ≡ ltb before answer_rate_limit
passes before value e = ground arith

regroup : (rest count one : ℕ) → rest + (count + one) ≡ one + rest + count
regroup rest count one = omega arith

Tally-check :
    {Number : Type 0} (start participant_id : ℕ) (question : String) (now own : ℕ) (text : String)
    (w : SocketWorld Number) (count : ℕ)
    → Within start now
    → Tally start count (w.attempts participant_id question)
    → Tally start
        (count + (if own == participant_id && str_eq text question then 1 else 0))
        ((answer_rate_check now own text w).1.attempts participant_id question)
Tally-check start participant_id question now own text w count i t =
    elim (Bool-cases (own == participant_id && str_eq text question)) [
      | inl mine ↦
          (let who : own ≡ participant_id = ground arith in
            let what : text ≡ question = ground (arith, eq_iff text question) in
            rw (mine, who, what)
              (incr_expire-Tally start now count (w.attempts participant_id question) i t))
      | inr other ↦ rw other (Tally-zero start count (w.attempts participant_id question) t)
    ]

module _ (n : LuaNumbers) (fl : Floats) (zrevrange : (ℕ → Option ℕ) → ℕ → List (ℕ × ℕ))
    (int_of : String → Option ℕ) where
  open n use {Number}

  attempts-reply :
      (message_id : String) (w : SocketWorld Number) (r : Result (Response × World))
      → (reply_to_submission message_id w r).1.attempts ≡ w.attempts
  attempts-reply message_id w (err e) = refl
  attempts-reply message_id w (ok (response, after)) = refl

  attempts-submit_request :
      (message_id : String) (w : SocketWorld Number) (r : Option Request)
      → (submit_request n fl zrevrange int_of message_id w r).1.attempts ≡ w.attempts
  attempts-submit_request message_id w none = refl
  attempts-submit_request message_id w (some r) =
      attempts-reply message_id w (submit_answer zrevrange fl r w.world)

  attempts-ws_submit_answer :
      (at : Arrival) (participant_id : ℕ) (message_id : String) (payload : AnswerSubmitPayload)
      (w : SocketWorld Number)
      → (ws_submit_answer n fl zrevrange int_of at participant_id message_id payload w).1.attempts
        ≡ w.attempts
  unfolding ws_submit_answer
  attempts-ws_submit_answer at participant_id message_id payload w = ground (
    arith,
    attempts-submit_request message_id w (request_of int_of at participant_id message_id payload),
  )

  attempts-dispatch_host :
      (at : Arrival) (conn : WebSocketConnection) (w : SocketWorld Number)
      → (dispatch_host n fl zrevrange int_of at conn w).1.attempts ≡ w.attempts
  unfolding dispatch_host
  attempts-dispatch_host at conn w = ground arith

  attempts-answer :
      (at : Arrival) (conn : WebSocketConnection) (message_id : String)
      (payload : AnswerSubmitPayload) (w : SocketWorld Number)
      → (dispatch n fl zrevrange int_of at conn (answer_submit message_id payload) w).1.attempts
        ≡ (answer_rate_check at.now conn.participant_id payload.match_question_id w).1.attempts
  unfolding dispatch
  attempts-answer at conn message_id payload w = ground (
    arith,
    attempts-ws_submit_answer at conn.participant_id message_id payload
        (answer_rate_check at.now conn.participant_id payload.match_question_id w).1,
  )

  -- The state after messages that arrive one after another.
  abbrev pub run_dispatch : List Sent → SocketWorld Number → SocketWorld Number
  run_dispatch [] w = w
  run_dispatch (s ∷ sent) w =
      run_dispatch sent (dispatch n fl zrevrange int_of s.at s.conn s.message w).1

  module _ (start participant_id : ℕ) (question : String) where
    dispatch-Tally :
        (at : Arrival) (conn : WebSocketConnection) (message : ClientMessage)
        (w : SocketWorld Number) (count : ℕ)
        → Within start at.now
        → Tally start count (w.attempts participant_id question)
        → Tally start
            (count + (if is_answer_for participant_id question conn message then 1 else 0))
            ((dispatch n fl zrevrange int_of at conn message w).1.attempts participant_id question)
    unfolding dispatch
    dispatch-Tally at conn (heartbeat message_id event_id) w count i t = Tally-zero start count _ t
    dispatch-Tally at conn (answer_submit message_id payload) w count i t =
        let same : (dispatch n fl zrevrange int_of at conn (answer_submit message_id payload)
              w).1.attempts
            ≡ (answer_rate_check at.now conn.participant_id payload.match_question_id
                w).1.attempts =
          attempts-answer at conn message_id payload w in
        rw same (
          Tally-check start participant_id question at.now conn.participant_id
            payload.match_question_id w count i t)
    dispatch-Tally at conn (host_question_next message_id position) w count i t =
        rw (attempts-dispatch_host at conn w) (Tally-zero start count _ t)
    dispatch-Tally at conn (host_match_pause message_id reason) w count i t =
        rw (attempts-dispatch_host at conn w) (Tally-zero start count _ t)

    run_dispatch-Tally :
        (sent : List Sent) (w : SocketWorld Number) (count : ℕ)
        → All (λ (s : Sent). Within start s.at.now) sent
        → Tally start count (w.attempts participant_id question)
        → Tally start
            (answers_for participant_id question sent + count)
            ((run_dispatch sent w).attempts participant_id question)
    run_dispatch-Tally [] w count i t =
        subst (λ (c : ℕ). Tally start c (w.attempts participant_id question)) (omega arith) t
    run_dispatch-Tally (s ∷ sent) w count i t =
        let one : ℕ = if is_answer_for participant_id question s.conn s.message then 1 else 0 in
        let rest : ℕ = answers_for participant_id question sent in
        let w' = (dispatch n fl zrevrange int_of s.at s.conn s.message w).1 in
        subst (λ (c : ℕ). Tally start c ((run_dispatch sent w').attempts participant_id question))
          (regroup rest count one)
          (run_dispatch-Tally sent w' (count + one) i.1
            (dispatch-Tally s.at s.conn s.message w count i.0 t))

  -- What comes of an answer after a number of others.
  abbrev pub handled_below :
      (limit before : ℕ)
      → Arrival
      → WebSocketConnection
      → String
      → AnswerSubmitPayload
      → SocketWorld Number
      → List ServerMessage × SocketWorld Number
  handled_below limit before at conn message_id payload w =
      let counted = (answer_rate_check at.now conn.participant_id payload.match_question_id w).1 in
      if ltb before limit
      then ws_submit_answer n fl zrevrange int_of at conn.participant_id message_id payload counted
      else (error_of none rate_limited, counted)

  -- On a key that is not set, in ten minutes: an answer on a connection is handled exactly when less
  -- than five answers of its participant for the same text of a question's id came before, on any of
  -- the connections and among any messages; else it is refused with RATE_LIMITED, and nothing but
  -- the count is changed.
  pub dispatch-answers_for :
      (start : ℕ) (sent : List Sent) (at : Arrival) (conn : WebSocketConnection)
      (message_id : String) (payload : AnswerSubmitPayload) (w : SocketWorld Number)
      → w.attempts conn.participant_id payload.match_question_id ≡ none
      → All (λ (s : Sent). Within start s.at.now) sent
      → Within start at.now
      → dispatch n fl zrevrange int_of at conn
          (answer_submit message_id payload)
          (run_dispatch sent w)
        ≡ handled_below answer_rate_limit
            (answers_for conn.participant_id payload.match_question_id sent)
            at
            conn
            message_id
            payload
            (run_dispatch sent w)
  unfolding dispatch
  dispatch-answers_for start sent at conn message_id payload w fresh i here =
      let w' = run_dispatch sent w in
      let p = conn.participant_id in
      let q = payload.match_question_id in
      let counted = run_dispatch-Tally start p q sent w 0 i (rw fresh refl) in
      let value =
        (incr_expire-Tally start at.now (answers_for p q sent + 0) (w'.attempts p q) here
          counted).0 in
      let below : leb (incr_expire at.now (w'.attempts p q)).value answer_rate_limit
          ≡ ltb (answers_for p q sent) answer_rate_limit =
        passes (answers_for p q sent) _ value in
      rw below refl
