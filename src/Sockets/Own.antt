-- ===== src/Sockets/Own.antt =====
-- A socket answers for the participant of its token, and for nobody else.
use mathlib.Core.Path.{subst}
use livequiz_platform.Prelude.{
  ℕ, ◌≡◌, refl, sym, ap, String, Bool, true, false, Option, none, some, not, List, [], ◌∷◌, str_eq,
  arith, if◌then◌else◌,
}
use livequiz_platform.Floats.{Floats}
use livequiz_platform.Errors.{Result, ok, err, require, validation_error, Leaves, Leaves-bind}
use livequiz_platform.Store.{AnswerSubmission, Db}
use livequiz_platform.Live.{World, Response}
use livequiz_platform.Live.Idempotency
use livequiz_platform.Match.Admission.{Request}
use livequiz_platform.Match.Submit.{
  Submitted, replayed, inserted, submit_tx, respond, submit_uncached, submit_answer,
}
use livequiz_platform.Match.Submit.Effect.{SubmitEffect, submit_tx_effect}
use livequiz_platform.Match.Submit.Totals.{db-update}
use livequiz_platform.RateLimit.{LuaNumbers}
use livequiz_platform.Sockets.{WebSocketConnection}
use livequiz_platform.Sockets.Messages.{
  ClientMessage, AnswerSubmitPayload, ServerMessage, heartbeat, answer_submit, host_question_next,
  host_match_pause, Validated, validation_failed, malformed, valid,
}
use livequiz_platform.Sockets.Dispatch.{
  SocketWorld, Arrival, answer_rate_check, request_of, reply_to_submission, submit_request,
  ws_submit_answer, dispatch_host, dispatch,
}
use livequiz_platform.Sockets.Receive.{receive, receive_loop, handle_validated, ws_rate_check}

-- The table after rows of one participant were added.
pub data Grows (participant_id : ℕ) (before : List AnswerSubmission)
    : List AnswerSubmission → Type 0 where
  same : Grows participant_id before before
  added :
      {after : List AnswerSubmission} (s : AnswerSubmission)
      → s.participant_id ≡ participant_id
      → Grows participant_id before after
      → Grows participant_id before (s ∷ after)

module _ (p : ℕ) where
  Grows-trans : {a b c : List AnswerSubmission} → Grows p a b → Grows p b c → Grows p a c
  Grows-trans g same = g
  Grows-trans g (added s e h) = added s e (Grows-trans g h)

  Grows-eq : {a b : List AnswerSubmission} → b ≡ a → Grows p a b
  Grows-eq {a} e = rw e same

abbrev GrowsAfter : ℕ → World → Response → World → Type 0
GrowsAfter p w response after = Grows p w.db.submissions after.db.submissions

module _ (zrevrange : (ℕ → Option ℕ) → ℕ → List (ℕ × ℕ)) where
  Grows-effect :
      (q : Request) (db db' : Db) (x : Submitted)
      → SubmitEffect q db x db'
      → Grows q.participant_id db.submissions db'.submissions
  Grows-effect q db db' (replayed s) (e, found) =
      Grows-eq q.participant_id (ap (λ (d : Db). d.submissions) e)
  Grows-effect q db db' (inserted s nickname question_id code) (a, v, for_q, free, e) =
      subst (Grows q.participant_id db.submissions) (sym (ap (λ (d : Db). d.submissions) e))
        (added s for_q.of_participant same)

  Grows-respond :
      (q : Request) (x : Submitted) (db : Db) (w : World)
      → Grows q.participant_id w.db.submissions db.submissions
      → Grows q.participant_id w.db.submissions
          (respond zrevrange q.request_id (x, db) w).1.db.submissions
  Grows-respond q (replayed s) db w g = g
  Grows-respond q (inserted s nickname question_id code) db w g =
      subst (λ (d : Db). Grows q.participant_id w.db.submissions d.submissions)
        (sym (db-update zrevrange s nickname question_id code (record w { db = db }))) g

  Grows-uncached :
      (fl : Floats) (q : Request) (cached : Option Response) (w : World)
      → Leaves (GrowsAfter q.participant_id w) (submit_uncached zrevrange fl q cached w)
  Grows-uncached fl q (some c) w = same
  Grows-uncached fl q none w =
      Leaves-bind (GrowsAfter q.participant_id w) (submit_tx fl q w.db) _ λ x e.
        Grows-respond q x.0 x.1 w (
          Grows-effect q w.db x.1 x.0
            (subst (Leaves (SubmitEffect q w.db)) e (submit_tx_effect fl q w.db)))

  Grows-submit_answer :
      (fl : Floats) (q : Request) (w : World)
      → Leaves (GrowsAfter q.participant_id w) (submit_answer zrevrange fl q w)
  unfolding submit_answer Idempotency.get
  Grows-submit_answer fl q w =
      Leaves-bind (GrowsAfter q.participant_id w)
        (require (not (str_eq q.request_id "")) validation_error 422) _
        λ _ _. Grows-uncached fl q (w.redis.idem q.request_id) w

module _ (n : LuaNumbers) (fl : Floats) (zrevrange : (ℕ → Option ℕ) → ℕ → List (ℕ × ℕ))
    (int_of : String → Option ℕ) where
  open n use {Number}

  -- What a step of a socket adds to the submissions.
  abbrev pub Adds : ℕ → SocketWorld Number → SocketWorld Number → Type 0
  Adds p w after = Grows p w.world.db.submissions after.world.db.submissions

  Adds-if :
      (p : ℕ) (w : SocketWorld Number) (b : Bool) (t f : List ServerMessage × SocketWorld Number)
      → Adds p w t.1
      → Adds p w f.1
      → Adds p w (if b then t else f).1
  Adds-if p w true t f ht hf = ht
  Adds-if p w false t f ht hf = hf

  Adds-reply :
      (p : ℕ) (message_id : String) (w : SocketWorld Number) (r : Result (Response × World))
      → Leaves (GrowsAfter p w.world) r
      → Adds p w (reply_to_submission message_id w r).1
  Adds-reply p message_id w (err e) g = same
  Adds-reply p message_id w (ok (response, after)) g = g

  -- The request of an answer is the participant's own.
  request_of-own :
      (at : Arrival) (p : ℕ) (message_id : String) (payload : AnswerSubmitPayload) (q : Request)
      → request_of int_of at p message_id payload ≡ some q
      → q.participant_id ≡ p
  request_of-own at p message_id payload q e = ground arith

  Adds-submit_request :
      (p : ℕ) (message_id : String) (w : SocketWorld Number) (r : Option Request)
      → ((q : Request) → r ≡ some q → q.participant_id ≡ p)
      → Adds p w (submit_request n fl zrevrange int_of message_id w r).1
  Adds-submit_request p message_id w none own = same
  Adds-submit_request p message_id w (some q) own =
      Adds-reply p message_id w (submit_answer zrevrange fl q w.world) (
        subst (λ (x : ℕ). Leaves (GrowsAfter x w.world) (submit_answer zrevrange fl q w.world))
          (own q refl) (Grows-submit_answer zrevrange fl q w.world))

  Adds-ws_submit_answer :
      (at : Arrival) (p : ℕ) (message_id : String) (payload : AnswerSubmitPayload)
      (w : SocketWorld Number)
      → Adds p w (ws_submit_answer n fl zrevrange int_of at p message_id payload w).1
  unfolding ws_submit_answer
  Adds-ws_submit_answer at p message_id payload w =
      Adds-if p w w.match_runtime _ _
        (Adds-submit_request p message_id w (request_of int_of at p message_id payload)
          (request_of-own at p message_id payload))
        same

  world-dispatch_host :
      (at : Arrival) (conn : WebSocketConnection) (w : SocketWorld Number)
      → (dispatch_host n fl zrevrange int_of at conn w).1.world ≡ w.world
  unfolding dispatch_host
  world-dispatch_host at conn w = ground arith

  Adds-dispatch :
      (at : Arrival) (conn : WebSocketConnection) (message : ClientMessage) (w : SocketWorld Number)
      → Adds conn.participant_id w (dispatch n fl zrevrange int_of at conn message w).1
  unfolding dispatch
  Adds-dispatch at conn (heartbeat message_id event_id) w = same
  Adds-dispatch at conn (answer_submit message_id payload) w =
      let (passed, counted) =
        answer_rate_check at.now conn.participant_id payload.match_question_id w in
      Adds-if conn.participant_id w passed _ _
        (Adds-ws_submit_answer at conn.participant_id message_id payload counted) same
  Adds-dispatch at conn (host_question_next message_id position) w =
      rw (world-dispatch_host at conn w) same
  Adds-dispatch at conn (host_match_pause message_id reason) w =
      rw (world-dispatch_host at conn w) same

  module _ (validate_json : String → Validated) where
    Adds-validated :
        (at : Arrival) (conn : WebSocketConnection) (v : Validated) (w : SocketWorld Number)
        → Adds conn.participant_id w
            (handle_validated n fl zrevrange int_of validate_json at conn v w).1
    Adds-validated at conn validation_failed w = same
    Adds-validated at conn malformed w = same
    Adds-validated at conn (valid message) w = Adds-dispatch at conn message w

    Adds-receive :
        (at : Arrival) (conn : WebSocketConnection) (raw : String) (w : SocketWorld Number)
        → Adds conn.participant_id w (receive n fl zrevrange int_of validate_json at conn raw w).1
    unfolding receive
    Adds-receive at conn raw w =
        let (answer, counted) =
          ws_rate_check n fl zrevrange int_of validate_json at.now conn.conn_id w in
        Adds-if conn.participant_id w answer.allowed _ _
          (Adds-validated at conn (validate_json raw) counted) same

    pub Adds-receive_loop :
        (conn : WebSocketConnection) (received : List (Arrival × String)) (w : SocketWorld Number)
        → Adds conn.participant_id w
            (receive_loop n fl zrevrange int_of validate_json conn received w).2
    unfolding receive_loop
    Adds-receive_loop conn [] w = same
    Adds-receive_loop conn ((at, raw) ∷ received) w =
        let seen = record conn { last_seen = at.now } in
        Grows-trans conn.participant_id (Adds-receive at seen raw w) (
          Adds-receive_loop seen received
            (receive n fl zrevrange int_of validate_json at seen raw w).1)
