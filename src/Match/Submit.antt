-- ===== src/Match/Submit.antt =====
-- `submit_answer`: the insert with its unique constraints, the transaction, and the steps after the
-- commit.
pub mod Once
pub mod Effect
pub mod Retry
pub mod Totals
pub mod Faults
pub mod Behind
pub mod Healthy
use livequiz_platform.Prelude.{
  ℕ, ◌+◌, String, Bool, true, not, ◌&&◌, ◌||◌, Option, none, some, List, [], ◌∷◌, find, any, str_eq,
  ◌==◌, if◌then◌else◌,
}
use livequiz_platform.Floats.{Floats}
use livequiz_platform.Errors.{
  Result, ok, ◌>>=◌, ◌>>◌, require, or_raise, validation_error, answer_already_submitted,
}
use livequiz_platform.Store.{Room, AnswerSubmission, Db, Payload}
use livequiz_platform.Live.{World, Response, Entry, Message, broadcast, update}
use livequiz_platform.Live.Leaderboard.{zadd_total, mark_answered, set_nicknames, top}
use livequiz_platform.Live.Idempotency
use livequiz_platform.Match.Queries.{room_by_id, question_by_id, register_event}
use livequiz_platform.Match.Admission.{Request, Admitted, admit}
use livequiz_platform.Match.Grading.{grade, award, options_of}

-- The unique constraints of answer_submissions: the primary key, one row for a question and a
-- participant, one row for a request id.
abbrev pub collides : AnswerSubmission → AnswerSubmission → Bool
collides s t =
    t.id == s.id
    || (t.match_question_id == s.match_question_id && t.participant_id == s.participant_id
        || str_eq t.request_id s.request_id)

-- Step 7: the insert inside a savepoint; `none` is the IntegrityError, which undoes it alone.
unfoldable pub insert_submission :
    AnswerSubmission → List AnswerSubmission → Option (List AnswerSubmission)
insert_submission s subs = if any (collides s) subs then none else some (s ∷ subs)

abbrev pub by_request : String → AnswerSubmission → Bool
by_request request_id s = str_eq s.request_id request_id

abbrev pub by_pair : ℕ → ℕ → AnswerSubmission → Bool
by_pair mq_id participant_id s = s.match_question_id == mq_id && s.participant_id == participant_id

abbrev pub or_else {ℓ} : {A : Type ℓ} → Option A → Option A → Option A
or_else none o = o
or_else (some a) o = some a

abbrev pub replay_response : AnswerSubmission → Response
replay_response s = record {
  submission_id = s.id;
  accepted = true;
  is_correct = s.is_correct;
  score_awarded = s.score_awarded;
  response_time_ms = s.response_time_ms;
  leaderboard_rank = none;
}

-- The collision path: the row of the same request, else the row of the same participant.
unfoldable pub existing_submission :
    ℕ → ℕ → String → List AnswerSubmission → Result AnswerSubmission
existing_submission mq_id participant_id request_id subs =
    or_raise
      (or_else (find (by_request request_id) subs) (find (by_pair mq_id participant_id) subs))
      answer_already_submitted 409

-- What the transaction hands to the steps after it: the row found, or the new one with the
-- participant's nickname, the question and the room's code.
pub data Submitted : Type 0 where
  replayed : AnswerSubmission → Submitted
  inserted : AnswerSubmission → (nickname : String) → (question_id : ℕ) → Option String → Submitted

abbrev pub code_of : Option Room → Option String
code_of none = none
code_of (some room) = some room.code

-- Step 8 and the end of the transaction, by how the insert went.
abbrev pub settle :
    Request
    → Admitted
    → AnswerSubmission
    → Option (List AnswerSubmission)
    → Db
    → Result (Submitted × Db)
settle q a s none db = do
  existing ← existing_submission a.mq.id q.participant_id q.request_id db.submissions
  ok (replayed existing, db)
settle q a s (some rows) db = ok (
  inserted s a.participant.nickname a.mq.question_id (code_of (room_by_id a.match.room_id db)),
  register_event q.event_id "AnswerSubmitted" "answer" s.id
      (Payload.answer_submitted a.match.room_id a.mq.question_id q.now s) q.now
      (record db { submissions = rows }),
)

unfoldable pub new_submission : Floats → Request → Admitted → List ℕ → Bool → Db → AnswerSubmission
unfolding award
new_submission fl q a ids is_correct db =
    let (response_time_ms, score_awarded) = award fl q a is_correct db in
    record {
      id = q.submission_id;
      match_id = q.match_id;
      match_question_id = a.mq.id;
      participant_id = q.participant_id;
      selected_option_ids = ids;
      is_correct = is_correct;
      score_awarded = score_awarded;
      response_time_ms = response_time_ms;
      request_id = q.request_id;
    }

-- The transaction of `submit_answer`.
unfoldable pub submit_tx : Floats → Request → Db → Result (Submitted × Db)
unfolding insert_submission existing_submission
submit_tx fl q db = do
  a ← admit q db
  (ids, is_correct) ← grade q.selected_option_ids (options_of (question_by_id a.mq.question_id db))
  let s = new_submission fl q a ids is_correct db
  settle q a s (insert_submission s db.submissions) db

abbrev pub rank_in : ℕ → List Entry → Option ℕ
rank_in participant_id [] = none
rank_in participant_id (e ∷ es) =
    if e.participant_id == participant_id then some e.rank else rank_in participant_id es

abbrev pub broadcast_to : Option String → Message → World → World
broadcast_to none m w = w
broadcast_to (some code) m w = broadcast code m w

abbrev pub accepted_response : AnswerSubmission → Option ℕ → Response
accepted_response s rank = record {
  submission_id = s.id;
  accepted = true;
  is_correct = s.is_correct;
  score_awarded = s.score_awarded;
  response_time_ms = s.response_time_ms;
  leaderboard_rank = rank;
}

abbrev pub remember : String → Response → World → World
remember request_id response w = record w {
  redis = (Idempotency.set request_id response w.redis).0;
}

module _ (zrevrange : (ℕ → Option ℕ) → ℕ → List (ℕ × ℕ)) where
  -- The hooks after the commit of a new submission: the total, the answered set, the nickname, the
  -- version and the broadcast.
  unfoldable pub update_leaderboard :
      AnswerSubmission → String → ℕ → Option String → World → Option ℕ × World
  unfolding zadd_total mark_answered set_nicknames top
  update_leaderboard s nickname question_id room_code w =
      let scored = zadd_total s.match_id s.participant_id s.score_awarded w.redis in
      let answered = mark_answered s.match_id question_id s.participant_id scored in
      let named = set_nicknames s.match_id ((s.participant_id, nickname) ∷ []) answered in
      let top10 = top zrevrange s.match_id 10 named in
      let version = named.lb_version s.match_id + 1 in
      let counted = record named { lb_version = update named.lb_version s.match_id version } in
      (
        rank_in s.participant_id top10,
        broadcast_to room_code (Message.leaderboard_updated version top10)
            (record w { redis = counted }),
      )

  -- The steps after the commit. The response is stored under the request id.
  abbrev pub respond : String → Submitted × Db → World → Response × World
  respond request_id (replayed s, db) w =
      (replay_response s, remember request_id (replay_response s) (record w { db = db }))
  respond request_id (inserted s nickname question_id room_code, db) w =
      let (rank, w') = update_leaderboard s nickname question_id room_code (record w { db = db }) in
      (accepted_response s rank, remember request_id (accepted_response s rank) w')

  abbrev pub submit_uncached :
      Floats → Request → Option Response → World → Result (Response × World)
  submit_uncached fl q (some cached) w = ok (cached, w)
  submit_uncached fl q none w = do r ← submit_tx fl q w.db; ok (respond q.request_id r w)

  -- `submit_answer` as a whole.
  unfoldable pub submit_answer : Floats → Request → World → Result (Response × World)
  submit_answer fl q w = do
    require (not (str_eq q.request_id "")) validation_error 422
    submit_uncached fl q (Idempotency.get q.request_id w.redis) w
