-- ===== src/Match/Submit/Faults.antt =====
-- `submit_answer` when a command of Redis raises. The hooks after the commit catch no exception but
-- that of the broadcast, so the call ends there; the rows are committed by then.
use livequiz_platform.Prelude.{
  ℕ, ◌+◌, String, Bool, true, false, Option, none, some, List, [], ◌∷◌, str_eq, if◌then◌else◌,
}
use livequiz_platform.Floats.{Floats}
use livequiz_platform.Errors.{AuthError, auth_error, Result, ok, err, validation_error}
use livequiz_platform.Store.{AnswerSubmission, Db}
use livequiz_platform.Live.{Redis, Response, Entry, Message, World, update}
use livequiz_platform.Live.Leaderboard.{zadd_total, mark_answered, set_nicknames, top}
use livequiz_platform.Live.Idempotency
use livequiz_platform.Match.Admission.{Request}
use livequiz_platform.Match.Submit.{
  Submitted, replayed, inserted, submit_tx, replay_response, accepted_response, rank_in,
  broadcast_to,
}

-- The commands, in the order in which the code gives them.
pub data Command : Type 0 where
  get_cached : Command
  zadd : Command
  sadd_answered : Command
  hset_nickname : Command
  read_top : Command
  incr_version : Command
  set_cached : Command

-- The command that raises, and whether Redis had carried it out before the connection was lost.
pub record Fault : Type 0 where
  pub command : Command
  pub applied : Bool

pub data SubmitOutcome : Type 0 where
  answered : Response → SubmitOutcome
  raised : AuthError → SubmitOutcome
  redis_error : SubmitOutcome

abbrev pub same_command : Command → Command → Bool
same_command get_cached get_cached = true
same_command zadd zadd = true
same_command sadd_answered sadd_answered = true
same_command hset_nickname hset_nickname = true
same_command read_top read_top = true
same_command incr_version incr_version = true
same_command set_cached set_cached = true
same_command _ _ = false

abbrev pub raises : Option Fault → Command → Bool
raises none command = false
raises (some fault) command = same_command fault.command command

abbrev pub took_effect : Option Fault → Bool
took_effect none = true
took_effect (some fault) = fault.applied

abbrev pub with_redis : (Redis → Redis) → World → World
with_redis f w = record w { redis = f w.redis }

-- A command with its effect, and what the code does next.
abbrev pub command_then :
    Option Fault
    → Command
    → (Redis → Redis)
    → (World → SubmitOutcome × World)
    → World
    → SubmitOutcome × World
command_then fault command effect next w =
    if raises fault command
    then (redis_error, (if took_effect fault then with_redis effect w else w))
    else next (with_redis effect w)

abbrev pub set_response : String → Response → Redis → Redis
set_response request_id response r = (Idempotency.set request_id response r).0

abbrev pub answer_with : Response → World → SubmitOutcome × World
answer_with response w = (answered response, w)

abbrev pub remember_then : Option Fault → String → Response → World → SubmitOutcome × World
remember_then fault request_id response w =
    command_then fault set_cached (set_response request_id response) (answer_with response) w

abbrev pub set_version : ℕ → ℕ → Redis → Redis
set_version match_id version r = record r { lb_version = update r.lb_version match_id version }

abbrev pub same_redis : Redis → Redis
same_redis r = r

module _ (zrevrange : (ℕ → Option ℕ) → ℕ → List (ℕ × ℕ)) (fault : Option Fault)
    (s : AnswerSubmission) (nickname : String) (question_id : ℕ) (room_code : Option String)
    (request_id : String) where
  abbrev pub finish : List Entry → ℕ → World → SubmitOutcome × World
  finish top10 version w =
      remember_then fault request_id (accepted_response s (rank_in s.participant_id top10))
        (broadcast_to room_code (Message.leaderboard_updated version top10) w)

  unfoldable pub announce : World → SubmitOutcome × World
  unfolding top
  announce w =
      let top10 = top zrevrange s.match_id 10 w.redis in
      let version = w.redis.lb_version s.match_id + 1 in
      command_then fault incr_version (set_version s.match_id version) (finish top10 version) w

  unfoldable pub read_then : World → SubmitOutcome × World
  unfolding announce
  read_then w = command_then fault read_top same_redis announce w

  unfoldable pub name_then : World → SubmitOutcome × World
  unfolding read_then set_nicknames
  name_then w =
      command_then fault hset_nickname
        (set_nicknames s.match_id ((s.participant_id, nickname) ∷ [])) read_then w

  unfoldable pub mark_then : World → SubmitOutcome × World
  unfolding name_then mark_answered
  mark_then w =
      command_then fault sadd_answered (mark_answered s.match_id question_id s.participant_id)
        name_then w

  -- The hooks after the commit of a new submission, with the response under the request id.
  unfoldable pub hooks : World → SubmitOutcome × World
  unfolding mark_then zadd_total
  hooks w =
      command_then fault zadd (zadd_total s.match_id s.participant_id s.score_awarded) mark_then w

module _ (zrevrange : (ℕ → Option ℕ) → ℕ → List (ℕ × ℕ)) (fault : Option Fault) where
  abbrev pub respond_then : String → World → Result (Submitted × Db) → SubmitOutcome × World
  respond_then request_id w (err e) = (raised e, w)
  respond_then request_id w (ok (replayed s, db)) =
      remember_then fault request_id (replay_response s) (record w { db = db })
  respond_then request_id w (ok (inserted s nickname question_id room_code, db)) =
      hooks zrevrange fault s nickname question_id room_code request_id (record w { db = db })

  abbrev pub submit_cached_or : Floats → Request → Option Response → World → SubmitOutcome × World
  submit_cached_or fl q (some cached) w = (answered cached, w)
  submit_cached_or fl q none w = respond_then q.request_id w (submit_tx fl q w.db)

  unfoldable pub submit_or_cached : Floats → Request → World → SubmitOutcome × World
  unfolding hooks Idempotency.get
  submit_or_cached fl q w = submit_cached_or fl q (Idempotency.get q.request_id w.redis) w

  -- `submit_answer` with this fault, if any.
  unfoldable pub submit_answer_faulty : Floats → Request → World → SubmitOutcome × World
  unfolding submit_or_cached
  submit_answer_faulty fl q w =
      if str_eq q.request_id ""
      then (raised (auth_error validation_error 422), w)
      else command_then fault get_cached same_redis (submit_or_cached fl q) w
