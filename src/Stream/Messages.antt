-- ===== src/Stream/Messages.antt =====
-- The messages of the stream worker: `_dispatch` and `_handle_message` of
-- workers/stream_worker/app/main.py, the handlers, and the claim of app/dedupe.py. The fields of a
-- payload are what `_opt_int` and the conversions of the handlers give.
use livequiz_platform.Prelude.{
  ℕ, String, Bool, true, false, not, ◌||◌, Option, none, some, List, [], ◌∷◌, any, str_eq, ◌==◌,
  if◌then◌else◌,
}
use livequiz_platform.Stream.{ClickHouseClient, flush_all, insert_many}

pub record AnswerFields : Type 0 where
  pub match_id : Option ℕ
  pub room_id : Option ℕ
  pub participant_id : Option ℕ
  pub question_id : Option ℕ
  pub is_correct : Bool
  pub score_awarded : ℕ
  pub response_time_ms : ℕ

pub record Envelope : Type 0 where
  pub event_id : ℕ
  pub event_type : String
  pub aggregate_type : String
  pub aggregate_id : ℕ
  pub occurred_at : ℕ
  pub producer : String
  pub schema_version : ℕ
  pub payload : AnswerFields

-- A row of `events_raw`, with the columns of an envelope, and a row of `answer_events`.
pub data Row : Type 0 where
  raw_row : Envelope → Row
  answer_row :
      (event_id match_id room_id participant_id question_id : ℕ)
      → (is_correct : Bool) → (score_awarded response_time_ms occurred_at : ℕ) → Row

abbrev pub events_raw_table : String
events_raw_table = "livequiz.events_raw"

abbrev pub answer_events_table : String
answer_events_table = "livequiz.answer_events"

abbrev pub current_schema_version : ℕ
current_schema_version = 1

abbrev pub fact_row :
    Envelope → (match_id room_id participant_id question_id : Option ℕ) → Option Row
fact_row env (some m) (some r) (some p) (some q) = some (
    answer_row env.event_id m r p q env.payload.is_correct env.payload.score_awarded
      env.payload.response_time_ms env.occurred_at)
fact_row env _ _ _ _ = none

-- The fact row of an answer, when the payload has its four keys.
abbrev pub fact_of : Envelope → Option Row
fact_of env =
    let p = env.payload in fact_row env p.match_id p.room_id p.participant_id p.question_id

-- `MATCH_EVENT_TYPES`
abbrev pub is_match_event : String → Bool
is_match_event t =
    str_eq t "MatchStarted"
    || (str_eq t "QuestionStarted" || (str_eq t "QuestionClosed" || str_eq t "MatchFinished"))

-- The consumer's state: the client of ClickHouse and the keys `seen:event:{id}`, within their time
-- to live.
pub record Worker : Type 0 where
  pub ch : ClickHouseClient Row
  pub seen : List ℕ

-- What a call leaves when the one before it raised, and what the next one does when it did not.
abbrev pub and_then :
    Bool × ClickHouseClient Row
    → (ClickHouseClient Row → Bool × ClickHouseClient Row)
    → Bool × ClickHouseClient Row
and_then (false, c) next = (false, c)
and_then (true, c) next = next c

module _ (accepts : String → List Row → Bool) (batch_rows now : ℕ) where
  -- `handle` of rooms and of moderation, and of what no handler is for.
  unfoldable pub handle_raw : Envelope → ClickHouseClient Row → Bool × ClickHouseClient Row
  unfolding insert_many
  handle_raw env c = insert_many accepts batch_rows now events_raw_table (raw_row env ∷ []) c

  abbrev pub insert_fact : Option Row → ClickHouseClient Row → Bool × ClickHouseClient Row
  insert_fact none c = (true, c)
  insert_fact (some row) c = insert_many accepts batch_rows now answer_events_table (row ∷ []) c

  -- `handle` of answers.
  unfoldable pub handle_answer : Envelope → ClickHouseClient Row → Bool × ClickHouseClient Row
  unfolding handle_raw insert_many
  handle_answer env c = and_then (handle_raw env c) (insert_fact (fact_of env))

  abbrev pub warm_cache : Envelope → ClickHouseClient Row → Bool × ClickHouseClient Row
  warm_cache env c =
      if str_eq env.event_type "MatchFinished"
      then (true, (flush_all accepts now c).1)
      else (true, c)

  -- `handle` of matches: the snapshot of a finished match flushes every buffer, and an exception
  -- of it is logged. Its queries and the cache that it warms are left out.
  unfoldable pub handle_match : Envelope → ClickHouseClient Row → Bool × ClickHouseClient Row
  unfolding handle_raw flush_all
  handle_match env c = and_then (handle_raw env c) (warm_cache env)

  unfoldable pub dispatch : Envelope → ClickHouseClient Row → Bool × ClickHouseClient Row
  unfolding handle_raw handle_answer handle_match
  dispatch env c =
      if is_match_event env.event_type
      then handle_match env c
      else if str_eq env.event_type "AnswerSubmitted"
      then handle_answer env c
      else handle_raw env c

  -- The first time an event is seen: its key is set, and then it is dispatched.
  abbrev pub handle_first : Envelope → Worker → Bool × Worker
  handle_first env w =
      let r = dispatch env w.ch in (r.0, record { ch = r.1; seen = env.event_id ∷ w.seen })

  abbrev pub is_seen : ℕ → Worker → Bool
  is_seen id w = any (λ n. n == id) w.seen

  -- `_handle_message`, of a value that `parse_envelope` reads or not (`none`): whether the offset
  -- may be committed. `redis_up` is whether the claim gets an answer.
  unfoldable pub handle_message : (redis_up : Bool) → Option Envelope → Worker → Bool × Worker
  unfolding dispatch
  handle_message redis_up none w = (true, w)
  handle_message redis_up (some env) w =
      if not (env.schema_version == current_schema_version)
      then (true, w)
      else if not redis_up
      then (false, w)
      else if is_seen env.event_id w
      then (true, w)
      else handle_first env w
