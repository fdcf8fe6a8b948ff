-- ===== src/Match/Queries.antt =====
-- The queries that the operations of a match share, over the tables.
use livequiz_platform.Prelude.{
  ℕ, ◌-◌, String, Bool, ◌&&◌, Option, none, some, List, [], ◌∷◌, is_some, is_none, find, select,
  ltb, leb, str_eq, ◌==◌, if◌then◌else◌,
}
use livequiz_platform.Prelude.Sort.{sort}
use livequiz_platform.Floats.{Floats}
use livequiz_platform.Store.{Room, Match, MatchQuestion, AnswerOption, Question, Db, Payload}

abbrev pub default_inter_question_seconds : ℕ
default_inter_question_seconds = 3

abbrev pub deadline_grace_ms : ℕ
deadline_grace_ms = 200

abbrev pub us_per_ms : ℕ
us_per_ms = 1000

abbrev pub us_per_second : ℕ
us_per_second = 1000000

abbrev pub room_by_code : String → Db → Option Room
room_by_code code db = find (λ (r : Room). str_eq r.code code) db.rooms

abbrev pub room_by_id : ℕ → Db → Option Room
room_by_id room_id db = find (λ (r : Room). r.id == room_id) db.rooms

abbrev pub match_by_id : ℕ → Db → Option Match
match_by_id match_id db = find (λ (m : Match). m.id == match_id) db.matches

-- `MatchRepo.get_by_room_id`
abbrev pub match_by_room_id : ℕ → Db → Option Match
match_by_room_id room_id db = find (λ (m : Match). m.room_id == room_id) db.matches

abbrev pub is_at : ℕ → ℕ → MatchQuestion → Bool
is_at match_id position q = q.match_id == match_id && q.position == position

abbrev pub match_question_at : ℕ → ℕ → Db → Option MatchQuestion
match_question_at match_id position db = find (is_at match_id position) db.match_questions

abbrev pub match_question_by_id : ℕ → Db → Option MatchQuestion
match_question_by_id mq_id db = find (λ (q : MatchQuestion). q.id == mq_id) db.match_questions

abbrev pub question_by_id : ℕ → Db → Option Question
question_by_id question_id db = find (λ (q : Question). q.id == question_id) db.questions

-- The options of a question by position; none if the question is gone.
abbrev pub options_by_position : Option Question → List AnswerOption
options_by_position none = []
options_by_position (some q) = sort (λ (a b : AnswerOption). leb a.position b.position) q.options

-- `started_at IS NOT NULL AND closed_at IS NULL`, the highest position first, one row.
abbrev pub last_by_position : List MatchQuestion → Option MatchQuestion
last_by_position [] = none
last_by_position (q ∷ qs) = elim (last_by_position qs) [
  | none ↦ some q
  | some r ↦ if ltb q.position r.position then some r else some q
]

abbrev pub first_by_position : List MatchQuestion → Option MatchQuestion
first_by_position [] = none
first_by_position (q ∷ qs) = elim (first_by_position qs) [
  | none ↦ some q
  | some r ↦ if ltb r.position q.position then some r else some q
]

abbrev pub is_open : ℕ → MatchQuestion → Bool
is_open match_id q = q.match_id == match_id && is_some q.started_at && is_none q.closed_at

abbrev pub is_unstarted : ℕ → MatchQuestion → Bool
is_unstarted match_id q = q.match_id == match_id && is_none q.started_at

abbrev pub active_question : ℕ → Db → Option MatchQuestion
active_question match_id db = last_by_position (select (is_open match_id) db.match_questions)

abbrev pub next_unstarted : ℕ → Db → Option MatchQuestion
next_unstarted match_id db = first_by_position (select (is_unstarted match_id) db.match_questions)

-- `int(td.total_seconds() * 1000)` of the span from one time to another, and 0 for a negative one:
-- the code takes the maximum with 0, or tests for `<= 0`.
abbrev pub elapsed_ms : Floats → ℕ → ℕ → ℕ
elapsed_ms fl since until = fl.trunc (fl.mul (fl.total_seconds (until - since)) (fl.of_int 1000))

-- `register_event` of outbox_service.py: one row in the caller's transaction.
abbrev pub register_event : ℕ → String → String → ℕ → Payload → ℕ → Db → Db
register_event event_id event_type aggregate_type aggregate_id payload occurred_at db = record db {
  outbox =
      record {
        id = event_id;
        aggregate_type = aggregate_type;
        aggregate_id = aggregate_id;
        event_type = event_type;
        payload = payload;
        occurred_at = occurred_at;
        published_at = none;
        publish_attempts = 0;
      }
      ∷ db.outbox;
}
