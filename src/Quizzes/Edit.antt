-- ===== src/Quizzes/Edit.antt =====
-- The questions of a quiz as its owner edits them: `add_question`, `update_question` and
-- `delete_question` of services/quiz_service.py. Each is one transaction. The ids that the
-- generator gives to the rows are arguments; an IntegrityError is answered with a 500.
use livequiz_platform.Prelude.{
  ℕ, ◌+◌, String, Bool, false, not, ◌||◌, Option, none, some, List, [], ◌∷◌, ◌++◌, any, find,
  select, update_where, leb, ◌==◌, if◌then◌else◌,
}
use livequiz_platform.Prelude.Sort.{sort}
use livequiz_platform.Errors.{
  Result, ok, ◌>>=◌, ◌>>◌, require, or_raise, validation_error, forbidden, internal_error,
}
use livequiz_platform.Store.{Question, QuestionType, AnswerOption, QuizSet, MatchQuestion, Db}
use livequiz_platform.Quizzes.Positions.{
  same_position, max_question_position, shift_question_positions, renumber_after_delete,
  is_question, move_question_to,
}

pub record QuestionCreate : Type 0 where
  pub id : ℕ
  pub position : Option ℕ
  pub body : String
  pub question_type : QuestionType
  pub time_limit_seconds : ℕ
  pub points : ℕ
  pub explanation : Option String
  pub options : List AnswerOption

pub record QuestionUpdate : Type 0 where
  pub position : Option ℕ
  pub body : Option String
  pub question_type : Option QuestionType
  pub time_limit_seconds : Option ℕ
  pub points : Option ℕ
  pub explanation : Option String
  pub options : Option (List AnswerOption)

abbrev pub or_keep {ℓ} : {A : Type ℓ} → Option A → A → A
or_keep none old = old
or_keep (some new) old = new

abbrev pub or_keep_some : Option String → Option String → Option String
or_keep_some none old = old
or_keep_some (some new) old = some new

abbrev pub quiz_set_by_id : ℕ → Db → Option QuizSet
quiz_set_by_id id db = find (λ (s : QuizSet). s.id == id) db.quiz_sets

-- `_load_owned_quiz`
abbrev pub load_owned_quiz : (owner quiz_set_id : ℕ) → Db → Result QuizSet
load_owned_quiz owner quiz_set_id db = do
  qs ← or_raise (quiz_set_by_id quiz_set_id db) validation_error 404
  require (qs.owner_id == owner) forbidden 403
  ok qs

-- The position of a new question, and the table with that slot open.
unfoldable pub open_slot : (quiz_set_id : ℕ) → Option ℕ → List Question → Option (ℕ × List Question)
open_slot quiz_set_id none rows = some (max_question_position quiz_set_id rows + 1, rows)
open_slot quiz_set_id (some p) rows =
    if leb p (max_question_position quiz_set_id rows)
    then elim (shift_question_positions quiz_set_id p 1 rows) [
      | none ↦ none
      | some shifted ↦ some (p, shifted)
    ]
    else some (p, rows)

-- The primary key and `ux_questions_quiz_position`.
abbrev pub question_collides : Question → Question → Bool
question_collides a b = a.id == b.id || same_position a b

abbrev pub insert_question : Question → List Question → Option (List Question)
insert_question q rows = if any (question_collides q) rows then none else some (q ∷ rows)

-- The primary key and `ux_answer_options_question_position`, within one question.
abbrev pub option_collides : AnswerOption → AnswerOption → Bool
option_collides a b = a.id == b.id || a.position == b.position

-- `add_option`, for each option.
unfoldable pub add_options : List AnswerOption → List AnswerOption → Option (List AnswerOption)
add_options [] present = some present
add_options (o ∷ options) present =
    let rest = add_options options (present ++ (o ∷ [])) in
    if any (option_collides o) present then none else rest

abbrev pub new_question : QuestionCreate → (quiz_set_id position : ℕ) → List AnswerOption → Question
new_question p quiz_set_id position options = record {
  id = p.id;
  quiz_set_id = quiz_set_id;
  position = position;
  body = p.body;
  question_type = p.question_type;
  time_limit_seconds = p.time_limit_seconds;
  points = p.points;
  explanation = p.explanation;
  options = options;
}

-- `get_question_with_options`: the options come by position.
abbrev pub with_options : Question → Question
with_options q = record q {
  options = sort (λ (a b : AnswerOption). leb a.position b.position) q.options;
}

unfoldable pub add_question : (owner quiz_set_id : ℕ) → QuestionCreate → Db → Result (Question × Db)
unfolding open_slot add_options
add_question owner quiz_set_id p db = do
  _ ← load_owned_quiz owner quiz_set_id db
  (position, rows) ← or_raise (open_slot quiz_set_id p.position db.questions) internal_error 500
  _ ← or_raise (insert_question (new_question p quiz_set_id position []) rows) internal_error 500
  options ← or_raise (add_options p.options []) internal_error 500
  let question = new_question p quiz_set_id position options
  ok (with_options question, record db { questions = question ∷ rows })

-- `parent is None or parent.owner_id != owner.id`
abbrev pub owns : ℕ → Option QuizSet → Bool
owns owner none = false
owns owner (some parent) = parent.owner_id == owner

-- The fields that the payload sets.
abbrev pub edited : QuestionUpdate → Question → Question
edited p q = record q {
  body = or_keep p.body q.body;
  question_type = or_keep p.question_type q.question_type;
  time_limit_seconds = or_keep p.time_limit_seconds q.time_limit_seconds;
  points = or_keep p.points q.points;
  explanation = or_keep_some p.explanation q.explanation;
}

abbrev pub reposition : Option ℕ → Question → List Question → Option (List Question)
reposition none question rows = some rows
reposition (some p) question rows =
    if p == question.position then some rows else move_question_to question p rows

-- `replace_options`, when the payload has options.
unfoldable pub replace_options :
    Option (List AnswerOption) → ℕ → List Question → Option (List Question)
unfolding add_options
replace_options none id rows = some rows
replace_options (some options) id rows = elim (add_options options []) [
  | none ↦ none
  | some added ↦
      some (update_where (is_question id) (λ (q : Question). record q { options = added }) rows)
]

unfoldable pub update_question :
    (owner question_id : ℕ) → QuestionUpdate → Db → Result (Question × Db)
unfolding replace_options
update_question owner question_id p db = do
  question ← or_raise (find (is_question question_id) db.questions) validation_error 404
  require (owns owner (quiz_set_by_id question.quiz_set_id db)) forbidden 403
  let fields = update_where (is_question question_id) (edited p) db.questions
  moved ← or_raise (reposition p.position (edited p question) fields) internal_error 500
  rows ← or_raise (replace_options p.options question_id moved) internal_error 500
  hydrated ← or_raise (find (is_question question_id) rows) internal_error 500
  ok (with_options hydrated, record db { questions = rows })

-- A question that a match has asked is held by the foreign key of `match_questions`.
abbrev pub asks : ℕ → MatchQuestion → Bool
asks question_id mq = mq.question_id == question_id

unfoldable pub delete_question : (owner question_id : ℕ) → Db → Result (Unit {0} × Db)
delete_question owner question_id db = do
  question ← or_raise (find (is_question question_id) db.questions) validation_error 404
  require (owns owner (quiz_set_by_id question.quiz_set_id db)) forbidden 403
  require (not (any (asks question_id) db.match_questions)) internal_error 500
  let left = select (λ (q : Question). not (is_question question_id q)) db.questions
  rows ←
      or_raise (renumber_after_delete question.quiz_set_id question.position left) internal_error
        500
  ok (tt, record db { questions = rows })
