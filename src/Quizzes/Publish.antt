-- ===== src/Quizzes/Publish.antt =====
-- Publishing a quiz: `validate_publish` and `publish_quiz_set` of services/quiz_service.py.
use livequiz_platform.Prelude.{
  ℕ, ◌+◌, String, Bool, true, false, not, ◌&&◌, Option, none, some, List, [], ◌∷◌, ◌++◌, map,
  length, select, update_where, ltb, leb, ◌==◌,
}
use livequiz_platform.Prelude.Sort.{sort}
use livequiz_platform.Errors.{
  Result, ok, ◌>>=◌, ◌>>◌, require, or_raise, validation_error, forbidden,
}
use livequiz_platform.Store.{
  QuizSet, Question, QuestionType, single_choice, multiple_choice, true_false, AnswerOption,
  Payload, Db,
}
use livequiz_platform.Match.Queries.{register_event}
use livequiz_platform.Match.Start.{questions_of}
use livequiz_platform.Moderation.{Policy, auto_flag_on_publish}
use livequiz_platform.Quizzes.Edit.{quiz_set_by_id, with_options}
use livequiz_platform.Quizzes.Catalog.{is_set}

pub data IssueCode : Type 0 where
  empty_quiz insufficient_options expected_one_correct : IssueCode
  expected_some_not_all_correct wrong_tf_option_count : IssueCode

-- An issue names the question that it is with, if it is with one.
pub record Issue : Type 0 where
  pub question_id : Option ℕ
  pub code : IssueCode

abbrev pub correct_options : Question → List AnswerOption
correct_options q = select (λ (o : AnswerOption). o.is_correct) q.options

abbrev pub issue_if : Bool → Question → IssueCode → List Issue
issue_if true q code = record { question_id = some q.id; code = code } ∷ []
issue_if false q code = []

abbrev pub question_issues : QuestionType → Question → List Issue
question_issues single_choice q =
    issue_if (ltb (length q.options) 2) q insufficient_options
    ++ issue_if (not (length (correct_options q) == 1)) q expected_one_correct
question_issues multiple_choice q =
    issue_if (ltb (length q.options) 2) q insufficient_options
    ++ issue_if
        (not (
          leb 1 (length (correct_options q))
          && ltb (length (correct_options q)) (length q.options)))
        q expected_some_not_all_correct
question_issues true_false q =
    issue_if (not (length q.options == 2)) q wrong_tf_option_count
    ++ issue_if (not (length (correct_options q) == 1)) q expected_one_correct

abbrev pub issues_of : List Question → List Issue
issues_of [] = []
issues_of (q ∷ questions) = question_issues q.question_type q ++ issues_of questions

unfoldable pub validate_publish : List Question → List Issue
validate_publish [] = record { question_id = none; code = empty_quiz } ∷ []
validate_publish (q ∷ questions) = issues_of (q ∷ questions)

-- The questions of a quiz and their options, each by position.
abbrev pub loaded_questions : ℕ → Db → List Question
loaded_questions quiz_set_id db =
    map with_options
      (sort (λ (a b : Question). leb a.position b.position) (questions_of quiz_set_id db))

abbrev pub is_empty : List Issue → Bool
is_empty [] = true
is_empty (i ∷ issues) = false

abbrev pub as_published : QuizSet → QuizSet
as_published quiz = record quiz { is_published = true; version = quiz.version + 1 }

-- The published quiz and its event.
abbrev pub record_publish : (event_id now owner quiz_set_id : ℕ) → QuizSet → Db → Db
record_publish event_id now owner quiz_set_id quiz db =
    register_event event_id "QuizPublished" "quiz_set" quiz.id
      (Payload.quiz_published quiz.id (quiz.version + 1) owner quiz.title) now
      (record db { quiz_sets = update_where (is_set quiz_set_id) as_published db.quiz_sets })

-- `publish_quiz_set`. The k-th report of the scan and its event take the ids `next_id (2 * k)` and
-- `next_id (2 * k + 1)`; `event_id` is the one of the last event.
unfoldable pub publish_quiz_set :
    (lower : String → String)
    → Policy
    → (next_id : ℕ → ℕ) → (event_id now owner quiz_set_id : ℕ) → Db
    → Result (QuizSet × Db)
unfolding validate_publish
publish_quiz_set lower policy next_id event_id now owner quiz_set_id db = do
  quiz ← or_raise (quiz_set_by_id quiz_set_id db) validation_error 404
  require (quiz.owner_id == owner) forbidden 403
  let questions = loaded_questions quiz_set_id db
  let scanned = (auto_flag_on_publish lower policy next_id now quiz questions db).1
  require (is_empty (validate_publish questions)) validation_error 422
  ok (as_published quiz, record_publish event_id now owner quiz_set_id quiz scanned)
