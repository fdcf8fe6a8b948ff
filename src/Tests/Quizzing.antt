-- ===== src/Tests/Quizzing.antt =====
-- The theorems on quizzes at concrete inputs.
use mathlib.Core.Logic.{◌↔◌}
use livequiz_platform.Prelude.{ℕ, Bool, true, false, ◌≡◌, refl, none, some, [], ◌∷◌, arith}
use livequiz_platform.Errors.{ok}
use livequiz_platform.Store.{Question, AnswerOption, true_false, Db}
use livequiz_platform.Moderation.{Policy}
use livequiz_platform.Quizzes.Edit.{
  QuestionCreate, QuestionUpdate, add_question, update_question, delete_question,
}
use livequiz_platform.Quizzes.Adding.{Added, add_question-inserts}
use livequiz_platform.Quizzes.Removing.{Removed, delete_question-removes}
use livequiz_platform.Quizzes.Updating.{Updated, update_question-moves}
use livequiz_platform.Quizzes.Catalog.{ListFilter}
use livequiz_platform.Quizzes.Publish.{validate_publish, loaded_questions}
use livequiz_platform.Quizzes.Publishable.{IsPublishable, validate_publish-IsPublishable}
use livequiz_platform.Tests.Data.{lobby_db, quiz, question}

abbrev option : ℕ → ℕ → Bool → AnswerOption
option id position is_correct = record {
  id = id;
  position = position;
  body = "?";
  is_correct = is_correct;
}

-- A question before the two that the quiz has.
abbrev first_new : QuestionCreate
first_new = record {
  id = 32;
  position = some 1;
  body = "new";
  question_type = true_false;
  time_limit_seconds = 20;
  points = 1000;
  explanation = none;
  options = option 70 1 true ∷ option 71 2 false ∷ [];
}

abbrev to_second : QuestionUpdate
to_second = record {
  position = some 2;
  body = some "edited";
  question_type = none;
  time_limit_seconds = none;
  points = none;
  explanation = none;
  options = some (option 70 1 true ∷ option 71 2 false ∷ []);
}

add_question-inserts_example :
    (question : Question) × (after : Db) × (add_question 7 3 first_new lobby_db
      ≡ ok (question, after))
    × Added 3 first_new lobby_db question after
add_question-inserts_example =
    add_question-inserts 7 3 2 first_new quiz lobby_db refl refl (omega arith)
      (omega arith, (omega arith, tt)) (((refl, refl), tt), (tt, tt)) (refl, (refl, tt))
      ((refl, tt), (tt, tt))

delete_question-removes_example :
    (after : Db) × (delete_question 7 30 lobby_db ≡ ok (tt, after))
    × Removed (question 30 1) lobby_db after
delete_question-removes_example =
    delete_question-removes 7 30 2 (question 30 1) lobby_db refl refl refl (omega arith)
      (omega arith, (omega arith, tt)) (((refl, refl), tt), (tt, tt))

update_question-moves_example :
    (hydrated : Question) × (after : Db) × (update_question 7 30 to_second lobby_db
      ≡ ok (hydrated, after))
    × Updated to_second (question 30 1) lobby_db after
update_question-moves_example =
    update_question-moves 7 30 2 to_second (question 30 1) lobby_db refl refl ((refl, tt), (tt, tt))
      (omega arith) (omega arith) (omega arith, (omega arith, tt)) (((refl, refl), tt), (tt, tt))

validate_publish-IsPublishable_example :
    validate_publish (loaded_questions 3 lobby_db) ≡ []
    ↔ IsPublishable (loaded_questions 3 lobby_db)
validate_publish-IsPublishable_example =
    validate_publish-IsPublishable (loaded_questions 3 lobby_db)

-- Without the word of the policy the title passes; the quiz is published in any case.
abbrev policy : Policy
policy = record { words = "quiz" ∷ []; patterns = [] }

abbrev any_quiz : ListFilter
any_quiz = record { q = none; owner_id = some 7; tag = none }
