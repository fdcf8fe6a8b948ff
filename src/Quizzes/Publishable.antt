-- ===== src/Quizzes/Publishable.antt =====
-- What may be published, and what publishing does.
use mathlib.Core.Logic.{◌↔◌}
use livequiz_platform.Prelude.{
  ℕ, ◌≤◌, ◌≡◌, ◌≢◌, refl, ap, ◌∙◌, String, Bool, true, false, not, some, List, [], ◌∷◌, ◌++◌, any,
  find, find-update_where, select, length, All, ltb, leb, ◌==◌, arith, Bool-cases, inl, inr,
}
use livequiz_platform.Errors.{ok, err, auth_error, validation_error}
use livequiz_platform.Store.{
  QuizSet, Question, QuestionType, single_choice, multiple_choice, true_false, AnswerOption, Db,
}
use livequiz_platform.Moderation.{Policy, auto_flag_on_publish}
use livequiz_platform.Moderation.Flags.{auto_flag_on_publish-Adds}
use livequiz_platform.Quizzes.Catalog.{is_set}
use livequiz_platform.Quizzes.Edit.{quiz_set_by_id}
use livequiz_platform.Quizzes.Publish.{
  Issue, IssueCode, issue_if, question_issues, issues_of, validate_publish, loaded_questions,
  is_empty, as_published, record_publish, publish_quiz_set,
}

abbrev is_right : AnswerOption → Bool
is_right o = o.is_correct

abbrev is_wrong : AnswerOption → Bool
is_wrong o = not o.is_correct

-- A question that can be played, by its type: a single choice has at least two options and one
-- that is right, a multiple choice one that is right and one that is wrong, a true-false question
-- two options of which one is right.
abbrev pub IsPlayable : QuestionType → List AnswerOption → Type 0
IsPlayable single_choice options = (2 ≤ length options) × (length (select is_right options) ≡ 1)
IsPlayable multiple_choice options = (any is_right options ≡ true) × (any is_wrong options ≡ true)
IsPlayable true_false options = (length options ≡ 2) × (length (select is_right options) ≡ 1)

abbrev pub IsPublishable : List Question → Type 0
IsPublishable questions =
    (questions ≢ []) × All (λ q. IsPlayable q.question_type q.options) questions

select-length : (options : List AnswerOption) → length (select is_right options) ≤ length options
select-length [] = omega arith
select-length (o ∷ options) = ground (arith, select-length options)

right-count :
    (options : List AnswerOption) → any is_right options ≡ leb 1 (length (select is_right options))
right-count [] = refl
right-count (o ∷ options) = ground (arith, right-count options)

wrong-count :
    (options : List AnswerOption)
    → any is_wrong options ≡ ltb (length (select is_right options)) (length options)
wrong-count [] = refl
wrong-count (o ∷ options) = ground (arith, wrong-count options, select-length options)

both_pass :
    (a b : Bool) (q : Question) (c d : IssueCode)
    → issue_if a q c ++ issue_if b q d ≡ []
    → (a ≡ false) × (b ≡ false)
both_pass true b q c d h = cc
both_pass false true q c d h = cc
both_pass false false q c d h = (refl, refl)

pass_both :
    (a b : Bool) (q : Question) (c d : IssueCode)
    → a ≡ false
    → b ≡ false
    → issue_if a q c ++ issue_if b q d ≡ []
pass_both true b q c d ha hb = cc
pass_both false true q c d ha hb = cc
pass_both false false q c d ha hb = refl

module _ (q : Question) where
  playable : (t : QuestionType) → question_issues t q ≡ [] → IsPlayable t q.options
  playable single_choice h = let (a, b) = both_pass _ _ q _ _ h in (ground arith, ground arith)
  playable multiple_choice h =
      let (a, b) = both_pass _ _ q _ _ h in
      (right-count q.options ∙ ground arith, wrong-count q.options ∙ ground arith)
  playable true_false h = let (a, b) = both_pass _ _ q _ _ h in (ground arith, ground arith)

  no_issues : (t : QuestionType) → IsPlayable t q.options → question_issues t q ≡ []
  no_issues single_choice h = pass_both _ _ q _ _ (ground arith) (ground arith)
  no_issues multiple_choice h =
      pass_both _ _ q _ _ (ground (arith, right-count q.options, wrong-count q.options))
        (ground (arith, right-count q.options, wrong-count q.options))
  no_issues true_false h = pass_both _ _ q _ _ (ground arith) (ground arith)

append-empty : (xs ys : List Issue) → xs ++ ys ≡ [] → (xs ≡ []) × (ys ≡ [])
append-empty [] ys h = (refl, h)
append-empty (x ∷ xs) ys h = cc

All-IsPlayable :
    (questions : List Question)
    → issues_of questions ≡ []
    → All (λ q. IsPlayable q.question_type q.options) questions
All-IsPlayable [] h = tt
All-IsPlayable (q ∷ questions) h =
    let (here, there) = append-empty (question_issues q.question_type q) (issues_of questions) h in
    (playable q q.question_type here, All-IsPlayable questions there)

no_issues-All :
    (questions : List Question)
    → All (λ q. IsPlayable q.question_type q.options) questions
    → issues_of questions ≡ []
no_issues-All [] h = refl
no_issues-All (q ∷ questions) h = rw (no_issues q q.question_type h.0) (no_issues-All questions h.1)

-- `validate_publish` finds no issue exactly in a quiz that has a question and whose questions can
-- all be played.
pub validate_publish-IsPublishable :
    (questions : List Question) → validate_publish questions ≡ [] ↔ IsPublishable questions
unfolding validate_publish
validate_publish-IsPublishable [] = ((λ h. cc), (λ h. absurd (h.0 refl)))
validate_publish-IsPublishable (q ∷ questions) =
    ((λ h. ((λ e. cc), All-IsPlayable (q ∷ questions) h)), (λ h. no_issues-All (q ∷ questions) h.1))

empty_issues : (issues : List Issue) → is_empty issues ≡ true → issues ≡ []
empty_issues [] h = refl
empty_issues (i ∷ issues) h = cc

issues_empty : (issues : List Issue) → issues ≡ [] → is_empty issues ≡ true
issues_empty issues h = rw h refl

module _ (lower : String → String) (policy : Policy) (next_id : ℕ → ℕ) (event_id now owner id : ℕ)
    (quiz : QuizSet) (db : Db) (found : quiz_set_by_id id db ≡ some quiz)
    (own : (quiz.owner_id == owner) ≡ true) where
  -- The owner of a quiz that can be played publishes it, under its next version, whatever the scan
  -- of its texts flags.
  pub publish_quiz_set-publishes :
      IsPublishable (loaded_questions id db)
      → (after : Db) × (publish_quiz_set lower policy next_id event_id now owner id db
          ≡ ok (as_published quiz, after))
        × (quiz_set_by_id id after ≡ some (as_published quiz))
  unfolding publish_quiz_set
  publish_quiz_set-publishes good = (
    record_publish event_id now owner id quiz scanned,
    rw
        (
          found,
          own,
          issues_empty (validate_publish questions)
              ((validate_publish-IsPublishable questions).1 good),
        )
        refl,
    find-update_where (is_set id) as_published scanned.quiz_sets (λ s. refl)
        (ap (λ sets. find (is_set id) sets) untouched ∙ found),
  )
    where
      questions : List Question
      questions = loaded_questions id db

      scanned : Db
      scanned = (auto_flag_on_publish lower policy next_id now quiz questions db).1

      untouched : scanned.quiz_sets ≡ db.quiz_sets
      untouched =
          ap (λ (d : Db). d.quiz_sets)
            (auto_flag_on_publish-Adds lower policy next_id now quiz questions db).2

  -- The publication of a quiz that cannot be played is refused, even to its owner.
  pub publish_quiz_set-refuses :
      ¬ IsPublishable (loaded_questions id db)
      → publish_quiz_set lower policy next_id event_id now owner id db
        ≡ err (auth_error validation_error 422)
  unfolding publish_quiz_set
  publish_quiz_set-refuses bad = rw (found, own, refused) refl
    where
      refused : is_empty (validate_publish (loaded_questions id db)) ≡ false
      refused = elim (Bool-cases (is_empty (validate_publish (loaded_questions id db)))) [
        | inr e ↦ e
        | inl e ↦ absurd (
            bad (
              (validate_publish-IsPublishable (loaded_questions id db)).0
                (empty_issues (validate_publish (loaded_questions id db)) e)))
      ]
