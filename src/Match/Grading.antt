-- ===== src/Match/Grading.antt =====
-- Steps 5 and 6 of `submit_answer`: the grading of a selection and the score of the answer.
pub mod Sets
pub mod Graded
use livequiz_platform.Prelude.{
  ℕ, String, Bool, true, false, ◌&&◌, Option, none, some, List, [], ◌∷◌, map, select, any, all, ltb,
  str_eq, ◌==◌, if◌then◌else◌,
}
use livequiz_platform.Floats.{Floats}
use livequiz_platform.Errors.{Result, ok, ◌>>◌, require, validation_error}
use livequiz_platform.Store.{Room, AnswerOption, Question, Db}
use livequiz_platform.Scoring.{score, scoring_mode_speed_bonus}
use livequiz_platform.Match.Queries.{room_by_id, question_by_id, elapsed_ms}
use livequiz_platform.Match.Admission.{Request, Admitted}

-- A Python set of numbers, as the ascending list that `sorted` gives of it.
abbrev pub add_to_set : ℕ → List ℕ → List ℕ
add_to_set a [] = a ∷ []
add_to_set a (x ∷ xs) =
    if a == x then x ∷ xs else if ltb a x then a ∷ x ∷ xs else x ∷ add_to_set a xs

abbrev pub to_set : List ℕ → List ℕ
to_set [] = []
to_set (x ∷ xs) = add_to_set x (to_set xs)

abbrev pub same_list : List ℕ → List ℕ → Bool
same_list [] [] = true
same_list [] (y ∷ ys) = false
same_list (x ∷ xs) [] = false
same_list (x ∷ xs) (y ∷ ys) = if x == y then same_list xs ys else false

abbrev pub contains : List ℕ → ℕ → Bool
contains xs a = any (λ x. x == a) xs

abbrev pub is_subset : List ℕ → List ℕ → Bool
is_subset xs ys = all (contains ys) xs

abbrev pub option_ids : List AnswerOption → List ℕ
option_ids options = map (λ (o : AnswerOption). o.id) options

abbrev pub correct_set : List AnswerOption → List ℕ
correct_set options = to_set (option_ids (select (λ (o : AnswerOption). o.is_correct) options))

abbrev pub is_nonempty : List ℕ → Bool
is_nonempty [] = false
is_nonempty (x ∷ xs) = true

abbrev pub options_of : Option Question → List AnswerOption
options_of none = []
options_of (some q) = q.options

-- Step 5: the selected set, and whether it is exactly the non-empty set of correct options.
unfoldable pub grade : List ℕ → List AnswerOption → Result (List ℕ × Bool)
grade selected options = do
  let ids = to_set selected
  require (is_subset ids (option_ids options)) validation_error 422
  ok (ids, same_list ids (correct_set options) && is_nonempty (correct_set options))

abbrev pub lookup_text : String → List (String × String) → Option String
lookup_text k [] = none
lookup_text k ((j, v) ∷ d) = if str_eq j k then some v else lookup_text k d

-- `settings.get("scoring_mode") or "speed_bonus"`
abbrev pub mode_or_default : Option String → String
mode_or_default none = scoring_mode_speed_bonus
mode_or_default (some mode) = if str_eq mode "" then scoring_mode_speed_bonus else mode

abbrev pub scoring_mode : Option Room → String
scoring_mode none = scoring_mode_speed_bonus
scoring_mode (some room) = mode_or_default (lookup_text "scoring_mode" room.settings)

abbrev pub points_of : Option Question → ℕ
points_of none = 0
points_of (some q) = q.points

-- Step 6: the response time, the time limit and the score.
unfoldable pub award : Floats → Request → Admitted → Bool → Db → ℕ × ℕ
unfolding score
award fl q a is_correct db =
    let response_time_ms = elapsed_ms fl a.started q.now in
    (
      response_time_ms,
      score fl (points_of (question_by_id a.mq.question_id db)) response_time_ms
          (elapsed_ms fl a.started a.deadline) (scoring_mode (room_by_id a.match.room_id db))
          is_correct,
    )
