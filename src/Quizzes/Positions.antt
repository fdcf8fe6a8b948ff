-- ===== src/Quizzes/Positions.antt =====
-- The statements that renumber the questions of a quiz: repositories/quiz_repo.py and
-- `_move_question_to` of services/quiz_service.py, on the table of questions. `none` is the
-- IntegrityError of `ux_questions_quiz_position`. Positions are naturals: the subtractions below
-- are of rows at or over the sentinel, and only a row at the sentinel itself would come to -1.
use livequiz_platform.Prelude.{
  ℕ, ◌+◌, ◌-◌, Bool, not, ◌&&◌, Option, some, List, [], ◌∷◌, ltb, leb, max, ◌==◌, if◌then◌else◌,
}
use livequiz_platform.Prelude.Optional.{◌>>=◌}
use livequiz_platform.Store.{Question}
use livequiz_platform.Quizzes.Unique.{update_each}

-- `_SHIFT_SENTINEL` and `_PARK_POSITION`.
abbrev pub shift_sentinel : ℕ
shift_sentinel = 1000000

abbrev pub park_position : ℕ
park_position = shift_sentinel - 1

-- `ux_questions_quiz_position`.
abbrev pub same_position : Question → Question → Bool
same_position a b = a.quiz_set_id == b.quiz_set_id && a.position == b.position

abbrev pub place : (ℕ → ℕ) → Question → Question
place f q = record q { position = f q.position }

-- `UPDATE questions SET position = … WHERE …`, or the same by a flush of one row.
abbrev pub set_positions : (Question → Bool) → (ℕ → ℕ) → List Question → Option (List Question)
set_positions p f rows = update_each same_position p (place f) [] rows

abbrev pub max_question_position : ℕ → List Question → ℕ
max_question_position quiz_set_id [] = 0
max_question_position quiz_set_id (q ∷ rows) =
    let rest = max_question_position quiz_set_id rows in
    if q.quiz_set_id == quiz_set_id then max q.position rest else rest

-- Rows of the quiz below the sentinel and in a range, and rows at or over the sentinel.
abbrev pub in_range : ℕ → (ℕ → Bool) → Question → Bool
in_range quiz_set_id range q =
    q.quiz_set_id == quiz_set_id && (range q.position && ltb q.position shift_sentinel)

abbrev pub shifted_out : ℕ → Question → Bool
shifted_out quiz_set_id q = q.quiz_set_id == quiz_set_id && leb shift_sentinel q.position

-- `shift_question_positions`, of which every call shifts by 1.
unfoldable pub shift_question_positions :
    (quiz_set_id from_position by : ℕ) → List Question → Option (List Question)
shift_question_positions quiz_set_id from_position by rows = do
  rows ← set_positions (in_range quiz_set_id (leb from_position)) (λ n. n + shift_sentinel) rows
  set_positions (shifted_out quiz_set_id) (λ n. n - shift_sentinel + by) rows

unfoldable pub renumber_after_delete :
    (quiz_set_id deleted_position : ℕ) → List Question → Option (List Question)
renumber_after_delete quiz_set_id deleted_position rows = do
  rows ← set_positions (in_range quiz_set_id (ltb deleted_position)) (λ n. n + shift_sentinel) rows
  set_positions (shifted_out quiz_set_id) (λ n. n - shift_sentinel - 1) rows

-- The siblings between the two positions, and where they go: up by 1 if the question moves down
-- in number, else down by 1.
abbrev pub between : (old_position new_position : ℕ) → ℕ → Bool
between old_position new_position n =
    if ltb new_position old_position
    then leb new_position n && ltb n old_position
    else ltb old_position n && leb n new_position

abbrev pub delta : (old_position new_position : ℕ) → ℕ → ℕ
delta old_position new_position n = if ltb new_position old_position then n + 1 else n - 1

abbrev pub is_question : ℕ → Question → Bool
is_question id q = q.id == id

-- `_move_question_to`
unfoldable pub move_question_to :
    Question → (new_position : ℕ) → List Question → Option (List Question)
move_question_to question new_position rows =
    if new_position == question.position then some rows else do
      rows ← set_positions (is_question question.id) (λ _. park_position) rows
      rows ←
          set_positions
            (λ q.
              not (is_question question.id q)
              && in_range question.quiz_set_id (between question.position new_position) q)
            (λ n. n + shift_sentinel) rows
      rows ←
          set_positions (λ q. not (is_question question.id q) && shifted_out question.quiz_set_id q)
            (λ n. delta question.position new_position (n - shift_sentinel)) rows
      set_positions (is_question question.id) (λ _. new_position) rows
