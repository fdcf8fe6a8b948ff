-- ===== src/Match/Grading/Graded.antt =====
-- What the new row of `submit_answer` says of the answer: the selection, whether it is right, and the
-- score.
use mathlib.Core.Path.{subst}
use livequiz_platform.Prelude.{
  ℕ, ◌^◌, ◌<◌, ◌≤◌, ◌≡◌, ◌⊎◌, refl, sym, ap, ◌∙◌, Bool, true, false, ◌&&◌, some, List, [], ◌∷◌, All,
  All-find, any, find, select, ◌==◌, if◌then◌else◌, arith, inl, inr, Bool-cases, Option-cases,
}
use mathlib.Core.Logic.{◌↔◌}
use livequiz_platform.Floats.{Floats, half_even}
use livequiz_platform.Errors.{Result, ok, err, Leaves, Leaves-bind, require-ok}
use livequiz_platform.Store.{MatchQuestion, AnswerOption, Question, AnswerSubmission, Db}
use livequiz_platform.Scoring.Bounds.{score_bounds}
use livequiz_platform.Match.Queries.{match_question_by_id, question_by_id, room_by_id, elapsed_ms}
use livequiz_platform.Match.Admission.{Request, Admitted, admit}
use livequiz_platform.Match.Admission.Sound.{IsAdmissible, admit-IsAdmissible}
use livequiz_platform.Match.Grading.{
  to_set, same_list, contains, is_subset, option_ids, correct_set, is_nonempty, options_of, grade,
  award, points_of, scoring_mode,
}
use livequiz_platform.Match.Grading.Sets.{
  to_set-IsAscending, contains-to_set, same_list-contains, to_set-is_nonempty,
  SameMembers-same_list,
}
use livequiz_platform.Match.Submit.{
  collides, insert_submission, existing_submission, new_submission, Submitted, replayed, inserted,
  settle, submit_tx,
}

-- An option with this id is among the options, and among the correct ones.
abbrev pub is_offered : List AnswerOption → ℕ → Bool
is_offered options k = any (λ (o : AnswerOption). o.id == k) options

abbrev pub is_right : List AnswerOption → ℕ → Bool
is_right options k = any (λ (o : AnswerOption). o.is_correct && o.id == k) options

-- Some option is correct, and what was selected is just the correct options.
abbrev pub SelectsRight : List AnswerOption → List ℕ → Type 0
SelectsRight options selected =
    (any (λ (o : AnswerOption). o.is_correct) options ≡ true)
    × ((k : ℕ) → contains selected k ≡ is_right options k)

abbrev pub IsScored : ℕ → Bool → ℕ → Type 0
IsScored points is_correct score =
    ((is_correct ≡ false) × (score ≡ 0))
    ⊎ ((is_correct ≡ true) × (half_even points ≤ score) × (score ≤ points))

-- The row of an answer to the question of a match, whose options and points are these.
pub record IsGraded (fl : Floats) (q : Request) (db : Db) (s : AnswerSubmission) : Type 0 where
  pub mq : MatchQuestion
  pub question : match_question_by_id q.match_question_id db ≡ some mq
  pub selected : (k : ℕ) → contains s.selected_option_ids k ≡ contains q.selected_option_ids k
  pub offered :
      All
        (λ k. is_offered (options_of (question_by_id mq.question_id db)) k ≡ true)
        s.selected_option_ids
  pub correct :
      (s.is_correct ≡ true)
      ↔ SelectsRight (options_of (question_by_id mq.question_id db)) q.selected_option_ids
  pub scored : IsScored (points_of (question_by_id mq.question_id db)) s.is_correct s.score_awarded
  pub time :
      (started : ℕ) × (mq.started_at ≡ some started)
      × (s.response_time_ms ≡ elapsed_ms fl started q.now)

is_offered-contains :
    (options : List AnswerOption) (k : ℕ) → contains (option_ids options) k ≡ is_offered options k
is_offered-contains [] k = refl
is_offered-contains (o ∷ options) k =
    ap (λ b. if o.id == k then true else b) (is_offered-contains options k)

is_right-contains :
    (options : List AnswerOption) (k : ℕ)
    → contains (option_ids (select (λ (o : AnswerOption). o.is_correct) options)) k
      ≡ is_right options k
is_right-contains [] k = refl
is_right-contains (o ∷ options) k = elim (Bool-cases o.is_correct) [
  | inl right ↦ rw right (ap (λ b. if o.id == k then true else b) (is_right-contains options k))
  | inr wrong ↦ rw wrong (is_right-contains options k)
]

correct_set-contains :
    (options : List AnswerOption) (k : ℕ) → contains (correct_set options) k ≡ is_right options k
correct_set-contains options k = contains-to_set _ k ∙ is_right-contains options k

All-is_offered :
    (options : List AnswerOption) (ids : List ℕ)
    → is_subset ids (option_ids options) ≡ true
    → All (λ k. is_offered options k ≡ true) ids
All-is_offered options [] h = tt
All-is_offered options (k ∷ ids) h = elim (Bool-cases (contains (option_ids options) k)) [
  | inl here ↦
      (sym (is_offered-contains options k) ∙ here, All-is_offered options ids (rw here at h))
  | inr gone ↦ absurd (ground arith)
]

correct_set-is_nonempty :
    (options : List AnswerOption)
    → is_nonempty (correct_set options) ≡ any (λ (o : AnswerOption). o.is_correct) options
correct_set-is_nonempty [] = refl
correct_set-is_nonempty (o ∷ options) = elim (Bool-cases o.is_correct) [
  | inl right ↦
      rw right
        (to_set-is_nonempty o.id (option_ids (select (λ (x : AnswerOption). x.is_correct) options)))
  | inr wrong ↦ rw wrong (correct_set-is_nonempty options)
]

-- The grade that step 5 gives is right for just the selections of all the correct options.
graded_right :
    (options : List AnswerOption) (ids : List ℕ)
    → ((same_list (to_set ids) (correct_set options) && is_nonempty (correct_set options)) ≡ true)
      ↔ SelectsRight options ids
graded_right options ids = (
  λ h.
      let same : same_list (to_set ids) (correct_set options) ≡ true = ground arith in
      let some_right : is_nonempty (correct_set options) ≡ true = ground arith in
      (
        sym (correct_set-is_nonempty options) ∙ some_right,
        λ k.
            sym (contains-to_set ids k)
            ∙ same_list-contains (to_set ids) (correct_set options) same k
            ∙ correct_set-contains options k,
      ),
  λ h.
      let same =
        SameMembers-same_list (to_set ids) (correct_set options) (to_set-IsAscending ids)
          (to_set-IsAscending (option_ids (select (λ (o : AnswerOption). o.is_correct) options)))
          (λ k. contains-to_set ids k ∙ h.1 k ∙ sym (correct_set-contains options k)) in
      rw (same, correct_set-is_nonempty options) h.0,
)

points_small :
    (questions : List Question) (id : ℕ)
    → All (λ (x : Question). x.points < 2 ^ 53) questions
    → points_of (find (λ (x : Question). x.id == id) questions) < 2 ^ 53
points_small questions id h = elim (Option-cases (find (λ (x : Question). x.id == id) questions)) [
  | inl gone ↦ rw gone (omega arith)
  | inr (x, found) ↦ rw found (
      All-find (λ (x : Question). x.points < 2 ^ 53) (λ (x : Question). x.id == id) questions
        {x = x} h found)
]

module _ (fl : Floats) (q : Request) (db : Db) where
  abbrev pub GradedIfNew : Submitted → Db → Type 0
  GradedIfNew (replayed s) db' = Unit
  GradedIfNew (inserted s nickname question_id code) db' = IsGraded fl q db s

  module _ (small : All (λ (x : Question). x.points < 2 ^ 53) db.questions) (a : Admitted)
      (v : IsAdmissible q db a) where
    award-IsScored :
        (b : Bool)
        → IsScored (points_of (question_by_id a.mq.question_id db)) b (award fl q a b db).1
    unfolding award
    award-IsScored b =
        let bounds =
          score_bounds fl (points_of (question_by_id a.mq.question_id db))
            (elapsed_ms fl a.started q.now) (elapsed_ms fl a.started a.deadline)
            (scoring_mode (room_by_id a.match.room_id db))
            (points_small db.questions a.mq.question_id small) in
        elim (Bool-cases b) [
          | inl right ↦ rw right (inr (refl, bounds.1, bounds.2))
          | inr wrong ↦ rw wrong (inl (refl, bounds.0))
        ]

    abbrev GradedIfOk : Result (List ℕ × Bool) → Type 0
    GradedIfOk (ok g) = IsGraded fl q db (new_submission fl q a g.0 g.1 db)
    GradedIfOk (err e) = Unit

    new_submission-IsGraded :
        (g : List ℕ × Bool)
        → grade q.selected_option_ids (options_of (question_by_id a.mq.question_id db)) ≡ ok g
        → IsGraded fl q db (new_submission fl q a g.0 g.1 db)
    unfolding grade new_submission award
    new_submission-IsGraded g h =
        let options = options_of (question_by_id a.mq.question_id db) in
        let (valid, e) =
          require-ok (is_subset (to_set q.selected_option_ids) (option_ids options)) _ _ _ h in
        let right =
          same_list (to_set q.selected_option_ids) (correct_set options)
          && is_nonempty (correct_set options) in
        subst GradedIfOk e (record {
          mq = a.mq;
          question = v.question;
          selected = contains-to_set q.selected_option_ids;
          offered = All-is_offered options (to_set q.selected_option_ids) valid;
          correct = graded_right options q.selected_option_ids;
          scored = award-IsScored right;
          time = (a.started, v.started, refl);
        })

    settle-GradedIfNew :
        (s : AnswerSubmission)
        → IsGraded fl q db s
        → Leaves GradedIfNew (settle q a s (insert_submission s db.submissions) db)
    unfolding insert_submission
    settle-GradedIfNew s g = elim (Bool-cases (any (collides s) db.submissions)) [
      | inl taken ↦ rw taken (
          Leaves-bind GradedIfNew
            (existing_submission a.mq.id q.participant_id q.request_id db.submissions) _ λ e h. tt)
      | inr free ↦ rw free g
    ]

-- With points below 2 ^ 53: a new row that the transaction of `submit_answer` records holds the ids
-- that were selected, which are all of options of the question; it is right just when some option
-- is correct and the selection is all the correct options and no other; a wrong answer is awarded
-- 0, a right one between half of the question's points (a tie to the even number) and all of them;
-- and its response time is that from the start of the question to the request.
pub submit_tx-GradedIfNew :
    (fl : Floats) (q : Request) (db : Db)
    → All (λ (x : Question). x.points < 2 ^ 53) db.questions
    → Leaves (GradedIfNew fl q db) (submit_tx fl q db)
unfolding submit_tx
submit_tx-GradedIfNew fl q db small = Leaves-bind (GradedIfNew fl q db) (admit q db) _ λ a h.
    let v = admit-IsAdmissible q db h in
    Leaves-bind (GradedIfNew fl q db)
      (grade q.selected_option_ids (options_of (question_by_id a.mq.question_id db))) _
      λ g graded.
        settle-GradedIfNew fl q db small a v (new_submission fl q a g.0 g.1 db)
          (new_submission-IsGraded fl q db small a v g graded)
