-- ===== src/Moderation/Hidden.antt =====
-- What hiding a quiz means to the other parts: who reads it, who lists it, who opens a room with it.
use livequiz_platform.Prelude.{
  ℕ, ◌≡◌, refl, ap, ◌∙◌, String, Bool, true, false, Option, none, some, List, [], find,
  find-update_where, update_where, ◌==◌,
}
use livequiz_platform.Errors.{ok, err, auth_error, forbidden, quiz_not_published}
use livequiz_platform.Store.{ModerationReport, is_pending, action_taken, hidden, QuizSet, Db}
use livequiz_platform.Rooms.Create.{RoomCreate, create_tx}
use livequiz_platform.Moderation.Decide.{
  is_quiz, bumped, hide_quiz, apply_hide, hide, DecisionRequest, decision_of, decide, reviewed,
  record_decision, is_report,
}
use livequiz_platform.Quizzes.Edit.{quiz_set_by_id}
use livequiz_platform.Quizzes.Catalog.{is_owner, get_quiz_for_viewer, ListFilter, is_listed}
use livequiz_platform.Quizzes.Visible.{get_quiz_for_viewer-refuses}

-- A request to open a room with a quiz by its owner is refused.
create_tx-unpublished :
    (r : RoomCreate) (candidates : List (ℕ × String)) (quiz : QuizSet) (db : Db)
    → quiz_set_by_id r.quiz_set_id db ≡ some quiz
    → (quiz.owner_id == r.host_id) ≡ true
    → quiz.is_published ≡ false
    → create_tx r candidates db ≡ err (auth_error quiz_not_published 409)
unfolding create_tx
create_tx-unpublished r candidates quiz db found own unpublished = rw (found, own, unpublished) refl

module _ (q : DecisionRequest) (report : ModerationReport) (id : ℕ) (quiz : QuizSet) (db : Db) where
  abbrev hidden_db : Db
  hidden_db = record db { quiz_sets = update_where (is_quiz id) hide_quiz db.quiz_sets }

  -- The tables after the decision.
  abbrev pub after_hide : Db
  after_hide = record_decision q hide report (hidden quiz.id (bumped quiz.version)) hidden_db

  decide-hides :
      find (is_report q.report_id) db.reports ≡ some report
      → is_pending report.status ≡ true
      → decision_of q.decision ≡ some hide
      → report.target_quiz_set_id ≡ some id
      → quiz_set_by_id id db ≡ some quiz
      → decide q db ≡ ok (reviewed q action_taken report, [], after_hide)
  unfolding decide apply_hide
  decide-hides found pending chosen target stored = rw (chosen, found, pending, target, stored) refl

  found_hidden :
      quiz_set_by_id id db ≡ some quiz → quiz_set_by_id id after_hide ≡ some (hide_quiz quiz)
  found_hidden stored = find-update_where (is_quiz id) hide_quiz db.quiz_sets (λ s. refl) stored

  still_other :
      (viewer : Option ℕ) → is_owner viewer quiz ≡ false → is_owner viewer (hide_quiz quiz) ≡ false
  still_other none other = refl
  still_other (some v) other = other

  -- A pending report on a quiz can be decided by hiding the quiz. After that a viewer other than
  -- its owner may not read it, no listing shows it to that viewer, and even its owner cannot open
  -- a room with it.
  pub decide-hidden :
      (similar : String → String → Bool) (viewer : Option ℕ) (f : ListFilter) (r : RoomCreate)
      (candidates : List (ℕ × String))
      → find (is_report q.report_id) db.reports ≡ some report
      → is_pending report.status ≡ true
      → decision_of q.decision ≡ some hide
      → report.target_quiz_set_id ≡ some id
      → quiz_set_by_id id db ≡ some quiz
      → is_owner viewer quiz ≡ false
      → r.quiz_set_id ≡ id
      → (quiz.owner_id == r.host_id) ≡ true
      → (after : Db) × (decide q db ≡ ok (reviewed q action_taken report, [], after))
        × (get_quiz_for_viewer viewer id after ≡ err (auth_error forbidden 403))
        × (is_listed similar viewer f after (hide_quiz quiz) ≡ false)
        × (create_tx r candidates after ≡ err (auth_error quiz_not_published 409))
  decide-hidden similar viewer f r candidates found pending chosen target stored other same own =
      let refused =
        get_quiz_for_viewer-refuses similar viewer f id (hide_quiz quiz) after_hide
          (found_hidden stored) (still_other viewer other) refl in
      (
        after_hide,
        decide-hides found pending chosen target stored,
        refused.0,
        refused.1,
        create_tx-unpublished r candidates (hide_quiz quiz) after_hide
            (ap (λ i. quiz_set_by_id i after_hide) same ∙ found_hidden stored) own refl,
      )
