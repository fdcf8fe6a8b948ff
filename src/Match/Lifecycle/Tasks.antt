-- ===== src/Match/Lifecycle/Tasks.antt =====
-- A completed match through the operations that tasks run.
use livequiz_platform.Prelude.{ℕ, refl, Option, none, some, is_none, inl, inr, Bool-cases}
use livequiz_platform.Prelude.Optional.{Yields, Yields-bind, Yields-unless}
use livequiz_platform.Errors.{Result, ok, err, Leaves}
use livequiz_platform.Store.{Db, is_running}
use livequiz_platform.Live.{World}
use livequiz_platform.Live.Scheduler.{cancels_itself}
use livequiz_platform.Match.Queries.{match_by_id, room_by_id, match_question_at, question_by_id}
use livequiz_platform.Match.Finish.{Ended, already, now_completed, after_end, end_tx, end_match}
use livequiz_platform.Match.Questions.{
  Armed, Closed, arm_tx, after_arm, arm_question, close_tx, after_close, announce_closed,
  close_question,
}
use livequiz_platform.Match.Lifecycle.Completed.{
  Completed, IsFrozen, IsFrozen-refl, IsFrozen-trans, end_tx-IsFrozen,
}

module _ (M : ℕ) where
  after_end-IsFrozen :
      (w : World) (r : Result (Ended × Db))
      → Completed M w.db
      → Leaves (λ _ db'. IsFrozen M w.db db') r
      → IsFrozen M w.db (after_end w r).1.db
  after_end-IsFrozen w (err e) c h = IsFrozen-refl M w.db c
  after_end-IsFrozen w (ok (already m, db)) c h = IsFrozen-refl M w.db c
  after_end-IsFrozen w (ok (now_completed m code, db)) c h = h

  pub end_match-IsFrozen :
      (current : Option ℕ) (now event_id : ℕ) (host_id : Option ℕ) (match_id : ℕ) (w : World)
      → Completed M w.db
      → IsFrozen M w.db (end_match current now event_id host_id match_id w).1.db
  unfolding end_match
  end_match-IsFrozen current now event_id host_id match_id w c =
      elim (Bool-cases (cancels_itself match_id current w.scheduler)) [
        | inl itself ↦ rw itself (IsFrozen-refl M w.db c)
        | inr other ↦ rw other (
            after_end-IsFrozen _ (end_tx now event_id host_id match_id w.db) c
              (end_tx-IsFrozen M now event_id host_id match_id w.db c))
      ]

  arm_tx-IsFrozen :
      (now event_id match_id position : ℕ) (db : Db)
      → Completed M db
      → Yields (λ (a : Armed). IsFrozen M db a.db) (arm_tx now event_id match_id position db)
  unfolding arm_tx
  arm_tx-IsFrozen now event_id match_id position db c =
      let P : Armed → Type 0 = λ a. IsFrozen M db a.db in
      Yields-bind P (match_question_at match_id position db) _ λ mq _.
        Yields-unless P (is_none mq.closed_at) _ λ _.
          Yields-bind P (match_by_id match_id db) _ λ m _.
            Yields-unless P (is_running m.status) _ λ _.
              Yields-bind P (question_by_id mq.question_id db) _ λ question _.
                Yields-bind P (room_by_id m.room_id db) _
                  λ room _. record { still = c; same_submissions = refl; same_scores = refl }

  close_tx-IsFrozen :
      (now event_id match_id position : ℕ) (db : Db)
      → Completed M db
      → Yields (λ (a : Closed). IsFrozen M db a.db) (close_tx now event_id match_id position db)
  unfolding close_tx
  close_tx-IsFrozen now event_id match_id position db c =
      let P : Closed → Type 0 = λ a. IsFrozen M db a.db in
      Yields-bind P (match_question_at match_id position db) _ λ mq _.
        Yields-unless P (is_none mq.closed_at) _ λ _.
          Yields-bind P (match_by_id match_id db) _ λ m _.
            Yields-unless P (is_running m.status) _ λ _.
              Yields-bind P (room_by_id m.room_id db) _
                λ room _. record { still = c; same_submissions = refl; same_scores = refl }

  after_arm-IsFrozen :
      (later task_id match_id position : ℕ) (w : World) (o : Option Armed)
      → Completed M w.db
      → Yields (λ (a : Armed). IsFrozen M w.db a.db) o
      → IsFrozen M w.db (after_arm later task_id match_id position w o).db
  after_arm-IsFrozen later task_id match_id position w none c h = IsFrozen-refl M w.db c
  after_arm-IsFrozen later task_id match_id position w (some a) c h = h

  after_close-IsFrozen :
      (current : Option ℕ) (now event_id task_id gap match_id position : ℕ) (w : World)
      (o : Option Closed)
      → Completed M w.db
      → Yields (λ (a : Closed). IsFrozen M w.db a.db) o
      → IsFrozen M w.db (after_close current now event_id task_id gap match_id position w o).db
  after_close-IsFrozen current now event_id task_id gap match_id position w none c h =
      IsFrozen-refl M w.db c
  after_close-IsFrozen current now event_id task_id gap match_id position w (some a) c h =
      elim (Bool-cases a.last_question) [
        | inl last ↦ rw last (
            IsFrozen-trans M w.db a.db _ h (
              end_match-IsFrozen current now _ none match_id
                (announce_closed match_id a (record w { db = a.db })) h.still))
        | inr more ↦ rw more h
      ]

  pub arm_question-IsFrozen :
      (now later event_id task_id match_id position : ℕ) (w : World)
      → Completed M w.db
      → IsFrozen M w.db (arm_question now later event_id task_id match_id position w).db
  unfolding arm_question
  arm_question-IsFrozen now later event_id task_id match_id position w c =
      after_arm-IsFrozen later task_id match_id position w _ c
        (arm_tx-IsFrozen now event_id match_id position w.db c)

  pub close_question-IsFrozen :
      (current : Option ℕ) (now event_id task_id gap match_id position : ℕ) (w : World)
      → Completed M w.db
      → IsFrozen M w.db (close_question current now event_id task_id gap match_id position w).db
  unfolding close_question
  close_question-IsFrozen current now event_id task_id gap match_id position w c =
      after_close-IsFrozen current now event_id task_id gap match_id position w _ c
        (close_tx-IsFrozen now event_id match_id position w.db c)
