-- ===== src/Match/Lifecycle/Requests.antt =====
-- A completed match through the operations that the host and the players request.
use mathlib.Core.Path.{subst}
use livequiz_platform.Prelude.{
  ℕ, String, ◌≡◌, refl, sym, true, false, not, Option, none, some, List, find, find_sound, arith,
  ◌==◌, is_some, str_eq,
}
use livequiz_platform.Floats.{Floats}
use livequiz_platform.Errors.{
  Leaves, Leaves-bind, or_raise, or_raise-some, require, require-true, room_not_found, forbidden,
  room_not_joinable, validation_error,
}
use livequiz_platform.Store.{
  Match, Room, QuizSet, Db, RoomStatus, running, paused, is_running, is_paused, is_completed,
  is_lobby,
}
use livequiz_platform.Live.{World, PauseState, Redis, Response}
use livequiz_platform.Live.Idempotency
use livequiz_platform.Match.Queries.{match_by_id, match_by_room_id, room_by_code}
use livequiz_platform.Match.Start.{start_match, start, create_match, questions_of, is_empty}
use livequiz_platform.Match.Control.{
  set_status, pause_tx, pause_match, extend_deadline, resume_tx, resume_match,
}
use livequiz_platform.Match.Admission.{Request}
use livequiz_platform.Match.Submit.{
  Submitted, replayed, inserted, submit_tx, submit_answer, submit_uncached, respond,
}
use livequiz_platform.Match.Submit.Effect.{SubmitEffect, submit_tx_effect}
use livequiz_platform.Match.Submit.Totals.{db-update}
use livequiz_platform.Match.Lifecycle.Completed.{
  Completed, IsFrozen, IsFrozen-refl, set_status-IsFrozen, other_match,
}

running_not_completed : (s : RoomStatus) → is_running s ≡ true → is_completed s ≡ false
running_not_completed s h = ground arith

paused_not_completed : (s : RoomStatus) → is_paused s ≡ true → is_completed s ≡ false
paused_not_completed s h = ground arith

module _ (M : ℕ) where
  pause_tx-IsFrozen :
      (fl : Floats) (now host_id : ℕ) (code : String) (db : Db)
      → Completed M db
      → Leaves (λ _ db'. IsFrozen M db db') (pause_tx fl now host_id code db)
  unfolding pause_tx
  pause_tx-IsFrozen fl now host_id code db c =
      let P : Match × PauseState → Db → Type 0 = λ _ db'. IsFrozen M db db' in
      Leaves-bind P (or_raise (room_by_code code db) room_not_found 404) _ λ room _.
        Leaves-bind P (require (room.host_id == host_id) forbidden 403) _ λ _ _.
          Leaves-bind P (or_raise (match_by_room_id room.id db) room_not_joinable 409) _ λ m e.
            Leaves-bind P (require (is_running m.status) room_not_joinable 409) _ λ _ r.
              set_status-IsFrozen M paused room m db
                (other_match M (λ (x : Match). x.room_id == room.id) db m c
                  (or_raise-some (match_by_room_id room.id db) _ _ e)
                  (running_not_completed m.status (require-true (is_running m.status) _ _ r)))
                c

  pub pause_match-IsFrozen :
      (fl : Floats) (now host_id : ℕ) (code : String) (w : World)
      → Completed M w.db
      → Leaves (λ _ w'. IsFrozen M w.db w'.db) (pause_match fl now host_id code w)
  unfolding pause_match
  pause_match-IsFrozen fl now host_id code w c =
      Leaves-bind (λ _ w'. IsFrozen M w.db w'.db) (pause_tx fl now host_id code w.db) _
        λ x e.
          subst (Leaves (λ _ db'. IsFrozen M w.db db')) e
            (pause_tx-IsFrozen fl now host_id code w.db c)

  extend_deadline-Completed :
      (now match_id : ℕ) (position : Option ℕ) (left : ℕ) (status : RoomStatus) (room : Room)
      (m : Match) (db : Db)
      → (m.id == M) ≡ false
      → Completed M db
      → IsFrozen M db (set_status status room m (extend_deadline now match_id position left db))
  extend_deadline-Completed now match_id none left status room m db o c =
      set_status-IsFrozen M status room m db o c
  extend_deadline-Completed now match_id (some p) left status room m db o c =
      let f =
        set_status-IsFrozen M status room m (extend_deadline now match_id (some p) left db) o c in
      record { still = f.still; same_submissions = refl; same_scores = refl }

  resume_tx-IsFrozen :
      (now host_id : ℕ) (code : String) (redis : Redis) (db : Db)
      → Completed M db
      → Leaves (λ _ db'. IsFrozen M db db') (resume_tx now host_id code redis db)
  unfolding resume_tx
  resume_tx-IsFrozen now host_id code redis db c =
      let P : Match × PauseState → Db → Type 0 = λ _ db'. IsFrozen M db db' in
      Leaves-bind P (or_raise (room_by_code code db) room_not_found 404) _ λ room _.
        Leaves-bind P (require (room.host_id == host_id) forbidden 403) _ λ _ _.
          Leaves-bind P (or_raise (match_by_room_id room.id db) room_not_joinable 409) _ λ m e.
            Leaves-bind P (require (is_paused m.status) room_not_joinable 409) _ λ _ r.
              extend_deadline-Completed now m.id _ _ running room m db
                (other_match M (λ (x : Match). x.room_id == room.id) db m c
                  (or_raise-some (match_by_room_id room.id db) _ _ e)
                  (paused_not_completed m.status (require-true (is_paused m.status) _ _ r)))
                c

  pub resume_match-IsFrozen :
      (now task_id host_id : ℕ) (code : String) (w : World)
      → Completed M w.db
      → Leaves (λ _ w'. IsFrozen M w.db w'.db) (resume_match now task_id host_id code w)
  unfolding resume_match
  resume_match-IsFrozen now task_id host_id code w c =
      Leaves-bind (λ _ w'. IsFrozen M w.db w'.db) (resume_tx now host_id code w.redis w.db) _
        λ x e.
          subst (Leaves (λ _ db'. IsFrozen M w.db db')) e
            (resume_tx-IsFrozen now host_id code w.redis w.db c)

  create_match-IsFrozen :
      (now : ℕ) (next_id : ℕ → ℕ) (room : Room) (quiz : QuizSet) (db : Db)
      → match_by_id (next_id 0) db ≡ none
      → Completed M db
      → IsFrozen M db (create_match now next_id room quiz db).1
  unfolding create_match
  create_match-IsFrozen now next_id room quiz db fresh c = record {
    still = (
      ground arith,
      ((λ e. let found : is_some (match_by_id M db) ≡ false = rw (← e, fresh) refl in cc), c.1),
    );
    same_submissions = refl;
    same_scores = refl;
  }

  start_match-IsFrozen :
      (now : ℕ) (next_id : ℕ → ℕ) (host_id : ℕ) (code : String) (db : Db)
      → match_by_id (next_id 0) db ≡ none
      → Completed M db
      → Leaves (λ _ db'. IsFrozen M db db') (start_match now next_id host_id code db)
  unfolding start_match
  start_match-IsFrozen now next_id host_id code db fresh c =
      let P : Match → Db → Type 0 = λ _ db'. IsFrozen M db db' in
      Leaves-bind P (or_raise (room_by_code code db) room_not_found 404) _ λ room _.
        Leaves-bind P (require (room.host_id == host_id) forbidden 403) _ λ _ _.
          Leaves-bind P (require (is_lobby room.status) room_not_joinable 409) _ λ _ _.
            Leaves-bind P
              (or_raise (find (λ (q : QuizSet). q.id == room.quiz_set_id) db.quiz_sets)
                validation_error 422)
              _
              λ quiz _.
                Leaves-bind P
                  (require (not (is_empty (questions_of quiz.id db))) validation_error 422) _
                  λ _ _. create_match-IsFrozen now next_id room quiz db fresh c

  pub start-IsFrozen :
      (now : ℕ) (next_id : ℕ → ℕ) (task_id host_id : ℕ) (code : String) (w : World)
      → match_by_id (next_id 0) w.db ≡ none
      → Completed M w.db
      → Leaves (λ _ w'. IsFrozen M w.db w'.db) (start now next_id task_id host_id code w)
  unfolding start
  start-IsFrozen now next_id task_id host_id code w fresh c =
      Leaves-bind (λ _ w'. IsFrozen M w.db w'.db) (start_match now next_id host_id code w.db) _
        λ x e.
          subst (Leaves (λ _ db'. IsFrozen M w.db db')) e
            (start_match-IsFrozen now next_id host_id code w.db fresh c)

  effect-IsFrozen :
      (q : Request) (db : Db) (x : Submitted) (db' : Db)
      → Completed M db
      → SubmitEffect q db x db'
      → IsFrozen M db db'
  effect-IsFrozen q db (replayed s) db' c e = rw e.0 (IsFrozen-refl M db c)
  effect-IsFrozen q db (inserted s n qid code) db' c (a, v, for_q, free, e) =
      let is_same =
        find_sound (λ (x : Match). x.id == q.match_id) db.matches {x = a.match} v.match_found in
      let live : is_completed a.match.status ≡ false = rw v.is_live refl in
      let apart =
        other_match M (λ (x : Match). x.id == q.match_id) db a.match c v.match_found live in
      let other : (s.match_id == M) ≡ false = (let same = for_q.of_match in ground arith) in
      rw e (record { still = c; same_submissions = rw other refl; same_scores = refl })

  module _ (zrevrange : (ℕ → Option ℕ) → ℕ → List (ℕ × ℕ)) where
    respond-IsFrozen :
        (request_id : String) (x : Submitted) (db' : Db) (w : World)
        → IsFrozen M w.db db'
        → IsFrozen M w.db (respond zrevrange request_id (x, db') w).1.db
    respond-IsFrozen request_id (replayed s) db' w f = f
    respond-IsFrozen request_id (inserted s n qid code) db' w f =
        subst (IsFrozen M w.db) (sym (db-update zrevrange s n qid code (record w { db = db' }))) f

    uncached-IsFrozen :
        (fl : Floats) (q : Request) (cached : Option Response) (w : World)
        → Completed M w.db
        → Leaves (λ _ w'. IsFrozen M w.db w'.db) (submit_uncached zrevrange fl q cached w)
    uncached-IsFrozen fl q (some r) w c = IsFrozen-refl M w.db c
    uncached-IsFrozen fl q none w c =
        Leaves-bind (λ _ w'. IsFrozen M w.db w'.db) (submit_tx fl q w.db) _
          λ x e. respond-IsFrozen q.request_id x.0 x.1 w (
            effect-IsFrozen q w.db x.0 x.1 c
              (subst (Leaves (SubmitEffect q w.db)) e (submit_tx_effect fl q w.db)))

    pub submit_answer-IsFrozen :
        (fl : Floats) (q : Request) (w : World)
        → Completed M w.db
        → Leaves (λ _ w'. IsFrozen M w.db w'.db) (submit_answer zrevrange fl q w)
    unfolding submit_answer Idempotency.get
    submit_answer-IsFrozen fl q w c =
        Leaves-bind (λ _ w'. IsFrozen M w.db w'.db)
          (require (not (str_eq q.request_id "")) validation_error 422) _
          λ _ _. uncached-IsFrozen fl q (w.redis.idem q.request_id) w c
