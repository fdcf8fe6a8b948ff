-- ===== src/Match/Timers.antt =====
-- What becomes of a match at the edges of its timers and of its live state.
use mathlib.Core.Path.{subst}
use livequiz_platform.Prelude.{
  ℕ, String, ◌≡◌, refl, ◌∙◌, true, false, Option, none, some, map, select, ==_refl, ◌==◌,
  if◌then◌else◌, inl, inr, Bool-cases, is_none, is_some,
}
use livequiz_platform.Prelude.Optional.{Yields, Yields-bind, Yields-unless}
use livequiz_platform.Errors.{
  ok, Leaves, Leaves-bind, or_raise, require, room_not_found, forbidden, room_not_joinable,
}
use livequiz_platform.Store.{Match, Db, RoomStatus, is_running, is_paused, running}
use livequiz_platform.Live.{World, PauseState, Redis}
use livequiz_platform.Live.Scheduler.{MatchScheduler, Task, cancels_itself}
use livequiz_platform.Live.Leaderboard.{reset, set_nicknames}
use livequiz_platform.Match.Queries.{
  match_by_id, match_by_room_id, room_by_id, room_by_code, match_question_at, next_unstarted,
}
use livequiz_platform.Match.Start.{
  start, start_match, seed_live_state, write_status, is_active_in, is_empty, nickname_pair,
}
use livequiz_platform.Match.Finish.{end_match}
use livequiz_platform.Match.Questions.{
  Closed, close_tx, after_close, announce_closed, close_question,
}
use livequiz_platform.Match.Control.{pause_or_none, rearm, resume_tx, resume_match}

-- The task that runs is the match's registered one.
abbrev pub IsOwnTimer : Task → ℕ → World → Type 0
IsOwnTimer task match_id w =
    (w.scheduler.active match_id ≡ some task) × (w.scheduler.done task.task_id ≡ false)

-- No match, no room and no final score is touched.
abbrev pub NothingEnded : Db → Db → Type 0
NothingEnded db db' =
    (db'.matches ≡ db.matches) × (db'.rooms ≡ db.rooms) × (db'.final_scores ≡ db.final_scores)

cancels_own :
    (task : Task) (match_id : ℕ) (w : World)
    → IsOwnTimer task match_id w
    → cancels_itself match_id (some task.task_id) w.scheduler ≡ true
cancels_own task match_id w (a, d) = rw (a, ==_refl task.task_id, d) refl

end_match-NothingEnded :
    (task : Task) (now event_id : ℕ) (host_id : Option ℕ) (match_id : ℕ) (w : World)
    → IsOwnTimer task match_id w
    → NothingEnded w.db (end_match (some task.task_id) now event_id host_id match_id w).1.db
unfolding end_match
end_match-NothingEnded task now event_id host_id match_id w own =
    rw (cancels_own task match_id w own) (refl, refl, refl)

close_tx-NothingEnded :
    (now event_id match_id position : ℕ) (db : Db)
    → Yields (λ (c : Closed). NothingEnded db c.db) (close_tx now event_id match_id position db)
unfolding close_tx
close_tx-NothingEnded now event_id match_id position db =
    let P : Closed → Type 0 = λ c. NothingEnded db c.db in
    Yields-bind P (match_question_at match_id position db) _ λ mq _.
      Yields-unless P (is_none mq.closed_at) _ λ _. Yields-bind P (match_by_id match_id db) _ λ m _.
        Yields-unless P (is_running m.status) _
          λ _. Yields-bind P (room_by_id m.room_id db) _ λ room _. (refl, refl, refl)

after_close-NothingEnded :
    (task : Task) (now event_id task_id gap match_id position : ℕ) (w : World) (o : Option Closed)
    → IsOwnTimer task match_id w
    → Yields (λ (c : Closed). NothingEnded w.db c.db) o
    → NothingEnded w.db
        (after_close (some task.task_id) now event_id task_id gap match_id position w o).db
after_close-NothingEnded task now event_id task_id gap match_id position w none own h =
    (refl, refl, refl)
after_close-NothingEnded task now event_id task_id gap match_id position w (some c) own h =
    elim (Bool-cases c.last_question) [
      | inl last ↦ rw last (
          let e =
            end_match-NothingEnded task now _ none match_id
              (announce_closed match_id c (record w { db = c.db })) own in
          (e.0 ∙ h.0, e.1 ∙ h.1, e.2 ∙ h.2))
      | inr more ↦ rw more h
    ]

-- When the timer that a match has registered closes a question, no match ends and no final score is
-- written, also when the question is the last one: `end_match` cancels the task that runs it.
pub close_question-NothingEnded :
    (task : Task) (now event_id task_id gap match_id position : ℕ) (w : World)
    → IsOwnTimer task match_id w
    → NothingEnded w.db
        (close_question (some task.task_id) now event_id task_id gap match_id position w).db
unfolding close_question
close_question-NothingEnded task now event_id task_id gap match_id position w own =
    after_close-NothingEnded task now event_id task_id gap match_id position w _ own
      (close_tx-NothingEnded now event_id match_id position w.db)

nicknames-reset :
    (match_id p : ℕ) (code : String) (status : RoomStatus) (r : Redis)
    → (write_status code status (reset match_id r)).nicknames match_id p ≡ none
unfolding reset
nicknames-reset match_id p code status r = elim (Bool-cases (is_some (r.room_status code))) [
  | inl cached ↦ rw (cached, ==_refl match_id) refl
  | inr missing ↦ rw (missing, ==_refl match_id) refl
]

seed_live_state-empty :
    (m : Match) (code : String) (db : Db) (r : Redis) (p : ℕ)
    → (seed_live_state m code db r).nicknames m.id p ≡ none
unfolding seed_live_state
seed_live_state-empty m code db r p =
    let parts = select (is_active_in m.room_id) db.participants in
    nicknames-reset m.id p code running
      (if is_empty parts then r else set_nicknames m.id (map nickname_pair parts) r)

abbrev pub NoNames : Match → World → Type 0
NoNames m w = (p : ℕ) → w.redis.nicknames m.id p ≡ none

-- A match that has just been started has no nickname in its live state, whoever is in the room: the
-- reset comes after the nicknames are set.
pub start-NoNames :
    (now : ℕ) (next_id : ℕ → ℕ) (task_id host_id : ℕ) (code : String) (w : World)
    → Leaves NoNames (start now next_id task_id host_id code w)
unfolding start
start-NoNames now next_id task_id host_id code w =
    Leaves-bind NoNames (start_match now next_id host_id code w.db) _
      λ x _ p. seed_live_state-empty x.0 code x.1 w.redis p

-- If the pause left no time of the open question, and every question was started, then the
-- scheduler has no more to do than before the resume.
pub rearm-idle :
    (task_id match_id position : ℕ) (db : Db) (s : MatchScheduler)
    → next_unstarted match_id db ≡ none
    → rearm task_id match_id (some position) 0 db s ≡ s
rearm-idle task_id match_id position db s h = rw h refl

resume_tx-state :
    (now host_id : ℕ) (code : String) (redis : Redis) (db : Db)
    → Leaves (λ x _. x.1 ≡ pause_or_none (redis.pause x.0.id)) (resume_tx now host_id code redis db)
unfolding resume_tx
resume_tx-state now host_id code redis db =
    let P : Match × PauseState → Db → Type 0 = λ x _. x.1 ≡ pause_or_none (redis.pause x.0.id) in
    Leaves-bind P (or_raise (room_by_code code db) room_not_found 404) _ λ room _.
      Leaves-bind P (require (room.host_id == host_id) forbidden 403) _ λ _ _.
        Leaves-bind P (or_raise (match_by_room_id room.id db) room_not_joinable 409) _
          λ m _. Leaves-bind P (require (is_paused m.status) room_not_joinable 409) _ λ _ _. refl

-- The pause was stored for a question with no time left, and every question was started.
abbrev PausedOut : ℕ → World → World → Match → Type 0
PausedOut position w w' m =
    (w.redis.pause m.id ≡ some (record { position = some position; remaining_ms = 0 }))
    × (next_unstarted m.id w'.db ≡ none)

resume_match-rearm :
    (now task_id host_id position : ℕ) (code : String) (w : World)
    → Leaves
        (λ m w'. PausedOut position w w' m → w'.scheduler ≡ w.scheduler)
        (resume_match now task_id host_id code w)
unfolding resume_match
resume_match-rearm now task_id host_id position code w =
    Leaves-bind (λ m w'. PausedOut position w w' m → w'.scheduler ≡ w.scheduler)
      (resume_tx now host_id code w.redis w.db) _
      λ x e h.
        let state =
          subst (Leaves (λ y _. y.1 ≡ pause_or_none (w.redis.pause y.0.id))) e
            (resume_tx-state now host_id code w.redis w.db) in
        rw (state, h.0) (rearm-idle task_id x.0.0.id position x.1 w.scheduler h.1)

-- A match whose pause left no time of the question that was open, and in which every question was
-- started, has after a resume only the timers it had before it: nothing closes that question.
pub resume_match-idle :
    (now task_id host_id position : ℕ) (code : String) (w w' : World) (m : Match)
    → resume_match now task_id host_id code w ≡ ok (m, w')
    → w.redis.pause m.id ≡ some (record { position = some position; remaining_ms = 0 })
    → next_unstarted m.id w'.db ≡ none
    → w'.scheduler ≡ w.scheduler
resume_match-idle now task_id host_id position code w w' m e left last =
    subst (Leaves (λ n v. PausedOut position w v n → v.scheduler ≡ w.scheduler)) e
      (resume_match-rearm now task_id host_id position code w) (left, last)
