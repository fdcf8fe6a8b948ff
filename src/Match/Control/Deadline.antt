-- ===== src/Match/Control/Deadline.antt =====
-- What a pause and a resume do to the deadline of the open question.
use livequiz_platform.Prelude.{
  ℕ, ◌+◌, ◌-◌, ◌*◌, ◌^◌, ◌<◌, ◌≡◌, refl, ap, ◌∙◌, Bool, true, Option, none, some, List, [], ◌∷◌,
  find, find_sound, update_where, arith, if◌then◌else◌, inl, inr, Bool-cases,
}
use livequiz_platform.Floats.{Floats}
use livequiz_platform.Store.{MatchQuestion, Db}
use livequiz_platform.Match.Queries.{is_at, match_question_at, us_per_second, us_per_ms}
use livequiz_platform.Match.Control.{pause_state, left_until, extend_deadline, is_open_at}

module _ {A : Type 0} (p q : A → Bool) (f : A → A) (same : (x : A) → p (f x) ≡ p x) where
  abbrev on_found : Option A → Option A
  on_found none = none
  on_found (some x) = some (if q x then f x else x)

  -- The row that a query finds after an update, by the row that it found before.
  find-update_where : (xs : List A) → find p (update_where q f xs) ≡ on_found (find p xs)
  find-update_where [] = refl
  find-update_where (y ∷ xs) = elim (Bool-cases (p y)) [
    | inl hit ↦ elim (Bool-cases (q y)) [
      | inl chosen ↦ rw (hit, chosen, same y, hit) refl
      | inr left ↦ rw (hit, left, hit) refl
    ]
    | inr miss ↦ elim (Bool-cases (q y)) [
      | inl chosen ↦ rw (miss, chosen, same y, miss) (find-update_where xs)
      | inr left ↦ rw (miss, left, miss) (find-update_where xs)
    ]
  ]

abbrev pub with_deadline : ℕ → MatchQuestion → MatchQuestion
with_deadline deadline mq = record mq { deadline_at = some deadline }

-- The open question of a pause with a whole number of seconds left has, once the deadline is
-- extended at a resume, the same number of seconds left from the resume on.
pub extend_deadline-pause_state :
    (fl : Floats) (paused_at resumed_at seconds match_id : ℕ) (mq : MatchQuestion) (db : Db)
    → match_question_at match_id mq.position db ≡ some mq
    → mq.closed_at ≡ none
    → mq.deadline_at ≡ some (paused_at + seconds * us_per_second)
    → seconds < 2 ^ 40
    → let state = pause_state fl paused_at (some mq) in
      match_question_at match_id mq.position
        (extend_deadline resumed_at match_id state.position state.remaining_ms db)
      ≡ some (with_deadline (resumed_at + seconds * us_per_second) mq)
extend_deadline-pause_state fl paused_at resumed_at seconds match_id mq db found opened due small =
    let here = is_at match_id mq.position in
    let left = left_until fl paused_at mq.deadline_at in
    let span : paused_at + seconds * us_per_second - paused_at ≡ seconds * us_per_second =
      omega arith in
    let ms : left ≡ seconds * 1000 = rw due (
      ap (λ d. fl.trunc (fl.mul (fl.total_seconds d) (fl.of_int 1000))) span
      ∙ fl.elapsed_seconds seconds small) in
    let us : left * us_per_ms ≡ seconds * us_per_second = omega (arith, ms) in
    let at : here mq ≡ true = find_sound here db.match_questions {x = mq} found in
    let is_open : is_open_at match_id mq.position mq ≡ true = rw (at, opened) refl in
    find-update_where here (is_open_at match_id mq.position)
      (λ x. record x { deadline_at = some (resumed_at + left * us_per_ms) }) (λ _. refl)
      db.match_questions
    ∙ rw (found, is_open) (ap (λ k. some (with_deadline (resumed_at + k) mq)) us)
