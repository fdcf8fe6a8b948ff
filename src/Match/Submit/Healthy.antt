-- ===== src/Match/Submit/Healthy.antt =====
-- Without a fault, the hooks of `submit_answer` are those of Match.Submit.
use livequiz_platform.Prelude.{
  ℕ, ◌≡◌, refl, Option, none, some, List, str_eq, inl, inr, Bool-cases, Option-cases,
}
use livequiz_platform.Floats.{Floats}
use livequiz_platform.Errors.{Result, ok, err, ◌>>=◌}
use livequiz_platform.Store.{Db}
use livequiz_platform.Live.{Response, World}
use livequiz_platform.Live.Idempotency
use livequiz_platform.Match.Admission.{Request}
use livequiz_platform.Match.Submit.{
  Submitted, replayed, inserted, submit_tx, respond, update_leaderboard, submit_answer,
}
use livequiz_platform.Match.Submit.Faults.{
  SubmitOutcome, answered, raised, with_redis, same_redis, announce, read_then, name_then,
  mark_then, hooks, respond_then, submit_or_cached, submit_answer_faulty,
}

abbrev pub outcome_of : World → Result (Response × World) → SubmitOutcome × World
outcome_of w (err e) = (raised e, w)
outcome_of w (ok (response, after)) = (answered response, after)

module _ (zrevrange : (ℕ → Option ℕ) → ℕ → List (ℕ × ℕ)) (q : Request) (w : World) where
  respond_healthy :
      (x : Submitted × Db)
      → respond_then zrevrange none q.request_id (with_redis same_redis w) (ok x)
        ≡ outcome_of w (ok (respond zrevrange q.request_id x w))
  unfolding hooks mark_then name_then read_then announce update_leaderboard
  respond_healthy (replayed s, db) = refl
  respond_healthy (inserted s nickname question_id none, db) = refl
  respond_healthy (inserted s nickname question_id (some code), db) = refl

  settled_healthy :
      (r : Result (Submitted × Db))
      → respond_then zrevrange none q.request_id (with_redis same_redis w) r
        ≡ outcome_of w (r >>= λ x. ok (respond zrevrange q.request_id x w))
  settled_healthy (err e) = refl
  settled_healthy (ok x) = respond_healthy x

  -- When no command of Redis raises, both models of `submit_answer` agree.
  pub submit_answer_faulty-none :
      (fl : Floats)
      → submit_answer_faulty zrevrange none fl q w ≡ outcome_of w (submit_answer zrevrange fl q w)
  unfolding submit_answer_faulty submit_or_cached submit_answer Idempotency.get
  submit_answer_faulty-none fl = elim (Bool-cases (str_eq q.request_id "")) [
    | inl empty ↦ rw empty refl
    | inr named ↦ elim (Option-cases (w.redis.idem q.request_id)) [
      | inl fresh ↦ rw (named, fresh) (settled_healthy (submit_tx fl q w.db))
      | inr (cached, e) ↦ rw (named, e) refl
    ]
  ]
