-- ===== src/Match/Submit/Retry.antt =====
-- A retry of a request after its response is gone from the cache, and the unique constraints over
-- `submit_answer` as a whole.
use mathlib.Core.Path.{subst}
use livequiz_platform.Prelude.{
  ℕ, String, ◌≡◌, refl, sym, ap, ◌∙◌, false, not, Option, none, some, List, [], ◌∷◌, any, find,
  str_eq, arith,
}
use livequiz_platform.Floats.{Floats}
use livequiz_platform.Errors.{require, validation_error, Leaves, Leaves-bind, Leaves-map}
use livequiz_platform.Store.{AnswerSubmission, Db}
use livequiz_platform.Live.{World, Response}
use livequiz_platform.Live.Idempotency
use livequiz_platform.Match.Admission.{Request}
use livequiz_platform.Match.Submit.{
  collides, by_request, by_pair, or_else, Submitted, replayed, inserted, submit_tx, respond,
  submit_uncached, submit_answer,
}
use livequiz_platform.Match.Submit.Once.{IsUnique, UniqueAfter, submit_tx-IsUnique}
use livequiz_platform.Match.Submit.Effect.{SubmitEffect, submit_tx_effect}
use livequiz_platform.Match.Submit.Totals.{db-update}

-- What a retry leaves: the row that is already there, and the tables as they were.
abbrev pub IsReplay : AnswerSubmission → Db → Submitted → Db → Type 0
IsReplay s db x db' = (x ≡ replayed s) × (db' ≡ db)

find-free :
    (r : AnswerSubmission) (subs : List AnswerSubmission)
    → any (collides r) subs ≡ false
    → find (by_request r.request_id) subs ≡ none
find-free r [] h = refl
find-free r (t ∷ subs) h = ground (arith, find-free r subs)

IsReplay-effect :
    (q : Request) (db : Db) (s : AnswerSubmission) (x : Submitted) (db' : Db)
    → find (by_request q.request_id) db.submissions ≡ some s
    → SubmitEffect q db x db'
    → IsReplay s db x db'
IsReplay-effect q db s (replayed t) db' h e =
    let same : some s ≡ some t =
      sym
        (ap (λ o. or_else o (find (by_pair q.match_question_id q.participant_id) db.submissions)) h)
      ∙ e.1 in
    (cc, e.0)
IsReplay-effect q db s (inserted t n qid code) db' h (a, v, for_q, free, e) =
    let none_found : find (by_request q.request_id) db.submissions ≡ none =
      rw (← for_q.of_request) (find-free t db.submissions free) in
    cc

-- When a submission with the request's id is in the tables, the transaction raises or returns that
-- submission, and changes nothing: a retry never records a second answer.
pub submit_tx_retry :
    (fl : Floats) (q : Request) (db : Db) (s : AnswerSubmission)
    → find (by_request q.request_id) db.submissions ≡ some s
    → Leaves (IsReplay s db) (submit_tx fl q db)
submit_tx_retry fl q db s h =
    Leaves-map (submit_tx fl q db) (λ x db' e. IsReplay-effect q db s x db' h e)
      (submit_tx_effect fl q db)

module _ (zrevrange : (ℕ → Option ℕ) → ℕ → List (ℕ × ℕ)) where
  IsUnique-respond :
      (request_id : String) (x : Submitted) (db' : Db) (w : World)
      → IsUnique db'.submissions
      → IsUnique (respond zrevrange request_id (x, db') w).1.db.submissions
  IsUnique-respond request_id (replayed s) db' w u = u
  IsUnique-respond request_id (inserted s n qid code) db' w u =
      subst (λ (d : Db). IsUnique d.submissions)
        (sym (db-update zrevrange s n qid code (record w { db = db' }))) u

  IsUnique-uncached :
      (fl : Floats) (q : Request) (cached : Option Response) (w : World)
      → IsUnique w.db.submissions
      → Leaves (λ _ w'. IsUnique w'.db.submissions) (submit_uncached zrevrange fl q cached w)
  IsUnique-uncached fl q (some c) w u = u
  IsUnique-uncached fl q none w u =
      Leaves-bind (λ _ w'. IsUnique w'.db.submissions) (submit_tx fl q w.db) _
        λ x e.
          IsUnique-respond q.request_id x.0 x.1 w
            (subst (Leaves UniqueAfter) e (submit_tx-IsUnique fl q w.db u))

  -- `submit_answer` keeps at most one submission for an id, for a question and a participant, and for
  -- a request id.
  pub submit_answer-IsUnique :
      (fl : Floats) (q : Request) (w : World)
      → IsUnique w.db.submissions
      → Leaves (λ _ w'. IsUnique w'.db.submissions) (submit_answer zrevrange fl q w)
  unfolding submit_answer Idempotency.get
  submit_answer-IsUnique fl q w u =
      Leaves-bind (λ _ w'. IsUnique w'.db.submissions)
        (require (not (str_eq q.request_id "")) validation_error 422) _
        λ _ _. IsUnique-uncached fl q (w.redis.idem q.request_id) w u
