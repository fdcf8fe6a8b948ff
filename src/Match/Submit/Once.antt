-- ===== src/Match/Submit/Once.antt =====
-- Submissions are unique, and a repeated request has one effect.
use mathlib.Core.Path.{subst}
use livequiz_platform.Prelude.{
  ℕ, String, ◌≡◌, refl, ap, ◌∙◌, false, Option, none, some, not, List, [], ◌∷◌, arith, any, str_eq,
  eq_iff, inl, inr, Bool-cases,
}
use livequiz_platform.Floats.{Floats}
use livequiz_platform.Errors.{ok, require, validation_error, Leaves, Leaves-bind}
use livequiz_platform.Store.{AnswerSubmission, Db}
use livequiz_platform.Live.{World, Response, Message}
use livequiz_platform.Live.Idempotency
use livequiz_platform.Match.Admission.{Request, Admitted, admit}
use livequiz_platform.Match.Grading.{grade, options_of}
use livequiz_platform.Match.Queries.{question_by_id}
use livequiz_platform.Match.Submit.{
  collides, insert_submission, existing_submission, new_submission, Submitted, replayed, inserted,
  settle, submit_tx, replay_response, accepted_response, broadcast_to, remember, respond,
  submit_uncached, submit_answer, update_leaderboard,
}

-- No two rows collide on the primary key or on a unique constraint.
abbrev pub IsUnique : List AnswerSubmission → Type 0
IsUnique [] = Unit
IsUnique (s ∷ subs) = (any (collides s) subs ≡ false) × IsUnique subs

abbrev pub UniqueAfter : Submitted → Db → Type 0
UniqueAfter _ db = IsUnique db.submissions

settle-IsUnique :
    (q : Request) (a : Admitted) (s : AnswerSubmission) (db : Db)
    → IsUnique db.submissions
    → Leaves UniqueAfter (settle q a s (insert_submission s db.submissions) db)
unfolding insert_submission
settle-IsUnique q a s db u = elim (Bool-cases (any (collides s) db.submissions)) [
  | inl taken ↦ rw taken (
      Leaves-bind UniqueAfter
        (existing_submission a.mq.id q.participant_id q.request_id db.submissions) _ (λ e _. u))
  | inr free ↦ rw free (free, u)
]

pub submit_tx-IsUnique :
    (fl : Floats) (q : Request) (db : Db)
    → IsUnique db.submissions
    → Leaves UniqueAfter (submit_tx fl q db)
unfolding submit_tx
submit_tx-IsUnique fl q db u = Leaves-bind UniqueAfter (admit q db) _ λ a _.
    Leaves-bind UniqueAfter
      (grade q.selected_option_ids (options_of (question_by_id a.mq.question_id db))) _
      λ g _. settle-IsUnique q a (new_submission fl q a g.0 g.1 db) db u

module _ (zrevrange : (ℕ → Option ℕ) → ℕ → List (ℕ × ℕ)) where
  idem-broadcast_to :
      (code : Option String) (m : Message) (w : World)
      → (broadcast_to code m w).redis.idem ≡ w.redis.idem
  idem-broadcast_to none m w = refl
  idem-broadcast_to (some code) m w = refl

  idem-update_leaderboard :
      (s : AnswerSubmission) (nickname : String) (question_id : ℕ) (code : Option String)
      (w : World)
      → (update_leaderboard zrevrange s nickname question_id code w).1.redis.idem ≡ w.redis.idem
  unfolding update_leaderboard
  idem-update_leaderboard s nickname question_id code w = idem-broadcast_to code _ _

  remember-idem :
      (request_id : String) (r : Response) (w : World)
      → w.redis.idem request_id ≡ none
      → (remember request_id r w).redis.idem request_id ≡ some r
  unfolding Idempotency.set
  remember-idem request_id r w h = rw h (ground (arith, eq_iff request_id request_id))

  respond-idem :
      (request_id : String) (x : Submitted × Db) (w : World)
      → w.redis.idem request_id ≡ none
      → (respond zrevrange request_id x w).1.redis.idem request_id
        ≡ some (respond zrevrange request_id x w).0
  respond-idem request_id (replayed s, db) w h =
      remember-idem request_id (replay_response s) (record w { db = db }) h
  respond-idem request_id (inserted s nickname question_id code, db) w h =
      let (rank, w') =
        update_leaderboard zrevrange s nickname question_id code (record w { db = db }) in
      remember-idem request_id (accepted_response s rank) w' (
        ap (λ (f : String → Option Response). f request_id)
          (idem-update_leaderboard s nickname question_id code (record w { db = db }))
        ∙ h)

  abbrev Remembered : String → Response → World → Type 0
  Remembered request_id r w = w.redis.idem request_id ≡ some r

  -- An answered request has its response in the cache.
  answered-idem :
      (fl : Floats) (q : Request) (cached : Option Response) (w : World)
      → w.redis.idem q.request_id ≡ cached
      → Leaves (Remembered q.request_id) (submit_uncached zrevrange fl q cached w)
  answered-idem fl q (some c) w e = e
  answered-idem fl q none w e =
      Leaves-bind (Remembered q.request_id) (submit_tx fl q w.db) _
        λ x _. respond-idem q.request_id x w e

  submit_answer_idem :
      (fl : Floats) (q : Request) (w : World)
      → Leaves (Remembered q.request_id) (submit_answer zrevrange fl q w)
  unfolding submit_answer Idempotency.get
  submit_answer_idem fl q w =
      Leaves-bind (Remembered q.request_id)
        (require (not (str_eq q.request_id "")) validation_error 422) _
        λ _ _. answered-idem fl q (w.redis.idem q.request_id) w refl

  -- A request that was answered is answered the same when its id is sent again in the world that it
  -- left, whatever else the second request asks, and the second one changes nothing.
  pub submit_answer_again :
      (fl : Floats) (q q' : Request) (w w' : World) {r : Response}
      → submit_answer zrevrange fl q w ≡ ok (r, w')
      → q'.request_id ≡ q.request_id
      → submit_answer zrevrange fl q' w' ≡ ok (r, w')
  unfolding submit_answer Idempotency.get
  submit_answer_again fl q q' w w' {r} h same =
      let found : w'.redis.idem q.request_id ≡ some r =
        subst (Leaves (Remembered q.request_id)) h (submit_answer_idem fl q w) in
      elim (Bool-cases (str_eq q.request_id "")) [
        | inl empty ↦ ground arith
        | inr named ↦ rw (same, named, found)
      ]
