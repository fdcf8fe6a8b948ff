-- ===== src/Match/Submit/Effect.antt =====
-- What the transaction of `submit_answer` does to the tables.
use livequiz_platform.Prelude.{
  ℕ, ◌≡◌, refl, Bool, false, Option, none, some, List, ◌∷◌, inl, inr, arith, any, find, find_sound,
  ◌==◌, Bool-cases,
}
use livequiz_platform.Floats.{Floats}
use livequiz_platform.Errors.{ok, or_raise, answer_already_submitted, Leaves, Leaves-bind}
use livequiz_platform.Store.{MatchQuestion, AnswerSubmission, OutboxEvent, Payload, Db}
use livequiz_platform.Match.Queries.{question_by_id}
use livequiz_platform.Match.Admission.{Request, Admitted, admit}
use livequiz_platform.Match.Admission.Sound.{IsAdmissible, admit-IsAdmissible}
use livequiz_platform.Match.Grading.{grade, options_of}
use livequiz_platform.Match.Submit.{
  collides, by_request, by_pair, or_else, insert_submission, existing_submission, new_submission,
  Submitted, replayed, inserted, settle, submit_tx,
}

abbrev pub answer_event : Request → Admitted → AnswerSubmission → OutboxEvent
answer_event q a s = record {
  id = q.event_id;
  aggregate_type = "answer";
  aggregate_id = s.id;
  event_type = "AnswerSubmitted";
  payload = Payload.answer_submitted a.match.room_id a.mq.question_id q.now s;
  occurred_at = q.now;
  published_at = none;
  publish_attempts = 0;
}

-- A new row belongs to the request.
pub record IsFor (q : Request) (s : AnswerSubmission) : Type 0 where
  pub of_match : s.match_id ≡ q.match_id
  pub of_question : s.match_question_id ≡ q.match_question_id
  pub of_participant : s.participant_id ≡ q.participant_id
  pub of_request : s.request_id ≡ q.request_id

abbrev pub SubmitEffect : Request → Db → Submitted → Db → Type 0
SubmitEffect q db (replayed s) db' =
    (db' ≡ db)
    × (or_else (find (by_request q.request_id) db.submissions)
          (find (by_pair q.match_question_id q.participant_id) db.submissions)
        ≡ some s)
SubmitEffect q db (inserted s nickname question_id code) db' =
    (a : Admitted) × IsAdmissible q db a
    × IsFor q s
    × (any (collides s) db.submissions ≡ false)
    × (db'
        ≡ record db { submissions = s ∷ db.submissions; outbox = answer_event q a s ∷ db.outbox })

or_raise-found :
    (o : Option AnswerSubmission) {s : AnswerSubmission}
    → or_raise o answer_already_submitted 409 ≡ ok s
    → o ≡ some s
or_raise-found none h = cc
or_raise-found (some a) h = cc

existing_submission-found :
    (q : Request) (mq_id : ℕ) (subs : List AnswerSubmission) {s : AnswerSubmission}
    → mq_id ≡ q.match_question_id
    → existing_submission mq_id q.participant_id q.request_id subs ≡ ok s
    → or_else
        (find (by_request q.request_id) subs)
        (find (by_pair q.match_question_id q.participant_id) subs)
      ≡ some s
unfolding existing_submission
existing_submission-found q mq_id subs {s} e h = rw (← e) (or_raise-found _ h)

question_id :
    (q : Request) (db : Db) (a : Admitted) → IsAdmissible q db a → a.mq.id ≡ q.match_question_id
question_id q db a v =
    let found =
      find_sound (λ (x : MatchQuestion). x.id == q.match_question_id) db.match_questions {x = a.mq}
        v.question in
    ground arith

module _ (q : Request) (db : Db) (a : Admitted) (v : IsAdmissible q db a) where
  settle_effect :
      (s : AnswerSubmission)
      → IsFor q s
      → Leaves (SubmitEffect q db) (settle q a s (insert_submission s db.submissions) db)
  unfolding insert_submission
  settle_effect s for_q = elim (Bool-cases (any (collides s) db.submissions)) [
    | inl taken ↦ rw taken (
        Leaves-bind (SubmitEffect q db)
          (existing_submission a.mq.id q.participant_id q.request_id db.submissions) _
          λ e h.
            (refl, existing_submission-found q a.mq.id db.submissions (question_id q db a v) h))
    | inr free ↦ rw free (a, v, for_q, free, refl)
  ]

new_submission-IsFor :
    (q : Request) (db : Db) (a : Admitted) (v : IsAdmissible q db a) (fl : Floats) (ids : List ℕ)
    (b : Bool)
    → IsFor q (new_submission fl q a ids b db)
unfolding new_submission
new_submission-IsFor q db a v fl ids b = record {
  of_match = refl;
  of_question = question_id q db a v;
  of_participant = refl;
  of_request = refl;
}

-- Whatever the request and the tables: the transaction raises and changes nothing; or it records
-- one new row of the request, which collides with none, and one event, for an admissible request;
-- or it returns the row of the same request, else the row of the same participant and question, and
-- changes nothing.
pub submit_tx_effect :
    (fl : Floats) (q : Request) (db : Db) → Leaves (SubmitEffect q db) (submit_tx fl q db)
unfolding submit_tx
submit_tx_effect fl q db = Leaves-bind (SubmitEffect q db) (admit q db) _ λ a h.
    let v = admit-IsAdmissible q db h in
    Leaves-bind (SubmitEffect q db)
      (grade q.selected_option_ids (options_of (question_by_id a.mq.question_id db))) _
      λ g _.
        settle_effect q db a v (new_submission fl q a g.0 g.1 db)
          (new_submission-IsFor q db a v fl g.0 g.1)
