-- ===== src/Match/Submit/Totals.antt =====
-- The live totals in Redis are the sums of the scores that the submissions were awarded.
use mathlib.Core.Path.{subst}
use livequiz_platform.Prelude.{
  ℕ, ◌+◌, String, ◌≡◌, refl, ap, ◌∙◌, sym, not, Option, none, some, List, [], ◌∷◌, select, str_eq,
  arith, ◌==◌, inl, inr, is_some, Bool-cases, if◌then◌else◌, All,
}
use livequiz_platform.Floats.{Floats}
use livequiz_platform.Errors.{require, validation_error, Leaves, Leaves-bind}
use livequiz_platform.Store.{AnswerSubmission, FinalScore, Db}
use livequiz_platform.Live.{World, Response}
use livequiz_platform.Live.Leaderboard.{total_of, score_or_zero, zadd_total}
use livequiz_platform.Live.Idempotency
use livequiz_platform.Match.Admission.{Request}
use livequiz_platform.Match.Finish.{of_match, final_scores_of}
use livequiz_platform.Match.Finish.Tally.{score_sum}
use livequiz_platform.Match.Finish.Ranking.{final_scores_of-IsResult, IsResult}
use livequiz_platform.Match.Submit.{
  Submitted, replayed, inserted, submit_tx, remember, respond, submit_uncached, submit_answer,
  update_leaderboard, replay_response, accepted_response,
}
use livequiz_platform.Match.Submit.Effect.{SubmitEffect, submit_tx_effect}

abbrev pub awarded : ℕ → ℕ → Db → ℕ
awarded match_id participant_id db =
    score_sum participant_id (select (of_match match_id) db.submissions)

-- Every total of the live leaderboard is the sum that the tables give.
abbrev pub Agrees : World → Type 0
Agrees w = (m p : ℕ) → total_of w.redis m p ≡ awarded m p w.db

module _ (zrevrange : (ℕ → Option ℕ) → ℕ → List (ℕ × ℕ)) where
  leaderboard-update :
      (s : AnswerSubmission) (nickname : String) (question_id : ℕ) (code : Option String)
      (w : World)
      → (update_leaderboard zrevrange s nickname question_id code w).1.redis.leaderboard
        ≡ (zadd_total s.match_id s.participant_id s.score_awarded w.redis).leaderboard
  unfolding update_leaderboard
  leaderboard-update s nickname question_id none w = refl
  leaderboard-update s nickname question_id (some c) w = refl

  pub db-update :
      (s : AnswerSubmission) (nickname : String) (question_id : ℕ) (code : Option String)
      (w : World)
      → (update_leaderboard zrevrange s nickname question_id code w).1.db ≡ w.db
  unfolding update_leaderboard
  db-update s nickname question_id none w = refl
  db-update s nickname question_id (some c) w = refl

  pub total_of-zadd_total :
      (m p delta m' p' : ℕ) (w : World)
      → total_of (zadd_total m p delta w.redis) m' p'
        ≡ total_of w.redis m' p' + (if m == m' then if p == p' then delta else 0 else 0)
  unfolding zadd_total
  total_of-zadd_total m p delta m' p' w = grind arith

  total_of-remember :
      (request_id : String) (r : Response) (w : World) (m p : ℕ)
      → total_of (remember request_id r w).redis m p ≡ total_of w.redis m p
  unfolding Idempotency.set
  total_of-remember request_id r w m p = elim (Bool-cases (is_some (w.redis.idem request_id))) [
    | inl taken ↦ rw taken refl
    | inr free ↦ rw free refl
  ]

  total_of-update :
      (s : AnswerSubmission) (nickname : String) (question_id : ℕ) (code : Option String)
      (w : World) (m p : ℕ)
      → total_of (update_leaderboard zrevrange s nickname question_id code w).1.redis m p
        ≡ total_of w.redis m p
          + (if s.match_id == m then if s.participant_id == p then s.score_awarded else 0 else 0)
  total_of-update s nickname question_id code w m p =
      ap (λ (f : ℕ → ℕ → Option ℕ). score_or_zero (f m p))
        (leaderboard-update s nickname question_id code w)
      ∙ total_of-zadd_total s.match_id s.participant_id s.score_awarded m p w

  pub awarded-insert :
      (s : AnswerSubmission) (subs : List AnswerSubmission) (m p : ℕ)
      → score_sum p (select (of_match m) (s ∷ subs))
        ≡ score_sum p (select (of_match m) subs)
          + (if s.match_id == m then if s.participant_id == p then s.score_awarded else 0 else 0)
  awarded-insert s subs m p = ground arith

  Agrees-respond :
      (q : Request) (x : Submitted) (db' : Db) (w : World)
      → Agrees w
      → SubmitEffect q w.db x db'
      → Agrees (respond zrevrange q.request_id (x, db') w).1
  Agrees-respond q (replayed s) db' w h e m p =
      total_of-remember q.request_id (replay_response s) (record w { db = db' }) m p
      ∙ h m p
      ∙ ap (awarded m p) (sym e.0)
  Agrees-respond q (inserted s n qid code) db' w h (a, v, for_q, free, e) m p =
      let (rank, w') = update_leaderboard zrevrange s n qid code (record w { db = db' }) in
      total_of-remember q.request_id (accepted_response s rank) w' m p
      ∙ total_of-update s n qid code (record w { db = db' }) m p
      ∙ ap
          (λ t.
            t
            + (if s.match_id == m then if s.participant_id == p then s.score_awarded else 0 else 0))
          (h m p)
      ∙ sym (awarded-insert s w.db.submissions m p)
      ∙ ap (awarded m p) (sym (db-update s n qid code (record w { db = db' }) ∙ e))

  Agrees-uncached :
      (fl : Floats) (q : Request) (cached : Option Response) (w : World)
      → Agrees w
      → Leaves (λ _ w'. Agrees w') (submit_uncached zrevrange fl q cached w)
  Agrees-uncached fl q (some c) w h = h
  Agrees-uncached fl q none w h =
      Leaves-bind (λ _ w'. Agrees w') (submit_tx fl q w.db) _
        λ x e.
          Agrees-respond q x.0 x.1 w h
            (subst (Leaves (SubmitEffect q w.db)) e (submit_tx_effect fl q w.db))

  -- While no command of Redis raises, `submit_answer` keeps the live totals equal to the sums of the
  -- awarded scores.
  pub submit_answer-Agrees :
      (fl : Floats) (q : Request) (w : World)
      → Agrees w
      → Leaves (λ _ w'. Agrees w') (submit_answer zrevrange fl q w)
  unfolding submit_answer Idempotency.get
  submit_answer-Agrees fl q w h =
      Leaves-bind (λ _ w'. Agrees w') (require (not (str_eq q.request_id "")) validation_error 422)
        _ λ _ _. Agrees-uncached fl q (w.redis.idem q.request_id) w h

abbrev pub IsLiveTotal : World → ℕ → FinalScore → Type 0
IsLiveTotal w match_id f = f.total_score ≡ total_of w.redis match_id f.participant_id

All-totals :
    (w : World) (match_id : ℕ) (scores : List FinalScore)
    → Agrees w
    → All (IsResult match_id (select (of_match match_id) w.db.submissions)) scores
    → All (IsLiveTotal w match_id) scores
All-totals w match_id [] h r = tt
All-totals w match_id (f ∷ scores) h r =
    (r.0.total ∙ sym (h match_id f.participant_id), All-totals w match_id scores h r.1)

-- While the live totals agree with the tables, every final score of a match is the total that the
-- live leaderboard shows.
pub final_scores_of-live :
    (match_id room_id : ℕ) (w : World)
    → Agrees w
    → All (IsLiveTotal w match_id) (final_scores_of match_id room_id w.db)
final_scores_of-live match_id room_id w h =
    All-totals w match_id (final_scores_of match_id room_id w.db) h
      (final_scores_of-IsResult match_id room_id w.db)
