-- ===== src/Match/Submit/Behind.antt =====
-- The live totals after `submit_answer`, whichever command of Redis raises.
use livequiz_platform.Prelude.{
  ℕ, ◌+◌, ◌≡◌, ◌⊎◌, refl, ap, sym, ◌∙◌, String, true, false, Option, none, some, List, [], ◌∷◌,
  is_some, select, str_eq, ◌==◌, if◌then◌else◌, inl, inr, Bool-cases, Option-cases,
}
use livequiz_platform.Floats.{Floats}
use livequiz_platform.Errors.{Result, ok, err, Leaves}
use livequiz_platform.Store.{AnswerSubmission, Db}
use livequiz_platform.Live.{Redis, Response, Entry, Message, World}
use livequiz_platform.Live.Leaderboard.{
  score_or_zero, zadd_total, mark_answered, set_nicknames, top,
}
use livequiz_platform.Live.Idempotency
use livequiz_platform.Match.Admission.{Request}
use livequiz_platform.Match.Submit.{
  Submitted, replayed, inserted, submit_tx, replay_response, accepted_response, rank_in,
  broadcast_to,
}
use livequiz_platform.Match.Submit.Effect.{SubmitEffect, submit_tx_effect, IsFor}
use livequiz_platform.Match.Submit.Totals.{Agrees, awarded, awarded-insert, total_of-zadd_total}
use livequiz_platform.Match.Submit.Faults.{
  Command, zadd, set_cached, get_cached, sadd_answered, hset_nickname, read_top, incr_version,
  Fault, SubmitOutcome, redis_error, raises, took_effect, with_redis, command_then, set_response,
  answer_with, remember_then, set_version, same_redis, finish, announce, read_then, name_then,
  mark_then, hooks, respond_then, submit_or_cached, submit_answer_faulty,
}
use livequiz_platform.Match.Finish.{of_match}
use livequiz_platform.Match.Finish.Tally.{score_sum}

-- The command that raised is the one which adds the score, and Redis has not carried it out: the row
-- of the request is recorded and Redis is as it was.
pub record Unscored (fault : Option Fault) (q : Request) (w : World) (r : SubmitOutcome × World)
    : Type 0 where
  pub at_zadd : raises fault zadd ≡ true
  pub not_applied : took_effect fault ≡ false
  pub told : r.0 ≡ redis_error
  pub redis : r.1.redis ≡ w.redis
  pub row : AnswerSubmission
  pub of_request : IsFor q row
  pub recorded : r.1.db.submissions ≡ row ∷ w.db.submissions

abbrev pub TotalsAfter : Option Fault → Request → World → SubmitOutcome × World → Type 0
TotalsAfter fault q w r = Agrees r.1 ⊎ Unscored fault q w r

-- What holds before and after the effect of a command, and after what follows, holds at its end.
command_then_keeps :
    (P : World → Type 0) (fault : Option Fault) (command : Command) (effect : Redis → Redis)
    (next : World → SubmitOutcome × World) (w : World)
    → P w
    → P (with_redis effect w)
    → P (next (with_redis effect w)).1
    → P (command_then fault command effect next w).1
command_then_keeps P fault command effect next w before after rest =
    elim (Bool-cases (raises fault command)) [
      | inl failed ↦ elim (Bool-cases (took_effect fault)) [
        | inl applied ↦ rw (failed, applied) after
        | inr lost ↦ rw (failed, lost) before
      ]
      | inr fine ↦ rw fine rest
    ]

-- A command that leaves the sorted set alone.
Agrees-command :
    (fault : Option Fault) (command : Command) (effect : Redis → Redis)
    (next : World → SubmitOutcome × World) (w : World)
    → (effect w.redis).leaderboard ≡ w.redis.leaderboard
    → Agrees w
    → (Agrees (with_redis effect w) → Agrees (next (with_redis effect w)).1)
    → Agrees (command_then fault command effect next w).1
Agrees-command fault command effect next w same h rest =
    let after : Agrees (with_redis effect w) =
      λ m p. ap (λ (f : ℕ → ℕ → Option ℕ). score_or_zero (f m p)) same ∙ h m p in
    command_then_keeps Agrees fault command effect next w h after (rest after)

set-leaderboard :
    (request_id : String) (r : Response) (redis : Redis)
    → (Idempotency.set request_id r redis).0.leaderboard ≡ redis.leaderboard
unfolding Idempotency.set
set-leaderboard request_id r redis = elim (Bool-cases (is_some (redis.idem request_id))) [
  | inl taken ↦ rw taken refl
  | inr free ↦ rw free refl
]

Agrees-broadcast_to :
    (code : Option String) (message : Message) (w : World)
    → Agrees w
    → Agrees (broadcast_to code message w)
Agrees-broadcast_to none message w h = h
Agrees-broadcast_to (some code) message w h = h

module _ (fault : Option Fault) (request_id : String) where
  Agrees-remember_then :
      (r : Response) (w : World) → Agrees w → Agrees (remember_then fault request_id r w).1
  Agrees-remember_then r w h =
      Agrees-command fault set_cached (set_response request_id r) (answer_with r) w
        (set-leaderboard request_id r w.redis) h (λ after. after)

  module _ (zrevrange : (ℕ → Option ℕ) → ℕ → List (ℕ × ℕ)) (s : AnswerSubmission)
      (nickname : String) (question_id : ℕ) (code : Option String) where
    Agrees-finish :
        (top10 : List Entry) (version : ℕ) (w : World)
        → Agrees w
        → Agrees (finish zrevrange fault s nickname question_id code request_id top10 version w).1
    Agrees-finish top10 version w h =
        let message = Message.leaderboard_updated version top10 in
        Agrees-remember_then (accepted_response s (rank_in s.participant_id top10))
          (broadcast_to code message w) (Agrees-broadcast_to code message w h)

    Agrees-announce :
        (w : World)
        → Agrees w
        → Agrees (announce zrevrange fault s nickname question_id code request_id w).1
    unfolding announce
    Agrees-announce w h =
        let top10 = top zrevrange s.match_id 10 w.redis in
        let version = w.redis.lb_version s.match_id + 1 in
        Agrees-command fault incr_version (set_version s.match_id version)
          (finish zrevrange fault s nickname question_id code request_id top10 version) w refl h
          (Agrees-finish top10 version (with_redis (set_version s.match_id version) w))

    Agrees-read_then :
        (w : World)
        → Agrees w
        → Agrees (read_then zrevrange fault s nickname question_id code request_id w).1
    unfolding read_then
    Agrees-read_then w h =
        Agrees-command fault read_top same_redis
          (announce zrevrange fault s nickname question_id code request_id) w refl h
          (Agrees-announce w)

    Agrees-name_then :
        (w : World)
        → Agrees w
        → Agrees (name_then zrevrange fault s nickname question_id code request_id w).1
    unfolding name_then set_nicknames
    Agrees-name_then w h =
        let named = set_nicknames s.match_id ((s.participant_id, nickname) ∷ []) in
        Agrees-command fault hset_nickname named
          (read_then zrevrange fault s nickname question_id code request_id) w refl h
          (Agrees-read_then (with_redis named w))

    Agrees-mark_then :
        (w : World)
        → Agrees w
        → Agrees (mark_then zrevrange fault s nickname question_id code request_id w).1
    unfolding mark_then mark_answered
    Agrees-mark_then w h =
        let marked = mark_answered s.match_id question_id s.participant_id in
        Agrees-command fault sadd_answered marked
          (name_then zrevrange fault s nickname question_id code request_id) w refl h
          (Agrees-name_then (with_redis marked w))

-- The tables have the new row and Redis has its score.
Agrees-scored :
    (s : AnswerSubmission) (db' : Db) (w : World)
    → db'.submissions ≡ s ∷ w.db.submissions
    → Agrees w
    → Agrees (
        with_redis (zadd_total s.match_id s.participant_id s.score_awarded) (record w { db = db' }))
Agrees-scored s db' w e h m p =
    total_of-zadd_total (λ _ _. []) s.match_id s.participant_id s.score_awarded m p w
    ∙ ap
        (λ t.
          t + (if s.match_id == m then if s.participant_id == p then s.score_awarded else 0 else 0))
        (h m p)
    ∙ sym (awarded-insert (λ _ _. []) s w.db.submissions m p)
    ∙ ap (λ rows. score_sum p (select (of_match m) rows)) (sym e)

module _ (zrevrange : (ℕ → Option ℕ) → ℕ → List (ℕ × ℕ)) (fault : Option Fault) (q : Request)
    (w : World) where
  hooks-TotalsAfter :
      (s : AnswerSubmission) (nickname : String) (question_id : ℕ) (code : Option String) (db' : Db)
      → IsFor q s
      → db'.submissions ≡ s ∷ w.db.submissions
      → Agrees w
      → TotalsAfter fault q w
          (hooks zrevrange fault s nickname question_id code q.request_id (record w { db = db' }))
  unfolding hooks
  hooks-TotalsAfter s nickname question_id code db' for_q e h =
      let scored = Agrees-scored s db' w e h in
      elim (Bool-cases (raises fault zadd)) [
        | inl failed ↦ elim (Bool-cases (took_effect fault)) [
          | inl applied ↦ rw (failed, applied) (inl scored)
          | inr lost ↦
              rw (failed, lost)
                (inr (record {
                  at_zadd = failed;
                  not_applied = lost;
                  told = refl;
                  redis = refl;
                  row = s;
                  of_request = for_q;
                  recorded = e;
                }))
        ]
        | inr fine ↦ rw fine (
            inl (
              Agrees-mark_then fault q.request_id zrevrange s nickname question_id code
                (with_redis (zadd_total s.match_id s.participant_id s.score_awarded)
                  (record w { db = db' }))
                scored))
      ]

  respond_then-TotalsAfter :
      (r : Result (Submitted × Db))
      → Leaves (SubmitEffect q w.db) r
      → Agrees w
      → TotalsAfter fault q w (respond_then zrevrange fault q.request_id w r)
  respond_then-TotalsAfter (err e) effect h = inl h
  respond_then-TotalsAfter (ok (replayed s, db')) effect h = inl (
      Agrees-remember_then fault q.request_id (replay_response s) (record w { db = db' })
        λ m p. h m p ∙ ap (awarded m p) (sym effect.0))
  respond_then-TotalsAfter (ok (inserted s nickname question_id code, db')) (a, v, for_q, free, e)
        h =
      hooks-TotalsAfter s nickname question_id code db' for_q (ap (λ (d : Db). d.submissions) e) h

  submit_or_cached-TotalsAfter :
      (fl : Floats) → Agrees w → TotalsAfter fault q w (submit_or_cached zrevrange fault fl q w)
  unfolding submit_or_cached Idempotency.get
  submit_or_cached-TotalsAfter fl h = elim (Option-cases (w.redis.idem q.request_id)) [
    | inl fresh ↦
        rw fresh (respond_then-TotalsAfter (submit_tx fl q w.db) (submit_tx_effect fl q w.db) h)
    | inr (cached, e) ↦ rw e (inl h)
  ]

  -- Whichever command of Redis raises, if any, and whether Redis has then carried it out or not:
  -- `submit_answer` keeps the live totals equal to the sums of the awarded scores, but for one case.
  -- If the command that adds the score raises and is not carried out, the call fails, one new row of
  -- the request is recorded and Redis is as it was.
  pub submit_answer_faulty-TotalsAfter :
      (fl : Floats) → Agrees w → TotalsAfter fault q w (submit_answer_faulty zrevrange fault fl q w)
  unfolding submit_answer_faulty
  submit_answer_faulty-TotalsAfter fl h = elim (Bool-cases (str_eq q.request_id "")) [
    | inl empty ↦ rw empty (inl h)
    | inr named ↦ elim (Bool-cases (raises fault get_cached)) [
      | inl failed ↦ elim (Bool-cases (took_effect fault)) [
        | inl applied ↦ rw (named, failed, applied) (inl h)
        | inr lost ↦ rw (named, failed, lost) (inl h)
      ]
      | inr fine ↦ rw (named, fine) (submit_or_cached-TotalsAfter fl h)
    ]
  ]
