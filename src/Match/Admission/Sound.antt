-- ===== src/Match/Admission/Sound.antt =====
-- What the checks of `submit_answer` establish.
use mathlib.Core.Path.{subst}
use livequiz_platform.Prelude.{
  ℕ, ◌+◌, ◌*◌, ◌≤◌, ◌≡◌, refl, true, false, Option, none, some, not, arith, is_none, leb, ◌==◌,
  find_sound, ◌&&◌,
}
use livequiz_platform.Errors.{Result, ok, err, or_raise-ok, require-ok}
use livequiz_platform.Store.{MatchQuestion, RoomParticipant, RoomStatus, running, is_running, Db}
use livequiz_platform.Match.Queries.{
  match_by_id, match_question_by_id, deadline_grace_ms, us_per_ms,
}
use livequiz_platform.Match.Admission.{Request, Admitted, admit, armed_times, find_participant}

-- The request is for an open, armed question of this running match, not later than the grace after
-- its deadline, from a participant of the match's room who is not kicked.
pub record IsAdmissible (q : Request) (db : Db) (a : Admitted) : Type 0 where
  pub question : match_question_by_id q.match_question_id db ≡ some a.mq
  pub of_match : a.mq.match_id ≡ q.match_id
  pub match_found : match_by_id q.match_id db ≡ some a.match
  pub is_live : a.match.status ≡ running
  pub open_question : a.mq.closed_at ≡ none
  pub started : a.mq.started_at ≡ some a.started
  pub deadline : a.mq.deadline_at ≡ some a.deadline
  pub in_time : q.now ≤ a.deadline + deadline_grace_ms * us_per_ms
  pub participant : a.participant.id ≡ q.participant_id
  pub stored : find_participant q.participant_id a.match.room_id db ≡ some a.participant
  pub in_room : a.participant.room_id ≡ a.match.room_id
  pub not_kicked : a.participant.is_kicked ≡ false

running_of : (s : RoomStatus) → is_running s ≡ true → s ≡ running
running_of s h = ground arith

armed_times-some :
    (mq : MatchQuestion) (s d : ℕ)
    → armed_times mq ≡ some (s, d)
    → (mq.started_at ≡ some s) × (mq.deadline_at ≡ some d)
armed_times-some mq s d h = ground arith

none_of : (o : Option ℕ) → is_none o ≡ true → o ≡ none
none_of none h = refl
none_of (some a) h = cc

abbrev AdmissibleIfOk : Request → Db → Result Admitted → Type 0
AdmissibleIfOk q db (ok a) = IsAdmissible q db a
AdmissibleIfOk q db (err e) = Unit

-- A request that the checks of steps 2 to 4 let through is for an open and armed question of its
-- match, which is running, comes no later than the grace after the deadline, and is from a
-- participant of the match's room who is not kicked.
pub admit-IsAdmissible :
    (q : Request) (db : Db) {a : Admitted} → admit q db ≡ ok a → IsAdmissible q db a
unfolding admit
admit-IsAdmissible q db {a} h =
    let (mq, e1, h1) = or_raise-ok (match_question_by_id q.match_question_id db) _ _ _ h in
    let (e2, h2) = require-ok (mq.match_id == q.match_id) _ _ _ h1 in
    let (m, e3, h3) = or_raise-ok (match_by_id q.match_id db) _ _ _ h2 in
    let (e4, h4) = require-ok (is_running m.status) _ _ _ h3 in
    let (e5, h5) = require-ok (is_none mq.closed_at) _ _ _ h4 in
    let (t, e6, h6) = or_raise-ok (armed_times mq) _ _ _ h5 in
    let (e7, h7) = require-ok (leb q.now (t.1 + deadline_grace_ms * us_per_ms)) _ _ _ h6 in
    let (p, e8, h8) = or_raise-ok (find_participant q.participant_id m.room_id db) _ _ _ h7 in
    let (e9, h9) = require-ok (not p.is_kicked) _ _ _ h8 in
    let found =
      find_sound (λ (x : RoomParticipant). x.id == q.participant_id && x.room_id == m.room_id)
        db.participants {x = p} e8 in
    let times = armed_times-some mq t.0 t.1 e6 in
    subst (AdmissibleIfOk q db) h9 (record {
      question = e1;
      of_match = ground arith;
      match_found = e3;
      is_live = running_of m.status e4;
      open_question = none_of mq.closed_at e5;
      started = times.0;
      deadline = times.1;
      in_time = ground arith;
      stored = e8;
      participant = ground arith;
      in_room = ground arith;
      not_kicked = ground arith;
    })
