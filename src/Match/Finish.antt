-- ===== src/Match/Finish.antt =====
-- `end_match`: the final scores, the completed status and the finish event.
pub mod Tally
pub mod Ranking
use livequiz_platform.Prelude.{
  ℕ, suc, ◌+◌, ◌/◌, String, Bool, true, false, not, ◌&&◌, Option, none, some, List, [], ◌∷◌, ◌++◌,
  map, select, update_where, ltb, leb, ◌==◌, if◌then◌else◌,
}
use livequiz_platform.Prelude.Sort.{sort}
use livequiz_platform.Errors.{
  AuthError, Result, ok, err, ◌>>=◌, ◌>>◌, require, or_raise, room_not_found, forbidden,
}
use livequiz_platform.Store.{
  Room, Match, AnswerSubmission, FinalScore, RoomParticipant, Db, Payload, completed, is_completed,
}
use livequiz_platform.Live.{World, Message, broadcast}
use livequiz_platform.Live.Scheduler.{cancel, cancels_itself}
use livequiz_platform.Match.Queries.{match_by_id, room_by_id, register_event}
use livequiz_platform.Match.Start.{write_status}

-- One value of the dictionary `per_participant`.
pub record Aggregate : Type 0 where
  pub total : ℕ
  pub correct : ℕ
  pub rt_sum : ℕ
  pub rt_count : ℕ

abbrev pub no_answers : Aggregate
no_answers = record { total = 0; correct = 0; rt_sum = 0; rt_count = 0 }

abbrev pub one_if : Bool → ℕ
one_if true = 1
one_if false = 0

abbrev pub add_answer : AnswerSubmission → Aggregate → Aggregate
add_answer s a = record {
  total = a.total + s.score_awarded;
  correct = a.correct + one_if s.is_correct;
  rt_sum = a.rt_sum + s.response_time_ms;
  rt_count = a.rt_count + 1;
}

-- The dictionary, in the order of insertion: `setdefault` with an update of the record found.
abbrev pub upsert : ℕ → (Aggregate → Aggregate) → List (ℕ × Aggregate) → List (ℕ × Aggregate)
upsert pid f [] = (pid, f no_answers) ∷ []
upsert pid f ((k, a) ∷ d) = if k == pid then (k, f a) ∷ d else (k, a) ∷ upsert pid f d

unfoldable pub aggregate_submissions :
    List AnswerSubmission → List (ℕ × Aggregate) → List (ℕ × Aggregate)
aggregate_submissions [] d = d
aggregate_submissions (s ∷ subs) d =
    aggregate_submissions subs (upsert s.participant_id (add_answer s) d)

unfoldable pub include_participants :
    List RoomParticipant → List (ℕ × Aggregate) → List (ℕ × Aggregate)
include_participants [] d = d
include_participants (p ∷ parts) d = include_participants parts (upsert p.id (λ a. a) d)

-- A tuple of `rows`.
pub record ScoreRow : Type 0 where
  pub participant_id : ℕ
  pub total : ℕ
  pub correct : ℕ
  pub average_ms : Option ℕ

-- `int(rt_sum / rt_count)`: the quotient of two integers below 2 ^ 53 is rounded to nearest, which
-- does not reach the next integer, so the truncation is the floor.
abbrev pub average_of : Aggregate → Option ℕ
average_of a = if a.rt_count == 0 then none else some (a.rt_sum / a.rt_count)

abbrev pub to_row : ℕ × Aggregate → ScoreRow
to_row (pid, a) = record {
  participant_id = pid;
  total = a.total;
  correct = a.correct;
  average_ms = average_of a;
}

abbrev pub average_or_last : Option ℕ → ℕ
average_or_last none = 1_000_000_000
average_or_last (some ms) = ms

-- The order of `_sort_key`: totals descending, then averages ascending, no average as 10 ^ 9.
abbrev pub ranks_before : ScoreRow → ScoreRow → Bool
ranks_before a b =
    if ltb b.total a.total
    then true
    else if ltb a.total b.total
    then false
    else leb (average_or_last a.average_ms) (average_or_last b.average_ms)

abbrev pub number_rows : ℕ → ℕ → List ScoreRow → List FinalScore
number_rows match_id rank [] = []
number_rows match_id rank (r ∷ rows) =
    record {
      match_id = match_id;
      participant_id = r.participant_id;
      total_score = r.total;
      correct_count = r.correct;
      average_response_ms = r.average_ms;
      rank = rank;
    }
    ∷ number_rows match_id (suc rank) rows

abbrev pub of_match : ℕ → AnswerSubmission → Bool
of_match match_id s = s.match_id == match_id

abbrev pub is_ranked_in : ℕ → RoomParticipant → Bool
is_ranked_in room_id p = p.room_id == room_id && not p.is_kicked

unfoldable pub sorted_rows : ℕ → ℕ → Db → List ScoreRow
unfolding aggregate_submissions include_participants
sorted_rows match_id room_id db = sort ranks_before (
    map to_row (
      include_participants (select (is_ranked_in room_id) db.participants)
        (aggregate_submissions (select (of_match match_id) db.submissions) [])))

unfoldable pub final_scores_of : ℕ → ℕ → Db → List FinalScore
unfolding sorted_rows
final_scores_of match_id room_id db = number_rows match_id 1 (sorted_rows match_id room_id db)

abbrev pub complete_match : ℕ → Match → Match
complete_match now m = record m { status = completed; ended_at = some now }

abbrev pub complete_room : ℕ → Room → Room
complete_room now r = record r { status = completed; ended_at = some now }

-- The body of the `else`: the final scores and the event in the same transaction.
unfoldable pub complete : ℕ → ℕ → Match → Room → Db → Db
unfolding final_scores_of
complete now event_id match room db =
    let scores = final_scores_of match.id room.id db in
    register_event event_id "MatchFinished" "match" match.id
      (Payload.match_finished match.id room.id now scores) now
      (record db {
        matches = update_where (λ (m : Match). m.id == match.id) (complete_match now) db.matches;
        rooms = update_where (λ (r : Room). r.id == room.id) (complete_room now) db.rooms;
        final_scores = scores ++ db.final_scores;
      })

abbrev pub is_host : Option ℕ → Room → Bool
is_host none room = true
is_host (some host_id) room = room.host_id == host_id

-- What the transaction ends in: the match that was already completed, or the one now completed
-- with the code of its room.
pub data Ended : Type 0 where
  already : Match → Ended
  now_completed : Match → String → Ended

unfoldable pub end_tx : ℕ → ℕ → Option ℕ → ℕ → Db → Result (Ended × Db)
unfolding complete
end_tx now event_id host_id match_id db = do
  match ← or_raise (match_by_id match_id db) room_not_found 404
  room ← or_raise (room_by_id match.room_id db) room_not_found 404
  require (is_host host_id room) forbidden 403
  if is_completed match.status
      then ok (already match, db)
      else ok
          (now_completed (complete_match now match) room.code, complete now event_id match room db)

-- What a call of `end_match` ends in. A task that has cancelled itself is thrown CancelledError at
-- its first suspension, which is the first query: nothing is written.
pub data EndOutcome : Type 0 where
  finished : Match → EndOutcome
  raised : AuthError → EndOutcome
  interrupted : EndOutcome

abbrev pub announce_finish : ℕ → String → World → World
announce_finish match_id room_code w =
    let told = broadcast room_code (Message.match_finished match_id) w in
    record told { redis = write_status room_code completed told.redis }

abbrev pub after_end : World → Result (Ended × Db) → EndOutcome × World
after_end w (err e) = (raised e, w)
after_end w (ok (already match, db)) = (finished match, w)
after_end w (ok (now_completed match room_code, db)) =
    (finished match, announce_finish match.id room_code (record w { db = db }))

-- `end_match`, run by the task `current` or by a request (`none`).
unfoldable pub end_match : Option ℕ → ℕ → ℕ → Option ℕ → ℕ → World → EndOutcome × World
unfolding cancel end_tx
end_match current now event_id host_id match_id w =
    let stopped = record w { scheduler = (cancel match_id w.scheduler).0 } in
    if cancels_itself match_id current w.scheduler
    then (interrupted, stopped)
    else after_end stopped (end_tx now event_id host_id match_id w.db)
