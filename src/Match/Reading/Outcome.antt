-- ===== src/Match/Reading/Outcome.antt =====
-- What the end of a match leaves behind: the tables, the timers and the messages.
use livequiz_platform.Prelude.{
  ℕ, ◌≡◌, Bool, none, some, List, [], ◌∷◌, ◌++◌, any, length, select, ◌||◌, All,
}
use livequiz_platform.Store.{Match, Room, FinalScore, Db, completed}
use livequiz_platform.Live.{World, Message}
use livequiz_platform.Match.Queries.{match_by_id, room_by_id}
use livequiz_platform.Match.Finish.{one_if, of_match, is_ranked_in, EndOutcome, finished}
use livequiz_platform.Match.Finish.Tally.{own, is_participant}
use livequiz_platform.Match.Finish.Ranking.{IsPodium, IsResult, rows_of}
use livequiz_platform.Match.Reading.{is_score_of}

abbrev pub IsOver : ℕ → ℕ → Db → Match → Type 0
IsOver now match_id db m =
    (match_by_id match_id db ≡ some m) × (m.status ≡ completed) × (m.ended_at ≡ some now)

abbrev pub IsClosed : ℕ → ℕ → Db → Room → Type 0
IsClosed now room_id db room =
    (room_by_id room_id db ≡ some room) × (room.status ≡ completed) × (room.ended_at ≡ some now)

-- Who is ranked: who is in the room and not kicked, or answered in the match.
abbrev pub takes_part : ℕ → ℕ → Db → ℕ → Bool
takes_part match_id room_id db pid =
    any (is_participant pid) (select (is_ranked_in room_id) db.participants)
    || any (own pid) (select (of_match match_id) db.submissions)

-- The final scores of the match are a podium of results of the submissions, one for everybody who
-- takes part.
pub record HasScores (match_id room_id : ℕ) (db : Db) (scores : List FinalScore) : Type 0 where
  pub ranked : IsPodium 1 scores
  pub results : All (IsResult match_id (select (of_match match_id) db.submissions)) scores
  pub once : (pid : ℕ) → length (rows_of pid scores) ≡ one_if (takes_part match_id room_id db pid)

pub record Concluded (now match_id room_id : ℕ) (w : World) (r : EndOutcome × World) : Type 0 where
  pub the_match : (m : Match) × (r.0 ≡ finished m) × IsOver now match_id r.1.db m
  pub the_room :
      (room : Room) × IsClosed now room_id r.1.db room
      × (r.1.sent ≡ w.sent ++ (room.code, Message.match_finished match_id) ∷ [])
  pub the_scores :
      HasScores match_id room_id w.db (select (is_score_of match_id) r.1.db.final_scores)
  pub same_answers : r.1.db.submissions ≡ w.db.submissions
  pub no_timer : r.1.scheduler.active match_id ≡ none
