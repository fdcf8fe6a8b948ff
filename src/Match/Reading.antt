-- ===== src/Match/Reading.antt =====
-- `read_leaderboard` of services/match_service.py and `list_by_match_ordered_by_rank` of
-- repositories/leaderboard_snapshot_repo.py. The setting `leaderboard_backend` is an argument.
pub mod Final
pub mod Backends
pub mod Outcome
use livequiz_platform.Prelude.{
  ℕ, suc, ◌*◌, String, Bool, true, false, Option, none, some, List, [], ◌∷◌, map, find, select,
  take, ltb, leb, str_eq, ◌==◌, if◌then◌else◌,
}
use livequiz_platform.Prelude.Sort.{sort}
use livequiz_platform.Errors.{Result, ok, ◌>>=◌, or_raise, room_not_found}
use livequiz_platform.Store.{Match, FinalScore, RoomParticipant, Db, is_completed}
use livequiz_platform.Live.{Entry, World}
use livequiz_platform.Live.Leaderboard.{text_or_empty, top}
use livequiz_platform.Match.Queries.{match_by_id}
use livequiz_platform.Match.Finish.{Aggregate, aggregate_submissions, of_match}

pub record LeaderboardView : Type 0 where
  pub match_id : ℕ
  pub is_final : Bool
  pub entries : List Entry

abbrev pub ranks_first : FinalScore → FinalScore → Bool
ranks_first a b = leb a.rank b.rank

abbrev pub is_score_of : ℕ → FinalScore → Bool
is_score_of match_id f = f.match_id == match_id

-- `list_by_match_ordered_by_rank`
unfoldable pub list_by_match_ordered_by_rank : ℕ → List FinalScore → List FinalScore
list_by_match_ordered_by_rank match_id scores =
    sort ranks_first (select (is_score_of match_id) scores)

abbrev pub nickname_of : Option RoomParticipant → Option String
nickname_of none = none
nickname_of (some p) = some p.nickname

-- `nick_by_id.get(pid, "")`; an id is a primary key.
abbrev pub nick_or_empty : List RoomParticipant → ℕ → String
nick_or_empty parts pid =
    text_or_empty (nickname_of (find (λ (p : RoomParticipant). p.id == pid) parts))

abbrev pub final_entry : List RoomParticipant → FinalScore → Entry
final_entry parts f = record {
  rank = f.rank;
  participant_id = f.participant_id;
  nickname = nick_or_empty parts f.participant_id;
  score = f.total_score;
}

-- The ORDER BY of the query on submissions: the sums descending, then the averages ascending. Every
-- group has a row, so the averages are compared as fractions.
abbrev pub scores_before : ℕ × Aggregate → ℕ × Aggregate → Bool
scores_before (_, a) (_, b) =
    if ltb b.total a.total
    then true
    else if ltb a.total b.total
    then false
    else leb (a.rt_sum * b.rt_count) (b.rt_sum * a.rt_count)

unfoldable pub pg_rows : ℕ → ℕ → Db → List (ℕ × Aggregate)
unfolding aggregate_submissions
pg_rows match_id limit db =
    take limit
      (sort scores_before (aggregate_submissions (select (of_match match_id) db.submissions) []))

abbrev pub number_groups : List RoomParticipant → ℕ → List (ℕ × Aggregate) → List Entry
number_groups parts rank [] = []
number_groups parts rank ((pid, a) ∷ rows) =
    record {
      rank = rank;
      participant_id = pid;
      nickname = nick_or_empty parts pid;
      score = a.total;
    }
    ∷ number_groups parts (suc rank) rows

abbrev pub final_view : ℕ → ℕ → Db → LeaderboardView
final_view match_id limit db = record {
  match_id = match_id;
  is_final = true;
  entries =
      map (final_entry db.participants)
        (take limit (list_by_match_ordered_by_rank match_id db.final_scores));
}

abbrev pub live_entries : ((ℕ → Option ℕ) → ℕ → List (ℕ × ℕ)) → String → ℕ → ℕ → World → List Entry
live_entries zrevrange backend match_id limit w =
    if str_eq backend "pg"
    then number_groups w.db.participants 1 (pg_rows match_id limit w.db)
    else top zrevrange match_id limit w.redis

abbrev pub live_view :
    ((ℕ → Option ℕ) → ℕ → List (ℕ × ℕ)) → String → ℕ → ℕ → World → LeaderboardView
live_view zrevrange backend match_id limit w = record {
  match_id = match_id;
  is_final = false;
  entries = live_entries zrevrange backend match_id limit w;
}

-- `read_leaderboard`
unfoldable pub read_leaderboard :
    ((ℕ → Option ℕ) → ℕ → List (ℕ × ℕ)) → String → ℕ → ℕ → World → Result LeaderboardView
read_leaderboard zrevrange backend match_id limit w = do
  match ← or_raise (match_by_id match_id w.db) room_not_found 404
  ok (
      if is_completed match.status
      then final_view match_id limit w.db
      else live_view zrevrange backend match_id limit w)
