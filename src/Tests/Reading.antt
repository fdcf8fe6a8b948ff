-- ===== src/Tests/Reading.antt =====
-- The theorems on the leaderboard that is read, at a concrete match.
use livequiz_platform.Prelude.{
  ℕ, Option, ◌≡◌, refl, some, none, List, [], ◌∷◌, arith, ◌==◌, if◌then◌else◌,
}
use livequiz_platform.Errors.{ok}
use livequiz_platform.Store.{FinalScore, running}
use livequiz_platform.Live.{World}
use livequiz_platform.Match.Finish.{end_match, end_tx, complete, final_scores_of, sorted_rows}
use livequiz_platform.Match.Submit.Totals.{Agrees}
use livequiz_platform.Match.Reading.{read_leaderboard}
use livequiz_platform.Match.Reading.Final.{board_of, with_scores, read_leaderboard-end_match}
use mathlib.Core.List.Permᴰ
use livequiz_platform.Match.Reading.Backends.{ReadsLive, read_leaderboard-ReadsLive}
use livequiz_platform.Tests.Data.{live_db, live_world, match_in, room_in, no_entries, empty_redis}

abbrev final : ℕ → ℕ → ℕ → Option ℕ → ℕ → FinalScore
final participant_id total correct average rank = record {
  match_id = 10;
  participant_id = participant_id;
  total_score = total;
  correct_count = correct;
  average_response_ms = average;
  rank = rank;
}

abbrev over : World
over = (end_match none 25000000 80 (some 7) 10 live_world).1

-- The final scores, the last rank first.
abbrev upside_down : List FinalScore
upside_down = final 40 0 0 none 2 ∷ final 41 900 1 (some 2000) 1 ∷ []

read_leaderboard-end_match_example :
    read_leaderboard no_entries "redis" 10 5 (with_scores upside_down over)
    ≡ ok (board_of 10 1 5 live_db)
unfolding end_match end_tx complete final_scores_of sorted_rows
read_leaderboard-end_match_example =
    read_leaderboard-end_match no_entries "redis" 5 25000000 80 10 (some 7) live_world
      (match_in running) (room_in running) upside_down refl refl refl refl refl
      (Permᴰ.swap refl refl)

-- Redis has the one score that was awarded.
abbrev scored_once : ℕ → ℕ → Option ℕ
scored_once m p = if m == 10 then if p == 41 then some 900 else none else none

abbrev scored_world : World
scored_world = record live_world { redis = record empty_redis { leaderboard = scored_once } }

scored-Agrees : Agrees scored_world
scored-Agrees m p = ground arith

read_leaderboard-ReadsLive_example :
    ReadsLive scored_world 10 5 (read_leaderboard no_entries "pg" 10 5 scored_world)
read_leaderboard-ReadsLive_example =
    read_leaderboard-ReadsLive no_entries 10 5 scored_world (match_in running) scored-Agrees refl
      refl
