-- ===== src/Tests/Ending.antt =====
-- The theorems on the end of a match, its timers and its final scores at a concrete match.
use livequiz_platform.Prelude.{◌≡◌, refl, some, none, [], ◌∷◌, All, select}
use livequiz_platform.Floats.Fixed.{fixed}
use livequiz_platform.Errors.{ok}
use livequiz_platform.Store.{Db, running, paused, completed}
use livequiz_platform.Live.{World, update}
use livequiz_platform.Match.Finish.{of_match, final_scores_of, end_match}
use livequiz_platform.Match.Questions.{close_question}
use livequiz_platform.Match.Control.{resume_match, resume_tx, set_status, extend_deadline}
use livequiz_platform.Match.Finish.Ranking.{
  IsPodium, IsResult, final_scores_of-IsPodium, final_scores_of-IsResult,
}
use livequiz_platform.Match.Timers.{NothingEnded, close_question-NothingEnded}
use livequiz_platform.Match.Lifecycle.{here, then, ended}
use livequiz_platform.Match.Lifecycle.Completed.{IsFrozen}
use livequiz_platform.Match.Lifecycle.Final.{Reach-IsFrozen}
use livequiz_platform.Tests.Data.{
  live_db, db_in, live_world, world_of, match_in, room_in, earlier, close_timer, no_entries,
  empty_redis, timed,
}

abbrev ended_world : World
ended_world = world_of (db_in completed (earlier ∷ []))

final_scores_of-IsPodium_example : IsPodium 1 (final_scores_of 10 1 live_db)
final_scores_of-IsPodium_example = final_scores_of-IsPodium 10 1 live_db

final_scores_of-IsResult_example :
    All (IsResult 10 (select (of_match 10) live_db.submissions)) (final_scores_of 10 1 live_db)
final_scores_of-IsResult_example = final_scores_of-IsResult 10 1 live_db

Reach-IsFrozen_example :
    IsFrozen 10 ended_world.db (end_match none 25000000 80 none 10 ended_world).1.db
Reach-IsFrozen_example =
    Reach-IsFrozen fixed no_entries 10 ended_world
      (end_match none 25000000 80 none 10 ended_world).1
      (then ended_world ended_world _ (here ended_world)
        (ended none 25000000 80 none 10 ended_world))
      (refl, ((λ _. refl), tt))

close_question-NothingEnded_example :
    NothingEnded live_db (close_question (some 5) 24000000 80 6 3 10 2 live_world).db
close_question-NothingEnded_example =
    close_question-NothingEnded close_timer 24000000 80 6 3 10 2 live_world (refl, refl)

-- The match was paused after the deadline of its last question.
abbrev paused_db : Db
paused_db = db_in paused (earlier ∷ [])

abbrev late_world : World
late_world = record {
  db = paused_db;
  redis = record empty_redis {
    pause = update (λ _. none) 10 (some (record { position = some 2; remaining_ms = 0 }));
  };
  scheduler = timed;
  sent = [];
}

abbrev resumed_world : World
resumed_world = record late_world {
  db =
      set_status running (room_in paused) (match_in paused)
        (extend_deadline 26000000 10 (some 2) 0 paused_db);
}

resumed : resume_match 26000000 6 7 "ROOM" late_world ≡ ok (match_in paused, resumed_world)
unfolding resume_match resume_tx
resumed = refl
