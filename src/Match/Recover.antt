-- ===== src/Match/Recover.antt =====
-- `recover_running_matches`: the timers of running matches are set again when the service starts.
use livequiz_platform.Prelude.{
  ℕ, suc, ◌+◌, ◌-◌, Option, none, some, List, [], ◌∷◌, select, ◌==◌, if◌then◌else◌,
}
use livequiz_platform.Store.{Match, MatchQuestion, Db, is_running}
use livequiz_platform.Live.Scheduler.{MatchScheduler, Task, Timer, set_active, spawn}
use livequiz_platform.Match.Queries.{active_question, next_unstarted}

-- The timer of an open question: it closes at once if its deadline has passed, and else when it
-- passes. A question with no deadline is left alone.
abbrev pub recover_deadline : ℕ → ℕ → ℕ → ℕ → Option ℕ → MatchScheduler × ℕ → MatchScheduler × ℕ
recover_deadline now task_id match_id position none (s, recovered) = (s, recovered)
recover_deadline now task_id match_id position (some deadline) (s, recovered) =
    let close : Task = record {
      task_id = task_id;
      timer = Timer.close_question match_id position;
      delay_us = deadline - now;
    } in
    if deadline - now == 0
    then (spawn close s, recovered + 1)
    else (set_active match_id close s, recovered + 1)

abbrev pub recover_next : ℕ → ℕ → Option MatchQuestion → MatchScheduler × ℕ → MatchScheduler × ℕ
recover_next task_id match_id none acc = acc
recover_next task_id match_id (some nxt) (s, recovered) = (
  spawn
      (record { task_id = task_id; timer = Timer.arm_question match_id nxt.position; delay_us = 0 })
      s,
  recovered + 1,
)

abbrev pub recover_question :
    ℕ → ℕ → ℕ → Option MatchQuestion → Db → MatchScheduler × ℕ → MatchScheduler × ℕ
recover_question now task_id match_id none db acc =
    recover_next task_id match_id (next_unstarted match_id db) acc
recover_question now task_id match_id (some mq) db acc =
    recover_deadline now task_id match_id mq.position mq.deadline_at acc

-- The loop over the running matches, with a task id for each.
unfoldable pub recover_each : ℕ → ℕ → List Match → Db → MatchScheduler × ℕ → MatchScheduler × ℕ
unfolding set_active
recover_each now task_id [] db acc = acc
recover_each now task_id (m ∷ ms) db acc =
    recover_each now (suc task_id) ms db
      (recover_question now task_id m.id (active_question m.id db) db acc)

unfoldable pub recover_running_matches : ℕ → ℕ → Db → MatchScheduler → MatchScheduler × ℕ
unfolding recover_each
recover_running_matches now task_id db s =
    recover_each now task_id (select (λ (m : Match). is_running m.status) db.matches) db (s, 0)
