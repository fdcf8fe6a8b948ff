-- ===== src/Live/Scheduler.antt =====
-- `MatchScheduler` of backend/app/services/match_service.py: the active deadline task of each match.
-- A task is known by a number. `asyncio` throws a cancellation into a task at its next suspension,
-- also when the task that is running cancels itself.
use livequiz_platform.Prelude.{ℕ, Bool, true, false, not, Option, none, some, ◌==◌, if◌then◌else◌}

-- What a task does when its delay is over.
pub data Timer : Type 0 where
  close_question : (match_id position : ℕ) → Timer
  arm_question : (match_id position : ℕ) → Timer

pub record Task : Type 0 where
  pub task_id : ℕ
  pub timer : Timer
  pub delay_us : ℕ

-- `active` is the registry `_tasks`; `created` holds the tasks that were started and not registered;
-- `done` and `cancelled` say what became of a task.
pub record MatchScheduler : Type 0 where
  pub active : ℕ → Option Task
  pub created : ℕ → Option Task
  pub done : ℕ → Bool
  pub cancelled : ℕ → Bool

abbrev pub mark : (ℕ → Bool) → ℕ → ℕ → Bool
mark f k j = if k == j then true else f j

abbrev pub put_task : (ℕ → Option Task) → ℕ → Option Task → ℕ → Option Task
put_task f k t j = if k == j then t else f j

-- `if not task.done(): task.cancel()`
abbrev pub stop : Option Task → MatchScheduler → MatchScheduler
stop none s = s
stop (some old) s =
    if s.done old.task_id then s else record s { cancelled = mark s.cancelled old.task_id }

-- `set_active`: the new task takes the match's place and the old one is cancelled.
unfoldable pub set_active : ℕ → Task → MatchScheduler → MatchScheduler
set_active match_id task s =
    stop (s.active match_id) (record s { active = put_task s.active match_id (some task) })

-- `cancel`: the match has no task afterwards; true if it had one.
unfoldable pub cancel : ℕ → MatchScheduler → MatchScheduler × Bool
cancel match_id s = elim (s.active match_id) [
  | none ↦ (record s { active = put_task s.active match_id none }, false)
  | some task ↦ (stop (some task) (record s { active = put_task s.active match_id none }), true)
]

-- `asyncio.create_task` with no registration.
abbrev pub spawn : Task → MatchScheduler → MatchScheduler
spawn task s = record s { created = put_task s.created task.task_id (some task) }

-- Whether stopping the match's task is a cancellation of the task that runs now.
abbrev pub stops : Option Task → Option ℕ → MatchScheduler → Bool
stops none current s = false
stops (some task) none s = false
stops (some task) (some me) s = if task.task_id == me then not (s.done me) else false

abbrev pub cancels_itself : ℕ → Option ℕ → MatchScheduler → Bool
cancels_itself match_id current s = stops (s.active match_id) current s
