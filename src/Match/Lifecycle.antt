-- ===== src/Match/Lifecycle.antt =====
-- What the operations of a match and its tasks do in sequence: the steps of the program, and the
-- worlds that they reach. An operation that raises is no step, as its transaction is undone.
pub mod Completed
pub mod Tasks
pub mod Requests
pub mod Final
use livequiz_platform.Prelude.{ℕ, String, ◌≡◌, Option, none, List}
use livequiz_platform.Floats.{Floats}
use livequiz_platform.Errors.{Result, ok}
use livequiz_platform.Store.{Match}
use livequiz_platform.Live.{World, Response}
use livequiz_platform.Match.Queries.{match_by_id, match_question_by_id}
use livequiz_platform.Match.Start.{start}
use livequiz_platform.Match.Finish.{end_match}
use livequiz_platform.Match.Questions.{arm_question, close_question}
use livequiz_platform.Match.Control.{pause_match, resume_match}
use livequiz_platform.Match.Admission.{Request}
use livequiz_platform.Match.Submit.{submit_answer}

module _ (fl : Floats) (zrevrange : (ℕ → Option ℕ) → ℕ → List (ℕ × ℕ)) where
  -- The ids that `start_match` inserts are free: the primary keys refuse a taken one.
  pub data Step : World → World → Type 1 where
    started :
        (now : ℕ) (next_id : ℕ → ℕ) (task_id host_id : ℕ) (code : String) (w w' : World) (m : Match)
        → match_by_id (next_id 0) w.db ≡ none
        → ((k : ℕ) → match_question_by_id (next_id k) w.db ≡ none)
        → start now next_id task_id host_id code w ≡ ok (m, w')
        → Step w w'
    armed :
        (now later event_id task_id match_id position : ℕ) (w : World)
        → Step w (arm_question now later event_id task_id match_id position w)
    closed :
        (current : Option ℕ) (now event_id task_id gap match_id position : ℕ) (w : World)
        → Step w (close_question current now event_id task_id gap match_id position w)
    paused :
        (now host_id : ℕ) (code : String) (w w' : World) (m : Match)
        → pause_match fl now host_id code w ≡ ok (m, w')
        → Step w w'
    resumed :
        (now task_id host_id : ℕ) (code : String) (w w' : World) (m : Match)
        → resume_match now task_id host_id code w ≡ ok (m, w')
        → Step w w'
    ended :
        (current : Option ℕ) (now event_id : ℕ) (host_id : Option ℕ) (match_id : ℕ) (w : World)
        → Step w (end_match current now event_id host_id match_id w).1
    answered :
        (q : Request) (w w' : World) (r : Response)
        → submit_answer zrevrange fl q w ≡ ok (r, w')
        → Step w w'

  pub data Reach : World → World → Type 1 where
    here : (w : World) → Reach w w
    then : (v w x : World) → Reach v w → Step w x → Reach v x
