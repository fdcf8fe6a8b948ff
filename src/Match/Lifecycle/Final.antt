-- ===== src/Match/Lifecycle/Final.antt =====
-- A completed match through every sequence of steps.
use mathlib.Core.Path.{subst}
use livequiz_platform.Prelude.{ℕ, Option, List}
use livequiz_platform.Floats.{Floats}
use livequiz_platform.Errors.{Leaves}
use livequiz_platform.Store.{Match}
use livequiz_platform.Live.{World}
use livequiz_platform.Match.Lifecycle.{
  Step, Reach, started, armed, closed, paused, resumed, ended, answered, here, then,
}
use livequiz_platform.Match.Lifecycle.Completed.{Completed, IsFrozen, IsFrozen-refl, IsFrozen-trans}
use livequiz_platform.Match.Lifecycle.Tasks.{
  end_match-IsFrozen, arm_question-IsFrozen, close_question-IsFrozen,
}
use livequiz_platform.Match.Lifecycle.Requests.{
  start-IsFrozen, pause_match-IsFrozen, resume_match-IsFrozen, submit_answer-IsFrozen,
}

module _ (fl : Floats) (zrevrange : (ℕ → Option ℕ) → ℕ → List (ℕ × ℕ)) (M : ℕ) where
  Step-IsFrozen : (w w' : World) → Step fl zrevrange w w' → Completed M w.db → IsFrozen M w.db w'.db
  Step-IsFrozen w w' (started now next_id task_id host_id code v v' m fresh new e) c =
      subst (Leaves (λ (_ : Match) x. IsFrozen M v.db x.db)) e
        (start-IsFrozen M now next_id task_id host_id code v fresh c)
  Step-IsFrozen w w' (armed now later event_id task_id match_id position v) c =
      arm_question-IsFrozen M now later event_id task_id match_id position v c
  Step-IsFrozen w w' (closed current now event_id task_id gap match_id position v) c =
      close_question-IsFrozen M current now event_id task_id gap match_id position v c
  Step-IsFrozen w w' (paused now host_id code v v' m e) c =
      subst (Leaves (λ (_ : Match) x. IsFrozen M v.db x.db)) e
        (pause_match-IsFrozen M fl now host_id code v c)
  Step-IsFrozen w w' (resumed now task_id host_id code v v' m e) c =
      subst (Leaves (λ (_ : Match) x. IsFrozen M v.db x.db)) e
        (resume_match-IsFrozen M now task_id host_id code v c)
  Step-IsFrozen w w' (ended current now event_id host_id match_id v) c =
      end_match-IsFrozen M current now event_id host_id match_id v c
  Step-IsFrozen w w' (answered q v v' r e) c =
      subst (Leaves (λ _ x. IsFrozen M v.db x.db)) e (submit_answer-IsFrozen M zrevrange fl q v c)

  -- A match that is completed stays completed, and its submissions and its final scores stay as they
  -- are, whatever operations of whatever matches come after.
  pub Reach-IsFrozen :
      (w w' : World) → Reach fl zrevrange w w' → Completed M w.db → IsFrozen M w.db w'.db
  Reach-IsFrozen w w' (here v) c = IsFrozen-refl M v.db c
  Reach-IsFrozen w w' (then v u x r s) c =
      let f = Reach-IsFrozen v u r c in
      IsFrozen-trans M v.db u.db x.db f (Step-IsFrozen u x s f.still)
