-- ===== src/Tests/Submitting.antt =====
-- The theorems on `submit_answer` at concrete requests.
use livequiz_platform.Prelude.{false, arith, ◌≡◌, refl, some, none}
use livequiz_platform.Floats.Fixed.{fixed}
use livequiz_platform.Errors.{Leaves, ok}
use livequiz_platform.Live.{World, update_text}
use livequiz_platform.Match.Admission.{Admitted, admit}
use livequiz_platform.Match.Admission.Sound.{IsAdmissible, admit-IsAdmissible}
use livequiz_platform.Match.Submit.{
  submit_tx, submit_answer, insert_submission, existing_submission, new_submission, replay_response,
}
use livequiz_platform.Match.Grading.{grade}
use livequiz_platform.Live.Idempotency
use livequiz_platform.Match.Grading.Graded.{GradedIfNew, submit_tx-GradedIfNew}
use livequiz_platform.Match.Submit.Faults.{Fault, zadd, submit_answer_faulty}
use livequiz_platform.Match.Submit.Behind.{TotalsAfter, submit_answer_faulty-TotalsAfter}
use livequiz_platform.Match.Submit.Once.{IsUnique, submit_answer_again}
use livequiz_platform.Match.Submit.Effect.{SubmitEffect, submit_tx_effect}
use livequiz_platform.Match.Submit.Retry.{submit_answer-IsUnique}
use livequiz_platform.Tests.Data.{
  live_db, live_world, fresh_world, answer, repeated, earlier, no_entries, open_question, match_in,
  player,
}
use livequiz_platform.Store.{running}

submit_tx_effect_example : Leaves (SubmitEffect answer live_db) (submit_tx fixed answer live_db)
submit_tx_effect_example = submit_tx_effect fixed answer live_db

submit_answer-IsUnique_example :
    Leaves (λ _ w'. IsUnique w'.db.submissions) (submit_answer no_entries fixed answer live_world)
submit_answer-IsUnique_example =
    submit_answer-IsUnique no_entries fixed answer live_world (refl, tt)

-- Redis is gone before it adds the score.
abbrev lost : Fault
lost = record { command = zadd; applied = false }

submit_answer_faulty-TotalsAfter_example :
    TotalsAfter
      (some lost)
      answer
      fresh_world
      (submit_answer_faulty no_entries (some lost) fixed answer fresh_world)
submit_answer_faulty-TotalsAfter_example =
    submit_answer_faulty-TotalsAfter no_entries (some lost) answer fresh_world fixed (λ m p. refl)

submit_tx-GradedIfNew_example :
    Leaves (GradedIfNew fixed answer live_db) (submit_tx fixed answer live_db)
submit_tx-GradedIfNew_example =
    submit_tx-GradedIfNew fixed answer live_db (omega arith, (omega arith, tt))

abbrev admitted_answer : Admitted
admitted_answer = record {
  mq = open_question;
  match = match_in running;
  participant = player 40 "ann";
  started = 14000000;
  deadline = 24000000;
}

admitted : admit answer live_db ≡ ok admitted_answer
unfolding admit
admitted = refl

admit-IsAdmissible_example : IsAdmissible answer live_db admitted_answer
admit-IsAdmissible_example = admit-IsAdmissible answer live_db admitted

-- The world after the repeated answer: its stored row is in the cache.
abbrev replayed_world : World
replayed_world = record live_world {
  redis = record live_world.redis {
    idem = update_text (λ _. none) "earlier" (some (replay_response earlier));
  };
}

repeated_once :
    submit_answer no_entries fixed repeated live_world
    ≡ ok (replay_response earlier, replayed_world)
unfolding submit_answer submit_tx admit grade insert_submission existing_submission new_submission
    Idempotency.get Idempotency.set
repeated_once = refl

submit_answer_again_example :
    submit_answer no_entries fixed repeated replayed_world
    ≡ ok (replay_response earlier, replayed_world)
submit_answer_again_example =
    submit_answer_again no_entries fixed repeated repeated live_world replayed_world repeated_once
      refl
