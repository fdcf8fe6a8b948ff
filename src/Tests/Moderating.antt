-- ===== src/Tests/Moderating.antt =====
-- The theorems on moderation at concrete inputs.
use livequiz_platform.Prelude.{ℕ, String, true, false, ◌≡◌, refl, Option, none, some, [], ◌∷◌}
use livequiz_platform.Errors.{ok, err, auth_error, validation_error, forbidden, quiz_not_published}
use livequiz_platform.Store.{ModerationReport, pending, action_taken, no_details, running, Db}
use livequiz_platform.Rooms.Create.{RoomCreate, create_tx}
use livequiz_platform.Match.Admission.{Admitted, admit}
use livequiz_platform.Moderation.Decide.{DecisionRequest, decision_of, decide, reviewed, hide_quiz}
use livequiz_platform.Moderation.Once.{decide_again}
use livequiz_platform.Moderation.Hidden.{decide-hidden}
use livequiz_platform.Moderation.Muted.{after_mute, decide-mutes, decide-muted}
use livequiz_platform.Quizzes.Catalog.{get_quiz_for_viewer, ListFilter, is_listed}
use livequiz_platform.Tests.Data.{live_db, quiz, match_in, player, answer, open_question}

abbrev pub report_on : Option ℕ → Option ℕ → ModerationReport
report_on room_id quiz_set_id = record {
  id = 80;
  reporter_user_id = some 9;
  room_id = room_id;
  target_user_id = none;
  target_quiz_set_id = quiz_set_id;
  reason = "rude";
  details = no_details;
  status = pending;
  reviewed_by = none;
  reviewed_at = none;
}

abbrev pub reported : Option ℕ → Option ℕ → Db
reported room_id quiz_set_id = record live_db { reports = report_on room_id quiz_set_id ∷ [] }

abbrev pub to : String → DecisionRequest
to decision = record {
  moderator_id = 2;
  report_id = 80;
  decision = decision;
  reason = none;
  now = 30000000;
  audit_id = 81;
  event_id = 82;
}

abbrev opening : RoomCreate
opening = record {
  host_id = 7;
  quiz_set_id = 3;
  max_players = 50;
  settings = [];
  now = 31000000;
  event_id = 83;
}

abbrev every_quiz : ListFilter
every_quiz = record { q = none; owner_id = none; tag = none }

decide-hidden_example :
    (after : Db) × (decide (to "hide") (reported none (some 3))
      ≡ ok (reviewed (to "hide") action_taken (report_on none (some 3)), [], after))
    × (get_quiz_for_viewer (some 8) 3 after ≡ err (auth_error forbidden 403))
    × (is_listed (λ _ _. true) (some 8) every_quiz after (hide_quiz quiz) ≡ false)
    × (create_tx opening [] after ≡ err (auth_error quiz_not_published 409))
unfolding decision_of
decide-hidden_example =
    decide-hidden (to "hide") (report_on none (some 3)) 3 quiz (reported none (some 3))
      (λ _ _. true) (some 8) every_quiz opening [] refl refl refl refl refl refl refl refl

abbrev muted_room : Db
muted_room = after_mute (to "mute") (report_on (some 1) none) (reported (some 1) none)

abbrev some_admitted : Admitted
some_admitted = record {
  mq = open_question;
  match = match_in running;
  participant = player 40 "ann";
  started = 14000000;
  deadline = 24000000;
}

decide-muted_example : ¬ (admit answer muted_room ≡ ok some_admitted)
unfolding decision_of
decide-muted_example =
    decide-muted (to "mute") (report_on (some 1) none) (reported (some 1) none) _ _ muted_room
      answer (match_in running) (player 40 "ann") some_admitted refl refl refl refl
      (decide-mutes (to "mute") (report_on (some 1) none) (reported (some 1) none) refl refl refl
        refl).0
      refl refl refl

decide_again_example : decide (to "ban") muted_room ≡ err (auth_error validation_error 409)
unfolding decision_of
decide_again_example =
    decide_again (to "mute") (to "ban") _ (reported (some 1) none)
      (decide-mutes (to "mute") (report_on (some 1) none) (reported (some 1) none) refl refl refl
        refl).0
      refl refl
