-- ===== src/Outbox/Topics.antt =====
-- The routing of events to topics, `topic_for` of workers/outbox_publisher/app/topics.py.
use livequiz_platform.Prelude.{String, str_eq, if◌then◌else◌, ◌||◌}

abbrev pub topic_dead_letter : String
topic_dead_letter = "livequiz.events.dead_letter"

abbrev pub topic_room : String
topic_room = "livequiz.events.room"

abbrev pub topic_match : String
topic_match = "livequiz.events.match"

abbrev pub topic_answer : String
topic_answer = "livequiz.events.answer"

abbrev pub topic_moderation : String
topic_moderation = "livequiz.events.moderation"

unfoldable pub topic_for : String → String
topic_for t =
    if str_eq t "RoomCreated" || str_eq t "PlayerJoined" || str_eq t "PlayerLeft"
    then topic_room
    else if str_eq t "MatchStarted"
        || str_eq t "QuestionStarted"
        || str_eq t "QuestionClosed"
        || str_eq t "MatchFinished"
    then topic_match
    else if str_eq t "AnswerSubmitted"
    then topic_answer
    else if str_eq t "ContentReported"
        || str_eq t "ContentFlagged"
        || str_eq t "ModerationDecisionMade"
    then topic_moderation
    else topic_dead_letter
