-- ===== src/Tests/Streaming.antt =====
-- The theorems on the stream worker at concrete inputs.
use livequiz_platform.Prelude.{ℕ, true, false, ◌≡◌, refl, none, some, [], ◌∷◌, arith}
use livequiz_platform.Stream.Messages.{AnswerFields, Envelope, Worker, handle_message}
use livequiz_platform.Stream.AtMostOnce.{AtMostOnce}
use livequiz_platform.Stream.Lost.{handle_message_retry}
use livequiz_platform.Stream.Consumer.{Message, Consumer, poll_turn}
use livequiz_platform.Stream.Turns.{poll_turn-AtMostOnce}

abbrev no_fields : AnswerFields
no_fields = record {
  match_id = some 10;
  room_id = some 1;
  participant_id = none;
  question_id = none;
  is_correct = false;
  score_awarded = 0;
  response_time_ms = 0;
}

abbrev finished : Envelope
finished = record {
  event_id = 5;
  event_type = "MatchFinished";
  aggregate_type = "match";
  aggregate_id = 10;
  occurred_at = 25000000;
  producer = "backend";
  schema_version = 1;
  payload = no_fields;
}

abbrev idle_worker : Worker
idle_worker = record { ch = record { buffers = []; stored = [] }; seen = [] }

abbrev idle_consumer : Consumer
idle_consumer = record { worker = idle_worker; committed = [] }

abbrev delivered : ℕ → Message
delivered offset = record { offset = offset; value = some finished; redis_up = true }

-- The same event comes twice in one poll.
poll_turn-AtMostOnce_example :
    AtMostOnce
      (poll_turn
        (λ _ _. true)
        500
        7
        2
        true
        ((0, delivered 3 ∷ delivered 4 ∷ []) ∷ [])
        idle_consumer).worker
poll_turn-AtMostOnce_example =
    poll_turn-AtMostOnce (λ _ _. true) 500 7 2 true ((0, delivered 3 ∷ delivered 4 ∷ []) ∷ [])
      idle_consumer (λ id. omega arith)

-- ClickHouse refuses the row of the first delivery.
handle_message_retry_example :
    let after = (handle_message (λ _ _. false) 1 7 true (some finished) idle_worker).1 in
    handle_message (λ _ _. false) 1 7 true (some finished) after ≡ (true, after)
handle_message_retry_example = handle_message_retry (λ _ _. false) 1 7 finished idle_worker refl
