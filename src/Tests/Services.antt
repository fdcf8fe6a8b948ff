-- ===== src/Tests/Services.antt =====
-- The theorems on rooms, the outbox publisher and the flush of rows at concrete inputs.
use livequiz_platform.Prelude.{
  String, List, ℕ, Bool, ◌≡◌, refl, true, false, some, none, [], ◌∷◌, arith, ◌==◌, if◌then◌else◌,
}
use livequiz_platform.Store.{OutboxEvent, Payload, RoomParticipant, lobby}
use livequiz_platform.Outbox.{
  Publisher, SendOutcome, acked, stored_unacked, not_stored, process_batch,
}
use livequiz_platform.Outbox.Delivery.{Delivered, process_batch-Delivered}
use livequiz_platform.Rooms.{
  RoomWorld, JoinRequest, join_room, new_participant, participants_count_admit,
}
use livequiz_platform.Rooms.Snapshot.{SnapshotWorld, join_room_snapshot}
use livequiz_platform.Rooms.Reconnect.{ListsLast, join_room_snapshot-ListsLast}
use livequiz_platform.Rooms.Create.{RoomCreate}
use livequiz_platform.Rooms.Capacity.{Counted, Seats, seats_and_count, join_room-Seats}
use livequiz_platform.Stream.{ClickHouseClient, flush_all}
use livequiz_platform.Stream.Flush.{pending_rows, flush_all-lost}
use livequiz_platform.Tests.Data.{lobby_db, room_in}

abbrev event : ℕ → ℕ → OutboxEvent
event id attempts = record {
  id = id;
  aggregate_type = "match";
  aggregate_id = 10;
  event_type = "MatchFinished";
  payload = Payload.match_finished 10 1 25000000 [];
  occurred_at = id;
  published_at = none;
  publish_attempts = attempts;
}

abbrev publisher : Publisher
publisher = record {
  outbox = event 2 0 ∷ event 1 10 ∷ event 3 0 ∷ [];
  backoff = λ _. none;
  sent = [];
  published_ids = [];
}

-- The broker stores all but the second event, and acknowledges the first alone.
abbrev broker : ℕ → SendOutcome
broker id = if id == 1 then acked else if id == 2 then not_stored else stored_unacked

abbrev unlocked : ℕ → Bool
unlocked _ = false

process_batch-Delivered_example :
    Delivered (process_batch 26000000 unlocked broker true publisher).1
process_batch-Delivered_example =
    process_batch-Delivered 26000000 unlocked broker true publisher (cc, (cc, (cc, tt)))

abbrev create : RoomCreate
create = record {
  host_id = 7;
  quiz_set_id = 3;
  max_players = 50;
  settings = [];
  now = 100000;
  event_id = 91;
}

abbrev candidates : List (ℕ × String)
candidates = (2, "ROOM") ∷ (3, "FREE") ∷ []

abbrev rooms : RoomWorld
rooms = record { db = lobby_db; counter = λ _. some 2 }

abbrev join : JoinRequest
join = record {
  code = "ROOM";
  nickname = "cy";
  user_id = none;
  now = 500000;
  participant_id = 42;
  event_id = 90;
  flags = [];
}

join_room-Seats_example :
    let r = join_room (λ s. s) true join rooms in
    Counted 1 "ROOM" r.1
    × Seats (room_in lobby) (seats_and_count 1 "ROOM" rooms) (seats_and_count 1 "ROOM" r.1) r.0
join_room-Seats_example =
    join_room-Seats (λ s. s) join (room_in lobby) rooms true refl (omega arith)

abbrev client : ClickHouseClient ℕ
client = record {
  buffers =
      record { table = "events_raw"; rows = 1 ∷ 2 ∷ []; last_flush = 0 }
      ∷ record { table = "answer_events"; rows = 3 ∷ []; last_flush = 0 }
      ∷ [];
  stored = ("events_raw", 0 ∷ []) ∷ [];
}

flush_all-lost_example :
    let r = flush_all (λ _ _. false) 500 client in
    (pending_rows r.1.buffers ≡ 0) × (r.1.stored ≡ client.stored)
flush_all-lost_example = flush_all-lost 500 client

abbrev snapshots : SnapshotWorld
snapshots = record { rooms = rooms; state = λ _. none }

abbrev cy : RoomParticipant
cy = new_participant join (room_in lobby)

abbrev snapshots_after : SnapshotWorld
snapshots_after = (join_room_snapshot (λ s. s) true join snapshots).1

join_room_snapshot-ListsLast_example : ListsLast "ROOM" (room_in lobby) lobby_db cy snapshots_after
unfolding join_room_snapshot join_room participants_count_admit
join_room_snapshot-ListsLast_example =
    join_room_snapshot-ListsLast (λ s. s) true join (room_in lobby) snapshots snapshots_after cy
      refl refl
