-- ===== src/Rooms/Snapshot.antt =====
-- The snapshot of a room for clients that connect: `_build_snapshot`, `build_snapshot` and the end of
-- `join_room` and `create_room` in services/room_service.py, with `RoomSnapshotWriter` of
-- cache/redis.py. Participants stand in the tables with the newest first, which is the order of
-- `joined_at` from its end. That a completed room's snapshot expires is left out.
use livequiz_platform.Prelude.{
  ℕ, String, Bool, false, not, ◌&&◌, Option, none, some, List, [], ◌∷◌, ◌++◌, length, is_none, ◌==◌,
  if◌then◌else◌,
}
use livequiz_platform.Errors.{Result, ok, ◌>>=◌, or_raise, room_not_found}
use livequiz_platform.Store.{Room, RoomStatus, RoomParticipant, Db}
use livequiz_platform.Live.{update_text}
use livequiz_platform.Match.Queries.{room_by_code}
use livequiz_platform.Rooms.{RoomWorld, JoinRequest, JoinOutcome, joined, refused, join_room}
use livequiz_platform.Rooms.Create.{RoomCreate, create_room}

-- `_participant_payload`
pub record ParticipantPayload : Type 0 where
  pub participant_id : ℕ
  pub nickname : String
  pub online : Bool

-- The fields `match` and `leaderboard` of a room in its lobby are constant.
pub record RoomSnapshot : Type 0 where
  pub code : String
  pub status : RoomStatus
  pub player_count : ℕ
  pub participants : List ParticipantPayload

-- The tables and counters, and the keys `room:{code}:state`.
pub record SnapshotWorld : Type 0 where
  pub rooms : RoomWorld
  pub state : String → Option RoomSnapshot

abbrev pub participant_payload : RoomParticipant → ParticipantPayload
participant_payload p = record { participant_id = p.id; nickname = p.nickname; online = false }

abbrev pub is_present : Room → RoomParticipant → Bool
is_present room p = p.room_id == room.id && (is_none p.left_at && not p.is_kicked)

abbrev pub present_payloads : Room → List RoomParticipant → List ParticipantPayload
present_payloads room [] = []
present_payloads room (p ∷ participants) =
    let rest = present_payloads room participants in
    if is_present room p then rest ++ participant_payload p ∷ [] else rest

-- `_build_snapshot`; its second result is the number of players.
unfoldable pub built_snapshot : Room → Db → RoomSnapshot
built_snapshot room db = record {
  code = room.code;
  status = room.status;
  player_count = length (present_payloads room db.participants);
  participants = present_payloads room db.participants;
}

-- `RoomSnapshotWriter.write` and `participants_count_init`
abbrev pub write : String → RoomSnapshot → SnapshotWorld → SnapshotWorld
write code snapshot w = record w { state = update_text w.state code (some snapshot) }

abbrev pub participants_count_init : String → ℕ → RoomWorld → RoomWorld
participants_count_init code value w = record w {
  counter = update_text w.counter code (some value);
}

abbrev pub rebuild : String → Room → SnapshotWorld → RoomSnapshot × SnapshotWorld
rebuild code room w =
    let snapshot = built_snapshot room w.rooms.db in
    (
      snapshot,
      write code snapshot
          (record w { rooms = participants_count_init code snapshot.player_count w.rooms }),
    )

abbrev pub cached_or_rebuilt :
    Option RoomSnapshot → String → SnapshotWorld → Result (RoomSnapshot × SnapshotWorld)
cached_or_rebuilt (some cached) code w = ok (cached, w)
cached_or_rebuilt none code w = do
  room ← or_raise (room_by_code code w.rooms.db) room_not_found 404
  ok (rebuild code room w)

-- `build_snapshot`
unfoldable pub build_snapshot : String → SnapshotWorld → Result (RoomSnapshot × SnapshotWorld)
build_snapshot code w = cached_or_rebuilt (w.state code) code w

-- Step 6 of `join_room`, for the room that was found.
abbrev pub refresh_joined :
    String → Option Room → JoinOutcome × RoomWorld → SnapshotWorld → JoinOutcome × SnapshotWorld
refresh_joined code (some room) (joined p, rooms) w =
    (joined p, write code (built_snapshot room rooms.db) (record w { rooms = rooms }))
refresh_joined code none (joined p, rooms) w = (joined p, record w { rooms = rooms })
refresh_joined code room (refused e, rooms) w = (refused e, record w { rooms = rooms })

-- `join_room` with its snapshot.
unfoldable pub join_room_snapshot :
    (lower : String → String)
    → (allowed : Bool) → JoinRequest
    → SnapshotWorld
    → JoinOutcome × SnapshotWorld
join_room_snapshot lower allowed q w =
    refresh_joined q.code (room_by_code q.code w.rooms.db) (join_room lower allowed q w.rooms) w

abbrev pub snapshot_created : SnapshotWorld → Room × RoomWorld → Room × SnapshotWorld
snapshot_created w (room, rooms) =
    (room, write room.code (built_snapshot room rooms.db) (record w { rooms = rooms }))

-- `create_room` with its snapshot.
unfoldable pub create_room_snapshot :
    RoomCreate → List (ℕ × String) → SnapshotWorld → Result (Room × SnapshotWorld)
create_room_snapshot q candidates w = do
  created ← create_room q candidates w.rooms
  ok (snapshot_created w created)
