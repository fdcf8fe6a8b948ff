-- ===== src/Rooms.antt =====
-- Joining a room: `join_room` of services/room_service.py with the capacity counter of
-- cache/redis.py. What the rate limiter answers, the ids, the time and the ContentFlagged events
-- that the scan of the nickname registers are arguments; so is the `lower` of PostgreSQL. The
-- snapshot for clients that connect is in Rooms.Snapshot, the tokens in Auth.Tokens.
pub mod Capacity
pub mod Create
pub mod Codes
pub mod Snapshot
pub mod Reconnect
use livequiz_platform.Prelude.{
  ℕ, ◌+◌, ◌-◌, String, Bool, true, false, ◌&&◌, Option, none, some, List, [], ◌∷◌, ◌++◌, any, leb,
  str_eq, ◌==◌, if◌then◌else◌,
}
use livequiz_platform.Errors.{
  AuthError, auth_error, rate_limited, room_not_found, room_not_joinable, room_full,
  duplicate_nickname,
}
use livequiz_platform.Store.{Room, RoomParticipant, OutboxEvent, Payload, Db, is_lobby}
use livequiz_platform.Live.{update_text}
use livequiz_platform.Match.Queries.{room_by_code, register_event}

-- The tables and the counters `room:{code}:participants_count`.
pub record RoomWorld : Type 0 where
  pub db : Db
  pub counter : String → Option ℕ

abbrev pub count_or_zero : Option ℕ → ℕ
count_or_zero none = 0
count_or_zero (some n) = n

-- `CAPACITY_ADMIT_LUA`: `none` is -1.
unfoldable pub participants_count_admit : String → ℕ → RoomWorld → Option ℕ × RoomWorld
participants_count_admit code max_players w =
    let cur = count_or_zero (w.counter code) in
    if leb max_players cur
    then (none, w)
    else (some (cur + 1), record w { counter = update_text w.counter code (some (cur + 1)) })

-- `CAPACITY_RELEASE_LUA`
unfoldable pub participants_count_release : String → RoomWorld → RoomWorld
participants_count_release code w =
    let cur = count_or_zero (w.counter code) in
    if leb cur 0 then w else record w { counter = update_text w.counter code (some (cur - 1)) }

pub record JoinRequest : Type 0 where
  pub code : String
  pub nickname : String
  pub user_id : Option ℕ
  pub now : ℕ
  pub participant_id : ℕ
  pub event_id : ℕ
  pub flags : List OutboxEvent

pub data JoinOutcome : Type 0 where
  joined : RoomParticipant → JoinOutcome
  refused : AuthError → JoinOutcome

abbrev pub new_participant : JoinRequest → Room → RoomParticipant
new_participant q room = record {
  id = q.participant_id;
  room_id = room.id;
  user_id = q.user_id;
  nickname = q.nickname;
  left_at = none;
  is_kicked = false;
}

-- The tables with the participant, the PlayerJoined event and the flags.
abbrev pub add_participant : JoinRequest → Room → Db → Db
add_participant q room db =
    let added =
      register_event q.event_id "PlayerJoined" "room" room.id
        (Payload.player_joined room.id q.participant_id q.nickname q.user_id) q.now
        (record db { participants = new_participant q room ∷ db.participants }) in
    record added { outbox = q.flags ++ added.outbox }

module _ (lower : String → String) where
  -- `ux_room_participant_nickname` and the primary key.
  abbrev pub is_taken : JoinRequest → Room → RoomParticipant → Bool
  is_taken q room p =
      if p.id == q.participant_id
      then true
      else p.room_id == room.id && str_eq (lower p.nickname) (lower q.nickname)

  -- Steps 4 and 5: the insert, or the compensation for a nickname that is taken.
  abbrev pub insert_participant : JoinRequest → Room → RoomWorld → JoinOutcome × RoomWorld
  insert_participant q room w =
      if any (is_taken q room) w.db.participants
      then (refused (auth_error duplicate_nickname 409), participants_count_release q.code w)
      else (joined (new_participant q room), record w { db = add_participant q room w.db })

  abbrev pub after_admit : JoinRequest → Room → Option ℕ × RoomWorld → JoinOutcome × RoomWorld
  after_admit q room (none, w) = (refused (auth_error room_full 409), w)
  after_admit q room (some n, w) = insert_participant q room w

  abbrev pub join_found : JoinRequest → Option Room → RoomWorld → JoinOutcome × RoomWorld
  join_found q none w = (refused (auth_error room_not_found 404), w)
  join_found q (some room) w =
      if is_lobby room.status
      then after_admit q room (participants_count_admit q.code room.max_players w)
      else (refused (auth_error room_not_joinable 409), w)

  -- `join_room`, given whether the rate limiter allows the attempt.
  unfoldable pub join_room : (allowed : Bool) → JoinRequest → RoomWorld → JoinOutcome × RoomWorld
  unfolding participants_count_admit participants_count_release
  join_room true q w = join_found q (room_by_code q.code w.db) w
  join_room false q w = (refused (auth_error rate_limited 429), w)
