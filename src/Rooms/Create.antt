-- ===== src/Rooms/Create.antt =====
-- Creating a room: `create_room` of services/room_service.py. The candidates are what
-- `_generate_code` gives, one for each attempt, with the ids of the rows. The
-- snapshot that it writes is in Rooms.Snapshot.
use livequiz_platform.Prelude.{
  ℕ, String, Bool, ◌||◌, Option, none, some, List, [], ◌∷◌, any, find, take, str_eq, ◌==◌,
  if◌then◌else◌,
}
use livequiz_platform.Errors.{
  Result, ok, ◌>>=◌, ◌>>◌, require, or_raise, validation_error, forbidden, quiz_not_published,
  internal_error,
}
use livequiz_platform.Store.{Room, QuizSet, Db, Payload, lobby}
use livequiz_platform.Live.{update_text}
use livequiz_platform.Match.Queries.{register_event}
use livequiz_platform.Rooms.{RoomWorld}

abbrev pub code_retries : ℕ
code_retries = 5

pub record RoomCreate : Type 0 where
  pub host_id : ℕ
  pub quiz_set_id : ℕ
  pub max_players : ℕ
  pub settings : List (String × String)
  pub now : ℕ
  pub event_id : ℕ

abbrev pub new_room : RoomCreate → ℕ × String → Room
new_room q (id, code) = record {
  id = id;
  code = code;
  host_id = q.host_id;
  quiz_set_id = q.quiz_set_id;
  status = lobby;
  max_players = q.max_players;
  settings = q.settings;
  started_at = none;
  ended_at = none;
}

-- The primary key and `ux_rooms_code`.
abbrev pub room_collides : Room → Room → Bool
room_collides r s = s.id == r.id || str_eq s.code r.code

-- The loop over the attempts, each in its own savepoint.
unfoldable pub allocate : RoomCreate → List (ℕ × String) → List Room → Option Room
allocate q [] rooms = none
allocate q (c ∷ candidates) rooms =
    let rest = allocate q candidates rooms in
    if any (room_collides (new_room q c)) rooms then rest else some (new_room q c)

abbrev pub room_event : RoomCreate → Room → Payload
room_event q room =
    Payload.room_created room.id room.host_id room.quiz_set_id room.max_players room.code
      room.settings

-- The new row and its event.
abbrev pub insert_room : RoomCreate → Room → Db → Db
insert_room q room db =
    register_event q.event_id "RoomCreated" "room" room.id (room_event q room) q.now
      (record db { rooms = room ∷ db.rooms })

-- The transaction of `create_room`.
unfoldable pub create_tx : RoomCreate → List (ℕ × String) → Db → Result (Room × Db)
unfolding allocate
create_tx q candidates db = do
  quiz ← or_raise (find (λ (s : QuizSet). s.id == q.quiz_set_id) db.quiz_sets) validation_error 404
  require (quiz.owner_id == q.host_id) forbidden 403
  require quiz.is_published quiz_not_published 409
  room ← or_raise (allocate q (take code_retries candidates) db.rooms) internal_error 500
  ok (room, insert_room q room db)

-- `create_room`: after the commit the counter starts at 0.
unfoldable pub create_room : RoomCreate → List (ℕ × String) → RoomWorld → Result (Room × RoomWorld)
unfolding create_tx
create_room q candidates w = do
  (room, db) ← create_tx q candidates w.db
  ok (room, record { db = db; counter = update_text w.counter room.code (some 0) })
