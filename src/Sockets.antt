-- ===== src/Sockets.antt =====
-- The registry of WebSocket connections of one replica and its local fan-out:
-- backend/app/ws/connection_manager.py. A connection is known by `ref`, its identity as an object,
-- which is what a Python set of connections compares. The transport is a parameter: whether a send
-- to a connection succeeds.
pub mod Registry
pub mod PubSub
pub mod Fanout
pub mod Kicked
pub mod Messages
pub mod Handshake
pub mod Dispatch
pub mod Receive
pub mod Attempts
pub mod Own
pub mod Endpoint
use livequiz_platform.Prelude.{
  ℕ, ◌+◌, String, Bool, true, false, ◌&&◌, Option, none, some, List, [], ◌∷◌, ◌++◌, length, any,
  select, map, str_eq, ◌==◌, if◌then◌else◌,
}

pub record WebSocketConnection : Type 0 where
  pub ref : ℕ
  pub conn_id : String
  pub participant_id : ℕ
  pub nickname : String
  pub is_host : Bool
  pub last_seen : ℕ

abbrev pub Rooms : Type 0
Rooms = List (String × List WebSocketConnection)

pub record ConnectionManager : Type 0 where
  pub replica_id : String
  pub rooms : Rooms

-- A message as a dictionary: its type, the replica that published it, what `int` makes of the
-- participant id in its payload, and the rest of its text.
pub record Envelope : Type 0 where
  pub kind : String
  pub origin_replica_id : Option String
  pub participant_id : Option ℕ
  pub rest : String

-- What leaves through the sockets of a replica.
pub data Outgoing : Type 0 where
  frame : (ref : ℕ) → Envelope → Outgoing
  closed : (ref code : ℕ) → Outgoing

abbrev pub kicked_close_code : ℕ
kicked_close_code = 4002

abbrev pub kicked_type : String
kicked_type = "participant.kicked"

abbrev pub is_conn : ℕ → WebSocketConnection → Bool
is_conn ref conn = conn.ref == ref

-- The dictionary of rooms: `get`, assignment and `pop`.
abbrev pub get_room : String → Rooms → Option (List WebSocketConnection)
get_room code [] = none
get_room code ((key, members) ∷ rooms) =
    if str_eq key code then some members else get_room code rooms

abbrev pub set_room : String → List WebSocketConnection → Rooms → Rooms
set_room code conns [] = (code, conns) ∷ []
set_room code conns ((key, members) ∷ rooms) =
    if str_eq key code then (key, conns) ∷ rooms else (key, members) ∷ set_room code conns rooms

abbrev pub pop_room : String → Rooms → Rooms
pop_room code [] = []
pop_room code ((key, members) ∷ rooms) =
    if str_eq key code then rooms else (key, members) ∷ pop_room code rooms

-- The set of connections of a room: `add` and `discard`.
abbrev pub add_member : WebSocketConnection → List WebSocketConnection → List WebSocketConnection
add_member conn conns = if any (is_conn conn.ref) conns then conns else conn ∷ conns

abbrev pub discard_member : ℕ → List WebSocketConnection → List WebSocketConnection
discard_member ref [] = []
discard_member ref (conn ∷ conns) =
    if conn.ref == ref then conns else conn ∷ discard_member ref conns

abbrev pub or_empty : Option (List WebSocketConnection) → List WebSocketConnection
or_empty none = []
or_empty (some conns) = conns

abbrev pub new_manager : String → ConnectionManager
new_manager replica_id = record { replica_id = replica_id; rooms = [] }

unfoldable pub connect : String → WebSocketConnection → ConnectionManager → ConnectionManager
connect code conn m = record m {
  rooms = set_room code (add_member conn (or_empty (get_room code m.rooms))) m.rooms;
}

-- What is left of a room's set: an empty one is taken out of the dictionary.
abbrev pub keep_or_prune :
    String → List WebSocketConnection → ConnectionManager → Bool × ConnectionManager
keep_or_prune code [] m = (true, record m { rooms = pop_room code m.rooms })
keep_or_prune code (conn ∷ conns) m =
    (false, record m { rooms = set_room code (conn ∷ conns) m.rooms })

abbrev pub disconnect_from :
    Option (List WebSocketConnection)
    → String
    → WebSocketConnection
    → ConnectionManager
    → Bool × ConnectionManager
disconnect_from none code conn m = (true, m)
disconnect_from (some conns) code conn m = keep_or_prune code (discard_member conn.ref conns) m

-- The answer is whether the room is empty now.
unfoldable pub disconnect :
    String → WebSocketConnection → ConnectionManager → Bool × ConnectionManager
disconnect code conn m = disconnect_from (get_room code m.rooms) code conn m

abbrev pub members : String → ConnectionManager → List WebSocketConnection
members code m = or_empty (get_room code m.rooms)

abbrev pub room_count : ConnectionManager → ℕ
room_count m = length m.rooms

-- A message without the field that names its replica.
abbrev pub clean : Envelope → Envelope
clean message = record message { origin_replica_id = none }

module _ (transport : ℕ → Bool) where
  -- `send` to each connection: the frames of those that succeed.
  abbrev pub send_each : Envelope → List WebSocketConnection → List Outgoing
  send_each message [] = []
  send_each message (conn ∷ conns) =
      if transport conn.ref
      then frame conn.ref message ∷ send_each message conns
      else send_each message conns

-- `_close_kicked`: every connection of the participant that the payload names.
abbrev pub close_matching : ℕ → List WebSocketConnection → List Outgoing
close_matching target_pid [] = []
close_matching target_pid (conn ∷ conns) =
    let rest = close_matching target_pid conns in
    if conn.participant_id == target_pid then closed conn.ref kicked_close_code ∷ rest else rest

abbrev pub close_kicked : Option ℕ → List WebSocketConnection → List Outgoing
close_kicked none conns = []
close_kicked (some target_pid) conns = close_matching target_pid conns

module _ (transport : ℕ → Bool) where
  abbrev pub broadcast_to_members : List WebSocketConnection → Envelope → ℕ × List Outgoing
  broadcast_to_members conns message =
      let frames = send_each transport message conns in
      let closes =
        if str_eq message.kind kicked_type then close_kicked message.participant_id conns else [] in
      (length frames, frames ++ closes)

  -- The number delivered, and what went out. A room with no member sends nothing.
  unfoldable pub broadcast_local : String → Envelope → ConnectionManager → ℕ × List Outgoing
  broadcast_local code message m = broadcast_to_members (members code m) (clean message)
