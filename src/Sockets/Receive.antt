-- ===== src/Sockets/Receive.antt =====
-- The life of a socket: `_ws_rate_check`, `_receive_loop`, `_heartbeat_watchdog` and
-- `ws_room_endpoint` of backend/app/ws/router.py. Pydantic is the parameter `validate_json`. The
-- snapshot that `build_snapshot` answers is an argument: its number of players, or what it raised.
use livequiz_platform.Prelude.{
  ℕ, ◌-◌, ◌*◌, ◌/◌, String, Option, none, some, List, [], ◌∷◌, ◌++◌, ltb, if◌then◌else◌,
}
use livequiz_platform.Floats.{Floats}
use livequiz_platform.Errors.{Result, ok, err, validation_error}
use livequiz_platform.Live.{update_text}
use livequiz_platform.RateLimit.{LuaNumbers, Acquired, acquire}
use livequiz_platform.Sockets.{WebSocketConnection, ConnectionManager, connect, disconnect}
use livequiz_platform.Sockets.Messages.{
  Validated, validation_failed, malformed, valid, ServerMessage,
}
use livequiz_platform.Sockets.Handshake.{Handshake, refused, authenticated}
use livequiz_platform.Sockets.Dispatch.{us_per_s, SocketWorld, Arrival, error_of, limited, dispatch}

abbrev pub heartbeat_timeout_s : ℕ
heartbeat_timeout_s = 60

abbrev pub ws_rate_capacity : ℕ
ws_rate_capacity = 30

abbrev pub ws_rate_refill : ℕ
ws_rate_refill = 30

abbrev pub close_heartbeat_timeout : ℕ
close_heartbeat_timeout = 4001

abbrev pub close_normal : ℕ
close_normal = 1000

-- One round of `_heartbeat_watchdog` after its sleep: the code to close the socket with.
unfoldable pub watchdog_round : (now : ℕ) → WebSocketConnection → Option ℕ
watchdog_round now conn =
    if ltb (heartbeat_timeout_s * us_per_s) (now - conn.last_seen)
    then some close_heartbeat_timeout
    else none

-- What the room hears of a socket.
pub data Presence : Type 0 where
  participant_joined : (participant_id : ℕ) → (nickname : String) → (player_count : ℕ) → Presence
  participant_left : (participant_id : ℕ) → (nickname : String) → (player_count : ℕ) → Presence

-- What comes of a socket: the messages to it alone, the code that the server closes it with, if it
-- does, what the room hears, and the state.
pub record Session (Number : Type 0) : Type 0 where
  pub replies : List ServerMessage
  pub close_code : Option ℕ
  pub broadcasts : List Presence
  pub manager : ConnectionManager
  pub state : SocketWorld Number

module _ (n : LuaNumbers) (fl : Floats) (zrevrange : (ℕ → Option ℕ) → ℕ → List (ℕ × ℕ))
    (int_of : String → Option ℕ) (validate_json : String → Validated) where
  open n use {Number, of_int}

  -- `_ws_rate_check`
  abbrev pub ws_rate_check :
      (now : ℕ) → (conn_id : String) → SocketWorld Number → Acquired × SocketWorld Number
  ws_rate_check now conn_id w =
      let (answer, bucket) =
        acquire n ws_rate_capacity (of_int ws_rate_refill) 1 (now / 1000) (now / 1000)
          (w.conn_buckets conn_id) in
      (answer, record w { conn_buckets = update_text w.conn_buckets conn_id (some bucket) })

  abbrev pub handle_validated :
      Arrival
      → WebSocketConnection
      → Validated
      → SocketWorld Number
      → List ServerMessage × SocketWorld Number
  handle_validated at conn validation_failed w = (error_of none validation_error, w)
  handle_validated at conn malformed w = (error_of none validation_error, w)
  handle_validated at conn (valid message) w = dispatch n fl zrevrange int_of at conn message w

  -- One round of the loop, after a text was received.
  unfoldable pub receive :
      Arrival
      → WebSocketConnection
      → (raw : String) → SocketWorld Number
      → List ServerMessage × SocketWorld Number
  receive at conn raw w =
      let (answer, counted) = ws_rate_check at.now conn.conn_id w in
      if answer.allowed
      then handle_validated at conn (validate_json raw) counted
      else (limited answer, counted)

  -- The texts that are received until the client disconnects. Each is a sign of life.
  unfoldable pub receive_loop :
      WebSocketConnection
      → List (Arrival × String)
      → SocketWorld Number
      → List ServerMessage × WebSocketConnection × SocketWorld Number
  receive_loop conn [] w = ([], conn, w)
  receive_loop conn ((at, raw) ∷ received) w =
      let seen = record conn { last_seen = at.now } in
      let (replies, w') = receive at seen raw w in
      let (later, last, end) = receive_loop seen received w' in (replies ++ later, last, end)

  abbrev pub run_session :
      (room_code : String)
      → WebSocketConnection
      → (player_count : ℕ) → List (Arrival × String)
      → ConnectionManager
      → SocketWorld Number
      → Session Number
  run_session room_code conn player_count received m w =
      let joined = connect room_code conn m in
      let (replies, last, after) = receive_loop conn received w in
      record {
        replies = replies;
        close_code = none;
        broadcasts =
            participant_joined conn.participant_id conn.nickname player_count
            ∷ participant_left conn.participant_id conn.nickname (player_count - 1)
            ∷ [];
        manager = (disconnect room_code conn joined).1;
        state = after;
      }

  abbrev pub after_snapshot :
      (room_code : String)
      → WebSocketConnection
      → Result ℕ
      → List (Arrival × String)
      → ConnectionManager
      → SocketWorld Number
      → Session Number
  after_snapshot room_code conn (err e) received m w = record {
    replies = error_of none e.code;
    close_code = some close_normal;
    broadcasts = [];
    manager = m;
    state = w;
  }
  after_snapshot room_code conn (ok player_count) received m w =
      run_session room_code conn player_count received m w

  -- `ws_room_endpoint`, for a socket with the identity `ref` that opens at a time and receives
  -- texts. The connections of others come and go between its steps; they are left out.
  unfoldable pub ws_room_endpoint :
      (room_code : String)
      → Handshake
      → (ref : ℕ) → (conn_id : String) → (opened : ℕ) → Result ℕ
      → List (Arrival × String)
      → ConnectionManager
      → SocketWorld Number
      → Session Number
  unfolding receive_loop
  ws_room_endpoint room_code (refused close_code reason) ref conn_id opened snapshot received m w =
      record { replies = []; close_code = some close_code; broadcasts = []; manager = m; state = w }
  ws_room_endpoint room_code (authenticated participant_id nickname is_host) ref conn_id opened
        snapshot received m w =
      after_snapshot room_code
        (record {
          ref = ref;
          conn_id = conn_id;
          participant_id = participant_id;
          nickname = nickname;
          is_host = is_host;
          last_seen = opened;
        })
        snapshot received m w
