-- ===== src/Sockets/Endpoint.antt =====
-- The whole life of a socket: who may answer through it, and what it leaves behind.
use mathlib.Core.Path.{fun_ext}
use livequiz_platform.Prelude.{
  ℕ, ◌≡◌, refl, ap, ◌∙◌, String, Bool, true, false, not, Option, none, some, List, ◌⊎◌, inl, inr,
  str_eq, eq_iff, arith,
}
use livequiz_platform.Floats.{Floats}
use livequiz_platform.Errors.{Result, ok, err}
use livequiz_platform.Store.{AnswerSubmission, Db}
use livequiz_platform.Match.Queries.{room_by_code}
use livequiz_platform.Auth.{Claims, Decoded, decoded, participant_type, decode_token}
use livequiz_platform.Auth.Rotation.{decode_token-ok}
use livequiz_platform.RateLimit.{LuaNumbers}
use livequiz_platform.Sockets.{WebSocketConnection, ConnectionManager, connect, disconnect}
use livequiz_platform.Sockets.Registry.{
  AreRooms, holds, Attendance, put, disconnect-AreRooms, connect-AreRooms, holds-connect,
  holds-disconnect,
}
use livequiz_platform.Sockets.Messages.{Validated}
use livequiz_platform.Sockets.Handshake.{
  Handshake, refused, authenticated, close_unless, or_close, returned, str_of, authenticate,
}
use livequiz_platform.Sockets.Dispatch.{SocketWorld, Arrival}
use livequiz_platform.Sockets.Receive.{Session, after_snapshot, ws_room_endpoint}
use livequiz_platform.Sockets.Own.{Grows, same, Adds-receive_loop}

-- A token that names a participant of a room.
abbrev pub IsTokenOf : (String → ℕ → Decoded) → String → ℕ → String → ℕ → Type 0
IsTokenOf jwt token now room_code participant_id =
    (claims : Claims) × (jwt token now ≡ decoded claims)
    × (str_eq claims.token_type participant_type ≡ true)
    × (str_eq (str_of claims.room_code) room_code ≡ true)
    × (claims.participant_id ≡ some participant_id)

-- A registry with the same connections.
abbrev pub Restored : ConnectionManager → ConnectionManager → Type 0
Restored m after = AreRooms after.rooms × (holds after ≡ holds m)

put_again :
    (code : String) (ref : ℕ) (f : Attendance)
    → f code ref ≡ false
    → put code ref false (put code ref true f) ≡ f
put_again code ref f absent = fun_ext λ c. fun_ext λ r. ground (arith, eq_iff code c)

left_again :
    (code : String) (conn : WebSocketConnection) (m : ConnectionManager)
    → AreRooms m.rooms
    → holds m code conn.ref ≡ false
    → Restored m (disconnect code conn (connect code conn m)).1
left_again code conn m wf absent =
    let wf' = connect-AreRooms code conn m wf in
    (
      disconnect-AreRooms code conn (connect code conn m) wf',
      holds-disconnect code conn (connect code conn m) wf'
          ∙ ap (put code conn.ref false) (holds-connect code conn m)
          ∙ put_again code conn.ref (holds m) absent,
    )

-- Rows were added for the participant of a token alone, if any were.
abbrev pub OnlyOwn :
    (String → ℕ → Decoded)
    → String
    → ℕ
    → String
    → List AnswerSubmission
    → List AnswerSubmission
    → Type 0
OnlyOwn jwt token now room_code before after =
    (after ≡ before) ⊎ ((p : ℕ) × IsTokenOf jwt token now room_code p × Grows p before after)

-- The submissions after a session.
abbrev pub rows_of : {Number : Type 0} → Session Number → List AnswerSubmission
rows_of session = session.state.world.db.submissions

-- Inversions of the steps of the handshake.
close_unless-authenticated :
    (b : Bool) (reason : String) (next : Handshake) {p : ℕ} {nickname : String} {host : Bool}
    → close_unless b reason next ≡ authenticated p nickname host
    → (b ≡ true) × (next ≡ authenticated p nickname host)
close_unless-authenticated true reason next h = (refl, h)
close_unless-authenticated false reason next h = cc

or_close-authenticated {ℓ} :
    {A : Type ℓ} (o : Option A) (reason : String) (next : A → Handshake) {p : ℕ} {nickname : String}
    {host : Bool}
    → or_close o reason next ≡ authenticated p nickname host
    → (a : A) × (o ≡ some a) × (next a ≡ authenticated p nickname host)
or_close-authenticated none reason next h = cc
or_close-authenticated (some a) reason next h = (a, refl, h)

returned-some {ℓ} : {A : Type ℓ} (r : Result A) {a : A} → returned r ≡ some a → r ≡ ok a
returned-some (err e) h = cc
returned-some (ok a) h = cc

abbrev pid_of : Handshake → ℕ
pid_of (refused code reason) = 0
pid_of (authenticated p nickname host) = p

authenticate-IsTokenOf :
    (jwt : String → ℕ → Decoded) (token : String) (now : ℕ) (room_code : String) (db : Db) {p : ℕ}
    {nickname : String} {host : Bool}
    → authenticate jwt token now room_code db ≡ authenticated p nickname host
    → IsTokenOf jwt token now room_code p
unfolding authenticate
authenticate-IsTokenOf jwt token now room_code db {p} h =
    let (given, h1) = close_unless-authenticated (not (str_eq token "")) _ _ h in
    let (claims, read, h2) =
      or_close-authenticated (returned (decode_token jwt token now participant_type)) _ _ h1 in
    let (own, h3) =
      close_unless-authenticated (str_eq (str_of claims.room_code) room_code) _ _ h2 in
    let (id, named, h4) = or_close-authenticated claims.participant_id _ _ h3 in
    let (room, found, h5) = or_close-authenticated (room_by_code room_code db) _ _ h4 in
    let (valid, typed) = decode_token-ok jwt token now participant_type (returned-some _ read) in
    let who : id ≡ p = ap pid_of h5 in (claims, valid, typed, own, named ∙ ap some who)

module _ (n : LuaNumbers) (fl : Floats) (zrevrange : (ℕ → Option ℕ) → ℕ → List (ℕ × ℕ))
    (int_of : String → Option ℕ) (validate_json : String → Validated) where
  open n use {Number}

  grown_after_snapshot :
      (room_code : String) (conn : WebSocketConnection) (snapshot : Result ℕ)
      (received : List (Arrival × String)) (m : ConnectionManager) (w : SocketWorld Number)
      → Grows conn.participant_id w.world.db.submissions (
          rows_of (
            after_snapshot n fl zrevrange int_of validate_json room_code conn snapshot received m
              w))
  grown_after_snapshot room_code conn (err e) received m w = same
  grown_after_snapshot room_code conn (ok player_count) received m w =
      Adds-receive_loop n fl zrevrange int_of validate_json conn received w

  module _ (room_code : String) (ref : ℕ) (conn_id : String) (opened : ℕ) (snapshot : Result ℕ)
      (received : List (Arrival × String)) (m : ConnectionManager) (w : SocketWorld Number) where
    abbrev pub submissions_after : Handshake → List AnswerSubmission
    submissions_after handshake = rows_of (
        ws_room_endpoint n fl zrevrange int_of validate_json room_code handshake ref conn_id opened
          snapshot received m w)

    own_rows :
        (jwt : String → ℕ → Decoded) (token : String) (seconds : ℕ) (handshake : Handshake)
        → ((p : ℕ) (nickname : String) (host : Bool)
            → handshake ≡ authenticated p nickname host
            → IsTokenOf jwt token seconds room_code p)
        → OnlyOwn jwt token seconds room_code w.world.db.submissions (submissions_after handshake)
    unfolding ws_room_endpoint
    own_rows jwt token seconds (refused code reason) named = inl refl
    own_rows jwt token seconds (authenticated p nickname host) named =
        inr (p, named p nickname host refl, grown_after_snapshot room_code _ snapshot received m w)

    -- Whatever a client sends on a socket, and however its handshake and its snapshot go: the
    -- submissions stay as they were, or the token is valid, is one of a participant of this room, and
    -- rows of that participant alone were added in front.
    pub ws_room_endpoint-OnlyOwn :
        (jwt : String → ℕ → Decoded) (token : String) (seconds : ℕ)
        → OnlyOwn jwt token seconds room_code w.world.db.submissions
            (submissions_after (authenticate jwt token seconds room_code w.world.db))
    ws_room_endpoint-OnlyOwn jwt token seconds =
        own_rows jwt token seconds (authenticate jwt token seconds room_code w.world.db)
          (λ p nickname host e. authenticate-IsTokenOf jwt token seconds room_code w.world.db e)

    abbrev pub manager_after : Handshake → ConnectionManager
    manager_after handshake =
        (ws_room_endpoint n fl zrevrange int_of validate_json room_code handshake ref conn_id opened
          snapshot received m w).manager

    manager_after_snapshot :
        (conn : WebSocketConnection) (s : Result ℕ)
        → AreRooms m.rooms
        → holds m room_code conn.ref ≡ false
        → Restored m
            (after_snapshot n fl zrevrange int_of validate_json room_code conn s received m
              w).manager
    manager_after_snapshot conn (err e) wf absent = (wf, refl)
    manager_after_snapshot conn (ok player_count) wf absent = left_again room_code conn m wf absent

    -- A socket that was not in the room leaves the registry as it was: each room that has a
    -- connection under one key, with the same connections as before.
    pub ws_room_endpoint-holds :
        (handshake : Handshake)
        → AreRooms m.rooms
        → holds m room_code ref ≡ false
        → Restored m (manager_after handshake)
    unfolding ws_room_endpoint
    ws_room_endpoint-holds (refused code reason) wf absent = (wf, refl)
    ws_room_endpoint-holds (authenticated p nickname host) wf absent =
        manager_after_snapshot _ snapshot wf absent
