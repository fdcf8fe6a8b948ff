-- ===== src/Sockets/Fanout.antt =====
-- What a broadcast brings to each connection, on every replica.
use livequiz_platform.Prelude.{
  ℕ, String, Bool, true, false, ◌&&◌, ◌||◌, Option, none, some, List, [], ◌∷◌, ◌++◌, ◌≡◌, ◌≢◌, refl,
  ap, ◌∙◌, any, str_eq, eq_iff, ◌==◌, if◌then◌else◌, arith, Bool-cases, inl, inr,
}
use mathlib.Core.List.{append-nil}
use livequiz_platform.Sockets.{
  WebSocketConnection, ConnectionManager, Envelope, Outgoing, frame, closed, is_conn, kicked_type,
  members, clean, send_each, close_matching, close_kicked, broadcast_local,
}
use livequiz_platform.Sockets.Registry.{IsSetOf, AreRooms, holds, members-IsSetOf}
use livequiz_platform.Sockets.PubSub.{
  ws_room, room_code_from_channel, is_from, dispatch_one, run_pubsub_listener, broadcast_all,
  fan_out,
}

-- The messages that one connection receives.
abbrev pub inbox : ℕ → List Outgoing → List Envelope
inbox ref [] = []
inbox ref (frame to message ∷ out) =
    let rest = inbox ref out in if to == ref then message ∷ rest else rest
inbox ref (closed to code ∷ out) = inbox ref out

inbox-append : (ref : ℕ) (a b : List Outgoing) → inbox ref (a ++ b) ≡ inbox ref a ++ inbox ref b
inbox-append ref [] b = refl
inbox-append ref (frame to message ∷ a) b = ground (arith, inbox-append ref a b)
inbox-append ref (closed to code ∷ a) b = inbox-append ref a b

inbox-close_matching :
    (ref target : ℕ) (conns : List WebSocketConnection)
    → inbox ref (close_matching target conns) ≡ []
inbox-close_matching ref target [] = refl
inbox-close_matching ref target (conn ∷ conns) =
    ground (arith, inbox-close_matching ref target conns)

inbox-close_kicked :
    (ref : ℕ) (target : Option ℕ) (conns : List WebSocketConnection)
    → inbox ref (close_kicked target conns) ≡ []
inbox-close_kicked ref none conns = refl
inbox-close_kicked ref (some target) conns = inbox-close_matching ref target conns

module _ (transport : ℕ → Bool) (ref : ℕ) (message : Envelope) where
  inbox-send_each_none :
      (conns : List WebSocketConnection)
      → any (is_conn ref) conns ≡ false
      → inbox ref (send_each transport message conns) ≡ []
  inbox-send_each_none [] h = refl
  inbox-send_each_none (conn ∷ conns) h = ground (arith, inbox-send_each_none conns)

  -- Each connection of a set gets a message once, if its transport works.
  inbox-send_each :
      (conns : List WebSocketConnection)
      → IsSetOf conns
      → inbox ref (send_each transport message conns)
        ≡ (if any (is_conn ref) conns && transport ref then message ∷ [] else [])
  inbox-send_each [] s = refl
  inbox-send_each (conn ∷ conns) s =
      ground (arith, inbox-send_each conns s.1, inbox-send_each_none conns)

text_comm : (s t : String) → str_eq s t ≡ str_eq t s
text_comm s t = ground (arith, eq_iff s t, eq_iff t s)

-- A room code comes back from the channel of its room, also one that holds a colon.
pub room_code_from_channel-ws_room :
    (room_code : String)
    → room_code ≢ ""
    → room_code_from_channel (ws_room room_code) ≡ some room_code
unfolding room_code_from_channel
room_code_from_channel-ws_room String.[] h = absurd (h refl)
room_code_from_channel-ws_room (String.◌∷◌ c s) h = refl

module _ (transport : ℕ → Bool) (ref : ℕ) (m : ConnectionManager) (w : AreRooms m.rooms) where
  inbox-broadcast_local :
      (room_code : String) (message : Envelope)
      → inbox ref (broadcast_local transport room_code message m).1
        ≡ (if holds m room_code ref && transport ref then clean message ∷ [] else [])
  unfolding broadcast_local
  inbox-broadcast_local room_code message =
      let conns : List WebSocketConnection = members room_code m in
      ground (
        arith,
        inbox-append ref (send_each transport (clean message) conns) (
            if str_eq message.kind kicked_type
            then close_kicked message.participant_id conns
            else []),
        inbox-send_each transport ref (clean message) conns (members-IsSetOf room_code m.rooms w),
        inbox-close_kicked ref message.participant_id conns,
      )

module _ {Text : Type 0} (dumps : Envelope → Text) (loads : Text → Option Envelope)
    (loads-dumps : (e : Envelope) → loads (dumps e) ≡ some e) (transport : ℕ → Bool) (ref : ℕ) where
  inbox-dispatch_one :
      (m : ConnectionManager) (room_code : String) (e : Envelope)
      → AreRooms m.rooms
      → room_code ≢ ""
      → inbox ref (dispatch_one loads transport m (ws_room room_code) (dumps e)) ≡ (
          if is_from m.replica_id e.origin_replica_id
          then []
          else (if holds m room_code ref && transport ref then clean e ∷ [] else []))
  unfolding dispatch_one
  inbox-dispatch_one m room_code e w h =
      rw (room_code_from_channel-ws_room room_code h, loads-dumps e)
        (elim (Bool-cases (is_from m.replica_id e.origin_replica_id)) [
          | inl own ↦ rw own
          | inr other ↦ rw other (inbox-broadcast_local transport ref m w room_code e)
        ])

  abbrev pub expected : Bool → ConnectionManager → String → Envelope → List Envelope
  expected reached m room_code message =
      if reached && (holds m room_code ref && transport ref) then clean message ∷ [] else []

  inbox-listener :
      (redis_up : Bool) (room_code : String) (message : Envelope) (sender r : ConnectionManager)
      → AreRooms r.rooms
      → room_code ≢ ""
      → inbox ref (
          run_pubsub_listener loads transport r
            (broadcast_all dumps transport redis_up room_code message sender).0)
        ≡ (if is_from r.replica_id (some sender.replica_id)
            then []
            else expected redis_up r room_code message)
  unfolding run_pubsub_listener broadcast_all
  inbox-listener false room_code message sender r wr h = ground arith
  inbox-listener true room_code message sender r wr h =
      let e : Envelope = record message { origin_replica_id = some sender.replica_id } in
      inbox-append ref (dispatch_one loads transport r (ws_room room_code) (dumps e)) []
      ∙ append-nil _
      ∙ inbox-dispatch_one r room_code e wr h

  -- While nobody connects or disconnects, a broadcast brings the message, without the name of its
  -- replica, exactly once to each connection of the room whose transport works, on the replica that
  -- broadcasts also if Redis is down and on every other replica if it is not, and to nobody else.
  pub inbox-fan_out :
      (redis_up : Bool) (room_code : String) (message : Envelope) (sender r : ConnectionManager)
      → AreRooms sender.rooms
      → AreRooms r.rooms
      → room_code ≢ ""
      → (str_eq r.replica_id sender.replica_id ≡ true → r ≡ sender)
      → inbox ref (fan_out dumps loads transport redis_up room_code message sender r)
        ≡ expected (str_eq r.replica_id sender.replica_id || redis_up) r room_code message
  unfolding fan_out
  inbox-fan_out redis_up room_code message sender r ws wr h same =
      let own : List Outgoing = (broadcast_local transport room_code message sender).1 in
      let heard : List Outgoing =
        run_pubsub_listener loads transport r
          (broadcast_all dumps transport redis_up room_code message sender).0 in
      let sent = inbox-broadcast_local transport ref sender ws room_code message in
      let listened = inbox-listener redis_up room_code message sender r wr h in
      elim (Bool-cases (str_eq r.replica_id sender.replica_id)) [
        | inl mine ↦
            (let back = text_comm sender.replica_id r.replica_id ∙ mine in
              rw mine (
                inbox-append ref own heard
                ∙ ap (λ (l : List Envelope). inbox ref own ++ l) (rw back at listened)
                ∙ append-nil _
                ∙ rw (same mine) sent))
        | inr other ↦
            (let away = text_comm sender.replica_id r.replica_id ∙ other in
              rw other (rw away at listened))
      ]
