-- ===== src/Sockets/Kicked.antt =====
-- A decision to mute closes the sockets of those it kicks, on every replica.
use livequiz_platform.Prelude.{
  ℕ, String, Bool, true, false, ◌&&◌, ◌||◌, Option, none, some, List, [], ◌∷◌, ◌++◌, ◌≡◌, ◌≢◌, refl,
  ◌∙◌, any, All, All-find, is_some, find, ◌==◌, if◌then◌else◌, arith, Bool-cases, inl, inr,
}
use livequiz_platform.Errors.{Result, ok, err}
use livequiz_platform.Store.{ModerationReport, RoomParticipant, Room, Db, is_pending}
use livequiz_platform.Match.Queries.{room_by_id}
use livequiz_platform.Moderation.Decide.{
  is_muted_by, mute_targets, code_of, mute, DecisionRequest, is_report, decision_of, decide,
}
use livequiz_platform.Moderation.Muted.{decide-mutes}
use livequiz_platform.Sockets.{
  WebSocketConnection, ConnectionManager, Envelope, Outgoing, frame, closed, kicked_close_code,
  members, send_each, close_matching, broadcast_local,
}
use livequiz_platform.Sockets.PubSub.{
  ws_room, dispatch_one, run_pubsub_listener, kicked_envelope, kick_publications,
}
use livequiz_platform.Sockets.Fanout.{room_code_from_channel-ws_room}

-- The participants that a decision broadcasts as kicked, none if it raises.
abbrev pub kicked_in : Result (ModerationReport × List (String × ℕ) × Db) → List (String × ℕ)
kicked_in (err e) = []
kicked_in (ok (report, targets, db)) = targets

-- Whether a connection is closed as muted.
abbrev pub is_closed : ℕ → List Outgoing → Bool
is_closed ref [] = false
is_closed ref (frame to message ∷ out) = is_closed ref out
is_closed ref (closed to code ∷ out) =
    if to == ref && code == kicked_close_code then true else is_closed ref out

-- Whether a connection is one of a participant in a room.
abbrev pub is_socket_of : ConnectionManager → ℕ → String → ℕ → Bool
is_socket_of m ref room_code participant_id =
    any (λ (c : WebSocketConnection). c.ref == ref && c.participant_id == participant_id)
      (members room_code m)

module _ (ref : ℕ) where
  is_closed-append :
      (a b : List Outgoing) → is_closed ref (a ++ b) ≡ (is_closed ref a || is_closed ref b)
  is_closed-append [] b = refl
  is_closed-append (frame to message ∷ a) b = is_closed-append a b
  is_closed-append (closed to code ∷ a) b = ground (arith, is_closed-append a b)

  is_closed-send_each :
      (transport : ℕ → Bool) (message : Envelope) (conns : List WebSocketConnection)
      → is_closed ref (send_each transport message conns) ≡ false
  is_closed-send_each transport message [] = refl
  is_closed-send_each transport message (conn ∷ conns) =
      ground (arith, is_closed-send_each transport message conns)

  is_closed-close_matching :
      (target : ℕ) (conns : List WebSocketConnection)
      → is_closed ref (close_matching target conns)
        ≡ any (λ (c : WebSocketConnection). c.ref == ref && c.participant_id == target) conns
  is_closed-close_matching target [] = refl
  is_closed-close_matching target (conn ∷ conns) =
      ground (arith, is_closed-close_matching target conns)

  is_closed-broadcast_local :
      (transport : ℕ → Bool) (m : ConnectionManager) (room_code : String) (participant_id : ℕ)
      → is_closed ref (broadcast_local transport room_code (kicked_envelope participant_id) m).1
        ≡ is_socket_of m ref room_code participant_id
  unfolding broadcast_local
  is_closed-broadcast_local transport m room_code participant_id =
      let frames = send_each transport (kicked_envelope participant_id) (members room_code m) in
      is_closed-append frames (close_matching participant_id (members room_code m))
      ∙ rw (is_closed-send_each transport (kicked_envelope participant_id) (members room_code m))
          (is_closed-close_matching participant_id (members room_code m))

or_if : (a b : Bool) → (a || b) ≡ (if a then true else b)
or_if a b = ground arith

code_of-ne :
    (o : Option Room) → ((r : Room) → o ≡ some r → r.code ≢ "") → is_some o ≡ true → code_of o ≢ ""
code_of-ne none all there = cc
code_of-ne (some r) all there = all r refl

-- The room of a participant who is muted exists.
muted-ne :
    (report : ModerationReport) (db : Db) (p : RoomParticipant)
    → All (λ (r : Room). r.code ≢ "") db.rooms
    → is_muted_by report db p ≡ true
    → code_of (room_by_id p.room_id db) ≢ ""
muted-ne report db p coded h =
    code_of-ne (room_by_id p.room_id db)
      (λ r e.
        All-find (λ (r : Room). r.code ≢ "") (λ (r : Room). r.id == p.room_id) db.rooms coded e)
      (ground arith)

module _ {Text : Type 0} (dumps : Envelope → Text) (loads : Text → Option Envelope)
    (loads-dumps : (e : Envelope) → loads (dumps e) ≡ some e) (transport : ℕ → Bool)
    (m : ConnectionManager) (ref : ℕ) where
  is_closed-dispatch_one :
      (room_code : String) (participant_id : ℕ)
      → room_code ≢ ""
      → is_closed ref (
          dispatch_one loads transport m
            (ws_room room_code)
            (dumps (kicked_envelope participant_id)))
        ≡ is_socket_of m ref room_code participant_id
  unfolding dispatch_one
  is_closed-dispatch_one room_code participant_id h =
      rw (room_code_from_channel-ws_room room_code h, loads-dumps (kicked_envelope participant_id))
        (is_closed-broadcast_local ref transport m room_code participant_id)

  -- Whether one of the muted participants has the connection.
  abbrev pub is_socket_of_muted : ModerationReport → Db → List RoomParticipant → Bool
  is_socket_of_muted report db participants =
      any
        (λ (p : RoomParticipant).
          is_muted_by report db p && is_socket_of m ref (code_of (room_by_id p.room_id db)) p.id)
        participants

  is_closed-mute_targets :
      (report : ModerationReport) (db : Db) (participants : List RoomParticipant)
      → All (λ (r : Room). r.code ≢ "") db.rooms
      → is_closed ref (
          run_pubsub_listener loads transport m
            (kick_publications dumps (mute_targets report db participants)))
        ≡ is_socket_of_muted report db participants
  unfolding run_pubsub_listener
  is_closed-mute_targets report db [] coded = refl
  is_closed-mute_targets report db (p ∷ participants) coded =
      elim (Bool-cases (is_muted_by report db p)) [
        | inr free ↦ rw free (is_closed-mute_targets report db participants coded)
        | inl hit ↦ rw hit (
            is_closed-append ref
              (dispatch_one loads transport m (ws_room (code_of (room_by_id p.room_id db)))
                (dumps (kicked_envelope p.id)))
              _
            ∙ rw
                (
                  is_closed-dispatch_one (code_of (room_by_id p.room_id db)) p.id
                      (muted-ne report db p coded hit),
                  is_closed-mute_targets report db participants coded,
                )
                (or_if (is_socket_of m ref (code_of (room_by_id p.room_id db)) p.id)
                  (is_socket_of_muted report db participants)))
      ]

  -- A pending report that names a room or a user can be decided by muting. Where every room has a
  -- code, the messages that the decision publishes then close, on each replica that hears them,
  -- exactly the connections of the active participants that the report names, each in its room.
  pub decide-closes :
      (q : DecisionRequest) (report : ModerationReport) (db : Db)
      → find (is_report q.report_id) db.reports ≡ some report
      → is_pending report.status ≡ true
      → decision_of q.decision ≡ some mute
      → (is_some report.room_id || is_some report.target_user_id) ≡ true
      → All (λ (r : Room). r.code ≢ "") db.rooms
      → is_closed ref (
          run_pubsub_listener loads transport m (kick_publications dumps (kicked_in (decide q db))))
        ≡ is_socket_of_muted report db db.participants
  decide-closes q report db found pending chosen named coded =
      rw (decide-mutes q report db found pending chosen named).0
        (is_closed-mute_targets report db db.participants coded)
