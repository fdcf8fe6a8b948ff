-- ===== src/Sockets/PubSub.antt =====
-- The fan-out across replicas: `broadcast_all` of backend/app/ws/connection_manager.py, the listener
-- of ws/redis_pubsub.py, `ws_room` of cache/keys.py, and the `participant.kicked` messages of
-- services/moderation_service.py. The JSON library is the parameter `dumps` and `loads`: `loads`
-- answers none to a text that is malformed or is no dictionary.
use Prim.Native.Char.{code}
use livequiz_platform.Prelude.{
  ℕ, String, Bool, false, ◌&&◌, Option, none, some, List, [], ◌∷◌, ◌++◌, str_eq, ◌==◌,
  if◌then◌else◌,
}
use livequiz_platform.Sockets.{ConnectionManager, Envelope, Outgoing, kicked_type, broadcast_local}

abbrev pub channel_prefix : String
channel_prefix = "ws:room:"

abbrev pub followed_by : String → String → String
followed_by String.[] t = t
followed_by (String.◌∷◌ c s) t = String.◌∷◌ c (followed_by s t)

abbrev pub ws_room : String → String
ws_room room_code = followed_by channel_prefix room_code

-- What stands before and after the first colon.
abbrev pub split_colon : String → Option (String × String)
split_colon String.[] = none
split_colon (String.◌∷◌ c s) =
    let rest = split_colon s in
    if code c == b':'
    then some ("", s)
    else elim rest [ none ↦ none | some (before, after) ↦ some (String.◌∷◌ c before, after) ]

abbrev pub non_empty : String → Option String
non_empty String.[] = none
non_empty (String.◌∷◌ c s) = some (String.◌∷◌ c s)

-- The parts of `channel.split(":", 2)`, if there are three.
abbrev pub three_parts : String → Option (String × String × String)
three_parts channel = elim (split_colon channel) [
  | none ↦ none
  | some (first, rest) ↦ elim (split_colon rest) [
    | none ↦ none
    | some (second, third) ↦ some (first, second, third)
  ]
]

unfoldable pub room_code_from_channel : String → Option String
room_code_from_channel channel = elim (three_parts channel) [
  | none ↦ none
  | some (first, second, third) ↦
      if str_eq first "ws" && str_eq second "room" then non_empty third else none
]

abbrev pub is_from : String → Option String → Bool
is_from replica_id none = false
is_from replica_id (some origin) = str_eq origin replica_id

module _ (transport : ℕ → Bool) where
  -- The listener drops what its own replica published.
  abbrev pub deliver : Option String → Option Envelope → ConnectionManager → List Outgoing
  deliver none payload m = []
  deliver (some room_code) none m = []
  deliver (some room_code) (some payload) m =
      if is_from m.replica_id payload.origin_replica_id
      then []
      else (broadcast_local transport room_code payload m).1

module _ {Text : Type 0} (loads : Text → Option Envelope) (transport : ℕ → Bool) where
  -- `_dispatch_one`
  unfoldable pub dispatch_one : ConnectionManager → (channel : String) → Text → List Outgoing
  unfolding room_code_from_channel
  dispatch_one m channel raw = deliver transport (room_code_from_channel channel) (loads raw) m

  -- The messages of the subscription that one replica reads, in order.
  unfoldable pub run_pubsub_listener : ConnectionManager → List (String × Text) → List Outgoing
  run_pubsub_listener m [] = []
  run_pubsub_listener m ((channel, raw) ∷ messages) =
      dispatch_one m channel raw ++ run_pubsub_listener m messages

-- The copy that is published names the replica.
abbrev pub wire : {Text : Type 0} → (Envelope → Text) → ConnectionManager → Envelope → Text
wire dumps m message = dumps (record message { origin_replica_id = some m.replica_id })

module _ {Text : Type 0} (dumps : Envelope → Text) (transport : ℕ → Bool) where
  -- `broadcast_all`: what is published, unless Redis fails, and what the replica sends itself.
  unfoldable pub broadcast_all :
      (redis_up : Bool)
      → String
      → Envelope
      → ConnectionManager
      → List (String × Text) × List Outgoing
  broadcast_all redis_up room_code message m = (
    if redis_up then (ws_room room_code, wire dumps m message) ∷ [] else [],
    (broadcast_local transport room_code message m).1,
  )

module _ {Text : Type 0} (dumps : Envelope → Text) (loads : Text → Option Envelope)
    (transport : ℕ → Bool) where
  -- What replica `r` sends when `sender` broadcasts: the fan-out of its own, if it is the sender, and
  -- what its listener makes of the published copy. A replica is known by its id, a fresh uuid4.
  unfoldable pub fan_out :
      (redis_up : Bool) → String → Envelope → (sender r : ConnectionManager) → List Outgoing
  unfolding run_pubsub_listener broadcast_all
  fan_out redis_up room_code message sender r =
      let (published, own) = broadcast_all dumps transport redis_up room_code message sender in
      (if str_eq r.replica_id sender.replica_id then own else [])
      ++ run_pubsub_listener loads transport r published

-- The message that `decide` of the moderation service publishes for a participant that it muted.
abbrev pub kicked_envelope : ℕ → Envelope
kicked_envelope participant_id = record {
  kind = kicked_type;
  origin_replica_id = none;
  participant_id = some participant_id;
  rest = "muted";
}

-- The publications of `decide` after its commit.
abbrev pub kick_publications :
    {Text : Type 0} → (Envelope → Text) → List (String × ℕ) → List (String × Text)
kick_publications dumps [] = []
kick_publications dumps ((room_code, participant_id) ∷ targets) =
    (ws_room room_code, dumps (kicked_envelope participant_id)) ∷ kick_publications dumps targets
