-- ===== src/Tests/Connecting.antt =====
-- The theorems on sockets and on the token bucket at concrete inputs.
use livequiz_platform.Prelude.{
  ℕ, String, Bool, true, false, Option, none, some, List, [], ◌∷◌, map, ◌≡◌, ◌≢◌, refl, str_eq,
  eq_iff, if◌then◌else◌, arith,
}
use livequiz_platform.Floats.Fixed.{fixed}
use livequiz_platform.Errors.{ok}
use livequiz_platform.Moderation.Decide.{decision_of, decide}
use livequiz_platform.Auth.{Decoded, decoded}
use livequiz_platform.RateLimit.Bounds.{admitted, Between, ms_of, admitted-Between}
use livequiz_platform.Sockets.{WebSocketConnection, ConnectionManager, Envelope, new_manager}
use livequiz_platform.Sockets.Registry.{
  Call, connected, disconnected, run, replay, nobody, AreRooms, holds, run-new_manager_refines,
}
use livequiz_platform.Sockets.PubSub.{fan_out, run_pubsub_listener, kick_publications}
use livequiz_platform.Sockets.Fanout.{inbox, inbox-fan_out}
use livequiz_platform.Sockets.Kicked.{is_closed, kicked_in, decide-closes}
use livequiz_platform.Sockets.Messages.{Validated, valid, answer_submit, AnswerSubmitPayload}
use livequiz_platform.Sockets.Handshake.{authenticate}
use livequiz_platform.Sockets.Dispatch.{SocketWorld, Arrival, dispatch}
use livequiz_platform.Sockets.Attempts.{Sent, run_dispatch, handled_below, dispatch-answers_for}
use livequiz_platform.Sockets.Endpoint.{OnlyOwn, submissions_after, ws_room_endpoint-OnlyOwn}
use livequiz_platform.Tests.Data.{live_world, no_entries}
use livequiz_platform.Tests.Moderating.{report_on, reported, to}
use livequiz_platform.Tests.Numbers.{Rational, rationals}

-- Thirty a second: five calls within two seconds.
admitted-Between_example :
    Between 30 30 2 5
      (admitted rationals 30 (rationals.of_int 30) (map ms_of (0 ∷ 0 ∷ 1 ∷ 2 ∷ 2 ∷ [])) none)
admitted-Between_example =
    admitted-Between rationals 30 30 10 (omega arith) (omega arith) 0 2 (0 ∷ 1 ∷ 2 ∷ 2 ∷ [])
      (omega arith) (omega arith)

abbrev socket : ℕ → ℕ → WebSocketConnection
socket ref participant_id = record {
  ref = ref;
  conn_id = "c";
  participant_id = participant_id;
  nickname = "ann";
  is_host = false;
  last_seen = 0;
}

-- Two sockets of ann and one of bob; ann closes one.
abbrev calls : List Call
calls =
    connected "ROOM" (socket 1 40)
    ∷ connected "ROOM" (socket 2 41)
    ∷ connected "ROOM" (socket 3 40)
    ∷ disconnected "ROOM" (socket 1 40)
    ∷ []

run-new_manager_refines_example :
    AreRooms (run calls (new_manager "r1")).rooms
    × (holds (run calls (new_manager "r1")) ≡ replay calls nobody)
run-new_manager_refines_example = run-new_manager_refines calls "r1"

-- The replica after these calls, and another one.
abbrev replica : String → ConnectionManager
replica id = record { replica_id = id; rooms = ("ROOM", socket 3 40 ∷ socket 2 41 ∷ []) ∷ [] }

abbrev notice : Envelope
notice = record {
  kind = "leaderboard.updated";
  origin_replica_id = none;
  participant_id = none;
  rest = "top";
}

in_room : AreRooms (replica "r1").rooms
in_room = (refl, tt, (refl, (refl, tt)), tt)

abbrev room_code : String
room_code = "ROOM"

named : room_code ≢ ""
named = ground (arith, eq_iff "ROOM" "")

abbrev as_is : Envelope → Option Envelope
as_is e = some e

abbrev all_up : ℕ → Bool
all_up ref = true

inbox-fan_out_example :
    inbox 2 (fan_out (λ e. e) as_is all_up true "ROOM" notice (replica "r1") (replica "r2"))
    ≡ notice ∷ []
inbox-fan_out_example =
    inbox-fan_out (λ e. e) as_is (λ e. refl) all_up 2 true "ROOM" notice (replica "r1")
      (replica "r2") in_room in_room named (λ e. cc)

decide-closes_example :
    is_closed 2 (
      run_pubsub_listener as_is all_up
        (replica "r1")
        (kick_publications (λ e. e) (kicked_in (decide (to "mute") (reported (some 1) none)))))
    ≡ true
unfolding decision_of
decide-closes_example =
    decide-closes (λ e. e) as_is (λ e. refl) all_up (replica "r1") 2 (to "mute")
      (report_on (some 1) none) (reported (some 1) none) refl refl refl refl (named, tt)

abbrev sockets_world : SocketWorld Rational
sockets_world = record {
  world = live_world;
  match_runtime = true;
  attempts = λ _ _. none;
  host_buckets = λ _. none;
  conn_buckets = λ _. none;
}

-- `int` of the texts of the example.
abbrev int_of : String → Option ℕ
int_of text =
    if str_eq text "10"
    then some 10
    else (if str_eq text "21" then some 21 else (if str_eq text "60" then some 60 else none))

abbrev payload : AnswerSubmitPayload
payload = record {
  match_id = "10";
  match_question_id = "21";
  selected_option_ids = "60" ∷ [];
  client_sent_at = none;
}

abbrev arrival : Arrival
arrival = record { now = 19000000; submission_id = 51; event_id = 70 }

abbrev sent : Sent
sent = record { at = arrival; conn = socket 3 40; message = answer_submit "m1" payload }

dispatch-answers_for_example :
    dispatch rationals fixed no_entries int_of arrival
      (socket 3 40)
      (answer_submit "m2" payload)
      (run_dispatch rationals fixed no_entries int_of (sent ∷ []) sockets_world)
    ≡ handled_below rationals fixed no_entries int_of 5 1 arrival
        (socket 3 40)
        "m2"
        payload
        (run_dispatch rationals fixed no_entries int_of (sent ∷ []) sockets_world)
dispatch-answers_for_example =
    dispatch-answers_for rationals fixed no_entries int_of 18000000 (sent ∷ []) arrival
      (socket 3 40) "m2" payload sockets_world refl (omega arith) (omega arith)

-- A library that reads every token as ann's for the room.
abbrev ann_token : String → ℕ → Decoded
ann_token token now = decoded (record {
  token_type = "participant";
  sub = some 40;
  jti = "";
  exp = 100;
  role = none;
  room_code = some "ROOM";
  participant_id = some 40;
  nickname = some "ann";
})

abbrev always_answers : String → Validated
always_answers raw = valid (answer_submit raw payload)

ws_room_endpoint-OnlyOwn_example : OnlyOwn ann_token "token" 19 "ROOM" live_world.db.submissions (
    submissions_after rationals fixed no_entries int_of always_answers "ROOM" 4 "c4" 18000000
      (ok 2)
      ((arrival, "m1") ∷ [])
      (replica "r1")
      sockets_world
      (authenticate ann_token "token" 19 "ROOM" live_world.db))
ws_room_endpoint-OnlyOwn_example =
    ws_room_endpoint-OnlyOwn rationals fixed no_entries int_of always_answers "ROOM" 4 "c4" 18000000
      (ok 2) ((arrival, "m1") ∷ []) (replica "r1") sockets_world ann_token "token" 19
