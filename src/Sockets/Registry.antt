-- ===== src/Sockets/Registry.antt =====
-- What the registry of connections promises: who is in which room, after any calls.
use mathlib.Core.Path.{fun_ext}
use livequiz_platform.Prelude.{
  ℕ, String, Bool, true, false, ◌&&◌, Option, none, some, List, [], ◌∷◌, ◌≡◌, refl, any, str_eq,
  eq_iff, ◌==◌, if◌then◌else◌, arith,
}
use livequiz_platform.Sockets.{
  WebSocketConnection, Rooms, ConnectionManager, is_conn, get_room, set_room, pop_room, add_member,
  discard_member, or_empty, new_manager, connect, disconnect, disconnect_from, keep_or_prune,
  members,
}

abbrev NotEmpty : List WebSocketConnection → Type 0
NotEmpty [] = ⊥
NotEmpty (conn ∷ conns) = Unit

-- Each connection once.
abbrev pub IsSetOf : List WebSocketConnection → Type 0
IsSetOf [] = Unit
IsSetOf (conn ∷ conns) = (any (is_conn conn.ref) conns ≡ false) × IsSetOf conns

-- Each room under one key, with at least one connection, each of them once.
abbrev pub AreRooms : Rooms → Type 0
AreRooms [] = Unit
AreRooms ((key, conns) ∷ rooms) =
    (get_room key rooms ≡ none) × NotEmpty conns × IsSetOf conns × AreRooms rooms

-- Whether a connection is in a room.
abbrev pub holds : ConnectionManager → String → ℕ → Bool
holds m code ref = any (is_conn ref) (members code m)

get_room-set_room :
    (code k : String) (conns : List WebSocketConnection) (rooms : Rooms)
    → get_room k (set_room code conns rooms)
      ≡ (if str_eq code k then some conns else get_room k rooms)
get_room-set_room code k conns [] = refl
get_room-set_room code k conns ((key, old) ∷ rooms) =
    ground
      (arith, eq_iff code k, eq_iff key code, eq_iff key k, get_room-set_room code k conns rooms)

get_room-pop_room :
    (code k : String) (rooms : Rooms)
    → AreRooms rooms
    → get_room k (pop_room code rooms) ≡ (if str_eq code k then none else get_room k rooms)
get_room-pop_room code k [] w = ground arith
get_room-pop_room code k ((key, old) ∷ rooms) w =
    ground (arith, eq_iff code k, eq_iff key code, eq_iff key k, get_room-pop_room code k rooms w.3)

any-add_member :
    (ref : ℕ) (conn : WebSocketConnection) (conns : List WebSocketConnection)
    → any (is_conn ref) (add_member conn conns)
      ≡ (if conn.ref == ref then true else any (is_conn ref) conns)
any-add_member ref conn conns = ground arith

any-discard_member :
    (ref gone : ℕ) (conns : List WebSocketConnection)
    → IsSetOf conns
    → any (is_conn ref) (discard_member gone conns)
      ≡ (if gone == ref then false else any (is_conn ref) conns)
any-discard_member ref gone [] w = ground arith
any-discard_member ref gone (conn ∷ conns) w = ground (arith, any-discard_member ref gone conns w.1)

add_member-IsSetOf :
    (conn : WebSocketConnection) (conns : List WebSocketConnection)
    → IsSetOf conns
    → IsSetOf (add_member conn conns) × NotEmpty (add_member conn conns)
add_member-IsSetOf conn [] w = ((refl, tt), tt)
add_member-IsSetOf conn (c ∷ conns) w = ground arith

discard_member-IsSetOf :
    (gone : ℕ) (conns : List WebSocketConnection)
    → IsSetOf conns
    → IsSetOf (discard_member gone conns)
discard_member-IsSetOf gone [] w = tt
discard_member-IsSetOf gone (conn ∷ conns) w =
    ground
      (arith, discard_member-IsSetOf gone conns w.1, any-discard_member conn.ref gone conns w.1)

set_room-AreRooms :
    (code : String) (conns : List WebSocketConnection) (rooms : Rooms)
    → IsSetOf conns
    → NotEmpty conns
    → AreRooms rooms
    → AreRooms (set_room code conns rooms)
set_room-AreRooms code conns [] s n w = (refl, n, s, tt)
set_room-AreRooms code conns ((key, old) ∷ rooms) s n w = ground (
  arith,
  eq_iff key code,
  eq_iff code key,
  get_room-set_room code key conns rooms,
  set_room-AreRooms code conns rooms s n w.3,
)

pop_room-AreRooms :
    (code : String) (rooms : Rooms) → AreRooms rooms → AreRooms (pop_room code rooms)
pop_room-AreRooms code [] w = tt
pop_room-AreRooms code ((key, old) ∷ rooms) w =
    ground (arith, get_room-pop_room code key rooms w.3, pop_room-AreRooms code rooms w.3)

pub members-IsSetOf :
    (code : String) (rooms : Rooms) → AreRooms rooms → IsSetOf (or_empty (get_room code rooms))
members-IsSetOf code [] w = tt
members-IsSetOf code ((key, conns) ∷ rooms) w = ground (arith, members-IsSetOf code rooms w.3)

-- The abstract view: a set of pairs of a room and a connection.
abbrev pub Attendance : Type 0
Attendance = String → ℕ → Bool

abbrev pub nobody : Attendance
nobody code ref = false

abbrev pub put : String → ℕ → Bool → Attendance → Attendance
put code ref here f c r = if str_eq code c && ref == r then here else f c r

pub connect-AreRooms :
    (code : String) (conn : WebSocketConnection) (m : ConnectionManager)
    → AreRooms m.rooms
    → AreRooms (connect code conn m).rooms
unfolding connect
connect-AreRooms code conn m w =
    let (s, n) =
      add_member-IsSetOf conn (or_empty (get_room code m.rooms)) (members-IsSetOf code m.rooms w) in
    set_room-AreRooms code _ m.rooms s n w

keep_or_prune-AreRooms :
    (code : String) (conns : List WebSocketConnection) (m : ConnectionManager)
    → IsSetOf conns
    → AreRooms m.rooms
    → AreRooms (keep_or_prune code conns m).1.rooms
keep_or_prune-AreRooms code [] m s w = pop_room-AreRooms code m.rooms w
keep_or_prune-AreRooms code (conn ∷ conns) m s w =
    set_room-AreRooms code (conn ∷ conns) m.rooms s tt w

members-keep_or_prune :
    (code k : String) (conns : List WebSocketConnection) (m : ConnectionManager)
    → AreRooms m.rooms
    → members k (keep_or_prune code conns m).1 ≡ (if str_eq code k then conns else members k m)
members-keep_or_prune code k [] m w = ground (arith, get_room-pop_room code k m.rooms w)
members-keep_or_prune code k (conn ∷ conns) m w =
    ground (arith, get_room-set_room code k (conn ∷ conns) m.rooms)

disconnect_from-AreRooms :
    (o : Option (List WebSocketConnection)) (code : String) (conn : WebSocketConnection)
    (m : ConnectionManager)
    → IsSetOf (or_empty o)
    → AreRooms m.rooms
    → AreRooms (disconnect_from o code conn m).1.rooms
disconnect_from-AreRooms none code conn m s w = w
disconnect_from-AreRooms (some conns) code conn m s w =
    keep_or_prune-AreRooms code (discard_member conn.ref conns) m
      (discard_member-IsSetOf conn.ref conns s) w

holds-disconnect_from :
    (o : Option (List WebSocketConnection)) (code k : String) (ref : ℕ) (conn : WebSocketConnection)
    (m : ConnectionManager)
    → get_room code m.rooms ≡ o
    → IsSetOf (or_empty o)
    → AreRooms m.rooms
    → holds (disconnect_from o code conn m).1 k ref ≡ put code conn.ref false (holds m) k ref
holds-disconnect_from none code k ref conn m e s w = ground (arith, eq_iff code k)
holds-disconnect_from (some conns) code k ref conn m e s w = ground (
  arith,
  eq_iff code k,
  members-keep_or_prune code k (discard_member conn.ref conns) m w,
  any-discard_member ref conn.ref conns s,
)

pub disconnect-AreRooms :
    (code : String) (conn : WebSocketConnection) (m : ConnectionManager)
    → AreRooms m.rooms
    → AreRooms (disconnect code conn m).1.rooms
unfolding disconnect
disconnect-AreRooms code conn m w =
    disconnect_from-AreRooms (get_room code m.rooms) code conn m (members-IsSetOf code m.rooms w) w

pub holds-connect :
    (code : String) (conn : WebSocketConnection) (m : ConnectionManager)
    → holds (connect code conn m) ≡ put code conn.ref true (holds m)
unfolding connect
holds-connect code conn m = fun_ext λ c. fun_ext λ r. ground (
  arith,
  eq_iff code c,
  get_room-set_room code c (add_member conn (or_empty (get_room code m.rooms))) m.rooms,
  any-add_member r conn (or_empty (get_room code m.rooms)),
)

pub holds-disconnect :
    (code : String) (conn : WebSocketConnection) (m : ConnectionManager)
    → AreRooms m.rooms
    → holds (disconnect code conn m).1 ≡ put code conn.ref false (holds m)
unfolding disconnect
holds-disconnect code conn m w = fun_ext λ k. fun_ext λ ref.
    holds-disconnect_from (get_room code m.rooms) code k ref conn m refl
      (members-IsSetOf code m.rooms w) w

-- The calls that a replica makes, as its connections come and go.
pub data Call : Type 0 where
  connected disconnected : (code : String) → WebSocketConnection → Call

unfoldable pub run : List Call → ConnectionManager → ConnectionManager
run [] m = m
run (connected code conn ∷ calls) m = run calls (connect code conn m)
run (disconnected code conn ∷ calls) m = run calls (disconnect code conn m).1

-- The same calls, on a set of pairs.
unfoldable pub replay : List Call → Attendance → Attendance
replay [] f = f
replay (connected code conn ∷ calls) f = replay calls (put code conn.ref true f)
replay (disconnected code conn ∷ calls) f = replay calls (put code conn.ref false f)

run_refines :
    (calls : List Call) (m : ConnectionManager)
    → AreRooms m.rooms
    → AreRooms (run calls m).rooms × (holds (run calls m) ≡ replay calls (holds m))
unfolding run replay
run_refines [] m w = (w, refl)
run_refines (connected code conn ∷ calls) m w =
    rw (holds-connect code conn m) at
      (run_refines calls (connect code conn m) (connect-AreRooms code conn m w))
run_refines (disconnected code conn ∷ calls) m w =
    rw (holds-disconnect code conn m w) at
      (run_refines calls (disconnect code conn m).1 (disconnect-AreRooms code conn m w))

-- After any connects and disconnects, the registry of a new replica reads as the set of pairs of a
-- room and a connection that the same calls make, and holds each room that has a connection under
-- one key, with each of its connections once, and no other room.
pub run-new_manager_refines :
    (calls : List Call) (replica_id : String)
    → AreRooms (run calls (new_manager replica_id)).rooms
      × (holds (run calls (new_manager replica_id)) ≡ replay calls nobody)
run-new_manager_refines calls replica_id = run_refines calls (new_manager replica_id) tt
