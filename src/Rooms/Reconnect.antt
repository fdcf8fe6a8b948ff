-- ===== src/Rooms/Reconnect.antt =====
-- What a client that connects sees of the room.
use mathlib.Core.Path.{subst}
use livequiz_platform.Prelude.{
  ◌+◌, ◌≡◌, refl, sym, ap, ◌∙◌, String, Bool, true, false, some, [], ◌∷◌, ◌++◌, any, length,
  length-append, leb, ==_refl, arith, Bool-cases, inl, inr,
}
use livequiz_platform.Errors.{ok}
use livequiz_platform.Store.{Room, RoomParticipant, Db, is_lobby}
use livequiz_platform.Live.{update_text}
use livequiz_platform.Match.Queries.{room_by_code}
use livequiz_platform.Rooms.{
  RoomWorld, JoinRequest, JoinOutcome, joined, refused, count_or_zero, new_participant,
  participants_count_admit, is_taken, insert_participant, join_room,
}
use livequiz_platform.Rooms.Capacity.{text_refl}
use livequiz_platform.Rooms.Snapshot.{
  RoomSnapshot, SnapshotWorld, participant_payload, is_present, present_payloads, built_snapshot,
  build_snapshot, refresh_joined, join_room_snapshot,
}

-- What a join leaves of the participants, if it went through.
abbrev Joins : JoinRequest → Room → RoomWorld → JoinOutcome × RoomWorld → Type 0
Joins q room w (refused e, after) = Unit
Joins q room w (joined p, after) =
    (p ≡ new_participant q room) × (after.db.participants ≡ p ∷ w.db.participants)

module _ (lower : String → String) (q : JoinRequest) (room : Room) where
  insert-Joins :
      (w w' : RoomWorld) → w'.db ≡ w.db → Joins q room w (insert_participant lower q room w')
  insert-Joins w w' same = elim (Bool-cases (any (is_taken lower q room) w'.db.participants)) [
    | inl taken ↦ rw taken tt
    | inr free ↦ rw free (refl, ap (λ (d : Db). new_participant q room ∷ d.participants) same)
  ]

  join_room-Joins :
      (allowed : Bool) (w : RoomWorld)
      → room_by_code q.code w.db ≡ some room
      → Joins q room w (join_room lower allowed q w)
  unfolding join_room participants_count_admit
  join_room-Joins false w e = tt
  join_room-Joins true w e = rw e (elim (Bool-cases (is_lobby room.status)) [
    | inr other ↦ rw other tt
    | inl lobby ↦
        rw lobby (elim (Bool-cases (leb room.max_players (count_or_zero (w.counter q.code)))) [
          | inl full ↦ rw full tt
          | inr free ↦ rw free (
              insert-Joins w
                (record w {
                  counter =
                      update_text w.counter q.code (some (count_or_zero (w.counter q.code) + 1));
                })
                refl)
        ])
  ])

-- A client that connects now gets a snapshot which lists a participant last, after those of before.
abbrev pub ListsLast : String → Room → Db → RoomParticipant → SnapshotWorld → Type 0
ListsLast code room before p after =
    (s : RoomSnapshot) × (build_snapshot code after ≡ ok (s, after))
    × (s.participants ≡ present_payloads room before.participants ++ participant_payload p ∷ [])
    × (s.player_count ≡ length (present_payloads room before.participants) + 1)

module _ (q : JoinRequest) (room : Room) (w : SnapshotWorld) where
  present-new : (p : RoomParticipant) → p ≡ new_participant q room → is_present room p ≡ true
  present-new p e =
      subst (λ (x : RoomParticipant). is_present room x ≡ true) (sym e)
        (ground (arith, ==_refl room.id))

  one_more :
      (p : RoomParticipant)
      → is_present room p ≡ true
      → present_payloads room (p ∷ w.rooms.db.participants)
        ≡ present_payloads room w.rooms.db.participants ++ participant_payload p ∷ []
  one_more p here = rw here refl

  lists_written :
      (p : RoomParticipant) (rooms : RoomWorld)
      → Joins q room w.rooms (joined p, rooms)
      → ListsLast q.code room w.rooms.db p (refresh_joined q.code (some room) (joined p, rooms) w).1
  unfolding build_snapshot built_snapshot
  lists_written p rooms (new, rows) =
      let here : is_present room p ≡ true = present-new p new in
      let all : present_payloads room rooms.db.participants
          ≡ present_payloads room w.rooms.db.participants ++ participant_payload p ∷ [] =
        ap (present_payloads room) rows ∙ one_more p here in
      (
        built_snapshot room rooms.db,
        rw (text_refl q.code) refl,
        all,
        ap length all
            ∙ length-append (present_payloads room w.rooms.db.participants)
                (participant_payload p ∷ [])
            ∙ omega arith,
      )

  joined_of : JoinOutcome → RoomParticipant → RoomParticipant
  joined_of (joined p) d = p
  joined_of (refused e) d = d

  lists_joined :
      (r : JoinOutcome × RoomWorld) (p : RoomParticipant) (after : SnapshotWorld)
      → Joins q room w.rooms r
      → refresh_joined q.code (some room) r w ≡ (joined p, after)
      → ListsLast q.code room w.rooms.db p after
  unfolding joined_of
  lists_joined (refused e, rooms) p after j h = cc (ap (λ (r : JoinOutcome × SnapshotWorld). r.0) h)
  lists_joined (joined p', rooms) p after j h =
      subst
        (λ (r : JoinOutcome × SnapshotWorld).
          ListsLast q.code room w.rooms.db (joined_of r.0 p) r.1)
        h (lists_written p' rooms j)

-- After a join that went through, a client that connects gets a snapshot which lists the participants
-- that were there, in order, then the one that joined, with their number.
pub join_room_snapshot-ListsLast :
    (lower : String → String) (allowed : Bool) (q : JoinRequest) (room : Room)
    (w after : SnapshotWorld) (p : RoomParticipant)
    → room_by_code q.code w.rooms.db ≡ some room
    → join_room_snapshot lower allowed q w ≡ (joined p, after)
    → ListsLast q.code room w.rooms.db p after
unfolding join_room_snapshot
join_room_snapshot-ListsLast lower allowed q room w after p e h =
    lists_joined q room w (join_room lower allowed q w.rooms) p after
      (join_room-Joins lower q room allowed w.rooms e) (rw e at h)
