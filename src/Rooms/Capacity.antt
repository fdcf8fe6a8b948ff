-- ===== src/Rooms/Capacity.antt =====
-- A room never has more participants than seats.
use livequiz_platform.Prelude.{
  ℕ, ◌+◌, ◌≤◌, ◌≡◌, refl, String, Bool, true, false, some, length, select, any, arith, leb, eq_iff,
  str_eq, ◌==◌, ==_refl, inl, inr, Bool-cases,
}
use livequiz_platform.Store.{Room, RoomParticipant, Db, is_lobby}
use livequiz_platform.Live.{update_text}
use livequiz_platform.Match.Queries.{room_by_code}
use livequiz_platform.Rooms.{
  RoomWorld, JoinRequest, JoinOutcome, joined, refused, count_or_zero, participants_count_admit,
  participants_count_release, is_taken, insert_participant, join_found, join_room,
}

abbrev pub seats_taken : ℕ → Db → ℕ
seats_taken room_id db =
    length (select (λ (p : RoomParticipant). p.room_id == room_id) db.participants)

-- The counter of a code is at least the number of participants of the room.
abbrev pub Counted : ℕ → String → RoomWorld → Type 0
Counted room_id code w = seats_taken room_id w.db ≤ count_or_zero (w.counter code)

-- By how a join ended, the seats taken and the counter before and after: a join takes one seat of
-- those that the room has and counts it; a refusal takes none, and gives back one that it counted.
abbrev pub Seats : Room → (ℕ × ℕ) → (ℕ × ℕ) → JoinOutcome → Type 0
Seats room (before, count) (after, count') (joined p) =
    (after ≡ before + 1) × (after ≤ room.max_players) × (count' ≡ count + 1)
Seats room (before, count) (after, count') (refused e) = (after ≡ before) × (count' ≡ count)

-- The seats taken and the counter.
abbrev pub seats_and_count : ℕ → String → RoomWorld → ℕ × ℕ
seats_and_count room_id code w = (seats_taken room_id w.db, count_or_zero (w.counter code))

abbrev Kept : Room → String → RoomWorld → JoinOutcome × RoomWorld → Type 0
Kept room code w (o, w') =
    Counted room.id code w'
    × Seats room (seats_and_count room.id code w) (seats_and_count room.id code w') o

pub text_refl : (s : String) → str_eq s s ≡ true
text_refl s = ground (arith, eq_iff s s)

below : (m c s : ℕ) → leb m c ≡ false → s ≤ c → s + 1 ≤ m
below m c s full h = ground arith

module _ (lower : String → String) (q : JoinRequest) (room : Room) (w : RoomWorld) where
  insert-Kept :
      Counted room.id q.code w
      → leb room.max_players (count_or_zero (w.counter q.code)) ≡ false
      → Kept room q.code w (
          insert_participant lower q room (record w {
            counter = update_text w.counter q.code (some (count_or_zero (w.counter q.code) + 1));
          }))
  unfolding participants_count_release
  insert-Kept h free = elim (Bool-cases (any (is_taken lower q room) w.db.participants)) [
    | inl taken ↦
        (let pos : leb (count_or_zero (w.counter q.code) + 1) 0 ≡ false = ground arith in
          rw (taken, text_refl q.code, pos, text_refl q.code)
            (omega (arith, h), (refl, omega arith)))
    | inr fresh ↦
        rw (fresh, text_refl q.code, ==_refl room.id)
          (
            omega (arith, h),
            (
              omega arith,
              omega (
                arith,
                below room.max_players (count_or_zero (w.counter q.code)) (seats_taken room.id w.db)
                    free h,
              ),
              refl,
            ),
          )
  ]

  found-Kept : Counted room.id q.code w → Kept room q.code w (join_found lower q (some room) w)
  unfolding participants_count_admit
  found-Kept h = elim (Bool-cases (is_lobby room.status)) [
    | inl lobby ↦
        rw lobby (elim (Bool-cases (leb room.max_players (count_or_zero (w.counter q.code)))) [
          | inl full ↦ rw full (h, (refl, refl))
          | inr free ↦ rw free (insert-Kept h free)
        ])
    | inr other ↦ rw other (h, (refl, refl))
  ]

  -- Whatever the rate limiter answers: a join takes exactly one seat, keeps the participants of the
  -- room within its maximum and adds one to the counter; a refusal takes no seat and leaves the
  -- counter at the number it had, also when the nickname was taken after the admission; and the
  -- counter of the room stays at least the number of its participants, if it was.
  pub join_room-Seats :
      (allowed : Bool)
      → room_by_code q.code w.db ≡ some room
      → Counted room.id q.code w
      → let r = join_room lower allowed q w in
        Counted room.id q.code r.1
        × Seats room (seats_and_count room.id q.code w) (seats_and_count room.id q.code r.1) r.0
  unfolding join_room
  join_room-Seats true e h = rw e (found-Kept h)
  join_room-Seats false e h = (h, (refl, refl))
