-- ===== src/Rooms/Codes.antt =====
-- Room codes are unique, and an attempt with a free code is enough.
use mathlib.Core.Path.{subst}
use livequiz_platform.Prelude.{
  ℕ, String, ◌≡◌, refl, true, false, some, List, [], ◌∷◌, any, not, find, take, arith, inl, inr,
  Bool-cases, ◌==◌,
}
use livequiz_platform.Prelude.Optional.{Yields}
use livequiz_platform.Errors.{
  ok, Leaves, Leaves-bind, require, or_raise, or_raise-some, validation_error, forbidden,
  quiz_not_published, internal_error,
}
use livequiz_platform.Store.{Room, QuizSet, Db}
use livequiz_platform.Live.{update_text}
use livequiz_platform.Rooms.{RoomWorld}
use livequiz_platform.Rooms.Capacity.{text_refl}
use livequiz_platform.Rooms.Create.{
  RoomCreate, new_room, room_collides, allocate, insert_room, create_tx, create_room, code_retries,
}

-- No two rooms share an id or a code.
abbrev pub DistinctRooms : List Room → Type 0
DistinctRooms [] = Unit
DistinctRooms (r ∷ rooms) = (any (room_collides r) rooms ≡ false) × DistinctRooms rooms

allocate-free :
    (q : RoomCreate) (cs : List (ℕ × String)) (rooms : List Room)
    → Yields (λ r. any (room_collides r) rooms ≡ false) (allocate q cs rooms)
unfolding allocate
allocate-free q [] rooms = tt
allocate-free q (c ∷ cs) rooms = elim (Bool-cases (any (room_collides (new_room q c)) rooms)) [
  | inl taken ↦ rw taken (allocate-free q cs rooms)
  | inr fresh ↦ rw fresh fresh
]

create_tx-DistinctRooms :
    (q : RoomCreate) (candidates : List (ℕ × String)) (db : Db)
    → DistinctRooms db.rooms
    → Leaves (λ _ db'. DistinctRooms db'.rooms) (create_tx q candidates db)
unfolding create_tx
create_tx-DistinctRooms q candidates db d =
    let P : Room → Db → Type 0 = λ _ db'. DistinctRooms db'.rooms in
    Leaves-bind P
      (or_raise (find (λ (s : QuizSet). s.id == q.quiz_set_id) db.quiz_sets) validation_error 404) _
      λ quiz _. Leaves-bind P (require (quiz.owner_id == q.host_id) forbidden 403) _ λ _ _.
        Leaves-bind P (require quiz.is_published quiz_not_published 409) _ λ _ _.
          Leaves-bind P
            (or_raise (allocate q (take code_retries candidates) db.rooms) internal_error 500) _
            λ room e. (
              subst (Yields (λ r. any (room_collides r) db.rooms ≡ false))
                  (or_raise-some (allocate q (take code_retries candidates) db.rooms) _ _ e)
                  (allocate-free q (take code_retries candidates) db.rooms),
              d,
            )

-- `create_room` keeps the ids and the codes of the rooms distinct.
pub create_room-DistinctRooms :
    (q : RoomCreate) (candidates : List (ℕ × String)) (w : RoomWorld)
    → DistinctRooms w.db.rooms
    → Leaves (λ _ w'. DistinctRooms w'.db.rooms) (create_room q candidates w)
unfolding create_room
create_room-DistinctRooms q candidates w d =
    Leaves-bind (λ _ w'. DistinctRooms w'.db.rooms) (create_tx q candidates w.db) _
      λ x e.
        subst (Leaves (λ _ db'. DistinctRooms db'.rooms)) e
          (create_tx-DistinctRooms q candidates w.db d)

-- Some of the first five candidates is free.
abbrev pub HasFree : RoomCreate → List (ℕ × String) → List Room → Type 0
HasFree q cs rooms = any (λ c. not (any (room_collides (new_room q c)) rooms)) cs ≡ true

allocate-total :
    (q : RoomCreate) (cs : List (ℕ × String)) (rooms : List Room)
    → HasFree q cs rooms
    → (r : Room) × (allocate q cs rooms ≡ some r)
unfolding allocate
allocate-total q [] rooms h = absurd (cc)
allocate-total q (c ∷ cs) rooms h = elim (Bool-cases (any (room_collides (new_room q c)) rooms)) [
  | inl taken ↦ rw taken (allocate-total q cs rooms (ground arith))
  | inr fresh ↦ rw fresh (new_room q c, refl)
]

-- For the owner of a published quiz, if one of the first five candidates is free, `create_room`
-- returns a room that it puts first in the table, with the counter of its code at 0.
pub create_room_total :
    (q : RoomCreate) (candidates : List (ℕ × String)) (w : RoomWorld) (quiz : QuizSet)
    → find (λ (s : QuizSet). s.id == q.quiz_set_id) w.db.quiz_sets ≡ some quiz
    → (quiz.owner_id == q.host_id) ≡ true
    → quiz.is_published ≡ true
    → HasFree q (take code_retries candidates) w.db.rooms
    → (room : Room) × (w' : RoomWorld) × (create_room q candidates w ≡ ok (room, w'))
      × (w'.db.rooms ≡ room ∷ w.db.rooms)
      × (w'.counter room.code ≡ some 0)
unfolding create_room create_tx
create_room_total q candidates w quiz e owner published free =
    let (room, found) = allocate-total q (take code_retries candidates) w.db.rooms free in
    (
      room,
      record { db = insert_room q room w.db; counter = update_text w.counter room.code (some 0) },
      rw (e, owner, published, found) refl,
      refl,
      rw (text_refl room.code) refl,
    )
