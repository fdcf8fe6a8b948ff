-- ===== src/Quizzes/Slots.antt =====
-- The order of the questions of a quiz as its clients mean it: at most one question at each
-- position. Inserting opens a gap, removing closes one, and a move is a removal and an insertion.
use livequiz_platform.Prelude.{
  ℕ, suc, ◌-◌, Bool, ◌&&◌, Option, none, some, List, find, ltb, ◌==◌, if◌then◌else◌,
}
use livequiz_platform.Store.{Question}

-- The id of the question at each position.
abbrev pub Slots : Type 0
Slots = ℕ → Option ℕ

abbrev pub insert_slot : ℕ → ℕ → Slots → Slots
insert_slot at id s k = if ltb k at then s k else if k == at then some id else s (k - 1)

abbrev pub remove_slot : ℕ → Slots → Slots
remove_slot at s k = if ltb k at then s k else s (suc k)

abbrev pub move_slot : ℕ → ℕ → ℕ → Slots → Slots
move_slot old new id s = insert_slot new id (remove_slot old s)

abbrev pub stands_at : ℕ → ℕ → Question → Bool
stands_at quiz_set_id k q = q.quiz_set_id == quiz_set_id && q.position == k

abbrev pub id_of : Option Question → Option ℕ
id_of none = none
id_of (some q) = some q.id

-- What the rows of a quiz say.
abbrev pub slots_of : ℕ → List Question → Slots
slots_of quiz_set_id rows k = id_of (find (stands_at quiz_set_id k) rows)
