-- ===== src/Quizzes/Mapped.antt =====
-- Tables whose rows were replaced by rows with the same id.
use livequiz_platform.Prelude.{
  ℕ, ◌≡◌, refl, ap, ◌∙◌, true, false, some, List, [], ◌∷◌, find, map, ◌==◌, Bool-cases, inl, inr,
}
use livequiz_platform.Store.{Question}
use livequiz_platform.Quizzes.Slots.{slots_of, stands_at}
use livequiz_platform.Quizzes.Positions.{is_question}
use livequiz_platform.Quizzes.TwoPhase.{Apart}
use livequiz_platform.Quizzes.Shift.{slots_of-map, everywhere}
use livequiz_platform.Quizzes.MoveSlots.{found_head, found_tail}

-- A row replaced by one with its id, quiz and position.
abbrev pub SamePlace : (Question → Question) → Type 0
SamePlace r =
    (x : Question)
    → ((r x).id ≡ x.id) × ((r x).quiz_set_id ≡ x.quiz_set_id) × ((r x).position ≡ x.position)

-- The row of an id after every row was replaced by one with its id.
pub find-map :
    (id : ℕ) (r : Question → Question) (rows : List Question) {q : Question}
    → ((x : Question) → (r x).id ≡ x.id)
    → find (is_question id) rows ≡ some q
    → find (is_question id) (map r rows) ≡ some (r q)
find-map id r [] same h = cc
find-map id r (x ∷ rows) {q} same h = elim (Bool-cases (x.id == id)) [
  | inl e ↦
      let head : is_question id (r x) ≡ true = ap (λ i. i == id) (same x) ∙ e in
      rw head (ap (λ z. some (r z)) (found_head id x rows e h))
  | inr e ↦
      let head : is_question id (r x) ≡ false = ap (λ i. i == id) (same x) ∙ e in
      rw head (find-map id r rows same (found_tail id x rows e h))
]

pub same-slots :
    (q k : ℕ) (r : Question → Question) (rows : List Question)
    → SamePlace r
    → slots_of q (map r rows) k ≡ slots_of q rows k
same-slots q k r rows same =
    slots_of-map q k r (stands_at q k) rows (λ x. (same x).0)
      (everywhere rows (λ x. rw ((same x).1, (same x).2) refl))

pub same-Apart :
    (r : Question → Question) → SamePlace r → (x y : Question) → Apart x y → Apart (r x) (r y)
same-Apart r same x y h =
    rw ((same x).0, (same y).0, (same x).1, (same y).1, (same x).2, (same y).2) h

pub map_ext :
    (r t : Question → Question) (rows : List Question)
    → ((x : Question) → r x ≡ t x)
    → map r rows ≡ map t rows
map_ext r t [] h = refl
map_ext r t (x ∷ rows) h = rw (h x, map_ext r t rows h) refl

pub map_same :
    (r : Question → Question) (rows : List Question)
    → ((x : Question) → r x ≡ x)
    → map r rows ≡ rows
map_same r [] h = refl
map_same r (x ∷ rows) h = rw (h x, map_same r rows h) refl
