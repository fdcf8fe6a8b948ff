-- ===== src/Quizzes/MoveSlots.antt =====
-- A move seen from outside: the question leaves its slot and takes another.
use mathlib.Core.Path.{subst}
use livequiz_platform.Prelude.{
  ℕ, suc, ◌-◌, ◌≡◌, refl, ap, sym, ◌∙◌, true, false, ◌&&◌, some, List, [], ◌∷◌, find, All, All-find,
  map, ltb, ◌==◌, ==_refl, if◌then◌else◌, arith, Bool-cases, inl, inr,
}
use livequiz_platform.Store.{Question}
use livequiz_platform.Quizzes.Unique.{Pairwise, All-map}
use livequiz_platform.Quizzes.Slots.{Slots, move_slot, slots_of, stands_at, id_of}
use livequiz_platform.Quizzes.Positions.{between, is_question}
use livequiz_platform.Quizzes.TwoPhase.{Apart, Apart-sym}
use livequiz_platform.Quizzes.Shift.{slots_of-map}
use livequiz_platform.Quizzes.Parked.{Kin, moved}

-- Where a search by id ends.
pub found_head :
    (id : ℕ) (x : Question) (rows : List Question) {q : Question}
    → is_question id x ≡ true
    → find (is_question id) (x ∷ rows) ≡ some q
    → x ≡ q
found_head id x rows e h =
    let taken = sym (ap (λ b. if b then some x else find (is_question id) rows) e) ∙ h in cc

pub found_tail :
    (id : ℕ) (x : Question) (rows : List Question) {q : Question}
    → is_question id x ≡ false
    → find (is_question id) (x ∷ rows) ≡ some q
    → find (is_question id) rows ≡ some q
found_tail id x rows e h = sym (ap (λ b. if b then some x else find (is_question id) rows) e) ∙ h

-- A row found by its id, and the others, which differ from it.
pub find-Kin :
    (id : ℕ) (rows : List Question) {q : Question}
    → Pairwise Apart rows
    → find (is_question id) rows ≡ some q
    → All (Kin q) rows
find-Kin id [] r h = tt
find-Kin id (x ∷ rows) {q} r h = elim (Bool-cases (is_question id x)) [
  | inl e ↦
      let here = found_head id x rows e h in
      (inl here, All-map rows (λ y k. inr (subst (λ z. Apart z y) here k)) r.0)
  | inr e ↦
      let there = found_tail id x rows e h in
      (
        inr (Apart-sym x q (All-find (Apart x) (is_question id) rows r.0 there)),
        find-Kin id rows r.1 there,
      )
]

module _ (question : Question) (new : ℕ) where
  -- The slot that the question at `k` after the move had before it.
  abbrev source_of : ℕ → ℕ
  source_of k =
      if ltb k new
      then (if ltb k question.position then k else suc k)
      else (if ltb (k - 1) question.position then k - 1 else suc (k - 1))

  pub moved-id : (x : Question) → (moved question new x).id ≡ x.id
  moved-id x = elim (Bool-cases (x.id == question.id)) [
    | inl e ↦ rw e refl
    | inr e ↦
        rw e
          (elim (Bool-cases
            (x.quiz_set_id == question.quiz_set_id && between question.position new x.position)) [
              | inl b ↦ rw b refl
              | inr b ↦ rw b refl
            ])
  ]

  sibling_stands :
      (k : ℕ) (x : Question)
      → (k == new) ≡ false
      → Apart question x
      → stands_at question.quiz_set_id k (moved question new x)
        ≡ stands_at question.quiz_set_id (source_of k) x
  sibling_stands k x ne (i, s) = ground arith

  own_stands :
      (k : ℕ)
      → (k == new) ≡ false
      → stands_at question.quiz_set_id k (moved question new question)
        ≡ stands_at question.quiz_set_id (source_of k) question
  own_stands k ne = ground arith

  target_stands :
      (x : Question)
      → Apart question x
      → stands_at question.quiz_set_id new (moved question new x) ≡ is_question question.id x
  target_stands x (i, s) = ground arith

  own_target :
      stands_at question.quiz_set_id new (moved question new question)
      ≡ is_question question.id question
  own_target = ground arith

  source_slots :
      (s : Slots) (k : ℕ)
      → (k == new) ≡ false
      → s (source_of k) ≡ move_slot question.position new question.id s k
  source_slots s k ne = elim (Bool-cases (ltb k new)) [
    | inl l ↦ elim (Bool-cases (ltb k question.position)) [
      | inl o ↦ rw (l, o) refl
      | inr o ↦ rw (l, o) refl
    ]
    | inr l ↦ elim (Bool-cases (ltb (k - 1) question.position)) [
      | inl o ↦ rw (l, ne, o) refl
      | inr o ↦ rw (l, ne, o) refl
    ]
  ]

  target_slot : (s : Slots) → move_slot question.position new question.id s new ≡ some question.id
  target_slot s = rw (ltb_self, ==_refl new) refl
    where
      ltb_self : ltb new new ≡ false
      ltb_self = ground arith

  -- After a move the slots of the quiz are those of the removal and the insertion.
  pub move-slots :
      (k : ℕ) (rows : List Question)
      → Pairwise Apart rows
      → find (is_question question.id) rows ≡ some question
      → slots_of question.quiz_set_id (map (moved question new) rows) k
        ≡ move_slot question.position new question.id (slots_of question.quiz_set_id rows) k
  move-slots k rows a f = elim (Bool-cases (k == new)) [
    | inr ne ↦
        slots_of-map question.quiz_set_id k (moved question new)
          (stands_at question.quiz_set_id (source_of k)) rows moved-id
          (All-map rows (stands k ne) (find-Kin question.id rows a f))
        ∙ source_slots (slots_of question.quiz_set_id rows) k ne
    | inl e ↦
        subst
          (λ j.
            slots_of question.quiz_set_id (map (moved question new) rows) j
            ≡ move_slot question.position new question.id (slots_of question.quiz_set_id rows) j)
          (sym (equal e))
          (slots_of-map question.quiz_set_id new (moved question new) (is_question question.id) rows
              moved-id (All-map rows target (find-Kin question.id rows a f))
            ∙ ap id_of f
            ∙ sym (target_slot (slots_of question.quiz_set_id rows)))
  ]
    where
      equal : (k == new) ≡ true → k ≡ new
      equal e = ground arith

      stands :
          (k : ℕ)
          → (k == new) ≡ false
          → (x : Question) → Kin question x
          → stands_at question.quiz_set_id k (moved question new x)
            ≡ stands_at question.quiz_set_id (source_of k) x
      stands k ne x (inl e) =
          subst
            (λ z.
              stands_at question.quiz_set_id k (moved question new z)
              ≡ stands_at question.quiz_set_id (source_of k) z)
            (sym e) (own_stands k ne)
      stands k ne x (inr d) = sibling_stands k x ne d

      target :
          (x : Question)
          → Kin question x
          → stands_at question.quiz_set_id new (moved question new x) ≡ is_question question.id x
      target x (inl e) =
          subst
            (λ z.
              stands_at question.quiz_set_id new (moved question new z) ≡ is_question question.id z)
            (sym e) own_target
      target x (inr d) = target_stands x d
