-- ===== src/Quizzes/Move.antt =====
-- Moving a question: `_move_question_to`.
use livequiz_platform.Prelude.{
  ℕ, suc, ◌+◌, ◌-◌, ◌≤◌, ◌<◌, ◌≡◌, refl, ap, ◌∙◌, false, not, ◌&&◌, Option, none, some, List, [],
  ◌∷◌, All, map, update_where, ◌==◌, arith,
}
use livequiz_platform.Prelude.Optional.{◌>>=◌}
use livequiz_platform.Store.{Question}
use livequiz_platform.Quizzes.Unique.{
  Pairwise, Pairwise-map, Pairwise-update, All-zip, All-update_where, BothClear, update_each-all,
}
use livequiz_platform.Quizzes.Positions.{
  shift_sentinel, park_position, same_position, place, set_positions, shifted_out, between, delta,
  is_question, move_question_to,
}
use livequiz_platform.Quizzes.TwoPhase.{Apart, Apart-sym, UpTo, BothSettled, two_phase}
use livequiz_platform.Quizzes.Parked.{
  Kin, is_sibling, moved, sibling_moved, park-Clear, parked-Apart, parked-UpTo, parked-Settled,
  target-Clear, moved_row,
}
use livequiz_platform.Quizzes.Shift.{everywhere}

bind_assoc :
    {A B C : Type 0} (o : Option A) (f : A → Option B) (g : B → Option C)
    → (o >>= λ a. f a >>= g) ≡ (o >>= f) >>= g
bind_assoc none f g = refl
bind_assoc (some a) f g = refl

module _ (question : Question) (new n : ℕ) (low : suc n < park_position) where
  placed :
      (rows : List Question)
      → All (UpTo n) rows
      → update_where (is_question question.id) (place (λ _. new)) (
          update_where
            (is_sibling question new)
            (place (delta question.position new))
            (update_where (is_question question.id) (place (λ _. park_position)) rows))
        ≡ map (moved question new) rows
  placed [] h = refl
  placed (x ∷ rows) h = rw (moved_row question new n low x h.0, placed rows h.1) refl

  module _ (rows : List Question) (le : question.position ≤ n)
      (ne : (new == question.position) ≡ false) (h : All (UpTo n) rows)
      (k : All (Kin question) rows) (a : Pairwise Apart rows) where
    both : All (λ x. UpTo n x × Kin question x) rows
    both = All-zip rows (λ x u v. (u, v)) h k

    abbrev parked_rows : List Question
    parked_rows = update_where (is_question question.id) (place (λ _. park_position)) rows

    parking : set_positions (is_question question.id) (λ _. park_position) rows ≡ some parked_rows
    parking =
        update_each-all same_position (is_question question.id) (place (λ _. park_position)) rows (
          Pairwise-map rows
            (λ x y hx hy r. (
              park-Clear question new n low x y hx hy r,
              park-Clear question new n low y x hy hx (Apart-sym x y r),
            ))
            h a)

    renumbering :
        (do
          rows ← set_positions (is_sibling question new) (λ k. k + shift_sentinel) parked_rows
          set_positions
              (λ x. not (is_question question.id x) && shifted_out question.quiz_set_id x)
              (λ k. delta question.position new (k - shift_sentinel))
              rows)
        ≡ some (
            update_where
              (is_sibling question new)
              (place (delta question.position new))
              parked_rows)
    renumbering =
        two_phase question.quiz_set_id (λ x. not (is_question question.id x)) (λ _ _. refl)
          (between question.position new) (delta question.position new) park_position (omega arith)
          (λ k u v. ground arith) parked_rows
          (All-update_where (UpTo park_position) (is_question question.id)
            (place (λ _. park_position)) rows (λ x u. parked-UpTo question new n low x u) h)
          (Pairwise-update Apart (is_question question.id) (place (λ _. park_position)) rows
            (λ x y hx hy r. parked-Apart question new n low x y hx hy r) h a)
          (Pairwise-update (BothSettled (is_sibling question new) (delta question.position new))
            (is_question question.id) (place (λ _. park_position)) rows
            (λ x y hx hy r. (
              parked-Settled question new n low x y hx hy r le,
              parked-Settled question new n low y x hy hx (Apart-sym x y r) le,
            ))
            both a)

    putting :
        set_positions
          (is_question question.id)
          (λ _. new)
          (update_where (is_sibling question new) (place (delta question.position new)) parked_rows)
        ≡ some (
            update_where (is_question question.id) (place (λ _. new)) (
              update_where
                (is_sibling question new)
                (place (delta question.position new))
                parked_rows))
    putting =
        update_each-all same_position (is_question question.id) (place (λ _. new))
          (update_where (is_sibling question new) (place (delta question.position new)) parked_rows)
          (Pairwise-update (BothClear same_position (is_question question.id) (place (λ _. new)))
            (is_sibling question new) (place (delta question.position new)) parked_rows
            (λ x y hx hy r. r) (everywhere {P = λ _. Unit} parked_rows (λ x. tt))
            (Pairwise-update
              (λ x y.
                BothClear same_position (is_question question.id) (place (λ _. new))
                  (sibling_moved question new x) (sibling_moved question new y))
              (is_question question.id) (place (λ _. park_position)) rows
              (λ x y hx hy r. (
                target-Clear question new n low x y hy.0 hx.1 r ne,
                target-Clear question new n low y x hx.0 hy.1 (Apart-sym x y r) ne,
              ))
              both a))

    -- In a table whose rows are apart and whose positions are low enough for the sentinel, moving
    -- one of the questions to another position raises nothing, in whatever order the statements
    -- reach the rows. It gives the question that position and moves the siblings between by 1.
    pub move_question_to-moved :
        move_question_to question new rows ≡ some (map (moved question new) rows)
    unfolding move_question_to
    move_question_to-moved =
        rw (ne, parking)
          (bind_assoc
              (set_positions (is_sibling question new) (λ k. k + shift_sentinel) parked_rows)
              (set_positions
                (λ x. not (is_question question.id x) && shifted_out question.quiz_set_id x)
                (λ k. delta question.position new (k - shift_sentinel)))
              (set_positions (is_question question.id) (λ _. new))
            ∙ ap (λ o. o >>= set_positions (is_question question.id) (λ _. new)) renumbering
            ∙ putting
            ∙ ap some (placed rows h))
