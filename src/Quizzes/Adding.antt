-- ===== src/Quizzes/Adding.antt =====
-- What `add_question` does to the order of a quiz.
use mathlib.Core.Path.{fun_ext}
use mathlib.Core.List.{append-nil}
use livequiz_platform.Prelude.{
  ℕ, suc, ◌+◌, ◌<◌, ◌≡◌, refl, ap, sym, ◌∙◌, true, false, Option, none, some, List, [], ◌∷◌, ◌++◌,
  any, All, map, ltb, leb, ◌==◌, arith, Bool-cases, inl, inr,
}
use livequiz_platform.Errors.{ok}
use livequiz_platform.Store.{Question, AnswerOption, QuizSet, Db}
use livequiz_platform.Quizzes.Unique.{
  Pairwise, Pairwise-mapped, All-map, All-zip, All-mapped, any-append, any_none, append_one,
}
use livequiz_platform.Quizzes.Slots.{insert_slot, slots_of}
use livequiz_platform.Quizzes.Positions.{shift_sentinel, max_question_position}
use livequiz_platform.Quizzes.TwoPhase.{Apart, UpTo}
use livequiz_platform.Quizzes.Shift.{shift_question_positions-opened, opened, from_on, insert-slots}
use livequiz_platform.Quizzes.Edit.{
  QuestionCreate, quiz_set_by_id, open_slot, question_collides, option_collides, add_options,
  new_question, with_options, or_keep, add_question,
}

-- No two options of a payload have an id or a position in common.
abbrev pub DistinctOptions : List AnswerOption → Type 0
DistinctOptions options = Pairwise (λ a b. option_collides b a ≡ false) options

-- The position that the payload asks for, or the one after the last.
abbrev pub target_position : ℕ → Option ℕ → List Question → ℕ
target_position q position rows = or_keep position (max_question_position q rows + 1)

-- Opening a slot beyond the greatest position moves nothing.
opened-beyond :
    (q p : ℕ) (rows : List Question)
    → ltb (max_question_position q rows) p ≡ true
    → map (opened q p) rows ≡ rows
opened-beyond q p [] l = refl
opened-beyond q p (x ∷ rows) l =
    let off : from_on q p x ≡ false = ground arith in
    rw (off, opened-beyond q p rows (ground arith)) refl

open_slot-opened :
    (q n : ℕ) (position : Option ℕ) (rows : List Question)
    → suc n < shift_sentinel
    → All (UpTo n) rows
    → Pairwise Apart rows
    → open_slot q position rows
      ≡ some
          (target_position q position rows, map (opened q (target_position q position rows)) rows)
unfolding open_slot
open_slot-opened q n none rows l h a =
    ap (λ r. some (max_question_position q rows + 1, r))
      (sym (opened-beyond q (max_question_position q rows + 1) rows (ground arith)))
open_slot-opened q n (some p) rows l h a =
    elim (Bool-cases (leb p (max_question_position q rows))) [
      | inl e ↦ rw (e, shift_question_positions-opened q p n rows l h a) refl
      | inr e ↦ rw e (ap (λ r. some (p, r)) (sym (opened-beyond q p rows (ground arith))))
    ]

opened-Apart : (q p : ℕ) (x y : Question) → Apart x y → Apart (opened q p x) (opened q p y)
opened-Apart q p x y (i, s) = (ground arith, ground arith)

opened-collides :
    (q p : ℕ) (new x : Question)
    → new.quiz_set_id ≡ q
    → new.position ≡ p
    → (new.id == x.id) ≡ false
    → Apart new (opened q p x)
opened-collides q p new x eq ep f = (ground arith, ground arith)

add_options-done :
    (options done : List AnswerOption)
    → All (λ o. any (option_collides o) done ≡ false) options
    → DistinctOptions options
    → add_options options done ≡ some (done ++ options)
unfolding add_options
add_options-done [] done h d = ap some (sym (append-nil done))
add_options-done (o ∷ options) done h d = rw h.0 (
    add_options-done options (done ++ (o ∷ []))
      (All-zip options
        (λ b u v.
          any-append (option_collides b) done (o ∷ []) u
            (any_none (option_collides b) (o ∷ []) (v, tt)))
        h.1 d.0)
      d.1
    ∙ ap some (append_one done o options))

nothing_before :
    (options : List AnswerOption) → All (λ o. any (option_collides o) [] ≡ false) options
nothing_before [] = tt
nothing_before (o ∷ options) = (refl, nothing_before options)

-- Distinct options are all added.
pub distinct-add_options :
    (options : List AnswerOption) → DistinctOptions options → add_options options [] ≡ some options
distinct-add_options options d = add_options-done options [] (nothing_before options) d

Apart-collides : (a b : Question) → Apart a b → question_collides a b ≡ false
Apart-collides a b h = ground arith

-- The new question is apart from every row of the table that the slot was opened in.
opened-new :
    (q p : ℕ) (new : Question) (rows : List Question)
    → new.quiz_set_id ≡ q
    → new.position ≡ p
    → All (λ x. (new.id == x.id) ≡ false) rows
    → All (Apart new) (map (opened q p) rows)
opened-new q p new rows eq ep fresh =
    All-mapped (Apart new) (opened q p) rows (λ x f. opened-collides q p new x eq ep f) fresh

-- What an added question must be: the question that is returned stands where it was asked to, or
-- after the last one; the questions from there on make room for it; the rest of the tables stays.
abbrev pub Added : ℕ → QuestionCreate → Db → Question → Db → Type 0
Added quiz_set_id p db question after =
    (question.id ≡ p.id)
    × (question.position ≡ target_position quiz_set_id p.position db.questions)
    × (slots_of quiz_set_id after.questions
        ≡ insert_slot question.position question.id (slots_of quiz_set_id db.questions))
    × Pairwise Apart after.questions
    × (after ≡ record db { questions = after.questions })

-- For the owner of a quiz, in a table whose rows are apart and whose positions are low enough for
-- the sentinel, with a fresh id and distinct options, `add_question` returns a question, and the order of the quiz after it is the
-- one before it with that question inserted; positions stay distinct.
pub add_question-inserts :
    (owner quiz_set_id n : ℕ) (p : QuestionCreate) (qs : QuizSet) (db : Db)
    → quiz_set_by_id quiz_set_id db ≡ some qs
    → (qs.owner_id == owner) ≡ true
    → suc n < shift_sentinel
    → All (UpTo n) db.questions
    → Pairwise Apart db.questions
    → All (λ x. (p.id == x.id) ≡ false) db.questions
    → DistinctOptions p.options
    → (question : Question) × (after : Db) × (add_question owner quiz_set_id p db
        ≡ ok (question, after))
      × Added quiz_set_id p db question after
unfolding add_question
add_question-inserts owner quiz_set_id n p qs db found own low h a fresh d = (
  with_options new,
  record db { questions = new ∷ map (opened quiz_set_id at) db.questions },
  rw
      (
        found,
        own,
        open_slot-opened quiz_set_id n p.position db.questions low h a,
        any_none (question_collides (new_question p quiz_set_id at []))
            (map (opened quiz_set_id at) db.questions)
            (All-map (map (opened quiz_set_id at) db.questions)
              (λ x u. Apart-collides (new_question p quiz_set_id at []) x u) clear),
        distinct-add_options p.options d,
      )
      refl,
  (
    refl,
    refl,
    fun_ext (λ k. insert-slots quiz_set_id at k new db.questions refl refl),
    (
      opened-new quiz_set_id at new db.questions refl refl fresh,
      Pairwise-mapped Apart (opened quiz_set_id at) db.questions (opened-Apart quiz_set_id at) a,
    ),
    refl,
  ),
)
  where
    at : ℕ
    at = target_position quiz_set_id p.position db.questions

    new : Question
    new = new_question p quiz_set_id at p.options

    clear :
        All (Apart (new_question p quiz_set_id at [])) (map (opened quiz_set_id at) db.questions)
    clear =
        opened-new quiz_set_id at (new_question p quiz_set_id at []) db.questions refl refl fresh
