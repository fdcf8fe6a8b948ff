-- ===== src/Quizzes/Removing.antt =====
-- What `delete_question` does to the order of a quiz.
use mathlib.Core.Path.{subst, fun_ext}
use livequiz_platform.Prelude.{
  ℕ, suc, ◌<◌, ◌≡◌, refl, ap, sym, ◌∙◌, Bool, true, false, not, some, List, [], ◌∷◌, any, find,
  find_sound, select, All, map, ltb, ◌==◌, ==_refl, arith, Bool-cases, inl, inr,
}
use livequiz_platform.Errors.{ok}
use livequiz_platform.Store.{Question, Db}
use livequiz_platform.Quizzes.Unique.{Pairwise, Pairwise-mapped, Pairwise-map, All-map}
use livequiz_platform.Quizzes.Slots.{remove_slot, slots_of, stands_at}
use livequiz_platform.Quizzes.Positions.{shift_sentinel, is_question, renumber_after_delete}
use livequiz_platform.Quizzes.TwoPhase.{Apart, UpTo}
use livequiz_platform.Quizzes.Shift.{renumber_after_delete-closed, closed, after, remove-slots}
use livequiz_platform.Quizzes.Parked.{Kin}
use livequiz_platform.Quizzes.MoveSlots.{find-Kin}
use livequiz_platform.Quizzes.Edit.{quiz_set_by_id, owns, asks, delete_question}

module _ (P : Question → Type 0) (t : Question → Bool) where
  All-select : (rows : List Question) → All P rows → All P (select t rows)
  All-select [] h = tt
  All-select (x ∷ rows) h = elim (Bool-cases (t x)) [
    | inl e ↦ rw e (h.0, All-select rows h.1)
    | inr e ↦ rw e (All-select rows h.1)
  ]

  -- What the rows that pass the test have, when every row that passes it has it.
  All-selected : (rows : List Question) → All (λ x. t x ≡ true → P x) rows → All P (select t rows)
  All-selected [] h = tt
  All-selected (x ∷ rows) h = elim (Bool-cases (t x)) [
    | inl e ↦ rw e (h.0 e, All-selected rows h.1)
    | inr e ↦ rw e (All-selected rows h.1)
  ]

Apart-select :
    (t : Question → Bool) (rows : List Question)
    → Pairwise Apart rows
    → Pairwise Apart (select t rows)
Apart-select t [] a = tt
Apart-select t (x ∷ rows) a = elim (Bool-cases (t x)) [
  | inl e ↦ rw e (All-select (Apart x) t rows a.0, Apart-select t rows a.1)
  | inr e ↦ rw e (Apart-select t rows a.1)
]

abbrev others : Question → Question → Bool
others question x = not (is_question question.id x)

gone :
    (question x : Question)
    → Kin question x
    → others question x ≡ true
    → stands_at question.quiz_set_id question.position x ≡ false
gone question x (inl e) h =
    let own = subst (λ z. others question z ≡ true) e h in
    let none_left = ap not (==_refl question.id) in cc
gone question x (inr (i, s)) h = ground arith

elsewhere :
    (question x : Question) (k : ℕ)
    → Kin question x
    → others question x ≡ false
    → (question.position == k) ≡ false
    → stands_at question.quiz_set_id k x ≡ false
elsewhere question x k (inl e) h ne =
    let here : stands_at question.quiz_set_id k question ≡ false = ground arith in
    subst (λ z. stands_at question.quiz_set_id k z ≡ false) (sym e) here
elsewhere question x k (inr (i, s)) h ne = ground arith

-- The slots other than its own are those of the table without the question.
others-slots :
    (question : Question) (k : ℕ) (rows : List Question)
    → (question.position == k) ≡ false
    → All (Kin question) rows
    → slots_of question.quiz_set_id (select (others question) rows) k
      ≡ slots_of question.quiz_set_id rows k
others-slots question k [] ne h = refl
others-slots question k (x ∷ rows) ne h = elim (Bool-cases (others question x)) [
  | inl e ↦ elim (Bool-cases (stands_at question.quiz_set_id k x)) [
    | inl f ↦ rw (e, f) refl
    | inr f ↦ rw (e, f) (others-slots question k rows ne h.1)
  ]
  | inr e ↦
      let off : stands_at question.quiz_set_id k x ≡ false = elsewhere question x k h.0 e ne in
      rw (e, off) (others-slots question k rows ne h.1)
]

abbrev FreeApart : ℕ → ℕ → Question → Question → Type 0
FreeApart q d x y = (stands_at q d x ≡ false) × (stands_at q d y ≡ false) × Apart x y

closed-Apart : (q d : ℕ) (x y : Question) → FreeApart q d x y → Apart (closed q d x) (closed q d y)
closed-Apart q d x y (fx, fy, (i, s)) = (ground arith, ground arith)

-- What a deletion must be: the questions after the deleted one close its gap, and the rest of the
-- tables stays.
abbrev pub Removed : Question → Db → Db → Type 0
Removed question db after =
    (slots_of question.quiz_set_id after.questions
      ≡ remove_slot question.position (slots_of question.quiz_set_id db.questions))
    × Pairwise Apart after.questions
    × (after ≡ record db { questions = after.questions })

removed-slots :
    (question : Question) (k : ℕ) (rows : List Question)
    → All (Kin question) rows
    → remove_slot question.position
        (slots_of question.quiz_set_id (select (others question) rows))
        k
      ≡ remove_slot question.position (slots_of question.quiz_set_id rows) k
removed-slots question k rows h = elim (Bool-cases (ltb k question.position)) [
  | inl l ↦ rw l (others-slots question k rows (ground arith) h)
  | inr l ↦ rw l (others-slots question (suc k) rows (ground arith) h)
]

-- For the owner of a question that no match has asked, in a table whose rows are apart and whose
-- positions are low enough for the sentinel, `delete_question` raises nothing, and the order of the
-- quiz after it is the one before it with that question removed; positions stay distinct.
pub delete_question-removes :
    (owner id n : ℕ) (question : Question) (db : Db)
    → find (is_question id) db.questions ≡ some question
    → owns owner (quiz_set_by_id question.quiz_set_id db) ≡ true
    → any (asks id) db.match_questions ≡ false
    → n < shift_sentinel
    → All (UpTo n) db.questions
    → Pairwise Apart db.questions
    → (after : Db) × (delete_question owner id db ≡ ok (tt, after)) × Removed question db after
unfolding delete_question
delete_question-removes owner id n question db found own idle low h a = (
  record db { questions = map (closed quiz position) left },
  rw
      (
        found,
        own,
        idle,
        subst (λ l. renumber_after_delete quiz position l ≡ some (map (closed quiz position) left))
            (sym same) renumbered,
      )
      refl,
  (
    fun_ext
        (λ k. remove-slots quiz position k left free ∙ removed-slots question k db.questions kin),
    apart,
    refl,
  ),
)
  where
    quiz : ℕ
    quiz = question.quiz_set_id

    position : ℕ
    position = question.position

    left : List Question
    left = select (others question) db.questions

    kin : All (Kin question) db.questions
    kin = find-Kin id db.questions a found

    its_id : id ≡ question.id
    its_id = let sound = find_sound (is_question id) db.questions found in ground arith

    free : All (λ x. stands_at quiz position x ≡ false) left
    free =
        All-selected (λ x. stands_at quiz position x ≡ false) (others question) db.questions
          (All-map db.questions (λ x k e. gone question x k e) kin)

    same : select (λ x. not (is_question id x)) db.questions ≡ left
    same = ap (λ i. select (λ (x : Question). not (is_question i x)) db.questions) its_id

    renumbered : renumber_after_delete quiz position left ≡ some (map (closed quiz position) left)
    renumbered =
        renumber_after_delete-closed quiz position n left low
          (All-select (UpTo n) (others question) db.questions h) free
          (Apart-select (others question) db.questions a)

    apart : Pairwise Apart (map (closed quiz position) left)
    apart = Pairwise-mapped Apart (closed quiz position) left (closed-Apart quiz position) (
        Pairwise-map left (λ x y fx fy r. (fx, fy, r)) free
          (Apart-select (others question) db.questions a))
