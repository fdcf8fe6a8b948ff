-- ===== src/Quizzes/Updating.antt =====
-- What `update_question` does to the order of a quiz.
use mathlib.Core.Path.{subst, fun_ext}
use livequiz_platform.Prelude.{
  ℕ, suc, ◌≤◌, ◌<◌, ◌≡◌, refl, ap, sym, ◌∙◌, true, false, Option, none, some, List, find,
  find_sound, update_where, All, map, ◌==◌, if◌then◌else◌, arith, Bool-cases, inl, inr,
}
use livequiz_platform.Errors.{ok}
use livequiz_platform.Store.{Question, AnswerOption, Db}
use livequiz_platform.Quizzes.Unique.{
  rewritten, rewritten_on, Pairwise, Pairwise-mapped, All-mapped,
}
use livequiz_platform.Quizzes.Slots.{Slots, move_slot, slots_of}
use livequiz_platform.Quizzes.Positions.{park_position, is_question, move_question_to}
use livequiz_platform.Quizzes.TwoPhase.{Apart, UpTo}
use livequiz_platform.Quizzes.Mapped.{
  SamePlace, find-map, same-slots, same-Apart, map_ext, map_same,
}
use livequiz_platform.Quizzes.Shift.{update_where-map, everywhere}
use livequiz_platform.Quizzes.Parked.{moved}
use livequiz_platform.Quizzes.Move.{move_question_to-moved}
use livequiz_platform.Quizzes.MoveSlots.{find-Kin, moved-id, move-slots}
use livequiz_platform.Quizzes.Edit.{
  QuestionUpdate, quiz_set_by_id, owns, with_options, edited, reposition, replace_options,
  update_question,
}
use livequiz_platform.Quizzes.Adding.{DistinctOptions, distinct-add_options}

-- The slots that the payload asks for.
abbrev pub repositioned : Option ℕ → Question → Slots → Slots
repositioned none question s = s
repositioned (some p) question s =
    if p == question.position then s else move_slot question.position p question.id s

abbrev mover : Option ℕ → Question → Question → Question
mover none question x = x
mover (some p) question x = if p == question.position then x else moved question p x

abbrev optioned : Option (List AnswerOption) → ℕ → Question → Question
optioned none id x = x
optioned (some options) id x = rewritten (is_question id) (λ q. record q { options = options }) x

mover-stays :
    (p : ℕ) (question : Question) (rows : List Question)
    → (p == question.position) ≡ true
    → map (mover (some p) question) rows ≡ rows
mover-stays p question rows e =
    map_same (mover (some p) question) rows (λ x. ap (λ b. if b then x else moved question p x) e)

mover-moves :
    (p : ℕ) (question : Question) (rows : List Question)
    → (p == question.position) ≡ false
    → map (mover (some p) question) rows ≡ map (moved question p) rows
mover-moves p question rows e =
    map_ext (mover (some p) question) (moved question p) rows
      (λ x. ap (λ b. if b then x else moved question p x) e)

reposition-mover :
    (position : Option ℕ) (question : Question) (n : ℕ) (rows : List Question)
    → suc n < park_position
    → question.position ≤ n
    → All (UpTo n) rows
    → Pairwise Apart rows
    → find (is_question question.id) rows ≡ some question
    → reposition position question rows ≡ some (map (mover position question) rows)
reposition-mover none question n rows low le h a f =
    ap some (sym (map_same (mover none question) rows (λ x. refl)))
reposition-mover (some p) question n rows low le h a f =
    elim (Bool-cases (p == question.position)) [
      | inl e ↦
          ap (λ b. if b then some rows else move_question_to question p rows) e
          ∙ ap some (sym (mover-stays p question rows e))
      | inr e ↦
          ap (λ b. if b then some rows else move_question_to question p rows) e
          ∙ move_question_to-moved question p n low rows le e h (find-Kin question.id rows a f) a
          ∙ ap some (sym (mover-moves p question rows e))
    ]

mover-slots :
    (position : Option ℕ) (question : Question) (k : ℕ) (rows : List Question)
    → Pairwise Apart rows
    → find (is_question question.id) rows ≡ some question
    → slots_of question.quiz_set_id (map (mover position question) rows) k
      ≡ repositioned position question (slots_of question.quiz_set_id rows) k
mover-slots none question k rows a f =
    ap (λ l. slots_of question.quiz_set_id l k) (map_same (mover none question) rows (λ x. refl))
mover-slots (some p) question k rows a f = elim (Bool-cases (p == question.position)) [
  | inl e ↦
      ap (λ l. slots_of question.quiz_set_id l k) (mover-stays p question rows e)
      ∙ ap
          (λ b.
            (if b
                then slots_of question.quiz_set_id rows
                else move_slot question.position p question.id (slots_of question.quiz_set_id rows))
              k)
          (sym e)
  | inr e ↦
      ap (λ l. slots_of question.quiz_set_id l k) (mover-moves p question rows e)
      ∙ move-slots question p k rows a f
      ∙ ap
          (λ b.
            (if b
                then slots_of question.quiz_set_id rows
                else move_slot question.position p question.id (slots_of question.quiz_set_id rows))
              k)
          (sym e)
]

-- The options that a payload gives, if it gives any, are distinct.
abbrev pub DistinctIfGiven : Option (List AnswerOption) → Type 0
DistinctIfGiven none = Unit
DistinctIfGiven (some options) = DistinctOptions options

replace_options-optioned :
    (options : Option (List AnswerOption)) (id : ℕ) (rows : List Question)
    → DistinctIfGiven options
    → replace_options options id rows ≡ some (map (optioned options id) rows)
unfolding replace_options
replace_options-optioned none id rows d =
    ap some (sym (map_same (optioned none id) rows (λ x. refl)))
replace_options-optioned (some options) id rows d =
    rw (replace_options, distinct-add_options options d)
      (ap some (
        update_where-map (is_question id) (λ q. record q { options = options })
          (optioned (some options) id) rows (everywhere rows (λ x. refl))))

edited-SamePlace : (p : QuestionUpdate) (id : ℕ) → SamePlace (rewritten (is_question id) (edited p))
edited-SamePlace p id x = elim (Bool-cases (is_question id x)) [
  | inl e ↦ rw e (refl, refl, refl)
  | inr e ↦ rw e (refl, refl, refl)
]

optioned-SamePlace :
    (options : Option (List AnswerOption)) (id : ℕ) → SamePlace (optioned options id)
optioned-SamePlace none id x = (refl, refl, refl)
optioned-SamePlace (some options) id x = elim (Bool-cases (is_question id x)) [
  | inl e ↦ rw e (refl, refl, refl)
  | inr e ↦ rw e (refl, refl, refl)
]

mover-id : (position : Option ℕ) (question x : Question) → (mover position question x).id ≡ x.id
mover-id none question x = refl
mover-id (some p) question x = elim (Bool-cases (p == question.position)) [
  | inl e ↦ rw e refl
  | inr e ↦ rw e (moved-id question p x)
]

repositioned-edited :
    (position : Option ℕ) (p : QuestionUpdate) (question : Question) (s : Slots)
    → repositioned position (edited p question) s ≡ repositioned position question s
repositioned-edited none p question s = refl
repositioned-edited (some at) p question s = refl

-- What an update must be: the question takes the slot that the payload names, if it names one, and
-- its siblings move by one between the two; the rest of the tables stays.
abbrev pub Updated : QuestionUpdate → Question → Db → Db → Type 0
Updated p question db after =
    (slots_of question.quiz_set_id after.questions
      ≡ repositioned p.position question (slots_of question.quiz_set_id db.questions))
    × (after ≡ record db { questions = after.questions })

-- For the owner of a question, in a table whose rows are apart and whose positions are low enough
-- for the sentinel, with distinct options if there are any, `update_question` returns a question, and the order of the
-- quiz after it is the one before it with that question moved to the position of the payload.
pub update_question-moves :
    (owner id n : ℕ) (p : QuestionUpdate) (question : Question) (db : Db)
    → find (is_question id) db.questions ≡ some question
    → owns owner (quiz_set_by_id question.quiz_set_id db) ≡ true
    → DistinctIfGiven p.options
    → suc n < park_position
    → question.position ≤ n
    → All (UpTo n) db.questions
    → Pairwise Apart db.questions
    → (hydrated : Question) × (after : Db) × (update_question owner id p db ≡ ok (hydrated, after))
      × Updated p question db after
unfolding update_question
update_question-moves owner id n p question db found own d low le h a = (
  with_options (o (m (e question))),
  record db { questions = map o (map m (map e db.questions)) },
  rw
      (
        found,
        own,
        fields,
        reposition-mover p.position now n (map e db.questions) low le above apart there,
        replace_options-optioned p.options id (map m (map e db.questions)) d,
        last,
      )
      refl,
  (
    fun_ext (λ k.
        same-slots question.quiz_set_id k o (map m (map e db.questions))
          (optioned-SamePlace p.options id)
        ∙ mover-slots p.position now k (map e db.questions) apart there
        ∙ ap (λ s. repositioned p.position now s k)
            (fun_ext
              (λ j. same-slots question.quiz_set_id j e db.questions (edited-SamePlace p id)))
        ∙ ap (λ s. s k)
            (repositioned-edited p.position p question
              (slots_of question.quiz_set_id db.questions))),
    refl,
  ),
)
  where
    now : Question
    now = edited p question

    e : Question → Question
    e = rewritten (is_question id) (edited p)

    m : Question → Question
    m = mover p.position now

    o : Question → Question
    o = optioned p.options id

    fields : update_where (is_question id) (edited p) db.questions ≡ map e db.questions
    fields =
        update_where-map (is_question id) (edited p) e db.questions
          (everywhere db.questions (λ x. refl))

    sound : is_question id question ≡ true
    sound = find_sound (is_question id) db.questions found

    edit : e question ≡ now
    edit = rewritten_on (is_question id) (edited p) question sound

    here : find (is_question id) (map e db.questions) ≡ some (e question)
    here = find-map id e db.questions (λ x. (edited-SamePlace p id x).0) found

    its_id : id ≡ question.id
    its_id = ground (arith, sound)

    there : find (is_question now.id) (map e db.questions) ≡ some now
    there =
        subst (λ i. find (is_question i) (map e db.questions) ≡ some now) its_id
          (here ∙ ap some edit)

    above : All (UpTo n) (map e db.questions)
    above =
        All-mapped (UpTo n) e db.questions
          (λ x u. subst (λ k. k ≤ n) (sym (edited-SamePlace p id x).2) u) h

    apart : Pairwise Apart (map e db.questions)
    apart = Pairwise-mapped Apart e db.questions (same-Apart e (edited-SamePlace p id)) a

    last : find (is_question id) (map o (map m (map e db.questions))) ≡ some (o (m (e question)))
    last =
        find-map id o (map m (map e db.questions)) (λ x. (optioned-SamePlace p.options id x).0)
          (find-map id m (map e db.questions) (mover-id p.position now) here)
