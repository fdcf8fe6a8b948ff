-- ===== src/Quizzes/Shift.antt =====
-- Opening and closing a gap: `shift_question_positions` and `renumber_after_delete`.
use livequiz_platform.Prelude.{
  ℕ, suc, ◌+◌, ◌-◌, ◌<◌, ◌≡◌, refl, ap, ◌∙◌, Bool, true, false, ◌&&◌, some, List, [], ◌∷◌, find,
  All, map, update_where, ltb, leb, ◌==◌, if◌then◌else◌, arith, Bool-cases, inl, inr,
}
use livequiz_platform.Store.{Question}
use livequiz_platform.Quizzes.Unique.{rewritten, Pairwise, Pairwise-map, All-map, All-zip}
use livequiz_platform.Quizzes.Slots.{insert_slot, remove_slot, slots_of, stands_at, id_of}
use livequiz_platform.Quizzes.Positions.{
  shift_sentinel, place, in_range, shift_question_positions, renumber_after_delete,
}
use livequiz_platform.Quizzes.TwoPhase.{Apart, Apart-sym, UpTo, Settled, two_phase}

-- The rows of the quiz at a position or after it.
abbrev pub from_on : ℕ → ℕ → Question → Bool
from_on quiz_set_id from q = q.quiz_set_id == quiz_set_id && leb from q.position

abbrev pub moved_rows : (Question → Question) → List Question → List Question
moved_rows r rows = map r rows

pub update_where-map :
    (p : Question → Bool) (f : Question → Question) (r : Question → Question) (rows : List Question)
    → All (λ x. rewritten p f x ≡ r x) rows
    → update_where p f rows ≡ map r rows
update_where-map p f r [] h = refl
update_where-map p f r (x ∷ rows) h = rw (h.0, update_where-map p f r rows h.1) refl

-- The slots after every row was replaced by one with its id.
pub slots_of-map :
    (quiz_set_id k : ℕ) (r : Question → Question) (t : Question → Bool) (rows : List Question)
    → ((x : Question) → (r x).id ≡ x.id)
    → All (λ x. stands_at quiz_set_id k (r x) ≡ t x) rows
    → slots_of quiz_set_id (map r rows) k ≡ id_of (find t rows)
slots_of-map q k r t [] same h = refl
slots_of-map q k r t (x ∷ rows) same h = rw (h.0) (elim (Bool-cases (t x)) [
  | inl e ↦ rw e (ap some (same x))
  | inr e ↦ rw e (slots_of-map q k r t rows same h.1)
])

abbrev pub opened : ℕ → ℕ → Question → Question
opened q from x = if from_on q from x then place (λ k. k + 1) x else x

-- When every position is low enough for the sentinel, `shift_question_positions` by 1 raises
-- nothing and adds 1 to the positions of the quiz from `from` on.
pub shift_question_positions-opened :
    (q from n : ℕ) (rows : List Question)
    → suc n < shift_sentinel
    → All (UpTo n) rows
    → Pairwise Apart rows
    → shift_question_positions q from 1 rows ≡ some (map (opened q from) rows)
unfolding shift_question_positions
shift_question_positions-opened q from n rows l h a =
    two_phase q (λ _. true) (λ _ _. refl) (leb from) (λ k. k + 1) n (omega arith)
      (λ k le _. omega arith) rows h a
      (Pairwise-map rows (λ x y hx hy r. (clear x y hx hy r, clear y x hy hx (Apart-sym x y r))) h
        a)
    ∙ ap some (
        update_where-map (in_range q (leb from)) (place (λ k. k + 1)) (opened q from) rows
          (All-map rows agree h))
  where
    clear :
        (x y : Question)
        → UpTo n x
        → UpTo n y
        → Apart x y
        → Settled (in_range q (leb from)) (λ k. k + 1) x y
    clear x y hx hy (i, s) e = ground arith

    same_rows : (x : Question) → UpTo n x → in_range q (leb from) x ≡ from_on q from x
    same_rows x hx = ground arith

    agree :
        (x : Question)
        → UpTo n x
        → rewritten (in_range q (leb from)) (place (λ k. k + 1)) x ≡ opened q from x
    agree x hx = rw (same_rows x hx) refl

-- The rows of the quiz after a position.
abbrev pub after : ℕ → ℕ → Question → Bool
after quiz_set_id d q = q.quiz_set_id == quiz_set_id && ltb d q.position

abbrev pub closed : ℕ → ℕ → Question → Question
closed q d x = if after q d x then place (λ k. k - 1) x else x

-- When every position is low enough for the sentinel and no row stands at the position of the
-- question deleted, `renumber_after_delete` raises nothing and takes 1 off the positions after it.
pub renumber_after_delete-closed :
    (q d n : ℕ) (rows : List Question)
    → n < shift_sentinel
    → All (UpTo n) rows
    → All (λ x. stands_at q d x ≡ false) rows
    → Pairwise Apart rows
    → renumber_after_delete q d rows ≡ some (map (closed q d) rows)
unfolding renumber_after_delete
renumber_after_delete-closed q d n rows l h free a =
    two_phase q (λ _. true) (λ _ _. refl) (ltb d) (λ k. k - 1) n l (λ k le _. omega arith) rows h a
      (Pairwise-map rows (λ x y hx hy r. (settled x y hx hy r, settled y x hy hx (Apart-sym x y r)))
        (All-zip rows (λ x u v. (u, v)) h free) a)
    ∙ ap some (
        update_where-map (in_range q (ltb d)) (place (λ k. k - 1)) (closed q d) rows
          (All-map rows agree h))
  where
    settled :
        (x y : Question)
        → UpTo n x × (stands_at q d x ≡ false)
        → UpTo n y × (stands_at q d y ≡ false)
        → Apart x y
        → Settled (in_range q (ltb d)) (λ k. k - 1) x y
    settled x y (hx, fx) (hy, fy) (i, s) e = ground arith

    same_rows : (x : Question) → UpTo n x → in_range q (ltb d) x ≡ after q d x
    same_rows x hx = ground arith

    agree :
        (x : Question)
        → UpTo n x
        → rewritten (in_range q (ltb d)) (place (λ k. k - 1)) x ≡ closed q d x
    agree x hx = rw (same_rows x hx) refl

opened-id : (q from : ℕ) (x : Question) → (opened q from x).id ≡ x.id
opened-id q from x = elim (Bool-cases (from_on q from x)) [ inl e ↦ rw e refl | inr e ↦ rw e refl ]

closed-id : (q d : ℕ) (x : Question) → (closed q d x).id ≡ x.id
closed-id q d x = elim (Bool-cases (after q d x)) [ inl e ↦ rw e refl | inr e ↦ rw e refl ]

pub everywhere :
    {P : Question → Type 0} (rows : List Question) → ((x : Question) → P x) → All P rows
everywhere [] f = tt
everywhere (x ∷ rows) f = (f x, everywhere rows f)

module _ (q from k : ℕ) (rows : List Question) where
  opened-below : ltb k from ≡ true → slots_of q (map (opened q from) rows) k ≡ slots_of q rows k
  opened-below l =
      slots_of-map q k (opened q from) (stands_at q k) rows (opened-id q from)
        (everywhere rows (λ x. row x))
    where
      row : (x : Question) → stands_at q k (opened q from x) ≡ stands_at q k x
      row x = ground arith

  opened-above :
      ltb from k ≡ true → slots_of q (map (opened q from) rows) k ≡ slots_of q rows (k - 1)
  opened-above l =
      slots_of-map q k (opened q from) (stands_at q (k - 1)) rows (opened-id q from)
        (everywhere rows (λ x. row x))
    where
      row : (x : Question) → stands_at q k (opened q from x) ≡ stands_at q (k - 1) x
      row x = ground arith

  closed-below : ltb k from ≡ true → slots_of q (map (closed q from) rows) k ≡ slots_of q rows k
  closed-below l =
      slots_of-map q k (closed q from) (stands_at q k) rows (closed-id q from)
        (everywhere rows (λ x. row x))
    where
      row : (x : Question) → stands_at q k (closed q from x) ≡ stands_at q k x
      row x = ground arith

  closed-above :
      ltb k from ≡ false
      → All (λ x. stands_at q from x ≡ false) rows
      → slots_of q (map (closed q from) rows) k ≡ slots_of q rows (suc k)
  closed-above l free =
      slots_of-map q k (closed q from) (stands_at q (suc k)) rows (closed-id q from)
        (All-map rows (λ x. row x) free)
    where
      row :
          (x : Question)
          → stands_at q from x ≡ false
          → stands_at q k (closed q from x) ≡ stands_at q (suc k) x
      row x f = ground arith

-- With a row at the gap, the slots are those of an insertion.
pub insert-slots :
    (q from k : ℕ) (new : Question) (rows : List Question)
    → new.quiz_set_id ≡ q
    → new.position ≡ from
    → slots_of q (new ∷ map (opened q from) rows) k ≡ insert_slot from new.id (slots_of q rows) k
insert-slots q from k new rows eq ep = elim (Bool-cases (ltb k from)) [
  | inl l ↦
      let off : stands_at q k new ≡ false = ground arith in
      rw (off, l) (opened-below q from k rows l)
  | inr l ↦ elim (Bool-cases (k == from)) [
    | inl e ↦ let on : stands_at q k new ≡ true = ground arith in rw (on, l, e) refl
    | inr e ↦
        let off : stands_at q k new ≡ false = ground arith in
        rw (off, l, e) (opened-above q from k rows (ground arith))
  ]
]

-- Without the row that stood there, the slots are those of a removal.
pub remove-slots :
    (q d k : ℕ) (rows : List Question)
    → All (λ x. stands_at q d x ≡ false) rows
    → slots_of q (map (closed q d) rows) k ≡ remove_slot d (slots_of q rows) k
remove-slots q d k rows free = elim (Bool-cases (ltb k d)) [
  | inl l ↦ rw l (closed-below q d k rows l)
  | inr l ↦ rw l (closed-above q d k rows l free)
]
