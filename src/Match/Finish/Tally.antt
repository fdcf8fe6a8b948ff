-- ===== src/Match/Finish/Tally.antt =====
-- The dictionary of `_aggregate_submissions`, against sums over the submissions of one participant.
use mathlib.Core.Path.{subst}
use livequiz_platform.Prelude.{
  ℕ, ◌+◌, ◌≡◌, refl, ◌∙◌, ap, Bool, true, false, ◌||◌, ◌&&◌, List, [], ◌∷◌, select, any, All,
  length, arith, ◌==◌, ==_refl, if◌then◌else◌, inl, inr, Bool-cases,
}
use livequiz_platform.Store.{AnswerSubmission, RoomParticipant}
use livequiz_platform.Match.Finish.{
  Aggregate, no_answers, add_answer, upsert, aggregate_submissions, include_participants,
}

abbrev pub own : ℕ → AnswerSubmission → Bool
own pid s = s.participant_id == pid

abbrev pub score_sum : ℕ → List AnswerSubmission → ℕ
score_sum pid [] = 0
score_sum pid (s ∷ subs) = (if own pid s then s.score_awarded else 0) + score_sum pid subs

abbrev pub time_sum : ℕ → List AnswerSubmission → ℕ
time_sum pid [] = 0
time_sum pid (s ∷ subs) = (if own pid s then s.response_time_ms else 0) + time_sum pid subs

abbrev pub right : ℕ → AnswerSubmission → Bool
right pid s = own pid s && s.is_correct

abbrev pub correct_sum : ℕ → List AnswerSubmission → ℕ
correct_sum pid subs = length (select (right pid) subs)

abbrev pub answer_count : ℕ → List AnswerSubmission → ℕ
answer_count pid subs = length (select (own pid) subs)

abbrev pub aggregate_at : ℕ → List (ℕ × Aggregate) → Aggregate
aggregate_at pid [] = no_answers
aggregate_at pid ((k, a) ∷ d) = if k == pid then a else aggregate_at pid d

abbrev pub has : ℕ → List (ℕ × Aggregate) → Bool
has pid [] = false
has pid ((k, a) ∷ d) = if k == pid then true else has pid d

abbrev pub IsDict : List (ℕ × Aggregate) → Type 0
IsDict [] = Unit
IsDict ((k, a) ∷ d) = (has k d ≡ false) × IsDict d

aggregate_at-upsert :
    (pid k : ℕ) (f : Aggregate → Aggregate) (d : List (ℕ × Aggregate))
    → aggregate_at pid (upsert k f d)
      ≡ (if k == pid then f (aggregate_at pid d) else aggregate_at pid d)
aggregate_at-upsert pid k f [] = ground arith
aggregate_at-upsert pid k f ((j, a) ∷ d) = ground (arith, aggregate_at-upsert pid k f d)

has-upsert :
    (pid k : ℕ) (f : Aggregate → Aggregate) (d : List (ℕ × Aggregate))
    → has pid (upsert k f d) ≡ (if k == pid then true else has pid d)
has-upsert pid k f [] = ground arith
has-upsert pid k f ((j, a) ∷ d) = ground (arith, has-upsert pid k f d)

upsert-IsDict :
    (k : ℕ) (f : Aggregate → Aggregate) (d : List (ℕ × Aggregate))
    → IsDict d
    → IsDict (upsert k f d)
upsert-IsDict k f [] h = (refl, tt)
upsert-IsDict k f ((j, a) ∷ d) h = elim (Bool-cases (j == k)) [
  | inl same ↦ rw same h
  | inr other ↦ rw other (ground (arith, has-upsert j k f d), upsert-IsDict k f d h.1)
]

-- One participant's aggregate of a list of submissions, on top of an earlier one.
abbrev plus : ℕ → List AnswerSubmission → Aggregate → Aggregate
plus pid [] a = a
plus pid (s ∷ subs) a = plus pid subs (if own pid s then add_answer s a else a)

aggregate_at-aggregate :
    (pid : ℕ) (subs : List AnswerSubmission) (d : List (ℕ × Aggregate))
    → aggregate_at pid (aggregate_submissions subs d) ≡ plus pid subs (aggregate_at pid d)
unfolding aggregate_submissions
aggregate_at-aggregate pid [] d = refl
aggregate_at-aggregate pid (s ∷ subs) d =
    aggregate_at-aggregate pid subs (upsert s.participant_id (add_answer s) d)
    ∙ ap (plus pid subs) (aggregate_at-upsert pid s.participant_id (add_answer s) d)

has-aggregate :
    (pid : ℕ) (subs : List AnswerSubmission) (d : List (ℕ × Aggregate))
    → has pid (aggregate_submissions subs d) ≡ (any (own pid) subs || has pid d)
unfolding aggregate_submissions
has-aggregate pid [] d = refl
has-aggregate pid (s ∷ subs) d = ground (
  arith,
  has-aggregate pid subs (upsert s.participant_id (add_answer s) d),
  has-upsert pid s.participant_id (add_answer s) d,
)

aggregate-IsDict :
    (subs : List AnswerSubmission) (d : List (ℕ × Aggregate))
    → IsDict d
    → IsDict (aggregate_submissions subs d)
unfolding aggregate_submissions
aggregate-IsDict [] d h = h
aggregate-IsDict (s ∷ subs) d h =
    aggregate-IsDict subs _ (upsert-IsDict s.participant_id (add_answer s) d h)

abbrev pub is_participant : ℕ → RoomParticipant → Bool
is_participant pid p = p.id == pid

aggregate_at-include :
    (pid : ℕ) (parts : List RoomParticipant) (d : List (ℕ × Aggregate))
    → aggregate_at pid (include_participants parts d) ≡ aggregate_at pid d
unfolding include_participants
aggregate_at-include pid [] d = refl
aggregate_at-include pid (p ∷ parts) d = ground (
  arith,
  aggregate_at-include pid parts (upsert p.id (λ a. a) d),
  aggregate_at-upsert pid p.id (λ a. a) d,
)

has-include :
    (pid : ℕ) (parts : List RoomParticipant) (d : List (ℕ × Aggregate))
    → has pid (include_participants parts d) ≡ (any (is_participant pid) parts || has pid d)
unfolding include_participants
has-include pid [] d = refl
has-include pid (p ∷ parts) d =
    ground (arith, has-include pid parts (upsert p.id (λ a. a) d), has-upsert pid p.id (λ a. a) d)

include-IsDict :
    (parts : List RoomParticipant) (d : List (ℕ × Aggregate))
    → IsDict d
    → IsDict (include_participants parts d)
unfolding include_participants
include-IsDict [] d h = h
include-IsDict (p ∷ parts) d h = include-IsDict parts _ (upsert-IsDict p.id (λ a. a) d h)

plus-total :
    (pid : ℕ) (subs : List AnswerSubmission) (a : Aggregate)
    → (plus pid subs a).total ≡ a.total + score_sum pid subs
plus-total pid [] a = omega arith
plus-total pid (s ∷ subs) a =
    ground (arith, plus-total pid subs (if own pid s then add_answer s a else a))

plus-rt_sum :
    (pid : ℕ) (subs : List AnswerSubmission) (a : Aggregate)
    → (plus pid subs a).rt_sum ≡ a.rt_sum + time_sum pid subs
plus-rt_sum pid [] a = omega arith
plus-rt_sum pid (s ∷ subs) a =
    ground (arith, plus-rt_sum pid subs (if own pid s then add_answer s a else a))

plus-rt_count :
    (pid : ℕ) (subs : List AnswerSubmission) (a : Aggregate)
    → (plus pid subs a).rt_count ≡ a.rt_count + answer_count pid subs
plus-rt_count pid [] a = omega arith
plus-rt_count pid (s ∷ subs) a =
    ground (arith, plus-rt_count pid subs (if own pid s then add_answer s a else a))

plus-correct :
    (pid : ℕ) (subs : List AnswerSubmission) (a : Aggregate)
    → (plus pid subs a).correct ≡ a.correct + correct_sum pid subs
plus-correct pid [] a = omega arith
plus-correct pid (s ∷ subs) a =
    ground (arith, plus-correct pid subs (if own pid s then add_answer s a else a))

-- The aggregate is the one of the participant's own submissions.
pub record IsTally (pid : ℕ) (subs : List AnswerSubmission) (a : Aggregate) : Type 0 where
  pub total : a.total ≡ score_sum pid subs
  pub correct : a.correct ≡ correct_sum pid subs
  pub rt_sum : a.rt_sum ≡ time_sum pid subs
  pub rt_count : a.rt_count ≡ answer_count pid subs

module _ (parts : List RoomParticipant) (subs : List AnswerSubmission) where
  abbrev pub tallies : List (ℕ × Aggregate)
  tallies = include_participants parts (aggregate_submissions subs [])

  pub tallies-IsDict : IsDict tallies
  tallies-IsDict = include-IsDict parts _ (aggregate-IsDict subs [] tt)

  pub has-tallies :
      (pid : ℕ) → has pid tallies ≡ (any (is_participant pid) parts || any (own pid) subs)
  has-tallies pid =
      ground
        (arith, has-include pid parts (aggregate_submissions subs []), has-aggregate pid subs [])

  pub tallies-IsTally : (pid : ℕ) → IsTally pid subs (aggregate_at pid tallies)
  tallies-IsTally pid =
      rw
        (
          aggregate_at-include pid parts (aggregate_submissions subs []),
          aggregate_at-aggregate pid subs [],
        )
        (record {
          total = omega (arith, plus-total pid subs no_answers);
          correct = omega (arith, plus-correct pid subs no_answers);
          rt_sum = omega (arith, plus-rt_sum pid subs no_answers);
          rt_count = omega (arith, plus-rt_count pid subs no_answers);
        })

if_true {ℓ} : {A : Type ℓ} (t : Bool) (x y : A) → t ≡ true → (if t then x else y) ≡ x
if_true t x y h = rw h refl

if_false {ℓ} : {A : Type ℓ} (t : Bool) (x y : A) → t ≡ false → (if t then x else y) ≡ y
if_false t x y h = rw h refl

has-ne : (j k : ℕ) (d : List (ℕ × Aggregate)) → has j d ≡ true → has k d ≡ false → (k == j) ≡ false
has-ne j k d h n = grind arith

-- What holds of every key at its aggregate holds of every pair of the dictionary.
pub All-entries {ℓ} :
    (P : ℕ × Aggregate → Type ℓ) (d : List (ℕ × Aggregate))
    → IsDict d
    → ((k : ℕ) → has k d ≡ true → P (k, aggregate_at k d))
    → All P d
All-entries P [] u h = tt
All-entries P ((k, a) ∷ d) u h = (
  subst (λ x. P (k, x)) (if_true (k == k) a (aggregate_at k d) (==_refl k))
      (h k (if_true (k == k) true (has k d) (==_refl k))),
  All-entries P d u.1 λ j e.
      let ne = has-ne j k d e u.0 in
      subst (λ x. P (j, x)) (if_false (k == j) a (aggregate_at j d) ne)
        (h j (if_false (k == j) true (has j d) ne ∙ e)),
)
