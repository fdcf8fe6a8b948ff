-- ===== src/Match/Finish/Ranking.antt =====
-- The final scores: the order of the ranks, the sums of every row, and who has a row.
use livequiz_platform.Prelude.{
  ℕ, suc, ◌/◌, ◌≤◌, ◌<◌, ◌≡◌, refl, ◌∙◌, ap, Bool, true, false, ◌||◌, none, some, List, [], ◌∷◌,
  map, select, any, All, length, arith, ◌==◌, if◌then◌else◌, ◌⊎◌, inl, inr, Bool-cases,
}
use livequiz_platform.Prelude.Sort.{sort, insert_sorted, IsSorted, sort-IsSorted, sort-All}
use livequiz_platform.Store.{AnswerSubmission, FinalScore, Db}
use livequiz_platform.Match.Finish.{
  Aggregate, one_if, ScoreRow, to_row, average_or_last, ranks_before, number_rows, of_match,
  is_ranked_in, sorted_rows, final_scores_of,
}
use livequiz_platform.Match.Finish.Tally.{
  own, score_sum, time_sum, correct_sum, answer_count, is_participant, has, IsDict, tallies,
  tallies-IsDict, tallies-IsTally, has-tallies, All-entries, IsTally, aggregate_at,
}

-- A row is before the next one by its total, or by its average at the same total.
abbrev pub Beats : FinalScore → FinalScore → Type 0
Beats f g =
    (g.total_score < f.total_score)
    ⊎ ((g.total_score ≡ f.total_score)
        × (average_or_last f.average_response_ms ≤ average_or_last g.average_response_ms))

abbrev pub BeatsHead : FinalScore → List FinalScore → Type 0
BeatsHead f [] = Unit
BeatsHead f (g ∷ scores) = Beats f g

-- Ranks count up from `n`, and every row beats the next one.
abbrev pub IsPodium : ℕ → List FinalScore → Type 0
IsPodium n [] = Unit
IsPodium n (f ∷ scores) = (f.rank ≡ n) × BeatsHead f scores × IsPodium (suc n) scores

ranks_before-total : (a b : ScoreRow) → ranks_before a b ≡ false → ranks_before b a ≡ true
ranks_before-total a b h = ground arith

ranks_before-Beats :
    (a b : ScoreRow)
    → ranks_before a b ≡ true
    → (b.total < a.total)
      ⊎ ((b.total ≡ a.total) × (average_or_last a.average_ms ≤ average_or_last b.average_ms))
ranks_before-Beats a b h = ground arith

number_rows-IsPodium :
    (match_id n : ℕ) (rows : List ScoreRow)
    → IsSorted ranks_before rows
    → IsPodium n (number_rows match_id n rows)
number_rows-IsPodium match_id n [] h = tt
number_rows-IsPodium match_id n (r ∷ []) h = (refl, tt, tt)
number_rows-IsPodium match_id n (r ∷ s ∷ rows) h =
    (refl, ranks_before-Beats r s h.0, number_rows-IsPodium match_id (suc n) (s ∷ rows) h.1)

-- The final scores of a match are ranked 1, 2, 3, … by their totals, and at equal totals by the
-- average response time, where no answer counts as 10 ^ 9 ms.
pub final_scores_of-IsPodium :
    (match_id room_id : ℕ) (db : Db) → IsPodium 1 (final_scores_of match_id room_id db)
unfolding final_scores_of sorted_rows
final_scores_of-IsPodium match_id room_id db =
    number_rows-IsPodium match_id 1 (sorted_rows match_id room_id db) (
      sort-IsSorted ranks_before ranks_before-total (
        map to_row (
          tallies (select (is_ranked_in room_id) db.participants)
            (select (of_match match_id) db.submissions))))

-- What a row of the final scores must say of the submissions.
pub record IsResult (match_id : ℕ) (subs : List AnswerSubmission) (f : FinalScore) : Type 0 where
  pub of_match : f.match_id ≡ match_id
  pub total : f.total_score ≡ score_sum f.participant_id subs
  pub correct : f.correct_count ≡ correct_sum f.participant_id subs
  pub average : f.average_response_ms ≡ (
      if answer_count f.participant_id subs == 0
      then none
      else some (time_sum f.participant_id subs / answer_count f.participant_id subs))

module _ (match_id : ℕ) (subs : List AnswerSubmission) where
  abbrev RowResult : ScoreRow → Type 0
  RowResult r = (rank : ℕ) → All (IsResult match_id subs) (number_rows match_id rank (r ∷ []))

  to_row-RowResult : (pid : ℕ) (a : Aggregate) → IsTally pid subs a → RowResult (to_row (pid, a))
  to_row-RowResult pid a t rank = (
    record {
      of_match = refl;
      total = t.total;
      correct = t.correct;
      average = rw (t.rt_count, t.rt_sum) refl;
    },
    tt,
  )

  All-map-to_row :
      (d : List (ℕ × Aggregate)) → All (λ e. RowResult (to_row e)) d → All RowResult (map to_row d)
  All-map-to_row [] h = tt
  All-map-to_row (e ∷ d) h = (h.0, All-map-to_row d h.1)

  All-number_rows :
      (n : ℕ) (rows : List ScoreRow)
      → All RowResult rows
      → All (IsResult match_id subs) (number_rows match_id n rows)
  All-number_rows n [] h = tt
  All-number_rows n (r ∷ rows) h = ((h.0 n).0, All-number_rows (suc n) rows h.1)

-- Every final score is the sum, the number of correct answers and the rounded-down average time of
-- the participant's own submissions in the match.
pub final_scores_of-IsResult :
    (match_id room_id : ℕ) (db : Db)
    → All
        (IsResult match_id (select (of_match match_id) db.submissions))
        (final_scores_of match_id room_id db)
unfolding final_scores_of sorted_rows
final_scores_of-IsResult match_id room_id db =
    let subs = select (of_match match_id) db.submissions in
    let parts = select (is_ranked_in room_id) db.participants in
    All-number_rows match_id subs 1 (sorted_rows match_id room_id db) (
      sort-All ranks_before (RowResult match_id subs) _ (
        All-map-to_row match_id subs (tallies parts subs) (
          All-entries (λ e. RowResult match_id subs (to_row e)) (tallies parts subs)
            (tallies-IsDict parts subs)
            λ k _.
              to_row-RowResult match_id subs k (aggregate_at k (tallies parts subs))
                (tallies-IsTally parts subs k))))

abbrev pub rows_of : ℕ → List FinalScore → List FinalScore
rows_of pid scores = select (λ (f : FinalScore). f.participant_id == pid) scores

abbrev is_row_of : ℕ → ScoreRow → Bool
is_row_of pid r = r.participant_id == pid

number_rows-count :
    (match_id n pid : ℕ) (rows : List ScoreRow)
    → length (rows_of pid (number_rows match_id n rows)) ≡ length (select (is_row_of pid) rows)
number_rows-count match_id n pid [] = refl
number_rows-count match_id n pid (r ∷ rows) =
    ground (arith, number_rows-count match_id (suc n) pid rows)

insert-count :
    (pid : ℕ) (r : ScoreRow) (rows : List ScoreRow)
    → length (select (is_row_of pid) (insert_sorted ranks_before r rows))
      ≡ length (select (is_row_of pid) (r ∷ rows))
insert-count pid r [] = refl
insert-count pid r (s ∷ rows) = elim (Bool-cases (ranks_before r s)) [
  | inl first ↦ rw first refl
  | inr later ↦ rw later (ground (arith, insert-count pid r rows))
]

sort-count :
    (pid : ℕ) (rows : List ScoreRow)
    → length (select (is_row_of pid) (sort ranks_before rows))
      ≡ length (select (is_row_of pid) rows)
sort-count pid [] = refl
sort-count pid (r ∷ rows) =
    insert-count pid r (sort ranks_before rows) ∙ ground (arith, sort-count pid rows)

to_row-count :
    (pid : ℕ) (d : List (ℕ × Aggregate))
    → IsDict d
    → length (select (is_row_of pid) (map to_row d)) ≡ one_if (has pid d)
to_row-count pid [] u = refl
to_row-count pid ((k, a) ∷ d) u = grind (arith, to_row-count pid d u.1)

-- A participant has one row if they answered in the match or are in the room and not kicked, and
-- none otherwise.
pub final_scores_of-once :
    (match_id room_id pid : ℕ) (db : Db)
    → length (rows_of pid (final_scores_of match_id room_id db))
      ≡ one_if (
          any (is_participant pid) (select (is_ranked_in room_id) db.participants)
          || any (own pid) (select (of_match match_id) db.submissions))
unfolding final_scores_of sorted_rows
final_scores_of-once match_id room_id pid db =
    let subs = select (of_match match_id) db.submissions in
    let parts = select (is_ranked_in room_id) db.participants in
    number_rows-count match_id 1 pid (sorted_rows match_id room_id db)
    ∙ sort-count pid (map to_row (tallies parts subs))
    ∙ to_row-count pid (tallies parts subs) (tallies-IsDict parts subs)
    ∙ ap one_if (has-tallies parts subs pid)
