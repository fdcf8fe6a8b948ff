-- ===== src/Match/Reading/Final.antt =====
-- What the leaderboard shows once the match has ended.
use mathlib.Core.Path.{subst}
use mathlib.Core.List.{Permᴰ}
use livequiz_platform.Prelude.{
  ℕ, suc, ◌<◌, ◌==◌, All, sym, ◌≡◌, refl, ◌∙◌, String, true, false, Option, none, some, List, [],
  ◌∷◌, ◌++◌, map, select, take, leb, arith, ==_refl,
}
use livequiz_platform.Prelude.Shuffle.{IsKeyed, select_shuffle, sort_shuffle}
use livequiz_platform.Prelude.Sort.{sort, insert_sorted}
use livequiz_platform.Errors.{ok}
use livequiz_platform.Store.{Match, Room, FinalScore, Db, is_completed}
use livequiz_platform.Live.{World}
use livequiz_platform.Match.Queries.{match_by_id, room_by_id}
use livequiz_platform.Match.Finish.{
  ScoreRow, number_rows, sorted_rows, final_scores_of, is_host, complete, complete_match, end_tx,
  end_match,
}
use livequiz_platform.Match.Ending.{end_match-IsEnded, stops-none}
use livequiz_platform.Match.Reading.{
  LeaderboardView, ranks_first, is_score_of, list_by_match_ordered_by_rank, final_entry, final_view,
  read_leaderboard,
}

module _ (match_id : ℕ) where
  pub select-number_rows :
      (n : ℕ) (rows : List ScoreRow) (old : List FinalScore)
      → select (is_score_of match_id) old ≡ []
      → select (is_score_of match_id) (number_rows match_id n rows ++ old)
        ≡ number_rows match_id n rows
  select-number_rows n [] old h = h
  select-number_rows n (r ∷ rows) old h =
      rw (==_refl match_id, select-number_rows (suc n) rows old h) refl

  insert_sorted-ranked :
      (n : ℕ) (f : FinalScore) (rows : List ScoreRow)
      → leb f.rank n ≡ true
      → insert_sorted ranks_first f (number_rows match_id n rows) ≡ f ∷ number_rows match_id n rows
  insert_sorted-ranked n f [] h = refl
  insert_sorted-ranked n f (r ∷ rows) h = rw h refl

  sort-number_rows :
      (n : ℕ) (rows : List ScoreRow)
      → sort ranks_first (number_rows match_id n rows) ≡ number_rows match_id n rows
  sort-number_rows n [] = refl
  sort-number_rows n (r ∷ rows) =
      rw (sort-number_rows (suc n) rows) (insert_sorted-ranked (suc n) _ rows (ground arith))

  ranks_above :
      (n k : ℕ) (rows : List ScoreRow)
      → n < k
      → All (λ f. (n == f.rank) ≡ false) (number_rows match_id k rows)
  ranks_above n k [] h = tt
  ranks_above n k (r ∷ rows) h = (ground arith, ranks_above n (suc k) rows (omega (arith, h)))

  number_rows-IsKeyed :
      (n : ℕ) (rows : List ScoreRow)
      → IsKeyed (λ (f : FinalScore). f.rank) (number_rows match_id n rows)
  number_rows-IsKeyed n [] = tt
  number_rows-IsKeyed n (r ∷ rows) =
      (ranks_above n (suc n) rows (omega arith), number_rows-IsKeyed (suc n) rows)

  -- The final scores among other rows, in any order, are listed by their ranks.
  list_by_match_shuffled :
      (room_id : ℕ) (db : Db) (old rows : List FinalScore)
      → select (is_score_of match_id) old ≡ []
      → Permᴰ (final_scores_of match_id room_id db ++ old) rows
      → list_by_match_ordered_by_rank match_id rows ≡ final_scores_of match_id room_id db
  unfolding list_by_match_ordered_by_rank final_scores_of
  list_by_match_shuffled room_id db old rows h order =
      let scores = number_rows match_id 1 (sorted_rows match_id room_id db) in
      let own =
        subst (λ xs. Permᴰ xs (select (is_score_of match_id) rows))
          (select-number_rows 1 (sorted_rows match_id room_id db) old h)
          (select_shuffle (is_score_of match_id) order) in
      sym (
        sort_shuffle (λ (f : FinalScore). f.rank) own
          (number_rows-IsKeyed 1 (sorted_rows match_id room_id db)))
      ∙ sort-number_rows 1 (sorted_rows match_id room_id db)

module _ (zrevrange : (ℕ → Option ℕ) → ℕ → List (ℕ × ℕ)) (backend : String)
    (match_id limit : ℕ) where
  read_leaderboard-completed :
      (w : World) (m : Match)
      → match_by_id match_id w.db ≡ some m
      → is_completed m.status ≡ true
      → read_leaderboard zrevrange backend match_id limit w ≡ ok (final_view match_id limit w.db)
  unfolding read_leaderboard
  read_leaderboard-completed w m e done = rw (e, done) refl

end_match-participants :
    (now event_id match_id : ℕ) (host_id : Option ℕ) (w : World) (m : Match) (room : Room)
    → match_by_id match_id w.db ≡ some m
    → room_by_id m.room_id w.db ≡ some room
    → is_host host_id room ≡ true
    → is_completed m.status ≡ false
    → (end_match none now event_id host_id match_id w).1.db.participants ≡ w.db.participants
unfolding end_match end_tx complete
end_match-participants now event_id match_id host_id w m room em er allowed live =
    rw (stops-none (w.scheduler.active match_id) w.scheduler, em, er, allowed, live) refl

-- The final leaderboard, with the nicknames of the participants.
abbrev pub board_of : ℕ → ℕ → ℕ → Db → LeaderboardView
board_of match_id room_id limit db = record {
  match_id = match_id;
  is_final = true;
  entries = map (final_entry db.participants) (take limit (final_scores_of match_id room_id db));
}

-- The tables with the rows of final scores in another order.
abbrev pub with_scores : List FinalScore → World → World
with_scores rows w = record w { db = record w.db { final_scores = rows } }

-- After a request that ended a match without final scores, `read_leaderboard` returns the first of
-- the match's final scores as far as the limit, by their ranks, as final, whatever the backend of
-- live leaderboards is, and in whatever order the table of final scores holds its rows.
pub read_leaderboard-end_match :
    (zrevrange : (ℕ → Option ℕ) → ℕ → List (ℕ × ℕ)) (backend : String) (limit : ℕ)
    (now event_id match_id : ℕ) (host_id : Option ℕ) (w : World) (m : Match) (room : Room)
    (rows : List FinalScore)
    → match_by_id match_id w.db ≡ some m
    → room_by_id m.room_id w.db ≡ some room
    → is_host host_id room ≡ true
    → is_completed m.status ≡ false
    → select (is_score_of match_id) w.db.final_scores ≡ []
    → Permᴰ (end_match none now event_id host_id match_id w).1.db.final_scores rows
    → read_leaderboard zrevrange backend match_id limit
        (with_scores rows (end_match none now event_id host_id match_id w).1)
      ≡ ok (board_of match_id room.id limit w.db)
read_leaderboard-end_match zrevrange backend limit now event_id match_id host_id w m room rows em er
      allowed live fresh order =
    let w' = with_scores rows (end_match none now event_id host_id match_id w).1 in
    let after = (end_match-IsEnded now event_id match_id host_id w m room em er allowed live).1 in
    let any_order = subst (λ scores. Permᴰ scores rows) after.the_scores order in
    let listed =
      list_by_match_shuffled match_id room.id w.db w.db.final_scores rows fresh any_order in
    let parts = end_match-participants now event_id match_id host_id w m room em er allowed live in
    read_leaderboard-completed zrevrange backend match_id limit w' (complete_match now m)
      after.the_match refl
    ∙ rw (parts, listed) refl
