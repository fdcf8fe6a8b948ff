-- ===== src/Match/Reading/Backends.antt =====
-- The two backends of the live leaderboard, the submissions and the sorted set of Redis.
use mathlib.Core.Path.{subst}
use livequiz_platform.Prelude.{
  ℕ, suc, zero, ◌≤◌, ◌≡◌, refl, sym, ap, ◌∙◌, Bool, ◌⊎◌, true, false, any, length, inl, inr,
  Bool-cases, ◌==◌, if◌then◌else◌, Option, some, List, [], ◌∷◌, All, select, take, arith,
}
use livequiz_platform.Prelude.Sort.{sort, insert_sorted, IsSorted, sort-IsSorted, sort-All}
use livequiz_platform.Errors.{Result, ok}
use livequiz_platform.Store.{Match, RoomParticipant, Db, is_completed}
use livequiz_platform.Live.{World, Entry}
use livequiz_platform.Live.Leaderboard.{total_of}
use livequiz_platform.Match.Queries.{match_by_id}
use livequiz_platform.Match.Finish.{
  Aggregate, aggregate_submissions, include_participants, of_match,
}
use livequiz_platform.Match.Finish.Tally.{
  own, has, has-tallies, tallies, tallies-IsDict, tallies-IsTally, All-entries,
}
use livequiz_platform.Match.Submit.Totals.{Agrees}
use livequiz_platform.Match.Reading.{
  LeaderboardView, scores_before, pg_rows, number_groups, live_view, read_leaderboard,
}

abbrev pub NotMore : Entry → List Entry → Type 0
NotMore e [] = Unit
NotMore e (f ∷ entries) = f.score ≤ e.score

-- Ranks count up from `n`, scores do not grow, and each is the total in Redis.
abbrev pub IsLiveBoard : World → ℕ → ℕ → List Entry → Type 0
IsLiveBoard w match_id n [] = Unit
IsLiveBoard w match_id n (e ∷ entries) =
    (e.rank ≡ n)
    × (e.score ≡ total_of w.redis match_id e.participant_id)
    × NotMore e entries
    × IsLiveBoard w match_id (suc n) entries

scores_before-total : (a b : ℕ × Aggregate) → scores_before a b ≡ false → scores_before b a ≡ true
scores_before-total (p, a) (q, b) h = ground arith

scores_before-le :
    (p q : ℕ) (a b : Aggregate) → scores_before (p, a) (q, b) ≡ true → b.total ≤ a.total
scores_before-le p q a b h = ground arith

module _ (w : World) (match_id : ℕ) (parts : List RoomParticipant) where
  abbrev IsTotal : ℕ × Aggregate → Type 0
  IsTotal (pid, a) = a.total ≡ total_of w.redis match_id pid

  number_groups-IsLiveBoard :
      (n limit : ℕ) (rows : List (ℕ × Aggregate))
      → IsSorted scores_before rows
      → All IsTotal rows
      → IsLiveBoard w match_id n (number_groups parts n (take limit rows))
  number_groups-IsLiveBoard n zero rows s t = tt
  number_groups-IsLiveBoard n (suc limit) [] s t = tt
  number_groups-IsLiveBoard n (suc zero) ((p, a) ∷ rows) s t = (refl, t.0, tt, tt)
  number_groups-IsLiveBoard n (suc (suc limit)) ((p, a) ∷ []) s t = (refl, t.0, tt, tt)
  number_groups-IsLiveBoard n (suc (suc limit)) ((p, a) ∷ (q, b) ∷ rows) s t = (
    refl,
    t.0,
    scores_before-le p q a b s.0,
    number_groups-IsLiveBoard (suc n) (suc limit) ((q, b) ∷ rows) s.1 t.1,
  )

  All-totals : Agrees w → All IsTotal (tallies [] (select (of_match match_id) w.db.submissions))
  All-totals h =
      let subs = select (of_match match_id) w.db.submissions in
      All-entries IsTotal (tallies [] subs) (tallies-IsDict [] subs)
        λ k _. (tallies-IsTally [] subs k).total ∙ sym (h match_id k)

abbrev pub shows : ℕ → Entry → Bool
shows p e = e.participant_id == p

abbrev pub answered_in : ℕ → Db → ℕ → Bool
answered_in match_id db p = any (own p) (select (of_match match_id) db.submissions)

-- Who has answered is shown, or the board is full of scores that are not below theirs.
abbrev pub Covers : World → ℕ → ℕ → List Entry → Type 0
Covers w match_id limit entries =
    (p : ℕ)
    → answered_in match_id w.db p ≡ true
    → (any (shows p) entries ≡ true)
      ⊎ ((length entries ≡ limit)
          × All (λ (e : Entry). total_of w.redis match_id p ≤ e.score) entries)

abbrev NotAbove : ℕ → ℕ × Aggregate → Type 0
NotAbove b (p, a) = a.total ≤ b

below_head :
    (b : ℕ) (row : ℕ × Aggregate) (rows : List (ℕ × Aggregate))
    → NotAbove b row
    → IsSorted scores_before (row ∷ rows)
    → All (NotAbove b) (row ∷ rows)
below_head b row [] h s = (h, tt)
below_head b (p, a) ((q, c) ∷ rows) h s =
    let le = scores_before-le p q a c s.0 in
    (h, below_head b (q, c) rows (omega (arith, h, le)) s.1)

has-insert_sorted :
    (p : ℕ) (row : ℕ × Aggregate) (rows : List (ℕ × Aggregate))
    → has p (insert_sorted scores_before row rows) ≡ has p (row ∷ rows)
has-insert_sorted p row [] = refl
has-insert_sorted p (k, a) ((j, c) ∷ rows) = elim (Bool-cases (scores_before (k, a) (j, c))) [
  | inl first ↦ rw first refl
  | inr later ↦ rw later (ground (arith, has-insert_sorted p (k, a) rows))
]

has-sort : (p : ℕ) (rows : List (ℕ × Aggregate)) → has p (sort scores_before rows) ≡ has p rows
has-sort p [] = refl
has-sort p ((k, a) ∷ rows) =
    has-insert_sorted p (k, a) (sort scores_before rows)
    ∙ ap (λ b. if k == p then true else b) (has-sort p rows)

module _ (w : World) (match_id : ℕ) (parts : List RoomParticipant) (p : ℕ) where
  total_below :
      (b : ℕ) (rows : List (ℕ × Aggregate))
      → has p rows ≡ true
      → All (NotAbove b) rows
      → All (IsTotal w match_id parts) rows
      → total_of w.redis match_id p ≤ b
  total_below b [] h le t = absurd (cc)
  total_below b ((k, a) ∷ rows) h le t = elim (Bool-cases (k == p)) [
    | inl hit ↦
        (let same : k ≡ p = ground arith in
          subst (λ j. total_of w.redis match_id j ≤ b) same (rw t.0 at le.0))
    | inr miss ↦ total_below b rows (rw miss at h) le.1 t.1
  ]

  number_groups-Covers :
      (n limit : ℕ) (rows : List (ℕ × Aggregate))
      → IsSorted scores_before rows
      → All (IsTotal w match_id parts) rows
      → has p rows ≡ true
      → let entries = number_groups parts n (take limit rows) in
        (any (shows p) entries ≡ true)
        ⊎ ((length entries ≡ limit)
            × All (λ (e : Entry). total_of w.redis match_id p ≤ e.score) entries)
  number_groups-Covers n zero rows s t h = inr (refl, tt)
  number_groups-Covers n (suc limit) [] s t h = absurd (cc)
  number_groups-Covers n (suc limit) ((k, a) ∷ rows) s t h = elim (Bool-cases (k == p)) [
    | inl hit ↦ inl (rw hit refl)
    | inr miss ↦
        (let later : has p rows ≡ true = rw miss at h in
          let all = below_head a.total (k, a) rows (omega arith) s in
          elim (number_groups-Covers (suc n) limit rows s.1 t.1 later) [
            | inl shown ↦ inl (rw miss shown)
            | inr (full, above) ↦
                inr (ap suc full, (total_below a.total rows later all.1 t.1, above))
          ])
  ]

module _ (parts : List RoomParticipant) where
  number_groups-All :
      (P : ℕ → Type 0) (n limit : ℕ) (rows : List (ℕ × Aggregate))
      → All (λ row. P row.0) rows
      → All (λ (e : Entry). P e.participant_id) (number_groups parts n (take limit rows))
  number_groups-All P n zero rows h = tt
  number_groups-All P n (suc limit) [] h = tt
  number_groups-All P n (suc limit) ((p, a) ∷ rows) h =
      (h.0, number_groups-All P (suc n) limit rows h.1)

  length-number_groups :
      (n limit : ℕ) (rows : List (ℕ × Aggregate))
      → length (number_groups parts n (take limit rows)) ≤ limit
  length-number_groups n zero rows = omega arith
  length-number_groups n (suc limit) [] = omega arith
  length-number_groups n (suc limit) ((p, a) ∷ rows) =
      omega (arith, length-number_groups (suc n) limit rows)

-- What is read of a live match with this limit: a ranked board within it, of participants that have
-- answered, and none of them left out while there is room or for somebody with less.
pub record ReadsLive (w : World) (match_id limit : ℕ) (r : Result LeaderboardView) : Type 0 where
  pub view : LeaderboardView
  pub read : r ≡ ok view
  pub live : view.is_final ≡ false
  pub ranked : IsLiveBoard w match_id 1 view.entries
  pub within : length view.entries ≤ limit
  pub answerers :
      All (λ (e : Entry). answered_in match_id w.db e.participant_id ≡ true) view.entries
  pub covers : Covers w match_id limit view.entries

-- While the totals in Redis agree with the tables, `read_leaderboard` of a match that is not completed
-- gives on the backend "pg" a leaderboard that is not final, with the ranks 1, 2, 3, …, the totals
-- of Redis as scores, and no score above the one before. It has at most as many rows as the limit,
-- all of participants who have answered in the match; and who has answered is in it, unless it has
-- as many rows as the limit and none has a lower score than theirs.
pub read_leaderboard-ReadsLive :
    (zrevrange : (ℕ → Option ℕ) → ℕ → List (ℕ × ℕ)) (match_id limit : ℕ) (w : World) (m : Match)
    → Agrees w
    → match_by_id match_id w.db ≡ some m
    → is_completed m.status ≡ false
    → ReadsLive w match_id limit (read_leaderboard zrevrange "pg" match_id limit w)
unfolding read_leaderboard pg_rows include_participants
read_leaderboard-ReadsLive zrevrange match_id limit w m h e live =
    let subs = select (of_match match_id) w.db.submissions in
    let parts = w.db.participants in
    let rows = aggregate_submissions subs [] in
    let sorted = sort-IsSorted scores_before scores_before-total rows in
    let totals =
      sort-All scores_before (IsTotal w match_id parts) rows (All-totals w match_id parts h) in
    let answered =
      sort-All scores_before (λ row. answered_in match_id w.db row.0 ≡ true) rows
        (All-entries (λ row. answered_in match_id w.db row.0 ≡ true) rows (tallies-IsDict [] subs)
          λ k here. sym (has-tallies [] subs k) ∙ here) in
    record {
      view = live_view zrevrange "pg" match_id limit w;
      read = rw (e, live) refl;
      live = refl;
      ranked =
          number_groups-IsLiveBoard w match_id parts 1 limit (sort scores_before rows) sorted
            totals;
      within = length-number_groups parts 1 limit (sort scores_before rows);
      answerers =
          number_groups-All parts (λ k. answered_in match_id w.db k ≡ true) 1 limit
            (sort scores_before rows) answered;
      covers = λ p here.
          number_groups-Covers w match_id parts p 1 limit (sort scores_before rows) sorted totals
            (has-sort p rows ∙ has-tallies [] subs p ∙ here);
    }
