-- ===== src/Match/Lifecycle/Completed.antt =====
-- A completed match is final: no operation changes its status, its submissions or its final scores.
use livequiz_platform.Prelude.{
  ℕ, suc, ◌≡◌, refl, sym, ◌∙◌, Bool, true, false, Option, some, List, [], ◌∷◌, ◌++◌, find, select,
  update_where, All, All-find, arith, ◌==◌, is_some, inl, inr, Bool-cases,
}
use livequiz_platform.Errors.{
  Leaves, Leaves-bind, or_raise, or_raise-some, require, room_not_found, forbidden,
}
use livequiz_platform.Store.{Match, Room, RoomStatus, FinalScore, Db, completed, is_completed}
use livequiz_platform.Match.Queries.{match_by_id, room_by_id}
use livequiz_platform.Match.Finish.{
  of_match, ScoreRow, number_rows, final_scores_of, complete, complete_match, end_tx, is_host,
}
use livequiz_platform.Match.Control.{set_status}

abbrev pub score_of : ℕ → FinalScore → Bool
score_of match_id f = f.match_id == match_id

abbrev pub CompletedIf : ℕ → Match → Type 0
CompletedIf M m = m.id ≡ M → m.status ≡ completed

abbrev pub IsCompleted : ℕ → List Match → Type 0
IsCompleted M ms = (is_some (find (λ (m : Match). m.id == M) ms) ≡ true) × All (CompletedIf M) ms

-- There is a match with this id, and it is completed.
abbrev pub Completed : ℕ → Db → Type 0
Completed M db = IsCompleted M db.matches

-- The match is completed afterwards, with the same submissions and the same final scores.
pub record IsFrozen (M : ℕ) (db db' : Db) : Type 0 where
  pub still : Completed M db'
  pub same_submissions : select (of_match M) db'.submissions ≡ select (of_match M) db.submissions
  pub same_scores : select (score_of M) db'.final_scores ≡ select (score_of M) db.final_scores

pub IsFrozen-refl : (M : ℕ) (db : Db) → Completed M db → IsFrozen M db db
IsFrozen-refl M db c = record { still = c; same_submissions = refl; same_scores = refl }

pub IsFrozen-trans :
    (M : ℕ) (db db1 db2 : Db) → IsFrozen M db db1 → IsFrozen M db1 db2 → IsFrozen M db db2
IsFrozen-trans M db db1 db2 f g = record {
  still = g.still;
  same_submissions = g.same_submissions ∙ f.same_submissions;
  same_scores = g.same_scores ∙ f.same_scores;
}

-- A match that is found and not completed is another one.
pub other_match :
    (M : ℕ) (p : Match → Bool) (db : Db) (m : Match)
    → Completed M db
    → find p db.matches ≡ some m
    → is_completed m.status ≡ false
    → (m.id == M) ≡ false
other_match M p db m c e s =
    let done = All-find (CompletedIf M) p db.matches {x = m} c.1 e in
    elim (Bool-cases (m.id == M)) [
      | inl same ↦ (let st = done (ground arith) in ground arith)
      | inr other ↦ other
    ]

module _ (M k : ℕ) (f : Match → Match) (same_id : (m : Match) → (f m).id ≡ m.id) where
  All-update :
      (other : (k == M) ≡ false) (ms : List Match)
      → All (CompletedIf M) ms
      → All (CompletedIf M) (update_where (λ (m : Match). m.id == k) f ms)
  All-update other [] h = tt
  All-update other (m ∷ ms) h = (
    elim (Bool-cases (m.id == k)) [
      | inl hit ↦ rw hit (λ e. (let e' = sym (same_id m) ∙ e in ground arith))
      | inr miss ↦ rw miss h.0
    ],
    All-update other ms h.1,
  )

  is_some-update :
      (ms : List Match)
      → is_some (find (λ (m : Match). m.id == M) (update_where (λ (m : Match). m.id == k) f ms))
        ≡ is_some (find (λ (m : Match). m.id == M) ms)
  is_some-update [] = refl
  is_some-update (m ∷ ms) = elim (Bool-cases (m.id == k)) [
    | inl hit ↦ rw (hit, same_id m) (ground (arith, is_some-update ms))
    | inr miss ↦ rw miss (ground (arith, is_some-update ms))
  ]

  pub IsCompleted-update :
      (ms : List Match)
      → (k == M) ≡ false
      → IsCompleted M ms
      → IsCompleted M (update_where (λ (m : Match). m.id == k) f ms)
  IsCompleted-update ms other c = (is_some-update ms ∙ c.0, All-update other ms c.1)

number_rows-score_of :
    (M k n : ℕ) (rows : List ScoreRow) (scores : List FinalScore)
    → (k == M) ≡ false
    → select (score_of M) (number_rows k n rows ++ scores) ≡ select (score_of M) scores
number_rows-score_of M k n [] scores other = refl
number_rows-score_of M k n (r ∷ rows) scores other =
    rw other (number_rows-score_of M k (suc n) rows scores other)

pub end_tx-IsFrozen :
    (M now event_id : ℕ) (host_id : Option ℕ) (match_id : ℕ) (db : Db)
    → Completed M db
    → Leaves (λ _ db'. IsFrozen M db db') (end_tx now event_id host_id match_id db)
unfolding end_tx complete final_scores_of
end_tx-IsFrozen M now event_id host_id match_id db c =
    Leaves-bind (λ _ db'. IsFrozen M db db') (or_raise (match_by_id match_id db) room_not_found 404)
      _
      λ m e.
        Leaves-bind (λ _ db'. IsFrozen M db db')
          (or_raise (room_by_id m.room_id db) room_not_found 404) _
          λ room _.
            Leaves-bind (λ _ db'. IsFrozen M db db') (require (is_host host_id room) forbidden 403)
              _
              λ _ _. elim (Bool-cases (is_completed m.status)) [
                | inl done ↦ rw done (IsFrozen-refl M db c)
                | inr live ↦ rw live (
                    let other =
                      other_match M (λ (x : Match). x.id == match_id) db m c
                        (or_raise-some (match_by_id match_id db) _ _ e) live in
                    record {
                      still =
                          IsCompleted-update M m.id (complete_match now) (λ _. refl) db.matches
                            other c;
                      same_submissions = refl;
                      same_scores = number_rows-score_of M m.id 1 _ db.final_scores other;
                    })
              ]

pub set_status-IsFrozen :
    (M : ℕ) (status : RoomStatus) (room : Room) (m : Match) (db : Db)
    → (m.id == M) ≡ false
    → Completed M db
    → IsFrozen M db (set_status status room m db)
set_status-IsFrozen M status room m db other c = record {
  still =
      IsCompleted-update M m.id (λ x. record x { status = status }) (λ _. refl) db.matches other c;
  same_submissions = refl;
  same_scores = refl;
}
