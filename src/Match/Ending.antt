-- ===== src/Match/Ending.antt =====
-- What `end_match` leaves when it is not interrupted, and when it is called again.
use mathlib.Core.Path.{subst}
use livequiz_platform.Prelude.{
  ℕ, ◌≡◌, refl, sym, ◌∙◌, ap, Bool, true, false, Option, none, some, List, [], ◌∷◌, ◌++◌, find,
  find_sound, update_where, All-find, arith, ◌==◌, inl, inr, Bool-cases,
}
use livequiz_platform.Errors.{
  Result, ok, err, Leaves, Leaves-bind, or_raise, or_raise-some, require, room_not_found, forbidden,
}
use livequiz_platform.Store.{Match, Room, Db, is_completed}
use livequiz_platform.Live.{World}
use livequiz_platform.Live.Scheduler.{Task, MatchScheduler, stops, cancel, cancels_itself}
use livequiz_platform.Match.Queries.{match_by_id, room_by_id}
use livequiz_platform.Match.Finish.{
  complete_match, complete_room, complete, is_host, final_scores_of, Ended, already, now_completed,
  end_tx, after_end, end_match, finished,
}
use livequiz_platform.Match.Lifecycle.Completed.{Completed, CompletedIf}

-- The tables afterwards: the match and its room are completed at that time, and the final scores of
-- the match are added to the table.
pub record IsEnded (now match_id : ℕ) (m : Match) (room : Room) (db db' : Db) : Type 0 where
  pub the_match : match_by_id match_id db' ≡ some (complete_match now m)
  pub the_room : room_by_id m.room_id db' ≡ some (complete_room now room)
  pub the_scores : db'.final_scores ≡ final_scores_of match_id room.id db ++ db.final_scores

module _ {A : Type 0} (f : A → A) where
  abbrev on_some : Option A → Option A
  on_some none = none
  on_some (some a) = some (f a)

  find-update :
      (p : A → Bool) (xs : List A)
      → ((x : A) → p (f x) ≡ p x)
      → find p (update_where p f xs) ≡ on_some (find p xs)
  find-update p [] same = refl
  find-update p (x ∷ xs) same = elim (Bool-cases (p x)) [
    | inl hit ↦ rw (hit, same x, hit) refl
    | inr miss ↦ rw (miss, miss) (find-update p xs same)
  ]

complete-IsEnded :
    (now event_id : ℕ) (m : Match) (room : Room) (match_id : ℕ) (db : Db)
    → match_by_id match_id db ≡ some m
    → room_by_id m.room_id db ≡ some room
    → IsEnded now match_id m room db (complete now event_id m room db)
unfolding complete
complete-IsEnded now event_id m room match_id db em er =
    let same = find_sound (λ (x : Match). x.id == match_id) db.matches {x = m} em in
    let same_room = find_sound (λ (x : Room). x.id == m.room_id) db.rooms {x = room} er in
    let id : m.id ≡ match_id = ground arith in
    let room_id : room.id ≡ m.room_id = ground arith in
    record {
      the_match =
          subst
            (λ k.
              find (λ (x : Match). x.id == match_id)
                (update_where (λ (x : Match). x.id == k) (complete_match now) db.matches)
              ≡ some (complete_match now m))
            (sym id)
            (find-update (complete_match now) (λ (x : Match). x.id == match_id) db.matches
                (λ _. refl)
              ∙ ap (on_some (complete_match now)) em);
      the_room =
          subst
            (λ k.
              find (λ (x : Room). x.id == m.room_id)
                (update_where (λ (x : Room). x.id == k) (complete_room now) db.rooms)
              ≡ some (complete_room now room))
            (sym room_id)
            (find-update (complete_room now) (λ (x : Room). x.id == m.room_id) db.rooms (λ _. refl)
              ∙ ap (on_some (complete_room now)) er);
      the_scores = ap (λ k. final_scores_of k room.id db ++ db.final_scores) id;
    }

pub stops-none : (o : Option Task) (s : MatchScheduler) → stops o none s ≡ false
stops-none none s = refl
stops-none (some task) s = refl

-- Called by a request that is allowed to end a match which is not completed, `end_match` returns the
-- match, completes it and its room at that time, and adds its final scores to the table.
pub end_match-IsEnded :
    (now event_id match_id : ℕ) (host_id : Option ℕ) (w : World) (m : Match) (room : Room)
    → match_by_id match_id w.db ≡ some m
    → room_by_id m.room_id w.db ≡ some room
    → is_host host_id room ≡ true
    → is_completed m.status ≡ false
    → let r = end_match none now event_id host_id match_id w in
      (r.0 ≡ finished (complete_match now m)) × IsEnded now match_id m room w.db r.1.db
unfolding end_match end_tx
end_match-IsEnded now event_id match_id host_id w m room em er allowed live =
    rw (stops-none (w.scheduler.active match_id) w.scheduler, em, er, allowed, live)
      (refl, complete-IsEnded now event_id m room match_id w.db em er)

abbrev IsAlready : Ended → Db → Type 0
IsAlready x db = (m : Match) × (x ≡ already m)

end_tx-IsAlready :
    (now event_id match_id : ℕ) (host_id : Option ℕ) (db : Db)
    → Completed match_id db
    → Leaves IsAlready (end_tx now event_id host_id match_id db)
unfolding end_tx
end_tx-IsAlready now event_id match_id host_id db c =
    Leaves-bind IsAlready (or_raise (match_by_id match_id db) room_not_found 404) _ λ m e.
      Leaves-bind IsAlready (or_raise (room_by_id m.room_id db) room_not_found 404) _ λ room _.
        Leaves-bind IsAlready (require (is_host host_id room) forbidden 403) _ λ _ _.
          (let found = or_raise-some (match_by_id match_id db) _ _ e in
            let same = find_sound (λ (x : Match). x.id == match_id) db.matches {x = m} found in
            let done =
              All-find (CompletedIf match_id) (λ (x : Match). x.id == match_id) db.matches {x = m}
                c.1 found (ground arith) in
            let test : is_completed m.status ≡ true = ap is_completed done in rw test (m, refl))

after_end-already :
    (w : World) (r : Result (Ended × Db)) → Leaves IsAlready r → (after_end w r).1 ≡ w
after_end-already w (err e) h = refl
after_end-already w (ok (already m, db)) h = refl
after_end-already w (ok (now_completed m code, db)) h = cc

-- Ending a completed match again, by whoever and whatever time it is, writes nothing to the tables
-- and announces nothing.
pub end_match_again :
    (current : Option ℕ) (now event_id match_id : ℕ) (host_id : Option ℕ) (w : World)
    → Completed match_id w.db
    → let w' = (end_match current now event_id host_id match_id w).1 in
      (w'.db ≡ w.db) × (w'.redis ≡ w.redis) × (w'.sent ≡ w.sent)
unfolding end_match
end_match_again current now event_id match_id host_id w c =
    elim (Bool-cases (cancels_itself match_id current w.scheduler)) [
      | inl itself ↦ rw itself (refl, refl, refl)
      | inr other ↦
          rw
            (
              other,
              after_end-already (record w { scheduler = (cancel match_id w.scheduler).0 })
                  (end_tx now event_id host_id match_id w.db)
                  (end_tx-IsAlready now event_id match_id host_id w.db c),
            )
            (refl, refl, refl)
    ]
