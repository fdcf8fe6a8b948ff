-- ===== src/Moderation/Muted.antt =====
-- What muting means: the participants are kicked, named in the broadcast, and answer no more.
use mathlib.Core.Path.{subst}
use livequiz_platform.Prelude.{
  String, ℕ, ◌≡◌, refl, ap, sym, ◌∙◌, true, false, ◌&&◌, ◌||◌, some, List, [], ◌∷◌, is_some, All,
  find, find-rewritten, update_where, ◌==◌, if◌then◌else◌, arith, Bool-cases, inl, inr,
}
use livequiz_platform.Errors.{ok}
use livequiz_platform.Store.{
  ModerationReport, is_pending, action_taken, muted, RoomParticipant, Match, Db,
}
use livequiz_platform.Match.Queries.{match_by_id}
use livequiz_platform.Match.Admission.{Request, Admitted, find_participant, admit}
use livequiz_platform.Match.Admission.Sound.{admit-IsAdmissible}
use livequiz_platform.Moderation.Decide.{
  is_muted_by, mute_targets, kick, apply_mute, mute, DecisionRequest, decision_of, decide, reviewed,
  record_decision, is_report,
}

module _ (q : DecisionRequest) (report : ModerationReport) (db : Db) where
  -- The tables after the decision.
  abbrev pub after_mute : Db
  after_mute =
      record_decision q mute report (muted (mute_targets report db db.participants))
        (record db { participants = update_where (is_muted_by report db) kick db.participants })

  kicked_safe : (p : RoomParticipant) → is_muted_by report db (kick p) ≡ false
  kicked_safe p = ground arith

  nobody_left :
      (rows : List RoomParticipant)
      → All (λ p. is_muted_by report db p ≡ false) (update_where (is_muted_by report db) kick rows)
  nobody_left [] = tt
  nobody_left (p ∷ rows) = elim (Bool-cases (is_muted_by report db p)) [
    | inl e ↦ rw e (kicked_safe p, nobody_left rows)
    | inr e ↦ rw e (e, nobody_left rows)
  ]

  -- A pending report that names a room or a user can be decided by muting. Every active participant
  -- that it names is then broadcast as kicked, and none is left.
  pub decide-mutes :
      find (is_report q.report_id) db.reports ≡ some report
      → is_pending report.status ≡ true
      → decision_of q.decision ≡ some mute
      → (is_some report.room_id || is_some report.target_user_id) ≡ true
      → (decide q db
          ≡ ok (reviewed q action_taken report, mute_targets report db db.participants, after_mute))
        × All (λ p. is_muted_by report db p ≡ false) after_mute.participants
  unfolding decide apply_mute
  decide-mutes found pending chosen named =
      (rw (chosen, found, pending, named) refl, nobody_left db.participants)

  admit-after_mute :
      (r : Request) (m : Match) (p : RoomParticipant) (a : Admitted)
      → match_by_id r.match_id db ≡ some m
      → find_participant r.participant_id m.room_id db ≡ some p
      → is_muted_by report db p ≡ true
      → ¬ (admit r after_mute ≡ ok a)
  admit-after_mute r m p a playing here muted_now admitted =
      let sound = admit-IsAdmissible r after_mute admitted in
      let same : some a.match ≡ some m = sym sound.match_found ∙ playing in
      let it : a.match ≡ m = cc in
      let stored : find_participant r.participant_id m.room_id after_mute ≡ some a.participant =
        subst
          (λ (x : Match).
            find_participant r.participant_id x.room_id after_mute ≡ some a.participant)
          it sound.stored in
      let kicked : find_participant r.participant_id m.room_id after_mute ≡ some (kick p) =
        find-rewritten (λ (x : RoomParticipant). x.id == r.participant_id && x.room_id == m.room_id)
          (is_muted_by report db) kick db.participants (λ x. refl) here
        ∙ ap (λ b. some (if b then kick p else p)) muted_now in
      let found : some a.participant ≡ some (kick p) = sym stored ∙ kicked in
      let who : a.participant ≡ kick p = cc in
      let free : true ≡ false =
        sym (ap (λ (x : RoomParticipant). x.is_kicked) who) ∙ sound.not_kicked in
      cc

  decide-after_mute :
      {reviewed_report : ModerationReport} {kicks : List (String × ℕ)} {after : Db}
      → find (is_report q.report_id) db.reports ≡ some report
      → is_pending report.status ≡ true
      → decision_of q.decision ≡ some mute
      → (is_some report.room_id || is_some report.target_user_id) ≡ true
      → decide q db ≡ ok (reviewed_report, kicks, after)
      → after ≡ after_mute
  decide-after_mute {reviewed_report} {kicks} {after} found pending chosen named h =
      let same = sym (decide-mutes found pending chosen named).0 ∙ h in cc

  -- When a pending report that names a room or a user has been decided by muting, no participant
  -- that it names is admitted with an answer any more, in any match of the participant's room.
  pub decide-muted :
      (reviewed_report : ModerationReport) (kicks : List (String × ℕ)) (after : Db) (r : Request)
      (m : Match) (p : RoomParticipant) (a : Admitted)
      → find (is_report q.report_id) db.reports ≡ some report
      → is_pending report.status ≡ true
      → decision_of q.decision ≡ some mute
      → (is_some report.room_id || is_some report.target_user_id) ≡ true
      → decide q db ≡ ok (reviewed_report, kicks, after)
      → match_by_id r.match_id db ≡ some m
      → find_participant r.participant_id m.room_id db ≡ some p
      → is_muted_by report db p ≡ true
      → ¬ (admit r after ≡ ok a)
  decide-muted reviewed_report kicks after r m p a found pending chosen named h playing here
        muted_now =
      subst (λ (d : Db). ¬ (admit r d ≡ ok a))
        (sym (decide-after_mute found pending chosen named h))
        (admit-after_mute r m p a playing here muted_now)
