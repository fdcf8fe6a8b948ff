-- ===== src/Moderation/Once.antt =====
-- A report is decided once.
use mathlib.Core.Path.{subst}
use livequiz_platform.Prelude.{
  ℕ, ◌≡◌, refl, ap, sym, ◌∙◌, String, true, false, ◌||◌, is_some, some, List, [], find, find_sound,
  find-update_where, update_where, arith,
}
use livequiz_platform.Errors.{
  Result, ok, err, auth_error, require, or_raise, validation_error, or_raise-ok, bind-ok,
  require-ok, Leaves, Leaves-bind,
}
use livequiz_platform.Store.{ModerationReport, is_pending, Affected, Db}
use livequiz_platform.Moderation.Decide.{
  Decision, dismiss, hide, mute, ban, decision_of, status_of, is_report, is_quiz, is_user,
  apply_hide, apply_mute, apply_ban, apply_decision, DecisionRequest, reviewed, decide,
}

-- A decision leaves the reports to `update_status`.
abbrev KeepsReports : Db → Affected → Db → Type 0
KeepsReports db affected after = after.reports ≡ db.reports

apply_decision-KeepsReports :
    (d : Decision) (report : ModerationReport) (db : Db)
    → Leaves (KeepsReports db) (apply_decision d report db)
unfolding apply_hide apply_mute apply_ban
apply_decision-KeepsReports dismiss report db = refl
apply_decision-KeepsReports hide report db =
    Leaves-bind (KeepsReports db) (or_raise report.target_quiz_set_id validation_error 422) _
      λ id h.
        Leaves-bind (KeepsReports db)
          (or_raise (find (is_quiz id) db.quiz_sets) validation_error 404) _ λ quiz k. refl
apply_decision-KeepsReports mute report db =
    Leaves-bind (KeepsReports db)
      (require (is_some report.room_id || is_some report.target_user_id) validation_error 422) _
      λ u h. refl
apply_decision-KeepsReports ban report db =
    Leaves-bind (KeepsReports db) (or_raise report.target_user_id validation_error 422) _ λ id h.
      Leaves-bind (KeepsReports db) (or_raise (find (is_user id) db.users) validation_error 404) _
        λ user k. refl

abbrev reports_of : Result (ModerationReport × List (String × ℕ) × Db) → List ModerationReport
reports_of (ok (r, kicks, db)) = db.reports
reports_of (err e) = []

-- A decision that succeeded was on a pending report, and came to one of the four decisions.
pub decide-ok :
    (q : DecisionRequest) (db : Db) {r : ModerationReport} {kicks : List (String × ℕ)} {after : Db}
    → decide q db ≡ ok (r, kicks, after)
    → (d : Decision) × (report : ModerationReport) × (affected : Affected) × (applied : Db) × (find
          (is_report q.report_id)
          db.reports
        ≡ some report)
      × (is_pending report.status ≡ true)
      × (apply_decision d report db ≡ ok (affected, applied))
      × (after.reports
          ≡ update_where (is_report report.id) (reviewed q (status_of d)) applied.reports)
unfolding decide
decide-ok q db h =
    let (d, chosen, h1) = or_raise-ok (decision_of q.decision) validation_error 422 _ h in
    let (report, found, h2) =
      or_raise-ok (find (is_report q.report_id) db.reports) validation_error 404 _ h1 in
    let (pending, h3) = require-ok (is_pending report.status) validation_error 409 _ h2 in
    let (done, h4, applies) = bind-ok (apply_decision d report db) _ h3 in
    (d, report, done.0, done.1, found, pending, applies, sym (ap reports_of h4))

reviewed_closed :
    (q : DecisionRequest) (d : Decision) (r : ModerationReport)
    → is_pending (reviewed q (status_of d) r).status ≡ false
reviewed_closed q dismiss r = refl
reviewed_closed q hide r = refl
reviewed_closed q mute r = refl
reviewed_closed q ban r = refl

-- The report that was decided, in the tables after the decision.
pub decide-reviewed :
    (q : DecisionRequest) (db : Db) {r : ModerationReport} {kicks : List (String × ℕ)} {after : Db}
    → decide q db ≡ ok (r, kicks, after)
    → (report : ModerationReport) × (find (is_report q.report_id) after.reports ≡ some report)
      × (is_pending report.status ≡ false)
decide-reviewed q db {after = after} h =
    let (d, report, affected, applied, found, pending, applies, last) = decide-ok q db h in
    let kept : applied.reports ≡ db.reports =
      subst (Leaves (KeepsReports db)) applies (apply_decision-KeepsReports d report db) in
    let sound : is_report q.report_id report ≡ true =
      find_sound (is_report q.report_id) db.reports found in
    let its_id : report.id ≡ q.report_id = ground arith in
    let rows : after.reports
        ≡ update_where (is_report q.report_id) (reviewed q (status_of d)) db.reports =
      last
      ∙ ap (λ i. update_where (is_report i) (reviewed q (status_of d)) applied.reports) its_id
      ∙ ap (update_where (is_report q.report_id) (reviewed q (status_of d))) kept in
    (
      reviewed q (status_of d) report,
      ap (find (is_report q.report_id)) rows
          ∙ find-update_where (is_report q.report_id) (reviewed q (status_of d)) db.reports
              (λ r. refl) found,
      reviewed_closed q d report,
    )

-- Whoever decides a report that was decided gets an error, whatever the decision, and the tables
-- stay.
pub decide_again :
    (q q2 : DecisionRequest) (d : Decision) (db : Db) {r : ModerationReport}
    {kicks : List (String × ℕ)} {after : Db}
    → decide q db ≡ ok (r, kicks, after)
    → q2.report_id ≡ q.report_id
    → decision_of q2.decision ≡ some d
    → decide q2 after ≡ err (auth_error validation_error 409)
unfolding decide
decide_again q q2 d db {after = after} h same chosen =
    let (report, found, closed) = decide-reviewed q db h in
    rw (chosen, ap (λ i. find (is_report i) after.reports) same ∙ found, closed) refl
