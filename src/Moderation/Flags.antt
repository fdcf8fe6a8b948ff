-- ===== src/Moderation/Flags.antt =====
-- What the automatic flags leave in the tables.
use livequiz_platform.Prelude.{
  ℕ, suc, ◌+◌, ◌≡◌, refl, ap, String, List, [], ◌∷◌, length, arith, All,
}
use livequiz_platform.Store.{ModerationReport, pending, QuizSet, Question, Db}
use livequiz_platform.Moderation.{
  Flag, Target, Policy, flag_added, persist_flags, scan_fields, fields_to_scan,
  auto_flag_on_publish,
}

-- Reports and events are added one by one, and no other table changes.
abbrev pub Adds : ℕ → Db → Db → Type 0
Adds n before after =
    (length after.reports ≡ n + length before.reports)
    × (length after.outbox ≡ n + length before.outbox)
    × (after ≡ record before { reports = after.reports; outbox = after.outbox })

abbrev pub IsNew : Target → ModerationReport → Type 0
IsNew target r = (r.status ≡ pending) × (r.target_quiz_set_id ≡ target.target_quiz_set_id)

persist_flags-Adds :
    (next_id : ℕ → ℕ) (now : ℕ) (target : Target) (source : String) (k : ℕ) (flags : List Flag)
    (db : Db)
    → Adds (length flags) db (persist_flags next_id now target source k flags db).1
unfolding persist_flags
persist_flags-Adds next_id now target source k [] db = (omega arith, omega arith, refl)
persist_flags-Adds next_id now target source k (f ∷ flags) db =
    let rest =
      persist_flags-Adds next_id now target source (suc k) flags
        (flag_added next_id now target source k f db) in
    (omega (arith, rest.0), omega (arith, rest.1), rest.2)

persist_flags-IsNew :
    (next_id : ℕ → ℕ) (now : ℕ) (target : Target) (source : String) (k : ℕ) (flags : List Flag)
    (db : Db)
    → All (IsNew target) (persist_flags next_id now target source k flags db).0
      × (length (persist_flags next_id now target source k flags db).0 ≡ length flags)
unfolding persist_flags
persist_flags-IsNew next_id now target source k [] db = (tt, refl)
persist_flags-IsNew next_id now target source k (f ∷ flags) db =
    let rest =
      persist_flags-IsNew next_id now target source (suc k) flags
        (flag_added next_id now target source k f db) in
    (((refl, refl), rest.0), ap suc rest.1)

-- The scan of a quiz adds one pending report on it and one event for each flag, and changes no
-- other table.
pub auto_flag_on_publish-Adds :
    (lower : String → String) (policy : Policy) (next_id : ℕ → ℕ) (now : ℕ) (quiz : QuizSet)
    (questions : List Question) (db : Db)
    → Adds
        (length (scan_fields lower policy (fields_to_scan quiz questions)))
        db
        (auto_flag_on_publish lower policy next_id now quiz questions db).1
unfolding auto_flag_on_publish
auto_flag_on_publish-Adds lower policy next_id now quiz questions db =
    persist_flags-Adds next_id now _ "quiz.publish" 0
      (scan_fields lower policy (fields_to_scan quiz questions)) db
