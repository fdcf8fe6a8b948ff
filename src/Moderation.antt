-- ===== src/Moderation.antt =====
-- Content moderation: the scan of texts and the reports of backend/app/services/moderation_service.py.
-- `str.lower` and the compiled patterns of the policy are parameters; a pattern gives the text that
-- it matches first. The ids that the generator gives are `next_id 0`, `next_id 1` and so on.
pub mod Decide
pub mod Flags
pub mod Once
pub mod Hidden
pub mod Muted
pub mod Banned
use text.Mathlib.Text.{find?}
use text.Mathlib.TextBridge.{to_list, of_list}
use livequiz_platform.Prelude.{
  ℕ, suc, ◌+◌, ◌*◌, String, Bool, true, false, Option, none, some, List, [], ◌∷◌, ◌++◌, is_some,
  take, str_eq, ◌==◌, if◌then◌else◌,
}
use livequiz_platform.Errors.{Result, ok, ◌>>=◌, ◌>>◌, require, validation_error}
use livequiz_platform.Store.{
  Context, nickname_field, quiz_title, quiz_description, question_body, option_body, ReportDetails,
  flagged, no_details, written, ModerationReport, pending, QuizSet, Question, AnswerOption, Room,
  Payload, Db,
}
use livequiz_platform.Match.Queries.{register_event}

-- `_Policy`: the words are in lower case and not empty.
pub record Policy : Type 0 where
  pub words : List String
  pub patterns : List (String × (String → Option String))

pub record Flag : Type 0 where
  pub reason : String
  pub context : Context
  pub matched : String
  pub details : List (String × String)

abbrev pub is_within : String → String → Bool
is_within word text = is_some (find? text word)

-- `s[:n]`
abbrev pub truncate : ℕ → String → String
truncate n s = of_list (take n (to_list s))

unfoldable pub word_flags : Context → String → List String → List Flag
word_flags context lowered [] = []
word_flags context lowered (word ∷ words) =
    let rest = word_flags context lowered words in
    if str_eq word ""
    then rest
    else (if is_within word lowered
        then record {
          reason = "banned_word";
          context = context;
          matched = word;
          details = ("strategy", "substring") ∷ [];
        }
          ∷ rest
        else rest)

unfoldable pub pattern_flags :
    Context → String → List (String × (String → Option String)) → List Flag
pattern_flags context text [] = []
pattern_flags context text ((name, search_in) ∷ patterns) =
    let rest = pattern_flags context text patterns in
    elim (search_in text) [
      | none ↦ rest
      | some matched ↦
          record {
            reason = "banned_pattern";
            context = context;
            matched = matched;
            details = ("pattern", name) ∷ ("strategy", "regex") ∷ [];
          }
          ∷ rest
    ]

abbrev pub option_fields : ℕ → List AnswerOption → List (Context × Option String)
option_fields position [] = []
option_fields position (o ∷ options) =
    (option_body position o.position, some o.body) ∷ option_fields position options

abbrev pub question_fields : List Question → List (Context × Option String)
question_fields [] = []
question_fields (q ∷ questions) =
    ((question_body q.position, some q.body) ∷ option_fields q.position q.options)
    ++ question_fields questions

-- The texts of a quiz with its questions.
abbrev pub fields_to_scan : QuizSet → List Question → List (Context × Option String)
fields_to_scan quiz questions =
    (quiz_title, some quiz.title) ∷ (quiz_description, quiz.description) ∷ question_fields questions

-- What a report is about, and who reports.
pub record Target : Type 0 where
  pub reporter_user_id : Option ℕ
  pub room_id : Option ℕ
  pub target_user_id : Option ℕ
  pub target_quiz_set_id : Option ℕ

abbrev pub new_report : ℕ → Target → String → ReportDetails → ModerationReport
new_report id target reason details = record {
  id = id;
  reporter_user_id = target.reporter_user_id;
  room_id = target.room_id;
  target_user_id = target.target_user_id;
  target_quiz_set_id = target.target_quiz_set_id;
  reason = truncate 120 reason;
  details = details;
  status = pending;
  reviewed_by = none;
  reviewed_at = none;
}

-- `str(id) if id else None`
abbrev pub id_or_null : Option ℕ → Option ℕ
id_or_null none = none
id_or_null (some id) = if id == 0 then none else some id

abbrev pub flag_report : (next_id : ℕ → ℕ) → Target → String → ℕ → Flag → ModerationReport
flag_report next_id target source k f =
    new_report (next_id (2 * k)) target f.reason (flagged f.context f.matched source f.details)

-- The tables with the report and the event of the k-th flag.
abbrev pub flag_added :
    (next_id : ℕ → ℕ) → (now : ℕ) → Target → (source : String) → ℕ → Flag → Db → Db
flag_added next_id now target source k f db =
    register_event (next_id (2 * k + 1)) "ContentFlagged" "moderation" (next_id (2 * k))
      (Payload.content_flagged (next_id (2 * k)) f.reason f.context f.matched source
        (id_or_null target.target_user_id) (id_or_null target.target_quiz_set_id)
        (id_or_null target.room_id))
      now (record db { reports = flag_report next_id target source k f ∷ db.reports })

-- One report and its event for each flag, in order, from the k-th flag on.
unfoldable pub persist_flags :
    (next_id : ℕ → ℕ)
    → (now : ℕ) → Target
    → (source : String) → ℕ
    → List Flag
    → Db
    → List ModerationReport × Db
persist_flags next_id now target source k [] db = ([], db)
persist_flags next_id now target source k (f ∷ flags) db =
    let rest =
      persist_flags next_id now target source (suc k) flags
        (flag_added next_id now target source k f db) in
    (flag_report next_id target source k f ∷ rest.0, rest.1)

module _ (lower : String → String) (policy : Policy) where
  unfoldable pub scan_text : Option String → Context → List Flag
  unfolding word_flags pattern_flags
  scan_text none context = []
  scan_text (some text) context =
      if str_eq text ""
      then []
      else word_flags context (lower text) policy.words
        ++ pattern_flags context text policy.patterns

  abbrev pub scan_fields : List (Context × Option String) → List Flag
  scan_fields [] = []
  scan_fields ((context, text) ∷ fields) = scan_text text context ++ scan_fields fields

  unfoldable pub auto_flag_on_publish :
      (next_id : ℕ → ℕ) → (now : ℕ) → QuizSet → List Question → Db → List ModerationReport × Db
  unfolding persist_flags scan_text
  auto_flag_on_publish next_id now quiz questions db =
      persist_flags next_id now
        (record {
          reporter_user_id = none;
          room_id = none;
          target_user_id = none;
          target_quiz_set_id = some quiz.id;
        })
        "quiz.publish" 0 (scan_fields (fields_to_scan quiz questions)) db

  unfoldable pub auto_flag_on_join :
      (next_id : ℕ → ℕ) → (now : ℕ) → Room → String → Option ℕ → Db → List ModerationReport × Db
  unfolding persist_flags scan_text
  auto_flag_on_join next_id now room nickname user_id db =
      persist_flags next_id now
        (record {
          reporter_user_id = none;
          room_id = some room.id;
          target_user_id = user_id;
          target_quiz_set_id = none;
        })
        "room.join" 0 (scan_text (some nickname) nickname_field) db

abbrev pub count_set : List (Option ℕ) → ℕ
count_set [] = 0
count_set (none ∷ targets) = count_set targets
count_set (some id ∷ targets) = suc (count_set targets)

abbrev pub details_of : Option String → ReportDetails
details_of none = no_details
details_of (some text) = written text

-- `create_report`
unfoldable pub create_report :
    (id event_id now : ℕ) → Target → String → Option String → Db → Result (ModerationReport × Db)
create_report id event_id now target reason details db = do
  require (count_set (target.room_id ∷ target.target_user_id ∷ target.target_quiz_set_id ∷ []) == 1)
      validation_error 422
  let report = new_report id target reason (details_of details)
  ok (
    report,
    register_event event_id "ContentReported" "moderation" report.id
        (Payload.content_reported report.id (id_or_null target.reporter_user_id)
          (id_or_null target.room_id) (id_or_null target.target_user_id)
          (id_or_null target.target_quiz_set_id) reason)
        now (record db { reports = report ∷ db.reports }),
  )
