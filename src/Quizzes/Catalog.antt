-- ===== src/Quizzes/Catalog.antt =====
-- Quiz sets and who sees them: `create_quiz_set`, `update_quiz_set`, `get_quiz_for_viewer` and the
-- listing of services/quiz_service.py, with the queries of repositories/quiz_repo.py. `strip` and
-- `lower` of a tag's name, and the trigram match of a title, are parameters.
use livequiz_platform.Prelude.{
  ℕ, suc, ◌+◌, String, Bool, true, false, not, ◌&&◌, ◌||◌, Option, none, some, List, [], ◌∷◌, ◌++◌,
  any, find, select, update_where, str_eq, ◌==◌, if◌then◌else◌,
}
use livequiz_platform.Errors.{
  Result, ok, ◌>>=◌, ◌>>◌, require, or_raise, validation_error, forbidden,
}
use livequiz_platform.Store.{QuizSet, QuizVisibility, private_quiz, public_quiz, QuizTag, Db}
use livequiz_platform.Quizzes.Edit.{quiz_set_by_id, load_owned_quiz, or_keep, or_keep_some}

abbrev pub is_private : QuizVisibility → Bool
is_private private_quiz = true
is_private _ = false

abbrev pub is_public : QuizVisibility → Bool
is_public public_quiz = true
is_public _ = false

abbrev pub tag_by_name : String → List QuizTag → Option QuizTag
tag_by_name name tags = find (λ (t : QuizTag). str_eq t.name name) tags

-- `upsert_tag`: the row that has the name, or a new one.
unfoldable pub upsert_tag : ℕ → String → List QuizTag → QuizTag × List QuizTag
upsert_tag id name tags = elim (tag_by_name name tags) [
  | some tag ↦ (tag, tags)
  | none ↦ (record { id = id; name = name }, record { id = id; name = name } ∷ tags)
]

abbrev pub seen_name : String → String × ℕ → Bool
seen_name name (n, id) = str_eq n name

abbrev pub ids_of : List (String × ℕ) → List ℕ
ids_of [] = []
ids_of ((n, id) ∷ seen) = id ∷ ids_of seen

-- `_resolve_tags`: the loop over the names, with the dictionary `seen` in order of insertion. The
-- k-th id of the generator goes to the k-th name that is looked up.
unfoldable pub resolve_tags :
    (normalize : String → String)
    → (next_id : ℕ → ℕ) → ℕ
    → List (String × ℕ)
    → List String
    → List QuizTag
    → List ℕ × List QuizTag
unfolding upsert_tag
resolve_tags normalize next_id k seen [] tags = (ids_of seen, tags)
resolve_tags normalize next_id k seen (raw ∷ names) tags =
    let name = normalize raw in
    let skips = str_eq name "" || any (seen_name name) seen in
    let upserted = upsert_tag (next_id k) name tags in
    resolve_tags normalize next_id (if skips then k else suc k)
      (if skips then seen else seen ++ ((name, upserted.0.id) ∷ [])) names
      (if skips then tags else upserted.1)

abbrev pub tag_links : ℕ → List ℕ → List (ℕ × ℕ)
tag_links quiz_set_id [] = []
tag_links quiz_set_id (id ∷ ids) = (quiz_set_id, id) ∷ tag_links quiz_set_id ids

abbrev pub links_other : ℕ → ℕ × ℕ → Bool
links_other quiz_set_id (q, t) = not (q == quiz_set_id)

-- `replace_quiz_tags`
abbrev pub replace_quiz_tags : ℕ → List ℕ → List (ℕ × ℕ) → List (ℕ × ℕ)
replace_quiz_tags quiz_set_id ids links =
    select (links_other quiz_set_id) links ++ tag_links quiz_set_id ids

-- The tags of a quiz, resolved and stored.
abbrev pub set_tags : (normalize : String → String) → (next_id : ℕ → ℕ) → ℕ → List String → Db → Db
set_tags normalize next_id quiz_set_id names db =
    let resolved = resolve_tags normalize next_id 0 [] names db.quiz_tags in
    record db {
      quiz_tags = resolved.1;
      quiz_set_tags = replace_quiz_tags quiz_set_id resolved.0 db.quiz_set_tags;
    }

pub record QuizSetCreate : Type 0 where
  pub id : ℕ
  pub title : String
  pub description : Option String
  pub visibility : QuizVisibility
  pub tags : List String

abbrev pub new_quiz_set : ℕ → QuizSetCreate → QuizSet
new_quiz_set owner p = record {
  id = p.id;
  owner_id = owner;
  title = p.title;
  description = p.description;
  visibility = p.visibility;
  is_published = false;
  version = 1;
}

abbrev pub set_tags_if_any :
    (normalize : String → String) → (next_id : ℕ → ℕ) → ℕ → List String → Db → Db
set_tags_if_any normalize next_id id [] db = db
set_tags_if_any normalize next_id id (t ∷ tags) db = set_tags normalize next_id id (t ∷ tags) db

unfoldable pub create_quiz_set :
    (normalize : String → String) → (next_id : ℕ → ℕ) → ℕ → QuizSetCreate → Db → QuizSet × Db
unfolding resolve_tags
create_quiz_set normalize next_id owner p db = (
  new_quiz_set owner p,
  set_tags_if_any normalize next_id p.id p.tags
      (record db { quiz_sets = new_quiz_set owner p ∷ db.quiz_sets }),
)

pub record QuizSetUpdate : Type 0 where
  pub title : Option String
  pub description : Option String
  pub visibility : Option QuizVisibility
  pub tags : Option (List String)

-- The fields that the payload sets, and the next version.
abbrev pub updated : QuizSetUpdate → QuizSet → QuizSet
updated p quiz = record quiz {
  title = or_keep p.title quiz.title;
  description = or_keep_some p.description quiz.description;
  visibility = or_keep p.visibility quiz.visibility;
  version = quiz.version + 1;
}

abbrev pub set_tags_if_given :
    (normalize : String → String) → (next_id : ℕ → ℕ) → ℕ → Option (List String) → Db → Db
set_tags_if_given normalize next_id id none db = db
set_tags_if_given normalize next_id id (some tags) db = set_tags normalize next_id id tags db

abbrev pub is_set : ℕ → QuizSet → Bool
is_set id s = s.id == id

unfoldable pub update_quiz_set :
    (normalize : String → String)
    → (next_id : ℕ → ℕ) → (owner quiz_set_id : ℕ) → QuizSetUpdate
    → Db
    → Result (QuizSet × Db)
unfolding resolve_tags
update_quiz_set normalize next_id owner quiz_set_id p db = do
  quiz ← load_owned_quiz owner quiz_set_id db
  ok (
    updated p quiz,
    set_tags_if_given normalize next_id quiz_set_id p.tags
        (record db { quiz_sets = update_where (is_set quiz_set_id) (updated p) db.quiz_sets }),
  )

-- `viewer is not None and quiz.owner_id == viewer.id`
abbrev pub is_owner : Option ℕ → QuizSet → Bool
is_owner none quiz = false
is_owner (some viewer) quiz = quiz.owner_id == viewer

abbrev pub shown_to : Option ℕ → QuizSet → Result (QuizSet × Bool)
shown_to viewer quiz =
    if is_owner viewer quiz
    then ok (quiz, true)
    else require (quiz.is_published && not (is_private quiz.visibility)) forbidden 403
      >> ok (quiz, false)

unfoldable pub get_quiz_for_viewer : Option ℕ → ℕ → Db → Result (QuizSet × Bool)
get_quiz_for_viewer viewer quiz_set_id db = do
  quiz ← or_raise (quiz_set_by_id quiz_set_id db) validation_error 404
  shown_to viewer quiz

-- The filters of a listing: a text, an owner and the name of a tag.
pub record ListFilter : Type 0 where
  pub q : Option String
  pub owner_id : Option ℕ
  pub tag : Option String

abbrev pub is_tagged : String → QuizSet → Db → Bool
is_tagged name quiz db =
    any
      (λ (t : QuizTag).
        str_eq t.name name && any (λ (l : ℕ × ℕ). l.0 == quiz.id && l.1 == t.id) db.quiz_set_tags)
      db.quiz_tags

abbrev pub passes : {A : Type 0} → (A → Bool) → Option A → Bool
passes test none = true
passes test (some a) = test a

abbrev pub passes_text : (String → Bool) → Option String → Bool
passes_text test none = true
passes_text test (some a) = if str_eq a "" then true else test a

-- The WHERE clauses of `list_for_viewer`.
abbrev pub is_listed :
    (similar : String → String → Bool) → Option ℕ → ListFilter → Db → QuizSet → Bool
is_listed similar viewer f db quiz =
    (is_public quiz.visibility && quiz.is_published || is_owner viewer quiz)
    && (passes_text (similar quiz.title) f.q
        && (passes (λ o. quiz.owner_id == o) f.owner_id
            && passes_text (λ name. is_tagged name quiz db) f.tag))
