-- ===== src/Quizzes/Visible.antt =====
-- Who sees a quiz: the listing and the reading of one quiz agree.
use livequiz_platform.Prelude.{
  ℕ, ◌≡◌, refl, String, Bool, true, false, not, ◌&&◌, ◌||◌, Option, some, arith, Bool-cases, inl,
  inr,
}
use livequiz_platform.Errors.{ok, err, auth_error, forbidden}
use livequiz_platform.Store.{QuizSet, QuizVisibility, private_quiz, unlisted, public_quiz, Db}
use livequiz_platform.Quizzes.Edit.{quiz_set_by_id}
use livequiz_platform.Quizzes.Catalog.{
  is_private, is_public, is_owner, get_quiz_for_viewer, ListFilter, is_listed,
}

public_not_private : (v : QuizVisibility) → is_public v ≡ true → is_private v ≡ false
public_not_private private_quiz h = cc
public_not_private unlisted h = refl
public_not_private public_quiz h = refl

-- What is listed for another than its owner is published and not private.
listed_open :
    (v : QuizVisibility) (published own rest : Bool)
    → ((is_public v && published || own) && rest) ≡ true
    → own ≡ false
    → (published && not (is_private v)) ≡ true
listed_open private_quiz published own rest h o = ground arith
listed_open unlisted published own rest h o = ground arith
listed_open public_quiz published own rest h o = ground arith

-- A viewer may read every quiz that the listing shows, and reads it as an owner exactly if it is
-- the viewer's own.
pub get_quiz_for_viewer-listed :
    (similar : String → String → Bool) (viewer : Option ℕ) (f : ListFilter) (id : ℕ)
    (quiz : QuizSet) (db : Db)
    → quiz_set_by_id id db ≡ some quiz
    → is_listed similar viewer f db quiz ≡ true
    → get_quiz_for_viewer viewer id db ≡ ok (quiz, is_owner viewer quiz)
unfolding get_quiz_for_viewer
get_quiz_for_viewer-listed similar viewer f id quiz db found listed =
    rw found (elim (Bool-cases (is_owner viewer quiz)) [
      | inl own ↦ rw own refl
      | inr other ↦
          rw
            (
              other,
              listed_open quiz.visibility quiz.is_published (is_owner viewer quiz) _ listed other,
            )
            refl
    ])

-- Who is not the owner of a quiz that is private or not published may not read it, and no listing
-- shows it.
pub get_quiz_for_viewer-refuses :
    (similar : String → String → Bool) (viewer : Option ℕ) (f : ListFilter) (id : ℕ)
    (quiz : QuizSet) (db : Db)
    → quiz_set_by_id id db ≡ some quiz
    → is_owner viewer quiz ≡ false
    → (quiz.is_published && not (is_private quiz.visibility)) ≡ false
    → (get_quiz_for_viewer viewer id db ≡ err (auth_error forbidden 403))
      × (is_listed similar viewer f db quiz ≡ false)
unfolding get_quiz_for_viewer
get_quiz_for_viewer-refuses similar viewer f id quiz db found other closed = (
  rw (found, other, closed) refl,
  elim (Bool-cases (is_listed similar viewer f db quiz)) [
    | inr e ↦ e
    | inl e ↦
        let shown =
          listed_open quiz.visibility quiz.is_published (is_owner viewer quiz) _ e other in
        cc
  ],
)
