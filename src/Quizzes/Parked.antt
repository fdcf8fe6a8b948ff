-- ===== src/Quizzes/Parked.antt =====
-- The rows of a quiz while one question is moved by `_move_question_to`: parked, renumbered, placed.
use mathlib.Core.Path.{subst}
use livequiz_platform.Prelude.{
  ℕ, suc, ◌≤◌, ◌<◌, ◌≡◌, refl, ap, sym, ◌∙◌, Bool, true, false, not, ◌&&◌, ◌==◌, if◌then◌else◌,
  arith, Bool-cases, inl, inr, ◌⊎◌, ==_refl,
}
use livequiz_platform.Store.{Question}
use livequiz_platform.Quizzes.Unique.{rewritten, rewritten_on, rewritten_off, Clear}
use livequiz_platform.Quizzes.Positions.{
  park_position, same_position, place, in_range, between, delta, is_question,
}
use livequiz_platform.Quizzes.TwoPhase.{Apart, UpTo, Settled}

-- A row is the question, or apart from it.
abbrev pub Kin : Question → Question → Type 0
Kin question x = (x ≡ question) ⊎ Apart question x

abbrev pub Beside : Question → Question → Type 0
Beside question x = (is_question question.id x ≡ false) × (same_position question x ≡ false)

Kin-cases :
    (question x : Question)
    → Kin question x
    → (is_question question.id x ≡ true) ⊎ Beside question x
Kin-cases question x (inl e) = inl (rw e ground arith)
Kin-cases question x (inr (i, s)) = inr (ground arith, s)

module _ (question : Question) (new : ℕ) where
  abbrev pub is_sibling : Question → Bool
  is_sibling x =
      not (is_question question.id x)
      && in_range question.quiz_set_id (between question.position new) x

  abbrev pub moved : Question → Question
  moved x =
      if x.id == question.id
      then place (λ _. new) x
      else (if x.quiz_set_id == question.quiz_set_id && between question.position new x.position
          then place (delta question.position new) x
          else x)

  abbrev pub parked : Question → Question
  parked x = rewritten (is_question question.id) (place (λ _. park_position)) x

  abbrev pub sibling_moved : Question → Question
  sibling_moved x = rewritten is_sibling (place (delta question.position new)) x

  module _ (n : ℕ) (low : suc n < park_position) where
    pub park-Clear :
        (x y : Question)
        → UpTo n x
        → UpTo n y
        → Apart x y
        → Clear same_position (is_question question.id) (place (λ _. park_position)) x y
    park-Clear x y hx hy (i, s) e = (ground arith, ground arith)

    pub parked-Apart :
        (x y : Question) → UpTo n x → UpTo n y → Apart x y → Apart (parked x) (parked y)
    parked-Apart x y hx hy (i, s) = (ground arith, ground arith)

    pub parked-UpTo : (x : Question) → UpTo n x → UpTo park_position (parked x)
    parked-UpTo x hx = ground arith

    parked_off : (x : Question) → is_question question.id x ≡ false → parked x ≡ x
    parked_off x e = rewritten_off (is_question question.id) (place (λ _. park_position)) x e

    parked_on :
        (x : Question)
        → is_question question.id x ≡ true
        → sibling_moved (parked x) ≡ place (λ _. park_position) x
    parked_on x e =
        ap sibling_moved (rewritten_on (is_question question.id) (place (λ _. park_position)) x e)
        ∙ rewritten_off is_sibling (place (delta question.position new))
            (place (λ _. park_position) x) (ground arith)

    settled-Beside :
        (x y : Question)
        → UpTo n x
        → UpTo n y
        → Kin question y
        → Apart x y
        → question.position ≤ n
        → Beside question x
        → is_sibling x ≡ true
        → same_position (place (delta question.position new) x) (sibling_moved (parked y)) ≡ false
    settled-Beside x y hx hy ky (i, s) le (bi, bs) e = elim (Kin-cases question y ky) [
      | inl ey ↦
          subst (λ z. same_position (place (delta question.position new) x) z ≡ false)
            (sym (parked_on y ey)) (ground arith)
      | inr (yi, ys) ↦
          subst
            (λ z. same_position (place (delta question.position new) x) (sibling_moved z) ≡ false)
            (sym (parked_off y yi)) (ground arith)
    ]

    pub parked-Settled :
        (x y : Question)
        → UpTo n x × Kin question x
        → UpTo n y × Kin question y
        → Apart x y
        → question.position ≤ n
        → Settled is_sibling (delta question.position new) (parked x) (parked y)
    parked-Settled x y (hx, kx) (hy, ky) a le = elim (Kin-cases question x kx) [
      | inl ex ↦ λ e. ground arith
      | inr b ↦
          subst
            (λ z.
              is_sibling z ≡ true
              → same_position (place (delta question.position new) z) (sibling_moved (parked y))
                ≡ false)
            (sym (parked_off x b.0)) (settled-Beside x y hx hy ky a le b)
    ]

    target-Beside :
        (y : Question)
        → UpTo n y
        → Beside question y
        → (new == question.position) ≡ false
        → same_position (place (λ _. new) question) (sibling_moved y) ≡ false
    target-Beside y hy (yi, ys) ne = ground arith

    Beside-stays :
        (y : Question) → Beside question y → is_question question.id (sibling_moved y) ≡ false
    Beside-stays y (yi, ys) = ground arith

    target_own :
        (y : Question)
        → UpTo n y
        → Beside question y
        → (new == question.position) ≡ false
        → Clear same_position
            (is_question question.id)
            (place (λ _. new))
            (place (λ _. park_position) question)
            (sibling_moved y)
    target_own y hy b ne e = (
      target-Beside y hy b ne,
      rw
          (rewritten_off (is_question question.id) (place (λ _. new)) (sibling_moved y)
            (Beside-stays y b))
          (target-Beside y hy b ne),
    )

    pub target-Clear :
        (x y : Question)
        → UpTo n y
        → Kin question x
        → Apart x y
        → (new == question.position) ≡ false
        → Clear same_position
            (is_question question.id)
            (place (λ _. new))
            (sibling_moved (parked x))
            (sibling_moved (parked y))
    target-Clear x y hy (inl ex) a ne =
        let away : Apart question y = subst (λ z. Apart z y) ex a in
        let b : Beside question y = (ground arith, away.1) in
        let own : sibling_moved (parked x) ≡ place (λ _. park_position) question =
          ap (λ z. sibling_moved (parked z)) ex ∙ parked_on question (==_refl question.id) in
        subst
          (λ z.
            Clear same_position (is_question question.id) (place (λ _. new)) z
              (sibling_moved (parked y)))
          (sym own)
          (subst
            (λ z.
              Clear same_position (is_question question.id) (place (λ _. new))
                (place (λ _. park_position) question) (sibling_moved z))
            (sym (parked_off y b.0)) (target_own y hy b ne))
    target-Clear x y hy (inr (i, s)) a ne = λ e.
        let b : Beside question x = (ground arith, s) in
        let stays : is_question question.id (sibling_moved (parked x)) ≡ false =
          subst (λ z. is_question question.id (sibling_moved z) ≡ false) (sym (parked_off x b.0))
            (Beside-stays x b) in
        cc

    moved_on : (x : Question) → (x.id == question.id) ≡ true → place (λ _. new) x ≡ moved x
    moved_on x e = rw e refl

    moved_off :
        (x : Question)
        → UpTo n x
        → (x.id == question.id) ≡ false
        → rewritten (is_question question.id) (place (λ _. new)) (sibling_moved x) ≡ moved x
    moved_off x hx e =
        let same : is_sibling x
            ≡ (x.quiz_set_id == question.quiz_set_id && between question.position new x.position) =
          ground arith in
        rewritten_off (is_question question.id) (place (λ _. new)) (sibling_moved x) (ground arith)
        ∙ subst (λ b. (if b then place (delta question.position new) x else x) ≡ moved x) (sym same)
            (rw e refl)

    pub moved_row :
        (x : Question)
        → UpTo n x
        → rewritten (is_question question.id) (place (λ _. new)) (sibling_moved (parked x))
          ≡ moved x
    moved_row x hx = elim (Bool-cases (x.id == question.id)) [
      | inl e ↦
          ap (rewritten (is_question question.id) (place (λ _. new))) (parked_on x e)
          ∙ rewritten_on (is_question question.id) (place (λ _. new)) (place (λ _. park_position) x)
              e
          ∙ moved_on x e
      | inr e ↦
          ap (λ z. rewritten (is_question question.id) (place (λ _. new)) (sibling_moved z))
            (parked_off x e)
          ∙ moved_off x hx e
    ]
