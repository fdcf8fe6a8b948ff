-- ===== src/Quizzes/Unique.antt =====
-- An UPDATE under a unique constraint that is not deferrable: PostgreSQL checks each row as it is
-- written, against the rows as they are at that moment. The order of the list is the order in
-- which the statement reaches the rows, so a theorem on every list is one on every order.
use livequiz_platform.Prelude.{
  Bool, true, false, ◌&&◌, Option, none, some, List, [], ◌∷◌, ◌++◌, ◌≡◌, refl, ap, sym, any, All,
  update_where, map, if◌then◌else◌, arith, inl, inr, Bool-cases, ◌∙◌,
}
use mathlib.Core.List.{append-nil}

module _ {ℓ} {A : Type ℓ} where
  -- A row as the statement leaves it.
  abbrev pub rewritten : (A → Bool) → (A → A) → A → A
  rewritten p f x = if p x then f x else x

  pub rewritten_on : (p : A → Bool) (f : A → A) (x : A) → p x ≡ true → rewritten p f x ≡ f x
  rewritten_on p f x e = rw e refl

  pub rewritten_off : (p : A → Bool) (f : A → A) (x : A) → p x ≡ false → rewritten p f x ≡ x
  rewritten_off p f x e = rw e refl

  -- The rows before `rest` are written; a row that would clash raises.
  unfoldable pub update_each :
      (A → A → Bool) → (A → Bool) → (A → A) → List A → List A → Option (List A)
  update_each clash p f done [] = some done
  update_each clash p f done (x ∷ rest) =
      let next = update_each clash p f (done ++ (rewritten p f x ∷ [])) rest in
      if p x && any (clash (f x)) (done ++ rest) then none else next

  -- A relation of every two rows.
  abbrev pub Pairwise {κ} : (A → A → Type κ) → List A → Type κ
  Pairwise R [] = Unit
  Pairwise R (x ∷ xs) = All (R x) xs × Pairwise R xs

  pub append_one :
      (done : List A) (y : A) (xs : List A) → (done ++ (y ∷ [])) ++ xs ≡ done ++ (y ∷ xs)
  append_one [] y xs = refl
  append_one (d ∷ done) y xs = ap (λ l. d ∷ l) (append_one done y xs)

  pub any-append :
      (t : A → Bool) (xs ys : List A)
      → any t xs ≡ false
      → any t ys ≡ false
      → any t (xs ++ ys) ≡ false
  any-append t [] ys h k = k
  any-append t (x ∷ xs) ys h k = ground (arith, any-append t xs ys)

  pub any_none : (t : A → Bool) (xs : List A) → All (λ x. t x ≡ false) xs → any t xs ≡ false
  any_none t [] h = refl
  any_none t (x ∷ xs) h = ground (arith, any_none t xs h.1, h.0)

  pub All-map {κ μ} :
      {P : A → Type κ} {Q : A → Type μ} (xs : List A) → ((x : A) → P x → Q x) → All P xs → All Q xs
  All-map [] f h = tt
  All-map (x ∷ xs) f h = (f x h.0, All-map xs f h.1)

  pub All-zip {κ μ ν} :
      {P : A → Type κ} {Q : A → Type μ} {R : A → Type ν} (xs : List A)
      → ((x : A) → P x → Q x → R x)
      → All P xs
      → All Q xs
      → All R xs
  All-zip [] f h k = tt
  All-zip (x ∷ xs) f h k = (f x h.0 k.0, All-zip xs f h.1 k.1)

  -- What holds of every two rows, and of each, gives what holds of every two rewritten ones.
  pub Pairwise-update {κ μ ν} :
      {R : A → A → Type κ} {F : A → Type μ} (S : A → A → Type ν) (p : A → Bool) (f : A → A)
      (xs : List A)
      → ((x y : A) → F x → F y → R x y → S (rewritten p f x) (rewritten p f y))
      → All F xs
      → Pairwise R xs
      → Pairwise S (update_where p f xs)
  Pairwise-update S p f [] h a r = tt
  Pairwise-update {R = R} {F = F} S p f (x ∷ xs) h a r =
      (row xs (All-zip xs (λ y. h x y a.0) a.1 r.0), Pairwise-update S p f xs h a.1 r.1)
    where
      row :
          (ys : List A)
          → All (λ y. S (rewritten p f x) (rewritten p f y)) ys
          → All (S (rewritten p f x)) (update_where p f ys)
      row [] k = tt
      row (y ∷ ys) k = (k.0, row ys k.1)

  pub Pairwise-map {κ μ ν} :
      {R : A → A → Type κ} {F : A → Type μ} {S : A → A → Type ν} (xs : List A)
      → ((x y : A) → F x → F y → R x y → S x y)
      → All F xs
      → Pairwise R xs
      → Pairwise S xs
  Pairwise-map [] h a r = tt
  Pairwise-map (x ∷ xs) h a r = (All-zip xs (λ y. h x y a.0) a.1 r.0, Pairwise-map xs h a.1 r.1)

  pub All-update_where {κ μ} :
      {P : A → Type κ} (Q : A → Type μ) (p : A → Bool) (f : A → A) (xs : List A)
      → ((x : A) → P x → Q (rewritten p f x))
      → All P xs
      → All Q (update_where p f xs)
  All-update_where Q p f [] g h = tt
  All-update_where Q p f (x ∷ xs) g h = (g x h.0, All-update_where Q p f xs g h.1)

  pub All-mapped {κ μ} :
      {P : A → Type κ} (Q : A → Type μ) (r : A → A) (xs : List A)
      → ((x : A) → P x → Q (r x))
      → All P xs
      → All Q (map r xs)
  All-mapped Q r [] g h = tt
  All-mapped Q r (x ∷ xs) g h = (g x h.0, All-mapped Q r xs g h.1)

  pub Pairwise-mapped {κ μ} :
      {R : A → A → Type κ} (S : A → A → Type μ) (r : A → A) (xs : List A)
      → ((x y : A) → R x y → S (r x) (r y))
      → Pairwise R xs
      → Pairwise S (map r xs)
  Pairwise-mapped S r [] g h = tt
  Pairwise-mapped S r (x ∷ xs) g h =
      (All-mapped (S (r x)) r xs (g x) h.0, Pairwise-mapped S r xs g h.1)

module _ {ℓ} {A : Type ℓ} (clash : A → A → Bool) (p : A → Bool) (f : A → A) where
  -- Writing the first row clashes with the second neither before nor after that is written.
  abbrev pub Clear : A → A → Type 0
  Clear x y = p x ≡ true → (clash (f x) y ≡ false) × (clash (f x) (rewritten p f y) ≡ false)

  abbrev pub BothClear : A → A → Type 0
  BothClear x y = Clear x y × Clear y x

  abbrev pub Ahead : List A → A → Type 0
  Ahead done x = p x ≡ true → any (clash (f x)) done ≡ false

  no_clash :
      (done rest : List A) (x : A)
      → Ahead done x
      → All (BothClear x) rest
      → (p x && any (clash (f x)) (done ++ rest)) ≡ false
  no_clash done rest x h r = elim (Bool-cases (p x)) [
    | inl e ↦ rw e (
        any-append (clash (f x)) done rest (h e)
          (any_none (clash (f x)) rest (All-map rest (λ y c. (c.0 e).0) r)))
    | inr e ↦ rw e refl
  ]

  Ahead-one :
      (done rest : List A) (x : A)
      → All (Ahead done) rest
      → All (BothClear x) rest
      → All (Ahead (done ++ (rewritten p f x ∷ []))) rest
  Ahead-one done rest x h r =
      All-zip rest
        (λ y k c e.
          any-append (clash (f y)) done (rewritten p f x ∷ []) (k e)
            (any_none (clash (f y)) (rewritten p f x ∷ []) ((c.1 e).1, tt)))
        h r

  update_each-done :
      (done rest : List A)
      → All (Ahead done) rest
      → Pairwise BothClear rest
      → update_each clash p f done rest ≡ some (done ++ update_where p f rest)
  unfolding update_each
  update_each-done done [] h r = ap some (sym (append-nil done))
  update_each-done done (x ∷ rest) h r = rw (no_clash done rest x h.0 r.0) (
      update_each-done (done ++ (rewritten p f x ∷ [])) rest (Ahead-one done rest x h.1 r.0) r.1
      ∙ ap some (append_one done (rewritten p f x) (update_where p f rest)))

  -- A statement whose rows are clear of each other raises nothing, in whatever order it goes.
  pub update_each-all :
      (rows : List A)
      → Pairwise BothClear rows
      → update_each clash p f [] rows ≡ some (update_where p f rows)
  update_each-all rows r = update_each-done [] rows (everywhere rows) r
    where
      everywhere : (xs : List A) → All (Ahead []) xs
      everywhere [] = tt
      everywhere (x ∷ xs) = ((λ _. refl), everywhere xs)
