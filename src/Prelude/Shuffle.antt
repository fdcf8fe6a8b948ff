-- ===== src/Prelude/Shuffle.antt =====
-- Rows in any order: what a table's order does not change.
use livequiz_platform.Prelude.Tests.{Bool-cases, leb, ◌==◌}
use livequiz_platform.Prelude.Lists.{All, select}
use livequiz_platform.Prelude.Sort.{sort, insert_sorted}
use Prim.Native.Nat.{ℕ}
use mathlib.Core.Path.{◌≡◌, refl, ap, ◌∙◌, subst}
use mathlib.Core.Logic.{inl, inr}
use mathlib.Core.Bool.{Bool, false}
use mathlib.Core.List.{List, [], ◌∷◌}
use mathlib.Core.List.{Permᴰ}
use mathlib.Core.List.Permᴰ
use native.Mathlib.Omega.{arith}

module _ {A : Type 0} where
  All-shuffle : (P : A → Type 0) {xs ys : List A} → Permᴰ xs ys → All P xs → All P ys
  All-shuffle P Permᴰ.nil h = h
  All-shuffle P (Permᴰ.cons e d) h = (subst P e h.0, All-shuffle P d h.1)
  All-shuffle P (Permᴰ.swap e f) h = (subst P f h.1.0, (subst P e h.0, h.1.1))
  All-shuffle P (Permᴰ.trans d d') h = All-shuffle P d' (All-shuffle P d h)

  select_cons :
      (p : A → Bool) (a : A) (xs ys : List A)
      → Permᴰ (select p xs) (select p ys)
      → Permᴰ (select p (a ∷ xs)) (select p (a ∷ ys))
  select_cons p a xs ys d = elim (Bool-cases (p a)) [
    | inl hit ↦ rw hit (Permᴰ.cons refl d)
    | inr miss ↦ rw miss d
  ]

  select_swap :
      (p : A → Bool) (a b : A) (xs : List A) → Permᴰ (select p (a ∷ b ∷ xs)) (select p (b ∷ a ∷ xs))
  select_swap p a b xs = elim (Bool-cases (p a)) [
    | inl hit ↦ elim (Bool-cases (p b)) [
      | inl both ↦ rw (hit, both) (Permᴰ.swap refl refl)
      | inr one ↦ rw (hit, one) (Permᴰ.refl (a ∷ select p xs))
    ]
    | inr miss ↦ rw miss (Permᴰ.refl (select p (b ∷ xs)))
  ]

  pub select_shuffle :
      (p : A → Bool) {xs ys : List A} → Permᴰ xs ys → Permᴰ (select p xs) (select p ys)
  select_shuffle p Permᴰ.nil = Permᴰ.nil
  select_shuffle p (Permᴰ.cons {a = a} {l₁ = xs} {l₂ = ys} e d) =
      subst (λ x. Permᴰ (select p (a ∷ xs)) (select p (x ∷ ys))) e
        (select_cons p a xs ys (select_shuffle p d))
  select_shuffle p (Permᴰ.swap {a = a} {b = b} {b' = b'} {l = xs} e f) =
      subst (λ x. Permᴰ (select p (a ∷ b ∷ xs)) (select p (x ∷ b' ∷ xs))) f
        (subst (λ x. Permᴰ (select p (a ∷ b ∷ xs)) (select p (b ∷ x ∷ xs))) e
          (select_swap p a b xs))
  select_shuffle p (Permᴰ.trans d d') = Permᴰ.trans (select_shuffle p d) (select_shuffle p d')

module _ {A : Type 0} (key : A → ℕ) where
  abbrev by_key : A → A → Bool
  by_key a b = leb (key a) (key b)

  -- No two rows have the same key.
  abbrev pub IsKeyed : List A → Type 0
  IsKeyed [] = Unit
  IsKeyed (x ∷ xs) = All (λ y. (key x == key y) ≡ false) xs × IsKeyed xs

  apart_sym : (x y : A) → (key x == key y) ≡ false → (key y == key x) ≡ false
  apart_sym x y h = ground arith

  IsKeyed-shuffle : {xs ys : List A} → Permᴰ xs ys → IsKeyed xs → IsKeyed ys
  IsKeyed-shuffle Permᴰ.nil h = h
  IsKeyed-shuffle (Permᴰ.cons {a = a} {l₂ = ys} e d) h =
      subst (λ x. IsKeyed (x ∷ ys)) e
        (All-shuffle (λ y. (key a == key y) ≡ false) d h.0, IsKeyed-shuffle d h.1)
  IsKeyed-shuffle (Permᴰ.swap {a = a} {b = b} {b' = b'} {l = xs} e f) h =
      subst (λ x. IsKeyed (x ∷ b' ∷ xs)) f
        (subst (λ x. IsKeyed (b ∷ x ∷ xs)) e ((apart_sym a b h.0.0, h.1.0), (h.0.1, h.1.1)))
  IsKeyed-shuffle (Permᴰ.trans d d') h = IsKeyed-shuffle d' (IsKeyed-shuffle d h)

  insert_comm :
      (a b : A) (xs : List A)
      → (key a == key b) ≡ false
      → insert_sorted by_key a (insert_sorted by_key b xs)
        ≡ insert_sorted by_key b (insert_sorted by_key a xs)
  insert_comm a b [] h = ground arith
  insert_comm a b (x ∷ xs) h = ground (arith, insert_comm a b xs)

  -- Rows with different keys are sorted the same from every order.
  pub sort_shuffle : {xs ys : List A} → Permᴰ xs ys → IsKeyed xs → sort by_key xs ≡ sort by_key ys
  sort_shuffle Permᴰ.nil h = refl
  sort_shuffle (Permᴰ.cons {a = a} {l₂ = ys} e d) h =
      ap (insert_sorted by_key a) (sort_shuffle d h.1)
      ∙ ap (λ x. insert_sorted by_key x (sort by_key ys)) e
  sort_shuffle (Permᴰ.swap {a = a} {b = b} {a' = a'} {l = xs} e f) h =
      insert_comm a b (sort by_key xs) h.0.0
      ∙ ap (λ x. insert_sorted by_key x (insert_sorted by_key a (sort by_key xs))) f
      ∙ ap (λ x. insert_sorted by_key a' (insert_sorted by_key x (sort by_key xs))) e
  sort_shuffle (Permᴰ.trans d d') h = sort_shuffle d h ∙ sort_shuffle d' (IsKeyed-shuffle d h)
