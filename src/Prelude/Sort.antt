-- ===== src/Prelude/Sort.antt =====
-- A stable sort, as Python's `sorted` and SQL's ORDER BY give it, by a Boolean order: what comes out
-- is ordered and has the same rows.
use livequiz_platform.Prelude.Tests.{if◌then◌else◌, Bool-cases}
use livequiz_platform.Prelude.Lists.{length, All}
use Prim.Native.Nat.{suc}
use mathlib.Core.Path.{◌≡◌, refl}
use mathlib.Core.Logic.{inl, inr}
use mathlib.Core.Bool.{Bool, true, false}
use mathlib.Core.List.{List, [], ◌∷◌, Perm}
use mathlib.Core.List.Perm
use native.Mathlib.Omega.{arith}

module _ {ℓ} {A : Type ℓ} (le : A → A → Bool) where
  -- Before the first row that is not strictly smaller, so equal rows keep their order.
  abbrev pub insert_sorted : A → List A → List A
  insert_sorted a [] = a ∷ []
  insert_sorted a (x ∷ xs) = if le a x then a ∷ x ∷ xs else x ∷ insert_sorted a xs

  abbrev pub sort : List A → List A
  sort [] = []
  sort (x ∷ xs) = insert_sorted x (sort xs)

  abbrev HeadLe : A → List A → Type 0
  HeadLe a [] = Unit
  HeadLe a (x ∷ xs) = le a x ≡ true

  -- Each row is before the next one in the order.
  abbrev pub IsSorted : List A → Type 0
  IsSorted [] = Unit
  IsSorted (x ∷ xs) = HeadLe x xs × IsSorted xs

  module _ (total : (a b : A) → le a b ≡ false → le b a ≡ true) where
    insert_sorted-HeadLe :
        (a x : A) (xs : List A) → le a x ≡ false → HeadLe x xs → HeadLe x (insert_sorted a xs)
    insert_sorted-HeadLe a x [] h hx = total a x h
    insert_sorted-HeadLe a x (y ∷ ys) h hx = elim (Bool-cases (le a y)) [
      | inl first ↦ rw first (total a x h)
      | inr later ↦ rw later hx
    ]

    insert_sorted-IsSorted : (a : A) (xs : List A) → IsSorted xs → IsSorted (insert_sorted a xs)
    insert_sorted-IsSorted a [] s = (tt, tt)
    insert_sorted-IsSorted a (x ∷ xs) s = elim (Bool-cases (le a x)) [
      | inl first ↦ rw first (first, s)
      | inr later ↦
          rw later (insert_sorted-HeadLe a x xs later s.0, insert_sorted-IsSorted a xs s.1)
    ]

    pub sort-IsSorted : (xs : List A) → IsSorted (sort xs)
    sort-IsSorted [] = tt
    sort-IsSorted (x ∷ xs) = insert_sorted-IsSorted x (sort xs) (sort-IsSorted xs)

  insert_sorted-perm : (a : A) (xs : List A) → Perm (insert_sorted a xs) (a ∷ xs)
  insert_sorted-perm a [] = Perm.refl (a ∷ [])
  insert_sorted-perm a (x ∷ xs) = elim (Bool-cases (le a x)) [
    | inl first ↦ rw first (Perm.refl (a ∷ x ∷ xs))
    | inr later ↦ rw later (Perm.trans (Perm.cons x (insert_sorted-perm a xs)) (Perm.swap a x xs))
  ]

  pub sort-perm : (xs : List A) → Perm (sort xs) xs
  sort-perm [] = Perm.refl []
  sort-perm (x ∷ xs) = Perm.trans (insert_sorted-perm x (sort xs)) (Perm.cons x (sort-perm xs))

  insert_sorted-length : (a : A) (xs : List A) → length (insert_sorted a xs) ≡ suc (length xs)
  insert_sorted-length a [] = refl
  insert_sorted-length a (x ∷ xs) = ground (arith, insert_sorted-length a xs)

  pub sort-length : (xs : List A) → length (sort xs) ≡ length xs
  sort-length [] = refl
  sort-length (x ∷ xs) = ground (arith, insert_sorted-length x (sort xs), sort-length xs)

  insert_sorted-All :
      (P : A → Type 0) (a : A) (xs : List A) → P a → All P xs → All P (insert_sorted a xs)
  insert_sorted-All P a [] h hs = (h, tt)
  insert_sorted-All P a (x ∷ xs) h hs = elim (Bool-cases (le a x)) [
    | inl first ↦ rw first (h, hs)
    | inr later ↦ rw later (hs.0, insert_sorted-All P a xs h hs.1)
  ]

  pub sort-All : (P : A → Type 0) (xs : List A) → All P xs → All P (sort xs)
  sort-All P [] hs = tt
  sort-All P (x ∷ xs) hs = insert_sorted-All P x (sort xs) hs.0 (sort-All P xs hs.1)
