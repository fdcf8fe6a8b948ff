-- ===== src/Prelude/Lists.antt =====
-- Lists as tables: the selections and updates that the queries of the program are made of.
use Prim.Native.Nat.{ℕ, zero, suc, ◌+◌}
use mathlib.Core.Path.{◌≡◌, refl, ap}
use mathlib.Core.Bool.{Bool, true, false}
use mathlib.Core.Option.{Option, none, some}
use mathlib.Core.List.{List, [], ◌∷◌, ◌++◌}
use native.Mathlib.Omega.{arith}
use livequiz_platform.Prelude.Tests.{if◌then◌else◌}

module _ {ℓ} {A : Type ℓ} where
  abbrev pub length : List A → ℕ
  length [] = 0
  length (x ∷ xs) = suc (length xs)

  abbrev pub take : ℕ → List A → List A
  take zero xs = []
  take (suc n) [] = []
  take (suc n) (x ∷ xs) = x ∷ take n xs

  -- The first row that satisfies a test, as `scalar_one_or_none` of a query by a unique key.
  abbrev pub find : (A → Bool) → List A → Option A
  find p [] = none
  find p (x ∷ xs) = if p x then some x else find p xs

  -- The rows that satisfy a test, in order.
  abbrev pub select : (A → Bool) → List A → List A
  select p [] = []
  select p (x ∷ xs) = if p x then x ∷ select p xs else select p xs

  abbrev pub any : (A → Bool) → List A → Bool
  any p [] = false
  any p (x ∷ xs) = if p x then true else any p xs

  abbrev pub all : (A → Bool) → List A → Bool
  all p [] = true
  all p (x ∷ xs) = if p x then all p xs else false

  -- Rewrites the rows that satisfy a test, as an UPDATE … WHERE does.
  abbrev pub update_where : (A → Bool) → (A → A) → List A → List A
  update_where p f [] = []
  update_where p f (x ∷ xs) = (if p x then f x else x) ∷ update_where p f xs

  -- A predicate of every row.
  abbrev pub All {κ} : (A → Type κ) → List A → Type κ
  All P [] = Unit
  All P (x ∷ xs) = P x × All P xs

  pub length-append : (xs ys : List A) → length (xs ++ ys) ≡ length xs + length ys
  length-append [] ys = omega arith
  length-append (x ∷ xs) ys = omega (arith, length-append xs ys)

  pub length-update_where :
      (p : A → Bool) (f : A → A) (xs : List A) → length (update_where p f xs) ≡ length xs
  length-update_where p f [] = refl
  length-update_where p f (x ∷ xs) = ap suc (length-update_where p f xs)

  pub find_sound : (p : A → Bool) (xs : List A) {x : A} → find p xs ≡ some x → p x ≡ true
  find_sound p [] h = cc
  find_sound p (y ∷ xs) {x} h = ground (arith, find_sound p xs {x = x})

  -- The row that a test finds after the rows that satisfy it were rewritten.
  pub find-update_where :
      (t : A → Bool) (f : A → A) (xs : List A) {x : A}
      → ((y : A) → t (f y) ≡ t y)
      → find t xs ≡ some x
      → find t (update_where t f xs) ≡ some (f x)
  find-update_where t f [] same h = cc
  find-update_where t f (y ∷ ys) {x} same h =
      ground (arith, same y, find-update_where t f ys {x = x} same)

  -- The row that a test finds after other rows, or it, were rewritten.
  pub find-rewritten :
      (t p : A → Bool) (f : A → A) (xs : List A) {x : A}
      → ((y : A) → t (f y) ≡ t y)
      → find t xs ≡ some x
      → find t (update_where p f xs) ≡ some (if p x then f x else x)
  find-rewritten t p f [] same h = cc
  find-rewritten t p f (y ∷ ys) {x} same h =
      ground (arith, same y, find-rewritten t p f ys {x = x} same)

module _ {ℓ κ} {A : Type ℓ} (P : A → Type κ) where
  pub All-append : (xs ys : List A) → All P xs → All P ys → All P (xs ++ ys)
  All-append [] ys hx hy = hy
  All-append (x ∷ xs) ys hx hy = (hx.0, All-append xs ys hx.1 hy)

  pub All-find : (p : A → Bool) (xs : List A) {x : A} → All P xs → find p xs ≡ some x → P x
  All-find p [] h e = cc
  All-find p (y ∷ xs) {x} h e = ground (arith, All-find p xs {x = x} h.1)
