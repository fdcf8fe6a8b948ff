-- ===== src/Match/Grading/Sets.antt =====
-- The ascending lists that stand for sets of option ids: two are the same list when they have the
-- same members.
use mathlib.Core.Path.{subst}
use livequiz_platform.Prelude.{
  ℕ, ◌<◌, ◌≡◌, refl, sym, ◌∙◌, true, false, List, [], ◌∷◌, All, ltb, ◌==◌, arith, inl, inr,
  Bool-cases,
}
use livequiz_platform.Match.Grading.{add_to_set, to_set, same_list, contains, is_nonempty}

abbrev Above : ℕ → List ℕ → Type 0
Above a xs = All (λ x. a < x) xs

abbrev pub IsAscending : List ℕ → Type 0
IsAscending [] = Unit
IsAscending (x ∷ xs) = Above x xs × IsAscending xs

Above-trans : (a b : ℕ) (xs : List ℕ) → a < b → Above b xs → Above a xs
Above-trans a b [] h hs = tt
Above-trans a b (x ∷ xs) h hs = (omega (arith, h, hs.0), Above-trans a b xs h hs.1)

add_to_set-Above : (b a : ℕ) (xs : List ℕ) → b < a → Above b xs → Above b (add_to_set a xs)
add_to_set-Above b a [] h hs = (h, tt)
add_to_set-Above b a (x ∷ xs) h hs = elim (Bool-cases (a == x)) [
  | inl same ↦ rw same hs
  | inr other ↦ elim (Bool-cases (ltb a x)) [
    | inl first ↦ rw (other, first) (h, hs)
    | inr later ↦ rw (other, later) (hs.0, add_to_set-Above b a xs h hs.1)
  ]
]

add_to_set-IsAscending : (a : ℕ) (xs : List ℕ) → IsAscending xs → IsAscending (add_to_set a xs)
add_to_set-IsAscending a [] h = (tt, tt)
add_to_set-IsAscending a (x ∷ xs) h = elim (Bool-cases (a == x)) [
  | inl same ↦ rw same h
  | inr other ↦ elim (Bool-cases (ltb a x)) [
    | inl first ↦
        (let lt : a < x = ground arith in rw (other, first) ((lt, Above-trans a x xs lt h.0), h))
    | inr later ↦
        (let lt : x < a = ground arith in
          rw (other, later) (add_to_set-Above x a xs lt h.0, add_to_set-IsAscending a xs h.1))
  ]
]

pub to_set-IsAscending : (xs : List ℕ) → IsAscending (to_set xs)
to_set-IsAscending [] = tt
to_set-IsAscending (x ∷ xs) = add_to_set-IsAscending x (to_set xs) (to_set-IsAscending xs)

contains-add_to_set :
    (a : ℕ) (xs : List ℕ) (k : ℕ) → contains (add_to_set a xs) k ≡ contains (a ∷ xs) k
contains-add_to_set a [] k = refl
contains-add_to_set a (x ∷ xs) k = ground (arith, contains-add_to_set a xs k)

-- The set has the members of the list.
pub contains-to_set : (xs : List ℕ) (k : ℕ) → contains (to_set xs) k ≡ contains xs k
contains-to_set [] k = refl
contains-to_set (x ∷ xs) k =
    contains-add_to_set x (to_set xs) k ∙ ground (arith, contains-to_set xs k)

contains-Above : (a : ℕ) (xs : List ℕ) → Above a xs → contains xs a ≡ false
contains-Above a [] h = refl
contains-Above a (x ∷ xs) h = ground (arith, contains-Above a xs h.1, h.0)

pub same_list-contains :
    (xs ys : List ℕ) → same_list xs ys ≡ true → (k : ℕ) → contains xs k ≡ contains ys k
same_list-contains [] [] h k = refl
same_list-contains [] (y ∷ ys) h k = absurd (cc)
same_list-contains (x ∷ xs) [] h k = absurd (cc)
same_list-contains (x ∷ xs) (y ∷ ys) h k = elim (Bool-cases (x == y)) [
  | inl same ↦
      (let rest = same_list-contains xs ys (rw same at h) k in
        let eq : x ≡ y = ground arith in rw (eq, rest) refl)
  | inr other ↦ absurd (ground arith)
]

abbrev pub SameMembers : List ℕ → List ℕ → Type 0
SameMembers xs ys = (k : ℕ) → contains xs k ≡ contains ys k

-- The least members of two ascending lists with the same members are the same.
heads : (x y : ℕ) (xs ys : List ℕ) → Above y ys → SameMembers (x ∷ xs) (y ∷ ys) → ltb x y ≡ false
heads x y xs ys h same = elim (Bool-cases (ltb x y)) [
  | inl lt ↦
      (let below : x < y = ground arith in
        let absent = contains-Above x ys (Above-trans x y ys below h) in
        let here = same x in absurd (ground arith))
  | inr ge ↦ ge
]

equal : (a b : ℕ) → (a == b) ≡ true → a ≡ b
equal a b h = ground arith

same_tails :
    (x y : ℕ) (xs ys : List ℕ)
    → x ≡ y
    → Above x xs
    → Above y ys
    → SameMembers (x ∷ xs) (y ∷ ys)
    → SameMembers xs ys
same_tails x y xs ys e hx hy same k = elim (Bool-cases (x == k)) [
  | inl this ↦
      (let left : contains xs k ≡ false =
          subst (λ j. contains xs j ≡ false) (equal x k this) (contains-Above x xs hx) in
        let right : contains ys k ≡ false =
          subst (λ j. contains ys j ≡ false) (sym e ∙ equal x k this) (contains-Above y ys hy) in
        left ∙ sym right)
  | inr other ↦ (let here = same k in ground arith)
]

-- Two ascending lists with the same members are the same list.
pub SameMembers-same_list :
    (xs ys : List ℕ) → IsAscending xs → IsAscending ys → SameMembers xs ys → same_list xs ys ≡ true
SameMembers-same_list [] [] hx hy same = refl
SameMembers-same_list [] (y ∷ ys) hx hy same = absurd (let here = same y in ground arith)
SameMembers-same_list (x ∷ xs) [] hx hy same = absurd (let here = same x in ground arith)
SameMembers-same_list (x ∷ xs) (y ∷ ys) hx hy same =
    let not_below = heads x y xs ys hy.0 same in
    let not_above = heads y x ys xs hx.0 (λ k. sym (same k)) in
    let e : x ≡ y = ground arith in
    let hit : (x == y) ≡ true = ground arith in
    rw hit (SameMembers-same_list xs ys hx.1 hy.1 (same_tails x y xs ys e hx.0 hy.0 same))

add_to_set-is_nonempty : (a : ℕ) (xs : List ℕ) → is_nonempty (add_to_set a xs) ≡ true
add_to_set-is_nonempty a [] = refl
add_to_set-is_nonempty a (x ∷ xs) = elim (Bool-cases (a == x)) [
  | inl same ↦ rw same refl
  | inr other ↦ elim (Bool-cases (ltb a x)) [
    | inl first ↦ rw (other, first) refl
    | inr later ↦ rw (other, later) refl
  ]
]

pub to_set-is_nonempty : (a : ℕ) (xs : List ℕ) → is_nonempty (to_set (a ∷ xs)) ≡ true
to_set-is_nonempty a xs = add_to_set-is_nonempty a (to_set xs)
