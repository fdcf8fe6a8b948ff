-- ===== src/Prelude/Optional.antt =====
-- Chains of steps each of which may end the whole: an early `return` is `none`.
use mathlib.Core.Path.{◌≡◌, refl}
use mathlib.Core.Bool.{Bool, true, false}
use mathlib.Core.Option.{Option, none, some}

infixl 5 ◌>>=◌ ◌>>◌
abbrev pub ◌>>=◌ {ℓ κ} : {A : Type ℓ} {B : Type κ} → Option A → (A → Option B) → Option B
none >>= f = none
some a >>= f = f a

abbrev pub ◌>>◌ {ℓ} : {B : Type ℓ} → Option (Unit {0}) → Option B → Option B
m >> k = m >>= λ _. k

-- `if not b: return`
abbrev pub unless_return : Bool → Option (Unit {0})
unless_return true = some tt
unless_return false = none

-- What an optional result satisfies, if there is one.
abbrev pub Yields {ℓ κ} : {A : Type ℓ} → (A → Type κ) → Option A → Type κ
Yields P none = Unit
Yields P (some a) = P a

-- A chain yields what its last step yields.
pub Yields-bind {ℓ κ} :
    {A B : Type ℓ} (P : B → Type κ) (o : Option A) (f : A → Option B)
    → ((a : A) → o ≡ some a → Yields P (f a))
    → Yields P (o >>= f)
Yields-bind P none f h = tt
Yields-bind P (some a) f h = h a refl

pub Yields-unless {ℓ κ} :
    {B : Type ℓ} (P : B → Type κ) (t : Bool) (o : Option B)
    → (t ≡ true → Yields P o)
    → Yields P (unless_return t >> o)
Yields-unless P true o h = h refl
Yields-unless P false o h = tt
