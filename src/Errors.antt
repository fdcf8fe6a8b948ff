-- ===== src/Errors.antt =====
-- The errors that services raise (`AuthError` of backend/app/core/security.py) and what runs in a
-- database transaction: a raise leaves the tables as they were, which is the rollback.
use livequiz_platform.Prelude.{ℕ, ◌≡◌, refl, Bool, true, false, Option, none, some}

pub data ErrorCode : Type 0 where
  validation_error room_not_found room_not_joinable room_full forbidden question_closed : ErrorCode
  answer_already_submitted duplicate_nickname rate_limited auth_required : ErrorCode
  quiz_not_published internal_error not_implemented : ErrorCode

-- Messages and details are for the reader of a response and are left out.
pub record AuthError : Type 0 where
  pub code : ErrorCode
  pub http_status : ℕ

-- How a call ends: it raises, or it returns a value.
pub data Result {ℓ} (V : Type ℓ) : Type ℓ where
  err : (raised : AuthError) → Result V
  ok : (value : V) → Result V

abbrev pub ◌>>=◌ {ℓ κ} : {V : Type ℓ} {W : Type κ} → Result V → (V → Result W) → Result W
err raised >>= next = err raised
ok value >>= next = next value

infixl 5 ◌>>=◌ ◌>>◌
-- A check that returns nothing, and what comes after it.
abbrev pub ◌>>◌ {ℓ} : {V : Type ℓ} → Result (Unit {0}) → Result V → Result V
check >> next = check >>= λ _. next

abbrev pub auth_error : ErrorCode → ℕ → AuthError
auth_error code status = record { code = code; http_status = status }

-- `if not b: raise AuthError(...)`
abbrev pub require : Bool → ErrorCode → ℕ → Result (Unit {0})
require true code status = ok tt
require false code status = err (auth_error code status)

abbrev pub or_raise {ℓ} : {A : Type ℓ} → Option A → ErrorCode → ℕ → Result A
or_raise none code status = err (auth_error code status)
or_raise (some a) code status = ok a

-- What a result leaves in the state, if it is one.
abbrev pub Leaves {ℓ κ} : {A : Type ℓ} {S : Type ℓ} → (A → S → Type κ) → Result (A × S) → Type κ
Leaves P (ok (a, s)) = P a s
Leaves P (err e) = Unit

-- A chain leaves what its last step leaves.
pub Leaves-bind {ℓ κ} :
    {A B S : Type ℓ} (P : B → S → Type κ) (m : Result A) (f : A → Result (B × S))
    → ((a : A) → m ≡ ok a → Leaves P (f a))
    → Leaves P (m >>= f)
Leaves-bind P (ok a) f h = h a refl
Leaves-bind P (err e) f h = tt

pub Leaves-map {ℓ κ} :
    {A S : Type ℓ} {P Q : A → S → Type κ} (r : Result (A × S))
    → ((a : A) (s : S) → P a s → Q a s)
    → Leaves P r
    → Leaves Q r
Leaves-map (ok (a, s)) f h = f a s h
Leaves-map (err e) f h = tt

-- Inversions of the steps of a chain.
pub or_raise-ok {ℓ κ} :
    {A : Type ℓ} {B : Type κ} (o : Option A) (c : ErrorCode) (n : ℕ) (f : A → Result B) {b : B}
    → (or_raise o c n >>= f) ≡ ok b
    → (a : A) × (o ≡ some a) × (f a ≡ ok b)
or_raise-ok none c n f h = cc
or_raise-ok (some a) c n f h = (a, refl, h)

-- What came of the first call of a chain that returned, and of the rest.
pub bind-ok {ℓ κ} :
    {V : Type ℓ} {W : Type κ} (call : Result V) (next : V → Result W) {w : W}
    → (call >>= next) ≡ ok w
    → (v : V) × (next v ≡ ok w) × (call ≡ ok v)
bind-ok (err raised) next returned = cc
bind-ok (ok value) next returned = (value, returned, refl)

pub or_raise-some {ℓ} :
    {A : Type ℓ} (o : Option A) (c : ErrorCode) (n : ℕ) {a : A} → or_raise o c n ≡ ok a → o ≡ some a
or_raise-some none c n h = cc
or_raise-some (some b) c n h = cc

pub require-ok {κ} :
    {B : Type κ} (t : Bool) (c : ErrorCode) (n : ℕ) (f : Unit {0} → Result B) {b : B}
    → (require t c n >>= f) ≡ ok b
    → (t ≡ true) × (f tt ≡ ok b)
require-ok true c n f h = (refl, h)
require-ok false c n f h = cc

pub require-true :
    (t : Bool) (c : ErrorCode) (n : ℕ) {u : Unit {0}} → require t c n ≡ ok u → t ≡ true
require-true true c n h = refl
require-true false c n h = cc
