-- ===== src/Floats.antt =====
-- The binary64 arithmetic of the Python interpreter, which the code uses for scores and elapsed
-- times. It is not code of the repository: it is a parameter, with the laws of correctly rounded
-- operations that the proofs rely on. Only non-negative values occur.
pub mod Fixed
use livequiz_platform.Prelude.{ℕ, suc, ◌*◌, ◌/◌, ◌%◌, ◌+◌, ◌^◌, ◌≤◌, ◌<◌, ◌≡◌, if◌then◌else◌, ◌==◌}

-- Half of an integer, rounded to the nearest integer and a tie to the even one.
abbrev pub half_even : ℕ → ℕ
half_even p = if p % 4 == 3 then (p + 1) / 2 else p / 2

pub record Floats : Type 1 where
  pub Float : Type 0
  pub ◌≼◌ : Float → Float → Type 0
  infix 50 ◌≼◌
  pub nought : Float
  pub half : Float
  pub one : Float
  -- the conversion of an int operand, as in `points * x`
  pub of_int : ℕ → Float
  -- `a / b` of two ints, and `+`, `-`, `*` of floats
  pub div_int : ℕ → ℕ → Float
  pub add : Float → Float → Float
  pub sub : Float → Float → Float
  pub mul : Float → Float → Float
  -- `round(x)` to an int, and `int(x)`
  pub round : Float → ℕ
  pub trunc : Float → ℕ
  -- `timedelta.total_seconds()` of a span in microseconds
  pub total_seconds : ℕ → Float
  -- rounding is monotone, so every operation is
  pub div_int_mono : (a b d : ℕ) → 0 < d → a ≤ b → div_int a d ≼ div_int b d
  pub sub_anti : (x y z : Float) → x ≼ y → sub z y ≼ sub z x
  pub add_mono : (x y z : Float) → x ≼ y → add z x ≼ add z y
  pub mul_half_mono : (x y : Float) → x ≼ y → mul half x ≼ mul half y
  pub mul_int_mono : (p : ℕ) (x y : Float) → x ≼ y → mul (of_int p) x ≼ mul (of_int p) y
  pub round_mono : (x y : Float) → x ≼ y → round x ≤ round y
  pub elapsed_mono :
      (a b k : ℕ)
      → a ≤ b
      → trunc (mul (total_seconds a) (of_int k)) ≤ trunc (mul (total_seconds b) (of_int k))
  -- what is representable is computed exactly
  pub div_int_zero : (d : ℕ) → 0 < d → div_int 0 d ≡ nought
  pub div_int_self : (d : ℕ) → 0 < d → div_int d d ≡ one
  pub sub_zero : sub one nought ≡ one
  pub sub_self : sub one one ≡ nought
  pub mul_half_one : mul half one ≡ half
  pub mul_half_zero : mul half nought ≡ nought
  pub add_half_half : add half half ≡ one
  pub add_half_zero : add half nought ≡ half
  pub mul_int_one : (p : ℕ) → mul (of_int p) one ≡ of_int p
  pub round_int : (p : ℕ) → p < 2 ^ 53 → round (of_int p) ≡ p
  pub round_half : (p : ℕ) → p < 2 ^ 53 → round (mul (of_int p) half) ≡ half_even p
  pub elapsed_seconds :
      (s : ℕ) → s < 2 ^ 40 → trunc (mul (total_seconds (s * 1000000)) (of_int 1000)) ≡ s * 1000
