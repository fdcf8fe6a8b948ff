-- ===== src/Floats/Fixed.antt =====
-- A concrete arithmetic that meets the laws: fixed point, rounded down, in units of 1 / 2 ^ 20 of a
-- millionth.
use native.Mathlib.Nat.{
  mul-le-mul_left, mul-le-mul_right, mul-div_cancel_left, div-mul-le_self, le-div_iff_mul-le,
  div-eq_of_lt,
}
use livequiz_platform.Prelude.{
  ℕ, ◌+◌, ◌-◌, ◌*◌, ◌/◌, ◌%◌, ◌^◌, ◌≤◌, ◌<◌, ◌≡◌, refl, arith, ltb, if◌then◌else◌,
}
use livequiz_platform.Floats.{Floats, half_even}

abbrev pub unit : ℕ
unit = 2 ^ 20

abbrev pub fixed_div : ℕ → ℕ → ℕ
fixed_div a d = a * unit / d

abbrev pub fixed_mul : ℕ → ℕ → ℕ
fixed_mul a b = a * b / unit

pub div_mono : (a b d : ℕ) → 0 < d → a ≤ b → fixed_div a d ≤ fixed_div b d
div_mono a b d pos h =
    let e : a * unit / d * d ≤ a * unit = div-mul-le_self (a * unit) d in
    (le-div_iff_mul-le {k = d} {x = a * unit / d} {y = b * unit} pos).1 (omega arith)

pub div_zero : (d : ℕ) → 0 < d → fixed_div 0 d ≡ 0
div_zero d pos = div-eq_of_lt pos

pub div_self : (d : ℕ) → 0 < d → fixed_div d d ≡ unit
div_self d pos = mul-div_cancel_left unit pos

pub mul_mono : (p x y : ℕ) → x ≤ y → fixed_mul (p * unit) x ≤ fixed_mul (p * unit) y
mul_mono p x y h = let e : p * unit * x ≤ p * unit * y = mul-le-mul_left (p * unit) h in omega arith

pub mul_one : (p : ℕ) → fixed_mul (p * unit) unit ≡ p * unit
mul_one p = omega arith

abbrev pub round_fixed : ℕ → ℕ
round_fixed x =
    let whole = x / unit in
    let rest = x % unit in
    if ltb (2 * rest) unit
    then whole
    else if ltb unit (2 * rest)
    then whole + 1
    else whole + whole % 2

pub round_fixed_mono : (x y : ℕ) → x ≤ y → round_fixed x ≤ round_fixed y
round_fixed_mono x y h = ground arith

pub round_fixed_int : (p : ℕ) → round_fixed (p * unit) ≡ p
round_fixed_int p = ground arith

pub round_fixed_half : (p : ℕ) → round_fixed (fixed_mul (p * unit) (2 ^ 19)) ≡ half_even p
round_fixed_half p = ground arith

pub elapsed_mono :
    (a b k : ℕ)
    → a ≤ b
    → fixed_mul (a * unit / 1000000) (k * unit) / unit
      ≤ fixed_mul (b * unit / 1000000) (k * unit) / unit
elapsed_mono a b k h =
    let e : a * unit / 1000000 * (k * unit) ≤ b * unit / 1000000 * (k * unit) =
      mul-le-mul_right (k * unit) (omega arith) in
    omega arith

-- The laws hold of it.
abbrev pub fixed : Floats
fixed = record {
  Float = ℕ;
  ◌≼◌ = ◌≤◌;
  nought = 0;
  half = 2 ^ 19;
  one = unit;
  of_int = λ n. n * unit;
  div_int = fixed_div;
  add = ◌+◌;
  sub = ◌-◌;
  mul = fixed_mul;
  round = round_fixed;
  trunc = λ x. x / unit;
  total_seconds = λ us. us * unit / 1000000;
  div_int_mono = div_mono;
  sub_anti = λ x y z h. omega arith;
  add_mono = λ x y z h. omega arith;
  mul_half_mono = λ x y h. omega arith;
  mul_int_mono = mul_mono;
  round_mono = round_fixed_mono;
  elapsed_mono = elapsed_mono;
  div_int_zero = div_zero;
  div_int_self = div_self;
  sub_zero = refl;
  sub_self = refl;
  mul_half_one = refl;
  mul_half_zero = refl;
  add_half_half = refl;
  add_half_zero = refl;
  mul_int_one = mul_one;
  round_int = λ p h. round_fixed_int p;
  round_half = λ p h. round_fixed_half p;
  elapsed_seconds = λ s h. omega arith;
}
