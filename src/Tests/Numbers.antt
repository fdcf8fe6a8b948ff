-- ===== src/Tests/Numbers.antt =====
-- Numbers of the token bucket that meet its assumptions: the non-negative rationals.
use native.Mathlib.Nat.{
  mod-one, div-one, mul-mod_left, mul-div_left, mul-one, one-mul, div-eq_of_lt, add-mul-div_right,
  div-add-mod',
}
use livequiz_platform.Prelude.{
  ℕ, ◌+◌, ◌-◌, ◌*◌, ◌/◌, ◌%◌, ◌<◌, ◌≡◌, refl, ap, leb, ◌==◌, if◌then◌else◌, arith, Bool-cases, inl,
  inr,
}
use livequiz_platform.RateLimit.{LuaNumbers}

pub data Rational : Type 0 where
  whole : ℕ → Rational
  ratio : (numerator denominator : ℕ) → Rational

abbrev pub num : Rational → ℕ
num (whole n) = n
num (ratio a b) = a

abbrev pub den : Rational → ℕ
den (whole n) = 1
den (ratio a b) = b

abbrev pub reduced : ℕ → ℕ → Rational
reduced a b = if a % b == 0 then whole (a / b) else ratio a b

abbrev pub round_up : Rational → ℕ
round_up x = (num x + den x - 1) / den x

pub reduced_one : (a : ℕ) → reduced a 1 ≡ whole a
reduced_one a = ground (arith, mod-one a, div-one a)

pub reduced_mul : (a b : ℕ) → 0 < b → reduced (a * b * 1) (1 * b) ≡ whole a
reduced_mul a b h = rw (mul-one (a * b), one-mul b, mul-mod_left a b) (ap whole (mul-div_left a h))

below : (b : ℕ) → 0 < b → b - 1 < b
below b h = omega arith

rounded : (q : ℕ) → (q + 1 - 1) / 1 ≡ 0 + q
rounded q = ground (arith, div-one q)

pub round_up-reduced : (a b : ℕ) → 0 < b → round_up (reduced (a * 1) (1 * b)) ≡ (a + b - 1) / b
round_up-reduced a b h =
    rw (mul-one a, one-mul b)
      (elim (Bool-cases (a % b == 0)) [
        | inl divides ↦
            (let all : a + b - 1 ≡ (b - 1) + a / b * b = ground (arith, div-add-mod' a b) in
              rw (divides, all, add-mul-div_right (b - 1) (a / b) h, div-eq_of_lt (below b h))
                (rounded (a / b)))
        | inr rest ↦ rw rest refl
      ])

abbrev pub rationals : LuaNumbers
rationals = record {
  Number = Rational;
  of_int = whole;
  add = λ x y. reduced (num x * den y + num y * den x) (den x * den y);
  sub = λ x y. reduced (num x * den y - num y * den x) (den x * den y);
  mul = λ x y. reduced (num x * num y) (den x * den y);
  div = λ x y. reduced (num x * den y) (den x * num y);
  geb = λ x y. leb (num y * den x) (num x * den y);
  floor = λ x. num x / den x;
  ceil = round_up;
  add_int = λ a b h. rw (mul-one a, mul-one b) (reduced_one (a + b));
  sub_int = λ a b h k. rw (mul-one a, mul-one b) (reduced_one (a - b));
  mul_int = λ a b h. reduced_one (a * b);
  div_int = λ a b h k. reduced_mul a b k;
  geb_int = λ a b h k. rw (mul-one a, mul-one b) refl;
  ceil_quotient = λ a b h k. round_up-reduced a b k;
}
