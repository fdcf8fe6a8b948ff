-- ===== src/Scoring/Bounds.antt =====
-- What a score is worth: its bounds, its ends, and that a later answer earns no more.
use mathlib.Core.Path.{ap, ◌≡⟨◌⟩◌, ◌∎}
use livequiz_platform.Prelude.{
  ℕ, String, ◌^◌, ◌≤◌, ◌<◌, ◌≡◌, Bool, true, false, arith, min, max, leb, inl, inr, Bool-cases,
}
use livequiz_platform.Floats.{Floats, half_even}
use livequiz_platform.Scoring.{score, speed_bonus, scoring_mode_speed_bonus}

module _ (fl : Floats) (points deadline_ms : ℕ) (armed : 0 < deadline_ms) where
  open fl use {
    Float, ◌≼◌, nought, one, half, of_int, div_int, add, sub, mul, round, div_int_mono, sub_anti,
    add_mono, mul_half_mono, mul_int_mono, round_mono, div_int_zero, div_int_self, sub_zero,
    sub_self, mul_half_one, mul_half_zero, add_half_half, add_half_zero, mul_int_one, round_int,
    round_half,
  }

  -- A later answer within the time limit earns no more.
  speed_bonus_anti :
      (a b : ℕ) → a ≤ b → speed_bonus fl points b deadline_ms ≤ speed_bonus fl points a deadline_ms
  unfolding speed_bonus
  speed_bonus_anti a b h = round_mono _ _ (
      mul_int_mono points _ _ (
        add_mono _ _ half (
          mul_half_mono _ _ (sub_anti _ _ one (div_int_mono _ _ deadline_ms armed (omega arith))))))

  -- An answer at once earns all the points.
  speed_bonus_first : points < 2 ^ 53 → speed_bonus fl points 0 deadline_ms ≡ points
  unfolding speed_bonus
  speed_bonus_first small =
      round (
        mul (of_int points)
          (add half (mul half (sub one (div_int (max 0 (min 0 deadline_ms)) deadline_ms)))))
      ≡⟨ ap
          (λ t. round (mul (of_int points) (add half (mul half (sub one (div_int t deadline_ms))))))
          (omega arith) ⟩
        round (mul (of_int points) (add half (mul half (sub one (div_int 0 deadline_ms)))))
      ≡⟨ rw (div_int_zero deadline_ms armed, sub_zero, mul_half_one, add_half_half, mul_int_one)
          (round_int points small) ⟩
        points ∎

  -- An answer at the deadline or later earns half of them, rounded half to even.
  speed_bonus_last :
      (rt : ℕ)
      → deadline_ms ≤ rt
      → points < 2 ^ 53
      → speed_bonus fl points rt deadline_ms ≡ half_even points
  unfolding speed_bonus
  speed_bonus_last rt late small =
      round (
        mul (of_int points)
          (add half (mul half (sub one (div_int (max 0 (min rt deadline_ms)) deadline_ms)))))
      ≡⟨ ap
          (λ t. round (mul (of_int points) (add half (mul half (sub one (div_int t deadline_ms))))))
          (omega arith) ⟩
        round
          (mul (of_int points) (add half (mul half (sub one (div_int deadline_ms deadline_ms)))))
      ≡⟨ rw (div_int_self deadline_ms armed, sub_self, mul_half_zero, add_half_zero)
          (round_half points small) ⟩
        half_even points ∎

  speed_bonus_bounds :
      (rt : ℕ)
      → points < 2 ^ 53
      → (half_even points ≤ speed_bonus fl points rt deadline_ms)
        × (speed_bonus fl points rt deadline_ms ≤ points)
  speed_bonus_bounds rt small = omega (
    arith,
    speed_bonus_last (max rt deadline_ms) (omega arith) small,
    speed_bonus_anti rt (max rt deadline_ms) (omega arith),
    speed_bonus_first small,
    speed_bonus_anti 0 rt (omega arith),
  )

module _ (fl : Floats) (points rt deadline_ms : ℕ) (mode : String) where
  -- A wrong answer earns nothing; a correct one between half of the points (a tie to the even
  -- number) and all of them, in either mode and for any response time and deadline, for points
  -- below 2 ^ 53.
  pub score_bounds :
      points < 2 ^ 53
      → (score fl points rt deadline_ms mode false ≡ 0)
        × (half_even points ≤ score fl points rt deadline_ms mode true)
        × (score fl points rt deadline_ms mode true ≤ points)
  unfolding score
  score_bounds small = elim (Bool-cases (leb deadline_ms 0)) [
    | inl unarmed ↦ rw unarmed (ground arith)
    | inr armed ↦ ground (arith, speed_bonus_bounds fl points deadline_ms (ground arith) rt small)
  ]

module _ (fl : Floats) (points deadline_ms : ℕ) (mode : String) (is_correct : Bool) where
  -- A later answer never earns more than an earlier one to the same question, in any mode.
  pub score_anti :
      (rt rt' : ℕ)
      → rt ≤ rt'
      → score fl points rt' deadline_ms mode is_correct
        ≤ score fl points rt deadline_ms mode is_correct
  unfolding score
  score_anti rt rt' h = elim (Bool-cases (leb deadline_ms 0)) [
    | inl unarmed ↦ rw unarmed (ground arith)
    | inr armed ↦ ground (arith, speed_bonus_anti fl points deadline_ms (ground arith) rt rt' h)
  ]

-- With the speed bonus and a deadline after the start, a correct answer at once earns all of the
-- points, and one at the deadline or later half of them, a tie to the even number.
pub score_ends :
    (fl : Floats) (points deadline_ms rt : ℕ)
    → points < 2 ^ 53
    → 0 < deadline_ms
    → deadline_ms ≤ rt
    → (score fl points 0 deadline_ms scoring_mode_speed_bonus true ≡ points)
      × (score fl points rt deadline_ms scoring_mode_speed_bonus true ≡ half_even points)
unfolding score
score_ends fl points deadline_ms rt small armed late = ground (
  arith,
  speed_bonus_first fl points deadline_ms armed small,
  speed_bonus_last fl points deadline_ms armed rt late small,
)
