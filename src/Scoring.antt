-- ===== src/Scoring.antt =====
-- score of backend/app/services/scoring_service.py.
pub mod Bounds
use livequiz_platform.Prelude.{ℕ, String, Bool, not, min, max, leb, str_eq, if◌then◌else◌}
use livequiz_platform.Floats.{Floats}

abbrev pub scoring_mode_fixed : String
scoring_mode_fixed = "fixed"

abbrev pub scoring_mode_speed_bonus : String
scoring_mode_speed_bonus = "speed_bonus"

module _ (fl : Floats) where
  open fl use {Float, one, half, of_int, div_int, add, sub, mul, round}

  -- The last three lines: half for correctness and half scaled by the remaining time.
  unfoldable pub speed_bonus : ℕ → ℕ → ℕ → ℕ
  speed_bonus points response_time_ms deadline_ms =
      let rt = max 0 (min response_time_ms deadline_ms) in
      let fraction = sub one (div_int rt deadline_ms) in
      round (mul (of_int points) (add half (mul half fraction)))

  -- `score`. A deadline that is not after the start arrives as 0, so `<= 0` is `leb _ 0`.
  unfoldable pub score : ℕ → ℕ → ℕ → String → Bool → ℕ
  score points response_time_ms deadline_ms mode is_correct =
      if not is_correct
      then 0
      else if str_eq mode scoring_mode_fixed
      then points
      else if leb deadline_ms 0
      then points
      else speed_bonus points response_time_ms deadline_ms
