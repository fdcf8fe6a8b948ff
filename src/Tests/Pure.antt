-- ===== src/Tests/Pure.antt =====
-- The theorems on ids and scores at concrete values.
use livequiz_platform.Prelude.{ℕ, ◌≤◌, ◌≡◌, refl, true, false, some, [], ◌∷◌, arith}
use livequiz_platform.Floats.{half_even}
use livequiz_platform.Floats.Fixed.{fixed}
use livequiz_platform.Scoring.{score, scoring_mode_speed_bonus}
use livequiz_platform.Scoring.Bounds.{score_bounds}
use livequiz_platform.Ids.{SnowflakeGenerator, issued, compose, next_id, decode, wait_until_next_ms}
use livequiz_platform.Ids.Order.{
  IsValid, IsIncreasing, floor_id, run_ids, run_ids-IsIncreasing, decode-next_id, FirstLater,
  wait_until_next_ms-total,
}

score_bounds_example :
    (score fixed 1000 2500 10000 scoring_mode_speed_bonus false ≡ 0)
    × (half_even 1000 ≤ score fixed 1000 2500 10000 scoring_mode_speed_bonus true)
    × (score fixed 1000 2500 10000 scoring_mode_speed_bonus true ≤ 1000)
score_bounds_example = score_bounds fixed 1000 2500 10000 scoring_mode_speed_bonus (omega arith)

abbrev generator : ℕ → SnowflakeGenerator
generator worker_id = record {
  worker_id = worker_id;
  epoch_ms = 1000;
  last_ms = some 1005;
  sequence = 4095;
}

abbrev is_valid : (worker_id : ℕ) → worker_id ≤ 1023 → IsValid (generator worker_id)
is_valid worker_id h = record { worker = h; small = omega arith; past = omega arith }

run_ids-IsIncreasing_example :
    IsIncreasing
      (floor_id (generator 3))
      (run_ids (generator 3) ((1005, 1005 ∷ 1006 ∷ []) ∷ (1004, []) ∷ (1007, []) ∷ []))
run_ids-IsIncreasing_example =
    run_ids-IsIncreasing (generator 3) ((1005, 1005 ∷ 1006 ∷ []) ∷ (1004, []) ∷ (1007, []) ∷ [])
      (is_valid 3 (omega arith)) (omega arith, (omega arith, (omega arith, tt)))

issues_after_wait :
    (k : ℕ) → (next_id (generator k) 1005 (1005 ∷ 1006 ∷ [])).1 ≡ issued (compose 1000 k 1006 0)
unfolding next_id wait_until_next_ms compose
issues_after_wait k = refl

decode-next_id_example :
    (l : ℕ) × ((next_id (generator 3) 1005 (1005 ∷ 1006 ∷ [])).0.last_ms ≡ some l)
    × (decode (generator 3) (compose 1000 3 1006 0)
        ≡ (l, 3, (next_id (generator 3) 1005 (1005 ∷ 1006 ∷ [])).0.sequence))
decode-next_id_example =
    decode-next_id (generator 3) 1005 (1005 ∷ 1006 ∷ []) (is_valid 3 (omega arith)) (omega arith)
      (issues_after_wait 3)

wait_until_next_ms-total_example :
    (now : ℕ) × (wait_until_next_ms 1005 (1005 ∷ 1006 ∷ []) ≡ some now)
    × FirstLater 1005 (1005 ∷ 1006 ∷ []) now
wait_until_next_ms-total_example = wait_until_next_ms-total 1005 (1005 ∷ 1006 ∷ []) refl
