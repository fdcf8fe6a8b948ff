-- ===== src/Ids/Layout.antt =====
-- The bit layout of an id: the fields come back, and the id fits a signed 64-bit column.
use livequiz_platform.Prelude.{ℕ, ◌-◌, ◌^◌, ◌≤◌, ◌<◌, ◌≡◌, arith}
use livequiz_platform.Ids.{SnowflakeGenerator, compose, decode, max_worker_id, sequence_mask}

-- Decoding an id gives back the millisecond, the worker and the sequence that it was built from,
-- for a clock at or past the epoch and fields in their ranges.
pub decode-compose :
    (g : SnowflakeGenerator) (now sequence : ℕ)
    → g.epoch_ms ≤ now
    → g.worker_id ≤ max_worker_id
    → sequence ≤ sequence_mask
    → decode g (compose g.epoch_ms g.worker_id now sequence) ≡ (now, g.worker_id, sequence)
unfolding decode compose
decode-compose g now sequence past worker small = ground arith

-- An id is below 2 ^ 63 while the clock is less than 2 ^ 41 ms past the epoch.
pub compose-lt_63_bits :
    (epoch_ms worker_id now sequence : ℕ)
    → worker_id ≤ max_worker_id
    → sequence ≤ sequence_mask
    → now - epoch_ms < 2 ^ 41
    → compose epoch_ms worker_id now sequence < 2 ^ 63
unfolding compose
compose-lt_63_bits epoch_ms worker_id now sequence worker small window = omega arith
