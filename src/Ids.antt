-- ===== src/Ids.antt =====
-- The Snowflake generator of backend/app/core/ids/snowflake.py. Times are milliseconds since the
-- Unix epoch and ids are naturals: the generator is used with a clock at or past its epoch, which
-- is a hypothesis where it matters. The fields of an id are disjoint bit ranges, so `|` is a sum,
-- `<< k` is `* 2 ^ k`, `>> k` is `/ 2 ^ k` and `& (2 ^ k - 1)` is `% 2 ^ k`.
pub mod Layout
pub mod Order
use livequiz_platform.Prelude.{
  ℕ, zero, suc, ◌+◌, ◌-◌, ◌*◌, ◌/◌, ◌%◌, ◌^◌, Bool, Option, none, some, List, [], ◌∷◌, ltb, leb,
  ◌==◌, if◌then◌else◌,
}

abbrev pub epoch_ms_default : ℕ
epoch_ms_default = 1767225600000

abbrev pub worker_id_bits : ℕ
worker_id_bits = 10

abbrev pub sequence_bits : ℕ
sequence_bits = 12

abbrev pub worker_id_shift : ℕ
worker_id_shift = sequence_bits

abbrev pub timestamp_shift : ℕ
timestamp_shift = sequence_bits + worker_id_bits

abbrev pub max_worker_id : ℕ
max_worker_id = 2 ^ worker_id_bits - 1

abbrev pub sequence_mask : ℕ
sequence_mask = 2 ^ sequence_bits - 1

-- `last_ms` is `none` for the initial -1, which lies before every reading of the clock.
pub record SnowflakeGenerator : Type 0 where
  pub worker_id : ℕ
  pub epoch_ms : ℕ
  pub last_ms : Option ℕ
  pub sequence : ℕ

-- `SnowflakeGenerator.__init__`: `none` is the ValueError for a worker id out of range.
unfoldable pub new_generator : ℕ → ℕ → Option SnowflakeGenerator
new_generator worker_id epoch_ms =
    if leb worker_id max_worker_id
    then some (record { worker_id = worker_id; epoch_ms = epoch_ms; last_ms = none; sequence = 0 })
    else none

-- What `next_id` ends in: an id, the ClockMovedBackwardsError with its delta, or a wait for the
-- next millisecond that the readings given do not bring to an end.
pub data IdResult : Type 0 where
  issued : ℕ → IdResult
  clock_moved_backwards : ℕ → IdResult
  still_waiting : IdResult

-- `_wait_until_next_ms`: the first reading past `last_ms`. The list is what the clock answers.
unfoldable pub wait_until_next_ms : ℕ → List ℕ → Option ℕ
wait_until_next_ms last_ms [] = none
wait_until_next_ms last_ms (now ∷ readings) =
    let rest = wait_until_next_ms last_ms readings in if leb now last_ms then rest else some now

unfoldable pub compose : ℕ → ℕ → ℕ → ℕ → ℕ
compose epoch_ms worker_id now sequence =
    (now - epoch_ms) * 2 ^ timestamp_shift + worker_id * 2 ^ worker_id_shift + sequence

-- The end of `next_id`: record the millisecond and the sequence, and build the id.
abbrev pub issue : SnowflakeGenerator → ℕ → ℕ → SnowflakeGenerator × IdResult
issue g now sequence = (
  record g { last_ms = some now; sequence = sequence },
  issued (compose g.epoch_ms g.worker_id now sequence),
)

-- The branch on the sequence after a wrap. While waiting, the wrapped sequence is already stored.
abbrev pub issue_after_wait : SnowflakeGenerator → Option ℕ → SnowflakeGenerator × IdResult
issue_after_wait g none = (record g { sequence = 0 }, still_waiting)
issue_after_wait g (some now) = issue g now 0

abbrev pub next_in_ms : SnowflakeGenerator → ℕ → ℕ → List ℕ → SnowflakeGenerator × IdResult
next_in_ms g last_ms now readings =
    let sequence = (g.sequence + 1) % 2 ^ sequence_bits in
    if sequence == 0
    then issue_after_wait g (wait_until_next_ms last_ms readings)
    else issue g now sequence

abbrev pub next_after : SnowflakeGenerator → Option ℕ → ℕ → List ℕ → SnowflakeGenerator × IdResult
next_after g none now readings = issue g now 0
next_after g (some last_ms) now readings =
    if ltb now last_ms
    then (g, clock_moved_backwards (last_ms - now))
    else if now == last_ms
    then next_in_ms g last_ms now readings
    else issue g now 0

-- `next_id`, given the clock's first reading and those that a wait would take.
unfoldable pub next_id : SnowflakeGenerator → ℕ → List ℕ → SnowflakeGenerator × IdResult
next_id g now readings = next_after g g.last_ms now readings

unfoldable pub decode : SnowflakeGenerator → ℕ → ℕ × ℕ × ℕ
decode g snowflake_id = (
  snowflake_id / 2 ^ timestamp_shift + g.epoch_ms,
  snowflake_id / 2 ^ worker_id_shift % 2 ^ worker_id_bits,
  snowflake_id % 2 ^ sequence_bits,
)
