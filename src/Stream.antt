-- ===== src/Stream.antt =====
-- The batching of rows for ClickHouse, workers/stream_worker/app/clickhouse_client.py. A row is of
-- any type, the clock is an argument, and `accepts` is what the ClickHouse client answers to the
-- insert of some rows into a table: false is an exception.
pub mod Flush
pub mod Messages
pub mod AtMostOnce
pub mod Lost
pub mod Consumer
pub mod Turns
use livequiz_platform.Prelude.{
  ℕ, ◌-◌, String, Bool, true, false, ◌&&◌, not, List, [], ◌∷◌, ◌++◌, map, length, leb, str_eq,
  if◌then◌else◌,
}

-- One entry of `_buffers`, with its time in `_last_flush`; the names of the columns are left out.
pub record Buffer {ℓ} (A : Type ℓ) : Type ℓ where
  pub table : String
  pub rows : List A
  pub last_flush : ℕ

-- The buffers, and the batches that ClickHouse has stored.
pub record ClickHouseClient {ℓ} (A : Type ℓ) : Type ℓ where
  pub buffers : List (Buffer A)
  pub stored : List (String × List A)

module _ {ℓ} {A : Type ℓ} (accepts : String → List A → Bool) where
  -- `_do_insert` of each drained batch; the first refusal raises and leaves out the rest.
  unfoldable pub do_inserts :
      List (String × List A) → List (String × List A) → Bool × List (String × List A)
  do_inserts [] stored = (true, stored)
  do_inserts ((table, rows) ∷ batches) stored =
      let rest = do_inserts batches ((table, rows) ∷ stored) in
      if accepts table rows then rest else (false, stored)

abbrev pub is_nil {ℓ} : {A : Type ℓ} → List A → Bool
is_nil [] = true
is_nil (x ∷ xs) = false

module _ {ℓ} {A : Type ℓ} (due : Buffer A → Bool) where
  -- What a flush drains: the buffers that are due and not empty.
  abbrev pub drained : List (Buffer A) → List (String × List A)
  drained [] = []
  drained (b ∷ bs) =
      if not (is_nil b.rows) && due b then (b.table, b.rows) ∷ drained bs else drained bs

module _ {ℓ} {A : Type ℓ} (now : ℕ) (due : Buffer A → Bool) where
  abbrev pub cleared : List (Buffer A) → List (Buffer A)
  cleared [] = []
  cleared (b ∷ bs) =
      (if not (is_nil b.rows) && due b then record b { rows = []; last_flush = now } else b)
      ∷ cleared bs

  -- The buffers are cleared before the inserts, also when an insert then raises.
  unfoldable pub flush : (String → List A → Bool) → ClickHouseClient A → Bool × ClickHouseClient A
  unfolding do_inserts
  flush accepts c =
      let (fine, stored) = do_inserts accepts (drained due c.buffers) c.stored in
      (fine, record { buffers = cleared c.buffers; stored = stored })

module _ {ℓ} {A : Type ℓ} (accepts : String → List A → Bool) (now : ℕ) where
  -- `flush_all`
  unfoldable pub flush_all : ClickHouseClient A → Bool × ClickHouseClient A
  unfolding flush
  flush_all c = flush now (λ _. true) accepts c

  -- `maybe_flush`, with the interval in the unit of the clock.
  unfoldable pub maybe_flush : ℕ → ClickHouseClient A → Bool × ClickHouseClient A
  unfolding flush
  maybe_flush interval c = flush now (λ b. leb interval (now - b.last_flush)) accepts c

-- The rows at the end of the buffer of a table, which is created when it is missing.
abbrev pub buffered {ℓ} : {A : Type ℓ} → ℕ → String → List A → List (Buffer A) → List (Buffer A)
buffered now table rows [] = record { table = table; rows = rows; last_flush = now } ∷ []
buffered now table rows (b ∷ bs) =
    let rest = buffered now table rows bs in
    if str_eq b.table table then record b { rows = b.rows ++ rows } ∷ bs else b ∷ rest

module _ {ℓ} {A : Type ℓ} (accepts : String → List A → Bool) (batch_rows now : ℕ) where
  -- `insert_many`: a buffer that is full is drained and inserted at once.
  unfoldable pub insert_many : String → List A → ClickHouseClient A → Bool × ClickHouseClient A
  unfolding flush
  insert_many table rows c =
      flush now (λ b. str_eq b.table table && leb batch_rows (length b.rows)) accepts
        (record c { buffers = buffered now table rows c.buffers })
