-- ===== src/Stream/Consumer.antt =====
-- The consumer loop of workers/stream_worker/app/main.py: one turn of `_run` over the records of a
-- poll, by partition. The commit of Kafka and the sleeps of a failed turn are I/O.
use livequiz_platform.Prelude.{
  ℕ, ◌+◌, String, Bool, true, false, not, Option, none, some, List, [], ◌∷◌, ◌++◌, if◌then◌else◌,
}
use livequiz_platform.Stream.{ClickHouseClient, flush_all, maybe_flush}
use livequiz_platform.Stream.Messages.{Envelope, Row, Worker, handle_message}

-- A record of a poll: its offset, its value as `parse_envelope` reads it, and whether Redis answers.
pub record Message : Type 0 where
  pub offset : ℕ
  pub value : Option Envelope
  pub redis_up : Bool

-- The worker, and what was committed, the newest first: the partition and the next offset.
pub record Consumer : Type 0 where
  pub worker : Worker
  pub committed : List (ℕ × ℕ)

-- How the messages of a partition went: whether one failed, and the safe offset.
pub record Progress : Type 0 where
  pub failed : Bool
  pub safe : Option ℕ
  pub worker : Worker

abbrev pub safe_entry : ℕ → Option ℕ → List (ℕ × ℕ)
safe_entry tp none = []
safe_entry tp (some offset) = (tp, offset) ∷ []

abbrev pub with_client : Worker → ClickHouseClient Row → Worker
with_client w c = record w { ch = c }

module _ (accepts : String → List Row → Bool) (batch_rows now : ℕ) where
  -- The inner loop: it breaks at the first message that failed.
  unfoldable pub run_partition : Option ℕ → List Message → Worker → Progress
  run_partition safe [] w = record { failed = false; safe = safe; worker = w }
  run_partition safe (m ∷ msgs) w =
      let r = handle_message accepts batch_rows now m.redis_up m.value w in
      let rest = run_partition (some (m.offset + 1)) msgs r.1 in
      if r.0 then rest else record { failed = true; safe = safe; worker = r.1 }

  -- The outer loop: it breaks at the first partition that failed.
  unfoldable pub run_records : List (ℕ × List Message) → Worker → Bool × List (ℕ × ℕ) × Worker
  unfolding run_partition
  run_records [] w = (false, [], w)
  run_records ((tp, msgs) ∷ records) w =
      let p = run_partition none msgs w in
      let rest = run_records records p.worker in
      if p.failed
      then (true, safe_entry tp p.safe, p.worker)
      else (rest.0, safe_entry tp p.safe ++ rest.1, rest.2)

  -- A turn that got records: every buffer is flushed, and the safe offsets are committed if that
  -- did not raise and the commit succeeds.
  abbrev pub finish_turn : (commits : Bool) → Bool × List (ℕ × ℕ) × Worker → Consumer → Consumer
  finish_turn commits (failed, safe, w) c =
      let r = flush_all accepts now w.ch in
      let worker = with_client w r.1 in
      if not r.0
      then record c { worker = worker }
      else if not commits
      then record c { worker = worker }
      else record { worker = worker; committed = safe ++ c.committed }

  -- `while not stop.is_set()`: one turn.
  unfoldable pub poll_turn :
      (interval : ℕ) → (commits : Bool) → List (ℕ × List Message) → Consumer → Consumer
  unfolding run_records
  poll_turn interval commits [] c = record c {
    worker = with_client c.worker (maybe_flush accepts now interval c.worker.ch).1;
  }
  poll_turn interval commits (r ∷ records) c =
      finish_turn commits (run_records (r ∷ records) c.worker) c
